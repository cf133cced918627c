-- ===== src/Engine/Writes.antt =====
-- `Put`, `Delete`, `write` and `rotate`: what reads find afterwards, at every bound.
use flume.Common.{
  ℕ, ◌<◌, ◌≤◌, ◌≡◌, refl, sym, ap, ◌∙◌, Bool, List, [], ◌∷◌, ◌++◌, append-nil, append_assoc, map,
  Option, none, some, ltb, leb, ◌==◌, if◌then◌else◌, All, inl, inr, Bool-cases, Option-cases,
}
use flume.Common.Perm.{of_eq}
use mathlib.Core.List.Permᴰ
use mathlib.Core.List.{Permᴰ}
use flume.Bytes.{Bytes, bytes_equal}
use flume.Bytes.Order.{compare_cases}
use flume.Skiplist.{Kv, insert, lookup}
use flume.Skiplist.Laws.{Sorted, lookup-insert, insert-Sorted}
use flume.Memtable
use flume.Memtable.{MemTable, Entry}
use flume.Sstable.{Record, better, candidate, newest, Distinct, type_value, type_tombstone}
use flume.Sstable.Versions.{newest-append, candidate_self, newest-hidden}
use flume.Wal.{record_put}
use flume.Engine.{Engine, ImmEntry, full_pair, record_of, build_records, rotate, apply_write}
use flume.Engine.Reads.{
  IsReadable, IsOrdered, versions, imm_versions, table_versions, no_version, one_version,
  none-better, bytes_equal→eq,
}

-- The versions behind the active MemTable.
abbrev pub older : Engine → List Record
older e = imm_versions e.imm ++ table_versions e.tables

-- Every sequence number in the store was given out, and no version twice.
pub record IsStore (e : Engine) : Type 0 where
  pub readable : IsReadable e
  pub given_out : All (λ (r : Record). r.seq ≤ e.seq) (versions e)
  pub distinct : Distinct (versions e)

pub imm_versions-snoc :
    (is : List ImmEntry) (i : ImmEntry)
    → imm_versions (is ++ i ∷ []) ≡ build_records i.mt ++ imm_versions is
imm_versions-snoc [] i = sym (append-nil (build_records i.mt))
imm_versions-snoc (j ∷ is) i =
    ap (λ l. l ++ build_records j.mt) (imm_versions-snoc is i)
    ∙ append_assoc (build_records i.mt) (imm_versions is) (build_records j.mt)

-- `rotate` moves versions and changes none of them, nor their order.
pub versions-rotate : (b : Bool) (e : Engine) → versions (rotate b e).1 ≡ versions e
unfolding rotate build_records
versions-rotate b e = elim (Bool-cases (ltb e.mem.size e.config.flush_threshold)) [
  | inl h ↦ rw (h, rotate)
  | inr h ↦ elim (Bool-cases b) [
    | inl o ↦
        rw (h, o, rotate)
          (ap (λ l. l ++ table_versions e.tables) (imm_versions-snoc e.imm (full_pair e))
            ∙ append_assoc (build_records e.mem) (imm_versions e.imm) (table_versions e.tables))
    | inr o ↦ rw (h, o, rotate)
  ]
]

-- The record that a write puts into the MemTable.
abbrev pub written : Bytes → Bytes → ℕ → ℕ → Record
written k v type n = record {
  key = k;
  value = if type == record_put then v else [];
  type = if type == record_put then type_value else type_tombstone;
  seq = n;
}

abbrev pub entry_of : Record → Entry
entry_of r = record { type = r.type; value = r.value; seq = r.seq }

pub skl-apply_write :
    (m : MemTable) (k v : Bytes) (type n : ℕ)
    → (apply_write m k v type n).skl ≡ insert k (entry_of (written k v type n)) m.skl
unfolding Memtable.put Memtable.delete
skl-apply_write m k v type n = elim (Bool-cases (type == record_put)) [
  | inl e ↦ rw e
  | inr e ↦ rw e
]

module _ (j : Bytes) (s : ℕ) where
  abbrev view : Option Entry → Option Record
  view none = none
  view (some en) =
      candidate j s (record { key = j; value = en.value; type = en.type; seq = en.seq })

  newest-view :
      (kvs : List (Kv Entry)) → Sorted kvs → newest j s (map record_of kvs) ≡ view (lookup j kvs)
  newest-view kvs h = elim (Option-cases (lookup j kvs)) [
    | inl e ↦ rw e (no_version j s kvs e)
    | inr (en, e) ↦ rw e (one_version j s kvs en h e)
  ]

-- What a write of `r` makes of a read of `j` at `s` in the MemTable.
abbrev pub seen_write : Bytes → ℕ → Record → Option Record → Option Record
seen_write j s r old = if bytes_equal r.key j then (if leb r.seq s then some r else none) else old

pub newest-insert :
    (j : Bytes) (s : ℕ) (r : Record) (kvs : List (Kv Entry))
    → Sorted kvs
    → newest j s (map record_of (insert r.key (entry_of r) kvs))
      ≡ seen_write j s r (newest j s (map record_of kvs))
newest-insert j s r kvs h =
    newest-view j s (insert r.key (entry_of r) kvs) (insert-Sorted r.key (entry_of r) kvs h)
    ∙ ap (view j s) (lookup-insert r.key j (entry_of r) kvs)
    ∙ elim (Bool-cases (bytes_equal r.key j)) [
      | inl e ↦ rw e (
          ap (λ k. candidate j s (record { key = k; value = r.value; type = r.type; seq = r.seq }))
            (sym (bytes_equal→eq r.key j e))
          ∙ candidate_self j s r (bytes_equal→eq r.key j e))
      | inr e ↦ rw e (sym (newest-view j s kvs h))
    ]

-- What a write of `r` makes of a read of `j` at `s` in the store `e`: at or above its sequence number
-- the record itself, below it what the older MemTables and the tables hold, and of other keys what it
-- was.
abbrev pub after_write : Engine → Record → Bytes → ℕ → Option Record
after_write e r j s =
    if bytes_equal r.key j
    then (if leb r.seq s then some r else newest j s (older e))
    else newest j s (versions e)

-- An engine whose MemTable took `r` and whose other parts are those of `e`.
pub newest-write :
    (e : Engine) (r : Record) (j : Bytes) (s : ℕ)
    → IsOrdered e.mem
    → All (λ (x : Record). x.seq < r.seq) (older e)
    → newest j s (map record_of (insert r.key (entry_of r) e.mem.skl) ++ older e)
      ≡ after_write e r j s
newest-write e r j s o new =
    newest-append j s (map record_of (insert r.key (entry_of r) e.mem.skl)) (older e)
    ∙ ap (λ b. better b (newest j s (older e))) (newest-insert j s r e.mem.skl o)
    ∙ elim (Bool-cases (bytes_equal r.key j)) [
      | inl h ↦ elim (Bool-cases (leb r.seq s)) [
        | inl l ↦ rw (h, l) (newest-hidden j s r (older e) new)
        | inr l ↦ rw (h, l) (none-better (newest j s (older e)))
      ]
      | inr h ↦
          rw h (unfold build_records in sym (newest-append j s (build_records e.mem) (older e)))
    ]

-- A put into an ordered map adds a record and may take one away.
pub record Replaced (r : Record) (kvs : List (Kv Entry)) : Type 0 where
  pub kept : List Record
  pub lost : List Record
  pub was : Permᴰ (map record_of kvs) (kept ++ lost)
  pub is : Permᴰ (map record_of (insert r.key (entry_of r) kvs)) (r ∷ kept)

pub insert-Replaced : (r : Record) (kvs : List (Kv Entry)) → Replaced r kvs
unfolding insert
insert-Replaced r [] = record { kept = []; lost = []; was = Permᴰ.nil; is = Permᴰ.refl (r ∷ []) }
insert-Replaced r (x ∷ kvs) = elim (compare_cases x.key r.key) [
  | inl p ↦
      let i = insert-Replaced r kvs in
      record {
        kept = record_of x ∷ i.kept;
        lost = i.lost;
        was = Permᴰ.cons refl i.was;
        is = rw (p, insert) (Permᴰ.trans (Permᴰ.cons refl i.is) (Permᴰ.swap refl refl));
      }
  | inr (inl (p, e)) ↦ record {
    kept = map record_of kvs;
    lost = record_of x ∷ [];
    was = Permᴰ.append_comm (record_of x ∷ []) (map record_of kvs);
    is =
        rw (p, insert)
          (of_eq (
            ap
              (λ k.
                record { key = k; value = r.value; type = r.type; seq = r.seq } ∷ map record_of kvs)
              e));
  }
  | inr (inr (p, q)) ↦ record {
    kept = map record_of (x ∷ kvs);
    lost = [];
    was = of_eq (sym (append-nil (map record_of (x ∷ kvs))));
    is = rw (p, insert) (Permᴰ.refl (r ∷ map record_of (x ∷ kvs)));
  }
]
