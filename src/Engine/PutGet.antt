-- ===== src/Engine/PutGet.antt =====
-- The store after a write: its invariant, and every later read.
use flume.Common.{
  ℕ, ◌+◌, ◌%◌, ◌^◌, ◌<◌, ◌≤◌, ◌≡◌, refl, sym, ap, ◌∙◌, subst, arith, Bool, false, List, [], ◌∷◌,
  ◌++◌, append_assoc, map, some, ltb, leb, if◌then◌else◌, le→leb, All, All-append, inl, inr,
  Bool-cases, Result, ok, err, closed, io_error, not_found,
}
use flume.Common.Perm.{All-perm, All-right, All-imp, of_eq, append-perm}
use mathlib.Core.List.Permᴰ
use mathlib.Core.List.{Permᴰ}
use flume.Bytes.{Bytes, bytes_equal}
use flume.Skiplist.{insert}
use flume.Skiplist.Laws.{Sorted, insert-Sorted}
use flume.Sstable.{Record, newest, Apart}
use flume.Sstable.Versions.{Distinct-perm, Distinct-right}
use flume.Wal.{Wal, append, record_put, record_delete}
use flume.Engine.{
  Engine, ImmEntry, full_pair, Weather, record_of, build_records, rotate, apply_write,
  write_memtable, write, put, delete, answer, get_at, get, is_empty, unbounded_seq,
}
use flume.Engine.Reads.{IsReadable, IsOrdered, versions, get_at-newest}
use flume.Engine.Writes.{
  IsStore, older, written, entry_of, skl-apply_write, after_write, newest-write, insert-Replaced,
  versions-rotate,
}

-- The number that the next write takes.
abbrev pub next_seq : Engine → ℕ
next_seq e = (e.seq + 1) % 2 ^ 64

-- The append of the write's record to the log succeeds.
abbrev pub Logged : Weather → Bytes → Bytes → ℕ → Engine → Type 0
Logged w k v type e =
    (append w.disk e.log (record { type = type; key = k; value = v; seq = next_seq e })).0 ≡ ok tt

-- `rotate` keeps order, numbering and openness.
record Kept (e e' : Engine) : Type 0 where
  readable : IsReadable e → IsReadable e'
  seq : e'.seq ≡ e.seq
  closed : e'.closed ≡ e.closed

rotate-Kept : (b : Bool) (e : Engine) → Kept e (rotate b e).1
unfolding rotate
rotate-Kept b e = elim (Bool-cases (ltb e.mem.size e.config.flush_threshold)) [
  | inl h ↦ rw (h, rotate) (record { readable = λ r. r; seq = refl; closed = refl })
  | inr h ↦ elim (Bool-cases b) [
    | inl o ↦
        rw (h, o, rotate)
          (record {
            readable = λ r. record {
              mem_ordered = tt;
              imm_ordered =
                  All-append (λ (i : ImmEntry). IsOrdered i.mt) e.imm (full_pair e ∷ [])
                    r.imm_ordered (r.mem_ordered, tt);
            };
            seq = refl;
            closed = refl;
          })
    | inr o ↦
        rw (h, o, rotate)
          (record {
            readable = λ r. record { mem_ordered = r.mem_ordered; imm_ordered = r.imm_ordered };
            seq = refl;
            closed = refl;
          })
  ]
]

-- What a logged write of `r` does to the fields that reads and later writes depend on.
record Wrote (r : Record) (e e' : Engine) : Type 0 where
  held : versions e' ≡ map record_of (insert r.key (entry_of r) e.mem.skl) ++ older e
  readable : IsReadable e'
  numbered : e'.seq ≡ r.seq
  open_still : e'.closed ≡ e.closed

-- The state between the MemTable's write and the rotation.
abbrev applied : Weather → Bytes → Bytes → ℕ → Engine → Engine
applied w k v type e = record e {
  seq = next_seq e;
  log = (append w.disk e.log (record { type = type; key = k; value = v; seq = next_seq e })).1;
  mem = apply_write e.mem k v type (next_seq e);
}

applied-Wrote :
    (w : Weather) (k v : Bytes) (type : ℕ) (e : Engine)
    → IsReadable e
    → Wrote (written k v type (next_seq e)) e (applied w k v type e)
applied-Wrote w k v type e h = record {
  held =
      unfold build_records in
      ap (λ l. map record_of l ++ older e) (skl-apply_write e.mem k v type (next_seq e));
  readable = record {
    mem_ordered =
        subst Sorted (sym (skl-apply_write e.mem k v type (next_seq e)))
          (insert-Sorted k (entry_of (written k v type (next_seq e))) e.mem.skl h.mem_ordered);
    imm_ordered = h.imm_ordered;
  };
  numbered = refl;
  open_still = refl;
}

rotate-Wrote : (b : Bool) (r : Record) (e e' : Engine) → Wrote r e e' → Wrote r e (rotate b e').1
rotate-Wrote b r e e' h =
    let k = rotate-Kept b e' in
    record {
      held = versions-rotate b e' ∙ h.held;
      readable = k.readable h.readable;
      numbered = k.seq ∙ h.numbered;
      open_still = k.closed ∙ h.open_still;
    }

write_memtable-Wrote :
    (w : Weather) (k v : Bytes) (type : ℕ) (r : Record) (e e' : Engine)
    → Wrote r e (record e' { mem = apply_write e'.mem k v type e'.seq })
    → Wrote r e (write_memtable w k v type e').1
unfolding write_memtable
write_memtable-Wrote w k v type r e e' a =
    elim (Bool-cases (leb e'.config.flush_threshold (apply_write e'.mem k v type e'.seq).size)) [
      | inl f ↦ rw (f, write_memtable) (rotate-Wrote w.log_opens r e _ a)
      | inr f ↦ rw (f, write_memtable) a
    ]

write-Wrote :
    (w : Weather) (k v : Bytes) (type : ℕ) (e : Engine)
    → IsReadable e
    → e.closed ≡ false
    → Logged w k v type e
    → Wrote (written k v type (next_seq e)) e (write w k v type e).1
unfolding write
write-Wrote w k v type e h c l =
    subst (λ b. Wrote r e (outcome b p.0).1) (sym c)
      (subst (λ o. Wrote r e (outcome false o).1) (sym l)
        (write_memtable-Wrote w k v type r e e' (applied-Wrote w k v type e h)))
  where
    r : Record
    r = written k v type (next_seq e)

    p : Result (Unit {0}) × Wal
    p = append w.disk e.log (record { type = type; key = k; value = v; seq = next_seq e })

    e' : Engine
    e' = record e { seq = next_seq e; log = p.1 }

    outcome : Bool → Result (Unit {0}) → Result (Unit {0}) × Engine
    outcome b o =
        if b
        then (err closed, e)
        else elim o [ err x ↦ (err io_error, e') | ok u ↦ write_memtable w k v type e' ]

-- The number that a write takes is above all that were given out before.
Numbered : Engine → Type 0
Numbered e = e.seq + 1 < 2 ^ 64

next_seq-suc : (e : Engine) → Numbered e → next_seq e ≡ e.seq + 1
unfolding Numbered
next_seq-suc e h = omega arith

newer :
    (e : Engine) → IsStore e → Numbered e → All (λ (x : Record). x.seq < next_seq e) (versions e)
newer e h n =
    All-imp (λ (x : Record). x.seq ≤ e.seq) (λ x. x.seq < next_seq e) (versions e)
      (λ x p. omega (arith, next_seq-suc e n)) h.given_out

-- A newer version is not any of the older ones.
newer→Apart :
    (r : Record) (xs : List Record) → All (λ (x : Record). x.seq < r.seq) xs → All (Apart r) xs
newer→Apart r xs h = All-imp (λ (x : Record). x.seq < r.seq) (Apart r) xs (λ x p _ q. omega arith) h

-- The versions after a write: the new one, and some of those before.
record Grown (r : Record) (e e' : Engine) : Type 0 where
  kept : List Record
  lost : List Record
  was : Permᴰ (versions e) (lost ++ kept)
  is : Permᴰ (versions e') (r ∷ kept)

Wrote-Grown : (r : Record) (e e' : Engine) → Wrote r e e' → Grown r e e'
unfolding build_records
Wrote-Grown r e e' h =
    let p = insert-Replaced r e.mem.skl in
    record {
      kept = p.kept ++ older e;
      lost = p.lost;
      was = Permᴰ.trans (append-perm p.was (Permᴰ.refl (older e))) (
          Permᴰ.trans (append-perm (Permᴰ.append_comm p.kept p.lost) (Permᴰ.refl (older e)))
            (of_eq (append_assoc p.lost p.kept (older e))));
      is = Permᴰ.trans (of_eq h.held) (append-perm p.is (Permᴰ.refl (older e)));
    }

module _ (w : Weather) (k v : Bytes) (type : ℕ) (e : Engine) (h : IsStore e) where
  -- A write that the log took keeps the store's invariant.
  pub write-IsStore :
      e.closed ≡ false → Logged w k v type e → e.seq + 1 < 2 ^ 64 → IsStore (write w k v type e).1
  write-IsStore c l n =
      let a = write-Wrote w k v type e h.readable c l in
      let r = written k v type (next_seq e) in
      let g = Wrote-Grown r e (write w k v type e).1 a in
      let older_than : (x : Record) → Type 0 = λ x. x.seq < next_seq e in
      let fresh =
        All-right older_than g.lost g.kept
          (All-perm older_than g.was (newer e h (unfold Numbered in n))) in
      record {
        readable = a.readable;
        given_out =
            subst (λ s. All (λ (x : Record). x.seq ≤ s) (versions (write w k v type e).1))
              (sym a.numbered)
              (All-perm (λ (x : Record). x.seq ≤ next_seq e) (Permᴰ.symm g.is)
                (
                  omega arith,
                  All-imp older_than (λ x. x.seq ≤ next_seq e) g.kept (λ x p. omega arith) fresh,
                ));
        distinct = Distinct-perm (Permᴰ.symm g.is) (
          newer→Apart r g.kept fresh,
          Distinct-right g.lost g.kept (Distinct-perm g.was h.distinct),
        );
      }

  -- What a later read makes of it, at every bound.
  read_write :
      e.closed ≡ false
      → Logged w k v type e
      → Numbered e
      → (j : Bytes) (s : ℕ) → is_empty j ≡ false
      → get_at j s (write w k v type e).1
        ≡ answer (after_write e (written k v type (next_seq e)) j s)
  read_write c l n j s m =
      let a = write-Wrote w k v type e h.readable c l in
      let r = written k v type (next_seq e) in
      get_at-newest j s (write w k v type e).1 a.readable (a.open_still ∙ c) m
      ∙ ap (λ l. answer (newest j s l)) a.held
      ∙ ap answer (
          newest-write e r j s h.readable.mem_ordered (
            All-right (λ (x : Record). x.seq < next_seq e) (build_records e.mem) (older e)
              (newer e h n)))

module _ (w : Weather) (k v : Bytes) (type : ℕ) (e : Engine) (h : IsStore e) where
  -- The same without a bound.
  read_last :
      e.closed ≡ false
      → Logged w k v type e
      → Numbered e
      → (j : Bytes) → is_empty j ≡ false
      → get j (write w k v type e).1
        ≡ (if bytes_equal k j then answer (some (written k v type (next_seq e))) else get j e)
  unfolding get
  read_last c l n j m =
      read_write w k v type e h c l n j unbounded_seq m ∙ elim (Bool-cases (bytes_equal k j)) [
        | inl q ↦ rw (q, le→leb (next_seq e) unbounded_seq (unfold Numbered in omega arith)) refl
        | inr q ↦ rw q (sym (get_at-newest j unbounded_seq e h.readable c m))
      ]

-- In an open store with its invariant, `Put` of a key that is not empty, if the log takes it and the
-- sequence numbers are not used up, makes `Get` return the value for its key and for every other key
-- what it returned before, whether or not the MemTable was rotated and whether or not that failed.
pub put-get :
    (w : Weather) (k v : Bytes) (e : Engine)
    → IsStore e
    → e.closed ≡ false
    → Logged w k v record_put e
    → e.seq + 1 < 2 ^ 64
    → is_empty k ≡ false
    → (j : Bytes) → is_empty j ≡ false
    → get j (put w k v e).1 ≡ (if bytes_equal k j then ok v else get j e)
unfolding put
put-get w k v e h c l n m j p =
    rw (m, put) (read_last w k v record_put e h c l (unfold Numbered in n) j p)

-- `Delete`, under the same conditions, makes `Get` answer ErrNotFound for its key and for every other
-- key what it returned before.
pub delete-get :
    (w : Weather) (k : Bytes) (e : Engine)
    → IsStore e
    → e.closed ≡ false
    → Logged w k [] record_delete e
    → e.seq + 1 < 2 ^ 64
    → is_empty k ≡ false
    → (j : Bytes) → is_empty j ≡ false
    → get j (delete w k e).1 ≡ (if bytes_equal k j then err not_found else get j e)
unfolding delete
delete-get w k e h c l n m j p =
    rw (m, delete) (read_last w k [] record_delete e h c l (unfold Numbered in n) j p)

-- A read that is pinned below a write's number sees other keys as before the write, and of the
-- written key only what lay behind the active MemTable: the version that the write replaced there is
-- gone for it.
pub write-pinned :
    (w : Weather) (k v : Bytes) (type : ℕ) (e : Engine)
    → IsStore e
    → e.closed ≡ false
    → Logged w k v type e
    → e.seq + 1 < 2 ^ 64
    → (j : Bytes) (s : ℕ) → is_empty j ≡ false
    → s ≤ e.seq
    → get_at j s (write w k v type e).1
      ≡ (if bytes_equal k j then answer (newest j s (older e)) else get_at j s e)
write-pinned w k v type e h c l n j s m b =
    read_write w k v type e h c l (unfold Numbered in n) j s m
    ∙ elim (Bool-cases (bytes_equal k j)) [
      | inl q ↦ rw (q, above) refl
      | inr q ↦ rw q (sym (get_at-newest j s e h.readable c m))
    ]
  where
    above : leb (next_seq e) s ≡ false
    above = ground (arith, next_seq-suc e (unfold Numbered in n))

-- A logged write leaves the store open.
pub write-closed :
    (w : Weather) (k v : Bytes) (type : ℕ) (e : Engine)
    → IsReadable e
    → e.closed ≡ false
    → Logged w k v type e
    → (write w k v type e).1.closed ≡ false
write-closed w k v type e h c l = (write-Wrote w k v type e h c l).open_still ∙ c
