-- ===== src/Engine/Recovery/Replay.antt =====
-- Recovery: what reads find in a store that was opened.
use flume.Common.{
  ℕ, ◌+◌, ◌%◌, ◌<◌, ◌≤◌, ◌≡◌, refl, sym, ap, ◌∙◌, subst, arith, true, false, List, [], ◌∷◌, ◌++◌,
  append-nil, map, Option, none, some, ltb, le→leb, if◌then◌else◌, All, All-append, inl, inr, ◌⊎◌,
  Bool-cases, Option-cases, ok, ◌>>=◌, Returns, Returns-bind, Returns→ok,
}
use flume.Common.Perm.{All-perm, All-left, All-imp}
use mathlib.Core.List.Permᴰ
use flume.Bytes.{Bytes, bytes_equal}
use flume.Wal
use flume.Wal.{record_put, record_delete, replay, deliver, encode_all, read_record}
use flume.Wal.Recovery.{IsLoggable, replay-encode_all}
use flume.Skiplist.{Kv, insert}
use flume.Skiplist.Laws.{Sorted, insert-Sorted}
use flume.Memtable
use flume.Memtable.{MemTable, Entry}
use flume.Sstable.{Record, better, candidate, newest}
use flume.Sstable.Versions.{better-none, better_assoc, newest-append, candidate_self}
use flume.Engine.{
  Engine, Config, record_of, build_records, apply_write, get, answer, is_empty, unbounded_seq,
}
use flume.Engine.Reads.{
  IsReadable, IsOrdered, versions, table_versions, get_at-newest, missed, none-better,
  bytes_equal→eq,
}
use flume.Engine.Writes.{
  written, entry_of, skl-apply_write, newest-insert, seen_write, insert-Replaced,
}
use flume.Engine.Flush.Reads.{written_table, table_versions-snoc}
use flume.Sstable.Versions.{newest-Found}
use flume.Engine.Recovery.{
  recover_record, replay_all, adopt, recover_from_wals, Found, opening, open_engine,
}

-- A record of the log as a version.
abbrev pub as_version : Wal.Record → Record
as_version r = written r.key r.value r.type r.seq

abbrev pub log_versions : List (List Wal.Record) → List Record
log_versions [] = []
log_versions (rs ∷ rss) = map as_version rs ++ log_versions rss

-- A type that the code writes.
abbrev pub IsKnown : Wal.Record → Type 0
IsKnown r = (r.type ≡ record_put) ⊎ (r.type ≡ record_delete)

-- Sequence numbers go up.
abbrev pub Rising : List Wal.Record → Type 0
Rising [] = Unit
Rising (r ∷ rs) = All (λ (x : Wal.Record). r.seq < x.seq) rs × Rising rs

abbrev pub all_logged : List (List Wal.Record) → List Wal.Record
all_logged [] = []
all_logged (rs ∷ rss) = rs ++ all_logged rss

abbrev apply_all : List Wal.Record → MemTable → MemTable
apply_all [] m = m
apply_all (r ∷ rs) m = apply_all rs (apply_write m r.key r.value r.type r.seq)

abbrev max_all : List Wal.Record → ℕ → ℕ
max_all [] n = n
max_all (r ∷ rs) n = max_all rs (if ltb n r.seq then r.seq else n)

recover_record-known :
    (r : Wal.Record) (p : MemTable × ℕ)
    → IsKnown r
    → recover_record r p
      ≡ ok (apply_write p.0 r.key r.value r.type r.seq, (if ltb p.1 r.seq then r.seq else p.1))
unfolding recover_record
recover_record-known r p (inl e) = rw e
recover_record-known r p (inr e) = rw e

deliver-known :
    (rs : List Wal.Record) (p : MemTable × ℕ)
    → All IsKnown rs
    → deliver recover_record rs p ≡ ok (apply_all rs p.0, max_all rs p.1)
unfolding deliver
deliver-known [] p h = refl
deliver-known (r ∷ rs) p h = rw (recover_record-known r p h.0) (
    deliver-known rs
      (apply_write p.0 r.key r.value r.type r.seq, (if ltb p.1 r.seq then r.seq else p.1)) h.1)

-- A file that holds the records and behind them at most a part of another.
pub record HoldsRecords (f : Bytes) (rs : List Wal.Record) : Type 0 where
  pub tail : Bytes
  pub file_is : f ≡ encode_all rs ++ tail
  pub torn : read_record tail ≡ none
  pub loggable : All IsLoggable rs
  pub known : All IsKnown rs

abbrev pub HoldAll : List Bytes → List (List Wal.Record) → Type 0
HoldAll [] [] = Unit
HoldAll [] (rs ∷ rss) = ⊥
HoldAll (f ∷ fs) [] = ⊥
HoldAll (f ∷ fs) (rs ∷ rss) = HoldsRecords f rs × HoldAll fs rss

apply_all-append :
    (rs qs : List Wal.Record) (m : MemTable)
    → apply_all (rs ++ qs) m ≡ apply_all qs (apply_all rs m)
apply_all-append [] qs m = refl
apply_all-append (r ∷ rs) qs m = apply_all-append rs qs (apply_write m r.key r.value r.type r.seq)

max_all-append :
    (rs qs : List Wal.Record) (n : ℕ) → max_all (rs ++ qs) n ≡ max_all qs (max_all rs n)
max_all-append [] qs n = refl
max_all-append (r ∷ rs) qs n = max_all-append rs qs (if ltb n r.seq then r.seq else n)

replay_all-HoldAll :
    (fs : List Bytes) (rss : List (List Wal.Record)) (p : MemTable × ℕ)
    → HoldAll fs rss
    → replay_all fs p ≡ ok (apply_all (all_logged rss) p.0, max_all (all_logged rss) p.1)
unfolding replay_all
replay_all-HoldAll [] [] p h = refl
replay_all-HoldAll [] (rs ∷ rss) p h = absurd h
replay_all-HoldAll (f ∷ fs) [] p h = absurd h
replay_all-HoldAll (f ∷ fs) (rs ∷ rss) p h =
    let first : replay recover_record (some f) p ≡ ok (apply_all rs p.0, max_all rs p.1) =
      ap (λ b. replay recover_record (some b) p) h.0.file_is
      ∙ replay-encode_all recover_record rs h.0.tail p h.0.loggable h.0.torn
      ∙ deliver-known rs p h.0.known in
    rw (first, apply_all-append rs (all_logged rss) p.0, max_all-append rs (all_logged rss) p.1)
      (replay_all-HoldAll fs rss (apply_all rs p.0, max_all rs p.1) h.1)

module _ (k : Bytes) (s : ℕ) where
  -- A put of a newer record, as a read at or above its number sees it.
  seen-better :
      (w : Record) (xs : List Record)
      → w.seq ≤ s
      → All (λ (x : Record). x.seq < w.seq) xs
      → seen_write k s w (newest k s xs) ≡ better (newest k s xs) (candidate k s w)
  seen-better w xs le lt = elim (Bool-cases (bytes_equal w.key k)) [
    | inl e ↦
        rw (e, le→leb w.seq s le)
          (sym (
            ap (better (newest k s xs))
              (candidate_self k s w (bytes_equal→eq w.key k e) ∙ rw (le→leb w.seq s le) refl)
            ∙ newer_wins (Option-cases (newest k s xs))))
    | inr e ↦
        rw e (sym (ap (better (newest k s xs)) (missed k s w e) ∙ better-none (newest k s xs)))
  ]
    where
      newer_wins :
          (newest k s xs ≡ none) ⊎ ((x : Record) × (newest k s xs ≡ some x))
          → better (newest k s xs) (some w) ≡ some w
      newer_wins (inl e) = rw e (none-better (some w))
      newer_wins (inr (x, e)) =
          rw e (loses x w (newest-Found (λ (x : Record). x.seq < w.seq) k s xs x e lt).0)
        where
          loses : (x w : Record) → x.seq < w.seq → better (some x) (some w) ≡ some w
          loses x w h = unfold better in ground arith

-- All versions of a MemTable are older than the record.
abbrev Older : MemTable → Wal.Record → Type 0
Older m r = All (λ (x : Record). x.seq < r.seq) (map record_of m.skl)

apply_write-versions :
    (m : MemTable) (r : Wal.Record)
    → map record_of (apply_write m r.key r.value r.type r.seq).skl
      ≡ map record_of (insert (as_version r).key (entry_of (as_version r)) m.skl)
apply_write-versions m r = ap (map record_of) (skl-apply_write m r.key r.value r.type r.seq)

apply_write-Older :
    (m : MemTable) (r q : Wal.Record)
    → Older m r
    → r.seq < q.seq
    → Older (apply_write m r.key r.value r.type r.seq) q
apply_write-Older m r q h lt =
    let p = insert-Replaced (as_version r) m.skl in
    let below : Record → Type 0 = λ x. x.seq < q.seq in
    let old =
      All-imp (λ (x : Record). x.seq < r.seq) below (map record_of m.skl) (λ x l. omega arith) h in
    subst (All below) (sym (apply_write-versions m r)) (
      All-perm below (Permᴰ.symm p.is)
        (lt, All-left below p.kept p.lost (All-perm below p.was old)))

apply_write-IsOrdered :
    (m : MemTable) (r : Wal.Record)
    → IsOrdered m
    → IsOrdered (apply_write m r.key r.value r.type r.seq)
apply_write-IsOrdered m r o =
    subst Sorted (sym (skl-apply_write m r.key r.value r.type r.seq))
      (insert-Sorted (as_version r).key (entry_of (as_version r)) m.skl o)

apply_all-IsOrdered :
    (rs : List Wal.Record) (m : MemTable) → IsOrdered m → IsOrdered (apply_all rs m)
apply_all-IsOrdered [] m o = o
apply_all-IsOrdered (r ∷ rs) m o =
    apply_all-IsOrdered rs (apply_write m r.key r.value r.type r.seq) (apply_write-IsOrdered m r o)

module _ (k : Bytes) (s : ℕ) where
  -- A MemTable that took records with rising numbers reads, above them all, as the records do.
  newest-apply_all :
      (rs : List Wal.Record) (m : MemTable)
      → IsOrdered m
      → All (Older m) rs
      → Rising rs
      → All (λ (r : Wal.Record). r.seq ≤ s) rs
      → newest k s (map record_of (apply_all rs m).skl)
        ≡ better (newest k s (map record_of m.skl)) (newest k s (map as_version rs))
  newest-apply_all [] m o b h l =
      unfold newest in sym (better-none (newest k s (map record_of m.skl)))
  newest-apply_all (r ∷ rs) m o b h l =
      newest-apply_all rs (apply_write m r.key r.value r.type r.seq) (apply_write-IsOrdered m r o)
        (All-imp (λ (q : Wal.Record). r.seq < q.seq)
          (Older (apply_write m r.key r.value r.type r.seq)) rs
          (λ q lt. apply_write-Older m r q b.0 lt) h.0)
        h.1 l.1
      ∙ ap (λ x. better x (newest k s (map as_version rs)))
          (ap (newest k s) (apply_write-versions m r)
            ∙ newest-insert k s (as_version r) m.skl o
            ∙ seen-better k s (as_version r) (map record_of m.skl) l.0 b.0)
      ∙ better_assoc (newest k s (map record_of m.skl)) (candidate k s (as_version r))
          (newest k s (map as_version rs))
      ∙ (unfold newest in refl)

log_versions-flat :
    (rss : List (List Wal.Record)) → map as_version (all_logged rss) ≡ log_versions rss
log_versions-flat [] = refl
log_versions-flat (rs ∷ rss) =
    map_append rs (all_logged rss) ∙ ap (λ l. map as_version rs ++ l) (log_versions-flat rss)
  where
    map_append :
        (xs ys : List Wal.Record)
        → map as_version (xs ++ ys) ≡ map as_version xs ++ map as_version ys
    map_append [] ys = refl
    map_append (x ∷ xs) ys = ap (λ l. as_version x ∷ l) (map_append xs ys)

all_Older-new : (rs : List Wal.Record) → All (Older Memtable.new) rs
all_Older-new [] = tt
all_Older-new (r ∷ rs) = (tt, all_Older-new rs)

-- A store that was opened: it holds what the tables and the recovered MemTable hold.
Reopened : Found → MemTable → Engine → Type 0
Reopened f m e =
    (versions e ≡ table_versions f.tables ++ build_records m) × IsReadable e × (e.closed ≡ false)

adopt-Returns :
    (c : Config) (size n : ℕ) (f : Found) (kvs : List (Kv Entry)) (bytes : ℕ)
    → Sorted kvs
    → Returns
        (adopt (some size) (opening c f) (record { skl = kvs; size = bytes }, n))
        (Reopened f (record { skl = kvs; size = bytes }))
unfolding adopt Reopened build_records
adopt-Returns c size n f [] bytes o = (
  sym (append-nil (table_versions f.tables)),
  record { mem_ordered = tt; imm_ordered = tt },
  refl,
)
adopt-Returns c size n f (x ∷ kvs) bytes o =
    rw (written_table size ((f.max_gen + 1) % 18446744073709551616) (x ∷ kvs) o (λ p. cc)) (
      table_versions-snoc f.tables (record {
        level = 0;
        table = record {
          gen = (f.max_gen + 1) % 18446744073709551616;
          records = map record_of (x ∷ kvs);
          size_bytes = size;
        };
      }),
      record { mem_ordered = tt; imm_ordered = tt },
      refl,
    )

recover-Returns :
    (c : Config) (size : ℕ) (f : Found) (fs : List Bytes) (rss : List (List Wal.Record))
    → HoldAll fs rss
    → Returns
        (recover_from_wals (some size) fs (opening c f))
        (Reopened f (apply_all (all_logged rss) Memtable.new))
unfolding recover_from_wals Reopened build_records
recover-Returns c size f [] [] h = (
  sym (append-nil (table_versions f.tables)),
  record { mem_ordered = tt; imm_ordered = tt },
  refl,
)
recover-Returns c size f [] (rs ∷ rss) h = absurd h
recover-Returns c size f (b ∷ fs) [] h = absurd h
recover-Returns c size f (b ∷ fs) (rs ∷ rss) h =
    let m = apply_all (all_logged (rs ∷ rss)) Memtable.new in
    subst (λ o. Returns (o >>= λ p. adopt (some size) (opening c f) p) (Reopened f m))
      (sym (replay_all-HoldAll (b ∷ fs) (rs ∷ rss) (Memtable.new, 0) h))
      (unfold Reopened in
        adopt-Returns c size (max_all (all_logged (rs ∷ rss)) 0) f m.skl m.size
          (apply_all-IsOrdered (all_logged (rs ∷ rss)) Memtable.new tt))

open-Returns :
    (c : Config) (size : ℕ) (f : Found) (rss : List (List Wal.Record))
    → HoldAll f.wal_files rss
    → Returns
        (open_engine c (some size) true f)
        (Reopened f (apply_all (all_logged rss) Memtable.new))
unfolding open_engine
open-Returns c size f rss h =
    let m = apply_all (all_logged rss) Memtable.new in
    Returns-bind (Reopened f m) (Reopened f m)
      (recover_from_wals (some size) f.wal_files (opening c f)) _
      (recover-Returns c size f f.wal_files rss h)
      λ e r.
        unfold Reopened in
        (r.0, record { mem_ordered = r.1.mem_ordered; imm_ordered = r.1.imm_ordered }, r.2)

fits :
    (fs : List Bytes) (rss : List (List Wal.Record))
    → HoldAll fs rss
    → All (λ (r : Wal.Record). r.seq ≤ unbounded_seq) (all_logged rss)
fits [] [] h = tt
fits [] (rs ∷ rss) h = absurd h
fits (f ∷ fs) [] h = absurd h
fits (f ∷ fs) (rs ∷ rss) h =
    All-append (λ (r : Wal.Record). r.seq ≤ unbounded_seq) rs (all_logged rss)
      (All-imp IsLoggable (λ r. r.seq ≤ unbounded_seq) rs (λ r l. omega (arith, l.0.seq_fits))
        h.0.loggable)
      (fits fs rss h.1)

none_first :
    (k : Bytes) (s : ℕ) (x : Option Record)
    → better (newest k s (map record_of Memtable.new.skl)) x ≡ x
unfolding newest
none_first k s x = none-better x

-- `Open` of a directory with any tables and any number of logs, each of which holds whole records, of
-- puts and deletes whose fields fit the format and whose keys and values have at most 512 MiB, with at
-- most a torn one behind them, numbered in rising order over all the logs, opens a store, if its
-- files can be written, in which `Get` of a key answers with the newest of all the versions that the
-- tables and the whole records of the logs have of it.
pub open-get :
    (c : Config) (size : ℕ) (f : Found) (rss : List (List Wal.Record)) (k : Bytes)
    → HoldAll f.wal_files rss
    → Rising (all_logged rss)
    → is_empty k ≡ false
    → (open_engine c (some size) true f >>= λ e. get k e)
      ≡ answer (newest k unbounded_seq (table_versions f.tables ++ log_versions rss))
unfolding get Reopened build_records
open-get c size f rss k h up n =
    let m = apply_all (all_logged rss) Memtable.new in
    let (e, p, r) =
      Returns→ok (Reopened f m) (open_engine c (some size) true f) (open-Returns c size f rss h) in
    rw p (
      get_at-newest k unbounded_seq e r.1 r.2 n
      ∙ ap (λ l. answer (newest k unbounded_seq l)) r.0
      ∙ ap answer (
          newest-append k unbounded_seq (table_versions f.tables) (map record_of m.skl)
          ∙ ap (better (newest k unbounded_seq (table_versions f.tables))) (
              newest-apply_all k unbounded_seq (all_logged rss) Memtable.new tt
                (all_Older-new (all_logged rss)) up (fits f.wal_files rss h)
              ∙ none_first k unbounded_seq
                  (newest k unbounded_seq (map as_version (all_logged rss)))
              ∙ ap (newest k unbounded_seq) (log_versions-flat rss))
          ∙ sym (newest-append k unbounded_seq (table_versions f.tables) (log_versions rss))))
