-- ===== src/Sstable/Lifecycle.antt =====
-- sstable/table.go: Acquire, Release and Retire, and the readers and the engine that call them.
use flume.Common.{
  ℕ, suc, ◌+◌, ◌-◌, ◌<◌, ◌≡◌, refl, sym, ◌∙◌, subst, arith, ◌==◌, Bool, true, false, ◌&&◌, not, ltb,
  if◌then◌else◌, Bool-cases, inl, inr, Result, ok, err, io_error,
}

-- The fields under `lifecycleMu`, the file descriptor, and the file on disk. The count is an int32
-- that may fall below 0, but only once `released` is set; from then on no branch depends on it.
pub record Table : Type 0 where
  pub ref_count : ℕ
  pub released : Bool
  pub remove_on_zero : Bool
  pub file_open : Bool
  pub on_disk : Bool

-- What `Open` returns: the caller holds the first reference.
abbrev pub opened : Table
opened = record {
  ref_count = 1;
  released = false;
  remove_on_zero = false;
  file_open = true;
  on_disk = true;
}

unfoldable pub acquire : Table → Bool × Table
acquire t = if t.released then (false, t) else (true, record t { ref_count = t.ref_count + 1 })

-- `Release`; a file that is closed twice is an error. That the operating system deletes a file is
-- taken for granted.
unfoldable pub release : Table → Result (Unit {0}) × Table
release t =
    let n = t.ref_count - 1 in
    if ltb 0 n then (ok tt, record t { ref_count = n }) else (
      if t.file_open then ok tt else err io_error,
      record t {
        ref_count = n;
        released = true;
        file_open = false;
        on_disk = t.on_disk && not t.remove_on_zero;
      },
    )

unfoldable pub retire : Table → Result (Unit {0}) × Table
unfolding release
retire t = release (record t { remove_on_zero = true })

-- A table, the readers that hold it, and whether it is in the engine's list.
pub record World : Type 0 where
  pub table : Table
  pub readers : ℕ
  pub listed : Bool

-- The calls that the engine and its readers make: a reader acquires a table of the list (under the
-- engine's lock) and later releases it; compaction takes a table from the list and retires it; `Close`
-- of the engine releases the tables of the list. A pass of the compaction that fails, after which the list
-- may hold a table twice or lose one without a release, is not among the steps.
pub data Step : World → World → Type 0 where
  read_start :
      (t : Table) (n : ℕ)
      → Step
          (record { table = t; readers = n; listed = true })
          (record { table = (acquire t).1; readers = suc n; listed = true })
  read_end :
      (t : Table) (n : ℕ) (l : Bool)
      → Step
          (record { table = t; readers = suc n; listed = l })
          (record { table = (release t).1; readers = n; listed = l })
  compacted :
      (t : Table) (n : ℕ)
      → Step
          (record { table = t; readers = n; listed = true })
          (record { table = (retire t).1; readers = n; listed = false })
  engine_closed :
      (t : Table) (n : ℕ)
      → Step
          (record { table = t; readers = n; listed = true })
          (record { table = (release t).1; readers = n; listed = false })

pub data Reachable : World → Type 0 where
  start : Reachable (record { table = opened; readers = 0; listed = true })
  step : {w w' : World} → Reachable w → Step w w' → Reachable w'

abbrev pub holders : World → ℕ
holders w = w.readers + (if w.listed then 1 else 0)

-- The count is the number of holders; the file is open as long as there is one; and it is on disk
-- unless there is none and the table was retired.
pub record IsCounted (w : World) : Type 0 where
  pub counted : w.table.ref_count ≡ holders w
  pub released : w.table.released ≡ (holders w == 0)
  pub file_open : w.table.file_open ≡ not (holders w == 0)
  pub on_disk : w.table.on_disk ≡ not ((holders w == 0) && w.table.remove_on_zero)

release-IsCounted :
    (t : Table) (n m : ℕ) (l l' : Bool)
    → IsCounted (record { table = t; readers = n; listed = l })
    → holders (record { table = t; readers = n; listed = l })
      ≡ suc (holders (record { table = t; readers = m; listed = l' }))
    → IsCounted (record { table = (release t).1; readers = m; listed = l' })
unfolding release
release-IsCounted t n m l l' h e = elim (Bool-cases (ltb 0 (t.ref_count - 1))) [
  | inl p ↦
      rw (p, release)
        (record {
          counted = count;
          released = h.released ∙ ground (arith, count, e);
          file_open = h.file_open ∙ ground (arith, count, e);
          on_disk = h.on_disk ∙ ground (arith, count, e);
        })
  | inr p ↦
      rw (p, release)
        (record {
          counted = count;
          released = ground (arith, count);
          file_open = ground (arith, count);
          on_disk = gone (ground (arith, count)) (h.on_disk ∙ ground (arith, e));
        })
]
  where
    count : t.ref_count - 1 ≡ holders (record { table = t; readers = m; listed = l' })
    count = omega (arith, h.counted, e)

    gone :
        {b : Bool}
        → b ≡ true
        → t.on_disk ≡ true
        → (t.on_disk && not t.remove_on_zero) ≡ not (b && t.remove_on_zero)
    gone p q = rw (p, q) refl

Step-IsCounted : {w w' : World} → Step w w' → IsCounted w → IsCounted w'
unfolding acquire retire
Step-IsCounted (Step.read_start t n) h =
    let alive : t.released ≡ false = h.released ∙ ground arith in
    subst
      (λ b. IsCounted (record {
        table =
            (if◌then◌else◌ {A = Bool × Table} b (false, t)
              (true, record t { ref_count = t.ref_count + 1 })).1;
        readers = suc n;
        listed = true;
      }))
      (sym alive)
      (record {
        counted = omega (arith, h.counted);
        released = alive ∙ ground arith;
        file_open = h.file_open ∙ ground arith;
        on_disk = h.on_disk ∙ ground arith;
      })
Step-IsCounted (Step.read_end t n l) h = release-IsCounted t (suc n) n l l h (omega arith)
Step-IsCounted (Step.compacted t n) h =
    release-IsCounted (record t { remove_on_zero = true }) n n true false
      (record {
        counted = h.counted;
        released = h.released;
        file_open = h.file_open;
        on_disk = h.on_disk ∙ ground arith;
      })
      (omega arith)
Step-IsCounted (Step.engine_closed t n) h = release-IsCounted t n n true false h (omega arith)

pub Reachable-IsCounted : {w : World} → Reachable w → IsCounted w
Reachable-IsCounted Reachable.start = record {
  counted = refl;
  released = refl;
  file_open = refl;
  on_disk = refl;
}
Reachable-IsCounted (Reachable.step r s) = Step-IsCounted s (Reachable-IsCounted r)

closes : (t : Table) → t.file_open ≡ true → (release t).0 ≡ ok tt
unfolding release
closes t o = elim (Bool-cases (ltb 0 (t.ref_count - 1))) [
  | inl p ↦ rw (p, release) refl
  | inr p ↦ rw (p, release, o) refl
]

-- As long as no pass of the compaction has failed, a table of the engine's list can be acquired and can be retired, without an
-- error: its file is never closed twice.
pub Reachable-listed :
    {w : World}
    → Reachable w
    → w.listed ≡ true
    → ((acquire w.table).0 ≡ true) × ((retire w.table).0 ≡ ok tt)
unfolding acquire retire
Reachable-listed {w} r l =
    let c = Reachable-IsCounted r in
    let alive : w.table.released ≡ false = c.released ∙ rw l (ground arith) in
    (
      rw (alive, acquire) refl,
      closes (record (w.table) { remove_on_zero = true }) (c.file_open ∙ rw l (ground arith)),
    )

-- As long as no pass of the compaction has failed, a reader that holds a table, also a retired one, finds its file open and can
-- release it without an error.
pub Reachable-reading :
    {w : World}
    → Reachable w
    → 0 < w.readers
    → (w.table.file_open ≡ true) × ((release w.table).0 ≡ ok tt)
Reachable-reading {w} r p =
    let o : w.table.file_open ≡ true = (Reachable-IsCounted r).file_open ∙ ground arith in
    (o, closes w.table o)
