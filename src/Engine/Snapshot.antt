-- ===== src/Engine/Snapshot.antt =====
-- engine/engine.go: Snapshot, its bookkeeping of pinned sequence numbers, and Close of a snapshot.
use flume.Common.{
  ℕ, ◌+◌, ◌-◌, ◌<◌, ◌≤◌, ◌≡◌, refl, ◌∙◌, subst, arith, Bool, true, false, List, [], ◌∷◌, ltb, leb,
  ◌==◌, if◌then◌else◌, Bool-cases, inl, inr, Result, ok, err, closed,
}
use flume.Bytes.{Bytes}
use flume.Engine.{Engine, get_at, unbounded_seq}
use flume.Engine.Compaction.{min_seq, min_active_snapshot_seq}

-- A Snapshot: its number, and its `closed` flag.
pub record Snapshot : Type 0 where
  pub seq : ℕ
  pub closed : Bool

-- `activeSnapshots[seq]++`
unfoldable pub pin : ℕ → List (ℕ × ℕ) → List (ℕ × ℕ)
pin seq [] = (seq, 1) ∷ []
pin seq (s ∷ ss) = if s.0 == seq then (seq, s.1 + 1) ∷ ss else s ∷ pin seq ss

-- `activeSnapshots[seq]--`, and the entry is deleted when its count is used up.
unfoldable pub unpin : ℕ → List (ℕ × ℕ) → List (ℕ × ℕ)
unpin seq [] = []
unpin seq (s ∷ ss) =
    if s.0 == seq then (if leb s.1 1 then ss else (seq, s.1 - 1) ∷ ss) else s ∷ unpin seq ss

unfoldable pub snapshot : Engine → Result Snapshot × Engine
unfolding pin
snapshot e = if e.closed then (err closed, e) else (
  ok (record { seq = e.seq; closed = false }),
  record e { active_snapshots = pin e.seq e.active_snapshots },
)

unfoldable pub snapshot_get : Snapshot → Bytes → Engine → Result Bytes
snapshot_get s key e = get_at key s.seq e

unfoldable pub close_snapshot : Snapshot → Engine → Snapshot × Engine
unfolding unpin
close_snapshot s e = if s.closed then (s, e) else (
  record s { closed = true },
  record e { active_snapshots = unpin s.seq e.active_snapshots },
)

-- How many open snapshots the book has at a number.
abbrev pub open_at : ℕ → List (ℕ × ℕ) → ℕ
open_at t [] = 0
open_at t (s ∷ ss) = if s.0 == t then s.1 else open_at t ss

-- Each number stands in the book once, with a count that is not zero.
abbrev pub IsBook : List (ℕ × ℕ) → Type 0
IsBook [] = Unit
IsBook (s ∷ ss) = (0 < s.1) × (open_at s.0 ss ≡ 0) × IsBook ss

open_at-pin :
    (seq t : ℕ) (ss : List (ℕ × ℕ))
    → open_at t (pin seq ss) ≡ open_at t ss + (if seq == t then 1 else 0)
unfolding pin
open_at-pin seq t [] = ground arith
open_at-pin seq t (s ∷ ss) = elim (Bool-cases (s.0 == seq)) [
  | inl e ↦ rw (e, pin) (ground arith)
  | inr e ↦ rw (e, pin) (ground (arith, open_at-pin seq t ss))
]

open_at-unpin :
    (seq t : ℕ) (ss : List (ℕ × ℕ))
    → IsBook ss
    → open_at t (unpin seq ss) ≡ open_at t ss - (if seq == t then 1 else 0)
unfolding unpin
open_at-unpin seq t [] b = ground arith
open_at-unpin seq t (s ∷ ss) b = elim (Bool-cases (s.0 == seq)) [
  | inl e ↦ elim (Bool-cases (leb s.1 1)) [
    | inl l ↦ rw (e, unpin, l) (ground (arith, none_left))
    | inr l ↦ rw (e, unpin, l) (ground arith)
  ]
  | inr e ↦ rw (e, unpin) (ground (arith, open_at-unpin seq t ss b.2))
]
  where
    none_left : s.0 ≡ t → open_at t ss ≡ 0
    none_left p = subst (λ x. open_at x ss ≡ 0) p b.1

min_seq-le_start : (m : ℕ) (ss : List (ℕ × ℕ)) → min_seq m ss ≤ m
unfolding min_seq
min_seq-le_start m [] = omega arith
min_seq-le_start m (s ∷ ss) = ground (arith, min_seq-le_start (if ltb s.0 m then s.0 else m) ss)

-- No number is above the bound of reads that are not pinned.
pub unpinned : (e : Engine) → min_active_snapshot_seq e ≤ unbounded_seq
unfolding min_active_snapshot_seq
unpinned e = min_seq-le_start unbounded_seq e.active_snapshots

min_seq-le : (m t : ℕ) (ss : List (ℕ × ℕ)) → 0 < open_at t ss → min_seq m ss ≤ t
unfolding min_seq
min_seq-le m t [] h = absurd (omega arith)
min_seq-le m t (s ∷ ss) h = elim (Bool-cases (s.0 == t)) [
  | inl e ↦ ground (arith, min_seq-le_start (if ltb s.0 m then s.0 else m) ss)
  | inr e ↦ min_seq-le (if ltb s.0 m then s.0 else m) t ss (rw e at h)
]

unpin-IsBook : (seq : ℕ) (ss : List (ℕ × ℕ)) → IsBook ss → IsBook (unpin seq ss)
unfolding unpin
unpin-IsBook seq [] b = tt
unpin-IsBook seq (s ∷ ss) b = elim (Bool-cases (s.0 == seq)) [
  | inl e ↦ elim (Bool-cases (leb s.1 1)) [
    | inl l ↦ rw (e, unpin, l) b.2
    | inr l ↦ rw (e, unpin, l) (ground arith, subst (λ x. open_at x ss ≡ 0) (ground arith) b.1, b.2)
  ]
  | inr e ↦
      rw (e, unpin)
        (b.0, open_at-unpin seq s.0 ss b.2 ∙ ground (arith, b.1), unpin-IsBook seq ss b.2)
]

pin-IsBook : (seq : ℕ) (ss : List (ℕ × ℕ)) → IsBook ss → IsBook (pin seq ss)
unfolding pin
pin-IsBook seq [] b = (omega arith, refl, tt)
pin-IsBook seq (s ∷ ss) b = elim (Bool-cases (s.0 == seq)) [
  | inl e ↦ rw (e, pin) (omega arith, subst (λ x. open_at x ss ≡ 0) (ground arith) b.1, b.2)
  | inr e ↦ rw (e, pin) (b.0, open_at-pin seq s.0 ss ∙ ground (arith, b.1), pin-IsBook seq ss b.2)
]

-- One event of the book: a snapshot is taken at a number, or one at a number is closed.
pub data Event : Type 0 where
  opened dropped : ℕ → Event

abbrev pub record_event : Event → List (ℕ × ℕ) → List (ℕ × ℕ)
record_event (opened n) ss = pin n ss
record_event (dropped n) ss = unpin n ss

abbrev pub book : List Event → List (ℕ × ℕ) → List (ℕ × ℕ)
book [] ss = ss
book (v ∷ vs) ss = book vs (record_event v ss)

-- How often a list of events drops a number.
abbrev pub drops : ℕ → List Event → ℕ
drops t [] = 0
drops t (opened n ∷ vs) = drops t vs
drops t (dropped n ∷ vs) = (if n == t then 1 else 0) + drops t vs

book-open_at :
    (t : ℕ) (vs : List Event) (ss : List (ℕ × ℕ))
    → IsBook ss
    → open_at t ss ≤ open_at t (book vs ss) + drops t vs
book-open_at t [] ss b = omega arith
book-open_at t (opened n ∷ vs) ss b =
    omega (arith, open_at-pin n t ss, book-open_at t vs (pin n ss) (pin-IsBook n ss b))
book-open_at t (dropped n ∷ vs) ss b =
    omega (arith, open_at-unpin n t ss b, book-open_at t vs (unpin n ss) (unpin-IsBook n ss b))

-- After a snapshot is taken, and whatever other snapshots are taken and closed since, the number that
-- compaction keeps versions for is not above the snapshot's, as long as fewer snapshots were closed at
-- that number than were open at it with this one.
pub snapshot-pinned :
    (e : Engine) (vs : List Event)
    → IsBook e.active_snapshots
    → e.closed ≡ false
    → drops e.seq vs ≤ open_at e.seq e.active_snapshots
    → min_active_snapshot_seq
        (record e { active_snapshots = book vs (snapshot e).1.active_snapshots })
      ≤ e.seq
unfolding snapshot min_active_snapshot_seq
snapshot-pinned e vs b c h = rw c (
    min_seq-le unbounded_seq e.seq (book vs (pin e.seq e.active_snapshots)) (
      ground (
        arith,
        open_at-pin e.seq e.seq e.active_snapshots,
        book-open_at e.seq vs (pin e.seq e.active_snapshots)
            (pin-IsBook e.seq e.active_snapshots b),
      )))

-- Closing a snapshot a second time changes nothing.
pub close_snapshot-twice :
    (s : Snapshot) (e : Engine)
    → close_snapshot (close_snapshot s e).0 (close_snapshot s e).1 ≡ close_snapshot s e
unfolding close_snapshot
close_snapshot-twice s e = elim (Bool-cases s.closed) [
  | inl c ↦ rw (c, close_snapshot) refl
  | inr c ↦ rw (c, close_snapshot) refl
]

-- To take a snapshot and close it leaves the book with as many open snapshots at every number.
pub snapshot-close :
    (e : Engine) (t : ℕ)
    → IsBook e.active_snapshots
    → e.closed ≡ false
    → open_at t
        (close_snapshot (record { seq = e.seq; closed = false }) (snapshot e).1).1.active_snapshots
      ≡ open_at t e.active_snapshots
unfolding snapshot close_snapshot
snapshot-close e t b c = rw c (
    open_at-unpin e.seq t (pin e.seq e.active_snapshots) (pin-IsBook e.seq e.active_snapshots b)
    ∙ ground (arith, open_at-pin e.seq t e.active_snapshots))
