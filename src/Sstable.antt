-- ===== src/Sstable.antt =====
-- sstable/sstable.go: the records of a table, the order in which `Write` wants them, and the
-- versions of a key that a reader can see.
pub mod Order
pub mod Versions
pub mod Merge
pub mod Format
pub mod Table
pub mod Iterator
pub mod Lifecycle
mod Runs
use flume.Common.{
  ℕ, zero, suc, ◌+◌, ◌<◌, ◌≤◌, ◌≡◌, Ordering, Bool, true, false, ◌&&◌, List, [], ◌∷◌, ◌++◌, Option,
  none, some, ltb, leb, ◌==◌, if◌then◌else◌, All, ◌⊎◌,
}
use flume.Bytes.{Bytes, bytes_compare, bytes_equal, KeyLt}

-- memtable.ValueType is a byte with two named values.
abbrev pub type_value : ℕ
type_value = 1

abbrev pub type_tombstone : ℕ
type_tombstone = 2

pub record Record : Type 0 where
  pub key : Bytes
  pub value : Bytes
  pub type : ℕ
  pub seq : ℕ

-- `mergeHeap.Less` and `scanHeap.Less`: by key, then by sequence number, highest first.
unfoldable pub less : Record → Record → Bool
less a b = elim (bytes_compare a.key b.key) [
  | Ordering.lt ↦ true
  | Ordering.eq ↦ ltb b.seq a.seq
  | Ordering.gt ↦ false
]

-- `Write` refuses a record that does not come strictly after the one before it.
unfoldable pub sorted_from : Record → List Record → Bool
sorted_from r [] = true
sorted_from r (x ∷ xs) = less r x && sorted_from x xs

unfoldable pub is_sorted : List Record → Bool
unfolding sorted_from
is_sorted [] = true
is_sorted (r ∷ rs) = sorted_from r rs

-- Of two candidates the one with the higher sequence number; the first, if they are equal.
unfoldable pub better : Option Record → Option Record → Option Record
better none y = y
better (some a) none = some a
better (some a) (some b) = if ltb a.seq b.seq then some b else some a

-- A record as a candidate for a read of `key` at `max_seq`.
unfoldable pub candidate : Bytes → ℕ → Record → Option Record
candidate key max_seq r = if bytes_equal r.key key && leb r.seq max_seq then some r else none

-- The version of `key` that a read at `max_seq` sees among the records: the one with the highest
-- sequence number not above `max_seq`.
unfoldable pub newest : Bytes → ℕ → List Record → Option Record
unfolding better candidate
newest key max_seq [] = none
newest key max_seq (r ∷ rs) = better (candidate key max_seq r) (newest key max_seq rs)

-- What a reader makes of that version: a tombstone reads as no value.
unfoldable pub live : Option Record → Option Bytes
live none = none
live (some r) = if r.type == type_tombstone then none else some r.value

-- Two versions differ in key or in sequence number.
abbrev pub Apart : Record → Record → Type 0
Apart a b = a.key ≡ b.key → a.seq ≡ b.seq → ⊥

abbrev pub Distinct : List Record → Type 0
Distinct [] = Unit
Distinct (r ∷ rs) = All (Apart r) rs × Distinct rs
