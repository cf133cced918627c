-- ===== src/Sstable/Format/Publish.antt =====
-- The files that `Write` goes through: a temporary one, renamed when all of it is on the disk.
use flume.Common.{
  ℕ, ◌≡◌, refl, ◌⊎◌, inl, inr, Bool, true, ◌&&◌, not, List, [], ◌∷◌, Option, none, some,
  if◌then◌else◌, take, All, Result, ok, err, empty_table, io_error, Bool-cases,
}
use flume.Bytes.{Bytes}
use flume.Bloom.{Sizing}
use flume.Sstable.{Record}
use flume.Sstable.Format.{Flate, Nils, write}

-- What stands at the table's path and at that path with ".tmp" behind it.
pub record Files : Type 0 where
  pub final : Option Bytes
  pub temp : Option Bytes

-- Which of the system's calls succeed, and how much of the file is on the disk when one of the
-- writes does not.
pub record Disk : Type 0 where
  pub create_ok : Bool
  pub write_ok : Bool
  pub flush_ok : Bool
  pub sync_ok : Bool
  pub close_ok : Bool
  pub rename_ok : Bool
  pub remove_ok : Bool
  pub reached : ℕ

-- `os.Remove(tmpPath)`, whose own error is not looked at.
unfoldable pub remove_temp : Disk → Files → Files
remove_temp disk d = if disk.remove_ok then record d { temp = none } else d

module _ (z : Flate) (sizing : Sizing) (nils : Nils) (disk : Disk) where
  -- The states of the directory after the content was made, and the outcome.
  unfoldable pub put_content : Files → Result Bytes → List Files × Result (Unit {0})
  unfolding remove_temp
  put_content d (err e) =
      let created : Files = record d { temp = some [] } in
      (created ∷ remove_temp disk created ∷ [], err e)
  put_content d (ok bytes) =
      let created : Files = record d { temp = some [] } in
      let partial : Files = record d { temp = some (take disk.reached bytes) } in
      let complete : Files = record d { temp = some bytes } in
      let renamed : Files = record { final = some bytes; temp = none } in
      if not (disk.write_ok && disk.flush_ok)
      then (created ∷ partial ∷ remove_temp disk partial ∷ [], err io_error)
      else if not (disk.sync_ok && disk.close_ok && disk.rename_ok)
      then (created ∷ partial ∷ complete ∷ remove_temp disk complete ∷ [], err io_error)
      else (created ∷ partial ∷ complete ∷ renamed ∷ [], ok tt)

  -- `Write` as the directory sees it: its states one after the other, and the error.
  unfoldable pub write_file : Files → List Record → Bool → List Files × Result (Unit {0})
  unfolding put_content
  write_file d [] compress = ([], err empty_table)
  write_file d (r ∷ rs) compress =
      if disk.create_ok
      then put_content d (write z sizing nils (r ∷ rs) compress)
      else ([], err io_error)

-- The last state.
unfoldable pub left : Files → List Files → Files
left d [] = d
left d (x ∷ xs) = left x xs

-- At the table's path stands what stood there, or a whole table.
abbrev pub IsWhole : Flate → Sizing → Nils → List Record → Bool → Files → Files → Type 0
IsWhole z sizing nils rs compress d d' =
    (d'.final ≡ d.final)
    ⊎ ((bytes : Bytes) × (write z sizing nils rs compress ≡ ok bytes) × (d'.final ≡ some bytes))

module _ (z : Flate) (sizing : Sizing) (nils : Nils) (disk : Disk) (d : Files) where
  removed-final : (x : Files) → (remove_temp disk x).final ≡ x.final
  unfolding remove_temp
  removed-final x = elim (Bool-cases disk.remove_ok) [ inl e ↦ rw e refl | inr e ↦ rw e refl ]

  put_content-whole :
      (c : Result Bytes)
      → All
          (λ d'.
            (d'.final ≡ d.final) ⊎ ((bytes : Bytes) × (c ≡ ok bytes) × (d'.final ≡ some bytes)))
          (put_content z sizing nils disk d c).0
  unfolding put_content
  put_content-whole (err e) = (inl refl, (inl (removed-final _), tt))
  put_content-whole (ok bytes) = elim (Bool-cases (not (disk.write_ok && disk.flush_ok))) [
    | inl e ↦ rw e (inl refl, (inl refl, (inl (removed-final _), tt)))
    | inr e ↦ rw e (elim (Bool-cases (not (disk.sync_ok && disk.close_ok && disk.rename_ok))) [
      | inl f ↦ rw f (inl refl, (inl refl, (inl refl, (inl (removed-final _), tt))))
      | inr f ↦ rw f (inl refl, (inl refl, (inl refl, (inr (bytes, refl, refl), tt))))
    ])
  ]

  -- Whatever call fails, a reader finds at the table's path what it held before, or the whole table. What
  -- a crash makes of content that is not synced is not modelled.
  pub write_file-IsWhole :
      (rs : List Record) (compress : Bool)
      → All (IsWhole z sizing nils rs compress d) (write_file z sizing nils disk d rs compress).0
  unfolding write_file
  write_file-IsWhole [] compress = tt
  write_file-IsWhole (r ∷ rs) compress = elim (Bool-cases disk.create_ok) [
    | inl e ↦ rw e (put_content-whole (write z sizing nils (r ∷ rs) compress))
    | inr e ↦ rw e tt
  ]

-- The table that a successful call has left, or the directory as it was.
abbrev pub published : Files → Result Bytes → Result (Unit {0}) → Files
published d content (err e) = d
published d (err e) (ok u) = d
published d (ok bytes) (ok u) = record { final = some bytes; temp = none }

module _ (z : Flate) (sizing : Sizing) (nils : Nils) (disk : Disk) (old : Option Bytes)
    (removes : disk.remove_ok ≡ true) where
  abbrev clean : Files
  clean = record { final = old; temp = none }
