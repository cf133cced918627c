-- ===== src/Wal/Recovery.antt =====
-- `Replay` on what `Append` has written.
use flume.Common.{
  ℕ, zero, suc, ◌<◌, ◌≡◌, refl, sym, ap, subst, ◌∙◌, ltb, ltb→lt, Bool-cases, take_all, arith,
  false, List, [], ◌∷◌, ◌++◌, Option, none, some, length, length-append, take, append_assoc,
  append-nil, All, Result, ok, err, stuck, io_error, ◌>>=◌, Option-cases, inl, inr, ◌⊎◌, ◌≢◌,
}
use flume.Bytes.{Bytes}
use flume.Wal.{
  Record, encode_record, encode_all, read_record, replay_loop, replay, deliver, Wal, append,
  append_sound, Disk, synced, cut_at, sync_failed,
}
use flume.Wal.Format.{
  IsWritable, IsReasonable, IsLarge, read_record-whole, read_record-large, read_record-torn,
  length-encode_record, read_record-shorter, read_record-short,
}

-- Records that the format holds and that `Replay` accepts.
abbrev pub IsLoggable : Record → Type 0
IsLoggable r = IsWritable r × IsReasonable r

module _ {ℓ} {S : Type ℓ} (fn : Record → S → Result S) where
  replay_stop :
      (fuel : ℕ) (bs : Bytes) (s : S)
      → read_record bs ≡ none
      → 0 < fuel
      → replay_loop fn fuel bs s ≡ ok s
  unfolding replay_loop
  replay_stop zero bs s e h = absurd (omega arith)
  replay_stop (suc fuel) bs s e h = rw (e, replay_loop)

  replay_step :
      (fuel : ℕ) (bs : Bytes) (r : Record) (rest : Bytes) (s : S)
      → read_record bs ≡ some (r, rest)
      → replay_loop fn (suc fuel) bs s ≡ (fn r s >>= λ s'. replay_loop fn fuel rest s')
  unfolding replay_loop
  replay_step fuel bs r rest s e = rw (e, replay_loop)

  bind_cong : (m : Result S) (f g : S → Result S) → ((s : S) → f s ≡ g s) → (m >>= f) ≡ (m >>= g)
  bind_cong (ok s) f g h = h s
  bind_cong (err e) f g h = refl

  -- The loop over a sequence of records and a tail that stops it.
  replay_loop-encode_all :
      (rs : List Record) (tail : Bytes) (fuel : ℕ) (s : S)
      → All IsLoggable rs
      → read_record tail ≡ none
      → length rs < fuel
      → replay_loop fn fuel (encode_all rs ++ tail) s ≡ deliver fn rs s
  unfolding encode_all deliver
  replay_loop-encode_all [] tail fuel s h e f = replay_stop fuel tail s e f
  replay_loop-encode_all (r ∷ rs) tail zero s h e f = absurd (omega arith)
  replay_loop-encode_all (r ∷ rs) tail (suc fuel) s h e f =
      ap (λ bs. replay_loop fn (suc fuel) bs s)
        (append_assoc (encode_record r) (encode_all rs) tail)
      ∙ replay_step fuel _ r (encode_all rs ++ tail) s
          (read_record-whole r (encode_all rs ++ tail) h.0.0 h.0.1)
      ∙ bind_cong (fn r s) _ _ (λ s'. replay_loop-encode_all rs tail fuel s' h.1 e (omega arith))

  enough_fuel : (rs : List Record) (tail : Bytes) → length rs < suc (length (encode_all rs ++ tail))
  unfolding encode_all
  enough_fuel [] tail = omega arith
  enough_fuel (r ∷ rs) tail = omega (
    arith,
    length-encode_record r,
    length-append (encode_record r ++ encode_all rs) tail,
    length-append (encode_record r) (encode_all rs),
    length-append (encode_all rs) tail,
    enough_fuel rs tail,
  )

  -- Over a file of records that the format holds and the bound admits, followed by bytes at which
  -- no record can be read, `Replay` hands exactly those records to the callback, in order.
  pub replay-encode_all :
      (rs : List Record) (tail : Bytes) (s : S)
      → All IsLoggable rs
      → read_record tail ≡ none
      → replay fn (some (encode_all rs ++ tail)) s ≡ deliver fn rs s
  unfolding replay
  replay-encode_all rs tail s h e =
      replay_loop-encode_all rs tail (suc (length (encode_all rs ++ tail))) s h e
        (enough_fuel rs tail)

  -- A log with a torn record at its end, cut at any byte of it or at none, is replayed exactly up to
  -- the last whole record, with no error of its own, if no key or value of the whole ones has more than
  -- 512 MiB and all their fields fit the format.
  pub replay-torn :
      (rs : List Record) (r : Record) (n : ℕ) (s : S)
      → All IsLoggable rs
      → IsWritable r
      → n < length (encode_record r)
      → replay fn (some (encode_all rs ++ take n (encode_record r))) s ≡ deliver fn rs s
  replay-torn rs r n s h w lt =
      replay-encode_all rs (take n (encode_record r)) s h (read_record-torn r w n lt)

  -- A record with a key or a value of more than 512 MiB, which `Append` writes, ends the replay: it
  -- and every record behind it are not delivered.
  pub replay-large :
      (rs : List Record) (r : Record) (rest : Bytes) (s : S)
      → All IsLoggable rs
      → IsWritable r
      → IsLarge r
      → replay fn (some (encode_all rs ++ (encode_record r ++ rest))) s ≡ deliver fn rs s
  replay-large rs r rest s h w big =
      replay-encode_all rs (encode_record r ++ rest) s h (read_record-large r rest w big)

  replay_loop-ne-stuck :
      (fuel : ℕ) (bs : Bytes) (s : S)
      → ((r : Record) (s : S) → fn r s ≢ err stuck)
      → length bs < fuel
      → replay_loop fn fuel bs s ≢ err stuck
  replay_loop-ne-stuck zero bs s h lt = absurd (omega arith)
  replay_loop-ne-stuck (suc fuel) bs s h lt = elim (Option-cases (read_record bs)) [
    | inl e ↦ λ p. cc (replay_stop (suc fuel) bs s e (omega arith))
    | inr ((r, rest), e) ↦ rw (replay_step fuel bs r rest s e) (
        go rest (fn r s) (h r s) (λ s'.
          replay_loop-ne-stuck fuel rest s' h (omega (arith, read_record-shorter bs r rest e))))
  ]
    where
      go :
          (rest : Bytes) (m : Result S)
          → m ≢ err stuck
          → ((s : S) → replay_loop fn fuel rest s ≢ err stuck)
          → (m >>= λ s'. replay_loop fn fuel rest s') ≢ err stuck
      go rest (ok s') k l = l s'
      go rest (err x) k l = k

  -- `Replay` ends on every file, well formed or not, if the callback returns.
  pub replay-ne-stuck :
      (file : Option Bytes) (s : S)
      → ((r : Record) (s : S) → fn r s ≢ err stuck)
      → replay fn file s ≢ err stuck
  unfolding replay
  replay-ne-stuck none s h = λ p. cc
  replay-ne-stuck (some bs) s h = replay_loop-ne-stuck (suc (length bs)) bs s h (omega arith)

encode_all-append :
    (rs : List Record) (r : Record) → encode_all (rs ++ r ∷ []) ≡ encode_all rs ++ encode_record r
unfolding encode_all
encode_all-append [] r = append-nil (encode_record r)
encode_all-append (x ∷ rs) r =
    ap (λ t. encode_record x ++ t) (encode_all-append rs r)
    ∙ sym (append_assoc (encode_record x) (encode_all rs) (encode_record r))

All-snoc :
    (rs : List Record) (r : Record)
    → All IsLoggable rs
    → IsLoggable r
    → All IsLoggable (rs ++ r ∷ [])
All-snoc [] r h k = (k, tt)
All-snoc (x ∷ rs) r h k = (h.0, All-snoc rs r h.1 k)

-- A log whose file holds exactly the records `rs`.
pub record Holds (w : Wal) (rs : List Record) : Type 0 where
  pub file_is : w.file ≡ encode_all rs
  pub intact : w.broken ≡ false
  pub loggable : All IsLoggable rs

module _ {ℓ} {S : Type ℓ} (fn : Record → S → Result S) where
  replay-Holds :
      (w : Wal) (rs : List Record) (s : S)
      → Holds w rs
      → replay fn (some w.file) s ≡ deliver fn rs s
  replay-Holds w rs s h =
      ap (λ f. replay fn (some f) s) (h.file_is ∙ sym (append-nil (encode_all rs)))
      ∙ replay-encode_all fn rs [] s h.loggable (read_record-short [] (omega arith))

-- A log that holds `rs`, extended by `r`, holds both.
extended-Holds :
    (w w' : Wal) (rs : List Record) (r : Record)
    → Holds w rs
    → IsLoggable r
    → w'.file ≡ w.file ++ encode_record r
    → w'.broken ≡ false
    → Holds w' (rs ++ r ∷ [])
extended-Holds w w' rs r h l e b = record {
  file_is = e ∙ ap (λ f. f ++ encode_record r) h.file_is ∙ sym (encode_all-append rs r);
  intact = b;
  loggable = All-snoc rs r h.loggable l;
}

append-intact :
    (d : Disk) (w : Wal) (r : Record) → w.broken ≡ false → append d w r ≡ append_sound d w r
unfolding append
append-intact d w r e = rw e

append_sound-durable :
    (d : Disk) (w : Wal) (rs : List Record) (r : Record)
    → Holds w rs
    → IsLoggable r
    → (append_sound d w r).0 ≡ ok tt
    → Holds (append_sound d w r).1 (rs ++ r ∷ [])
unfolding append_sound
append_sound-durable synced w rs r h l e = extended-Holds w _ rs r h l refl h.intact
append_sound-durable (cut_at n) w rs r h l e = cc
append_sound-durable sync_failed w rs r h l e = cc

module _ {ℓ} {S : Type ℓ} (fn : Record → S → Result S) where
  append_sound-atomic :
      (d : Disk) (w : Wal) (rs : List Record) (r : Record) (s : S)
      → Holds w rs
      → IsLoggable r
      → (append_sound d w r).0 ≡ err io_error
      → (replay fn (some (append_sound d w r).1.file) s ≡ deliver fn rs s)
        ⊎ (replay fn (some (append_sound d w r).1.file) s ≡ deliver fn (rs ++ r ∷ []) s)
  unfolding append_sound
  append_sound-atomic synced w rs r s h l e = cc
  append_sound-atomic (cut_at n) w rs r s h l e =
      elim (Bool-cases (ltb n (length (encode_record r)))) [
        | inl torn ↦ inl (
            ap (λ f. replay fn (some (f ++ take n (encode_record r))) s) h.file_is
            ∙ replay-torn fn rs r n s h.loggable l.0 (ltb→lt _ _ torn))
        | inr whole ↦ inr (
            ap (λ t. replay fn (some (w.file ++ t)) s) (take_all n (encode_record r) (ground arith))
            ∙ replay-Holds fn (record w { file = w.file ++ encode_record r }) (rs ++ r ∷ []) s
                (extended-Holds w _ rs r h l refl h.intact))
      ]
  append_sound-atomic sync_failed w rs r s h l e = inr (
      replay-Holds fn (record w { file = w.file ++ encode_record r }) (rs ++ r ∷ []) s
        (extended-Holds w _ rs r h l refl h.intact))

-- For a log that no failed write has broken, and records, old and new, whose fields fit the format and
-- whose keys and values have at most 512 MiB: if `Append` returns no error, then the file holds the new
-- record behind those that it held, and a replay of the file delivers them all, in order.
pub append-durable {ℓ} :
    {S : Type ℓ} (fn : Record → S → Result S) (d : Disk) (w : Wal) (rs : List Record) (r : Record)
    (s : S)
    → Holds w rs
    → IsLoggable r
    → (append d w r).0 ≡ ok tt
    → Holds (append d w r).1 (rs ++ r ∷ [])
      × (replay fn (some (append d w r).1.file) s ≡ deliver fn (rs ++ r ∷ []) s)
append-durable fn d w rs r s h l e = (held, replay-Holds fn (append d w r).1 (rs ++ r ∷ []) s held)
  where
    same : append d w r ≡ append_sound d w r
    same = append-intact d w r h.intact

    held : Holds (append d w r).1 (rs ++ r ∷ [])
    held =
        subst (λ p. Holds p.1 (rs ++ r ∷ [])) (sym same)
          (append_sound-durable d w rs r h l (sym (ap (λ p. p.0) same) ∙ e))

-- For a log that no failed write has broken, and records, old and new, whose fields fit the format and
-- whose keys and values have at most 512 MiB: if `Append` returns an error, a replay of the file delivers
-- the records that it held, and either all of the new one or nothing of it.
pub append-atomic {ℓ} :
    {S : Type ℓ} (fn : Record → S → Result S) (d : Disk) (w : Wal) (rs : List Record) (r : Record)
    (s : S)
    → Holds w rs
    → IsLoggable r
    → (append d w r).0 ≡ err io_error
    → (replay fn (some (append d w r).1.file) s ≡ deliver fn rs s)
      ⊎ (replay fn (some (append d w r).1.file) s ≡ deliver fn (rs ++ r ∷ []) s)
append-atomic fn d w rs r s h l e =
    let same = append-intact d w r h.intact in
    subst
      (λ p.
        (replay fn (some p.1.file) s ≡ deliver fn rs s)
        ⊎ (replay fn (some p.1.file) s ≡ deliver fn (rs ++ r ∷ []) s))
      (sym same) (append_sound-atomic fn d w rs r s h l (sym (ap (λ p. p.0) same) ∙ e))
