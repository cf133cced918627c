-- ===== src/Wal/Runs.antt =====
-- Runs of the log on small inputs.
use flume.Common.{
  ℕ, ◌+◌, ◌<◌, ◌^◌, ◌≡◌, ◌≢◌, refl, sym, subst, arith, false, List, [], ◌∷◌, ◌++◌, length, take,
  replicate, length-replicate, some, Result, ok, err, stuck, io_error, inr, ◌⊎◌,
}
use flume.Bytes.{Bytes}
use flume.Wal.{
  Record, Wal, Disk, checksum, encode_record, encode_all, append, replay, deliver,
  max_reasonable_len,
}
use flume.Wal.Format.{IsWritable, IsLarge, length-encode_record}
use flume.Wal.Recovery.{
  IsLoggable, Holds, replay-torn, replay-large, replay-ne-stuck, append-durable, append-atomic,
}

-- The check value of CRC-32, of the digits 1 to 9.
checksum_run : checksum (49 ∷ 50 ∷ 51 ∷ 52 ∷ 53 ∷ 54 ∷ 55 ∷ 56 ∷ 57 ∷ []) ≡ 0xCBF43926
unfolding checksum
checksum_run = refl

abbrev one_put : Record
one_put = record { type = 1; key = 107 ∷ []; value = 118 ∷ []; seq = 1 }

abbrev one_delete : Record
one_delete = record { type = 2; key = 107 ∷ []; value = []; seq = 2 }

-- A callback that collects what it is handed.
abbrev collect : Record → List Record → Result (List Record)
collect r rs = ok (rs ++ r ∷ [])

one_put-IsWritable : IsWritable one_put
one_put-IsWritable = record {
  type_fits = omega arith;
  seq_fits = omega arith;
  key_fits = omega arith;
  value_fits = omega arith;
}

one_delete-IsWritable : IsWritable one_delete
one_delete-IsWritable = record {
  type_fits = omega arith;
  seq_fits = omega arith;
  key_fits = omega arith;
  value_fits = omega arith;
}

one_put-IsLoggable : IsLoggable one_put
one_put-IsLoggable = (one_put-IsWritable, record { key_len = omega arith; value_len = omega arith })

one_delete-IsLoggable : IsLoggable one_delete
one_delete-IsLoggable =
    (one_delete-IsWritable, record { key_len = omega arith; value_len = omega arith })

abbrev one_log : Wal
one_log = record { file = encode_all (one_put ∷ []); broken = false }

one_log-Holds : Holds one_log (one_put ∷ [])
one_log-Holds = record { file_is = refl; intact = refl; loggable = (one_put-IsLoggable, tt) }

replay-torn_example :
    replay collect (some (encode_all (one_put ∷ []) ++ take 10 (encode_record one_delete))) []
    ≡ deliver collect (one_put ∷ []) []
replay-torn_example =
    replay-torn collect (one_put ∷ []) one_delete 10 [] (one_put-IsLoggable, tt)
      one_delete-IsWritable long
  where
    long : 10 < length (encode_record one_delete)
    long = let l = length-encode_record one_delete in omega (arith, l)

append_run : (append Disk.synced one_log one_delete).0 ≡ ok tt
unfolding append
append_run = refl

append-durable_example :
    Holds (append Disk.synced one_log one_delete).1 (one_put ∷ one_delete ∷ [])
    × (replay collect (some (append Disk.synced one_log one_delete).1.file) []
        ≡ deliver collect (one_put ∷ one_delete ∷ []) [])
append-durable_example =
    append-durable collect Disk.synced one_log (one_put ∷ []) one_delete [] one_log-Holds
      one_delete-IsLoggable append_run

append_cut_run : (append (Disk.cut_at 12) one_log one_delete).0 ≡ err io_error
unfolding append
append_cut_run = refl

append-atomic_example :
    (replay collect (some (append (Disk.cut_at 12) one_log one_delete).1.file) []
      ≡ deliver collect (one_put ∷ []) [])
    ⊎ (replay collect (some (append (Disk.cut_at 12) one_log one_delete).1.file) []
        ≡ deliver collect (one_put ∷ one_delete ∷ []) [])
append-atomic_example =
    append-atomic collect (Disk.cut_at 12) one_log (one_put ∷ []) one_delete [] one_log-Holds
      one_delete-IsLoggable append_cut_run

-- A value of one byte more than the bound.
unfoldable large_value : Bytes
large_value = replicate (max_reasonable_len + 1) 0

abbrev large_put : Record
large_put = record { type = 1; key = 107 ∷ []; value = large_value; seq = 3 }

large_put-length : length {0} {A = ℕ} large_value ≡ max_reasonable_len + 1
unfolding large_value
large_put-length = length-replicate {0} {A = ℕ} (max_reasonable_len + 1) 0

large_put-IsWritable : IsWritable large_put
large_put-IsWritable = record {
  type_fits = omega arith;
  seq_fits = omega arith;
  key_fits = omega arith;
  value_fits = subst (λ n. n < 2 ^ 32) (sym large_put-length) (omega arith);
}

large_put-IsLarge : IsLarge large_put
large_put-IsLarge = inr (subst (λ n. max_reasonable_len < n) (sym large_put-length) (omega arith))

replay-large_example :
    replay collect
      (some (encode_all (one_put ∷ []) ++ (encode_record large_put ++ encode_record one_delete)))
      []
    ≡ deliver collect (one_put ∷ []) []
replay-large_example =
    replay-large collect (one_put ∷ []) large_put (encode_record one_delete) []
      (one_put-IsLoggable, tt) large_put-IsWritable large_put-IsLarge

collect-ne-stuck : (r : Record) (s : List Record) → collect r s ≢ err stuck
collect-ne-stuck r s = λ p. cc

replay-ne-stuck_example : replay collect (some (1 ∷ 2 ∷ 3 ∷ [])) [] ≢ err stuck
replay-ne-stuck_example = replay-ne-stuck collect (some (1 ∷ 2 ∷ 3 ∷ [])) [] collect-ne-stuck
