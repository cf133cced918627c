-- ===== src/Wal.antt =====
-- wal/wal.go: the record format, `Append`, and `Replay`.
pub mod Format
pub mod Recovery
mod Runs
use flume.Common.{
  ℕ, zero, suc, ◌+◌, ◌*◌, ◌/◌, ◌%◌, ◌^◌, ◌≡◌, refl, Bool, true, false, ◌||◌, List, [], ◌∷◌, ◌++◌,
  Option, none, some, bit_xor, ltb, ◌==◌, not, if◌then◌else◌, length, take, drop, slice, Result, ok,
  err, io_error, stuck, ◌>>=◌,
}
use flume.Bytes.{Bytes, put_le, get_le}

-- A record's type is any byte; the code writes two of them.
abbrev pub record_put : ℕ
record_put = 1

abbrev pub record_delete : ℕ
record_delete = 2

pub record Record : Type 0 where
  pub type : ℕ
  pub key : Bytes
  pub value : Bytes
  pub seq : ℕ

abbrev pub header_size : ℕ
header_size = 21

-- hash/crc32, `ChecksumIEEE`: the reflected polynomial, bit by bit.
crc_bits : ℕ → ℕ → ℕ
crc_bits zero c = c
crc_bits (suc n) c = crc_bits n (if c % 2 == 1 then bit_xor (c / 2) 0xEDB88320 else c / 2)

crc_bytes : ℕ → Bytes → ℕ
unfolding crc_bits
crc_bytes c [] = c
crc_bytes c (b ∷ bs) = crc_bytes (crc_bits 8 (bit_xor c b)) bs

unfoldable pub checksum : Bytes → ℕ
unfolding crc_bytes
checksum bs = bit_xor (crc_bytes 0xFFFFFFFF bs) 0xFFFFFFFF % 2 ^ 32

-- What the checksum covers: type, sequence number, the two lengths, key and value.
unfoldable pub payload : ℕ → ℕ → ℕ → ℕ → Bytes → Bytes
payload type seq key_len val_len body =
    put_le 1 type ++ (put_le 8 seq ++ (put_le 4 key_len ++ (put_le 4 val_len ++ body)))

-- The buffer that `Append` fills.
unfoldable pub encode_record : Record → Bytes
encode_record r =
    let rest = payload r.type r.seq (length r.key) (length r.value) (r.key ++ r.value) in
    put_le 4 (checksum rest) ++ rest

-- A log: the bytes that its file holds, and whether the buffered writer has failed, after which it
-- takes nothing more.
pub record Wal : Type 0 where
  pub file : Bytes
  pub broken : Bool

-- What the operating system does with one `Append`: everything succeeds, the write fails or the
-- machine stops after `n` bytes, or the fsync fails.
pub data Disk : Type 0 where
  synced : Disk
  cut_at : ℕ → Disk
  sync_failed : Disk

append_sound : Disk → Wal → Record → Result (Unit {0}) × Wal
append_sound synced w r = (ok tt, record w { file = w.file ++ encode_record r })
append_sound (cut_at n) w r =
    (err io_error, record { file = w.file ++ take n (encode_record r); broken = true })
append_sound sync_failed w r = (err io_error, record w { file = w.file ++ encode_record r })

unfoldable pub append : Disk → Wal → Record → Result (Unit {0}) × Wal
unfolding append_sound
append d w r = if w.broken then (err io_error, w) else append_sound d w r

abbrev pub max_reasonable_len : ℕ
max_reasonable_len = 512 * 1024 * 1024

-- The guards of `Replay` on a decoded header and what follows it: the record that it delivers and
-- the bytes behind it, or `none` where the loop returns.
unfoldable pub check_record : ℕ → ℕ → ℕ → ℕ → ℕ → Bytes → Option (Record × Bytes)
check_record crc type seq key_len val_len rest =
    let body = take (key_len + val_len) rest in
    if ltb max_reasonable_len key_len || ltb max_reasonable_len val_len
    then none
    else if ltb (length rest) (key_len + val_len)
    then none
    else if not (checksum (payload type seq key_len val_len body) == crc)
    then none
    else some (
      record { type = type; key = take key_len body; value = drop key_len body; seq = seq },
      drop (key_len + val_len) rest,
    )

-- One round of the loop of `Replay`.
unfoldable pub read_record : Bytes → Option (Record × Bytes)
read_record bs =
    let found =
      check_record (get_le (slice 0 4 bs)) (get_le (slice 4 1 bs)) (get_le (slice 5 8 bs))
        (get_le (slice 13 4 bs)) (get_le (slice 17 4 bs)) (drop 21 bs) in
    if ltb (length bs) header_size then none else found

-- The loop, with the callback's state passed on.
unfoldable pub replay_loop {ℓ} : {S : Type ℓ} → (Record → S → Result S) → ℕ → Bytes → S → Result S
replay_loop fn zero bs s = err stuck
replay_loop fn (suc fuel) bs s = elim (read_record bs) [
  | none ↦ ok s
  | some (r, rest) ↦ fn r s >>= λ s'. replay_loop fn fuel rest s'
]

-- Each round takes a header at least. A file that does not exist is no error.
unfoldable pub replay {ℓ} : {S : Type ℓ} → (Record → S → Result S) → Option Bytes → S → Result S
replay fn none s = ok s
replay fn (some bs) s = replay_loop fn (suc (length bs)) bs s

-- The callback on each record in turn, up to its first error.
unfoldable pub deliver {ℓ} : {S : Type ℓ} → (Record → S → Result S) → List Record → S → Result S
deliver fn [] s = ok s
deliver fn (r ∷ rs) s = fn r s >>= λ s'. deliver fn rs s'

unfoldable pub encode_all : List Record → Bytes
encode_all [] = []
encode_all (r ∷ rs) = encode_record r ++ encode_all rs
