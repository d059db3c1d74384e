-- ===== src/Bytes/Queues.antt =====
-- The encodings of the queues of execution-engine/proof-of-stake/src/queue.rs.
use casper_labs.Base.{◌^◌, ◌<◌, ◌≡◌, ◌++◌, append_assoc, length, All, ok, ◌>>=◌, >>=-ok, arith}
use casper_labs.Pos.Queue.{QueueEntry, Queue}
use casper_labs.Bytes.{Bytes, Codec}
use casper_labs.Bytes.Laws.{RoundTrips}
use casper_labs.Bytes.Numbers.{u64_codec, array_codec, uint_codec}
use casper_labs.Bytes.Integers.{
  array_codec-RoundTrips, fixed_codec-RoundTrips, uint_codec-RoundTrips,
}
use casper_labs.Bytes.Containers.{write_all, read_n}
use casper_labs.Bytes.Sequences.{read_n-write_all}

unfoldable pub queue_entry_codec : Codec QueueEntry
queue_entry_codec = record {
  to_bytes = λ e. (array_codec 32).to_bytes e.validator >>= λ x.
      (uint_codec 64).to_bytes e.amount >>= λ y.
      u64_codec.to_bytes e.timestamp >>= λ z. ok ((x ++ y) ++ z);
  from_bytes = λ bytes. (array_codec 32).from_bytes bytes >>= λ (validator, rem).
      (uint_codec 64).from_bytes rem >>= λ (amount, rem').
      u64_codec.from_bytes rem' >>= λ (timestamp, end).
      ok (record { validator = validator; amount = amount; timestamp = timestamp }, end);
}

unfoldable pub queue_codec : Codec Queue
unfolding write_all read_n
queue_codec = record {
  to_bytes = λ q. u64_codec.to_bytes (length q) >>= λ size.
      write_all queue_entry_codec q >>= λ bytes. ok (size ++ bytes);
  from_bytes =
      λ bytes. u64_codec.from_bytes bytes >>= λ (len, rest). read_n queue_entry_codec len rest;
}

-- A validator of 32 bytes, an amount of 512 bits and a time of 64 bits.
abbrev pub EntryInRange : QueueEntry → Type 0
EntryInRange e = (e.validator < 256 ^ 32) × (e.amount < 256 ^ 64) × (e.timestamp < 256 ^ 8)

queue_entry_codec-RoundTrips : RoundTrips queue_entry_codec EntryInRange
unfolding queue_entry_codec
queue_entry_codec-RoundTrips v bytes rest (p, q, r) e =
    let (x, h, e') = >>=-ok ((array_codec 32).to_bytes v.validator) _ e in
    let (y, k, e'') = >>=-ok ((uint_codec 64).to_bytes v.amount) _ e' in
    let (z, l, e''') = >>=-ok (u64_codec.to_bytes v.timestamp) _ e'' in
    ground (
      arith,
      append_assoc (x ++ y) z rest,
      append_assoc x y (z ++ rest),
      array_codec-RoundTrips 32 v.validator x (y ++ (z ++ rest)) p h,
      uint_codec-RoundTrips 64 v.amount y (z ++ rest) q k,
      fixed_codec-RoundTrips 8 v.timestamp z rest r l,
    )

-- A queue in range whose bytes could be written is read back as it was, whatever follows them.
pub queue_codec_round_trip :
    (q : Queue) (bytes rest : Bytes)
    → All EntryInRange q × (length q < 2 ^ 64)
    → queue_codec.to_bytes q ≡ ok bytes
    → queue_codec.from_bytes (bytes ++ rest) ≡ ok (q, rest)
unfolding queue_codec
queue_codec_round_trip q bytes rest (v, short) e =
    let (size, h, e') = >>=-ok (u64_codec.to_bytes (length q)) _ e in
    let (all, k, e'') = >>=-ok (write_all queue_entry_codec q) _ e' in
    ground (
      arith,
      append_assoc size all rest,
      fixed_codec-RoundTrips 8 (length q) size (all ++ rest) short h,
      read_n-write_all queue_entry_codec queue_entry_codec-RoundTrips q all rest v k,
    )
