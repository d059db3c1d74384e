-- ===== src/Trie/EncodingLaws.antt =====
-- Pointers and tries, encoded as in execution-engine/engine-storage/src/trie/mod.rs.
use casper_labs.Base.{◌+◌, ◌-◌, ◌≡◌, ◌++◌, append_assoc, All, length, ok, >>=-ok, ltb, arith}
use casper_labs.Bytes.{Bytes, Codec}
use casper_labs.Bytes.Laws.{RoundTrips}
use casper_labs.Bytes.Numbers.{u32_codec, array_codec}
use casper_labs.Bytes.Integers.{array_codec-RoundTrips, fixed_codec-RoundTrips}
use casper_labs.Bytes.Containers.{u32_max_value, option_codec, vec_u8_codec}
use casper_labs.Bytes.Sequences.{
  not_too_long, option_codec-RoundTrips, Given, array_of_codec-RoundTrips, vec_u8_codec-RoundTrips,
}
use casper_labs.Bytes.SharedLaws.{IsAddress}
use casper_labs.Trie.{
  Pointer, leaf_pointer, node_pointer, pointer_hash, PointerBlock, radix, Trie, leaf, node,
  extension,
}
use casper_labs.Trie.Encoding.{pointer_codec, pointer_block_codec, trie_codec}

abbrev pub PointerInRange : Pointer → Type 0
PointerInRange p = IsAddress (pointer_hash p)

pointer_codec-RoundTrips : RoundTrips pointer_codec PointerInRange
unfolding pointer_codec
pointer_codec-RoundTrips (leaf_pointer p) bytes rest v e =
    let (x, h, e') = >>=-ok ((array_codec 32).to_bytes p) _ e in
    let (y, k, e'') = >>=-ok (u32_codec.to_bytes 0) _ e' in
    ground (
      arith,
      append_assoc y x rest,
      fixed_codec-RoundTrips 4 0 y (x ++ rest) (omega arith) k,
      array_codec-RoundTrips 32 p x rest v h,
    )
pointer_codec-RoundTrips (node_pointer p) bytes rest v e =
    let (x, h, e') = >>=-ok ((array_codec 32).to_bytes p) _ e in
    let (y, k, e'') = >>=-ok (u32_codec.to_bytes 1) _ e' in
    ground (
      arith,
      append_assoc y x rest,
      fixed_codec-RoundTrips 4 1 y (x ++ rest) (omega arith) k,
      array_codec-RoundTrips 32 p x rest v h,
    )

abbrev pub BlockInRange : PointerBlock → Type 0
BlockInRange block = All (Given PointerInRange) block × (length block ≡ radix)

pointer_block_codec-RoundTrips : RoundTrips pointer_block_codec BlockInRange
unfolding pointer_block_codec
pointer_block_codec-RoundTrips =
    array_of_codec-RoundTrips (option_codec pointer_codec)
      (option_codec-RoundTrips pointer_codec pointer_codec-RoundTrips) radix 33 (omega arith)

module _ {K V : Type 0} {P : K → Type 0} {Q : V → Type 0} (key : Codec K) (value : Codec V)
    (rt : RoundTrips key P) (rt' : RoundTrips value Q) where
  abbrev pub TrieInRange : Trie K V → Type 0
  TrieInRange (leaf k v) = P k × Q v
  TrieInRange (node block) = BlockInRange block
  TrieInRange (extension affix pointer) = PointerInRange pointer

  -- An element of a trie whose bytes could be written is read back as it was, whatever follows them, if
  -- its key and value are, and its hashes fit 32 bytes.
  pub trie_codec_round_trip :
      (t : Trie K V) (bytes rest : Bytes)
      → TrieInRange t
      → (trie_codec key value).to_bytes t ≡ ok bytes
      → (trie_codec key value).from_bytes (bytes ++ rest) ≡ ok (t, rest)
  unfolding trie_codec
  trie_codec_round_trip (leaf k w) bytes rest (v, v') e =
      let (x, h, e1) = >>=-ok (key.to_bytes k) _ e in
      let (y, i, e2) = >>=-ok (value.to_bytes w) _ e1 in
      let (t, j, e3) =
        >>=-ok (u32_codec.to_bytes 0) _
          (not_too_long (ltb (u32_max_value - 4) (length x + length y)) _ _ e2) in
      ground (
        arith,
        append_assoc t (x ++ y) rest,
        append_assoc x y rest,
        fixed_codec-RoundTrips 4 0 t (x ++ (y ++ rest)) (omega arith) j,
        rt k x (y ++ rest) v h,
        rt' w y rest v' i,
      )
  trie_codec_round_trip (node block) bytes rest v e =
      let (x, h, e1) = >>=-ok (pointer_block_codec.to_bytes block) _ e in
      let (t, j, e3) = >>=-ok (u32_codec.to_bytes 1) _ e1 in
      ground (
        arith,
        append_assoc t x rest,
        fixed_codec-RoundTrips 4 1 t (x ++ rest) (omega arith) j,
        pointer_block_codec-RoundTrips block x rest v h,
      )
  trie_codec_round_trip (extension affix p) bytes rest v e =
      let (x, h, e1) = >>=-ok (vec_u8_codec.to_bytes affix) _ e in
      let (y, i, e2) = >>=-ok (pointer_codec.to_bytes p) _ e1 in
      let (t, j, e3) =
        >>=-ok (u32_codec.to_bytes 2) _
          (not_too_long (ltb (u32_max_value - 4) (length x + length y)) _ _ e2) in
      ground (
        arith,
        append_assoc t (x ++ y) rest,
        append_assoc x y rest,
        fixed_codec-RoundTrips 4 2 t (x ++ (y ++ rest)) (omega arith) j,
        vec_u8_codec-RoundTrips affix x (y ++ rest) tt h,
        pointer_codec-RoundTrips p y rest v i,
      )
