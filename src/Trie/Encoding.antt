-- ===== src/Trie/Encoding.antt =====
-- The encodings of pointers and tries of execution-engine/engine-storage/src/trie/mod.rs.
use casper_labs.Base.{ℕ, ◌+◌, ◌-◌, ◌++◌, length, Result, ok, err, ◌>>=◌, ltb, ◌==◌, if◌then◌else◌}
use casper_labs.Values.{BytesreprError, formatting_error, out_of_memory_error}
use casper_labs.Bytes.{Bytes, Codec}
use casper_labs.Bytes.Numbers.{u32_codec, array_codec}
use casper_labs.Bytes.Containers.{u32_max_value, option_codec, array_of_codec, vec_u8_codec}
use casper_labs.Trie.{
  Pointer, leaf_pointer, node_pointer, pointer_hash, PointerBlock, radix, Trie, leaf, node,
  extension,
}

abbrev pub pointer_tag : Pointer → ℕ
pointer_tag (leaf_pointer _) = 0
pointer_tag (node_pointer _) = 1

unfoldable pub pointer_of : ℕ → Bytes → Result BytesreprError (Pointer × Bytes)
pointer_of tag rem =
    if tag == 0
    then ((array_codec 32).from_bytes rem >>= λ (hash, rem'). ok (leaf_pointer hash, rem'))
    else if tag == 1
    then ((array_codec 32).from_bytes rem >>= λ (hash, rem'). ok (node_pointer hash, rem'))
    else err formatting_error

unfoldable pub pointer_codec : Codec Pointer
unfolding pointer_of
pointer_codec = record {
  to_bytes = λ p. (array_codec 32).to_bytes (pointer_hash p) >>= λ hash.
      u32_codec.to_bytes (pointer_tag p) >>= λ tag. ok (tag ++ hash);
  from_bytes = λ bytes. u32_codec.from_bytes bytes >>= λ (tag, rem). pointer_of tag rem;
}

-- An `Option<Pointer>` takes 33 bytes of memory.
unfoldable pub pointer_block_codec : Codec PointerBlock
pointer_block_codec = array_of_codec (option_codec pointer_codec) radix 33

module _ {K V : Type 0} (key : Codec K) (value : Codec V) where
  abbrev pub trie_tag : Trie K V → ℕ
  trie_tag (leaf _ _) = 0
  trie_tag (node _) = 1
  trie_tag (extension _ _) = 2

  -- Two parts behind the tag, which together fit the limit.
  unfoldable pub tagged_pair : ℕ → Bytes → Bytes → Result BytesreprError Bytes
  tagged_pair tag x y =
      if ltb (u32_max_value - 4) (length x + length y)
      then err out_of_memory_error
      else (u32_codec.to_bytes tag >>= λ t. ok (t ++ (x ++ y)))

  unfoldable pub trie_to_bytes : Trie K V → Result BytesreprError Bytes
  unfolding tagged_pair
  trie_to_bytes (leaf k v) = key.to_bytes k >>= λ x. value.to_bytes v >>= λ y. tagged_pair 0 x y
  trie_to_bytes (node block) =
      pointer_block_codec.to_bytes block >>= λ x. u32_codec.to_bytes 1 >>= λ t. ok (t ++ x)
  trie_to_bytes (extension affix pointer) =
      vec_u8_codec.to_bytes affix >>= λ x. pointer_codec.to_bytes pointer >>= λ y. tagged_pair 2 x y

  unfoldable pub trie_of : ℕ → Bytes → Result BytesreprError (Trie K V × Bytes)
  trie_of tag rem =
      if tag == 0
      then (key.from_bytes rem >>= λ (k, rem').
          value.from_bytes rem' >>= λ (v, end). ok (leaf k v, end))
      else if tag == 1
      then (pointer_block_codec.from_bytes rem >>= λ (block, rem'). ok (node block, rem'))
      else if tag == 2
      then (vec_u8_codec.from_bytes rem >>= λ (affix, rem').
          pointer_codec.from_bytes rem' >>= λ (pointer, end). ok (extension affix pointer, end))
      else err formatting_error

  unfoldable pub trie_codec : Codec (Trie K V)
  unfolding trie_to_bytes trie_of
  trie_codec = record {
    to_bytes = trie_to_bytes;
    from_bytes = λ bytes. u32_codec.from_bytes bytes >>= λ (tag, rem). trie_of tag rem;
  }
