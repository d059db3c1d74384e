-- ===== src/Bytes/Containers.antt =====
-- The encodings of options, results, tuples, lists, arrays and maps of
-- execution-engine/types/src/bytesrepr.rs, over those of their elements.
use casper_labs.Base.{
  ℕ, zero, suc, ◌+◌, ◌*◌, ◌-◌, ◌^◌, ◌%◌, Bool, Option, none, some, List, [], ◌∷◌, ◌++◌, length, sum,
  map, Result, ok, err, ◌>>=◌, ltb, leb, ◌==◌, if◌then◌else◌, ⊤,
}
use casper_labs.BtreeMap.{BtreeMap, insert}
use casper_labs.Values.{BytesreprError, formatting_error, out_of_memory_error}
use casper_labs.Bytes.{Bytes, Codec, safe_split_at}
use casper_labs.Bytes.Numbers.{u8_codec, u32_codec}

-- `u32::max_value()`
abbrev pub u32_max_value : ℕ
u32_max_value = 2 ^ 32 - 1

abbrev pub unit_codec : Codec ⊤
unit_codec = record { to_bytes = λ _. ok []; from_bytes = λ bytes. ok (tt, bytes) }

module _ {A : Type 0} (c : Codec A) where
  unfoldable pub option_to_bytes : Option A → Result BytesreprError Bytes
  option_to_bytes none = ok (0 ∷ [])
  option_to_bytes (some v) = do
    value ← c.to_bytes v
    if leb (u32_max_value - 1) (length value) then err out_of_memory_error else ok (1 ∷ value)

  unfoldable pub option_of : ℕ → Bytes → Result BytesreprError (Option A × Bytes)
  option_of tag rem =
      if tag == 0
      then ok (none, rem)
      else if tag == 1
      then (c.from_bytes rem >>= λ (t, rem'). ok (some t, rem'))
      else err formatting_error

  unfoldable pub option_codec : Codec (Option A)
  unfolding option_to_bytes option_of u8_codec
  option_codec = record {
    to_bytes = option_to_bytes;
    from_bytes = λ bytes. u8_codec.from_bytes bytes >>= λ (tag, rem). option_of tag rem;
  }

  -- The bytes of all elements, one after the other.
  unfoldable pub write_all : List A → Result BytesreprError Bytes
  write_all [] = ok []
  write_all (x ∷ xs) = c.to_bytes x >>= λ bytes. write_all xs >>= λ more. ok (bytes ++ more)

  -- `for _ in 0..size`
  unfoldable pub read_n : ℕ → Bytes → Result BytesreprError (List A × Bytes)
  read_n zero stream = ok ([], stream)
  read_n (suc n) stream =
      c.from_bytes stream >>= λ (t, rem). read_n n rem >>= λ (ts, end). ok (t ∷ ts, end)

  -- A vector behind its length, which `as u32` cuts, with a test for too long ones.
  unfoldable pub counted_codec : (List A → Bool) → Codec (List A)
  unfolding write_all read_n
  counted_codec is_too_long = record {
    to_bytes = λ xs.
        if is_too_long xs
        then err out_of_memory_error
        else (u32_codec.to_bytes (length xs % 2 ^ 32) >>= λ size.
            write_all xs >>= λ bytes. ok (size ++ bytes));
    from_bytes = λ bytes. u32_codec.from_bytes bytes >>= λ (size, stream). read_n size stream;
  }

  -- `[T; N]`, where `size_of` is the size of `T` in memory
  unfoldable pub array_of_codec : ℕ → ℕ → Codec (List A)
  unfolding write_all read_n
  array_of_codec n size_of = record {
    to_bytes = λ xs.
        if leb u32_max_value (n * size_of)
        then err out_of_memory_error
        else (u32_codec.to_bytes n >>= λ size. write_all xs >>= λ bytes. ok (size ++ bytes));
    from_bytes = λ bytes. u32_codec.from_bytes bytes >>= λ (size, stream).
        if size == n then read_n n stream else err formatting_error;
  }

  -- A `BTreeMap`, over the encoding of its keys. The lower bound of `size_hint`, which is compared with
  -- the limit, is 0 for a flattened iterator.
  unfoldable pub write_entries : Codec ℕ → BtreeMap A → Result BytesreprError Bytes
  write_entries k [] = ok []
  write_entries k ((key, v) ∷ m) = k.to_bytes key >>= λ k_bytes.
      c.to_bytes v >>= λ v_bytes. write_entries k m >>= λ more. ok (k_bytes ++ (v_bytes ++ more))

  unfoldable pub read_entries :
      Codec ℕ → ℕ → BtreeMap A → Bytes → Result BytesreprError (BtreeMap A × Bytes)
  read_entries k zero result stream = ok (result, stream)
  read_entries k (suc n) result stream = k.from_bytes stream >>= λ (key, rem).
      c.from_bytes rem >>= λ (v, rem'). read_entries k n (insert key v result) rem'

  unfoldable pub btree_codec : Codec ℕ → Codec (BtreeMap A)
  unfolding write_entries read_entries
  btree_codec k = record {
    to_bytes = λ m. write_entries k m >>= λ bytes.
        u32_codec.to_bytes (length m % 2 ^ 32) >>= λ num_keys. ok (num_keys ++ bytes);
    from_bytes = λ bytes.
        u32_codec.from_bytes bytes >>= λ (num_keys, stream). read_entries k num_keys [] stream;
  }

-- `Vec<u8>`
unfoldable pub vec_u8_codec : Codec Bytes
unfolding safe_split_at
vec_u8_codec = record {
  to_bytes = λ v.
      if leb (u32_max_value - 4) (length v)
      then err out_of_memory_error
      else (u32_codec.to_bytes (length v) >>= λ size. ok (size ++ v));
  from_bytes = λ bytes. u32_codec.from_bytes bytes >>= λ (size, rem). safe_split_at rem size;
}

-- `Vec<i32>` and `Vec<Vec<u8>>`
abbrev pub vec_i32_codec : Codec (List ℕ)
vec_i32_codec = counted_codec u32_codec (λ xs. leb (u32_max_value - 4) (length xs * 4))

abbrev pub vec_vec_u8_codec : Codec (List Bytes)
vec_vec_u8_codec =
    counted_codec vec_u8_codec (λ xs. ltb u32_max_value (sum (map length xs) + 4 * (length xs + 1)))

module _ {A B : Type 0} (c : Codec A) (d : Codec B) where
  -- `(T1, T2)`
  unfoldable pub pair_codec : Codec (A × B)
  pair_codec = record {
    to_bytes = λ (a, b). c.to_bytes a >>= λ x. d.to_bytes b >>= λ y. ok (x ++ y);
    from_bytes = λ bytes.
        c.from_bytes bytes >>= λ (a, rem). d.from_bytes rem >>= λ (b, rem'). ok ((a, b), rem');
  }

  -- `Result<T, E>`, with `T` encoded by the second
  unfoldable pub result_to_bytes : Result A B → Result BytesreprError Bytes
  result_to_bytes (ok value) = d.to_bytes value >>= λ bytes. ok (1 ∷ bytes)
  result_to_bytes (err error) = c.to_bytes error >>= λ bytes. ok (0 ∷ bytes)

  unfoldable pub result_of : ℕ → Bytes → Result BytesreprError (Result A B × Bytes)
  result_of variant rem =
      if variant == 0
      then (c.from_bytes rem >>= λ (error, rem'). ok (err error, rem'))
      else if variant == 1
      then (d.from_bytes rem >>= λ (value, rem'). ok (ok value, rem'))
      else err formatting_error

  unfoldable pub result_codec : Codec (Result A B)
  unfolding result_to_bytes result_of u8_codec
  result_codec = record {
    to_bytes = result_to_bytes;
    from_bytes = λ bytes. u8_codec.from_bytes bytes >>= λ (variant, rem). result_of variant rem;
  }

-- `(T1, T2, T3)`
unfoldable pub triple_codec : {A B C : Type 0} → Codec A → Codec B → Codec C → Codec (A × B × C)
triple_codec c d e = record {
  to_bytes = λ (a, b, f).
      c.to_bytes a >>= λ x. d.to_bytes b >>= λ y. e.to_bytes f >>= λ z. ok ((x ++ y) ++ z);
  from_bytes = λ bytes. c.from_bytes bytes >>= λ (a, rem).
      d.from_bytes rem >>= λ (b, rem'). e.from_bytes rem' >>= λ (f, end). ok ((a, b, f), end);
}
