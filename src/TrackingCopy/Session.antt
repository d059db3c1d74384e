-- ===== src/TrackingCopy/Session.antt =====
-- Sequences of operations on a tracking copy of
-- execution-engine/engine-core/src/tracking_copy/mod.rs.
use Prim.Native.String.{String}
use mathlib.Core.Path.{subst}
use casper_labs.Base.{
  ℕ, ◌<◌, ◌≡◌, ◌≢◌, refl, sym, true, Option, none, some, Result, ok, err, ⊤, arith,
}
use casper_labs.Types.{Key, normalize}
use casper_labs.KeyMap.{KeyMap, find, value_or}
use casper_labs.Values.{
  NumType, modulus, i32, i64, u8, u32, u64, u128, u256, u512, BytesreprError, number, broken, other,
  StoredValue, cl_value, account, contract,
}
use casper_labs.Transform.{Transform, identity, combine}
use casper_labs.Transform.Compose.{int32, uint64, uint128, uint256, uint512}
use casper_labs.Transform.Fits.{fits}
use casper_labs.TrackingCopy.{
  LinkedHashMap, IsLinkedHashMap, TrackingCopy, AddResult, get, read, write_value, add_value,
  add_after, transform_of, number_transform, broken_transform, key_transform, one_key,
}
use casper_labs.TrackingCopy.Overlay.{view}
use casper_labs.TrackingCopy.Effects.{IsAddition, of_number, of_keys}
use casper_labs.TrackingCopy.Recorded.{
  IsRecorded, get-IsRecorded, read-IsRecorded, write_value-IsRecorded, add_transform-IsRecorded,
}

module _ {V : Type 0} where
  -- The value of a number is one of its type.
  abbrev pub IsStorable : StoredValue V → Type 0
  IsStorable (cl_value (number t n)) = n < modulus t
  IsStorable _ = ⊤

  number_transform-IsAddition :
      (t : NumType) (n : ℕ) (f : Transform V)
      → n < modulus t
      → number_transform t n ≡ ok f
      → IsAddition f
  unfolding number_transform
  number_transform-IsAddition i32 n f r e =
      subst IsAddition (ground (arith, e)) (of_number (int32 n r))
  number_transform-IsAddition u64 n f r e =
      subst IsAddition (ground (arith, e)) (of_number (uint64 n r))
  number_transform-IsAddition u128 n f r e =
      subst IsAddition (ground (arith, e)) (of_number (uint128 n r))
  number_transform-IsAddition u256 n f r e =
      subst IsAddition (ground (arith, e)) (of_number (uint256 n r))
  number_transform-IsAddition u512 n f r e =
      subst IsAddition (ground (arith, e)) (of_number (uint512 n r))
  number_transform-IsAddition i64 n f r e = ground (arith, e)
  number_transform-IsAddition u8 n f r e = ground (arith, e)
  number_transform-IsAddition u32 n f r e = ground (arith, e)

  broken_transform-err :
      (t : NumType) (x : BytesreprError) (f : Transform V) → broken_transform t x ≢ ok f
  unfolding broken_transform
  broken_transform-err i32 x f e = ground (arith, e)
  broken_transform-err u64 x f e = ground (arith, e)
  broken_transform-err u128 x f e = ground (arith, e)
  broken_transform-err u256 x f e = ground (arith, e)
  broken_transform-err u512 x f e = ground (arith, e)
  broken_transform-err i64 x f e = ground (arith, e)
  broken_transform-err u8 x f e = ground (arith, e)
  broken_transform-err u32 x f e = ground (arith, e)

  key_transform-IsAddition :
      (o : Option (Result BytesreprError (String × Key))) (f : Transform V)
      → key_transform o ≡ ok f
      → IsAddition f
  key_transform-IsAddition none f e = ground (arith, e)
  key_transform-IsAddition (some (ok name_and_key)) f e =
      subst IsAddition (ground (arith, e)) (of_keys (one_key name_and_key))
  key_transform-IsAddition (some (err x)) f e = ground (arith, e)

  transform_of-IsAddition :
      (named_key : V → Option (Result BytesreprError (String × Key))) (v : StoredValue V)
      (f : Transform V)
      → IsStorable v
      → transform_of named_key v ≡ ok f
      → IsAddition f
  unfolding transform_of
  transform_of-IsAddition named_key (cl_value (number t n)) f r e =
      number_transform-IsAddition t n f r e
  transform_of-IsAddition named_key (cl_value (broken t x)) f r e =
      absurd (broken_transform-err t x f e)
  transform_of-IsAddition named_key (cl_value (other v)) f r e =
      key_transform-IsAddition (named_key v) f e
  transform_of-IsAddition named_key (account a) f r e = ground (arith, e)
  transform_of-IsAddition named_key (contract c) f r e = ground (arith, e)

module _ {L V E : Type 0} (map : LinkedHashMap L (StoredValue V)) (meter : Key → StoredValue V → ℕ)
    (named_key : V → Option (Result BytesreprError (String × Key))) where
  -- Added to what is recorded for the key, the value makes an effect that the underlying value can
  -- take.
  abbrev pub Fitting : TrackingCopy L V E → Key → StoredValue V → Type 0
  Fitting tc k v =
      (t : Transform V)
      → transform_of named_key v ≡ ok t
      → (b : StoredValue V) → tc.reader k ≡ ok (some b)
      → fits (combine (value_or identity (find k tc.fns)) t) b ≡ true

  -- What is reached from a tracking copy by its operations.
  pub data Session (tc : TrackingCopy L V E) : TrackingCopy L V E → Type 0 where
    opened : Session tc tc
    reads : {u : TrackingCopy L V E} → Session tc u → (k : Key) → Session tc (read map meter k u).0
    writes :
        {u : TrackingCopy L V E}
        → Session tc u
        → (k : Key) (v : StoredValue V) → Session tc (write_value map meter k v u)
    adds :
        {u : TrackingCopy L V E}
        → Session tc u
        → (k : Key) (v : StoredValue V) → IsStorable v
        → Fitting u (normalize k) v
        → Session tc (add_value map meter named_key k v u).0

module _ {L V E : Type 0} (map : LinkedHashMap L (StoredValue V)) (meter : Key → StoredValue V → ℕ)
    (named_key : V → Option (Result BytesreprError (String × Key)))
    (entries : L → KeyMap (StoredValue V)) (law : IsLinkedHashMap map entries) where
  add_after-IsRecorded :
      (k : Key) (v : StoredValue V) (a : Result AddResult (Transform V))
      (p : TrackingCopy L V E × Result E (Option (StoredValue V)))
      → a ≡ transform_of named_key v
      → IsStorable v
      → IsRecorded map meter entries law p.0
      → p.1 ≡ view p.0 k
      → Fitting map meter named_key p.0 k v
      → IsRecorded map meter entries law (add_after map meter k a p).0
  unfolding add_after
  add_after-IsRecorded k v a (tc, err x) eq r h e fit = h
  add_after-IsRecorded k v a (tc, ok none) eq r h e fit = h
  add_after-IsRecorded k v (err x) (tc, ok (some u)) eq r h e fit = h
  add_after-IsRecorded k v (ok t) (tc, ok (some u)) eq r h e fit =
      add_transform-IsRecorded map meter entries law k t u tc h
        (transform_of-IsAddition named_key v t r (sym eq)) (sym e) (fit t (sym eq))

  add_value-IsRecorded :
      (k : Key) (v : StoredValue V) (tc : TrackingCopy L V E)
      → IsStorable v
      → Fitting map meter named_key tc (normalize k) v
      → IsRecorded map meter entries law tc
      → IsRecorded map meter entries law (add_value map meter named_key k v tc).0
  unfolding add_value
  add_value-IsRecorded k v tc r fit h =
      let (g, e, same, fns) = get-IsRecorded map meter entries law (normalize k) tc h in
      add_after-IsRecorded (normalize k) v (transform_of named_key v)
        (get map meter (normalize k) tc) refl r g e (rw (same, fns) fit)

  -- Whatever sequence of reads, writes and fitting additions: the cached reads agree with the
  -- underlying state, and the effect recorded for a key turns what the underlying state holds under
  -- it into what the tracking copy holds.
  pub Session-IsRecorded :
      {tc tc' : TrackingCopy L V E}
      → IsRecorded map meter entries law tc
      → Session map meter named_key tc tc'
      → IsRecorded map meter entries law tc'
  Session-IsRecorded h opened = h
  Session-IsRecorded h (reads {u} s k) =
      read-IsRecorded map meter entries law k u (Session-IsRecorded h s)
  Session-IsRecorded h (writes {u} s k v) =
      write_value-IsRecorded map meter entries law k v u (Session-IsRecorded h s)
  Session-IsRecorded h (adds {u} s k v r fit) =
      add_value-IsRecorded k v u r fit (Session-IsRecorded h s)
