-- ===== src/Transform/Narrow.antt =====
-- Sums of transforms of execution-engine/engine-shared/src/transform.rs that overflow their width.
use casper_labs.Base.{ℕ, ◌+◌, ◌^◌, ◌≤◌, ◌<◌, ◌≢◌, ◌>>=◌, arith}
use casper_labs.Values.{u512, number, cl_value}
use casper_labs.Transform.{add_uint64, apply, combine}

-- Two additions of 64 bits whose sum overflows 64 bits never have, on a number of 512 bits, the
-- effect of their sum: the sum drops the carry that the two keep.
pub combine_drops_carry :
    {V : Type 0} (i j x : ℕ)
    → i < 2 ^ 64
    → j < 2 ^ 64
    → 2 ^ 64 ≤ i + j
    → apply {V = V} (combine (add_uint64 i) (add_uint64 j)) (cl_value (number u512 x))
      ≢ (apply (add_uint64 i) (cl_value (number u512 x)) >>= apply (add_uint64 j))
unfolding apply combine
combine_drops_carry i j x a b c e = ground (arith, e)
