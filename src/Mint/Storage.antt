-- ===== src/Mint/Storage.antt =====
-- The providers of execution-engine/mint/src/storage_provider.rs and runtime_provider.rs, at the
-- types at which the mint uses them.
use casper_labs.Base.{ℕ, ◌+◌, ◌≤◌, ◌≡◌, Option, some, ⊤, Result, ok, ◌==◌, if◌then◌else◌}
use casper_labs.Types.{Key, URef, Address, u512_max}
use casper_labs.Mint.Error.{MintError}

-- A write returns the state as it leaves it, and its result.
pub record StorageProvider (S : Type 0) : Type 0 where
  pub new_balance_uref : ℕ → S → S × URef
  pub new_purse_uref : S → S × URef
  pub write_local : Address → Key → S → S
  pub read_local : Address → S → Result MintError (Option Key)
  pub read : URef → S → Result MintError (Option ℕ)
  pub write : URef → ℕ → S → S × Result MintError ⊤
  pub add : URef → ℕ → S → S × Result MintError ⊤

-- A name is `as_string` of a reference without access rights; the reference stands for it.
pub record RuntimeProvider (S : Type 0) : Type 0 where
  pub get_caller : S → ℕ
  pub put_key : URef → Key → S → S

-- What the mint relies on: a write and an addition that succeed set the value at the address, for
-- every reference that can read it, and change no other value; an addition may wrap around past 512 bits.
pub record IsStorage {S : Type 0} (st : StorageProvider S) : Type 0 where
  pub read-write :
      (u v : URef) (n : ℕ) (o : Option ℕ) (s : S)
      → (st.write u n s).1 ≡ ok tt
      → st.read v s ≡ ok o
      → st.read v (st.write u n s).0 ≡ ok (if v.addr == u.addr then some n else o)
  pub read-add :
      (u v : URef) (n x : ℕ) (o : Option ℕ) (s : S)
      → (st.add u n s).1 ≡ ok tt
      → st.read u s ≡ ok (some x)
      → x + n ≤ u512_max
      → st.read v s ≡ ok o
      → st.read v (st.add u n s).0 ≡ ok (if v.addr == u.addr then some (x + n) else o)
  pub read_local-write :
      (u : URef) (n : ℕ) (a : Address) (s : S)
      → st.read_local a (st.write u n s).0 ≡ st.read_local a s
  pub read_local-add :
      (u : URef) (n : ℕ) (a : Address) (s : S)
      → st.read_local a (st.add u n s).0 ≡ st.read_local a s
