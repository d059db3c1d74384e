-- ===== src/Mint/Store.antt =====
-- A storage in memory for the mint of execution-engine/mint/src.
use casper_labs.Base.{
  ℕ, ◌+◌, ◌%◌, ◌^◌, ◌≡◌, inl, inr, ◌⊎◌, Bool-cases, Option, none, some, ⊤, Result, ok, err, arith,
  ◌==◌, if◌then◌else◌,
}
use casper_labs.Types.{Key, URef, Address, new_uref, read_add_write}
use casper_labs.Mint.{
  mint, balance, system_account, MintError, invalid_access_rights, storage_error,
}
use casper_labs.Mint.Storage.{StorageProvider, RuntimeProvider, IsStorage}

pub record Store : Type 0 where
  pub values : Address → Option ℕ
  pub locals : Address → Option Key
  -- the address of the next new reference
  pub next : Address
  pub caller : ℕ

abbrev pub update {ℓ} : {A : Type ℓ} → (ℕ → A) → ℕ → A → ℕ → A
update f k v j = if j == k then v else f j

abbrev grant : Store → Address → Option ℕ → Store
grant s a v = record s { values = update s.values a v; next = a + 1 }

-- The host adds modulo 2 ^ 512, and only to a value that is there.
abbrev add_value : URef → ℕ → Store → Store × Result MintError ⊤
add_value u n s = elim (s.values u.addr) [
  | none ↦ (s, err storage_error)
  | some x ↦ (record s { values = update s.values u.addr (some ((x + n) % 2 ^ 512)) }, ok tt)
]

unfoldable pub store_provider : StorageProvider Store
store_provider = record {
  new_balance_uref = λ n s. (grant s s.next (some n), new_uref s.next read_add_write);
  new_purse_uref = λ s. (grant s s.next none, new_uref s.next read_add_write);
  write_local = λ a k s. record s { locals = update s.locals a (some k) };
  read_local = λ a s. ok (s.locals a);
  read = λ u s. elim u.access_rights [
    | none ↦ err invalid_access_rights
    | some _ ↦ ok (s.values u.addr)
  ];
  write = λ u n s. elim u.access_rights [
    | none ↦ (s, err invalid_access_rights)
    | some _ ↦ (record s { values = update s.values u.addr (some n) }, ok tt)
  ];
  add = λ u n s. elim u.access_rights [
    | none ↦ (s, err invalid_access_rights)
    | some _ ↦ add_value u n s
  ];
}

unfoldable pub store_runtime : RuntimeProvider Store
store_runtime = record { get_caller = λ s. s.caller; put_key = λ name key s. s }

pub store_provider-IsStorage : IsStorage store_provider
unfolding store_provider
store_provider-IsStorage = record {
  read-write = λ u v n o s done seen. ground arith;
  read-add = λ u v n x o s done found fits seen. ground arith;
  read_local-write = λ u n a s. ground arith;
  read_local-add = λ u n a s. ground arith;
}

-- Over the storage in memory, a purse is created only empty or by the system account, and its
-- balance is the one that it is created with.
pub mint-balance :
    (n : ℕ) (purse : URef) (s : Store)
    → (mint store_runtime store_provider n s).1 ≡ ok purse
    → ((n ≡ 0) ⊎ (s.caller ≡ system_account))
      × (balance store_runtime store_provider purse (mint store_runtime store_provider n s).0
          ≡ ok (some n))
unfolding mint balance store_provider store_runtime
mint-balance n purse s e = elim (Bool-cases (n == 0)) [
  | inl empty ↦ (inl (ground arith), ground arith)
  | inr full ↦ (inr (ground arith), ground arith)
]
