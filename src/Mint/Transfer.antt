-- ===== src/Mint/Transfer.antt =====
-- What `transfer` and `mint` of execution-engine/mint/src/lib.rs do to the balances.
use casper_labs.Base.{ℕ, ◌-◌, ◌≤◌, ◌≡◌, true, Option, some, ok, arith, ◌==◌, if◌then◌else◌}
use casper_labs.Types.{uref, URef, Address, u512_max, is_writeable, is_addable}
use casper_labs.Mint.{transfer, check_transfer, move_funds}
use casper_labs.Mint.Storage.{StorageProvider, RuntimeProvider, IsStorage}

module _ {S : Type 0} (r : RuntimeProvider S) (st : StorageProvider S) where
  -- The purse at the address holds its balance at the reference.
  abbrev pub KeepsAt : Address → URef → S → Type 0
  KeepsAt a u s = st.read_local a s ≡ ok (some (uref u))

  -- A transfer that succeeds had the right to take from the source and to add to the destination,
  -- and the source's balance covered the amount.
  pub transfer-guards :
      (source dest sb : URef) (amount x : ℕ) (s : S)
      → KeepsAt source.addr sb s
      → st.read sb s ≡ ok (some x)
      → (transfer r st source dest amount s).1 ≡ ok tt
      → (is_writeable source ≡ true) × (is_addable dest ≡ true) × (amount ≤ x)
  unfolding transfer check_transfer
  transfer-guards source dest sb amount x s a b e = ground arith

  check_transfer-ok :
      (source dest sb db : URef) (amount x : ℕ) (s : S)
      → KeepsAt source.addr sb s
      → KeepsAt dest.addr db s
      → st.read sb s ≡ ok (some x)
      → (transfer r st source dest amount s).1 ≡ ok tt
      → (amount ≤ x)
        × (transfer r st source dest amount s ≡ move_funds r st sb db x amount s)
        × ((move_funds r st sb db x amount s).1 ≡ ok tt)
  unfolding transfer check_transfer
  check_transfer-ok source dest sb db amount x s a b c e = ground arith

  move_funds-ok :
      (sb db : URef) (x amount : ℕ) (s : S)
      → (move_funds r st sb db x amount s).1 ≡ ok tt
      → let s1 = (st.write sb (x - amount) s).0 in
        ((st.write sb (x - amount) s).1 ≡ ok tt)
        × (move_funds r st sb db x amount s ≡ st.add db amount s1)
  unfolding move_funds
  move_funds-ok sb db x amount s e = ground arith

  -- A transfer that succeeds between purses that share a balance changes no value.
  pub transfer_self :
      IsStorage st
      → (source dest sb db : URef) (amount x : ℕ) (s : S) → KeepsAt source.addr sb s
      → KeepsAt dest.addr db s
      → sb.addr ≡ db.addr
      → x ≤ u512_max
      → st.read sb s ≡ ok (some x)
      → (transfer r st source dest amount s).1 ≡ ok tt
      → st.read db s ≡ ok (some x)
      → (v : URef) (o : Option ℕ) → st.read v s ≡ ok o
      → st.read v (transfer r st source dest amount s).0
        ≡ ok (if v.addr == sb.addr then some x else o)
  transfer_self law source dest sb db amount x s a b same fits c e d v o seen =
      let (enough, eq, done) = check_transfer-ok source dest sb db amount x s a b c e in
      let (written, eq') = move_funds-ok sb db x amount s done in
      let s1 = (st.write sb (x - amount) s).0 in
      rw (eq, eq')
        (ground (
          arith,
          law.read-write sb v (x - amount) o s written seen,
          law.read-write sb db (x - amount) (some x) s written d,
          law.read-add db v amount (x - amount) (if v.addr == sb.addr then some (x - amount) else o)
              s1,
        ))
