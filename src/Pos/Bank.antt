-- ===== src/Pos/Bank.antt =====
-- A mint in memory, as the contract's tests would have it: every address has a balance, and the
-- account of validator `v` has its main purse at address 1000 + `v`.
use casper_labs.Base.{ℕ, ◌+◌, ◌-◌, Bool, true, false, some, arith, leb, ◌==◌, if◌then◌else◌}
use casper_labs.Types.{PurseId, new_uref, read_add_write}
use casper_labs.Pos.World.{MintProvider}
use casper_labs.Pos.Contract.Solvency.{IsKept}
use casper_labs.Pos.Contract.Finalize.{IsSpent}
use casper_labs.Pos.Contract.SelfRefund.{IsIdle}

abbrev pub Bank : Type 0
Bank = ℕ → ℕ

abbrev pub set_balance : ℕ → ℕ → Bank → Bank
set_balance a n s j = if j == a then n else s j

abbrev pub move : ℕ → ℕ → ℕ → Bank → Bank × Bool
move a b n s =
    if leb n (s a)
    then (let paid = set_balance a (s a - n) s in set_balance b (paid b + n) paid, true)
    else (s, false)

unfoldable pub bank : MintProvider Bank
bank = record {
  transfer_from_purse_to_account = λ p v n s. move p.addr (1000 + v) n s;
  transfer_from_purse_to_purse = λ p q n s. move p.addr q.addr n s;
  get_balance = λ p s. some (s p.addr);
}

abbrev pub purse_at : ℕ → PurseId
purse_at a = new_uref a read_add_write

pub bank-IsKept : IsKept bank (purse_at 1)
unfolding bank
bank-IsKept = record {
  receives = λ p n s apart done. ground arith;
  pays = λ v n s done. ground arith;
  refuses = λ v n s refused. ground arith;
}

pub bank-IsSpent : IsSpent bank (purse_at 2)
unfolding bank
bank-IsSpent = record {
  sends = λ q n s apart done. ground arith;
  keeps = λ q n s refused. ground arith;
  pays = λ v n s done. ground arith;
}

pub bank-IsIdle : IsIdle bank (purse_at 2)
unfolding bank
bank-IsIdle = record {
  succeeds = λ q n s own enough. ground arith;
  same = λ q n s own. ground arith;
}
