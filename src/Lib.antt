-- ===== src/Lib.antt =====
-- The execution engine of CasperLabs, from execution-engine/: the state that deploys run on, the
-- accounts that sign them, and the two system contracts that keep motes and stakes.
--
-- The parts and how they interact. A deploy runs against a tracking copy of the global state, which
-- caches what it reads and records an effect, a transform, for every key that it touches; running
-- code reaches it through a context, which checks every key and value that it is given; after the
-- deploy the effects are committed to the trie, which keeps every value under the bytes of its key. Accounts are stored values: the engine asks them
-- whether the keys that signed a deploy may deploy or manage keys. The mint contract keeps balances
-- in the state; the proof-of-stake contract pays through the mint, keeps the stakes of validators
-- and the queues of their requests, and settles the payment for each deploy. Upgrades of the engine
-- follow the order of protocol versions.
--
--   Base          results, Boolean tests, lists and the signed integers of the sources
--   BtreeMap      BTreeMap from numbers, as ascending association lists
--   KeyMap        HashMap from keys, and insert_add of engine-shared/src/additive_map.rs
--   Types         types/src/{access_rights,uref,key}.rs, and U512 of types/src/uint.rs
--   Version       types/src/{semver,protocol_version}.rs
--   Account       engine-shared/src/account.rs and account/{associated_keys,action_thresholds}.rs,
--                 with the failures of types/src/account.rs
--   Values        engine-shared/src/{stored_value,contract}.rs, and the integral types of
--                 types/src/{cl_type,uint}.rs
--   Bytes         types/src/bytesrepr.rs: the bytes of numbers, containers, keys, accounts and queues,
--                 from the files of types/src, engine-shared/src/account and proof-of-stake/src/queue.rs
--   Trie          engine-storage/src/trie/mod.rs, and engine-storage/src/trie_store/operations/mod.rs:
--                 `read`, `scan` and `write`
--   Transform     engine-shared/src/transform.rs: `apply`, and `combine` for the sum of two
--   TrackingCopy  engine-core/src/tracking_copy/mod.rs, and engine-core/src/engine_state/op.rs
--   GlobalState   engine-storage/src/global_state/mod.rs: `commit`
--   Execution     engine-core/src/engine_state/{execution_result,execution_effect}.rs: the builder of
--                 results, with the conversions of engine-shared/src/{gas,motes}.rs
--   Context       engine-core/src/runtime_context/mod.rs: what running code may read, write, name and
--                 manage, with the errors of engine-core/src/execution/error.rs
--   Pos           proof-of-stake/src, with the errors of types/src/system_contract_errors/pos.rs
--   Mint          mint/src, with the errors of types/src/system_contract_errors/mint.rs
--   ApiError      types/src/api_error.rs, the numbers of errors in the host interface
--
-- All paths above are below execution-engine/. A function keeps the name it has in the source; where
-- a trait and an inner module of the source share a name, the inner function has a longer one, so
-- that the inner `bond`, `unbond` and `step` of proof-of-stake are `enqueue_bond`, `enqueue_unbond`
-- and `step_queues`. A method on `&mut self` returns the state as it leaves it beside its result, on
-- an error too.
--
-- Numbers. Byte strings that serve as addresses, public keys and hashes are read as numbers. A
-- `U512` is a natural number, whose `+` and `*` panic beyond 512 bits, as in the library that
-- defines it; a panic is the value `panicked` of a `Trap`. `u8` weights add up with saturation. A
-- signed integer that takes part in a wrapping addition is kept as its bits in two's complement.
-- Additions of `u32` wrap around, as in a release build. Memory is taken to be there when bytes are
-- read, so that `try_reserve_exact` succeeds.
--
-- What stands as a parameter. The mint, for proof-of-stake, and the storage of the mint are records
-- of operations, as the traits `MintProvider` and `StorageProvider` are; so are the trie under
-- `commit`, the store under the trie with the hash of its elements, the reader and the meter under a tracking copy, and the `LinkedHashMap` of its cache,
-- which a library provides; and, for a context, what values of no integral type hold, the generator of
-- addresses and the hashes. What a theorem needs of them is a record of laws; beside each there is
-- a model in memory.
--
-- Fuel. The loop that evicts cached reads runs on fuel, as much as there are entries after the
-- insertion; each round takes one entry. A read or a scan of the trie runs on as many rounds as the
-- path has bytes, and one: every element but the last takes a byte of the path. Every other function is recursive on its
-- data. The counter of stored functions has 32 bits and wraps around.
--
-- What is not modelled: the interpreter of contracts and its host functions, the stores under the
-- trie and the listing of its keys, the bytes of texts and typed values, the server and its messages, logging, metrics, the library and the
-- examples for contracts, and the node, which is written in another language. Texts inside of errors
-- are left out.
pub mod Base
pub mod BtreeMap
pub mod Types
pub mod KeyMap
pub mod Version
pub mod Account
pub mod Values
pub mod Bytes
pub mod Trie
pub mod Transform
pub mod TrackingCopy
pub mod GlobalState
pub mod Pos
pub mod Mint
pub mod ApiError
pub mod Execution
pub mod Context
