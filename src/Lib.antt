-- ===== src/Lib.antt =====
-- A model of the execution core of Baron EVM and proofs about it. The program is a Rust
-- implementation of the Ethereum virtual machine: the transaction handler in crates/bcevm drives an
-- interpreter (crates/interpreter) over data types of crates/primitives. The interpreter meters gas,
-- and reads and changes accounts only through the journaled state, which calls a database for what
-- it has not loaded and undoes a failed call frame from its journal.
--
-- Which file models which part:
--   * Spec: crates/primitives/src/specification.rs, the forks and their order.
--   * Gas: crates/interpreter/src/gas.rs, the meter of a call frame (`record_cost`, `erase_cost`,
--     `set_final_refund`). Gas.Calc and Gas.Sstore: gas/calc.rs, the cost functions and the storage
--     refunds. Gas.Constants: gas/constants.rs.
--   * Eof: crates/primitives/src/bytecode/eof.rs and eof/, the EOF container format. Eof.Header,
--     Eof.Body and Eof.Container hold the encoders and decoders of header.rs, body.rs with
--     types_section.rs, and eof.rs.
--   * Bytecode: crates/primitives/src/bytecode.rs and bytecode/legacy.rs, the forms of code.
--   * Analysis: crates/interpreter/src/interpreter/analysis.rs, the jump table of legacy code.
--   * Signed: crates/interpreter/src/instructions/i256.rs, signed 256-bit arithmetic.
--   * Stack: crates/interpreter/src/interpreter/stack.rs, the operand stack and its checked
--     operations, without set and push_slice.
--   * Journal: crates/bcevm/src/journaled_state.rs. Journal.Accounts: the accounts of
--     crates/primitives/src/state.rs. Journal.Entries: the journal entries and `journal_revert`.
--     Journal.Storage and Journal.Value: storage, transient storage and logs; transfers, creation and
--     self-destruction. Journal.Frame: the operations of a call frame in sequence, with the frames that
--     it calls. The other modules below Journal hold the proofs.
--   * States: crates/bcevm/src/db/states, the state that is kept between transactions and blocks.
--     States.Status is account_status.rs, States.Accounts the data, States.Cache and States.CacheState
--     cache_account.rs and cache.rs, which take in the result of a transaction. States.Transition is
--     transition_account.rs and transition_state.rs, which merge the changes of a block, and
--     States.Bundle and States.Reverts are bundle_account.rs and reverts.rs, which take a block's
--     transition and undo it. States.BundleState with its children is bundle_state.rs and changes.rs.
--     States.Chain is state.rs, which loads accounts from the bundle or the database into the cache.
--     The other modules below States hold the proofs.
--   * Env: crates/primitives/src/env.rs, the environment of a transaction. Env.Validate: its
--     validation, with crates/bcevm/src/handler/mainnet/validation.rs. Env.Fees: what is deducted,
--     paid back and earned, in pre_execution.rs and post_execution.rs of the same folder.
--     Env.BlobPrice: the blob gas price of crates/primitives/src/utilities.rs.
--   * Memory: crates/interpreter/src/interpreter/shared_memory.rs, the memory of nested contexts.
--   * Base: helpers that the parts share.
-- Functions keep their names; a loop or a block that has a name of its own here says which it is.
--
-- How the program is read:
--   * A machine integer is a natural number below a power of two. Plain `+`, `-` and `*` wrap, as in a
--     release build. A U256 wraps too, as the integer library documents of its operators. `refunded`,
--     an i64, is kept as its bit pattern; the refunds of storage writes are integers.
--   * A panic (`unwrap` of nothing, an index out of bounds) is the outcome `panic`; in States but for
--     States.Chain, in Memory and in Env.Fees, where there is no error beside it, it is `none`.
--   * Addresses, hashes and storage keys are numbers; a hash map is a function to an optional value,
--     or, where the code iterates over it, the list of its entries in the order of the iteration
--     (Base.Dict).
--   * A vector of the journal is a list with the newest element first. Logs and reverts are in order.
--   * The database is a parameter: a record with its answers to one operation. Its error ends the
--     execution. The hash function keccak256 is a parameter, below
--     Journal an instance (Journal.View.Hasher).
--   * The forks are those of the build without the optimism feature.
-- Loops are recursions on their list or their count, but for the scan of the jump analysis, which runs
-- on fuel: the length of the code, enough since every round moves on by at least one byte; and for the
-- loop of the blob gas price, whose fuel is twice the numerator and 130: from twice the numerator on
-- every round halves a number of 128 bits.
--
-- Not modelled: the opcode functions and the interpreter loop, the validation of EOF code, the frames
-- of the handlers, precompiles, inspectors, the builders of the states and their block hashes, the
-- database backends and the test binaries. They are glue, calls of outside libraries, or build on
-- the parts modelled here.
pub mod Base
pub mod Spec
pub mod Gas
pub mod Eof
pub mod Bytecode
pub mod Analysis
pub mod Signed
pub mod Stack
pub mod Journal
pub mod States
pub mod Env
pub mod Memory
