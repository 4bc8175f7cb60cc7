-- ===== src/Wager.antt =====
-- internal/domain/wager_transaction.go, in parts: the types and states, the transaction, new
-- transactions, references, the ends of a transaction, and those read back from the database.
pub mod Kinds
pub mod State
pub mod Create
pub mod Reference
pub mod Complete
pub mod Rehydrate
pub mod Stored
pub mod Keeps
pub mod Settled
pub mod Machine
pub mod Reversal
