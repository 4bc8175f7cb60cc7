-- ===== src/Tests.antt =====
-- Runs of the model at concrete inputs, and the theorems at inputs that meet their hypotheses.
mod Money
pub mod Wallet
mod Ledger
pub mod Wager
mod Backoff
pub mod Service
mod Account
mod Outbox
mod Worker
mod Http
mod Lookup
mod Ingress
pub mod Data
