-- ===== src/Contract.antt =====
-- The ink! contracts of contract/.
pub mod Ink
pub mod RequestPool
pub mod PredicateRegistry
pub mod Transaction
