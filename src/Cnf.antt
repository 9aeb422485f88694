-- ===== src/Cnf.antt =====
-- src/opencollate/sequential_cnf.py: the bit blasting of the transition IR into clauses.
pub mod State
pub mod Gates
pub mod Words
pub mod Rules
pub mod Basic
pub mod Growth
pub mod SharedGates
pub mod GateLaws
pub mod BitLists
pub mod WordLaws
pub mod BitwiseWords
mod Tests
pub mod Refuted
