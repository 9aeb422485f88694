-- ===== src/Boolean.antt =====
-- src/opencollate/boolean.py: Boolean expressions, their parser and their equivalence.
pub mod Expr
pub mod Equivalence
pub mod Truth
pub mod Decides
pub mod Tokens
pub mod Scan
pub mod Printing
pub mod Parser
pub mod Check
pub mod Combine
pub mod Grammar
pub mod Outcome
pub mod Factors
pub mod Correct
pub mod Nesting
pub mod Texts
mod Tests
