-- ===== src/Lower.antt =====
-- One node of `Unroller.lower` (src/opencollate/sequential_cnf.py), and its agreement with the
-- interpreter (src/opencollate/sequential_ir.py).
pub mod Nodes
pub mod Correct
pub mod Words
pub mod Booleans
pub mod Signed
pub mod Selection
pub mod Concatenation
pub mod Extension
pub mod Parity
pub mod Multiply
pub mod Shifts
pub mod Shifters
pub mod ShiftOperators
pub mod Operators
mod Tests
