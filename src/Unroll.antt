-- ===== src/Unroll.antt =====
-- `Unroller`, `base_problem` and `step_problem` of src/opencollate/sequential_cnf.py.
pub mod Loop
pub mod Frames
pub mod Problems
