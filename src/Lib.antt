-- ===== src/Lib.antt =====
-- OpenCollate: the sequential certificates and the Boolean checker.
--
-- OpenCollate checks that the views of a hardware block agree. Its sequential checks normalise a
-- request, unroll a transition system into clauses and accept a certificate only with refutations that
-- a small kernel checks and executions that it replays. This library models that chain, from the
-- request to the kernel, against the interpreter of the transition system; and the Boolean expressions
-- of cell functions with their parser and their truth-table equivalence.
--
-- The parts, and the code that each is about:
--   Common      shared names: Boolean tests, lists, integers, results, dicts and sets of strings, bitwise
--               operators on numbers.
--   Kernel      src/opencollate/proof_kernel.py. Meter is `Limits` and `Meter`, with the clock as a
--               parameter; Clause is `_clause`; Database is the state of `_Propagation` and `add`; Propagation is `conflicts`, as
--               nested loops over an explicit search state; Verify is `verify_rup`. Meaning, Nonzero,
--               Propagation/Agreement, Propagation/Sound, Propagation/Keeps and Soundness hold the proofs.
--   Cnf         `CNF` of src/opencollate/sequential_cnf.py: State (the object, and a method as an
--               action that may raise), Gates (`variable`, `clause`, `and_`, `or_`, `xor`), Words (the
--               methods on tuples of literals, `problem`). Refuted joins it to the kernel.
--               Rules, Growth, Basic, SharedGates, GateLaws, BitLists, BitwiseWords and WordLaws hold the proofs.
--   Ir          src/opencollate/sequential_ir.py: Circuit (`Node`, its operators), Values (the body of the
--               loop of `evaluate`), Builder (`Circuit`, `add`, `ref`), Evaluate (`evaluate` with its
--               stack), Finalize (`finalize`), Cone (`property_cone`, `cone_summary` of
--               src/opencollate/sequential_cone.py), Simulate (`simulate_frame`). Builder/Interning holds the invariant of `add`;
--               Evaluate/Reference, Settle, Correct and Total relate the loop to a recursion on the graph.
--   Lower       the body of the loop of `Unroller.lower` (src/opencollate/sequential_cnf.py) in Nodes;
--               the other files relate it to Ir/Values, operator by operator, up to Operators.
--   Unroll      `Unroller` of src/opencollate/sequential_cnf.py: Loop (the loop of `lower`), Frames (`append`,
--               `property`), Problems (`base_problem`, `step_problem`).
--   Spec        src/opencollate/sequential_spec.py: Json (decoded JSON, `obj`, `integer`), Reading (`read_json`), Names (`name`,
--               `signal_name`, and the patterns of src/opencollate/sequential_rtl.py), Request (the
--               normal form), Normalize (`normalize`), Holds (`validate_signals`, `holds`). Depth, Bounds and Returns hold the
--               proofs.
--   Certificate src/opencollate/sequential_certificate.py: Cover (`_check_cover`, `_max_k`), Verify
--               (`_check_evidence`, `verify_certificate`), Producer (`_proof_rows`). Execution and Certified hold the proofs.
--   Boolean     src/opencollate/boolean.py: Expr (the classes of expressions), Printing (`__str__`), Tokens and Scan (`_tokenize`),
--               Parser (`_Parser`, `_combine`), Equivalence and Check (`check_equivalence`). Grammar is the
--               language with its values; Combine, Outcome, Factors, Correct and Texts relate the parser
--               to it; Nesting is about the limit on nesting; Truth and Decides hold the proofs on the truth table.
--   Execution   src/opencollate/execution.py: the map over views with workers. Ordered holds the proofs.
--
-- How they interact: `verify_certificate` loads a circuit and a request, replays the witness of each
-- property with `simulate_frame` and `holds`, builds the two problems with the unroller, which lowers nodes by
-- the methods of Cnf under the budget of a Kernel meter, and gives the problems and the proofs to `verify_rup`.
--
-- Numbers: Python's integers are ℕ where the code keeps them at least 0 and a ℤ over ℕ elsewhere;
-- masks and shifts are written out with powers of 2, and indices below 0 by what Python does with them.
-- Errors are values: ProofError, SequentialError, RequestError, CertificateError, BooleanError, ReadError.
--
-- Fuel: the two loops of `conflicts` recurse on fuel, the work bound plus 2: every round of the source spends
-- work, which the bound limits. The loops of `evaluate` and of `lower` have two rounds for each node and one
-- for each operand, and two more, as do the searches of `finalize` and of `property_cone`, whose order has a round for each name and one more. The groups of the parser have fuel for each token and one more, its
-- loops for each token left. Running out of fuel is an error of its own, so no run is taken to have
-- returned by it. `bit_count` recurses on the number.
--
-- Arguments of the model: the character tables of Unicode, the decoding of UTF-8 and `json.loads`, the digest (SHA-256 of canonical JSON), the loading
-- of a circuit from its sources and the encoding of what a certificate is bound to, and the
-- normal form of the preprocessing part of a request.
--
-- Not modelled: `certify` and the solver behind it; `expand_trace`;
-- the parsers, the engine and the reporters; the SMT backend and the RTL frontends, which call
-- third-party libraries.
--
-- `Meets` is the form of the statements on actions: where the action returns, the cached gates held
-- before and the clauses that it leaves are true, the cached gates hold after and the result is right.
pub mod Common
pub mod Kernel
pub mod Cnf
pub mod Ir
pub mod Lower
pub mod Boolean
pub mod Spec
pub mod Unroll
pub mod Certificate
pub mod Execution
