-- ===== src/Encoding.antt =====
-- CNF encodings (encodings/) over the interface of the SAT solver.
pub mod Solver
pub mod Variables
pub mod Clauses
pub mod Ladder
pub mod Totalizer
pub mod Adder
pub mod Swc
