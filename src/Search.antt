-- ===== src/Search.antt =====
-- The search for the efficient solutions: what is found so far (MOCO.h, MaxSAT.cc), the variables of
-- the objective functions (encodings/RootLits.h, algorithms/Alg_PBtoCNF.cc) and the P-minimal
-- algorithm (algorithms/Alg_PMinimalMO.cc).
pub mod Models
pub mod Budget
pub mod Solution
pub mod RootLits
pub mod PMinimal
