-- ===== src/Lib.antt =====
-- The verification library of dmeic, a solver for multi-objective Boolean optimisation.
--
-- A search works on points of the objective space. A waiting list holds the points it still has to
-- visit, a ThinSet the points that no other one dominates, and the MOCO object the efficient solutions
-- and the lower bounds that it reports. Parallel searches exchange solutions and learnt clauses.
-- The formula gives PB constraints, and the encodings turn them into clauses for a SAT solver.
--
-- Which file models what, with paths from the root of the repository:
--   Prelude        shared helpers: lists, options, membership, tests on numbers, integers
--   Point          YPoint (MOCO.h), dominates, hv, hv_shift and dominator (Pareto.cc), wdominates (MOCO.cc)
--   StdSet         std::set of the C++ library: an ascending list
--   ThinSet        ThinSet and ThinGapSet (Pareto.h)
--   Sharing        SharedSolutionsVector and SharedSolutionsArchive (solutionsharing/)
--   ClauseBag      DequeSharedClausesBag and SizeHeuristic (clausesharing/)
--   Archive        saveEfficientSol, updateLowerBoundSet, clearLowerBoundSet (MOCO.cc)
--   WaitingList    Queue, Stack, List, PriorityQueue and YPoint_priority
--                  (waiting_list/waiting_list.h)
--   Encoding       addUnitClause and its kin, Ladder, Adder, SWC (as Swc), Totalizer (encodings/)
--   Formula        the classes PB, Card and PBObjFunction (FormulaPB.h, FormulaPB.cc)
--   Search         Solution (MOCO.h, MaxSAT.cc), RootLits (encodings/RootLits.h), the regions of
--                  algorithms/Alg_PBtoCNF.cc with its budget of conflicts, models as clauses
--                  (MaxSAT.cc) and the search of algorithms/Alg_PMinimalMO.cc
--   Tests          runs on concrete inputs
--
-- A state is a record, and an operation a function from a state to a state. Where the code locks a
-- mutex for the whole of a call, the call is one function, and an interleaving is a list of calls.
-- A failed assertion or an exception is none. A uint64_t is a number, with its wrap-around written
-- out in the volumes, in changeSign, in the index of a region, and in the products, values and
-- merged terms of the objective functions, whose divisor is rounded as double rounds it; the sums
-- that loops over coefficients build up, counters and time stamps are taken not to wrap. A shift of
-- 64 places or more is none. The loops over vectors are recursions on lists. toCNF halves its list
-- at each call, and runs on fuel: as many units as the list has literals are enough. adderTree adds
-- a bucket while it runs, and runs on fuel: the number of buckets and of their literals is enough.
-- The calls on one SWC form a relation, Reaches in Encoding/Swc/Histories, between which the solver
-- takes other clauses. The readers of SharedSolutionsArchive are functions of what their attempt to
-- lock the mutex gives; a read in the middle of a push is not modelled. factorize divides by trial
-- on fuel: two more than the largest coefficient is enough.
--
-- The search of PMinimalMO is a relation, Step in Search/PMinimal, on what the code changes: an answer
-- of the solver leads from one call of it to the next through the functions found and optimum, which
-- are the bodies of the two loops. Event adds the solutions that other threads share and their stop
-- of the search; the learnt clauses that they share are left out, and so is search_MO, which repeats
-- the search for a smaller epsilon. The encodings of the objective functions are a hypothesis there,
-- the record IsEncoded of Search/PMinimal/Known: what their variables mean.
--
-- The SAT solver (solvers/, a copy of another project) is the parameter Sat of Encoding/Solver: what
-- newVar and addClause do to the number of variables and to the satisfying assignments. The
-- compiler's __builtin_clzll is a parameter of Adder, with the record ClzLaws of what is documented.
--
-- Not modelled: parsers, options, statistics and printed lines, which are input and output; the
-- other search loops of algorithms/, the other encodings and the formulas, on which the parts above do
-- not rest; graph/, hv/, bounds/, sat4j/ and solvers/, which come from other projects or compute with
-- floating-point numbers.
pub mod Prelude
pub mod Point
pub mod StdSet
pub mod ThinSet
pub mod Sharing
pub mod ClauseBag
pub mod Archive
pub mod WaitingList
pub mod Encoding
pub mod Formula
pub mod Search
pub mod Tests
