-- ===== src/Formula.antt =====
-- Pseudo-Boolean formulas (FormulaPB.h, FormulaPB.cc).
pub mod Pb
pub mod Objective
pub mod Card
