-- ===== src/Sharing.antt =====
-- Solutions that the threads of a portfolio share (solutionsharing/).
pub mod Vector
pub mod Archive
