-- ===== src/Tests.antt =====
-- Runs of the theorems on concrete inputs, grouped by the parts of the program.
pub mod Sets
pub mod Threads
pub mod Archives
pub mod Encodings
pub mod Adders
pub mod Counters
pub mod Totalizers
pub mod Deciding
pub mod Searches
pub mod Objectives
pub mod Models
