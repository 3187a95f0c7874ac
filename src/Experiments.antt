-- ===== src/Experiments.antt =====
-- The experiments with other generators of bindings, which the build of the module does not use.
pub mod Genepi
pub mod Lifetimes
pub mod Nbind
pub mod PromiseWorker
