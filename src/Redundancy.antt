-- ===== src/Redundancy.antt =====
-- crates/nanochrono-core/src/redundancy.rs: the three-tier protection of a stored 64-bit word.
-- `Code` is the Hamming(72,64) SECDED code, `Protected` the container with its two replicas, and
-- `Integrity` the outcomes with the process-wide counters; their children are proofs.
pub mod Integrity
pub mod Code
pub mod Protected
mod Runs
