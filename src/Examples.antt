-- ===== src/Examples.antt =====
-- Concrete libraries and inputs at which the theorems apply.
pub mod Toy
mod Machine
mod Disk
mod Proofs
mod Accepted
mod Path
mod Session
mod Defined
mod Objects
mod Short
mod Setup
mod Honest
mod Keys
mod Commitment
mod Table
mod Argument
pub mod Threshold
