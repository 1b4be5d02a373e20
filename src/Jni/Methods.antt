-- ===== src/Jni/Methods.antt =====
-- The exported functions of api/src/lib.rs as the calls that Java makes, one module for each package or
-- class.
pub mod FieldElement
pub mod Schnorr
pub mod Vrf
pub mod Poseidon
pub mod MerklePath
pub mod MerkleTree
pub mod SigProof
pub mod ProvingSystem
pub mod Adding
pub mod Reading
pub mod Utils
