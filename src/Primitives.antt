-- ===== src/Primitives.antt =====
-- What demo-circuit and api take from ginger-lib and cctp_primitives: the types that
-- demo-circuit/src/type_mapping.rs names, with their operations. None of that code stands in the
-- repository, so it is a parameter of every definition that calls it.
pub mod Laws
pub mod Sizes
pub mod Collision
use zendoo_sc_cryptolib.Prelude.{ℕ, Bool, Option, List, [], ◌∷◌, String}
use zendoo_sc_cryptolib.Prelude.Call.{Call}

-- A backward transfer of cctp_primitives.
pub record BackwardTransfer : Type 0 where
  pub pk_dest : List ℕ
  pub amount : ℕ

pub record Primitives : Type 1 where
  -- `SchnorrPk` and `VRFPk` are both `G2`, `SchnorrSk` and `VRFSk` both `ScalarFieldElement`.
  pub FieldElement : Type 0
  pub G2 : Type 0
  pub G2Projective : Type 0
  pub ScalarFieldElement : Type 0
  pub SchnorrSig : Type 0
  pub into_projective : G2 → G2Projective
  pub into_affine : G2Projective → G2
  -- the field: `from` an unsigned word, `one`, `zero`, arithmetic, the bits, the highest first
  pub size_in_bits : ℕ
  pub from : ℕ → FieldElement
  pub add : FieldElement → FieldElement → FieldElement
  pub sub : FieldElement → FieldElement → FieldElement
  pub eq : FieldElement → FieldElement → Bool
  pub write_bits : FieldElement → List Bool
  pub affine_x : G2 → FieldElement
  -- the Poseidon hash of the field
  pub FieldHash : Type 0
  pub init_constant_length : ℕ → Option (List FieldElement) → FieldHash
  pub update : FieldHash → FieldElement → FieldHash
  pub finalize : FieldHash → Call FieldElement
  pub rand_from_seed : ℕ → FieldElement
  -- the Schnorr scheme; the first argument of a randomised operation is the draw of `OsRng`
  pub schnorr_keygen : ℕ → G2Projective × ScalarFieldElement
  pub schnorr_get_public_key : ScalarFieldElement → G2Projective
  pub schnorr_keyverify : G2Projective → Bool
  pub schnorr_sign : ℕ → G2Projective → ScalarFieldElement → FieldElement → Call SchnorrSig
  pub schnorr_verify : G2Projective → FieldElement → SchnorrSig → Call Bool
  pub null_sig : SchnorrSig
  -- the verifiable random function; `gamma.to_field_elements()` of a proof
  pub VrfProof : Type 0
  pub vrf_keygen : ℕ → G2Projective × ScalarFieldElement
  pub vrf_get_public_key : ScalarFieldElement → G2Projective
  pub vrf_keyverify : G2Projective → Bool
  pub vrf_prove : ℕ → G2Projective → ScalarFieldElement → FieldElement → Call VrfProof
  pub vrf_proof_to_hash : G2Projective → FieldElement → VrfProof → Call FieldElement
  pub gamma_coords : VrfProof → Option (List FieldElement)
  -- cctp_primitives: Merkle root of backward transfers, and the byte accumulator over two words
  pub get_bt_merkle_root : Option (List BackwardTransfer) → Call FieldElement
  pub accumulate : List ℕ → Call (List FieldElement)
  -- the gadgets of r1cs_std and r1cs_crypto, each by the value of its output variable
  pub enforce_hash_constant_length : List FieldElement → Call FieldElement
  pub enforce_signature_verdict : G2Projective → SchnorrSig → FieldElement → Call Bool
  pub pk_x : G2Projective → FieldElement
  pub uint64_to_bits_le : ℕ → List Bool
  pub from_bits : List Bool → Call FieldElement
  pub conditionally_add_constant : FieldElement → Bool → FieldElement → FieldElement
