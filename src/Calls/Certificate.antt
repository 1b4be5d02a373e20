-- ===== src/Calls/Certificate.antt =====
-- From the signatures of a certificate to the answer of its verifier: what
-- create_naive_threshold_sig_proof and verify_naive_threshold_sig_proof of api/src/cctp_calls.rs do
-- one after the other. The argument system between them is a parameter, with its laws here.
pub mod Accepted
pub mod Made
pub mod Binding
use zendoo_sc_cryptolib.Prelude.{ℕ, ◌≡◌, Bool, true, Option, none, some, List, [], ◌∷◌, String}
use zendoo_sc_cryptolib.Prelude.Call.{ok}
use zendoo_sc_cryptolib.Primitives.{Primitives}
use zendoo_sc_cryptolib.Threshold.{NaiveTresholdSignature, ConstraintSystem, generate_constraints}
use zendoo_sc_cryptolib.Calls.Backend.{
  Backend, CertificateProofUserInputs, coboundary_marlin, coboundary_marlin_key,
}
use zendoo_sc_cryptolib.Calls.Inputs.{cert_data_hash, empty_system}

-- The public inputs of a certificate with a constant and no custom fields: the constant, and the hash
-- of the certificate's data.
pub record IsPublic (P : Primitives) (ins : CertificateProofUserInputs P.FieldElement)
    (inputs : List P.FieldElement) : Type 0 where
  pub constant : P.FieldElement
  pub mr_bt : P.FieldElement
  pub fees : P.FieldElement
  pub data_hash : P.FieldElement
  pub no_custom_fields : ins.custom_fields ≡ none
  pub constant_lem : ins.constant ≡ some constant
  pub mr_bt_lem : P.get_bt_merkle_root ins.bt_list ≡ ok mr_bt
  pub fees_lem : P.accumulate (ins.btr_fee ∷ ins.ft_min_amount ∷ []) ≡ ok (fees ∷ [])
  pub data_hash_lem :
      cert_data_hash P ins.sc_id
        (P.from ins.epoch_number)
        mr_bt
        (P.from ins.quality)
        ins.end_cumulative_sc_tx_commitment_tree_root
        fees
      ≡ ok data_hash
  pub inputs_lem : inputs ≡ constant ∷ data_hash ∷ []

-- A circuit for `max_pks` keys whose constraints hold at the public inputs of a certificate.
pub record IsWitness (P : Primitives) (max_pks : ℕ)
    (ins : CertificateProofUserInputs P.FieldElement) (c : NaiveTresholdSignature P) : Type 0 where
  pub cs : ConstraintSystem P
  pub keys : c.max_pks ≡ max_pks
  pub runs : generate_constraints P c (empty_system P) ≡ ok cs
  pub satisfied : cs.satisfied ≡ true
  pub inputs : IsPublic P ins cs.inputs

-- What the program relies on of the argument system, for the keys in two files that were set up
-- together for `max_pks` keys: a proof made for a witness is accepted, an accepted proof has a witness
-- (the argument of knowledge, without its negligible error), and a proof is read back from the bytes
-- that it is written to, of which the first is the proving system's.
pub record ProofLaws (P : Primitives) (B : Backend P) (max_pks : ℕ) (pk_path vk_path : String)
    : Type 0 where
  pub complete :
      (ins : CertificateProofUserInputs P.FieldElement) (c : NaiveTresholdSignature P)
      (enforce_membership compressed_pk check_vk compressed_vk zk : Bool) (draw : Option ℕ)
      (rng : ℕ) (pk : B.ProverKey) (ck : B.CommitterKey) (vk : B.VerifierKey) (proof : B.Proof)
      → B.read_prover_key pk_path (some enforce_membership) (some compressed_pk)
        ≡ ok (coboundary_marlin_key pk)
      → B.get_g1_committer_key ≡ ok (some ck)
      → B.read_verifier_key vk_path (some check_vk) (some compressed_vk) ≡ ok vk
      → B.prove pk ck c zk draw ≡ ok proof
      → IsWitness P max_pks ins c
      → B.verify_zendoo_proof ins proof vk rng ≡ ok true
  pub sound :
      (ins : CertificateProofUserInputs P.FieldElement) (check_vk compressed_vk : Bool) (rng : ℕ)
      (vk : B.VerifierKey) (proof : B.Proof)
      → B.read_verifier_key vk_path (some check_vk) (some compressed_vk) ≡ ok vk
      → B.verify_zendoo_proof ins proof vk rng ≡ ok true
      → (c : NaiveTresholdSignature P) × IsWitness P max_pks ins c
  pub read_back :
      (proof : B.Proof) (check compressed : Bool) (bytes : List ℕ)
      → B.serialize_proof proof (some compressed) ≡ ok bytes
      → (tag : ℕ) × (rest : List ℕ) × (bytes ≡ tag ∷ rest)
        × (B.deserialize_proving_system (tag ∷ []) ≡ ok coboundary_marlin)
        × (B.deserialize_proof bytes (some check) (some compressed) ≡ ok proof)
