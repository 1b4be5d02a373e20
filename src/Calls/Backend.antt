-- ===== src/Calls/Backend.antt =====
-- The proving system of cctp_primitives, files included, as a parameter.
use zendoo_sc_cryptolib.Prelude.{ℕ, Bool, Option, List, String}
use zendoo_sc_cryptolib.Prelude.Call.{Call}
use zendoo_sc_cryptolib.Primitives.{Primitives, BackwardTransfer}
use zendoo_sc_cryptolib.Threshold.{NaiveTresholdSignature}

pub data ProvingSystem : Type 0 where
  undefined darlin coboundary_marlin : ProvingSystem

-- `ZendooProverKey` and `ZendooVerifierKey`: a key of one of the two systems.
pub data ZendooKey (K : Type 0) : Type 0 where
  darlin_key : ZendooKey K
  coboundary_marlin_key : K → ZendooKey K

-- `CertificateProofUserInputs`
pub record CertificateProofUserInputs (F : Type 0) : Type 0 where
  pub constant : Option F
  pub sc_id : F
  pub epoch_number : ℕ
  pub quality : ℕ
  pub bt_list : Option (List BackwardTransfer)
  pub custom_fields : Option (List F)
  pub end_cumulative_sc_tx_commitment_tree_root : F
  pub btr_fee : ℕ
  pub ft_min_amount : ℕ

pub record Backend (P : Primitives) : Type 1 where
  pub CommitterKey : Type 0
  pub ProverKey : Type 0
  pub VerifierKey : Type 0
  pub Proof : Type 0
  pub IndexInfo : Type 0
  pub get_g1_committer_key : Call (Option CommitterKey)
  pub key_length : CommitterKey → ℕ
  -- the files, by their path
  pub read_prover_key : String → Option Bool → Option Bool → Call (ZendooKey ProverKey)
  pub read_verifier_key : String → Option Bool → Option Bool → Call VerifierKey
  pub read_proving_system : String → Call ProvingSystem
  -- the buffers
  pub deserialize_proving_system : List ℕ → Call ProvingSystem
  pub deserialize_proof : List ℕ → Option Bool → Option Bool → Call Proof
  pub serialize_proof : Proof → Option Bool → Call (List ℕ)
  -- the prover and the verifier
  pub prove : ProverKey → CommitterKey → NaiveTresholdSignature P → Bool → Option ℕ → Call Proof
  pub verify_zendoo_proof :
      CertificateProofUserInputs P.FieldElement → Proof → VerifierKey → (rng : ℕ) → Call Bool
  -- the setup
  pub get_index_info : NaiveTresholdSignature P → Call IndexInfo
  pub compute_proof_vk_size : ℕ → IndexInfo → (zk : Bool) → ProvingSystem → ℕ × ℕ
  pub circuit_specific_setup : CommitterKey → IndexInfo → Call (ProverKey × VerifierKey)
  -- the file system, and `write_to_file`
  pub Files : Type 0
  pub write_prover_key : ProverKey → (path : String) → Option Bool → Files → Call (Unit {0}) × Files
  pub write_verifier_key :
      VerifierKey → (path : String) → Option Bool → Files → Call (Unit {0}) × Files
  -- `init_dlog_keys`, and what a verifier key tells of itself
  pub init_dlog_keys :
      ProvingSystem → (max_segment_size supported_segment_size : ℕ) → Call (Unit {0})
  pub get_proving_system_type : VerifierKey → ProvingSystem
  pub index_info : VerifierKey → IndexInfo
  pub check_proof_vk_size :
      ℕ → IndexInfo → (zk : Bool) → ProvingSystem → (max_proof_size max_vk_size : ℕ) → Bool
