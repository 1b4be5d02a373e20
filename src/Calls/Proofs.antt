-- ===== src/Calls/Proofs.antt =====
-- `create_naive_threshold_sig_proof` and `verify_naive_threshold_sig_proof` of
-- api/src/cctp_calls.rs: the proving system around the circuit.
pub mod Returned
use zendoo_sc_cryptolib.Prelude.{
  ◌≡◌, ap, ℕ, Bool, true, false, Option, none, some, List, [], ◌∷◌, String, if◌then◌else◌,
}
use zendoo_sc_cryptolib.Prelude.Call.{
  Call, ok, err, panic, str, ok-injective, ◌>>=◌, proving_system_mismatch,
}
use zendoo_sc_cryptolib.Primitives.{Primitives, BackwardTransfer}
use zendoo_sc_cryptolib.Threshold.{NaiveTresholdSignature}
use zendoo_sc_cryptolib.Calls.{create_circuit, bt_list_opt}
use zendoo_sc_cryptolib.Calls.Backend.{
  ProvingSystem, undefined, darlin, coboundary_marlin, ZendooKey, darlin_key, coboundary_marlin_key,
  Backend, CertificateProofUserInputs,
}

-- `option.unwrap()`
unfoldable pub unwrap {ℓ} : {A : Type ℓ} → Option A → Call A
unwrap none = panic (str "called `Option::unwrap()` on a `None` value")
unwrap (some a) = ok a

pub unwrap-ok {ℓ} : {A : Type ℓ} (o : Option A) (a : A) → unwrap o ≡ ok a → o ≡ some a
unfolding unwrap
unwrap-ok none a h = cc
unwrap-ok (some x) a h = ap some (ok-injective h)

-- `==` on proving systems
abbrev pub same_system : ProvingSystem → ProvingSystem → Bool
same_system undefined undefined = true
same_system darlin darlin = true
same_system coboundary_marlin coboundary_marlin = true
same_system _ _ = false

-- `&proof[..1]`, a panic on an empty buffer.
unfoldable pub first_byte : List ℕ → Call (List ℕ)
first_byte [] = panic (str "range end index 1 out of range for slice of length 0")
first_byte (b ∷ bs) = ok (b ∷ [])

module _ (P : Primitives) (B : Backend P) where
  open P use {FieldElement, G2, SchnorrSig}
  open B use {
    ProverKey, CommitterKey, get_g1_committer_key, read_prover_key, read_verifier_key,
    read_proving_system, deserialize_proving_system, deserialize_proof, serialize_proof, prove,
    verify_zendoo_proof,
  }

  -- `match pk { .. }`: a Darlin key is not implemented.
  unfoldable pub prove_with :
      ZendooKey ProverKey
      → Option CommitterKey
      → NaiveTresholdSignature P
      → (zk compress : Bool) → (rng : ℕ) → Call (List ℕ)
  prove_with darlin_key g1_ck c zk compress rng = panic (str "not implemented")
  prove_with (coboundary_marlin_key pk) g1_ck c zk compress rng = do
    ck ← unwrap g1_ck
    proof ← prove pk ck c zk (if zk then some rng else none)
    serialize_proof proof (some compress)

  unfoldable pub create_naive_threshold_sig_proof :
      (overflow_checks : Bool) (pks : List G2) (sigs : List (Option SchnorrSig))
      (sc_id : FieldElement) (epoch_number : ℕ) (end_cumulative_sc_tx_comm_tree_root : FieldElement)
      (btr_fee ft_min_amount : ℕ) (bt_list : List BackwardTransfer) (threshold : ℕ)
      (proving_key_path : String) (enforce_membership zk compressed_pk compress_proof : Bool)
      (rng : ℕ)
      → Call (List ℕ × ℕ)
  unfolding prove_with
  create_naive_threshold_sig_proof overflow_checks pks sigs sc_id epoch_number root btr_fee
        ft_min_amount bt_list threshold path enforce_membership zk compressed_pk compress_proof
        rng =
      do
        (c, valid_signatures) ←
            create_circuit P overflow_checks pks sigs sc_id epoch_number root btr_fee ft_min_amount
              bt_list threshold
        pk ← read_prover_key path (some enforce_membership) (some compressed_pk)
        g1_ck ← get_g1_committer_key
        proof ← prove_with pk g1_ck c zk compress_proof rng
        ok (proof, valid_signatures)

  unfoldable pub verify_naive_threshold_sig_proof :
      (constant sc_id : FieldElement) (epoch_number : ℕ)
      (end_cumulative_sc_tx_commitment_tree_root : FieldElement) (btr_fee ft_min_amount : ℕ)
      (bt_list : List BackwardTransfer) (valid_sigs : ℕ) (proof : List ℕ)
      (check_proof compressed_proof : Bool) (vk_path : String) (check_vk compressed_vk : Bool)
      (rng : ℕ)
      → Call Bool
  verify_naive_threshold_sig_proof constant sc_id epoch_number root btr_fee ft_min_amount bt_list
        valid_sigs proof check_proof compressed_proof vk_path check_vk compressed_vk rng =
      do
        let ins : CertificateProofUserInputs FieldElement = record {
          constant = some constant;
          sc_id = sc_id;
          epoch_number = epoch_number;
          quality = valid_sigs;
          bt_list = bt_list_opt P bt_list;
          custom_fields = none;
          end_cumulative_sc_tx_commitment_tree_root = root;
          btr_fee = btr_fee;
          ft_min_amount = ft_min_amount;
        }
        vk_ps_type ← read_proving_system vk_path
        tag ← first_byte proof
        proof_ps_type ← deserialize_proving_system tag
        if same_system vk_ps_type proof_ps_type
            then (do
              vk ← read_verifier_key vk_path (some check_vk) (some compressed_vk)
              proof ← deserialize_proof proof (some check_proof) (some compressed_proof)
              verify_zendoo_proof ins proof vk rng)
            else err proving_system_mismatch
