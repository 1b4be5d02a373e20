-- ===== src/Jni/Methods/SigProof.antt =====
-- The exported functions of com.horizen.sigproofnative in api/src/lib.rs, as the calls that Java
-- makes: what each leaves of the boxes.
use zendoo_sc_cryptolib.Prelude.{ℕ, Bool}
use zendoo_sc_cryptolib.Prelude.Words.{ℤ}
use zendoo_sc_cryptolib.Primitives.{Primitives}
use zendoo_sc_cryptolib.Calls.Backend.{Backend}
use zendoo_sc_cryptolib.Jni.{Handled, World, Jvm}
use zendoo_sc_cryptolib.Jni.SigProof
use zendoo_sc_cryptolib.Jni.Invariant.{Outcome, made, CallKeeps}
use zendoo_sc_cryptolib.Jni.Invariant.Export.{exported, made-CallKeeps}
use zendoo_sc_cryptolib.Jni.Invariant.Parts.{parts}
use zendoo_sc_cryptolib.Jni.Defined.{CallSafe}
use zendoo_sc_cryptolib.Jni.Defined.Packages.{packages}
use zendoo_sc_cryptolib.Jni.Defined.Calls.{made-CallSafe}

-- A call, with its arguments. `O` is the type of Java's objects.
pub data SigProofCall (O : Type 0) : Type 0 where
  get_mc_pk_hash_size : SigProofCall O
  get_constant : (schnorr_pks_list : O) (threshold : ℤ) → SigProofCall O
  create_msg_to_sign :
      (bt_list sc_id : O) (epoch_number : ℤ) (end_cumulative_sc_tx_comm_tree_root : O)
      (btr_fee ft_min_amount : ℤ)
      → SigProofCall O
  create_proof :
      (bt_list sc_id : O) (epoch_number : ℤ) (end_cumulative_sc_tx_comm_tree_root : O)
      (btr_fee ft_min_amount : ℤ) (schnorr_sigs_list schnorr_pks_list : O) (threshold : ℤ)
      (proving_key_path : O) (check_proving_key zk compressed_pk compress_proof rng : ℕ)
      → SigProofCall O
  verify_proof :
      (bt_list sc_id : O) (epoch_number : ℤ) (end_cumulative_sc_tx_comm_tree_root : O)
      (btr_fee ft_min_amount : ℤ) (constant : O) (quality : ℤ) (sc_proof_bytes : O)
      (check_proof compressed_proof : ℕ) (verification_key_path : O)
      (check_vk compressed_vk rng : ℕ)
      → SigProofCall O

module _ (P : Primitives) (H : Handled P) (J : Jvm) (B : Backend P) (overflow_checks : Bool) where
  -- What a call does.
  unfoldable pub run : SigProofCall J.JObject → World P H → Outcome × World P H
  run get_mc_pk_hash_size = made (SigProof.native_get_mc_pk_hash_size P H J)
  run (get_constant schnorr_pks_list threshold) =
      made (SigProof.native_get_constant P H J schnorr_pks_list threshold)
  run
        (create_msg_to_sign bt_list sc_id epoch_number end_cumulative_sc_tx_comm_tree_root btr_fee
          ft_min_amount) =
      made (
        SigProof.native_create_msg_to_sign P H J bt_list sc_id epoch_number
          end_cumulative_sc_tx_comm_tree_root btr_fee ft_min_amount)
  run
        (create_proof bt_list sc_id epoch_number end_cumulative_sc_tx_comm_tree_root btr_fee
          ft_min_amount schnorr_sigs_list schnorr_pks_list threshold proving_key_path
          check_proving_key zk compressed_pk compress_proof rng) =
      made (
        SigProof.native_create_proof P H J B overflow_checks bt_list sc_id epoch_number
          end_cumulative_sc_tx_comm_tree_root btr_fee ft_min_amount schnorr_sigs_list
          schnorr_pks_list threshold proving_key_path check_proving_key zk compressed_pk
          compress_proof rng)
  run
        (verify_proof bt_list sc_id epoch_number end_cumulative_sc_tx_comm_tree_root btr_fee
          ft_min_amount constant quality sc_proof_bytes check_proof compressed_proof
          verification_key_path check_vk compressed_vk rng) =
      made (
        SigProof.native_verify_proof P H J B bt_list sc_id epoch_number
          end_cumulative_sc_tx_comm_tree_root btr_fee ft_min_amount constant quality sc_proof_bytes
          check_proof compressed_proof verification_key_path check_vk compressed_vk rng)

  -- Each of the calls leads from a well-formed state to a next one.
  pub run-CallKeeps : {owned : ℕ} (c : SigProofCall J.JObject) → CallKeeps owned (run c)
  unfolding run SigProof.native_get_mc_pk_hash_size SigProof.native_get_constant
      SigProof.native_create_msg_to_sign SigProof.native_create_proof SigProof.native_verify_proof
  run-CallKeeps get_mc_pk_hash_size = made-CallKeeps (search (exported, parts) depth 40 fits 4000)
  run-CallKeeps _ = made-CallKeeps (search (exported, parts) depth 40 fits 4000)

  -- A call is defined if the handles are live.
  pub run-CallSafe : (c : SigProofCall J.JObject) → CallSafe J (λ w. Unit {0}) (run c)
  unfolding run SigProof.native_get_mc_pk_hash_size SigProof.native_get_constant
      SigProof.native_create_msg_to_sign SigProof.native_create_proof SigProof.native_verify_proof
  run-CallSafe get_mc_pk_hash_size = made-CallSafe P H J _ _ (search packages depth 40 fits 4000)
  run-CallSafe _ = made-CallSafe P H J _ _ (search packages depth 40 fits 4000)
