-- ===== src/Jni/SigProof.antt =====
-- The exported functions of com.horizen.sigproofnative, in api/src/lib.rs, but for the setup.
pub mod Accepted
pub mod Honest
pub mod Short
use zendoo_sc_cryptolib.Prelude.{
  ℕ, zero, suc, ◌+◌, Bool, Option, List, [], ◌∷◌, ◌==◌, if◌then◌else◌,
}
use zendoo_sc_cryptolib.Prelude.Call.{string}
use zendoo_sc_cryptolib.Prelude.Words.{ℤ, pos, as_u64, as_u32, as_i32, as_i64}
use zendoo_sc_cryptolib.Primitives.{Primitives}
use zendoo_sc_cryptolib.Calls
use zendoo_sc_cryptolib.Calls.Backend.{Backend}
use zendoo_sc_cryptolib.Calls.Proofs.{
  create_naive_threshold_sig_proof, verify_naive_threshold_sig_proof,
}
use zendoo_sc_cryptolib.Jni.{
  Handled, Native, Exported, Jvm, ◌>>=◌, pure, unwind, expect, on_call, ffi_export,
}
use zendoo_sc_cryptolib.Jni.FieldElement.{jboolean}
use zendoo_sc_cryptolib.Jni.Pointer.{
  as_field_element, as_g2, as_schnorr_sig, pointer_in, read_nullable_raw_pointer, read_field,
  return_field_element, read_array, read_bt_list,
}

module _ (P : Primitives) (H : Handled P) (J : Jvm) where
  open J use {JObject, null}

  unfoldable pub native_get_mc_pk_hash_size : Exported P H ℤ
  native_get_mc_pk_hash_size = ffi_export P H J (pos 0) (pure (as_i32 20))

  unfoldable pub native_get_constant :
      (schnorr_pks_list : JObject) (threshold : ℤ) → Exported P H JObject
  native_get_constant schnorr_pks_list threshold = ffi_export P H J null do
    pks ←
        read_array P H J schnorr_pks_list
          (λ (o : JObject). read_field P H J (as_g2 P H) o "publicKeyPointer")
    on_call (Calls.compute_pks_threshold_hash P pks (as_u64 threshold)) (return_field_element P H J)
        (pure null)

  unfoldable pub native_create_msg_to_sign :
      (bt_list sc_id : JObject) (epoch_number : ℤ) (end_cumulative_sc_tx_comm_tree_root : JObject)
      (btr_fee ft_min_amount : ℤ)
      → Exported P H JObject
  native_create_msg_to_sign bt_list sc_id epoch_number root btr_fee ft_min_amount =
      ffi_export P H J null do
        bt_list ← read_bt_list P H J bt_list
        sc_id ← read_field P H J (as_field_element P H) sc_id "fieldElementPointer"
        root ← read_field P H J (as_field_element P H) root "fieldElementPointer"
        on_call
            (Calls.compute_msg_to_sign P sc_id (as_u32 epoch_number) root (as_u64 btr_fee)
              (as_u64 ft_min_amount) bt_list)
            (λ (mr_bt, msg). return_field_element P H J msg) (pure null)

  -- One turn of the loop over the two arrays: a null signature is `None`, and a key must not be null.
  unfoldable pub read_signer :
      (sigs_list pks_list : JObject) (i : ℕ) → Native P H (Option P.SchnorrSig × P.G2)
  read_signer sigs_list pks_list i = do
    sig_object ←
        expect (J.get_object_array_element sigs_list i)
          "Should be able to get elem of schnorr_sigs_list"
    pk_object ←
        expect (J.get_object_array_element pks_list i)
          "Should be able to get elem of schnorr_pks_list"
    sig ← pointer_in P H J sig_object "signaturePointer"
    signature ← read_nullable_raw_pointer P H J (as_schnorr_sig P H) sig
    public_key ← read_field P H J (as_g2 P H) pk_object "publicKeyPointer"
    pure (signature, public_key)

  unfoldable pub read_signers :
      (sigs_list pks_list : JObject) (i left : ℕ)
      → Native P H (List (Option P.SchnorrSig) × List P.G2)
  unfolding read_signer
  read_signers sigs_list pks_list i zero = pure ([], [])
  read_signers sigs_list pks_list i (suc left) = do
    (signature, public_key) ← read_signer sigs_list pks_list i
    (sigs, pks) ← read_signers sigs_list pks_list (i + 1) left
    pure (signature ∷ sigs, public_key ∷ pks)

  -- `assert_eq!` of the two lengths, before the loop.
  unfoldable pub read_lists :
      (sigs_list pks_list : JObject) → Native P H (List (Option P.SchnorrSig) × List P.G2)
  unfolding read_signers
  read_lists sigs_list pks_list = do
    sigs_list_size ←
        expect (J.get_array_length sigs_list) "Should be able to get schnorr_sigs_list size"
    pks_list_size ←
        expect (J.get_array_length pks_list) "Should be able to get schnorr_pks_list size"
    if sigs_list_size == pks_list_size
        then read_signers sigs_list pks_list 0 sigs_list_size
        else unwind (string "assertion failed")

  unfoldable pub native_create_proof :
      Backend P
      → (overflow_checks : Bool) (bt_list sc_id : JObject) (epoch_number : ℤ)
        (end_cumulative_sc_tx_comm_tree_root : JObject) (btr_fee ft_min_amount : ℤ)
        (schnorr_sigs_list schnorr_pks_list : JObject) (threshold : ℤ) (proving_key_path : JObject)
        (check_proving_key zk compressed_pk compress_proof rng : ℕ)
      → Exported P H JObject
  unfolding read_lists
  native_create_proof B overflow_checks bt_list sc_id epoch_number root btr_fee ft_min_amount
        sigs_list pks_list threshold proving_key_path check_proving_key zk compressed_pk
        compress_proof rng =
      ffi_export P H J null do
        bt_list ← read_bt_list P H J bt_list
        (sigs, pks) ← read_lists sigs_list pks_list
        sc_id ← read_field P H J (as_field_element P H) sc_id "fieldElementPointer"
        root ← read_field P H J (as_field_element P H) root "fieldElementPointer"
        path ←
            expect (J.get_string proving_key_path) "Should be able to read jstring as Rust String"
        on_call
            (create_naive_threshold_sig_proof P B overflow_checks pks sigs sc_id
              (as_u32 epoch_number) root (as_u64 btr_fee) (as_u64 ft_min_amount) bt_list
              (as_u64 threshold) path (check_proving_key == 1) (zk == 1) (compressed_pk == 1)
              (compress_proof == 1) rng)
            (λ (proof, quality). do
              proof_serialized ←
                  expect (J.byte_array_from_slice proof)
                    "Should be able to convert Rust slice into jbytearray"
              class ←
                  expect (J.find_class "com/horizen/sigproofnative/CreateProofResult")
                    "Should be able to find CreateProofResult class"
              expect (J.new_result class proof_serialized (as_i64 quality))
                  "Should be able to create new CreateProofResult:(byte[], long) object")
            (pure null)

  unfoldable pub native_verify_proof :
      Backend P
      → (bt_list sc_id : JObject) (epoch_number : ℤ) (end_cumulative_sc_tx_comm_tree_root : JObject)
        (btr_fee ft_min_amount : ℤ) (constant : JObject) (quality : ℤ) (sc_proof_bytes : JObject)
        (check_proof compressed_proof : ℕ) (verification_key_path : JObject)
        (check_vk compressed_vk rng : ℕ)
      → Exported P H ℕ
  native_verify_proof B bt_list sc_id epoch_number root btr_fee ft_min_amount constant quality
        sc_proof_bytes check_proof compressed_proof verification_key_path check_vk compressed_vk
        rng =
      ffi_export P H J 0 do
        bt_list ← read_bt_list P H J bt_list
        sc_id ← read_field P H J (as_field_element P H) sc_id "fieldElementPointer"
        root ← read_field P H J (as_field_element P H) root "fieldElementPointer"
        constant ← read_field P H J (as_field_element P H) constant "fieldElementPointer"
        proof_bytes ←
            expect (J.convert_byte_array sc_proof_bytes)
              "Should be able to convert to Rust byte array"
        vk_path ←
            expect (J.get_string verification_key_path)
              "Should be able to read jstring as Rust String"
        on_call
            (verify_naive_threshold_sig_proof P B constant sc_id (as_u32 epoch_number) root
              (as_u64 btr_fee) (as_u64 ft_min_amount) bt_list (as_u64 quality) proof_bytes
              (check_proof == 1) (compressed_proof == 1) vk_path (check_vk == 1)
              (compressed_vk == 1) rng)
            (λ (result : Bool). pure (jboolean result)) (pure 0)
