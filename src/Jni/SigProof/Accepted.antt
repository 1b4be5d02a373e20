-- ===== src/Jni/SigProof/Accepted.antt =====
-- What `JNI_TRUE` of NaiveThresholdSigProof.nativeVerifyProof, in api/src/lib.rs, stands for.
use zendoo_sc_cryptolib.Prelude.{ℕ, ◌==◌, ◌≡◌, ap, ◌∙◌, arith, true, List, String}
use zendoo_sc_cryptolib.Prelude.Call.{ok}
use zendoo_sc_cryptolib.Prelude.Words.{ℤ, as_u64, as_u32}
use zendoo_sc_cryptolib.Primitives.{Primitives, BackwardTransfer}
use zendoo_sc_cryptolib.Calls.Backend.{Backend}
use zendoo_sc_cryptolib.Calls.Proofs.{verify_naive_threshold_sig_proof}
use zendoo_sc_cryptolib.Jni.{Handled, World, done, returned, Jvm, value}
use zendoo_sc_cryptolib.Jni.Invert.{invert_step, invert_expect, answer_true, ffi_export-positive}
use zendoo_sc_cryptolib.Jni.Pointer.{as_field_element, read_field, read_bt_list}
use zendoo_sc_cryptolib.Jni.SigProof.{native_verify_proof}

module _ (P : Primitives) (H : Handled P) (J : Jvm) (B : Backend P) where
  -- The arguments were read, one after the other, and the call accepts the proof for them.
  pub data IsAccepted (bt_list sc_id : J.JObject) (epoch_number : ℤ) (root : J.JObject)
      (btr_fee ft_min_amount : ℤ) (constant : J.JObject) (quality : ℤ) (sc_proof_bytes : J.JObject)
      (check_proof compressed_proof : ℕ) (vk_path : J.JObject) (check_vk compressed_vk rng : ℕ)
      (w w' : World P H) : Type 0 where
    accepted :
        (bts : List BackwardTransfer) (id r c : P.FieldElement) (bytes : List ℕ) (path : String)
        (w1 w2 w3 : World P H)
        → read_bt_list P H J bt_list w ≡ (done bts, w1)
        → read_field P H J (as_field_element P H) sc_id "fieldElementPointer" w1 ≡ (done id, w2)
        → read_field P H J (as_field_element P H) root "fieldElementPointer" w2 ≡ (done r, w3)
        → read_field P H J (as_field_element P H) constant "fieldElementPointer" w3 ≡ (done c, w')
        → J.convert_byte_array sc_proof_bytes ≡ value bytes
        → J.get_string vk_path ≡ value path
        → verify_naive_threshold_sig_proof P B c id
            (as_u32 epoch_number)
            r
            (as_u64 btr_fee)
            (as_u64 ft_min_amount)
            bts
            (as_u64 quality)
            bytes
            (check_proof == 1)
            (compressed_proof == 1)
            path
            (check_vk == 1)
            (compressed_vk == 1)
            rng
          ≡ ok true
        → IsAccepted bt_list sc_id epoch_number root btr_fee ft_min_amount constant quality
            sc_proof_bytes check_proof compressed_proof vk_path check_vk compressed_vk rng w w'

  -- `nativeVerifyProof` returns `JNI_TRUE` only if every argument could be read, and the verification
  -- of cctp_calls.rs accepts the proof for the values read: an error, a panic and a null handle never
  -- look like an accepted proof.
  pub native_verify_proof-IsAccepted :
      (bt_list sc_id : J.JObject) (epoch_number : ℤ) (root : J.JObject) (btr_fee ft_min_amount : ℤ)
      (constant : J.JObject) (quality : ℤ) (sc_proof_bytes : J.JObject)
      (check_proof compressed_proof : ℕ) (vk_path : J.JObject) (check_vk compressed_vk rng : ℕ)
      (w w' : World P H)
      → native_verify_proof P H J B bt_list sc_id epoch_number root btr_fee ft_min_amount constant
          quality sc_proof_bytes check_proof compressed_proof vk_path check_vk compressed_vk rng w
        ≡ (returned 1, w')
      → IsAccepted bt_list sc_id epoch_number root btr_fee ft_min_amount constant quality
          sc_proof_bytes check_proof compressed_proof vk_path check_vk compressed_vk rng w w'
  unfolding native_verify_proof
  native_verify_proof-IsAccepted bt_list sc_id epoch root btr ft constant quality proof_bytes chk
        cmp vk_path chk_vk cmp_vk rng w w' h =
      invert_step (read_bt_list P H J bt_list w) _
        (ffi_export-positive P H J _ w w' 1 (omega arith) h)
        λ bts w1 h1 k1.
          invert_step (read_field P H J (as_field_element P H) sc_id "fieldElementPointer" w1) _ k1
            λ id w2 h2 k2.
              invert_step (read_field P H J (as_field_element P H) root "fieldElementPointer" w2) _
                k2
                λ r w3 h3 k3.
                  invert_step
                    (read_field P H J (as_field_element P H) constant "fieldElementPointer" w3) _ k3
                    λ c w4 h4 k4.
                      invert_expect (J.convert_byte_array proof_bytes)
                        "Should be able to convert to Rust byte array" w4 _ k4
                        λ bytes h5 k5.
                          invert_expect (J.get_string vk_path)
                            "Should be able to read jstring as Rust String" w4 _ k5
                            λ path h6 k6. answer_true _ w4 w' k6 λ yes same.
                              accepted bts id r c bytes path w1 w2 w3 h1 h2 h3
                                (h4 ∙ ap (λ (v : World P H). (done c, v)) same) h5 h6 yes
