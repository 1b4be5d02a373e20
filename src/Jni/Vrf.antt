-- ===== src/Jni/Vrf.antt =====
-- The exported functions of com.horizen.vrfnative, in api/src/lib.rs.
pub mod Hashed
use zendoo_sc_cryptolib.Prelude.{ℕ, none, some, ◌==◌}
use zendoo_sc_cryptolib.Prelude.Words.{ℤ, pos, as_i32}
use zendoo_sc_cryptolib.Primitives.{Primitives}
use zendoo_sc_cryptolib.Calls
use zendoo_sc_cryptolib.Primitives.Sizes.{ByteSizes, vrf_pk_size, vrf_sk_size, vrf_proof_size}
use zendoo_sc_cryptolib.Jni.{
  Handled, Boxed, Exported, Jvm, ◌>>=◌, pure, expect, on_call, ffi_export,
}
use zendoo_sc_cryptolib.Jni.Pointer.{
  as_field_element, as_g2, as_scalar, as_vrf_proof, free_box, pointer_in, read_field,
  return_jobject, return_field_element, deserialize_to_jobject, serialize_from_jobject,
}
use zendoo_sc_cryptolib.Jni.FieldElement.{jboolean}

module _ (P : Primitives) (H : Handled P) (J : Jvm) where
  open J use {JObject, null}

  unfoldable pub native_get_public_key_size : ByteSizes → Exported P H ℤ
  native_get_public_key_size S = ffi_export P H J (pos 0) (pure (as_i32 (vrf_pk_size S)))

  unfoldable pub native_get_secret_key_size : ByteSizes → Exported P H ℤ
  native_get_secret_key_size S = ffi_export P H J (pos 0) (pure (as_i32 (vrf_sk_size S)))

  unfoldable pub native_get_proof_size : ByteSizes → Exported P H ℤ
  native_get_proof_size S = ffi_export P H J (pos 0) (pure (as_i32 (vrf_proof_size S)))

  unfoldable pub native_serialize_public_key : JObject → (compressed : ℕ) → Exported P H JObject
  native_serialize_public_key obj compressed = ffi_export P H J null (
      serialize_from_jobject P H J H.g2_codec (as_g2 P H) obj "publicKeyPointer"
        (some (compressed == 1)))

  unfoldable pub native_deserialize_public_key :
      (bytes : JObject) → (check : ℕ) → (compressed : ℕ) → Exported P H JObject
  native_deserialize_public_key bytes check compressed = ffi_export P H J null (
      deserialize_to_jobject P H J H.g2_codec Boxed.g2 bytes (some (check == 1))
        (some (compressed == 1)) "com/horizen/vrfnative/VRFPublicKey")

  unfoldable pub native_free_public_key : JObject → Exported P H (Unit {0})
  native_free_public_key obj =
      ffi_export P H J tt do p ← pointer_in P H J obj "publicKeyPointer"; free_box P H (as_g2 P H) p

  unfoldable pub native_serialize_secret_key : JObject → Exported P H JObject
  native_serialize_secret_key obj =
      ffi_export P H J null
        (serialize_from_jobject P H J H.scalar_codec (as_scalar P H) obj "secretKeyPointer" none)

  unfoldable pub native_deserialize_secret_key : (bytes : JObject) → Exported P H JObject
  native_deserialize_secret_key bytes = ffi_export P H J null (
      deserialize_to_jobject P H J H.scalar_codec Boxed.scalar bytes none none
        "com/horizen/vrfnative/VRFSecretKey")

  unfoldable pub native_free_secret_key : JObject → Exported P H (Unit {0})
  native_free_secret_key obj =
      ffi_export P H J tt
        do p ← pointer_in P H J obj "secretKeyPointer"; free_box P H (as_scalar P H) p

  unfoldable pub native_generate : (rng : ℕ) → Exported P H JObject
  native_generate rng = ffi_export P H J null do
    let (pk, sk) = Calls.vrf_generate_key P rng
    secret_key_object ← return_jobject P H J (Boxed.scalar sk) "com/horizen/vrfnative/VRFSecretKey"
    public_key_object ← return_jobject P H J (Boxed.g2 pk) "com/horizen/vrfnative/VRFPublicKey"
    class ←
        expect (J.find_class "com/horizen/vrfnative/VRFKeyPair")
          "Should be able to find KeyPair class"
    expect (J.new_pair class secret_key_object public_key_object)
        "Should be able to create new (SecretKey, PublicKey) object"

  unfoldable pub native_verify_key : JObject → Exported P H ℕ
  native_verify_key public_key = ffi_export P H J 0 do
    pk ← read_field P H J (as_g2 P H) public_key "publicKeyPointer"
    pure (jboolean (Calls.vrf_verify_public_key P pk))

  unfoldable pub native_get_public_key : JObject → Exported P H JObject
  native_get_public_key secret_key = ffi_export P H J null do
    sk ← read_field P H J (as_scalar P H) secret_key "secretKeyPointer"
    return_jobject P H J (Boxed.g2 (Calls.vrf_get_public_key P sk))
        "com/horizen/vrfnative/VRFPublicKey"

  unfoldable pub native_serialize_proof : JObject → (compressed : ℕ) → Exported P H JObject
  native_serialize_proof obj compressed = ffi_export P H J null (
      serialize_from_jobject P H J H.vrf_proof_codec (as_vrf_proof P H) obj "proofPointer"
        (some (compressed == 1)))

  unfoldable pub native_deserialize_proof :
      (bytes : JObject) → (check : ℕ) → (compressed : ℕ) → Exported P H JObject
  native_deserialize_proof bytes check compressed = ffi_export P H J null (
      deserialize_to_jobject P H J H.vrf_proof_codec Boxed.vrf_proof bytes (some (check == 1))
        (some (compressed == 1)) "com/horizen/vrfnative/VRFProof")

  unfoldable pub native_is_valid_vrf_proof : JObject → Exported P H ℕ
  native_is_valid_vrf_proof proof_object = ffi_export P H J 0 do
    proof ← read_field P H J (as_vrf_proof P H) proof_object "proofPointer"
    pure (jboolean (H.is_valid_vrf_proof proof))

  unfoldable pub native_free_proof : (ptr : ℕ) → Exported P H (Unit {0})
  native_free_proof ptr = ffi_export P H J tt (free_box P H (as_vrf_proof P H) ptr)

  unfoldable pub native_prove : (rng : ℕ) (key_pair message_object : JObject) → Exported P H JObject
  native_prove rng key_pair message_object = ffi_export P H J null do
    sk_object ← expect (J.get_object key_pair "secretKey") "Should be able to get field secretKey"
    secret_key ← read_field P H J (as_scalar P H) sk_object "secretKeyPointer"
    pk_object ← expect (J.get_object key_pair "publicKey") "Should be able to get field publicKey"
    public_key ← read_field P H J (as_g2 P H) pk_object "publicKeyPointer"
    message ← read_field P H J (as_field_element P H) message_object "fieldElementPointer"
    on_call (Calls.vrf_prove P rng message secret_key public_key)
        (λ (proof, vrf_out). do
          proof ← return_jobject P H J (Boxed.vrf_proof proof) "com/horizen/vrfnative/VRFProof"
          vrf_out ← return_field_element P H J vrf_out
          class ←
              expect (J.find_class "com/horizen/vrfnative/VRFProveResult")
                "Should be able to find VRFProveResult class"
          expect (J.new_pair class proof vrf_out)
              "Should be able to create new VRFProveResult:(VRFProof, FieldElement) object")
        (pure null)

  unfoldable pub native_proof_to_hash :
      (public_key_object proof_object message_object : JObject) → Exported P H JObject
  native_proof_to_hash public_key_object proof_object message_object = ffi_export P H J null do
    public_key ← read_field P H J (as_g2 P H) public_key_object "publicKeyPointer"
    message ← read_field P H J (as_field_element P H) message_object "fieldElementPointer"
    proof ← read_field P H J (as_vrf_proof P H) proof_object "proofPointer"
    on_call (Calls.vrf_proof_to_hash P message public_key proof) (return_field_element P H J)
        (pure null)
