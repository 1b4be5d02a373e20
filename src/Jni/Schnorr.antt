-- ===== src/Jni/Schnorr.antt =====
-- The exported functions of com.horizen.schnorrnative, in api/src/lib.rs.
pub mod Signed
use zendoo_sc_cryptolib.Prelude.{ℕ, none, some, ◌==◌}
use zendoo_sc_cryptolib.Prelude.Words.{ℤ, pos, as_i32}
use zendoo_sc_cryptolib.Primitives.{Primitives}
use zendoo_sc_cryptolib.Calls
use zendoo_sc_cryptolib.Primitives.Sizes.{
  ByteSizes, schnorr_pk_size, schnorr_sk_size, schnorr_sig_size,
}
use zendoo_sc_cryptolib.Jni.{
  Handled, Boxed, Exported, Jvm, ◌>>=◌, pure, expect, on_call, ffi_export,
}
use zendoo_sc_cryptolib.Jni.Pointer.{
  as_field_element, as_g2, as_scalar, as_schnorr_sig, free_box, pointer_in, read_field,
  return_jobject, deserialize_to_jobject, serialize_from_jobject,
}
use zendoo_sc_cryptolib.Jni.FieldElement.{jboolean}

module _ (P : Primitives) (H : Handled P) (J : Jvm) where
  open J use {JObject, null}

  unfoldable pub native_get_public_key_size : ByteSizes → Exported P H ℤ
  native_get_public_key_size S = ffi_export P H J (pos 0) (pure (as_i32 (schnorr_pk_size S)))

  unfoldable pub native_get_secret_key_size : ByteSizes → Exported P H ℤ
  native_get_secret_key_size S = ffi_export P H J (pos 0) (pure (as_i32 (schnorr_sk_size S)))

  unfoldable pub native_get_signature_size : ByteSizes → Exported P H ℤ
  native_get_signature_size S = ffi_export P H J (pos 0) (pure (as_i32 (schnorr_sig_size S)))

  unfoldable pub native_serialize_public_key : JObject → (compressed : ℕ) → Exported P H JObject
  native_serialize_public_key obj compressed = ffi_export P H J null (
      serialize_from_jobject P H J H.g2_codec (as_g2 P H) obj "publicKeyPointer"
        (some (compressed == 1)))

  unfoldable pub native_deserialize_public_key :
      (bytes : JObject) → (check : ℕ) → (compressed : ℕ) → Exported P H JObject
  native_deserialize_public_key bytes check compressed = ffi_export P H J null (
      deserialize_to_jobject P H J H.g2_codec Boxed.g2 bytes (some (check == 1))
        (some (compressed == 1)) "com/horizen/schnorrnative/SchnorrPublicKey")

  unfoldable pub native_free_public_key : JObject → Exported P H (Unit {0})
  native_free_public_key obj =
      ffi_export P H J tt do p ← pointer_in P H J obj "publicKeyPointer"; free_box P H (as_g2 P H) p

  unfoldable pub native_serialize_secret_key : JObject → Exported P H JObject
  native_serialize_secret_key obj =
      ffi_export P H J null
        (serialize_from_jobject P H J H.scalar_codec (as_scalar P H) obj "secretKeyPointer" none)

  unfoldable pub native_deserialize_secret_key : (bytes : JObject) → Exported P H JObject
  native_deserialize_secret_key bytes = ffi_export P H J null (
      deserialize_to_jobject P H J H.scalar_codec Boxed.scalar bytes none none
        "com/horizen/schnorrnative/SchnorrSecretKey")

  unfoldable pub native_free_secret_key : JObject → Exported P H (Unit {0})
  native_free_secret_key obj =
      ffi_export P H J tt
        do p ← pointer_in P H J obj "secretKeyPointer"; free_box P H (as_scalar P H) p

  unfoldable pub native_generate : (rng : ℕ) → Exported P H JObject
  native_generate rng = ffi_export P H J null do
    let (pk, sk) = Calls.schnorr_generate_key P rng
    secret_key_object ←
        return_jobject P H J (Boxed.scalar sk) "com/horizen/schnorrnative/SchnorrSecretKey"
    public_key_object ←
        return_jobject P H J (Boxed.g2 pk) "com/horizen/schnorrnative/SchnorrPublicKey"
    class ←
        expect (J.find_class "com/horizen/schnorrnative/SchnorrKeyPair")
          "Should be able to find KeyPair class"
    expect (J.new_pair class secret_key_object public_key_object)
        "Should be able to create new (SecretKey, PublicKey) object"

  unfoldable pub native_verify_key : JObject → Exported P H ℕ
  native_verify_key public_key = ffi_export P H J 0 do
    pk ← read_field P H J (as_g2 P H) public_key "publicKeyPointer"
    pure (jboolean (Calls.schnorr_verify_public_key P pk))

  unfoldable pub native_get_public_key : JObject → Exported P H JObject
  native_get_public_key secret_key = ffi_export P H J null do
    sk ← read_field P H J (as_scalar P H) secret_key "secretKeyPointer"
    return_jobject P H J (Boxed.g2 (Calls.schnorr_get_public_key P sk))
        "com/horizen/schnorrnative/SchnorrPublicKey"

  unfoldable pub native_serialize_signature : JObject → Exported P H JObject
  native_serialize_signature obj = ffi_export P H J null (
      serialize_from_jobject P H J H.schnorr_sig_codec (as_schnorr_sig P H) obj "signaturePointer"
        none)

  unfoldable pub native_deserialize_signature :
      (bytes : JObject) → (check : ℕ) → Exported P H JObject
  native_deserialize_signature bytes check = ffi_export P H J null (
      deserialize_to_jobject P H J H.schnorr_sig_codec Boxed.schnorr_sig bytes (some (check == 1))
        none "com/horizen/schnorrnative/SchnorrSignature")

  unfoldable pub native_is_valid_signature : JObject → Exported P H ℕ
  native_is_valid_signature sig_object = ffi_export P H J 0 do
    sig ← read_field P H J (as_schnorr_sig P H) sig_object "signaturePointer"
    pure (jboolean (H.is_valid_sig sig))

  unfoldable pub native_free_signature : (ptr : ℕ) → Exported P H (Unit {0})
  native_free_signature ptr = ffi_export P H J tt (free_box P H (as_schnorr_sig P H) ptr)

  unfoldable pub native_sign_message :
      (rng : ℕ) (key_pair message_object : JObject) → Exported P H JObject
  native_sign_message rng key_pair message_object = ffi_export P H J null do
    sk_object ← expect (J.get_object key_pair "secretKey") "Should be able to get field secretKey"
    secret_key ← read_field P H J (as_scalar P H) sk_object "secretKeyPointer"
    pk_object ← expect (J.get_object key_pair "publicKey") "Should be able to get field publicKey"
    public_key ← read_field P H J (as_g2 P H) pk_object "publicKeyPointer"
    message ← read_field P H J (as_field_element P H) message_object "fieldElementPointer"
    on_call (Calls.schnorr_sign P rng message secret_key public_key)
        (λ signature.
          return_jobject P H J (Boxed.schnorr_sig signature)
            "com/horizen/schnorrnative/SchnorrSignature")
        (pure null)

  unfoldable pub native_verify_signature :
      (public_key_object signature_object message_object : JObject) → Exported P H ℕ
  native_verify_signature public_key_object signature_object message_object = ffi_export P H J 0 do
    public_key ← read_field P H J (as_g2 P H) public_key_object "publicKeyPointer"
    message ← read_field P H J (as_field_element P H) message_object "fieldElementPointer"
    signature ← read_field P H J (as_schnorr_sig P H) signature_object "signaturePointer"
    on_call (Calls.schnorr_verify_signature P message public_key signature)
        (λ result. pure (jboolean result)) (pure 0)
