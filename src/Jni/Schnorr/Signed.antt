-- ===== src/Jni/Schnorr/Signed.antt =====
-- Signing a message from Java and verifying the signature: com.horizen.schnorrnative in
-- api/src/lib.rs.
use zendoo_sc_cryptolib.Prelude.{ℕ, ◌≡◌, refl, true}
use zendoo_sc_cryptolib.Prelude.Call.{ok}
use zendoo_sc_cryptolib.Primitives.{Primitives}
use zendoo_sc_cryptolib.Calls.{schnorr_sign, schnorr_verify_signature}
use zendoo_sc_cryptolib.Jni.{Handled, Boxed, World, Jvm, returned, ffi_export}
use zendoo_sc_cryptolib.Jni.Handle.{boxed}
use zendoo_sc_cryptolib.Jni.Pointer.{as_field_element, as_g2, as_scalar, as_schnorr_sig}
use zendoo_sc_cryptolib.Jni.Points.{Points, after, read_field-Points}
use zendoo_sc_cryptolib.Jni.Points.Fresh.{
  Makes, PairAt, HasRoom, Points-boxed, return_jobject-Makes, Points-Makes,
}
use zendoo_sc_cryptolib.Jni.Schnorr.{native_sign_message, native_verify_signature}

-- What the scheme promises for the keys of one pair: what is signed is verified.
pub record SignatureLaws (P : Primitives) (sk : P.ScalarFieldElement) (pk : P.G2) : Type 0 where
  pub schnorr_verify-sign :
      (rng : ℕ) (message : P.FieldElement) (signature : P.SchnorrSig)
      → P.schnorr_sign rng (P.into_projective pk) sk message ≡ ok signature
      → P.schnorr_verify (P.into_projective pk) message signature ≡ ok true

module _ (P : Primitives) (H : Handled P) (J : Jvm) where
  module _ (w : World P H) (key_pair public_object message_object signature_object : J.JObject)
      (sk : P.ScalarFieldElement) (pk : P.G2) (message : P.FieldElement) (signature : P.SchnorrSig)
      (made : Makes J "com/horizen/schnorrnative/SchnorrSignature" "signaturePointer" w.next
        signature_object) where
    native_sign_message_lem :
        (rng : ℕ)
        → PairAt J w key_pair sk pk
        → Points J w message_object "fieldElementPointer" (Boxed.field_element message)
        → schnorr_sign P rng message sk pk ≡ ok signature
        → native_sign_message P H J rng key_pair message_object w
          ≡ (returned signature_object, boxed P H J w (Boxed.schnorr_sig signature))
    unfolding native_sign_message ffi_export
    native_sign_message_lem rng pair input signed =
        rw
          (
            pair.in_secret,
            read_field-Points P H J w pair.secret_object _ _ pair.secret (as_scalar P H) sk refl,
            pair.in_public,
            read_field-Points P H J w pair.public_object _ _ pair.public (as_g2 P H) pk refl,
            read_field-Points P H J w message_object _ _ input (as_field_element P H) message refl,
            signed,
            return_jobject-Makes P H J w (Boxed.schnorr_sig signature) _ _ signature_object made,
          )
          refl

  module _ (w : World P H) (public_object signature_object message_object : J.JObject) (pk : P.G2)
      (message : P.FieldElement) (signature : P.SchnorrSig) where
    native_verify_signature_lem :
        Points J w public_object "publicKeyPointer" (Boxed.g2 pk)
        → Points J w message_object "fieldElementPointer" (Boxed.field_element message)
        → Points J w signature_object "signaturePointer" (Boxed.schnorr_sig signature)
        → schnorr_verify_signature P message pk signature ≡ ok true
        → native_verify_signature P H J public_object signature_object message_object w
          ≡ (returned 1, w)
    unfolding native_verify_signature ffi_export
    native_verify_signature_lem key input sig verified =
        rw
          (
            read_field-Points P H J w public_object _ _ key (as_g2 P H) pk refl,
            read_field-Points P H J w message_object _ _ input (as_field_element P H) message refl,
            read_field-Points P H J w signature_object _ _ sig (as_schnorr_sig P H) signature refl,
            verified,
          )
          refl

  -- A message that Java signs is verified by Java: `nativeSignMessage` with a key pair and then
  -- `nativeVerifySignature` with an object of the same public key, the new signature object and the
  -- same message give `JNI_TRUE`, and the state has changed by the signature's box only; where the
  -- handles are live, the machine makes the signature's object, signing succeeds, and the scheme
  -- verifies what these keys sign.
  pub native_verify_signature-sign_message :
      (rng : ℕ) (key_pair public_object message_object signature_object : J.JObject)
      (sk : P.ScalarFieldElement) (pk : P.G2) (message : P.FieldElement) (signature : P.SchnorrSig)
      (w : World P H)
      → SignatureLaws P sk pk
      → HasRoom w
      → PairAt J w key_pair sk pk
      → Points J w public_object "publicKeyPointer" (Boxed.g2 pk)
      → Points J w message_object "fieldElementPointer" (Boxed.field_element message)
      → Makes J "com/horizen/schnorrnative/SchnorrSignature" "signaturePointer" w.next
          signature_object
      → schnorr_sign P rng message sk pk ≡ ok signature
      → after
          (native_sign_message P H J rng key_pair message_object w)
          (λ sig. native_verify_signature P H J public_object sig message_object)
        ≡ (returned 1, boxed P H J w (Boxed.schnorr_sig signature))
  unfolding schnorr_sign schnorr_verify_signature
  native_verify_signature-sign_message rng key_pair public_object message_object signature_object sk
        pk message signature w laws has pair key input made signed =
      let b = Boxed.schnorr_sig signature in
      let wf = has.well_formed in
      rw
        (native_sign_message_lem w key_pair public_object message_object signature_object sk pk
          message signature made rng pair input signed)
        (native_verify_signature_lem (boxed P H J w b) public_object signature_object message_object
          pk message signature (Points-boxed P H J w public_object _ _ b wf key)
          (Points-boxed P H J w message_object _ _ b wf input)
          (Points-Makes P H J w b _ _ signature_object made has)
          (laws.schnorr_verify-sign rng message signature signed))
