-- ===== src/Jni/Methods/Schnorr.antt =====
-- The exported functions of com.horizen.schnorrnative in api/src/lib.rs, as the calls that Java
-- makes: what each leaves of the boxes.
use zendoo_sc_cryptolib.Prelude.{ℕ, ◌≡◌, ◌≢◌}
use zendoo_sc_cryptolib.Prelude.Words.{ℤ, as_u64}
use zendoo_sc_cryptolib.Primitives.{Primitives}
use zendoo_sc_cryptolib.Primitives.Sizes.{ByteSizes}
use zendoo_sc_cryptolib.Jni.{Handled, World, Jvm, value}
use zendoo_sc_cryptolib.Jni.Schnorr
use zendoo_sc_cryptolib.Jni.Invariant.{Outcome, made, CallKeeps}
use zendoo_sc_cryptolib.Jni.Invariant.Export.{exported, ffi_export-ExportKeeps, made-CallKeeps}
use zendoo_sc_cryptolib.Jni.Invariant.Boxes.{free_field-Keeps}
use zendoo_sc_cryptolib.Jni.Defined.{IsHandle, CallSafe}
use zendoo_sc_cryptolib.Jni.Defined.Packages.{packages}
use zendoo_sc_cryptolib.Jni.Defined.Calls.{made-CallSafe, given-CallSafe}
use zendoo_sc_cryptolib.Jni.Invariant.{a_signature}

-- A call, with its arguments. `O` is the type of Java's objects.
pub data SchnorrCall (O : Type 0) : Type 0 where
  get_public_key_size : SchnorrCall O
  get_secret_key_size : SchnorrCall O
  get_signature_size : SchnorrCall O
  serialize_public_key : (obj : O) (compressed : ℕ) → SchnorrCall O
  deserialize_public_key : (bytes : O) (check : ℕ) (compressed : ℕ) → SchnorrCall O
  free_public_key : (obj : O) → SchnorrCall O
  serialize_secret_key : (obj : O) → SchnorrCall O
  deserialize_secret_key : (bytes : O) → SchnorrCall O
  free_secret_key : (obj : O) → SchnorrCall O
  generate : (rng : ℕ) → SchnorrCall O
  verify_key : (obj : O) → SchnorrCall O
  get_public_key : (obj : O) → SchnorrCall O
  serialize_signature : (obj : O) → SchnorrCall O
  deserialize_signature : (bytes : O) (check : ℕ) → SchnorrCall O
  is_valid_signature : (obj : O) → SchnorrCall O
  free_signature : (ptr : ℕ) → SchnorrCall O
  sign_message : (rng : ℕ) (key_pair message_object : O) → SchnorrCall O
  verify_signature : (public_key_object signature_object message_object : O) → SchnorrCall O

module _ (P : Primitives) (H : Handled P) (J : Jvm) (S : ByteSizes) where
  -- What a call does.
  unfoldable pub run : SchnorrCall J.JObject → World P H → Outcome × World P H
  run get_public_key_size = made (Schnorr.native_get_public_key_size P H J S)
  run get_secret_key_size = made (Schnorr.native_get_secret_key_size P H J S)
  run get_signature_size = made (Schnorr.native_get_signature_size P H J S)
  run (serialize_public_key obj compressed) =
      made (Schnorr.native_serialize_public_key P H J obj compressed)
  run (deserialize_public_key bytes check compressed) =
      made (Schnorr.native_deserialize_public_key P H J bytes check compressed)
  run (free_public_key obj) = made (Schnorr.native_free_public_key P H J obj)
  run (serialize_secret_key obj) = made (Schnorr.native_serialize_secret_key P H J obj)
  run (deserialize_secret_key bytes) = made (Schnorr.native_deserialize_secret_key P H J bytes)
  run (free_secret_key obj) = made (Schnorr.native_free_secret_key P H J obj)
  run (generate rng) = made (Schnorr.native_generate P H J rng)
  run (verify_key obj) = made (Schnorr.native_verify_key P H J obj)
  run (get_public_key obj) = made (Schnorr.native_get_public_key P H J obj)
  run (serialize_signature obj) = made (Schnorr.native_serialize_signature P H J obj)
  run (deserialize_signature bytes check) =
      made (Schnorr.native_deserialize_signature P H J bytes check)
  run (is_valid_signature obj) = made (Schnorr.native_is_valid_signature P H J obj)
  run (free_signature ptr) = made (Schnorr.native_free_signature P H J ptr)
  run (sign_message rng key_pair message_object) =
      made (Schnorr.native_sign_message P H J rng key_pair message_object)
  run (verify_signature public_key_object signature_object message_object) =
      made (Schnorr.native_verify_signature P H J public_key_object signature_object message_object)

  -- That a call does not free the address `owned`.
  abbrev pub Spares : SchnorrCall J.JObject → (owned : ℕ) → Type 0
  Spares (free_public_key obj) owned =
      (j : ℤ) → J.get_long obj "publicKeyPointer" ≡ value j → as_u64 j ≢ owned
  Spares (free_secret_key obj) owned =
      (j : ℤ) → J.get_long obj "secretKeyPointer" ≡ value j → as_u64 j ≢ owned
  Spares (free_signature ptr) owned = ptr ≢ owned
  Spares _ owned = Unit {0}

  -- Each of the calls leads from a well-formed state to a next one.
  pub run-CallKeeps :
      {owned : ℕ} (c : SchnorrCall J.JObject) → Spares c owned → CallKeeps owned (run c)
  unfolding run Schnorr.native_get_public_key_size Schnorr.native_get_secret_key_size
      Schnorr.native_get_signature_size Schnorr.native_serialize_public_key
      Schnorr.native_deserialize_public_key Schnorr.native_free_public_key
      Schnorr.native_serialize_secret_key Schnorr.native_deserialize_secret_key
      Schnorr.native_free_secret_key Schnorr.native_generate Schnorr.native_verify_key
      Schnorr.native_get_public_key Schnorr.native_serialize_signature
      Schnorr.native_deserialize_signature Schnorr.native_is_valid_signature
      Schnorr.native_free_signature Schnorr.native_sign_message Schnorr.native_verify_signature
  run-CallKeeps get_public_key_size s = made-CallKeeps (search (exported) depth 40 fits 4000)
  run-CallKeeps (free_public_key obj) s =
      made-CallKeeps (ffi_export-ExportKeeps P H J _ _ (free_field-Keeps P H J _ obj _ s))
  run-CallKeeps (free_secret_key obj) s =
      made-CallKeeps (ffi_export-ExportKeeps P H J _ _ (free_field-Keeps P H J _ obj _ s))
  run-CallKeeps _ s = made-CallKeeps (search (exported) depth 40 fits 4000)

  -- The addresses that a call is given itself.
  abbrev pub Given : SchnorrCall J.JObject → World P H → Type 0
  Given (free_signature ptr) w = IsHandle w a_signature ptr
  Given _ w = Unit {0}

  -- A call is defined if the handles are live, and an address that it is given too.
  pub run-CallSafe : (c : SchnorrCall J.JObject) → CallSafe J (Given c) (run c)
  unfolding run Schnorr.native_get_public_key_size Schnorr.native_get_secret_key_size
      Schnorr.native_get_signature_size Schnorr.native_serialize_public_key
      Schnorr.native_deserialize_public_key Schnorr.native_free_public_key
      Schnorr.native_serialize_secret_key Schnorr.native_deserialize_secret_key
      Schnorr.native_free_secret_key Schnorr.native_generate Schnorr.native_verify_key
      Schnorr.native_get_public_key Schnorr.native_serialize_signature
      Schnorr.native_deserialize_signature Schnorr.native_is_valid_signature
      Schnorr.native_free_signature Schnorr.native_sign_message Schnorr.native_verify_signature
  run-CallSafe (free_signature ptr) = given-CallSafe P H J tt _ a_signature ptr (search packages)
  run-CallSafe _ = made-CallSafe P H J _ _ (search packages depth 40 fits 4000)
