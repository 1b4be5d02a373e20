-- ===== src/Jni/Methods/Vrf.antt =====
-- The exported functions of com.horizen.vrfnative in api/src/lib.rs, as the calls that Java
-- makes: what each leaves of the boxes.
use zendoo_sc_cryptolib.Prelude.{ℕ, ◌≡◌, ◌≢◌}
use zendoo_sc_cryptolib.Prelude.Words.{ℤ, as_u64}
use zendoo_sc_cryptolib.Primitives.{Primitives}
use zendoo_sc_cryptolib.Primitives.Sizes.{ByteSizes}
use zendoo_sc_cryptolib.Jni.{Handled, World, Jvm, value}
use zendoo_sc_cryptolib.Jni.Vrf
use zendoo_sc_cryptolib.Jni.Invariant.{Outcome, made, CallKeeps}
use zendoo_sc_cryptolib.Jni.Invariant.Export.{exported, ffi_export-ExportKeeps, made-CallKeeps}
use zendoo_sc_cryptolib.Jni.Invariant.Boxes.{free_field-Keeps}
use zendoo_sc_cryptolib.Jni.Defined.{IsHandle, CallSafe}
use zendoo_sc_cryptolib.Jni.Defined.Packages.{packages}
use zendoo_sc_cryptolib.Jni.Defined.Calls.{made-CallSafe, given-CallSafe}
use zendoo_sc_cryptolib.Jni.Invariant.{a_vrf_proof}

-- A call, with its arguments. `O` is the type of Java's objects.
pub data VrfCall (O : Type 0) : Type 0 where
  get_public_key_size : VrfCall O
  get_secret_key_size : VrfCall O
  get_proof_size : VrfCall O
  serialize_public_key : (obj : O) (compressed : ℕ) → VrfCall O
  deserialize_public_key : (bytes : O) (check : ℕ) (compressed : ℕ) → VrfCall O
  free_public_key : (obj : O) → VrfCall O
  serialize_secret_key : (obj : O) → VrfCall O
  deserialize_secret_key : (bytes : O) → VrfCall O
  free_secret_key : (obj : O) → VrfCall O
  generate : (rng : ℕ) → VrfCall O
  verify_key : (obj : O) → VrfCall O
  get_public_key : (obj : O) → VrfCall O
  serialize_proof : (obj : O) (compressed : ℕ) → VrfCall O
  deserialize_proof : (bytes : O) (check : ℕ) (compressed : ℕ) → VrfCall O
  is_valid_vrf_proof : (obj : O) → VrfCall O
  free_proof : (ptr : ℕ) → VrfCall O
  prove : (rng : ℕ) (key_pair message_object : O) → VrfCall O
  proof_to_hash : (public_key_object proof_object message_object : O) → VrfCall O

module _ (P : Primitives) (H : Handled P) (J : Jvm) (S : ByteSizes) where
  -- What a call does.
  unfoldable pub run : VrfCall J.JObject → World P H → Outcome × World P H
  run get_public_key_size = made (Vrf.native_get_public_key_size P H J S)
  run get_secret_key_size = made (Vrf.native_get_secret_key_size P H J S)
  run get_proof_size = made (Vrf.native_get_proof_size P H J S)
  run (serialize_public_key obj compressed) =
      made (Vrf.native_serialize_public_key P H J obj compressed)
  run (deserialize_public_key bytes check compressed) =
      made (Vrf.native_deserialize_public_key P H J bytes check compressed)
  run (free_public_key obj) = made (Vrf.native_free_public_key P H J obj)
  run (serialize_secret_key obj) = made (Vrf.native_serialize_secret_key P H J obj)
  run (deserialize_secret_key bytes) = made (Vrf.native_deserialize_secret_key P H J bytes)
  run (free_secret_key obj) = made (Vrf.native_free_secret_key P H J obj)
  run (generate rng) = made (Vrf.native_generate P H J rng)
  run (verify_key obj) = made (Vrf.native_verify_key P H J obj)
  run (get_public_key obj) = made (Vrf.native_get_public_key P H J obj)
  run (serialize_proof obj compressed) = made (Vrf.native_serialize_proof P H J obj compressed)
  run (deserialize_proof bytes check compressed) =
      made (Vrf.native_deserialize_proof P H J bytes check compressed)
  run (is_valid_vrf_proof obj) = made (Vrf.native_is_valid_vrf_proof P H J obj)
  run (free_proof ptr) = made (Vrf.native_free_proof P H J ptr)
  run (prove rng key_pair message_object) =
      made (Vrf.native_prove P H J rng key_pair message_object)
  run (proof_to_hash public_key_object proof_object message_object) =
      made (Vrf.native_proof_to_hash P H J public_key_object proof_object message_object)

  -- That a call does not free the address `owned`.
  abbrev pub Spares : VrfCall J.JObject → (owned : ℕ) → Type 0
  Spares (free_public_key obj) owned =
      (j : ℤ) → J.get_long obj "publicKeyPointer" ≡ value j → as_u64 j ≢ owned
  Spares (free_secret_key obj) owned =
      (j : ℤ) → J.get_long obj "secretKeyPointer" ≡ value j → as_u64 j ≢ owned
  Spares (free_proof ptr) owned = ptr ≢ owned
  Spares _ owned = Unit {0}

  -- Each of the calls leads from a well-formed state to a next one.
  pub run-CallKeeps : {owned : ℕ} (c : VrfCall J.JObject) → Spares c owned → CallKeeps owned (run c)
  unfolding run Vrf.native_get_public_key_size Vrf.native_get_secret_key_size
      Vrf.native_get_proof_size Vrf.native_serialize_public_key Vrf.native_deserialize_public_key
      Vrf.native_free_public_key Vrf.native_serialize_secret_key Vrf.native_deserialize_secret_key
      Vrf.native_free_secret_key Vrf.native_generate Vrf.native_verify_key Vrf.native_get_public_key
      Vrf.native_serialize_proof Vrf.native_deserialize_proof Vrf.native_is_valid_vrf_proof
      Vrf.native_free_proof Vrf.native_prove Vrf.native_proof_to_hash
  run-CallKeeps get_public_key_size s = made-CallKeeps (search (exported) depth 40 fits 4000)
  run-CallKeeps (free_public_key obj) s =
      made-CallKeeps (ffi_export-ExportKeeps P H J _ _ (free_field-Keeps P H J _ obj _ s))
  run-CallKeeps (free_secret_key obj) s =
      made-CallKeeps (ffi_export-ExportKeeps P H J _ _ (free_field-Keeps P H J _ obj _ s))
  run-CallKeeps _ s = made-CallKeeps (search (exported) depth 40 fits 4000)

  -- The addresses that a call is given itself.
  abbrev pub Given : VrfCall J.JObject → World P H → Type 0
  Given (free_proof ptr) w = IsHandle w a_vrf_proof ptr
  Given _ w = Unit {0}

  -- A call is defined if the handles are live, and an address that it is given too.
  pub run-CallSafe : (c : VrfCall J.JObject) → CallSafe J (Given c) (run c)
  unfolding run Vrf.native_get_public_key_size Vrf.native_get_secret_key_size
      Vrf.native_get_proof_size Vrf.native_serialize_public_key Vrf.native_deserialize_public_key
      Vrf.native_free_public_key Vrf.native_serialize_secret_key Vrf.native_deserialize_secret_key
      Vrf.native_free_secret_key Vrf.native_generate Vrf.native_verify_key Vrf.native_get_public_key
      Vrf.native_serialize_proof Vrf.native_deserialize_proof Vrf.native_is_valid_vrf_proof
      Vrf.native_free_proof Vrf.native_prove Vrf.native_proof_to_hash
  run-CallSafe (free_proof ptr) = given-CallSafe P H J tt _ a_vrf_proof ptr (search packages)
  run-CallSafe _ = made-CallSafe P H J _ _ (search packages depth 40 fits 4000)
