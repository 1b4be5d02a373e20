-- ===== src/Jni/Methods/Poseidon.antt =====
-- The exported functions of com.horizen.poseidonnative in api/src/lib.rs, as the calls that Java
-- makes: what each leaves of the boxes.
use zendoo_sc_cryptolib.Prelude.{ℕ, ◌≡◌, ◌≢◌}
use zendoo_sc_cryptolib.Prelude.Words.{ℤ, as_u64}
use zendoo_sc_cryptolib.Primitives.{Primitives}
use zendoo_sc_cryptolib.Primitives.Sizes.{ByteSizes}
use zendoo_sc_cryptolib.Jni.{Handled, World, Jvm, value}
use zendoo_sc_cryptolib.Jni.Poseidon
use zendoo_sc_cryptolib.Jni.Invariant.{Outcome, made, CallKeeps}
use zendoo_sc_cryptolib.Jni.Invariant.Export.{exported, ffi_export-ExportKeeps, made-CallKeeps}
use zendoo_sc_cryptolib.Jni.Invariant.Boxes.{free_field-Keeps}
use zendoo_sc_cryptolib.Jni.Invariant.Parts.{parts}
use zendoo_sc_cryptolib.Jni.Defined.{CallSafe}
use zendoo_sc_cryptolib.Jni.Defined.Packages.{packages}
use zendoo_sc_cryptolib.Jni.Defined.Calls.{made-CallSafe}

-- A call, with its arguments. `O` is the type of Java's objects.
pub data PoseidonCall (O : Type 0) : Type 0 where
  get_hash_size : PoseidonCall O
  get_constant_length_poseidon_hash : (input_size : ℤ) (personalization_array : O) → PoseidonCall O
  get_variable_length_poseidon_hash : (mod_rate : ℕ) (personalization_array : O) → PoseidonCall O
  update : (h_object input_object : O) → PoseidonCall O
  finalize : (obj : O) → PoseidonCall O
  reset : (h_object personalization_array : O) → PoseidonCall O
  free_poseidon_hash : (obj : O) → PoseidonCall O

module _ (P : Primitives) (H : Handled P) (J : Jvm) (S : ByteSizes) where
  -- What a call does.
  unfoldable pub run : PoseidonCall J.JObject → World P H → Outcome × World P H
  run get_hash_size = made (Poseidon.native_get_hash_size P H J S)
  run (get_constant_length_poseidon_hash input_size personalization_array) =
      made
        (Poseidon.native_get_constant_length_poseidon_hash P H J input_size personalization_array)
  run (get_variable_length_poseidon_hash mod_rate personalization_array) =
      made (Poseidon.native_get_variable_length_poseidon_hash P H J mod_rate personalization_array)
  run (update h_object input_object) = made (Poseidon.native_update P H J h_object input_object)
  run (finalize obj) = made (Poseidon.native_finalize P H J obj)
  run (reset h_object personalization_array) =
      made (Poseidon.native_reset P H J h_object personalization_array)
  run (free_poseidon_hash obj) = made (Poseidon.native_free_poseidon_hash P H J obj)

  -- That a call does not free the address `owned`.
  abbrev pub Spares : PoseidonCall J.JObject → (owned : ℕ) → Type 0
  Spares (free_poseidon_hash obj) owned =
      (j : ℤ) → J.get_long obj "poseidonHashPointer" ≡ value j → as_u64 j ≢ owned
  Spares _ owned = Unit {0}

  -- Each of the calls leads from a well-formed state to a next one.
  pub run-CallKeeps :
      {owned : ℕ} (c : PoseidonCall J.JObject) → Spares c owned → CallKeeps owned (run c)
  unfolding run Poseidon.native_get_hash_size Poseidon.native_get_constant_length_poseidon_hash
      Poseidon.native_get_variable_length_poseidon_hash Poseidon.native_update
      Poseidon.native_finalize Poseidon.native_reset Poseidon.native_free_poseidon_hash
  run-CallKeeps get_hash_size s = made-CallKeeps (search (exported, parts) depth 40 fits 4000)
  run-CallKeeps (free_poseidon_hash obj) s =
      made-CallKeeps (ffi_export-ExportKeeps P H J _ _ (free_field-Keeps P H J _ obj _ s))
  run-CallKeeps _ s = made-CallKeeps (search (exported, parts) depth 40 fits 4000)

  -- A call is defined if the handles are live.
  pub run-CallSafe : (c : PoseidonCall J.JObject) → CallSafe J (λ w. Unit {0}) (run c)
  unfolding run Poseidon.native_get_hash_size Poseidon.native_get_constant_length_poseidon_hash
      Poseidon.native_get_variable_length_poseidon_hash Poseidon.native_update
      Poseidon.native_finalize Poseidon.native_reset Poseidon.native_free_poseidon_hash
  run-CallSafe get_hash_size = made-CallSafe P H J _ _ (search packages depth 40 fits 4000)
  run-CallSafe _ = made-CallSafe P H J _ _ (search packages depth 40 fits 4000)
