-- ===== src/Jni/Methods/FieldElement.antt =====
-- The exported functions of com.horizen.librustsidechains.FieldElement in api/src/lib.rs, as the calls that Java
-- makes: what each leaves of the boxes.
use zendoo_sc_cryptolib.Prelude.{ℕ, ◌≢◌}
use zendoo_sc_cryptolib.Prelude.Words.{ℤ}
use zendoo_sc_cryptolib.Primitives.{Primitives}
use zendoo_sc_cryptolib.Primitives.Sizes.{ByteSizes}
use zendoo_sc_cryptolib.Jni.{Handled, World, Jvm}
use zendoo_sc_cryptolib.Jni.FieldElement
use zendoo_sc_cryptolib.Jni.Invariant.{Outcome, made, CallKeeps}
use zendoo_sc_cryptolib.Jni.Invariant.Export.{exported, made-CallKeeps}
use zendoo_sc_cryptolib.Jni.Invariant.Parts.{parts}
use zendoo_sc_cryptolib.Jni.Defined.{IsHandle, CallSafe}
use zendoo_sc_cryptolib.Jni.Defined.Packages.{packages}
use zendoo_sc_cryptolib.Jni.Defined.Calls.{made-CallSafe, given-CallSafe}
use zendoo_sc_cryptolib.Jni.Invariant.{an_element}

-- A call, with its arguments. `O` is the type of Java's objects.
pub data FieldElementCall (O : Type 0) : Type 0 where
  panicking_function : FieldElementCall O
  get_field_element_size : FieldElementCall O
  serialize_field_element : (obj : O) → FieldElementCall O
  deserialize_field_element : (bytes : O) → FieldElementCall O
  create_random : (seed : ℤ) → FieldElementCall O
  create_from_long : (long : ℤ) → FieldElementCall O
  print_field_element_bytes : (obj : O) → FieldElementCall O
  free_field_element : (ptr : ℕ) → FieldElementCall O
  equals : (field_element_1 field_element_2 : O) → FieldElementCall O

module _ (P : Primitives) (H : Handled P) (J : Jvm) (S : ByteSizes) where
  -- What a call does.
  unfoldable pub run : FieldElementCall J.JObject → World P H → Outcome × World P H
  run panicking_function = made (FieldElement.native_panicking_function P H J)
  run get_field_element_size = made (FieldElement.native_get_field_element_size P H J S.field_size)
  run (serialize_field_element obj) = made (FieldElement.native_serialize_field_element P H J obj)
  run (deserialize_field_element bytes) =
      made (FieldElement.native_deserialize_field_element P H J bytes)
  run (create_random seed) = made (FieldElement.native_create_random P H J seed)
  run (create_from_long long) = made (FieldElement.native_create_from_long P H J long)
  run (print_field_element_bytes obj) =
      made (FieldElement.native_print_field_element_bytes P H J obj)
  run (free_field_element ptr) = made (FieldElement.native_free_field_element P H J ptr)
  run (equals field_element_1 field_element_2) =
      made (FieldElement.native_equals P H J field_element_1 field_element_2)

  -- That a call does not free the address `owned`.
  abbrev pub Spares : FieldElementCall J.JObject → (owned : ℕ) → Type 0
  Spares (free_field_element ptr) owned = ptr ≢ owned
  Spares _ owned = Unit {0}

  -- Each of the calls leads from a well-formed state to a next one.
  pub run-CallKeeps :
      {owned : ℕ} (c : FieldElementCall J.JObject) → Spares c owned → CallKeeps owned (run c)
  unfolding run FieldElement.native_panicking_function FieldElement.native_get_field_element_size
      FieldElement.native_serialize_field_element FieldElement.native_deserialize_field_element
      FieldElement.native_create_random FieldElement.native_create_from_long
      FieldElement.native_print_field_element_bytes FieldElement.native_free_field_element
      FieldElement.native_equals
  run-CallKeeps panicking_function s = made-CallKeeps (search (exported, parts) depth 40 fits 4000)
  run-CallKeeps _ s = made-CallKeeps (search (exported, parts) depth 40 fits 4000)

  -- The addresses that a call is given itself.
  abbrev pub Given : FieldElementCall J.JObject → World P H → Type 0
  Given (free_field_element ptr) w = IsHandle w an_element ptr
  Given _ w = Unit {0}

  -- A call is defined if the handles are live, and an address that it is given too.
  pub run-CallSafe : (c : FieldElementCall J.JObject) → CallSafe J (Given c) (run c)
  unfolding run FieldElement.native_panicking_function FieldElement.native_get_field_element_size
      FieldElement.native_serialize_field_element FieldElement.native_deserialize_field_element
      FieldElement.native_create_random FieldElement.native_create_from_long
      FieldElement.native_print_field_element_bytes FieldElement.native_free_field_element
      FieldElement.native_equals
  run-CallSafe (free_field_element ptr) = given-CallSafe P H J tt _ an_element ptr (search packages)
  run-CallSafe _ = made-CallSafe P H J _ _ (search packages depth 40 fits 4000)
