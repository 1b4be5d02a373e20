-- ===== src/Jni/FieldElement.antt =====
-- The exported functions of com.horizen.librustsidechains.FieldElement and Library, in
-- api/src/lib.rs.
use zendoo_sc_cryptolib.Prelude.{ℕ, Bool, true, false, none}
use zendoo_sc_cryptolib.Prelude.Call.{str}
use zendoo_sc_cryptolib.Prelude.Words.{ℤ, pos, as_u64, as_i32}
use zendoo_sc_cryptolib.Primitives.{Primitives}
use zendoo_sc_cryptolib.Calls
use zendoo_sc_cryptolib.Jni.{Handled, Boxed, Exported, Jvm, ◌>>=◌, pure, unwind, ffi_export}
use zendoo_sc_cryptolib.Jni.Pointer.{
  as_field_element, free_box, pointer_in, read_field, return_field_element, deserialize_to_jobject,
  serialize_from_raw_pointer, serialize_from_jobject,
}

-- `JNI_TRUE` and `JNI_FALSE`
abbrev pub jboolean : Bool → ℕ
jboolean true = 1
jboolean false = 0

module _ (P : Primitives) (H : Handled P) (J : Jvm) where
  open J use {JObject, null}

  unfoldable pub native_panicking_function : Exported P H (Unit {0})
  native_panicking_function = ffi_export P H J tt (unwind (str "Oh no ! A panic occured !"))

  unfoldable pub native_get_field_element_size : (field_size : ℕ) → Exported P H ℤ
  native_get_field_element_size field_size = ffi_export P H J (pos 0) (pure (as_i32 field_size))

  unfoldable pub native_serialize_field_element : JObject → Exported P H JObject
  native_serialize_field_element obj = ffi_export P H J null (
      serialize_from_jobject P H J H.field_element_codec (as_field_element P H) obj
        "fieldElementPointer" none)

  unfoldable pub native_deserialize_field_element : (bytes : JObject) → Exported P H JObject
  native_deserialize_field_element bytes = ffi_export P H J null (
      deserialize_to_jobject P H J H.field_element_codec Boxed.field_element bytes none none
        "com/horizen/librustsidechains/FieldElement")

  unfoldable pub native_create_random : (seed : ℤ) → Exported P H JObject
  native_create_random seed =
      ffi_export P H J null
        (return_field_element P H J (Calls.get_random_field_element P (as_u64 seed)))

  unfoldable pub native_create_from_long : (long : ℤ) → Exported P H JObject
  native_create_from_long long =
      ffi_export P H J null (return_field_element P H J (P.from (as_u64 long)))

  -- What is printed is not modelled.
  unfoldable pub native_print_field_element_bytes : JObject → Exported P H (Unit {0})
  native_print_field_element_bytes obj = ffi_export P H J tt do
    p ← pointer_in P H J obj "fieldElementPointer"
    bytes ← serialize_from_raw_pointer P H J H.field_element_codec (as_field_element P H) p none
    pure tt

  unfoldable pub native_free_field_element : (ptr : ℕ) → Exported P H (Unit {0})
  native_free_field_element ptr = ffi_export P H J tt (free_box P H (as_field_element P H) ptr)

  unfoldable pub native_equals : (field_element_1 field_element_2 : JObject) → Exported P H ℕ
  native_equals field_element_1 field_element_2 = ffi_export P H J 0 do
    field_1 ← read_field P H J (as_field_element P H) field_element_1 "fieldElementPointer"
    field_2 ← read_field P H J (as_field_element P H) field_element_2 "fieldElementPointer"
    pure (jboolean (P.eq field_1 field_2))
