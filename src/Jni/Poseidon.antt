-- ===== src/Jni/Poseidon.antt =====
-- The exported functions of com.horizen.poseidonnative.PoseidonHash, in api/src/lib.rs.
pub mod Updates
use zendoo_sc_cryptolib.Prelude.{ℕ, Option, none, some, List, is_empty, ◌==◌, if◌then◌else◌}
use zendoo_sc_cryptolib.Prelude.Words.{ℤ, as_u64, pos, as_i32}
use zendoo_sc_cryptolib.Primitives.{Primitives}
use zendoo_sc_cryptolib.Primitives.Sizes.{ByteSizes}
use zendoo_sc_cryptolib.Jni.{
  Handled, Boxed, Native, Exported, Jvm, ◌>>=◌, pure, on_call, ffi_export,
}
use zendoo_sc_cryptolib.Jni.Pointer.{
  as_field_element, as_field_hash, store, free_box, pointer_in, read_raw_pointer, read_field,
  read_array, return_jobject, return_field_element,
}

module _ (P : Primitives) (H : Handled P) (J : Jvm) where
  open J use {JObject, null}

  unfoldable pub native_get_hash_size : ByteSizes → Exported P H ℤ
  native_get_hash_size S = ffi_export P H J (pos 0) (pure (as_i32 (S.field_size)))

  -- The personalization array, `None` if it is empty.
  unfoldable pub read_personalization : JObject → Native P H (Option (List P.FieldElement))
  read_personalization arr = do
    personalization ←
        read_array P H J arr λ o. read_field P H J (as_field_element P H) o "fieldElementPointer"
    pure (if is_empty personalization then none else some personalization)

  unfoldable pub native_get_constant_length_poseidon_hash :
      (input_size : ℤ) (personalization_array : JObject) → Exported P H JObject
  native_get_constant_length_poseidon_hash input_size personalization_array =
      ffi_export P H J null do
        personalization ← read_personalization personalization_array
        return_jobject P H J
            (Boxed.field_hash
              (H.get_poseidon_hash_constant_length (as_u64 input_size) personalization))
            "com/horizen/poseidonnative/PoseidonHash"

  unfoldable pub native_get_variable_length_poseidon_hash :
      (mod_rate : ℕ) (personalization_array : JObject) → Exported P H JObject
  native_get_variable_length_poseidon_hash mod_rate personalization_array = ffi_export P H J null do
    personalization ← read_personalization personalization_array
    return_jobject P H J
        (Boxed.field_hash (H.get_poseidon_hash_variable_length (mod_rate == 1) personalization))
        "com/horizen/poseidonnative/PoseidonHash"

  unfoldable pub native_update : (h_object input_object : JObject) → Exported P H (Unit {0})
  native_update h_object input_object = ffi_export P H J tt do
    p ← pointer_in P H J h_object "poseidonHashPointer"
    digest ← read_raw_pointer P H J (as_field_hash P H) p
    input ← read_field P H J (as_field_element P H) input_object "fieldElementPointer"
    store P H p (Boxed.field_hash (P.update digest input))

  unfoldable pub native_finalize : JObject → Exported P H JObject
  native_finalize h_object = ffi_export P H J null do
    digest ← read_field P H J (as_field_hash P H) h_object "poseidonHashPointer"
    on_call (P.finalize digest) (return_field_element P H J) (pure null)

  unfoldable pub native_reset : (h_object personalization_array : JObject) → Exported P H (Unit {0})
  native_reset h_object personalization_array = ffi_export P H J tt do
    p ← pointer_in P H J h_object "poseidonHashPointer"
    digest ← read_raw_pointer P H J (as_field_hash P H) p
    personalization ← read_personalization personalization_array
    store P H p (Boxed.field_hash (H.reset_poseidon_hash digest personalization))

  unfoldable pub native_free_poseidon_hash : JObject → Exported P H (Unit {0})
  native_free_poseidon_hash obj =
      ffi_export P H J tt
        do p ← pointer_in P H J obj "poseidonHashPointer"; free_box P H (as_field_hash P H) p
