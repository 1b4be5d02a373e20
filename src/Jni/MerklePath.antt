-- ===== src/Jni/MerklePath.antt =====
-- The exported functions of com.horizen.merkletreenative.MerklePath, in api/src/lib.rs.
pub mod Verified
use zendoo_sc_cryptolib.Prelude.{ℕ, not, none, some, ◌==◌, if◌then◌else◌}
use zendoo_sc_cryptolib.Prelude.Words.{ℤ, pos, as_u64, as_i64}
use zendoo_sc_cryptolib.Primitives.{Primitives}
use zendoo_sc_cryptolib.Jni.{Handled, Boxed, Exported, Jvm, ◌>>=◌, pure, on_call, ffi_export}
use zendoo_sc_cryptolib.Jni.Pointer.{
  as_field_element, as_merkle_path, free_box, read_field, return_field_element,
  deserialize_to_jobject, serialize_from_jobject,
}
use zendoo_sc_cryptolib.Jni.FieldElement.{jboolean}

module _ (P : Primitives) (H : Handled P) (J : Jvm) where
  open J use {JObject, null}

  unfoldable pub native_verify :
      (path_object : JObject) (height : ℤ) (leaf_object root_object : JObject) → Exported P H ℕ
  native_verify path_object height leaf_object root_object = ffi_export P H J 0 do
    leaf ← read_field P H J (as_field_element P H) leaf_object "fieldElementPointer"
    root ← read_field P H J (as_field_element P H) root_object "fieldElementPointer"
    path ← read_field P H J (as_merkle_path P H) path_object "merklePathPointer"
    if not (H.is_valid_path path)
        then pure 0
        else on_call (H.verify_ginger_merkle_path path (as_u64 height) leaf root)
            (λ result. pure (jboolean result)) (pure 0)

  unfoldable pub native_verify_without_length_check :
      (path_object leaf_object root_object : JObject) → Exported P H ℕ
  native_verify_without_length_check path_object leaf_object root_object = ffi_export P H J 0 do
    leaf ← read_field P H J (as_field_element P H) leaf_object "fieldElementPointer"
    root ← read_field P H J (as_field_element P H) root_object "fieldElementPointer"
    path ← read_field P H J (as_merkle_path P H) path_object "merklePathPointer"
    if not (H.is_valid_path path)
        then pure 0
        else pure (jboolean (H.verify_ginger_merkle_path_without_length_check path leaf root))

  unfoldable pub native_apply : (path_object leaf_object : JObject) → Exported P H JObject
  native_apply path_object leaf_object = ffi_export P H J null do
    path ← read_field P H J (as_merkle_path P H) path_object "merklePathPointer"
    leaf ← read_field P H J (as_field_element P H) leaf_object "fieldElementPointer"
    return_field_element P H J (H.get_root_from_path path leaf)

  unfoldable pub native_is_leftmost : JObject → Exported P H ℕ
  native_is_leftmost path_object = ffi_export P H J 0 do
    path ← read_field P H J (as_merkle_path P H) path_object "merklePathPointer"
    pure (jboolean (H.is_path_leftmost path))

  unfoldable pub native_is_rightmost : JObject → Exported P H ℕ
  native_is_rightmost path_object = ffi_export P H J 0 do
    path ← read_field P H J (as_merkle_path P H) path_object "merklePathPointer"
    pure (jboolean (H.is_path_rightmost path))

  unfoldable pub native_are_right_leaves_empty : JObject → Exported P H ℕ
  native_are_right_leaves_empty path_object = ffi_export P H J 0 do
    path ← read_field P H J (as_merkle_path P H) path_object "merklePathPointer"
    pure (jboolean (H.are_right_leaves_empty path))

  unfoldable pub native_leaf_index : JObject → Exported P H ℤ
  native_leaf_index path_object = ffi_export P H J (pos 0) do
    path ← read_field P H J (as_merkle_path P H) path_object "merklePathPointer"
    pure (as_i64 (H.get_leaf_index_from_path path))

  unfoldable pub native_serialize : JObject → Exported P H JObject
  native_serialize obj =
      ffi_export P H J null (
        serialize_from_jobject P H J H.path_codec (as_merkle_path P H) obj "merklePathPointer" none)

  unfoldable pub native_deserialize : (bytes : JObject) → (check : ℕ) → Exported P H JObject
  native_deserialize bytes check = ffi_export P H J null (
      deserialize_to_jobject P H J H.path_codec Boxed.merkle_path bytes (some (check == 1)) none
        "com/horizen/merkletreenative/MerklePath")

  unfoldable pub native_free_merkle_path : (ptr : ℕ) → Exported P H (Unit {0})
  native_free_merkle_path ptr = ffi_export P H J tt (free_box P H (as_merkle_path P H) ptr)
