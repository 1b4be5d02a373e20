-- ===== src/Jni/MerkleTree.antt =====
-- The exported functions of com.horizen.merkletreenative.InMemoryOptimizedMerkleTree, in
-- api/src/lib.rs.
pub mod Operations
use zendoo_sc_cryptolib.Prelude.{ℕ, Option, none, some}
use zendoo_sc_cryptolib.Prelude.Call.{Call}
use zendoo_sc_cryptolib.Prelude.Words.{ℤ, as_u64}
use zendoo_sc_cryptolib.Primitives.{Primitives}
use zendoo_sc_cryptolib.Jni.{
  Handled, Boxed, Native, Exported, Jvm, ◌>>=◌, ◌>>◌, pure, on_call, ffi_export,
}
use zendoo_sc_cryptolib.Jni.Pointer.{
  as_field_element, as_merkle_tree, store, free_box, pointer_in, read_raw_pointer, read_field,
  return_jobject, return_field_element,
}

module _ (P : Primitives) (H : Handled P) (J : Jvm) where
  open J use {JObject, null}

  unfoldable pub native_init : (height processing_step : ℤ) → Exported P H JObject
  native_init height processing_step = ffi_export P H J null (
      on_call (H.new_ginger_mht (as_u64 height) (as_u64 processing_step))
        (λ mt.
          return_jobject P H J (Boxed.merkle_tree mt)
            "com/horizen/merkletreenative/InMemoryOptimizedMerkleTree")
        (pure null))

  -- A mutation in place: the tree is left as the library leaves it, and the answer is whether the
  -- library succeeded.
  unfoldable pub mutate_tree :
      (H.GingerMHT → H.GingerMHT × Call (Unit {0})) → (p : ℕ) → H.GingerMHT → Native P H ℕ
  mutate_tree op p tree = do
    let (tree', result) = op tree
    store P H p (Boxed.merkle_tree tree')
    on_call result (λ _. pure 1) (pure 0)

  unfoldable pub native_append : (tree_object leaf_object : JObject) → Exported P H ℕ
  native_append tree_object leaf_object = ffi_export P H J 0 do
    leaf ← read_field P H J (as_field_element P H) leaf_object "fieldElementPointer"
    p ← pointer_in P H J tree_object "inMemoryOptimizedMerkleTreePointer"
    tree ← read_raw_pointer P H J (as_merkle_tree P H) p
    mutate_tree (λ t. H.append_leaf_to_ginger_mht t leaf) p tree

  unfoldable pub native_finalize : JObject → Exported P H JObject
  native_finalize tree_object = ffi_export P H J null do
    tree ← read_field P H J (as_merkle_tree P H) tree_object "inMemoryOptimizedMerkleTreePointer"
    on_call (H.finalize_ginger_mht tree)
        (λ tree_copy.
          return_jobject P H J (Boxed.merkle_tree tree_copy)
            "com/horizen/merkletreenative/InMemoryOptimizedMerkleTree")
        (pure null)

  unfoldable pub native_finalize_in_place : JObject → Exported P H ℕ
  native_finalize_in_place tree_object = ffi_export P H J 0 do
    p ← pointer_in P H J tree_object "inMemoryOptimizedMerkleTreePointer"
    tree ← read_raw_pointer P H J (as_merkle_tree P H) p
    mutate_tree H.finalize_ginger_mht_in_place p tree

  -- An object for a value that may be missing, or null.
  unfoldable pub nullable : {A : Type 0} → Option A → (A → Native P H JObject) → Native P H JObject
  nullable none f = pure null
  nullable (some a) f = f a

  unfoldable pub native_root : JObject → Exported P H JObject
  unfolding nullable
  native_root tree_object = ffi_export P H J null do
    tree ← read_field P H J (as_merkle_tree P H) tree_object "inMemoryOptimizedMerkleTreePointer"
    nullable (H.get_ginger_mht_root tree) (return_field_element P H J)

  unfoldable pub native_get_merkle_path : JObject → (leaf_index : ℤ) → Exported P H JObject
  unfolding nullable
  native_get_merkle_path tree_object leaf_index = ffi_export P H J null do
    tree ← read_field P H J (as_merkle_tree P H) tree_object "inMemoryOptimizedMerkleTreePointer"
    nullable (H.get_ginger_mht_path tree (as_u64 leaf_index)) (λ path.
        return_jobject P H J (Boxed.merkle_path path) "com/horizen/merkletreenative/MerklePath")

  unfoldable pub native_reset : JObject → Exported P H (Unit {0})
  native_reset tree_object = ffi_export P H J tt do
    p ← pointer_in P H J tree_object "inMemoryOptimizedMerkleTreePointer"
    tree ← read_raw_pointer P H J (as_merkle_tree P H) p
    store P H p (Boxed.merkle_tree (H.reset_ginger_mht tree))

  unfoldable pub native_free_in_memory_optimized_merkle_tree : (ptr : ℕ) → Exported P H (Unit {0})
  native_free_in_memory_optimized_merkle_tree ptr =
      ffi_export P H J tt (free_box P H (as_merkle_tree P H) ptr)
