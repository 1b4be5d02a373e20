-- ===== src/Jni/CommitmentTree/Reading.antt =====
-- The exported functions that read a commitment tree, and the proofs of existence and absence, in
-- api/src/lib.rs.
use zendoo_sc_cryptolib.Prelude.{
  ℕ, ◌+◌, length, Bool, false, Option, none, some, List, [], ◌∷◌, String,
}
use zendoo_sc_cryptolib.Prelude.Words.{pos, as_i32}
use zendoo_sc_cryptolib.Primitives.{Primitives}
use zendoo_sc_cryptolib.Jni.{
  Handled, Boxed, Native, Exported, Jvm, ◌>>=◌, ◌>>◌, pure, expect, on_call, ffi_export,
}
use zendoo_sc_cryptolib.Jni.Pointer.{
  as_field_element, as_commitment_tree, as_existence_proof, as_absence_proof, store, free_box,
  into_raw, pointer_in, read_raw_pointer, read_field, serialize_from_jobject,
}
use zendoo_sc_cryptolib.Jni.CommitmentTree.{Commitment, read_fe}

module _ (P : Primitives) (H : Handled P) (J : Jvm) (C : Commitment P H) where
  open J use {JObject, null}

  -- `Optional.empty()`, or `Optional.of` a fresh box's object.
  unfoldable pub handle :
      {A : Type 0}
      → (cls_optional : JObject) → Option A
      → (A → Boxed P H)
      → (class_path : String) → Native P H JObject
  handle cls_optional none box class_path =
      expect (J.optional_empty cls_optional) "Should be able to create Optional.empty()"
  handle cls_optional (some a) box class_path = do
    ptr ← into_raw P H (box a)
    class ← expect (J.find_class class_path) "Should be able to find class"
    object ← expect (J.new_handle class ptr) "Should be able to create new long"
    expect (J.optional_of cls_optional object) "called `Result::unwrap()` on an `Err` value"

  -- The class is looked up before the tree is asked.
  unfoldable pub optional_handle :
      {A : Type 0}
      → (p : ℕ) → H.CommitmentTree
      → Option A
      → (A → Boxed P H)
      → (class_path : String) → Native P H JObject
  unfolding handle
  optional_handle p tree found box class_path = do
    cls_optional ←
        expect (J.find_class "java/util/Optional") "called `Result::unwrap()` on an `Err` value"
    store P H p (Boxed.commitment_tree tree)
    handle cls_optional found box class_path

  unfoldable pub native_get_sc_cr_commitment :
      (tree_object sc_id_bytes : JObject) → Exported P H JObject
  native_get_sc_cr_commitment tree_object sc_id_bytes = ffi_export P H J null do
    sc_id ← read_fe P H J C sc_id_bytes
    p ← pointer_in P H J tree_object "commitmentTreePointer"
    tree ← read_raw_pointer P H J (as_commitment_tree P H) p
    let (tree', found) = C.get_scc tree sc_id
    optional_handle p tree' found Boxed.field_element "com/horizen/librustsidechains/FieldElement"

  unfoldable pub native_get_fwt_commitment :
      (tree_object sc_id_bytes : JObject) → Exported P H JObject
  native_get_fwt_commitment tree_object sc_id_bytes = ffi_export P H J null do
    sc_id ← read_fe P H J C sc_id_bytes
    p ← pointer_in P H J tree_object "commitmentTreePointer"
    tree ← read_raw_pointer P H J (as_commitment_tree P H) p
    let (tree', found) = C.get_fwt_commitment tree sc_id
    optional_handle p tree' found Boxed.field_element "com/horizen/librustsidechains/FieldElement"

  unfoldable pub native_btr_commitment : (tree_object sc_id_bytes : JObject) → Exported P H JObject
  native_btr_commitment tree_object sc_id_bytes = ffi_export P H J null do
    sc_id ← read_fe P H J C sc_id_bytes
    p ← pointer_in P H J tree_object "commitmentTreePointer"
    tree ← read_raw_pointer P H J (as_commitment_tree P H) p
    let (tree', found) = C.get_bwtr_commitment tree sc_id
    optional_handle p tree' found Boxed.field_element "com/horizen/librustsidechains/FieldElement"

  unfoldable pub native_get_cert_commitment :
      (tree_object sc_id_bytes : JObject) → Exported P H JObject
  native_get_cert_commitment tree_object sc_id_bytes = ffi_export P H J null do
    sc_id ← read_fe P H J C sc_id_bytes
    p ← pointer_in P H J tree_object "commitmentTreePointer"
    tree ← read_raw_pointer P H J (as_commitment_tree P H) p
    let (tree', found) = C.get_cert_commitment tree sc_id
    optional_handle p tree' found Boxed.field_element "com/horizen/librustsidechains/FieldElement"

  unfoldable pub native_get_csw_commitment :
      (tree_object sc_id_bytes : JObject) → Exported P H JObject
  native_get_csw_commitment tree_object sc_id_bytes = ffi_export P H J null do
    sc_id ← read_fe P H J C sc_id_bytes
    p ← pointer_in P H J tree_object "commitmentTreePointer"
    tree ← read_raw_pointer P H J (as_commitment_tree P H) p
    let (tree', found) = C.get_csw_commitment tree sc_id
    optional_handle p tree' found Boxed.field_element "com/horizen/librustsidechains/FieldElement"

  unfoldable pub native_get_sc_commitment :
      (tree_object sc_id_bytes : JObject) → Exported P H JObject
  native_get_sc_commitment tree_object sc_id_bytes = ffi_export P H J null do
    sc_id ← read_fe P H J C sc_id_bytes
    p ← pointer_in P H J tree_object "commitmentTreePointer"
    tree ← read_raw_pointer P H J (as_commitment_tree P H) p
    let (tree', found) = C.get_sc_commitment tree sc_id
    optional_handle p tree' found Boxed.field_element "com/horizen/librustsidechains/FieldElement"

  unfoldable pub native_get_commitment : (tree_object : JObject) → Exported P H JObject
  native_get_commitment tree_object = ffi_export P H J null do
    p ← pointer_in P H J tree_object "commitmentTreePointer"
    tree ← read_raw_pointer P H J (as_commitment_tree P H) p
    let (tree', found) = C.get_commitment tree
    optional_handle p tree' found Boxed.field_element "com/horizen/librustsidechains/FieldElement"

  unfoldable pub native_get_sc_existence_proof :
      (tree_object sc_id_bytes : JObject) → Exported P H JObject
  native_get_sc_existence_proof tree_object sc_id_bytes = ffi_export P H J null do
    sc_id ← read_fe P H J C sc_id_bytes
    p ← pointer_in P H J tree_object "commitmentTreePointer"
    tree ← read_raw_pointer P H J (as_commitment_tree P H) p
    let (tree', found) = C.get_sc_existence_proof tree sc_id
    optional_handle p tree' found Boxed.existence_proof
        "com/horizen/commitmenttree/ScExistenceProof"

  unfoldable pub native_get_sc_absence_proof :
      (tree_object sc_id_bytes : JObject) → Exported P H JObject
  native_get_sc_absence_proof tree_object sc_id_bytes = ffi_export P H J null do
    sc_id ← read_fe P H J C sc_id_bytes
    p ← pointer_in P H J tree_object "commitmentTreePointer"
    tree ← read_raw_pointer P H J (as_commitment_tree P H) p
    let (tree', found) = C.get_sc_absence_proof tree sc_id
    optional_handle p tree' found Boxed.absence_proof "com/horizen/commitmenttree/ScAbsenceProof"

  unfoldable pub native_serialize_existence : JObject → Exported P H JObject
  native_serialize_existence proof = ffi_export P H J null (
      serialize_from_jobject P H J H.existence_codec (as_existence_proof P H) proof
        "existenceProofPointer" none)

  unfoldable pub native_deserialize_existence : JObject → Exported P H JObject
  native_deserialize_existence proof_bytes = ffi_export P H J null do
    bytes ← expect (J.convert_byte_array proof_bytes) "Should be able to convert to Rust byte array"
    on_call (C.deserialize_existence_proof bytes)
        (λ proof. do
          proof_ptr ← into_raw P H (Boxed.existence_proof proof)
          class ←
              expect (J.find_class "com/horizen/commitmenttree/ScExistenceProof")
                "Should be able to find class"
          expect (J.new_handle class proof_ptr) "Should be able to create new long")
        (pure null)

  unfoldable pub native_free_sc_existence_proof : (ptr : ℕ) → Exported P H (Unit {0})
  native_free_sc_existence_proof ptr =
      ffi_export P H J tt (free_box P H (as_existence_proof P H) ptr)

  unfoldable pub native_serialize_absence : JObject → Exported P H JObject
  native_serialize_absence proof = ffi_export P H J null (
      serialize_from_jobject P H J H.absence_codec (as_absence_proof P H) proof
        "absenceProofPointer" none)

  unfoldable pub native_deserialize_absence : JObject → Exported P H JObject
  native_deserialize_absence proof_bytes = ffi_export P H J null do
    bytes ← expect (J.convert_byte_array proof_bytes) "Should be able to convert to Rust byte array"
    on_call (C.deserialize_absence_proof bytes)
        (λ proof. do
          proof_ptr ← into_raw P H (Boxed.absence_proof proof)
          class ←
              expect (J.find_class "com/horizen/commitmenttree/ScAbsenceProof")
                "Should be able to find class"
          expect (J.new_handle class proof_ptr) "Should be able to create new long")
        (pure null)

  unfoldable pub native_free_sc_absence_proof : (ptr : ℕ) → Exported P H (Unit {0})
  native_free_sc_absence_proof ptr = ffi_export P H J tt (free_box P H (as_absence_proof P H) ptr)

  unfoldable pub native_verify_sc_commitment :
      (sc_commitment proof_object commitment : JObject) → Exported P H Bool
  native_verify_sc_commitment sc_commitment proof_object commitment = ffi_export P H J false do
    sc_commitment_fe ← read_field P H J (as_field_element P H) sc_commitment "fieldElementPointer"
    proof ← read_field P H J (as_existence_proof P H) proof_object "existenceProofPointer"
    commitment_fe ← read_field P H J (as_field_element P H) commitment "fieldElementPointer"
    pure (C.verify_sc_commitment sc_commitment_fe proof commitment_fe)

  unfoldable pub native_verify_sc_absence :
      (sc_id_bytes proof_object commitment : JObject) → Exported P H Bool
  native_verify_sc_absence sc_id_bytes proof_object commitment = ffi_export P H J false do
    sc_id ← read_fe P H J C sc_id_bytes
    proof ← read_field P H J (as_absence_proof P H) proof_object "absenceProofPointer"
    commitment_fe ← read_field P H J (as_field_element P H) commitment "fieldElementPointer"
    pure (C.verify_sc_absence sc_id proof commitment_fe)

  -- The loop over the leaves: a box and an object for each, put into the array before the next.
  unfoldable pub set_leaves :
      (class leaf_fe_array : JObject) → (idx : ℕ) → List P.FieldElement → Native P H (Unit {0})
  set_leaves class leaf_fe_array idx [] = pure tt
  set_leaves class leaf_fe_array idx (leaf ∷ leaves) = do
    leaf_field_ptr ← into_raw P H (Boxed.field_element leaf)
    leaf_element ←
        expect (J.new_handle class leaf_field_ptr)
          "Should be able to create new long for FieldElement"
    expect (J.set_object_array_element leaf_fe_array (as_i32 idx) leaf_element)
        "Should be able to add FieldElement leaf to an array"
    set_leaves class leaf_fe_array (idx + 1) leaves

  unfoldable pub cert_leaves : Option (List P.FieldElement) → Native P H JObject
  unfolding set_leaves
  cert_leaves none = do
    cls_optional ←
        expect (J.find_class "java/util/Optional") "called `Result::unwrap()` on an `Err` value"
    expect (J.optional_empty cls_optional) "Should be able to create new value for Optional.empty()"
  cert_leaves (some leaves) = do
    field_class ←
        expect (J.find_class "com/horizen/librustsidechains/FieldElement")
          "Should be able to find FieldElement class"
    initial_element ←
        expect (J.new_handle field_class (pos 0))
          "Should be able to create new long for FieldElement"
    leaf_fe_array ←
        expect (J.new_object_array (as_i32 (length leaves)) field_class initial_element)
          "Should be able to create array of FieldElements"
    set_leaves field_class leaf_fe_array 0 leaves
    cls_optional ←
        expect (J.find_class "java/util/Optional") "called `Result::unwrap()` on an `Err` value"
    expect (J.optional_of cls_optional leaf_fe_array)
        "Should be able to create new value for Optional"

  unfoldable pub native_get_crt_leaves : (tree_object sc_id_bytes : JObject) → Exported P H JObject
  unfolding cert_leaves
  native_get_crt_leaves tree_object sc_id_bytes = ffi_export P H J null do
    sc_id ← read_fe P H J C sc_id_bytes
    p ← pointer_in P H J tree_object "commitmentTreePointer"
    tree ← read_raw_pointer P H J (as_commitment_tree P H) p
    let (tree', leaves) = C.get_cert_leaves tree sc_id
    store P H p (Boxed.commitment_tree tree')
    cert_leaves leaves
