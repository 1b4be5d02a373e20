-- ===== src/Jni/CommitmentTree.antt =====
-- The exported functions of com.horizen.commitmenttree, in api/src/lib.rs.
pub mod Adding
pub mod Reading
pub mod Verified
use zendoo_sc_cryptolib.Prelude.{
  ℕ, ◌+◌, Bool, true, false, not, Option, none, some, List, [], ◌∷◌, String, is_empty, replicate,
  length, ◌==◌, if◌then◌else◌,
}
use zendoo_sc_cryptolib.Prelude.Call.{Call, ok, err, str, string}
use zendoo_sc_cryptolib.Prelude.Words.{ℤ, pos, as_u64, as_u32, as_u8, as_i32, as_i64}
use zendoo_sc_cryptolib.Primitives.{Primitives, BackwardTransfer}
use zendoo_sc_cryptolib.Calls.{bt_list_opt}
use zendoo_sc_cryptolib.Jni.{
  Handled, Boxed, Native, Exported, Jvm, Codec, ◌>>=◌, ◌>>◌, pure, unwind, expect, on_call,
  ffi_export,
}
use zendoo_sc_cryptolib.Jni.FieldElement.{jboolean}
use zendoo_sc_cryptolib.Jni.Pointer.{
  as_field_element, as_commitment_tree, as_existence_proof, as_absence_proof, store, free_box,
  into_raw, pointer_in, read_raw_pointer, read_field, serialize_from_jobject,
  parse_jbyte_array_to_vec, get_byte_array, read_array, read_bt_list,
}

pub record BitVectorElementsConfig : Type 0 where
  pub bit_vector_size_bits : ℕ
  pub max_compressed_byte_size : ℕ

-- What `add_scc` is given.
pub record ScCreation (F : Type 0) : Type 0 where
  pub sc_id : F
  pub amount : ℕ
  pub pub_key : List ℕ
  pub tx_hash : List ℕ
  pub out_idx : ℕ
  pub withdrawal_epoch_length : ℕ
  pub mc_btr_request_data_length : ℕ
  pub custom_field_elements_configs : Option (List ℕ)
  pub custom_bitvector_elements_configs : Option (List BitVectorElementsConfig)
  pub btr_fee : ℕ
  pub ft_min_amount : ℕ
  pub custom_creation_data : Option (List ℕ)
  pub constant : Option F
  pub cert_verification_key : List ℕ
  pub csw_verification_key : Option (List ℕ)

-- `CommitmentTree` of cctp_primitives, a parameter. Every operation is called on a mutable
-- reference and gives the tree that it leaves.
pub record Commitment (P : Primitives) (H : Handled P) : Type 0 where
  pub field_size : ℕ
  pub mc_pk_size : ℕ
  pub create : H.CommitmentTree
  -- `FieldElement::deserialize`, and of the two proofs
  pub deserialize_field_element : List ℕ → Call P.FieldElement
  pub deserialize_existence_proof : List ℕ → Call H.ScExistenceProof
  pub deserialize_absence_proof : List ℕ → Call H.ScAbsenceProof
  pub add_scc : H.CommitmentTree → ScCreation P.FieldElement → H.CommitmentTree × Bool
  pub add_fwt :
      H.CommitmentTree
      → (sc_id : P.FieldElement) → (amount : ℕ) → (pub_key mc_return_address tx_hash : List ℕ)
      → (out_idx : ℕ) → H.CommitmentTree × Bool
  pub add_bwtr :
      H.CommitmentTree
      → (sc_id : P.FieldElement) → (sc_fee : ℕ) → (sc_request_data : List P.FieldElement)
      → (mc_destination_address tx_hash : List ℕ) → (out_idx : ℕ) → H.CommitmentTree × Bool
  pub add_cert :
      H.CommitmentTree
      → (sc_id : P.FieldElement) → (epoch_number quality : ℕ) → Option (List BackwardTransfer)
      → (custom_fields : Option (List P.FieldElement))
      → (end_cumulative_sc_tx_commitment_tree_root : P.FieldElement) → (btr_fee ft_min_amount : ℕ)
      → H.CommitmentTree × Bool
  pub add_cert_leaf : H.CommitmentTree → (sc_id leaf : P.FieldElement) → H.CommitmentTree × Bool
  pub add_csw :
      H.CommitmentTree
      → (sc_id : P.FieldElement) → (amount : ℕ) → (nullifier : P.FieldElement)
      → (mc_pk_hash : List ℕ) → H.CommitmentTree × Bool
  pub get_cert_leaves :
      H.CommitmentTree → P.FieldElement → H.CommitmentTree × Option (List P.FieldElement)
  pub get_scc : H.CommitmentTree → P.FieldElement → H.CommitmentTree × Option P.FieldElement
  pub get_fwt_commitment :
      H.CommitmentTree → P.FieldElement → H.CommitmentTree × Option P.FieldElement
  pub get_bwtr_commitment :
      H.CommitmentTree → P.FieldElement → H.CommitmentTree × Option P.FieldElement
  pub get_cert_commitment :
      H.CommitmentTree → P.FieldElement → H.CommitmentTree × Option P.FieldElement
  pub get_csw_commitment :
      H.CommitmentTree → P.FieldElement → H.CommitmentTree × Option P.FieldElement
  pub get_sc_commitment :
      H.CommitmentTree → P.FieldElement → H.CommitmentTree × Option P.FieldElement
  pub get_commitment : H.CommitmentTree → H.CommitmentTree × Option P.FieldElement
  pub get_sc_existence_proof :
      H.CommitmentTree → P.FieldElement → H.CommitmentTree × Option H.ScExistenceProof
  pub get_sc_absence_proof :
      H.CommitmentTree → P.FieldElement → H.CommitmentTree × Option H.ScAbsenceProof
  pub verify_sc_commitment : P.FieldElement → H.ScExistenceProof → P.FieldElement → Bool
  pub verify_sc_absence : P.FieldElement → H.ScAbsenceProof → P.FieldElement → Bool

module _ (P : Primitives) (H : Handled P) (J : Jvm) (C : Commitment P H) where
  open J use {JObject, null}

  -- `FieldElement::deserialize(bytes).expect(..)`
  unfoldable pub deserialize_fe : List ℕ → Native P H P.FieldElement
  deserialize_fe bytes =
      on_call (C.deserialize_field_element bytes) pure
        (unwind (string "Can't parse the input into FieldElement"))

  -- An element from an array of exactly `FIELD_SIZE` bytes.
  unfoldable pub read_fe : JObject → Native P H P.FieldElement
  unfolding deserialize_fe
  read_fe arr = do bytes ← parse_jbyte_array_to_vec P H J arr C.field_size; deserialize_fe bytes

  -- An element from an array of any length.
  unfoldable pub read_loose_fe : JObject → Native P H P.FieldElement
  unfolding deserialize_fe
  read_loose_fe arr = do
    bytes ← expect (J.convert_byte_array arr) "Should be able to convert to Rust byte array"
    deserialize_fe bytes

  -- The tree as the operation leaves it, and the answer of the operation.
  unfoldable pub answer : (p : ℕ) → H.CommitmentTree × Bool → Native P H ℕ
  answer p (tree, added) = do store P H p (Boxed.commitment_tree tree); pure (jboolean added)
