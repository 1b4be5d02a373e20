-- ===== src/Jni/CommitmentTree/Adding.antt =====
-- The exported functions that add to a commitment tree, in api/src/lib.rs.
use zendoo_sc_cryptolib.Prelude.{ℕ, Option, none, some, List, is_empty, replicate, if◌then◌else◌}
use zendoo_sc_cryptolib.Prelude.Words.{ℤ, as_u64, as_u32, as_u8}
use zendoo_sc_cryptolib.Primitives.{Primitives}
use zendoo_sc_cryptolib.Calls.{bt_list_opt}
use zendoo_sc_cryptolib.Jni.{
  Handled, Boxed, Native, Exported, Jvm, ◌>>=◌, pure, expect, on_call, ffi_export,
}
use zendoo_sc_cryptolib.Jni.Pointer.{
  as_commitment_tree, free_box, into_raw, pointer_in, read_raw_pointer, parse_jbyte_array_to_vec,
  get_byte_array, read_array, read_bt_list,
}
use zendoo_sc_cryptolib.Jni.CommitmentTree.{
  BitVectorElementsConfig, Commitment, read_fe, read_loose_fe, answer,
}

module _ (P : Primitives) (H : Handled P) (J : Jvm) (C : Commitment P H) where
  open J use {JObject, null}

  unfoldable pub native_init : (class : JObject) → Exported P H JObject
  native_init class = ffi_export P H J null do
    commitment_tree_ptr ← into_raw P H (Boxed.commitment_tree C.create)
    expect (J.new_handle class commitment_tree_ptr)
        "Should be able to create new CommitmentTree object"

  unfoldable pub native_free_commitment_tree : (ptr : ℕ) → Exported P H (Unit {0})
  native_free_commitment_tree ptr = ffi_export P H J tt (free_box P H (as_commitment_tree P H) ptr)

  zeros : ℕ → List ℕ
  zeros n = replicate n 0

  unfoldable pub read_bits : JObject → Native P H ℕ
  read_bits config = do
    bits ←
        expect (J.call_byte config "getBits") "Should be able to call getBitVectorSizeBits method"
    pure (as_u8 bits)

  unfoldable pub read_config : JObject → Native P H BitVectorElementsConfig
  read_config config = do
    bits ←
        expect (J.call_int config "getBitVectorSizeBits")
          "Should be able to call getBitVectorSizeBits method"
    size ←
        expect (J.call_int config "getMaxCompressedByteSize")
          "Should be able to call getMaxCompressedByteSize method"
    pure (record { bit_vector_size_bits = as_u32 bits; max_compressed_byte_size = as_u32 size })

  -- `None` for an empty list
  non_empty : {A : Type 0} → List A → Option (List A)
  non_empty xs = if is_empty xs then none else some xs

  -- The constant: a null array is `None`, and what does not parse ends the call.
  unfoldable pub with_constant : JObject → (Option P.FieldElement → Native P H ℕ) → Native P H ℕ
  with_constant arr rest = if J.is_null arr then rest none else (do
    bytes ← parse_jbyte_array_to_vec P H J arr C.field_size
    on_call (C.deserialize_field_element bytes) (λ fe. rest (some fe)) (pure 0))

  -- The key for ceased sidechain withdrawals, `None` for a null array.
  unfoldable pub read_csw_key : JObject → Native P H (Option (List ℕ))
  read_csw_key arr = if J.is_null arr then pure none else (do
    bytes ← expect (J.convert_byte_array arr) "Should be able to convert to Rust byte array"
    pure (some bytes))

  unfoldable pub native_add_sc_cr :
      (tree_object sc_id_bytes : JObject) (amount : ℤ) (pub_key_bytes tx_hash_bytes : JObject)
      (out_idx withdrawal_epoch_length mc_btr_request_data_length : ℤ)
      (field_configs bitvector_configs : JObject) (btr_fee ft_min_amount : ℤ)
      (creation_data constant_nullable cert_key csw_key_nullable : JObject)
      → Exported P H ℕ
  unfolding zeros read_bits read_config non_empty with_constant read_csw_key
  native_add_sc_cr tree_object sc_id_bytes amount pub_key_bytes tx_hash_bytes out_idx
        withdrawal_epoch_length mc_btr_request_data_length field_configs bitvector_configs btr_fee
        ft_min_amount creation_data constant_nullable cert_key csw_key_nullable =
      ffi_export P H J 0 do
        id_bytes ← parse_jbyte_array_to_vec P H J sc_id_bytes C.field_size
        on_call (C.deserialize_field_element id_bytes)
            (λ sc_id. do
              pub_key ← get_byte_array P H J pub_key_bytes (zeros C.field_size)
              tx_hash ← get_byte_array P H J tx_hash_bytes (zeros C.field_size)
              fields ← read_array P H J field_configs read_bits
              bitvectors ← read_array P H J bitvector_configs read_config
              custom_data ←
                  expect (J.convert_byte_array creation_data)
                    "Should be able to convert to Rust array"
              with_constant constant_nullable λ constant. do
                cert_verification_key ←
                    expect (J.convert_byte_array cert_key)
                      "Should be able to convert to Rust byte array"
                csw_verification_key ← read_csw_key csw_key_nullable
                p ← pointer_in P H J tree_object "commitmentTreePointer"
                tree ← read_raw_pointer P H J (as_commitment_tree P H) p
                answer P H J C p (
                    C.add_scc tree (record {
                      sc_id = sc_id;
                      amount = as_u64 amount;
                      pub_key = pub_key;
                      tx_hash = tx_hash;
                      out_idx = as_u32 out_idx;
                      withdrawal_epoch_length = as_u32 withdrawal_epoch_length;
                      mc_btr_request_data_length = as_u8 mc_btr_request_data_length;
                      custom_field_elements_configs = non_empty fields;
                      custom_bitvector_elements_configs = non_empty bitvectors;
                      btr_fee = as_u64 btr_fee;
                      ft_min_amount = as_u64 ft_min_amount;
                      custom_creation_data = non_empty custom_data;
                      constant = constant;
                      cert_verification_key = cert_verification_key;
                      csw_verification_key = csw_verification_key;
                    })))
            (pure 0)

  unfoldable pub native_add_fwt :
      (tree_object sc_id_bytes : JObject) (amount : ℤ)
      (pub_key_bytes mc_return_address_bytes tx_hash_bytes : JObject) (out_idx : ℤ)
      → Exported P H ℕ
  unfolding zeros
  native_add_fwt tree_object sc_id_bytes amount pub_key_bytes mc_return_address_bytes tx_hash_bytes
        out_idx =
      ffi_export P H J 0 do
        sc_id ← read_fe P H J C sc_id_bytes
        pub_key ← get_byte_array P H J pub_key_bytes (zeros C.field_size)
        mc_return_address ← get_byte_array P H J mc_return_address_bytes (zeros C.mc_pk_size)
        tx_hash ← get_byte_array P H J tx_hash_bytes (zeros C.field_size)
        p ← pointer_in P H J tree_object "commitmentTreePointer"
        tree ← read_raw_pointer P H J (as_commitment_tree P H) p
        answer P H J C p (
            C.add_fwt tree sc_id (as_u64 amount) pub_key mc_return_address tx_hash (as_u32 out_idx))

  unfoldable pub native_add_btr :
      (tree_object sc_id_bytes : JObject) (sc_fee : ℤ)
      (mc_destination_address_bytes sc_request_data_array tx_hash_bytes : JObject) (out_idx : ℤ)
      → Exported P H ℕ
  unfolding zeros
  native_add_btr tree_object sc_id_bytes sc_fee mc_destination_address_bytes sc_request_data_array
        tx_hash_bytes out_idx =
      ffi_export P H J 0 do
        sc_id ← read_fe P H J C sc_id_bytes
        mc_destination_address ← get_byte_array P H J mc_destination_address_bytes (zeros 20)
        sc_request_data ← read_array P H J sc_request_data_array (read_loose_fe P H J C)
        tx_hash ← get_byte_array P H J tx_hash_bytes (zeros C.field_size)
        p ← pointer_in P H J tree_object "commitmentTreePointer"
        tree ← read_raw_pointer P H J (as_commitment_tree P H) p
        answer P H J C p (
            C.add_bwtr tree sc_id (as_u64 sc_fee) sc_request_data mc_destination_address tx_hash
              (as_u32 out_idx))

  -- `None` for a null array; an empty array gives an empty list.
  unfoldable pub read_custom_fields : JObject → Native P H (Option (List P.FieldElement))
  read_custom_fields arr =
      if J.is_null arr
      then pure none
      else (do fields ← read_array P H J arr (read_loose_fe P H J C); pure (some fields))

  unfoldable pub native_add_cert :
      (tree_object sc_id_bytes : JObject) (epoch_number quality : ℤ)
      (bt_array custom_fields_nullable root_bytes : JObject) (btr_fee ft_min_amount : ℤ)
      → Exported P H ℕ
  unfolding read_custom_fields
  native_add_cert tree_object sc_id_bytes epoch_number quality bt_array custom_fields_nullable
        root_bytes btr_fee ft_min_amount =
      ffi_export P H J 0 do
        sc_id ← read_fe P H J C sc_id_bytes
        bt_list ← read_bt_list P H J bt_array
        custom_fields ← read_custom_fields custom_fields_nullable
        root ← read_fe P H J C root_bytes
        p ← pointer_in P H J tree_object "commitmentTreePointer"
        tree ← read_raw_pointer P H J (as_commitment_tree P H) p
        answer P H J C p (
            C.add_cert tree sc_id (as_u32 epoch_number) (as_u64 quality) (bt_list_opt P bt_list)
              custom_fields root (as_u64 btr_fee) (as_u64 ft_min_amount))

  unfoldable pub native_add_cert_leaf :
      (tree_object sc_id_bytes leaf_bytes : JObject) → Exported P H ℕ
  native_add_cert_leaf tree_object sc_id_bytes leaf_bytes = ffi_export P H J 0 do
    sc_id ← read_fe P H J C sc_id_bytes
    leaf_fe ← read_fe P H J C leaf_bytes
    p ← pointer_in P H J tree_object "commitmentTreePointer"
    tree ← read_raw_pointer P H J (as_commitment_tree P H) p
    answer P H J C p (C.add_cert_leaf tree sc_id leaf_fe)

  unfoldable pub native_add_csw :
      (tree_object sc_id_bytes : JObject) (amount : ℤ) (nullifier_bytes mc_pk_hash_bytes : JObject)
      → Exported P H ℕ
  unfolding zeros
  native_add_csw tree_object sc_id_bytes amount nullifier_bytes mc_pk_hash_bytes =
      ffi_export P H J 0 do
        sc_id ← read_fe P H J C sc_id_bytes
        nullifier ← read_fe P H J C nullifier_bytes
        mc_pk_hash ← get_byte_array P H J mc_pk_hash_bytes (zeros C.mc_pk_size)
        p ← pointer_in P H J tree_object "commitmentTreePointer"
        tree ← read_raw_pointer P H J (as_commitment_tree P H) p
        answer P H J C p (C.add_csw tree sc_id (as_u64 amount) nullifier mc_pk_hash)
