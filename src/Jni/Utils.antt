-- ===== src/Jni/Utils.antt =====
-- The exported functions of com.horizen.librustsidechains.Utils, in api/src/lib.rs.
use zendoo_sc_cryptolib.Prelude.{ℕ, none, List, String}
use zendoo_sc_cryptolib.Prelude.Call.{Call, string}
use zendoo_sc_cryptolib.Prelude.Words.{ℤ, as_u32, as_u64}
use zendoo_sc_cryptolib.Primitives.{Primitives}
use zendoo_sc_cryptolib.Jni.{
  Handled, Native, Exported, Jvm, ◌>>=◌, ◌>>◌, pure, unwind, expect, on_call, throw_inner,
  ffi_export,
}
use zendoo_sc_cryptolib.Jni.Pointer.{read_fixed}

-- What cctp_primitives computes from bytes.
pub record ByteHashes (P : Primitives) : Type 0 where
  pub compute_sc_id : (tx_hash : List ℕ) → (idx : ℕ) → Call P.FieldElement
  pub merkle_root_from_compressed_bytes_without_checks : List ℕ → Call P.FieldElement
  pub merkle_root_from_compressed_bytes :
      List ℕ → (expected_uncompressed_size : ℕ) → Call P.FieldElement

module _ (P : Primitives) (H : Handled P) (J : Jvm) (U : ByteHashes P) where
  open J use {JObject, null}

  -- An element as the array of its bytes.
  return_bytes : P.FieldElement → (message : String) → Native P H JObject
  return_bytes fe message =
      on_call (H.field_element_codec.serialize fe none)
        (λ bytes. expect (J.byte_array_from_slice bytes) "Cannot write jobject.")
        (unwind (string message))

  unfoldable pub native_calculate_sidechain_id :
      (tx_hash : JObject) (idx : ℤ) → Exported P H JObject
  unfolding return_bytes
  native_calculate_sidechain_id tx_hash idx = ffi_export P H J null do
    hash ← read_fixed P H J 32 tx_hash
    on_call (U.compute_sc_id hash (as_u32 idx))
        (λ sc_id. return_bytes sc_id "Should be able to serialize sc_id")
        (unwind (string "Cannot compute sc id."))

  unfoldable pub native_compressed_bitvector_merkle_root :
      (compressed_bit_vector : JObject) → Exported P H JObject
  unfolding return_bytes
  native_compressed_bitvector_merkle_root compressed_bit_vector = ffi_export P H J null do
    bytes ←
        expect (J.convert_byte_array compressed_bit_vector)
          "Should be able to convert to Rust byte array"
    on_call (U.merkle_root_from_compressed_bytes_without_checks bytes)
        (λ merkle_root. return_bytes merkle_root "Should be able to serialize merkle_root")
        (unwind (string "Cannot compute merkle root."))

  unfoldable pub native_compressed_bitvector_merkle_root_with_size_check :
      (compressed_bit_vector : JObject) (expected_uncompressed_size : ℤ) → Exported P H JObject
  unfolding return_bytes
  native_compressed_bitvector_merkle_root_with_size_check compressed_bit_vector
        expected_uncompressed_size =
      ffi_export P H J null do
        bytes ←
            expect (J.convert_byte_array compressed_bit_vector)
              "Should be able to convert to Rust byte array"
        on_call (U.merkle_root_from_compressed_bytes bytes (as_u64 expected_uncompressed_size))
            (λ merkle_root. return_bytes merkle_root "Should be able to serialize merkle_root")
            (throw_inner P H J "java/lang/Exception" "Cannot compute merkle root with size check."
              >> pure null)
