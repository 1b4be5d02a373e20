-- ===== src/Jni/Methods/Utils.antt =====
-- The exported functions of com.horizen.librustsidechains.Utils in api/src/lib.rs, as the calls that Java
-- makes: what each leaves of the boxes.
use zendoo_sc_cryptolib.Prelude.{ℕ}
use zendoo_sc_cryptolib.Prelude.Words.{ℤ}
use zendoo_sc_cryptolib.Primitives.{Primitives}
use zendoo_sc_cryptolib.Jni.Utils.{ByteHashes}
use zendoo_sc_cryptolib.Jni.{Handled, World, Jvm}
use zendoo_sc_cryptolib.Jni.Utils
use zendoo_sc_cryptolib.Jni.Invariant.{Outcome, made, CallKeeps}
use zendoo_sc_cryptolib.Jni.Invariant.Export.{exported, made-CallKeeps}
use zendoo_sc_cryptolib.Jni.Defined.{CallSafe}
use zendoo_sc_cryptolib.Jni.Defined.Packages.{packages}
use zendoo_sc_cryptolib.Jni.Defined.Calls.{made-CallSafe}

-- A call, with its arguments. `O` is the type of Java's objects.
pub data UtilsCall (O : Type 0) : Type 0 where
  calculate_sidechain_id : (tx_hash : O) (idx : ℤ) → UtilsCall O
  compressed_bitvector_merkle_root : (compressed_bit_vector : O) → UtilsCall O
  compressed_bitvector_merkle_root_with_size_check :
      (compressed_bit_vector : O) (expected_uncompressed_size : ℤ) → UtilsCall O

module _ (P : Primitives) (H : Handled P) (J : Jvm) (U : ByteHashes P) where
  -- What a call does.
  unfoldable pub run : UtilsCall J.JObject → World P H → Outcome × World P H
  run (calculate_sidechain_id tx_hash idx) =
      made (Utils.native_calculate_sidechain_id P H J U tx_hash idx)
  run (compressed_bitvector_merkle_root compressed_bit_vector) =
      made (Utils.native_compressed_bitvector_merkle_root P H J U compressed_bit_vector)
  run
        (compressed_bitvector_merkle_root_with_size_check compressed_bit_vector
          expected_uncompressed_size) =
      made (
        Utils.native_compressed_bitvector_merkle_root_with_size_check P H J U compressed_bit_vector
          expected_uncompressed_size)

  -- Each of the calls leads from a well-formed state to a next one.
  pub run-CallKeeps : {owned : ℕ} (c : UtilsCall J.JObject) → CallKeeps owned (run c)
  unfolding run Utils.native_calculate_sidechain_id Utils.native_compressed_bitvector_merkle_root
      Utils.native_compressed_bitvector_merkle_root_with_size_check
  run-CallKeeps (calculate_sidechain_id tx_hash idx) =
      made-CallKeeps (search (exported) depth 40 fits 4000)
  run-CallKeeps _ = made-CallKeeps (search (exported) depth 40 fits 4000)

  -- A call is defined if the handles are live.
  pub run-CallSafe : (c : UtilsCall J.JObject) → CallSafe J (λ w. Unit {0}) (run c)
  unfolding run Utils.native_calculate_sidechain_id Utils.native_compressed_bitvector_merkle_root
      Utils.native_compressed_bitvector_merkle_root_with_size_check
  run-CallSafe (calculate_sidechain_id tx_hash idx) =
      made-CallSafe P H J _ _ (search packages depth 40 fits 4000)
  run-CallSafe _ = made-CallSafe P H J _ _ (search packages depth 40 fits 4000)
