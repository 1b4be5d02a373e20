-- ===== src/Jni/Methods/MerklePath.antt =====
-- The exported functions of com.horizen.merkletreenative.MerklePath in api/src/lib.rs, as the calls that Java
-- makes: what each leaves of the boxes.
use zendoo_sc_cryptolib.Prelude.{ℕ, ◌≢◌}
use zendoo_sc_cryptolib.Prelude.Words.{ℤ}
use zendoo_sc_cryptolib.Primitives.{Primitives}
use zendoo_sc_cryptolib.Jni.{Handled, World, Jvm}
use zendoo_sc_cryptolib.Jni.MerklePath
use zendoo_sc_cryptolib.Jni.Invariant.{Outcome, made, CallKeeps}
use zendoo_sc_cryptolib.Jni.Invariant.Export.{exported, made-CallKeeps}
use zendoo_sc_cryptolib.Jni.Defined.{IsHandle, CallSafe}
use zendoo_sc_cryptolib.Jni.Defined.Packages.{packages}
use zendoo_sc_cryptolib.Jni.Defined.Calls.{made-CallSafe, given-CallSafe}
use zendoo_sc_cryptolib.Jni.Invariant.{a_merkle_path}

-- A call, with its arguments. `O` is the type of Java's objects.
pub data MerklePathCall (O : Type 0) : Type 0 where
  verify : (path_object : O) (height : ℤ) (leaf_object root_object : O) → MerklePathCall O
  verify_without_length_check : (path_object leaf_object root_object : O) → MerklePathCall O
  apply : (path_object leaf_object : O) → MerklePathCall O
  is_leftmost : (obj : O) → MerklePathCall O
  is_rightmost : (obj : O) → MerklePathCall O
  are_right_leaves_empty : (obj : O) → MerklePathCall O
  leaf_index : (obj : O) → MerklePathCall O
  serialize : (obj : O) → MerklePathCall O
  deserialize : (bytes : O) (check : ℕ) → MerklePathCall O
  free_merkle_path : (ptr : ℕ) → MerklePathCall O

module _ (P : Primitives) (H : Handled P) (J : Jvm) where
  -- What a call does.
  unfoldable pub run : MerklePathCall J.JObject → World P H → Outcome × World P H
  run (verify path_object height leaf_object root_object) =
      made (MerklePath.native_verify P H J path_object height leaf_object root_object)
  run (verify_without_length_check path_object leaf_object root_object) =
      made (MerklePath.native_verify_without_length_check P H J path_object leaf_object root_object)
  run (apply path_object leaf_object) = made (MerklePath.native_apply P H J path_object leaf_object)
  run (is_leftmost obj) = made (MerklePath.native_is_leftmost P H J obj)
  run (is_rightmost obj) = made (MerklePath.native_is_rightmost P H J obj)
  run (are_right_leaves_empty obj) = made (MerklePath.native_are_right_leaves_empty P H J obj)
  run (leaf_index obj) = made (MerklePath.native_leaf_index P H J obj)
  run (serialize obj) = made (MerklePath.native_serialize P H J obj)
  run (deserialize bytes check) = made (MerklePath.native_deserialize P H J bytes check)
  run (free_merkle_path ptr) = made (MerklePath.native_free_merkle_path P H J ptr)

  -- That a call does not free the address `owned`.
  abbrev pub Spares : MerklePathCall J.JObject → (owned : ℕ) → Type 0
  Spares (free_merkle_path ptr) owned = ptr ≢ owned
  Spares _ owned = Unit {0}

  -- Each of the calls leads from a well-formed state to a next one.
  pub run-CallKeeps :
      {owned : ℕ} (c : MerklePathCall J.JObject) → Spares c owned → CallKeeps owned (run c)
  unfolding run MerklePath.native_verify MerklePath.native_verify_without_length_check
      MerklePath.native_apply MerklePath.native_is_leftmost MerklePath.native_is_rightmost
      MerklePath.native_are_right_leaves_empty MerklePath.native_leaf_index
      MerklePath.native_serialize MerklePath.native_deserialize MerklePath.native_free_merkle_path
  run-CallKeeps (verify path_object height leaf_object root_object) s =
      made-CallKeeps (search (exported) depth 40 fits 4000)
  run-CallKeeps _ s = made-CallKeeps (search (exported) depth 40 fits 4000)

  -- The addresses that a call is given itself.
  abbrev pub Given : MerklePathCall J.JObject → World P H → Type 0
  Given (free_merkle_path ptr) w = IsHandle w a_merkle_path ptr
  Given _ w = Unit {0}

  -- A call is defined if the handles are live, and an address that it is given too.
  pub run-CallSafe : (c : MerklePathCall J.JObject) → CallSafe J (Given c) (run c)
  unfolding run MerklePath.native_verify MerklePath.native_verify_without_length_check
      MerklePath.native_apply MerklePath.native_is_leftmost MerklePath.native_is_rightmost
      MerklePath.native_are_right_leaves_empty MerklePath.native_leaf_index
      MerklePath.native_serialize MerklePath.native_deserialize MerklePath.native_free_merkle_path
  run-CallSafe (free_merkle_path ptr) =
      given-CallSafe P H J tt _ a_merkle_path ptr (search packages)
  run-CallSafe _ = made-CallSafe P H J _ _ (search packages depth 40 fits 4000)
