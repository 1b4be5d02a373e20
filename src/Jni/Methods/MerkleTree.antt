-- ===== src/Jni/Methods/MerkleTree.antt =====
-- The exported functions of com.horizen.merkletreenative.InMemoryOptimizedMerkleTree in api/src/lib.rs, as the calls that Java
-- makes: what each leaves of the boxes.
use zendoo_sc_cryptolib.Prelude.{ℕ, ◌≢◌}
use zendoo_sc_cryptolib.Prelude.Words.{ℤ}
use zendoo_sc_cryptolib.Primitives.{Primitives}
use zendoo_sc_cryptolib.Jni.{Handled, World, Jvm}
use zendoo_sc_cryptolib.Jni.MerkleTree
use zendoo_sc_cryptolib.Jni.Invariant.{Outcome, made, CallKeeps}
use zendoo_sc_cryptolib.Jni.Invariant.Export.{exported, made-CallKeeps}
use zendoo_sc_cryptolib.Jni.Invariant.Parts.{parts}
use zendoo_sc_cryptolib.Jni.Defined.{IsHandle, CallSafe}
use zendoo_sc_cryptolib.Jni.Defined.Packages.{packages}
use zendoo_sc_cryptolib.Jni.Defined.Calls.{made-CallSafe, given-CallSafe}
use zendoo_sc_cryptolib.Jni.Invariant.{a_merkle_tree}

-- A call, with its arguments. `O` is the type of Java's objects.
pub data MerkleTreeCall (O : Type 0) : Type 0 where
  init : (height processing_step : ℤ) → MerkleTreeCall O
  append : (tree_object leaf_object : O) → MerkleTreeCall O
  finalize : (obj : O) → MerkleTreeCall O
  finalize_in_place : (obj : O) → MerkleTreeCall O
  root : (obj : O) → MerkleTreeCall O
  get_merkle_path : (obj : O) (leaf_index : ℤ) → MerkleTreeCall O
  reset : (obj : O) → MerkleTreeCall O
  free_in_memory_optimized_merkle_tree : (ptr : ℕ) → MerkleTreeCall O

module _ (P : Primitives) (H : Handled P) (J : Jvm) where
  -- What a call does.
  unfoldable pub run : MerkleTreeCall J.JObject → World P H → Outcome × World P H
  run (init height processing_step) = made (MerkleTree.native_init P H J height processing_step)
  run (append tree_object leaf_object) =
      made (MerkleTree.native_append P H J tree_object leaf_object)
  run (finalize obj) = made (MerkleTree.native_finalize P H J obj)
  run (finalize_in_place obj) = made (MerkleTree.native_finalize_in_place P H J obj)
  run (root obj) = made (MerkleTree.native_root P H J obj)
  run (get_merkle_path obj leaf_index) =
      made (MerkleTree.native_get_merkle_path P H J obj leaf_index)
  run (reset obj) = made (MerkleTree.native_reset P H J obj)
  run (free_in_memory_optimized_merkle_tree ptr) =
      made (MerkleTree.native_free_in_memory_optimized_merkle_tree P H J ptr)

  -- That a call does not free the address `owned`.
  abbrev pub Spares : MerkleTreeCall J.JObject → (owned : ℕ) → Type 0
  Spares (free_in_memory_optimized_merkle_tree ptr) owned = ptr ≢ owned
  Spares _ owned = Unit {0}

  -- Each of the calls leads from a well-formed state to a next one.
  pub run-CallKeeps :
      {owned : ℕ} (c : MerkleTreeCall J.JObject) → Spares c owned → CallKeeps owned (run c)
  unfolding run MerkleTree.native_init MerkleTree.native_append MerkleTree.native_finalize
      MerkleTree.native_finalize_in_place MerkleTree.native_root MerkleTree.native_get_merkle_path
      MerkleTree.native_reset MerkleTree.native_free_in_memory_optimized_merkle_tree
  run-CallKeeps (init height processing_step) s =
      made-CallKeeps (search (exported, parts) depth 40 fits 4000)
  run-CallKeeps _ s = made-CallKeeps (search (exported, parts) depth 40 fits 4000)

  -- The addresses that a call is given itself.
  abbrev pub Given : MerkleTreeCall J.JObject → World P H → Type 0
  Given (free_in_memory_optimized_merkle_tree ptr) w = IsHandle w a_merkle_tree ptr
  Given _ w = Unit {0}

  -- A call is defined if the handles are live, and an address that it is given too.
  pub run-CallSafe : (c : MerkleTreeCall J.JObject) → CallSafe J (Given c) (run c)
  unfolding run MerkleTree.native_init MerkleTree.native_append MerkleTree.native_finalize
      MerkleTree.native_finalize_in_place MerkleTree.native_root MerkleTree.native_get_merkle_path
      MerkleTree.native_reset MerkleTree.native_free_in_memory_optimized_merkle_tree
  run-CallSafe (free_in_memory_optimized_merkle_tree ptr) =
      given-CallSafe P H J tt _ a_merkle_tree ptr (search packages)
  run-CallSafe _ = made-CallSafe P H J _ _ (search packages depth 40 fits 4000)
