-- ===== src/Jni/Methods/Adding.antt =====
-- The exported functions of com.horizen.commitmenttree that add to a tree in api/src/lib.rs, as the calls that Java
-- makes: what each leaves of the boxes.
use zendoo_sc_cryptolib.Prelude.{ℕ, ◌≢◌}
use zendoo_sc_cryptolib.Prelude.Words.{ℤ}
use zendoo_sc_cryptolib.Primitives.{Primitives}
use zendoo_sc_cryptolib.Jni.CommitmentTree.{Commitment}
use zendoo_sc_cryptolib.Jni.{Handled, World, Jvm}
use zendoo_sc_cryptolib.Jni.CommitmentTree.Adding
use zendoo_sc_cryptolib.Jni.Invariant.{Outcome, made, CallKeeps}
use zendoo_sc_cryptolib.Jni.Invariant.Export.{exported, made-CallKeeps}
use zendoo_sc_cryptolib.Jni.Invariant.Parts.{parts}
use zendoo_sc_cryptolib.Jni.Defined.{IsHandle, CallSafe}
use zendoo_sc_cryptolib.Jni.Defined.Packages.{packages}
use zendoo_sc_cryptolib.Jni.Defined.Calls.{made-CallSafe, given-CallSafe}
use zendoo_sc_cryptolib.Jni.Invariant.{a_commitment_tree}

-- A call, with its arguments. `O` is the type of Java's objects.
pub data CommitmentAddingCall (O : Type 0) : Type 0 where
  init : (class : O) → CommitmentAddingCall O
  free_commitment_tree : (ptr : ℕ) → CommitmentAddingCall O
  add_sc_cr :
      (tree_object sc_id_bytes : O) (amount : ℤ) (pub_key_bytes tx_hash_bytes : O)
      (out_idx withdrawal_epoch_length mc_btr_request_data_length : ℤ)
      (field_configs bitvector_configs : O) (btr_fee ft_min_amount : ℤ)
      (creation_data constant_nullable cert_key csw_key_nullable : O)
      → CommitmentAddingCall O
  add_fwt :
      (tree_object sc_id_bytes : O) (amount : ℤ)
      (pub_key_bytes mc_return_address_bytes tx_hash_bytes : O) (out_idx : ℤ)
      → CommitmentAddingCall O
  add_btr :
      (tree_object sc_id_bytes : O) (sc_fee : ℤ)
      (mc_destination_address_bytes sc_request_data_array tx_hash_bytes : O) (out_idx : ℤ)
      → CommitmentAddingCall O
  add_cert :
      (tree_object sc_id_bytes : O) (epoch_number quality : ℤ)
      (bt_array custom_fields_nullable root_bytes : O) (btr_fee ft_min_amount : ℤ)
      → CommitmentAddingCall O
  add_cert_leaf : (tree_object sc_id_bytes leaf_bytes : O) → CommitmentAddingCall O
  add_csw :
      (tree_object sc_id_bytes : O) (amount : ℤ) (nullifier_bytes mc_pk_hash_bytes : O)
      → CommitmentAddingCall O

module _ (P : Primitives) (H : Handled P) (J : Jvm) (C : Commitment P H) where
  -- What a call does.
  unfoldable pub run : CommitmentAddingCall J.JObject → World P H → Outcome × World P H
  run (init class) = made (Adding.native_init P H J C class)
  run (free_commitment_tree ptr) = made (Adding.native_free_commitment_tree P H J C ptr)
  run
        (add_sc_cr tree_object sc_id_bytes amount pub_key_bytes tx_hash_bytes out_idx
          withdrawal_epoch_length mc_btr_request_data_length field_configs bitvector_configs btr_fee
          ft_min_amount creation_data constant_nullable cert_key csw_key_nullable) =
      made (
        Adding.native_add_sc_cr P H J C tree_object sc_id_bytes amount pub_key_bytes tx_hash_bytes
          out_idx withdrawal_epoch_length mc_btr_request_data_length field_configs bitvector_configs
          btr_fee ft_min_amount creation_data constant_nullable cert_key csw_key_nullable)
  run
        (add_fwt tree_object sc_id_bytes amount pub_key_bytes mc_return_address_bytes tx_hash_bytes
          out_idx) =
      made (
        Adding.native_add_fwt P H J C tree_object sc_id_bytes amount pub_key_bytes
          mc_return_address_bytes tx_hash_bytes out_idx)
  run
        (add_btr tree_object sc_id_bytes sc_fee mc_destination_address_bytes sc_request_data_array
          tx_hash_bytes out_idx) =
      made (
        Adding.native_add_btr P H J C tree_object sc_id_bytes sc_fee mc_destination_address_bytes
          sc_request_data_array tx_hash_bytes out_idx)
  run
        (add_cert tree_object sc_id_bytes epoch_number quality bt_array custom_fields_nullable
          root_bytes btr_fee ft_min_amount) =
      made (
        Adding.native_add_cert P H J C tree_object sc_id_bytes epoch_number quality bt_array
          custom_fields_nullable root_bytes btr_fee ft_min_amount)
  run (add_cert_leaf tree_object sc_id_bytes leaf_bytes) =
      made (Adding.native_add_cert_leaf P H J C tree_object sc_id_bytes leaf_bytes)
  run (add_csw tree_object sc_id_bytes amount nullifier_bytes mc_pk_hash_bytes) = made (
      Adding.native_add_csw P H J C tree_object sc_id_bytes amount nullifier_bytes mc_pk_hash_bytes)

  -- That a call does not free the address `owned`.
  abbrev pub Spares : CommitmentAddingCall J.JObject → (owned : ℕ) → Type 0
  Spares (free_commitment_tree ptr) owned = ptr ≢ owned
  Spares _ owned = Unit {0}

  -- Each of the calls leads from a well-formed state to a next one.
  pub run-CallKeeps :
      {owned : ℕ} (c : CommitmentAddingCall J.JObject) → Spares c owned → CallKeeps owned (run c)
  unfolding run Adding.native_init Adding.native_free_commitment_tree Adding.native_add_sc_cr
      Adding.native_add_fwt Adding.native_add_btr Adding.native_add_cert Adding.native_add_cert_leaf
      Adding.native_add_csw
  run-CallKeeps (init class) s = made-CallKeeps (search (exported, parts) depth 40 fits 4000)
  run-CallKeeps _ s = made-CallKeeps (search (exported, parts) depth 40 fits 4000)

  -- The addresses that a call is given itself.
  abbrev pub Given : CommitmentAddingCall J.JObject → World P H → Type 0
  Given (free_commitment_tree ptr) w = IsHandle w a_commitment_tree ptr
  Given _ w = Unit {0}

  -- A call is defined if the handles are live, and an address that it is given too.
  pub run-CallSafe : (c : CommitmentAddingCall J.JObject) → CallSafe J (Given c) (run c)
  unfolding run Adding.native_init Adding.native_free_commitment_tree Adding.native_add_sc_cr
      Adding.native_add_fwt Adding.native_add_btr Adding.native_add_cert Adding.native_add_cert_leaf
      Adding.native_add_csw
  run-CallSafe (free_commitment_tree ptr) =
      given-CallSafe P H J tt _ a_commitment_tree ptr (search packages)
  run-CallSafe _ = made-CallSafe P H J _ _ (search packages depth 40 fits 4000)
