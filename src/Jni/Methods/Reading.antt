-- ===== src/Jni/Methods/Reading.antt =====
-- The exported functions of com.horizen.commitmenttree that read a tree in api/src/lib.rs, as the calls that Java
-- makes: what each leaves of the boxes.
use zendoo_sc_cryptolib.Prelude.{ℕ, ◌≢◌}
use zendoo_sc_cryptolib.Primitives.{Primitives}
use zendoo_sc_cryptolib.Jni.CommitmentTree.{Commitment}
use zendoo_sc_cryptolib.Jni.{Handled, World, Jvm}
use zendoo_sc_cryptolib.Jni.CommitmentTree.Reading
use zendoo_sc_cryptolib.Jni.Invariant.{Outcome, made, CallKeeps}
use zendoo_sc_cryptolib.Jni.Invariant.Export.{exported, made-CallKeeps}
use zendoo_sc_cryptolib.Jni.Invariant.Parts.{parts}
use zendoo_sc_cryptolib.Jni.Defined.{IsHandle, CallSafe}
use zendoo_sc_cryptolib.Jni.Defined.Packages.{packages}
use zendoo_sc_cryptolib.Jni.Defined.Calls.{made-CallSafe, given-CallSafe}
use zendoo_sc_cryptolib.Jni.Invariant.{an_existence_proof, an_absence_proof}

-- A call, with its arguments. `O` is the type of Java's objects.
pub data CommitmentReadingCall (O : Type 0) : Type 0 where
  get_sc_cr_commitment : (tree_object sc_id_bytes : O) → CommitmentReadingCall O
  get_fwt_commitment : (tree_object sc_id_bytes : O) → CommitmentReadingCall O
  btr_commitment : (tree_object sc_id_bytes : O) → CommitmentReadingCall O
  get_cert_commitment : (tree_object sc_id_bytes : O) → CommitmentReadingCall O
  get_csw_commitment : (tree_object sc_id_bytes : O) → CommitmentReadingCall O
  get_sc_commitment : (tree_object sc_id_bytes : O) → CommitmentReadingCall O
  get_commitment : (tree_object : O) → CommitmentReadingCall O
  get_sc_existence_proof : (tree_object sc_id_bytes : O) → CommitmentReadingCall O
  get_sc_absence_proof : (tree_object sc_id_bytes : O) → CommitmentReadingCall O
  serialize_existence : (obj : O) → CommitmentReadingCall O
  deserialize_existence : (obj : O) → CommitmentReadingCall O
  free_sc_existence_proof : (ptr : ℕ) → CommitmentReadingCall O
  serialize_absence : (obj : O) → CommitmentReadingCall O
  deserialize_absence : (obj : O) → CommitmentReadingCall O
  free_sc_absence_proof : (ptr : ℕ) → CommitmentReadingCall O
  verify_sc_commitment : (sc_commitment proof_object commitment : O) → CommitmentReadingCall O
  verify_sc_absence : (sc_id_bytes proof_object commitment : O) → CommitmentReadingCall O
  get_crt_leaves : (tree_object sc_id_bytes : O) → CommitmentReadingCall O

module _ (P : Primitives) (H : Handled P) (J : Jvm) (C : Commitment P H) where
  -- What a call does.
  unfoldable pub run : CommitmentReadingCall J.JObject → World P H → Outcome × World P H
  run (get_sc_cr_commitment tree_object sc_id_bytes) =
      made (Reading.native_get_sc_cr_commitment P H J C tree_object sc_id_bytes)
  run (get_fwt_commitment tree_object sc_id_bytes) =
      made (Reading.native_get_fwt_commitment P H J C tree_object sc_id_bytes)
  run (btr_commitment tree_object sc_id_bytes) =
      made (Reading.native_btr_commitment P H J C tree_object sc_id_bytes)
  run (get_cert_commitment tree_object sc_id_bytes) =
      made (Reading.native_get_cert_commitment P H J C tree_object sc_id_bytes)
  run (get_csw_commitment tree_object sc_id_bytes) =
      made (Reading.native_get_csw_commitment P H J C tree_object sc_id_bytes)
  run (get_sc_commitment tree_object sc_id_bytes) =
      made (Reading.native_get_sc_commitment P H J C tree_object sc_id_bytes)
  run (get_commitment tree_object) = made (Reading.native_get_commitment P H J C tree_object)
  run (get_sc_existence_proof tree_object sc_id_bytes) =
      made (Reading.native_get_sc_existence_proof P H J C tree_object sc_id_bytes)
  run (get_sc_absence_proof tree_object sc_id_bytes) =
      made (Reading.native_get_sc_absence_proof P H J C tree_object sc_id_bytes)
  run (serialize_existence obj) = made (Reading.native_serialize_existence P H J C obj)
  run (deserialize_existence obj) = made (Reading.native_deserialize_existence P H J C obj)
  run (free_sc_existence_proof ptr) = made (Reading.native_free_sc_existence_proof P H J C ptr)
  run (serialize_absence obj) = made (Reading.native_serialize_absence P H J C obj)
  run (deserialize_absence obj) = made (Reading.native_deserialize_absence P H J C obj)
  run (free_sc_absence_proof ptr) = made (Reading.native_free_sc_absence_proof P H J C ptr)
  run (verify_sc_commitment sc_commitment proof_object commitment) =
      made (Reading.native_verify_sc_commitment P H J C sc_commitment proof_object commitment)
  run (verify_sc_absence sc_id_bytes proof_object commitment) =
      made (Reading.native_verify_sc_absence P H J C sc_id_bytes proof_object commitment)
  run (get_crt_leaves tree_object sc_id_bytes) =
      made (Reading.native_get_crt_leaves P H J C tree_object sc_id_bytes)

  -- That a call does not free the address `owned`.
  abbrev pub Spares : CommitmentReadingCall J.JObject → (owned : ℕ) → Type 0
  Spares (free_sc_existence_proof ptr) owned = ptr ≢ owned
  Spares (free_sc_absence_proof ptr) owned = ptr ≢ owned
  Spares _ owned = Unit {0}

  -- Each of the calls leads from a well-formed state to a next one.
  pub run-CallKeeps :
      {owned : ℕ} (c : CommitmentReadingCall J.JObject) → Spares c owned → CallKeeps owned (run c)
  unfolding run Reading.native_get_sc_cr_commitment Reading.native_get_fwt_commitment
      Reading.native_btr_commitment Reading.native_get_cert_commitment
      Reading.native_get_csw_commitment Reading.native_get_sc_commitment
      Reading.native_get_commitment Reading.native_get_sc_existence_proof
      Reading.native_get_sc_absence_proof Reading.native_serialize_existence
      Reading.native_deserialize_existence Reading.native_free_sc_existence_proof
      Reading.native_serialize_absence Reading.native_deserialize_absence
      Reading.native_free_sc_absence_proof Reading.native_verify_sc_commitment
      Reading.native_verify_sc_absence Reading.native_get_crt_leaves
  run-CallKeeps (get_sc_cr_commitment tree_object sc_id_bytes) s =
      made-CallKeeps (search (exported, parts) depth 40 fits 4000)
  run-CallKeeps _ s = made-CallKeeps (search (exported, parts) depth 40 fits 4000)

  -- The addresses that a call is given itself.
  abbrev pub Given : CommitmentReadingCall J.JObject → World P H → Type 0
  Given (free_sc_existence_proof ptr) w = IsHandle w an_existence_proof ptr
  Given (free_sc_absence_proof ptr) w = IsHandle w an_absence_proof ptr
  Given _ w = Unit {0}

  -- A call is defined if the handles are live, and an address that it is given too.
  pub run-CallSafe : (c : CommitmentReadingCall J.JObject) → CallSafe J (Given c) (run c)
  unfolding run Reading.native_get_sc_cr_commitment Reading.native_get_fwt_commitment
      Reading.native_btr_commitment Reading.native_get_cert_commitment
      Reading.native_get_csw_commitment Reading.native_get_sc_commitment
      Reading.native_get_commitment Reading.native_get_sc_existence_proof
      Reading.native_get_sc_absence_proof Reading.native_serialize_existence
      Reading.native_deserialize_existence Reading.native_free_sc_existence_proof
      Reading.native_serialize_absence Reading.native_deserialize_absence
      Reading.native_free_sc_absence_proof Reading.native_verify_sc_commitment
      Reading.native_verify_sc_absence Reading.native_get_crt_leaves
  run-CallSafe (free_sc_existence_proof ptr) =
      given-CallSafe P H J tt _ an_existence_proof ptr (search packages)
  run-CallSafe (free_sc_absence_proof ptr) =
      given-CallSafe P H J tt _ an_absence_proof ptr (search packages)
  run-CallSafe _ = made-CallSafe P H J _ _ (search packages depth 40 fits 4000)
