-- ===== src/Jni/Session/Defined.antt =====
-- Memory safety of the exported functions of api/src/lib.rs: a call reads and frees only boxes that are
-- there, if Java's handles are live.
use zendoo_sc_cryptolib.Prelude.{◌≢◌}
use zendoo_sc_cryptolib.Primitives.{Primitives}
use zendoo_sc_cryptolib.Jni.{Handled, World, Jvm}
use zendoo_sc_cryptolib.Jni.Invariant.{undefined}
use zendoo_sc_cryptolib.Jni.Defined.{HandlesLive, CallSafe}
use zendoo_sc_cryptolib.Jni.Session.{
  Libraries, CallOf, run, on_field_element, on_schnorr, on_vrf, on_poseidon, on_merkle_path,
  on_merkle_tree, on_sig_proof, on_proving_system, on_commitment_adding, on_commitment_reading,
  on_utils,
}
use zendoo_sc_cryptolib.Jni.Methods

module _ (P : Primitives) (H : Handled P) (L : Libraries P H) where
  -- The address that a call is given itself is null or that of a box of its type. Only the calls that
  -- free a box by its address are given one.
  abbrev pub Given : (J : Jvm) → CallOf L J → World P H → Type 0
  Given J (on_field_element c) w = Methods.FieldElement.Given P H J L.sizes c w
  Given J (on_schnorr c) w = Methods.Schnorr.Given P H J L.sizes c w
  Given J (on_vrf c) w = Methods.Vrf.Given P H J L.sizes c w
  Given J (on_merkle_path c) w = Methods.MerklePath.Given P H J c w
  Given J (on_merkle_tree c) w = Methods.MerkleTree.Given P H J c w
  Given J (on_commitment_adding c) w = Methods.Adding.Given P H J L.commitment c w
  Given J (on_commitment_reading c) w = Methods.Reading.Given P H J L.commitment c w
  Given J _ w = Unit {0}

  run-CallSafe : (J : Jvm) (c : CallOf L J) → CallSafe J (Given J c) (run P H L J c)
  unfolding run
  run-CallSafe J (on_field_element c) = Methods.FieldElement.run-CallSafe P H J L.sizes c
  run-CallSafe J (on_schnorr c) = Methods.Schnorr.run-CallSafe P H J L.sizes c
  run-CallSafe J (on_vrf c) = Methods.Vrf.run-CallSafe P H J L.sizes c
  run-CallSafe J (on_poseidon c) = Methods.Poseidon.run-CallSafe P H J L.sizes c
  run-CallSafe J (on_merkle_path c) = Methods.MerklePath.run-CallSafe P H J c
  run-CallSafe J (on_merkle_tree c) = Methods.MerkleTree.run-CallSafe P H J c
  run-CallSafe J (on_sig_proof c) =
      Methods.SigProof.run-CallSafe P H J L.backend L.overflow_checks c
  run-CallSafe J (on_proving_system c) = Methods.ProvingSystem.run-CallSafe P H J L.backend c
  run-CallSafe J (on_commitment_adding c) = Methods.Adding.run-CallSafe P H J L.commitment c
  run-CallSafe J (on_commitment_reading c) = Methods.Reading.run-CallSafe P H J L.commitment c
  run-CallSafe J (on_utils c) = Methods.Utils.run-CallSafe P H J L.byte_hashes c

  -- No exported function reads or frees a box that is not there or is of another type, whatever the
  -- machine and the libraries answer and however the call ends, if each address in a Java object is
  -- null or that of a box of the object's type, and so is an address that the function is given itself.
  pub run-ne-undefined :
      (J : Jvm) (c : CallOf L J) (w : World P H)
      → HandlesLive J w
      → Given J c w
      → (run P H L J c w).0 ≢ undefined
  run-ne-undefined J c w live given = (run-CallSafe J c).at w live given
