-- ===== src/Jni/Session/Handles.antt =====
-- Java's handles over whole sessions of calls of api/src/lib.rs: the boxes behind them stay.
use zendoo_sc_cryptolib.Prelude.{ℕ, ◌<◌, ◌≡◌, ◌≢◌, refl, ◌∙◌, inl, inr, none}
use zendoo_sc_cryptolib.Prelude.Words.{ℤ, as_u64}
use zendoo_sc_cryptolib.Primitives.{Primitives}
use zendoo_sc_cryptolib.Jni.{Handled, World, Jvm, value}
use zendoo_sc_cryptolib.Jni.Invariant.{Kind, undefined, IsWellFormed, IsNext, CallKeeps}
use zendoo_sc_cryptolib.Jni.Invariant.Rules.{Same-IsNext, IsNext-trans, some_kind-bounds}
use zendoo_sc_cryptolib.Jni.Defined.{field_of, IsHandle, HandlesLive}
use zendoo_sc_cryptolib.Jni.Session.{
  Libraries, CallOf, run, Spares, Session, begun, called, caught, on_field_element, on_schnorr,
  on_vrf, on_poseidon, on_merkle_path, on_merkle_tree, on_sig_proof, on_proving_system,
  on_commitment_adding, on_commitment_reading, on_utils,
}
use zendoo_sc_cryptolib.Jni.Session.Defined.{Given, run-ne-undefined}
use zendoo_sc_cryptolib.Jni.Methods

module _ (P : Primitives) (H : Handled P) (L : Libraries P H) where
  run-CallKeeps :
      {owned : ℕ} (J : Jvm) (c : CallOf L J)
      → Spares P H L J c owned
      → CallKeeps owned (run P H L J c)
  unfolding run
  run-CallKeeps J (on_field_element c) s = Methods.FieldElement.run-CallKeeps P H J L.sizes c s
  run-CallKeeps J (on_schnorr c) s = Methods.Schnorr.run-CallKeeps P H J L.sizes c s
  run-CallKeeps J (on_vrf c) s = Methods.Vrf.run-CallKeeps P H J L.sizes c s
  run-CallKeeps J (on_poseidon c) s = Methods.Poseidon.run-CallKeeps P H J L.sizes c s
  run-CallKeeps J (on_merkle_path c) s = Methods.MerklePath.run-CallKeeps P H J c s
  run-CallKeeps J (on_merkle_tree c) s = Methods.MerkleTree.run-CallKeeps P H J c s
  run-CallKeeps J (on_sig_proof c) s =
      Methods.SigProof.run-CallKeeps P H J L.backend L.overflow_checks c
  run-CallKeeps J (on_proving_system c) s = Methods.ProvingSystem.run-CallKeeps P H J L.backend c
  run-CallKeeps J (on_commitment_adding c) s = Methods.Adding.run-CallKeeps P H J L.commitment c s
  run-CallKeeps J (on_commitment_reading c) s = Methods.Reading.run-CallKeeps P H J L.commitment c s
  run-CallKeeps J (on_utils c) s = Methods.Utils.run-CallKeeps P H J L.byte_hashes c

  -- A session keeps the state well formed, and the type of a box whose address an object holds.
  Session-IsNext :
      {J : Jvm} {w v : World P H} (k : Kind) (o : J.JObject) (j : ℤ)
      → J.get_long o (field_of k) ≡ value j
      → 0 < as_u64 j
      → IsWellFormed w
      → Session P H L J w v
      → IsNext (as_u64 j) w v
  Session-IsNext {w = w} k o j e h0 h begun = Same-IsNext w w h (refl, refl)
  Session-IsNext {w = w} k o j e h0 h (called {v = v} s J' c finished spares) =
      let n = Session-IsNext k o j e h0 h s in
      IsNext-trans w v (run P H L J' c v).1 n
        ((run-CallKeeps J' c (spares k o j e h0)).at v n.well_formed)
  Session-IsNext {w = w} k o j e h0 h (caught {v = v} s) =
      let n = Session-IsNext k o j e h0 h s in
      IsNext-trans w v (record v { pending = none }) n
        (Same-IsNext v (record v { pending = none }) n.well_formed (refl, refl))

  Session-IsHandle :
      {J : Jvm} {w v : World P H} (k : Kind) (o : J.JObject) (j : ℤ)
      → J.get_long o (field_of k) ≡ value j
      → IsWellFormed w
      → Session P H L J w v
      → IsHandle w k (as_u64 j)
      → IsHandle v k (as_u64 j)
  Session-IsHandle k o j e h s (inl zero) = inl zero
  Session-IsHandle {w = w} k o j e h s (inr at_p) =
      let (h0, hp) = some_kind-bounds w (as_u64 j) k h at_p in
      inr ((Session-IsNext k o j e h0 h s).follows.stays hp ∙ at_p)

  -- Java's handles stay live, and its calls defined. Let each address in an object of the machine `J` be
  -- null or that of a box of the object's type, in a state without a box at null or at an address that
  -- was not given out. Then after any session that frees none of these addresses, whatever functions it
  -- calls with whatever arguments and machines, this holds of the addresses again, and the next call
  -- with `J` is defined, if an address that it is given itself is null or that of a box of its type.
  pub Session-HandlesLive :
      {w v : World P H} (J : Jvm) (c : CallOf L J)
      → IsWellFormed w
      → HandlesLive J w
      → Session P H L J w v
      → Given P H L J c v
      → HandlesLive J v × ((run P H L J c v).0 ≢ undefined)
  Session-HandlesLive {w} {v} J c h live s given =
      let now : HandlesLive J v = record {
        at = λ k o j e. Session-IsHandle k o j e h s (live.at k o j e);
      } in
      (now, run-ne-undefined P H L J c v now given)
