-- ===== src/Jni/Session.antt =====
-- What Java can do with the library of api/src/lib.rs: any of its exported functions, in any order and
-- with any arguments. A session is such a sequence of calls that leaves some of Java's objects alone.
-- Each call may see another state of the Java machine, and between two calls Java may handle the
-- pending exception.
pub mod Handles
pub mod Defined
use zendoo_sc_cryptolib.Prelude.{◌<◌}
use zendoo_sc_cryptolib.Prelude.Words.{ℤ, as_u64}
use zendoo_sc_cryptolib.Jni.{value}
use zendoo_sc_cryptolib.Jni.Invariant.{Kind}
use zendoo_sc_cryptolib.Jni.Defined.{field_of}
use zendoo_sc_cryptolib.Prelude.{ℕ, ◌<◌, ◌≡◌, Bool, none}
use zendoo_sc_cryptolib.Primitives.{Primitives}
use zendoo_sc_cryptolib.Primitives.Sizes.{ByteSizes}
use zendoo_sc_cryptolib.Calls.Backend.{Backend}
use zendoo_sc_cryptolib.Jni.{Handled, World, Jvm}
use zendoo_sc_cryptolib.Jni.CommitmentTree.{Commitment}
use zendoo_sc_cryptolib.Jni.Utils.{ByteHashes}
use zendoo_sc_cryptolib.Jni.Invariant.{Outcome, finished}
use zendoo_sc_cryptolib.Jni.Methods
use zendoo_sc_cryptolib.Jni.Methods.FieldElement.{FieldElementCall}
use zendoo_sc_cryptolib.Jni.Methods.Schnorr.{SchnorrCall}
use zendoo_sc_cryptolib.Jni.Methods.Vrf.{VrfCall}
use zendoo_sc_cryptolib.Jni.Methods.Poseidon.{PoseidonCall}
use zendoo_sc_cryptolib.Jni.Methods.MerklePath.{MerklePathCall}
use zendoo_sc_cryptolib.Jni.Methods.MerkleTree.{MerkleTreeCall}
use zendoo_sc_cryptolib.Jni.Methods.SigProof.{SigProofCall}
use zendoo_sc_cryptolib.Jni.Methods.ProvingSystem.{ProvingSystemCall}
use zendoo_sc_cryptolib.Jni.Methods.Adding.{CommitmentAddingCall}
use zendoo_sc_cryptolib.Jni.Methods.Reading.{CommitmentReadingCall}
use zendoo_sc_cryptolib.Jni.Methods.Utils.{UtilsCall}

-- A call of the library, by its package or class.
pub data JavaCall (O Files : Type 0) : Type 0 where
  on_field_element : FieldElementCall O → JavaCall O Files
  on_schnorr : SchnorrCall O → JavaCall O Files
  on_vrf : VrfCall O → JavaCall O Files
  on_poseidon : PoseidonCall O → JavaCall O Files
  on_merkle_path : MerklePathCall O → JavaCall O Files
  on_merkle_tree : MerkleTreeCall O → JavaCall O Files
  on_sig_proof : SigProofCall O → JavaCall O Files
  on_proving_system : ProvingSystemCall O Files → JavaCall O Files
  on_commitment_adding : CommitmentAddingCall O → JavaCall O Files
  on_commitment_reading : CommitmentReadingCall O → JavaCall O Files
  on_utils : UtilsCall O → JavaCall O Files

-- The libraries that the calls stand on, and how the code was compiled.
pub record Libraries (P : Primitives) (H : Handled P) : Type 1 where
  pub sizes : ByteSizes
  pub byte_hashes : ByteHashes P
  pub commitment : Commitment P H
  pub backend : Backend P
  pub overflow_checks : Bool

abbrev pub CallOf : {P : Primitives} {H : Handled P} → Libraries P H → Jvm → Type 0
CallOf L J = JavaCall J.JObject L.backend.Files

module _ (P : Primitives) (H : Handled P) (L : Libraries P H) where
  -- What a call does.
  unfoldable pub run : (J : Jvm) → CallOf L J → World P H → Outcome × World P H
  run J (on_field_element c) = Methods.FieldElement.run P H J L.sizes c
  run J (on_schnorr c) = Methods.Schnorr.run P H J L.sizes c
  run J (on_vrf c) = Methods.Vrf.run P H J L.sizes c
  run J (on_poseidon c) = Methods.Poseidon.run P H J L.sizes c
  run J (on_merkle_path c) = Methods.MerklePath.run P H J c
  run J (on_merkle_tree c) = Methods.MerkleTree.run P H J c
  run J (on_sig_proof c) = Methods.SigProof.run P H J L.backend L.overflow_checks c
  run J (on_proving_system c) = Methods.ProvingSystem.run P H J L.backend c
  run J (on_commitment_adding c) = Methods.Adding.run P H J L.commitment c
  run J (on_commitment_reading c) = Methods.Reading.run P H J L.commitment c
  run J (on_utils c) = Methods.Utils.run P H J L.byte_hashes c

  -- That a call does not free the address `owned`.
  abbrev pub Spares : (J : Jvm) → CallOf L J → (owned : ℕ) → Type 0
  Spares J (on_field_element c) owned = Methods.FieldElement.Spares P H J L.sizes c owned
  Spares J (on_schnorr c) owned = Methods.Schnorr.Spares P H J L.sizes c owned
  Spares J (on_vrf c) owned = Methods.Vrf.Spares P H J L.sizes c owned
  Spares J (on_poseidon c) owned = Methods.Poseidon.Spares P H J L.sizes c owned
  Spares J (on_merkle_path c) owned = Methods.MerklePath.Spares P H J c owned
  Spares J (on_merkle_tree c) owned = Methods.MerkleTree.Spares P H J c owned
  Spares J (on_commitment_adding c) owned = Methods.Adding.Spares P H J L.commitment c owned
  Spares J (on_commitment_reading c) owned = Methods.Reading.Spares P H J L.commitment c owned
  Spares J _ owned = Unit {0}

  -- The states that Java can reach from `w` without freeing an address that an object of the machine
  -- `J` holds. Each call has a machine of its own, with the objects that Java has then. A call that
  -- aborts the process, or that is not defined, is the last one.
  pub data Session (J : Jvm) (w : World P H) : World P H → Type 1 where
    begun : Session J w w
    called :
        {v : World P H}
        → Session J w v
        → (J' : Jvm) (c : CallOf L J') → (run J' c v).0 ≡ finished
        → ((k : Kind) (o : J.JObject) (j : ℤ)
            → J.get_long o (field_of k) ≡ value j
            → 0 < as_u64 j
            → Spares J' c (as_u64 j))
        → Session J w (run J' c v).1
    caught : {v : World P H} → Session J w v → Session J w (record v { pending = none })
