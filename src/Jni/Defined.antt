-- ===== src/Jni/Defined.antt =====
-- When a native method of api/src/lib.rs has a defined behaviour: the handles that Java passes, and what
-- is read and freed through them.
pub mod Rules
pub mod Fields
pub mod Parts
pub mod Packages
pub mod Calls
use zendoo_sc_cryptolib.Prelude.{ℕ, ◌≡◌, ◌≢◌, ◌⊎◌, some, String}
use zendoo_sc_cryptolib.Prelude.Words.{as_u64, ℤ}
use zendoo_sc_cryptolib.Primitives.{Primitives}
use zendoo_sc_cryptolib.Jni.{Handled, Boxed, World, Exit, done, panicked, Native, Jvm, value}
use zendoo_sc_cryptolib.Jni.Pointer.{Cast}
use zendoo_sc_cryptolib.Jni.Invariant.{
  Kind, kind, kind_of, an_element, a_g2, a_scalar, a_signature, a_vrf_proof, a_hash, a_merkle_tree,
  a_merkle_path, a_commitment_tree, an_existence_proof, an_absence_proof, Outcome, undefined,
}

-- The field of a Java object that holds the address of a box of a kind.
abbrev pub field_of : Kind → String
field_of an_element = "fieldElementPointer"
field_of a_g2 = "publicKeyPointer"
field_of a_scalar = "secretKeyPointer"
field_of a_signature = "signaturePointer"
field_of a_vrf_proof = "proofPointer"
field_of a_hash = "poseidonHashPointer"
field_of a_merkle_tree = "inMemoryOptimizedMerkleTreePointer"
field_of a_merkle_path = "merklePathPointer"
field_of a_commitment_tree = "commitmentTreePointer"
field_of an_existence_proof = "existenceProofPointer"
field_of an_absence_proof = "absenceProofPointer"

abbrev pub IsDefined : {A : Type 0} → Exit A → Type 0
IsDefined (done a) = Unit {0}
IsDefined (panicked p) = Unit {0}
IsDefined Exit.undefined_behaviour = ⊥

module _ {P : Primitives} {H : Handled P} where
  -- Null, or the address of a box of a kind.
  abbrev pub IsHandle : World P H → Kind → ℕ → Type 0
  IsHandle w k p = (p ≡ 0) ⊎ (kind_of (w.heap p) ≡ some k)

  -- An address that may stand in a field of that name.
  abbrev pub Holds : World P H → (field : String) → ℕ → Type 0
  Holds w field p = (k : Kind) → field ≡ field_of k → IsHandle w k p

-- Each address in a Java object is null or that of a box of the object's type.
pub record HandlesLive {P : Primitives} {H : Handled P} (J : Jvm) (w : World P H) : Type 0 where
  pub at :
      (k : Kind) (o : J.JObject) (j : ℤ)
      → J.get_long o (field_of k) ≡ value j
      → IsHandle w k (as_u64 j)

-- Defined in every state; if the handles of Java's objects are live; and if `p` is one of them too.
pub record Total {P : Primitives} {H : Handled P} {A : Type 0} (m : Native P H A) : Type 0 where
  pub at : (w : World P H) → IsDefined (m w).0

pub record Safe {P : Primitives} {H : Handled P} {A : Type 0} (J : Jvm) (m : Native P H A)
    : Type 0 where
  pub at : (w : World P H) → HandlesLive J w → IsDefined (m w).0

pub record SafeAt {P : Primitives} {H : Handled P} {A : Type 0} (J : Jvm) (p : ℕ) (field : String)
    (m : Native P H A) : Type 0 where
  pub at : (w : World P H) → HandlesLive J w → Holds w field p → IsDefined (m w).0

-- A cast that reads each box that the field may hold.
pub record IsField {P : Primitives} {H : Handled P} {A : Type 0} (cast : Cast P H A)
    (field : String) : Type 0 where
  pub its_kind : Kind
  pub its_name : field ≡ field_of its_kind
  pub reads : (b : Boxed P H) → kind b ≡ its_kind → (a : A) × (cast b ≡ some a)

-- A call from Java is defined, if the handles are live and its own arguments are as `Q` says.
pub record CallSafe {P : Primitives} {H : Handled P} (J : Jvm) (Q : World P H → Type 0)
    (f : World P H → Outcome × World P H) : Type 0 where
  pub at : (w : World P H) → HandlesLive J w → Q w → (f w).0 ≢ undefined
