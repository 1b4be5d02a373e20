-- ===== src/Jni/Invariant.antt =====
-- The boxes behind Java's handles, as every native method of api/src/lib.rs leaves them: the invariant
-- of the state of Jni, and how the state may change.
pub mod Kinds
pub mod Reads
pub mod Rules
pub mod Boxes
pub mod Export
pub mod Parts
use zendoo_sc_cryptolib.Prelude.{ℕ, ◌≤◌, ◌<◌, ◌≡◌, ◌⊎◌, Option, none, some}
use zendoo_sc_cryptolib.Primitives.{Primitives}
use zendoo_sc_cryptolib.Jni.{Handled, Boxed, World, Native, Exported, Returned, returned, aborted}
use zendoo_sc_cryptolib.Jni.Pointer.{Cast}

-- The Rust types that are boxed.
pub data Kind : Type 0 where
  an_element : Kind
  a_g2 : Kind
  a_scalar : Kind
  a_signature : Kind
  a_vrf_proof : Kind
  a_hash : Kind
  a_merkle_tree : Kind
  a_merkle_path : Kind
  a_commitment_tree : Kind
  an_existence_proof : Kind
  an_absence_proof : Kind

module _ {P : Primitives} {H : Handled P} where
  abbrev pub kind : Boxed P H → Kind
  kind (Boxed.field_element a) = an_element
  kind (Boxed.g2 a) = a_g2
  kind (Boxed.scalar a) = a_scalar
  kind (Boxed.schnorr_sig a) = a_signature
  kind (Boxed.vrf_proof a) = a_vrf_proof
  kind (Boxed.field_hash a) = a_hash
  kind (Boxed.merkle_tree a) = a_merkle_tree
  kind (Boxed.merkle_path a) = a_merkle_path
  kind (Boxed.commitment_tree a) = a_commitment_tree
  kind (Boxed.existence_proof a) = an_existence_proof
  kind (Boxed.absence_proof a) = an_absence_proof

  abbrev pub kind_of : Option (Boxed P H) → Option Kind
  kind_of none = none
  kind_of (some b) = some (kind b)

-- No box at null, none from the next fresh address on, and that address is not null.
pub record IsWellFormed {P : Primitives} {H : Handled P} (w : World P H) : Type 0 where
  pub not_null : 0 < w.next
  pub empty_null : w.heap 0 ≡ none
  pub fresh : (p : ℕ) → w.next ≤ p → w.heap p ≡ none

-- Addresses are given out in order, and what is behind the address `owned` is still
-- of the type that it was, if that address had been given out.
pub record Follows {P : Primitives} {H : Handled P} (owned : ℕ) (w w' : World P H) : Type 0 where
  pub grows : w.next ≤ w'.next
  pub stays : owned < w.next → kind_of (w'.heap owned) ≡ kind_of (w.heap owned)

-- A state that is well formed and follows another one.
pub record IsNext {P : Primitives} {H : Handled P} (owned : ℕ) (w w' : World P H) : Type 0 where
  pub well_formed : IsWellFormed w'
  pub follows : Follows owned w w'

-- A method, and a part of one, leads from a well-formed state to a next one.
pub record Keeps {P : Primitives} {H : Handled P} {A : Type 0} (owned : ℕ) (m : Native P H A)
    : Type 0 where
  pub at : (w : World P H) → IsWellFormed w → IsNext owned w (m w).1

-- The same where the address `p` holds a box of a kind.
pub record KeepsAt {P : Primitives} {H : Handled P} {A : Type 0} (owned p : ℕ) (k : Kind)
    (m : Native P H A) : Type 0 where
  pub at : (w : World P H) → IsWellFormed w → kind_of (w.heap p) ≡ some k → IsNext owned w (m w).1

pub record ExportKeeps {P : Primitives} {H : Handled P} {A : Type 0} (owned : ℕ)
    (m : Exported P H A) : Type 0 where
  pub at : (w : World P H) → IsWellFormed w → IsNext owned w (m w).1

-- A part of a method that only reads: it leaves the boxes as they are.
pub record Quiet {P : Primitives} {H : Handled P} {A : Type 0} (m : Native P H A) : Type 0 where
  pub at : (w : World P H) → ((m w).1.heap ≡ w.heap) × ((m w).1.next ≡ w.next)

-- What is read through a cast is of one kind.
pub record IsCast {P : Primitives} {H : Handled P} {A : Type 0} (cast : Cast P H A) (k : Kind)
    : Type 0 where
  pub at : (b : Boxed P H) (a : A) → cast b ≡ some a → kind b ≡ k

-- How a call from Java ends, without its value.
pub data Outcome : Type 0 where
  finished : Outcome
  stopped : Outcome
  undefined : Outcome

module _ {P : Primitives} {H : Handled P} where
  outcome : {A : Type 0} → Returned A × World P H → Outcome × World P H
  outcome (returned a, w) = (finished, w)
  outcome (aborted, w) = (stopped, w)
  outcome (Returned.undefined_behaviour, w) = (undefined, w)

  -- A call as Java makes it: how it ends, and the state that it leaves.
  unfoldable pub made : {A : Type 0} → Exported P H A → World P H → Outcome × World P H
  unfolding outcome
  made m w = outcome (m w)

-- A call leads from a well-formed state to a next one.
pub record CallKeeps {P : Primitives} {H : Handled P} (owned : ℕ)
    (f : World P H → Outcome × World P H) : Type 0 where
  pub at : (w : World P H) → IsWellFormed w → IsNext owned w (f w).1
