-- ===== src/Jni/Invariant/Kinds.antt =====
-- The types that api/src/lib.rs boxes, with the values behind a pointer of each.
use zendoo_sc_cryptolib.Prelude.{◌≡◌, ◌≢◌, refl, Option, none, some}
use zendoo_sc_cryptolib.Primitives.{Primitives}
use zendoo_sc_cryptolib.Jni.{Handled, Boxed}
use zendoo_sc_cryptolib.Jni.Pointer.{
  Cast, as_field_element, as_g2, as_scalar, as_schnorr_sig, as_vrf_proof, as_field_hash,
  as_merkle_tree, as_merkle_path, as_commitment_tree, as_existence_proof, as_absence_proof,
}
use zendoo_sc_cryptolib.Jni.Invariant.{
  Kind, kind, kind_of, an_element, a_g2, a_scalar, a_signature, a_vrf_proof, a_hash, a_merkle_tree,
  a_merkle_path, a_commitment_tree, an_existence_proof, an_absence_proof,
}

module _ (P : Primitives) (H : Handled P) where
  -- The values of a type that is boxed, and the pointers to them.
  abbrev pub Value : Kind → Type 0
  Value an_element = P.FieldElement
  Value a_g2 = P.G2
  Value a_scalar = P.ScalarFieldElement
  Value a_signature = P.SchnorrSig
  Value a_vrf_proof = P.VrfProof
  Value a_hash = P.FieldHash
  Value a_merkle_tree = H.GingerMHT
  Value a_merkle_path = H.GingerMHTPath
  Value a_commitment_tree = H.CommitmentTree
  Value an_existence_proof = H.ScExistenceProof
  Value an_absence_proof = H.ScAbsenceProof

  abbrev pub cast_of : (k : Kind) → Cast P H (Value k)
  cast_of an_element = as_field_element P H
  cast_of a_g2 = as_g2 P H
  cast_of a_scalar = as_scalar P H
  cast_of a_signature = as_schnorr_sig P H
  cast_of a_vrf_proof = as_vrf_proof P H
  cast_of a_hash = as_field_hash P H
  cast_of a_merkle_tree = as_merkle_tree P H
  cast_of a_merkle_path = as_merkle_path P H
  cast_of a_commitment_tree = as_commitment_tree P H
  cast_of an_existence_proof = as_existence_proof P H
  cast_of an_absence_proof = as_absence_proof P H

  -- A box is read as its type, and as no other.
  pub cast_of-kind : (b : Boxed P H) → (a : Value (kind b)) × (cast_of (kind b) b ≡ some a)
  cast_of-kind (Boxed.field_element a) = (a, refl)
  cast_of-kind (Boxed.g2 a) = (a, refl)
  cast_of-kind (Boxed.scalar a) = (a, refl)
  cast_of-kind (Boxed.schnorr_sig a) = (a, refl)
  cast_of-kind (Boxed.vrf_proof a) = (a, refl)
  cast_of-kind (Boxed.field_hash a) = (a, refl)
  cast_of-kind (Boxed.merkle_tree a) = (a, refl)
  cast_of-kind (Boxed.merkle_path a) = (a, refl)
  cast_of-kind (Boxed.commitment_tree a) = (a, refl)
  cast_of-kind (Boxed.existence_proof a) = (a, refl)
  cast_of-kind (Boxed.absence_proof a) = (a, refl)

  pub cast_of-ne : (k : Kind) (b : Boxed P H) → kind b ≢ k → cast_of k b ≡ none
  cast_of-ne an_element (Boxed.field_element a) n = absurd (n refl)
  cast_of-ne a_g2 (Boxed.g2 a) n = absurd (n refl)
  cast_of-ne a_scalar (Boxed.scalar a) n = absurd (n refl)
  cast_of-ne a_signature (Boxed.schnorr_sig a) n = absurd (n refl)
  cast_of-ne a_vrf_proof (Boxed.vrf_proof a) n = absurd (n refl)
  cast_of-ne a_hash (Boxed.field_hash a) n = absurd (n refl)
  cast_of-ne a_merkle_tree (Boxed.merkle_tree a) n = absurd (n refl)
  cast_of-ne a_merkle_path (Boxed.merkle_path a) n = absurd (n refl)
  cast_of-ne a_commitment_tree (Boxed.commitment_tree a) n = absurd (n refl)
  cast_of-ne an_existence_proof (Boxed.existence_proof a) n = absurd (n refl)
  cast_of-ne an_absence_proof (Boxed.absence_proof a) n = absurd (n refl)
  cast_of-ne _ _ n = refl

  -- The box behind an address that is known to hold one of a kind.
  pub box_of :
      (k : Kind) (o : Option (Boxed P H))
      → kind_of o ≡ some k
      → (b : Boxed P H) × (o ≡ some b) × (kind b ≡ k)
  box_of k none h = cc
  box_of k (some b) h = (b, refl, cc)
