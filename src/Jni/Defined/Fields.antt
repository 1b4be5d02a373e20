-- ===== src/Jni/Defined/Fields.antt =====
-- What is read and freed through the fields of Java objects in api/src/lib.rs, and when that is defined.
use zendoo_sc_cryptolib.Prelude.{
  ℕ, ◌≡◌, refl, ap, ◌∙◌, inl, inr, Bool, true, false, some, String, ◌==◌, eq→==, if◌then◌else◌,
  subst,
}
use zendoo_sc_cryptolib.Primitives.{Primitives}
use zendoo_sc_cryptolib.Jni.{Handled, World, Exit, Jvm}
use zendoo_sc_cryptolib.Jni.Pointer.{
  Cast, cast_at, free_box, read_raw_pointer, read_nullable_raw_pointer, as_field_element, as_g2,
  as_scalar, as_schnorr_sig, as_vrf_proof, as_field_hash, as_merkle_tree, as_merkle_path,
  as_commitment_tree, as_existence_proof, as_absence_proof,
}
use zendoo_sc_cryptolib.Jni.Invariant.{
  Kind, an_element, a_g2, a_scalar, a_signature, a_vrf_proof, a_hash, a_merkle_tree, a_merkle_path,
  a_commitment_tree, an_existence_proof, an_absence_proof,
}
use zendoo_sc_cryptolib.Jni.Invariant.Kinds.{Value, box_of, cast_of, cast_of-kind}
use zendoo_sc_cryptolib.Jni.Defined.Rules.{throw_and_exit-Total}
use zendoo_sc_cryptolib.Jni.Defined.{field_of, IsDefined, Holds, SafeAt, IsField}

module _ (P : Primitives) (H : Handled P) (J : Jvm) where
  if-IsDefined :
      {A : Type 0} (test : Bool) (x y : Exit A × World P H)
      → IsDefined x.0
      → (test ≡ false → IsDefined y.0)
      → IsDefined (if test then x else y).0
  if-IsDefined true x y h k = h
  if-IsDefined false x y h k = k refl

  -- A handle that is not null is that of a box which the cast reads.
  found_at :
      {A : Type 0} (cast : Cast P H A) (field : String) (p : ℕ) (w : World P H)
      → IsField cast field
      → Holds w field p
      → (p == 0) ≡ false
      → (a : A) × (cast_at P H cast (w.heap p) ≡ some a)
  found_at cast field p w is_field at_p not_null = elim (at_p is_field.its_kind is_field.its_name) [
    | inl is_null ↦ absurd (cc (not_null, eq→== p 0 is_null))
    | inr e ↦
        let (b, at_b, is_k) = box_of P H is_field.its_kind (w.heap p) e in
        let (a, reads) = is_field.reads b is_k in (a, ap (cast_at P H cast) at_b ∙ reads)
  ]

  module _ {A : Type 0} (cast : Cast P H A) (field : String) (p : ℕ) where
    pub read_raw_pointer-SafeAt :
        IsField cast field → SafeAt J p field (read_raw_pointer P H J cast p)
    unfolding read_raw_pointer
    read_raw_pointer-SafeAt is_field = record {
      at = λ w live at_p.
          if-IsDefined (p == 0) _ _ ((throw_and_exit-Total P H J _ _).at w)
            λ e. let (a, found) = found_at cast field p w is_field at_p e in rw found tt;
    }

    pub read_nullable_raw_pointer-SafeAt :
        IsField cast field → SafeAt J p field (read_nullable_raw_pointer P H J cast p)
    unfolding read_nullable_raw_pointer
    read_nullable_raw_pointer-SafeAt is_field = record {
      at = λ w live at_p.
          if-IsDefined (p == 0) _ _ tt
            λ e. let (a, found) = found_at cast field p w is_field at_p e in rw found tt;
    }

    pub free_box-SafeAt : IsField cast field → SafeAt J p field (free_box P H cast p)
    unfolding free_box
    free_box-SafeAt is_field = record {
      at = λ w live at_p.
          if-IsDefined (p == 0) _ _ tt
            λ e. let (a, found) = found_at cast field p w is_field at_p e in rw found tt;
    }

  -- The casts and the fields that go together.
  typed : (k : Kind) → IsField (cast_of P H k) (field_of k)
  typed k = record {
    its_kind = k;
    its_name = refl;
    reads =
        λ b e. subst (λ k. (a : Value P H k) × (cast_of P H k b ≡ some a)) e (cast_of-kind P H b);
  }

  pub element-IsField : IsField (as_field_element P H) "fieldElementPointer"
  element-IsField = typed an_element

  pub g2-IsField : IsField (as_g2 P H) "publicKeyPointer"
  g2-IsField = typed a_g2

  pub scalar-IsField : IsField (as_scalar P H) "secretKeyPointer"
  scalar-IsField = typed a_scalar

  pub signature-IsField : IsField (as_schnorr_sig P H) "signaturePointer"
  signature-IsField = typed a_signature

  pub vrf_proof-IsField : IsField (as_vrf_proof P H) "proofPointer"
  vrf_proof-IsField = typed a_vrf_proof

  pub hash-IsField : IsField (as_field_hash P H) "poseidonHashPointer"
  hash-IsField = typed a_hash

  pub merkle_tree-IsField : IsField (as_merkle_tree P H) "inMemoryOptimizedMerkleTreePointer"
  merkle_tree-IsField = typed a_merkle_tree

  pub merkle_path-IsField : IsField (as_merkle_path P H) "merklePathPointer"
  merkle_path-IsField = typed a_merkle_path

  pub commitment_tree-IsField : IsField (as_commitment_tree P H) "commitmentTreePointer"
  commitment_tree-IsField = typed a_commitment_tree

  pub existence_proof-IsField : IsField (as_existence_proof P H) "existenceProofPointer"
  existence_proof-IsField = typed an_existence_proof

  pub absence_proof-IsField : IsField (as_absence_proof P H) "absenceProofPointer"
  absence_proof-IsField = typed an_absence_proof
