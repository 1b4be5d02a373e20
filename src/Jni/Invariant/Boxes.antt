-- ===== src/Jni/Invariant/Boxes.antt =====
-- Boxing and freeing in the native methods of api/src/lib.rs, and the kinds behind its pointers.
use zendoo_sc_cryptolib.Prelude.{
  ℕ, ◌+◌, ◌<◌, ◌≡◌, ◌≢◌, refl, ap, inl, arith, Bool, true, false, Option, none, some, String, ◌==◌,
  if◌then◌else◌,
}
use zendoo_sc_cryptolib.Primitives.{Primitives}
use zendoo_sc_cryptolib.Prelude.Words.{ℤ, as_u64}
use zendoo_sc_cryptolib.Jni.{
  Handled, Boxed, World, done, Jvm, JResult, value, fault, Codec, expect, pure, ◌>>=◌,
}
use zendoo_sc_cryptolib.Jni.Pointer.{
  Cast, cast_at, write, release, free_box, into_raw, pointer_in, return_jobject,
  return_field_element, deserialize_to_jobject, as_field_hash, as_merkle_tree, as_commitment_tree,
}
use zendoo_sc_cryptolib.Jni.Invariant.{
  a_hash, a_merkle_tree, a_commitment_tree, kind, kind_of, IsWellFormed, IsNext, Keeps, IsCast,
}
use zendoo_sc_cryptolib.Jni.Invariant.Reads.{reading, pure-Quiet, expect-Quiet}
use zendoo_sc_cryptolib.Jni.Invariant.Rules.{
  Same-IsNext, Quiet-Keeps, bind-Keeps, on_call-Keeps, if-Keeps, write-IsNext, some_kind-bounds,
  apart, apart_above,
}

module _ (P : Primitives) (H : Handled P) where
  into_raw-IsNext :
      {owned : ℕ} (b : Boxed P H) (w : World P H)
      → IsWellFormed w
      → IsNext owned w (record (write P H w w.next (some b)) { next = w.next + 1 })
  into_raw-IsNext b w h = record {
    well_formed = record {
      not_null = omega arith;
      empty_null = rw (apart w.next 0 h.not_null) h.empty_null;
      fresh = λ p l. rw (apart_above w.next p (omega (arith, l))) (h.fresh p (omega (arith, l)));
    };
    follows = record { grows = omega arith; stays = λ l. rw (apart w.next _ l) refl };
  }

  pub into_raw-Keeps : {owned : ℕ} (b : Boxed P H) → Keeps owned (into_raw P H b)
  unfolding into_raw
  into_raw-Keeps b = record { at = into_raw-IsNext b }

  release-next :
      {owned : ℕ} {A : Type 0} (p : ℕ) (w : World P H) (found : Option A)
      → IsWellFormed w
      → 0 < p
      → p < w.next
      → p ≢ owned
      → IsNext owned w (release P H p found w).1
  release-next p w none h h0 hp n = Same-IsNext w w h (refl, refl)
  release-next p w (some a) h h0 hp n = write-IsNext w p none h h0 hp (inl n)

  release-IsNext :
      {owned : ℕ} {A : Type 0} (cast : Cast P H A) (p : ℕ) (w : World P H) (b : Option (Boxed P H))
      → IsWellFormed w
      → w.heap p ≡ b
      → p ≢ owned
      → IsNext owned w (release P H p (cast_at P H cast b) w).1
  release-IsNext cast p w none h e n = Same-IsNext w w h (refl, refl)
  release-IsNext cast p w (some b) h e n =
      let (h0, hp) = some_kind-bounds w p (kind b) h (ap kind_of e) in
      release-next p w (cast b) h h0 hp n

  free_at-IsNext :
      {owned : ℕ} {A : Type 0} (cast : Cast P H A) (p : ℕ) (w : World P H)
      → IsWellFormed w
      → p ≢ owned
      → (b : Bool)
      → IsNext owned w (if b then (done tt, w) else release P H p (cast_at P H cast (w.heap p)) w).1
  free_at-IsNext cast p w h n true = Same-IsNext w w h (refl, refl)
  free_at-IsNext cast p w h n false = release-IsNext cast p w (w.heap p) h refl n

  -- Freeing another box.
  pub free_box-Keeps :
      {owned : ℕ} {A : Type 0} (cast : Cast P H A) (p : ℕ)
      → p ≢ owned
      → Keeps owned (free_box P H cast p)
  unfolding free_box
  free_box-Keeps cast p n = record { at = λ w h. free_at-IsNext cast p w h n (p == 0) }

  pub hash-IsCast : IsCast (as_field_hash P H) a_hash
  hash-IsCast = record { at = λ b a e. of_hash b a e }
    where
      of_hash : (b : Boxed P H) (a : P.FieldHash) → as_field_hash P H b ≡ some a → kind b ≡ a_hash
      of_hash (Boxed.field_hash x) a e = refl
      of_hash _ a e = cc

  pub tree-IsCast : IsCast (as_merkle_tree P H) a_merkle_tree
  tree-IsCast = record { at = of_tree }
    where
      of_tree :
          (b : Boxed P H) (a : H.GingerMHT) → as_merkle_tree P H b ≡ some a → kind b ≡ a_merkle_tree
      of_tree (Boxed.merkle_tree x) a e = refl
      of_tree _ a e = cc

  pub commitment-IsCast : IsCast (as_commitment_tree P H) a_commitment_tree
  commitment-IsCast = record { at = of_commitment }
    where
      of_commitment :
          (b : Boxed P H) (a : H.CommitmentTree)
          → as_commitment_tree P H b ≡ some a
          → kind b ≡ a_commitment_tree
      of_commitment (Boxed.commitment_tree x) a e = refl
      of_commitment _ a e = cc

module _ (P : Primitives) (H : Handled P) (J : Jvm) where
  pub ruleset keeping = (bind-Keeps, on_call-Keeps, if-Keeps, Quiet-Keeps, reading)

  pub return_jobject-Keeps :
      {owned : ℕ} (b : Boxed P H) (class_path : String)
      → Keeps owned (return_jobject P H J b class_path)
  unfolding return_jobject
  return_jobject-Keeps b class_path = search (keeping, into_raw-Keeps) depth 10

  pub return_field_element-Keeps :
      {owned : ℕ} (fe : P.FieldElement) → Keeps owned (return_field_element P H J fe)
  unfolding return_field_element
  return_field_element-Keeps fe = return_jobject-Keeps _ _

  pub deserialize_to_jobject-Keeps :
      {owned : ℕ} {A : Type 0} (codec : Codec A) (box : A → Boxed P H) (bytes : J.JObject)
      (checked compressed : Option Bool) (class_path : String)
      → Keeps owned (deserialize_to_jobject P H J codec box bytes checked compressed class_path)
  unfolding deserialize_to_jobject
  deserialize_to_jobject-Keeps codec box bytes checked compressed class_path =
      search (keeping, return_jobject-Keeps) depth 10

  free_read-Keeps :
      {owned : ℕ} {A : Type 0} (cast : Cast P H A) (r : JResult ℤ) (description : String)
      → ((j : ℤ) → r ≡ value j → as_u64 j ≢ owned)
      → Keeps owned
          ((expect r description >>= λ j. pure {P = P} {H = H} (as_u64 j)) >>= free_box P H cast)
  free_read-Keeps cast (value j) description n = free_box-Keeps P H cast (as_u64 j) (n j refl)
  free_read-Keeps cast (fault e) description n = record {
    at = λ w h. Same-IsNext w _ h ((expect-Quiet {A = ℤ} (fault e) description).at w);
  }

  -- Freeing what an object points to, which is not `owned`.
  pub free_field-Keeps :
      {owned : ℕ} {A : Type 0} (cast : Cast P H A) (o : J.JObject) (field : String)
      → ((j : ℤ) → J.get_long o field ≡ value j → as_u64 j ≢ owned)
      → Keeps owned (pointer_in P H J o field >>= free_box P H cast)
  unfolding pointer_in
  free_field-Keeps cast o field n = free_read-Keeps cast (J.get_long o field) _ n
