-- ===== src/Jni/Points/Fresh.antt =====
-- Objects that live on while other values are boxed, and the object of a fresh box: `return_jobject` of
-- api/src/lib.rs.
use zendoo_sc_cryptolib.Prelude.{
  ℕ, ◌+◌, ◌<◌, ◌≤◌, ◌^◌, ◌≡◌, refl, sym, ◌∙◌, arith, none, some, String, ◌==◌, eq→==, false,
  Bool-cases, inl, inr, leb, leb→le, leb→lt,
}
use zendoo_sc_cryptolib.Prelude.Words.{as_i64, as_u64, as_u64-as_i64}
use zendoo_sc_cryptolib.Primitives.{Primitives}
use zendoo_sc_cryptolib.Jni.{Handled, Boxed, World, done, Jvm, value}
use zendoo_sc_cryptolib.Jni.Handle.{boxed}
use zendoo_sc_cryptolib.Jni.Invariant.{IsWellFormed}
use zendoo_sc_cryptolib.Jni.Pointer.{into_raw, return_jobject}
use zendoo_sc_cryptolib.Jni.Points.{Points}

-- The machine makes the object `o` for the box at `p`: the class is found, and the object's field holds
-- the number that its constructor is given.
pub record Makes (J : Jvm) (class_path field : String) (p : ℕ) (o : J.JObject) : Type 0 where
  pub class : J.JObject
  pub found : J.find_class class_path ≡ value class
  pub constructed : J.new_handle class (as_i64 p) ≡ value o
  pub in_field : J.get_long o field ≡ value (as_i64 p)

-- A pair of Java's objects for the two keys, as `nativeGenerate` of both schemes makes it.
pub record PairAt {P : Primitives} {H : Handled P} (J : Jvm) (w : World P H) (key_pair : J.JObject)
    (sk : P.ScalarFieldElement) (pk : P.G2) : Type 0 where
  pub secret_object : J.JObject
  pub public_object : J.JObject
  pub in_secret : J.get_object key_pair "secretKey" ≡ value secret_object
  pub in_public : J.get_object key_pair "publicKey" ≡ value public_object
  pub secret : Points J w secret_object "secretKeyPointer" (Boxed.scalar sk)
  pub public : Points J w public_object "publicKeyPointer" (Boxed.g2 pk)

-- A well-formed state with room for one more address.
pub record HasRoom {P : Primitives} {H : Handled P} (w : World P H) : Type 0 where
  pub well_formed : IsWellFormed w
  pub room : w.next < 2 ^ 63

module _ (P : Primitives) (H : Handled P) (J : Jvm) where
  -- An address that holds a box lies below the next fresh one.
  holds-lt :
      (w : World P H) (p : ℕ) (b : Boxed P H) → IsWellFormed w → w.heap p ≡ some b → p < w.next
  holds-lt w p b wf e = elim (Bool-cases (leb w.next p)) [
    | inl above ↦ absurd (some-ne-none (sym e ∙ wf.fresh p (leb→le w.next p above)))
    | inr below ↦ leb→lt w.next p below
  ]
    where
      some-ne-none : {A : Type 0} {a : A} → some a ≡ none → ⊥
      some-ne-none h = cc

  apart : (p q : ℕ) → p < q → (p == q) ≡ false
  apart p q h = ground arith

  pub Points-boxed :
      (w : World P H) (o : J.JObject) (field : String) (b c : Boxed P H)
      → IsWellFormed w
      → Points J w o field b
      → Points J (boxed P H J w c) o field b
  Points-boxed w o field b c wf pt = record {
    number = pt.number;
    in_field = pt.in_field;
    not_null = pt.not_null;
    holds =
        rw (apart (as_u64 pt.number) w.next (holds-lt w (as_u64 pt.number) b wf pt.holds)) pt.holds;
  }

  pub boxed-IsWellFormed :
      (w : World P H) (c : Boxed P H) → IsWellFormed w → IsWellFormed (boxed P H J w c)
  boxed-IsWellFormed w c wf = record {
    not_null = omega arith;
    empty_null = rw (apart 0 w.next wf.not_null) wf.empty_null;
    fresh = λ p above. rw (other w.next p above) (wf.fresh p (omega (arith, above)));
  }
    where
      other : (q p : ℕ) → q + 1 ≤ p → (p == q) ≡ false
      other q p h = ground arith

  module _ (w : World P H) (b : Boxed P H) (class_path field : String) (o : J.JObject)
      (makes : Makes J class_path field w.next o) where
    -- The object that is returned for a box.
    pub return_jobject-Makes : return_jobject P H J b class_path w ≡ (done o, boxed P H J w b)
    unfolding return_jobject into_raw
    return_jobject-Makes = rw (makes.found, makes.constructed) refl

    pub Points-Makes : HasRoom w → Points J (boxed P H J w b) o field b
    Points-Makes has = record {
      number = as_i64 w.next;
      in_field = makes.in_field;
      not_null = rw (as_u64-as_i64 w.next (omega (arith, has.room))) has.well_formed.not_null;
      holds = rw (as_u64-as_i64 w.next (omega (arith, has.room)), eq→== w.next w.next refl) refl;
    }
