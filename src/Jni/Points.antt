-- ===== src/Jni/Points.antt =====
-- A Java object whose field points to a box, as the helpers at the top of api/src/lib.rs read it.
pub mod Fresh
use zendoo_sc_cryptolib.Prelude.{
  ℕ, ◌<◌, ◌≡◌, ◌≢◌, refl, sym, ap, ◌∙◌, Bool, true, false, Option, some, String, ◌==◌, eq→==, ==→eq,
  if◌then◌else◌, arith,
}
use mathlib.Core.Path.{fun_ext}
use zendoo_sc_cryptolib.Prelude.Words.{ℤ, as_u64}
use zendoo_sc_cryptolib.Primitives.{Primitives}
use zendoo_sc_cryptolib.Jni.{Handled, Boxed, World, done, Jvm, Returned, returned, aborted, value}
use zendoo_sc_cryptolib.Jni.Pointer.{Cast, write, read_raw_pointer, read_field, pointer_in}
use zendoo_sc_cryptolib.Jni.Invariant.{kind_of}
use zendoo_sc_cryptolib.Jni.Invariant.Rules.{apart_above}

-- The field of `o` holds the address of the box `b`.
pub record Points {P : Primitives} {H : Handled P} (J : Jvm) (w : World P H) (o : J.JObject)
    (field : String) (b : Boxed P H) : Type 0 where
  pub number : ℤ
  pub in_field : J.get_long o field ≡ value number
  pub not_null : 0 < as_u64 number
  pub holds : w.heap (as_u64 number) ≡ some b

module _ {P : Primitives} {H : Handled P} where
  -- The next exported function, after one that has returned.
  abbrev pub after :
      {A B : Type 0}
      → Returned A × World P H
      → (A → World P H → Returned B × World P H)
      → Returned B × World P H
  after (returned a, w) f = f a w
  after (aborted, w) f = (aborted, w)
  after (Returned.undefined_behaviour, w) f = (Returned.undefined_behaviour, w)

module _ (P : Primitives) (H : Handled P) (J : Jvm) where
  module _ (w : World P H) (o : J.JObject) (field : String) (b : Boxed P H)
      (pt : Points J w o field b) where
    -- The address that the field holds.
    abbrev pub address : ℕ
    address = as_u64 pt.number

    pub pointer_in-Points : pointer_in P H J o field w ≡ (done address, w)
    unfolding pointer_in
    pointer_in-Points = rw pt.in_field refl

    module _ {A : Type 0} (cast : Cast P H A) (a : A) (reads : cast b ≡ some a) where
      pub read_raw_pointer-Points : read_raw_pointer P H J cast address w ≡ (done a, w)
      unfolding read_raw_pointer
      read_raw_pointer-Points = rw (apart_above 0 address pt.not_null, pt.holds, reads) refl

      pub read_field-Points : read_field P H J cast o field w ≡ (done a, w)
      unfolding read_field pointer_in
      read_field-Points = rw pt.in_field read_raw_pointer-Points

  pub write-same : (w : World P H) (p : ℕ) (b : Option (Boxed P H)) → (write P H w p b).heap p ≡ b
  write-same w p b = rw (eq→== p p refl) refl

  write-other :
      (w : World P H) (p q : ℕ) (b : Option (Boxed P H))
      → q ≢ p
      → (write P H w p b).heap q ≡ w.heap q
  write-other w p q b n = rw (ne q p n) refl
    where
      ne : (x y : ℕ) → x ≢ y → (x == y) ≡ false
      ne x y n = ground arith

  -- Writing twice at one address is writing the second time.
  pub write-write :
      (w : World P H) (p : ℕ) (b c : Option (Boxed P H))
      → write P H (write P H w p b) p c ≡ write P H w p c
  write-write w p b c =
      ap (λ (h : ℕ → Option (Boxed P H)). record w { heap = h }) (fun_ext λ q. at_test (q == p) q)
    where
      at_test :
          (test : Bool) (q : ℕ)
          → (if test then c else (if test then b else w.heap q)) ≡ (if test then c else w.heap q)
      at_test true q = refl
      at_test false q = refl

  -- Writing what is there changes nothing.
  pub write_self :
      (w : World P H) (p : ℕ) (b : Option (Boxed P H)) → w.heap p ≡ b → write P H w p b ≡ w
  write_self w p b e =
      ap (λ (h : ℕ → Option (Boxed P H)). record w { heap = h })
        (fun_ext λ q. at_test q (q == p) refl)
    where
      at_test : (q : ℕ) (test : Bool) → (q == p) ≡ test → (if test then b else w.heap q) ≡ w.heap q
      at_test q true same = sym e ∙ ap w.heap (sym (==→eq q p same))
      at_test q false other = refl

  module _ (w : World P H) (o : J.JObject) (field : String) where
    -- A write through the field, and one elsewhere.
    unfoldable pub Points-write :
        (b c : Boxed P H) (pt : Points J w o field b)
        → Points J (write P H w (as_u64 pt.number) (some c)) o field c
    Points-write b c pt = record {
      number = pt.number;
      in_field = pt.in_field;
      not_null = pt.not_null;
      holds = write-same w (as_u64 pt.number) (some c);
    }

    pub Points-write_other :
        (b : Boxed P H) (p : ℕ) (c : Boxed P H)
        → Points J w o field b
        → kind_of (w.heap p) ≢ kind_of (some b)
        → Points J (write P H w p (some c)) o field b
    Points-write_other b p c pt n = record {
      number = pt.number;
      in_field = pt.in_field;
      not_null = pt.not_null;
      holds =
          write-other w p (as_u64 pt.number) (some c)
            (λ e. n (ap (λ q. kind_of (w.heap q)) (sym e) ∙ ap kind_of pt.holds))
          ∙ pt.holds;
    }
