-- ===== src/Jni/Invariant/Rules.antt =====
-- One rule for each way to build a native method of api/src/lib.rs: what it does to the boxes.
use zendoo_sc_cryptolib.Prelude.{
  ℕ, ◌<◌, ◌≡◌, ◌≢◌, refl, sym, ap, ◌∙◌, ◌⊎◌, inl, inr, arith, Bool, true, false, Option, none, some,
  ◌==◌, ==→eq, if◌then◌else◌,
}
use native.Mathlib.Decide.{dec_lt}
use zendoo_sc_cryptolib.Prelude.Call.{Call, ok, err, panic, Payload}
use zendoo_sc_cryptolib.Primitives.{Primitives}
use zendoo_sc_cryptolib.Jni.{
  Handled, Boxed, World, Exit, done, panicked, Native, Jvm, ◌>>=◌, step, unwind, on_call,
  throw_and_exit,
}
use zendoo_sc_cryptolib.Jni.Pointer.{Cast, deref, cast_at, write, store, read_raw_pointer}
use zendoo_sc_cryptolib.Jni.Invariant.{
  Kind, kind, kind_of, IsWellFormed, IsNext, Keeps, KeepsAt, Quiet, IsCast,
}
use zendoo_sc_cryptolib.Jni.Invariant.Reads.{Same, unwind-Quiet, throw_inner-Quiet}

pub apart : (p q : ℕ) → q < p → (q == p) ≡ false
apart p q h = ground arith

pub apart_above : (p q : ℕ) → p < q → (q == p) ≡ false
apart_above p q h = ground arith

null : (p : ℕ) → ¬ (0 < p) → p ≡ 0
null p n = omega (arith, n)

module _ {P : Primitives} {H : Handled P} where
  pub Same-IsNext : {owned : ℕ} (w w' : World P H) → IsWellFormed w → Same w w' → IsNext owned w w'
  Same-IsNext {owned} w w' ok_w (heap, next) = record {
    well_formed = record {
      not_null = omega (arith, ok_w.not_null, next);
      empty_null = ap (λ (h : ℕ → Option (Boxed P H)). h 0) heap ∙ ok_w.empty_null;
      fresh = λ p l.
          ap (λ (h : ℕ → Option (Boxed P H)). h p) heap ∙ ok_w.fresh p (omega (arith, l, next));
    };
    follows = record {
      grows = omega (arith, next);
      stays = λ l. ap (λ (h : ℕ → Option (Boxed P H)). kind_of (h owned)) heap;
    };
  }

  pub IsNext-trans :
      {owned : ℕ} (u v w : World P H) → IsNext owned u v → IsNext owned v w → IsNext owned u w
  IsNext-trans u v w n m = record {
    well_formed = m.well_formed;
    follows = record {
      grows = omega (arith, n.follows.grows, m.follows.grows);
      stays = λ l. m.follows.stays (omega (arith, l, n.follows.grows)) ∙ n.follows.stays l;
    };
  }

  pub Quiet-Keeps : {owned : ℕ} {A : Type 0} {m : Native P H A} → Quiet m → Keeps owned m
  Quiet-Keeps {m = m} q = record { at = λ w h. Same-IsNext w (m w).1 h (q.at w) }

  step-IsNext :
      {owned : ℕ} {A B : Type 0} (w : World P H) (r : Exit A × World P H) (f : A → Native P H B)
      → IsNext owned w r.1
      → ((a : A) → Keeps owned (f a))
      → IsNext owned w (step r f).1
  step-IsNext w (done a, v) f n k = IsNext-trans w v (f a v).1 n ((k a).at v n.well_formed)
  step-IsNext w (panicked p, v) f n k = n
  step-IsNext w (Exit.undefined_behaviour, v) f n k = n

  pub bind-Keeps :
      {owned : ℕ} {A B : Type 0} (m : Native P H A) (f : A → Native P H B)
      → Keeps owned m
      → ((a : A) → Keeps owned (f a))
      → Keeps owned (m >>= f)
  bind-Keeps m f km kf = record { at = λ w h. step-IsNext w (m w) f (km.at w h) kf }

  pub on_call-Keeps :
      {owned : ℕ} {A B : Type 0} (r : Call B) (f : B → Native P H A) (g : Native P H A)
      → ((b : B) → Keeps owned (f b))
      → Keeps owned g
      → Keeps owned (on_call r f g)
  on_call-Keeps (ok b) f g hf hg = hf b
  on_call-Keeps (err e) f g hf hg = hg
  on_call-Keeps (panic p) f g hf hg = Quiet-Keeps (unwind-Quiet p)

  pub if-Keeps :
      {owned : ℕ} {A : Type 0} (b : Bool) (m n : Native P H A)
      → Keeps owned m
      → Keeps owned n
      → Keeps owned (if b then m else n)
  if-Keeps true m n h k = h
  if-Keeps false m n h k = k

  -- A write leaves the other addresses as they are.
  write_other :
      (w : World P H) (p : ℕ) (b : Option (Boxed P H)) (q : ℕ)
      → (q == p) ≡ false
      → (write P H w p b).heap q ≡ w.heap q
  write_other w p b q h = rw h refl

  write-stays :
      {owned : ℕ} (w : World P H) (p : ℕ) (b : Option (Boxed P H)) (test : Bool)
      → (owned == p) ≡ test
      → (p ≢ owned) ⊎ (kind_of b ≡ kind_of (w.heap p))
      → kind_of ((write P H w p b).heap owned) ≡ kind_of (w.heap owned)
  write-stays {owned} w p b true h (inl n) = absurd (n (sym (==→eq owned p h)))
  write-stays {owned} w p b true h (inr e) =
      rw h (e ∙ ap (λ r. kind_of (w.heap r)) (sym (==→eq owned p h)))
  write-stays w p b false h e = rw h refl

  -- A box replaced by one of its kind, or a write to another address than `owned`.
  pub write-IsNext :
      {owned : ℕ} (w : World P H) (p : ℕ) (b : Option (Boxed P H))
      → IsWellFormed w
      → 0 < p
      → p < w.next
      → (p ≢ owned) ⊎ (kind_of b ≡ kind_of (w.heap p))
      → IsNext owned w (write P H w p b)
  write-IsNext {owned} w p b h h0 hp e = record {
    well_formed = record {
      not_null = h.not_null;
      empty_null = write_other w p b 0 (apart p 0 h0) ∙ h.empty_null;
      fresh = λ q l. write_other w p b q (apart_above p q (omega (arith, l, hp))) ∙ h.fresh q l;
    };
    follows = record { grows = omega arith; stays = λ l. write-stays w p b (owned == p) refl e };
  }

  -- A box is at an address that was given out.
  pub some_kind-bounds :
      (w : World P H) (p : ℕ) (k : Kind)
      → IsWellFormed w
      → kind_of (w.heap p) ≡ some k
      → (0 < p) × (p < w.next)
  some_kind-bounds w p k h e = (
    elim (dec_lt 0 p) [
      | yes l ↦ l
      | no n ↦ absurd (cc (e, ap (λ q. kind_of (w.heap q)) (null p n), ap kind_of h.empty_null))
    ],
    elim (dec_lt p w.next) [
      | yes l ↦ l
      | no n ↦ absurd (cc (e, ap kind_of (h.fresh p (omega (arith, n)))))
    ],
  )

  pub store-KeepsAt :
      {owned : ℕ} (p : ℕ) (k : Kind) (b : Boxed P H)
      → kind b ≡ k
      → KeepsAt owned p k (store P H p b)
  store-KeepsAt p k b e = record {
    at = λ w h at_p.
        let (h0, hp) = some_kind-bounds w p k h at_p in
        write-IsNext w p (some b) h h0 hp (inr (ap some e ∙ sym at_p));
  }

  pub Keeps-KeepsAt :
      {owned : ℕ} {A : Type 0} {m : Native P H A} (p : ℕ) (k : Kind)
      → Keeps owned m
      → KeepsAt owned p k m
  Keeps-KeepsAt p k q = record { at = λ w h e. q.at w h }

  -- After a write at `p` the rest of a method keeps the state.
  pub store-bind :
      {owned : ℕ} {A B : Type 0} (p : ℕ) (k : Kind) (m : Native P H A) (f : A → Native P H B)
      → KeepsAt owned p k m
      → ((a : A) → Keeps owned (f a))
      → KeepsAt owned p k (m >>= f)
  store-bind p k m f km kf = record { at = λ w h e. step-IsNext w (m w) f (km.at w h e) kf }

  step-IsNextAt :
      {owned : ℕ} {A B : Type 0} (p : ℕ) (k : Kind) (w : World P H) (r : Exit A × World P H)
      (f : A → Native P H B)
      → IsWellFormed w
      → kind_of (w.heap p) ≡ some k
      → Same w r.1
      → ((a : A) → KeepsAt owned p k (f a))
      → IsNext owned w (step r f).1
  step-IsNextAt p k w (done a, v) f h e s kf =
      let n = Same-IsNext w v h s in
      IsNext-trans w v (f a v).1 n
        ((kf a).at v n.well_formed (ap (λ (g : ℕ → Option (Boxed P H)). kind_of (g p)) s.0 ∙ e))
  step-IsNextAt p k w (panicked q, v) f h e s kf = Same-IsNext w v h s
  step-IsNextAt p k w (Exit.undefined_behaviour, v) f h e s kf = Same-IsNext w v h s

  -- Reads may stand between the read of a box and the write to it.
  pub read-bind :
      {owned : ℕ} {A B : Type 0} (p : ℕ) (k : Kind) (m : Native P H A) (f : A → Native P H B)
      → Quiet m
      → ((a : A) → KeepsAt owned p k (f a))
      → KeepsAt owned p k (m >>= f)
  read-bind p k m f q kf = record { at = λ w h e. step-IsNextAt p k w (m w) f h e (q.at w) kf }

  unwinds-Same :
      {A B : Type 0} (w : World P H) (r : Exit (Unit {0}) × World P H) (q : Payload)
      (f : A → Native P H B)
      → Same w r.1
      → Same w (step (step r (λ u. unwind {A = A} q)) f).1
  unwinds-Same w (done u, v) q f s = s
  unwinds-Same w (panicked p, v) q f s = s
  unwinds-Same w (Exit.undefined_behaviour, v) q f s = s

  deref-IsNext :
      {owned : ℕ} {A B : Type 0} (cast : Cast P H A) (p : ℕ) (k : Kind) (w : World P H)
      (b : Option (Boxed P H)) (f : A → Native P H B)
      → IsWellFormed w
      → IsCast cast k
      → ((a : A) → KeepsAt owned p k (f a))
      → w.heap p ≡ b
      → (found : Option A) → cast_at P H cast b ≡ found
      → IsNext owned w (step (deref P H (cast_at P H cast b) w) f).1
  deref-IsNext cast p k w none f h c kf e found g = Same-IsNext w w h (refl, refl)
  deref-IsNext cast p k w (some b) f h c kf e none g = rw g (Same-IsNext w w h (refl, refl))
  deref-IsNext cast p k w (some b) f h c kf e (some a) g =
      rw g ((kf a).at w h (ap kind_of e ∙ ap some (c.at b a g)))

module _ (P : Primitives) (H : Handled P) (J : Jvm) where
  read-IsNext :
      {owned : ℕ} {A B : Type 0} (cast : Cast P H A) (k : Kind) (p : ℕ) (f : A → Native P H B)
      (w : World P H)
      → IsCast cast k
      → ((a : A) → KeepsAt owned p k (f a))
      → IsWellFormed w
      → (b : Bool)
      → IsNext owned w
          (step
            (if b
              then throw_and_exit P H J "java/lang/NullPointerException" "Received null pointer" w
              else deref P H (cast_at P H cast (w.heap p)) w)
            f).1
  unfolding throw_and_exit
  read-IsNext cast k p f w c kf h true =
      Same-IsNext w _ h (unwinds-Same w _ _ f ((throw_inner-Quiet P H J _ _).at w))
  read-IsNext cast k p f w c kf h false = deref-IsNext cast p k w (w.heap p) f h c kf refl _ refl

  -- A box that is read as a value of its type may be written to.
  pub read_raw_pointer-bind :
      {owned : ℕ} {A B : Type 0} (cast : Cast P H A) (k : Kind) (p : ℕ) (f : A → Native P H B)
      → IsCast cast k
      → ((a : A) → KeepsAt owned p k (f a))
      → Keeps owned (read_raw_pointer P H J cast p >>= f)
  unfolding read_raw_pointer
  read_raw_pointer-bind cast k p f c kf = record {
    at = λ w h. read-IsNext cast k p f w c kf h (p == 0);
  }
