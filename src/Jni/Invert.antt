-- ===== src/Jni/Invert.antt =====
-- A native method that returns a value, taken apart: the steps of api/src/lib.rs and the macro of
-- api/src/exception.rs.
use zendoo_sc_cryptolib.Prelude.{ap, Bool, true, false, ℕ, ◌<◌, ◌≡◌, ◌≢◌, refl, arith, String}
use zendoo_sc_cryptolib.Prelude.Call.{Call, ok, err, panic}
use zendoo_sc_cryptolib.Jni.FieldElement.{jboolean}
use zendoo_sc_cryptolib.Primitives.{Primitives}
use zendoo_sc_cryptolib.Jni.{
  Handled, World, Exit, done, panicked, Returned, returned, Native, JResult, value, pure, on_call,
  fault, Jvm, step, expect, throw_inner, any_to_string, after_throw, catch_unwind, ffi_export,
}

module _ {P : Primitives} {H : Handled P} where
  -- A chain that ends with a value went through its first step with one.
  pub invert_step {ℓ} :
      {A B : Type 0} {C : Type ℓ} (r : Exit A × World P H) (f : A → World P H → Exit B × World P H)
      {b : B} {w : World P H}
      → step r f ≡ (done b, w)
      → ((a : A) (v : World P H) → r ≡ (done a, v) → f a v ≡ (done b, w) → C)
      → C
  invert_step (done a, v) f h k = k a v refl h
  invert_step (panicked p, v) f h k = cc
  invert_step (Exit.undefined_behaviour, v) f h k = cc

  -- The same for a result of the machine that is expected.
  pub invert_expect {ℓ} :
      {A B : Type 0} {C : Type ℓ} (r : JResult A) (message : String) (v : World P H)
      (f : A → World P H → Exit B × World P H) {b : B} {w : World P H}
      → step (expect r message v) f ≡ (done b, w)
      → ((a : A) → r ≡ value a → f a v ≡ (done b, w) → C)
      → C
  invert_expect (value a) message v f h k = k a refl h
  invert_expect (fault e) message v f h k = cc

  -- A library's answer that is given to Java as `JNI_TRUE`, with errors as `JNI_FALSE`.
  pub answer_true {ℓ} :
      {C : Type ℓ} (r : Call Bool) (v w : World P H)
      → on_call r (λ (b : Bool). pure (jboolean b)) (pure 0) v ≡ (done 1, w)
      → (r ≡ ok true → v ≡ w → C)
      → C
  answer_true (ok true) v w h k = k refl (ap (λ q. q.1) h)
  answer_true (ok false) v w h k = cc
  answer_true (err e) v w h k = cc
  answer_true (panic p) v w h k = cc

module _ (P : Primitives) (H : Handled P) (J : Jvm) where
  module _ {A : Type 0} (default : A) where
    after_throw_default :
        (r : Exit (Unit {0}) × World P H) (a : A) (w : World P H)
        → after_throw P H J default r ≡ (returned a, w)
        → a ≡ default
    unfolding after_throw
    after_throw_default (done u, v) a w h = cc
    after_throw_default (panicked p, v) a w h = cc
    after_throw_default (Exit.undefined_behaviour, v) a w h = cc

    catch_unwind_other :
        (e : Exit A × World P H) (a : A) (w : World P H)
        → a ≢ default
        → catch_unwind P H J default e ≡ (returned a, w)
        → e ≡ (done a, w)
    unfolding catch_unwind
    catch_unwind_other (done b, v) a w other h =
        ap
          (λ (q : Returned A × World P H). elim q.0 [
            | returned x ↦ (done x, q.1)
            | _ ↦ (Exit.undefined_behaviour, q.1)
          ])
          h
    catch_unwind_other (panicked p, v) a w other h = absurd (
        other (
          after_throw_default (throw_inner P H J "java/lang/RuntimeException" (any_to_string p) v) a
            w h))
    catch_unwind_other (Exit.undefined_behaviour, v) a w other h = cc

    -- What a native method gives Java, if it is not the default, is the value of its body.
    pub ffi_export_other :
        (body : Native P H A) (w w' : World P H) (a : A)
        → a ≢ default
        → ffi_export P H J default body w ≡ (returned a, w')
        → body w ≡ (done a, w')
    unfolding ffi_export
    ffi_export_other body w w' a other h = catch_unwind_other (body w) a w' other h

  -- The same for a positive number, where the default is zero.
  pub ffi_export-positive :
      (body : Native P H ℕ) (w w' : World P H) (n : ℕ)
      → 0 < n
      → ffi_export P H J 0 body w ≡ (returned n, w')
      → body w ≡ (done n, w')
  ffi_export-positive body w w' n pos h =
      ffi_export_other 0 body w w' n (λ e. absurd (omega (arith, e))) h
