-- ===== src/Jni/Defined/Rules.antt =====
-- One rule for each way to build a native method of api/src/lib.rs: when it is defined.
use zendoo_sc_cryptolib.Prelude.{
  ℕ, ◌≡◌, refl, sym, ap, ◌∙◌, ◌⊎◌, Bool, true, false, Option, none, some, String, if◌then◌else◌,
  subst,
}
use zendoo_sc_cryptolib.Prelude.Call.{Call, ok, err, panic, Payload}
use zendoo_sc_cryptolib.Prelude.Words.{ℤ, as_u64}
use zendoo_sc_cryptolib.Primitives.{Primitives}
use zendoo_sc_cryptolib.Jni.{
  Handled, Boxed, World, Exit, done, panicked, Native, Jvm, JResult, value, fault, ◌>>=◌, step,
  pure, unwind, expect, on_call, throw_class, throw_inner, throw_and_exit,
}
use zendoo_sc_cryptolib.Jni.Pointer.{store, into_raw, pointer_in}
use zendoo_sc_cryptolib.Jni.Invariant.{kind_of, Quiet}
use zendoo_sc_cryptolib.Jni.Invariant.Reads.{Same}
use zendoo_sc_cryptolib.Jni.Defined.{IsDefined, Holds, HandlesLive, Total, Safe, SafeAt}

module _ {P : Primitives} {H : Handled P} where
  module _ {A : Type 0} where
    pub pure-Total : (a : A) → Total {P = P} {H = H} (pure a)
    pure-Total a = record { at = λ w. tt }

    pub unwind-Total : (p : Payload) → Total {P = P} {H = H} {A = A} (unwind p)
    unwind-Total p = record { at = λ w. tt }

    pub expect-Total : (r : JResult A) (message : String) → Total {P = P} {H = H} (expect r message)
    expect-Total (value a) message = record { at = λ w. tt }
    expect-Total (fault e) message = record { at = λ w. tt }

    pub if-Total : (b : Bool) (m n : Native P H A) → Total m → Total n → Total (if b then m else n)
    if-Total true m n h k = h
    if-Total false m n h k = k

    pub if-Safe :
        (J : Jvm) (b : Bool) (m n : Native P H A)
        → Safe J m
        → Safe J n
        → Safe J (if b then m else n)
    if-Safe J true m n h k = h
    if-Safe J false m n h k = k

    pub Total-Safe : (J : Jvm) (m : Native P H A) → Total m → Safe J m
    Total-Safe J m t = record { at = λ w h. t.at w }

    pub Safe-SafeAt :
        (J : Jvm) (p : ℕ) (field : String) (m : Native P H A) → Safe J m → SafeAt J p field m
    Safe-SafeAt J p field m s = record { at = λ w h at_p. s.at w h }

  module _ {A B : Type 0} where
    pub on_call-Total :
        (r : Call B) (f : B → Native P H A) (g : Native P H A)
        → ((b : B) → Total (f b))
        → Total g
        → Total (on_call r f g)
    on_call-Total (ok b) f g hf hg = hf b
    on_call-Total (err e) f g hf hg = hg
    on_call-Total (panic p) f g hf hg = unwind-Total p

    step-Total :
        (r : Exit A × World P H) (f : A → Native P H B)
        → IsDefined r.0
        → ((a : A) (v : World P H) → IsDefined (f a v).0)
        → IsDefined (step r f).0
    step-Total (done a, v) f h k = k a v
    step-Total (panicked p, v) f h k = tt
    step-Total (Exit.undefined_behaviour, v) f h k = h

    pub bind-Total :
        (m : Native P H A) (f : A → Native P H B)
        → Total m
        → ((a : A) → Total (f a))
        → Total (m >>= f)
    bind-Total m f h k = record { at = λ w. step-Total (m w) f (h.at w) (λ a v. (k a).at v) }

  Same-HandlesLive : (J : Jvm) (w v : World P H) → Same w v → HandlesLive J w → HandlesLive J v
  Same-HandlesLive J w v s h = record {
    at = λ k o j e.
        subst (λ (g : ℕ → Option (Boxed P H)). (as_u64 j ≡ 0) ⊎ (kind_of (g (as_u64 j)) ≡ some k))
          (sym s.0) (h.at k o j e);
  }

  Same-Holds :
      (w v : World P H) (field : String) (p : ℕ) → Same w v → Holds w field p → Holds v field p
  Same-Holds w v field p s h k e =
      subst (λ (g : ℕ → Option (Boxed P H)). (p ≡ 0) ⊎ (kind_of (g p) ≡ some k)) (sym s.0) (h k e)

  module _ (J : Jvm) {A B : Type 0} where
    step-Safe :
        (w : World P H) (r : Exit A × World P H) (f : A → Native P H B)
        → IsDefined r.0
        → Same w r.1
        → ((a : A) (v : World P H) → Same w v → IsDefined (f a v).0)
        → IsDefined (step r f).0
    step-Safe w (done a, v) f h s k = k a v s
    step-Safe w (panicked p, v) f h s k = tt
    step-Safe w (Exit.undefined_behaviour, v) f h s k = h

    pub bind-Safe :
        (m : Native P H A) (f : A → Native P H B)
        → Quiet m
        → Safe J m
        → ((a : A) → Safe J (f a))
        → Safe J (m >>= f)
    bind-Safe m f q h k = record {
      at = λ w live.
          step-Safe w (m w) f (h.at w live) (q.at w)
            λ a v s. (k a).at v (Same-HandlesLive J w v s live);
    }

    -- What is read at an address before the rest.
    pub bind-SafeAt :
        (p : ℕ) (field : String) (m : Native P H A) (f : A → Native P H B)
        → Quiet m
        → SafeAt J p field m
        → ((a : A) → SafeAt J p field (f a))
        → SafeAt J p field (m >>= f)
    bind-SafeAt p field m f q h k = record {
      at = λ w live at_p.
          step-Safe w (m w) f (h.at w live at_p) (q.at w)
            λ a v s. (k a).at v (Same-HandlesLive J w v s live) (Same-Holds w v field p s at_p);
    }

    pub on_call-Safe :
        (r : Call B) (f : B → Native P H A) (g : Native P H A)
        → ((b : B) → Safe J (f b))
        → Safe J g
        → Safe J (on_call r f g)
    on_call-Safe (ok b) f g hf hg = hf b
    on_call-Safe (err e) f g hf hg = hg
    on_call-Safe (panic p) f g hf hg = Total-Safe J _ (unwind-Total p)

  module _ (J : Jvm) {B : Type 0} where
    read_long :
        (o : J.JObject) (field message : String) (f : ℤ → Native P H B)
        → ((j : ℤ) → SafeAt J (as_u64 j) field (f j))
        → (w : World P H) → HandlesLive J w
        → (r : JResult ℤ) → J.get_long o field ≡ r
        → IsDefined (step (expect r message w) f).0
    read_long o field message f k w live (value j) e =
        (k j).at w live λ kd same. live.at kd o j (ap (J.get_long o) (sym same) ∙ e)
    read_long o field message f k w live (fault x) e = tt

    -- A number that is read from a field of a Java object is an address that the field may hold.
    pub get_long-Safe :
        (o : J.JObject) (field message : String) (f : ℤ → Native P H B)
        → ((j : ℤ) → SafeAt J (as_u64 j) field (f j))
        → Safe J (expect (J.get_long o field) message >>= f)
    get_long-Safe o field message f k = record {
      at = λ w live. read_long o field message f k w live (J.get_long o field) refl;
    }

    after_pointer_in :
        (o : J.JObject) (field : String) (f : ℕ → Native P H B) (w : World P H)
        → IsDefined
            (step
              (expect (J.get_long o field) "Should be able to get field" w)
              (λ j. f (as_u64 j))).0
        → IsDefined ((pointer_in P H J o field >>= f) w).0
    unfolding pointer_in
    after_pointer_in o field f w h = at_result (J.get_long o field) h
      where
        at_result :
            (r : JResult ℤ)
            → IsDefined (step (expect r "Should be able to get field" w) (λ j. f (as_u64 j))).0
            → IsDefined
                (step (step (expect r "Should be able to get field" w) (λ j. pure (as_u64 j))) f).0
        at_result (value j) h = h
        at_result (fault e) h = tt

    pub pointer_in-Safe :
        (o : J.JObject) (field : String) (f : ℕ → Native P H B)
        → ((p : ℕ) → SafeAt J p field (f p))
        → Safe J (pointer_in P H J o field >>= f)
    pointer_in-Safe o field f k = record {
      at = λ w live.
          after_pointer_in o field f w
            ((get_long-Safe o field _ (λ j. f (as_u64 j)) (λ j. k (as_u64 j))).at w live);
    }

module _ (P : Primitives) (H : Handled P) (J : Jvm) where
  throw_class-Total :
      (r : JResult J.JObject) (class description : String)
      → Total (throw_class P H J r class description)
  unfolding throw_class
  throw_class-Total (fault e) class description = record { at = λ w. tt }
  throw_class-Total (value c) class description = record {
    at = λ w. thrown w (J.throw_new c description) refl;
  }
    where
      thrown :
          (w : World P H) (r : JResult (Unit {0}))
          → J.throw_new c description ≡ r
          → IsDefined (throw_class P H J (value c) class description w).0
      thrown w (value u) e = rw (throw_class, e) tt
      thrown w (fault x) e = rw (throw_class, e) tt

  pub throw_inner-Total : (class description : String) → Total (throw_inner P H J class description)
  unfolding throw_inner
  throw_inner-Total class description = record { at = λ w. at_pending w.pending w }
    where
      at_pending :
          (q : Option _) (w : World P H)
          → IsDefined (throw_inner P H J class description (record w { pending = q })).0
      at_pending (some e) w = tt
      at_pending none w = (throw_class-Total (J.find_class class) class description).at _

  pub throw_and_exit-Total :
      {A : Type 0} (class description : String)
      → Total (throw_and_exit P H J {A = A} class description)
  unfolding throw_and_exit
  throw_and_exit-Total class description =
      bind-Total _ _ (throw_inner-Total class description) (λ u. unwind-Total _)

  pub into_raw-Total : (b : Boxed P H) → Total (into_raw P H b)
  unfolding into_raw
  into_raw-Total b = record { at = λ w. tt }

  pub store-Total : (p : ℕ) (b : Boxed P H) → Total (store P H p b)
  store-Total p b = record { at = λ w. tt }
