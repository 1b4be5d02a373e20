-- ===== src/Jni/Invariant/Reads.antt =====
-- The parts of the native methods of api/src/lib.rs that only read.
use zendoo_sc_cryptolib.Prelude.{
  ℕ, zero, suc, ◌+◌, ◌≡◌, refl, ◌∙◌, Bool, true, false, Option, none, some, List, [], String, ◌==◌,
  if◌then◌else◌,
}
use zendoo_sc_cryptolib.Prelude.Call.{Call, ok, err, panic, Payload, string}
use zendoo_sc_cryptolib.Primitives.{Primitives}
use zendoo_sc_cryptolib.Jni.{
  Handled, World, Exit, done, panicked, Native, Exception, Jvm, JResult, value, fault, Codec, ◌>>=◌,
  step, raise, pure, unwind, expect, on_call, throw_class, throw_inner, throw_and_exit,
}
use zendoo_sc_cryptolib.Jni.Pointer.{
  Cast, deref, cast_at, read_raw_pointer, read_nullable_raw_pointer, pointer_in, read_field,
  serialize_from_raw_pointer, serialize_from_jobject, parse_jbyte_array_to_vec, fill,
  get_byte_array, read_array, read_from, read_fixed, read_bt, read_bt_list,
}
use zendoo_sc_cryptolib.Jni.Invariant.{Quiet}

module _ {P : Primitives} {H : Handled P} where
  -- Two states with the same boxes.
  abbrev pub Same : World P H → World P H → Type 0
  Same w w' = (w'.heap ≡ w.heap) × (w'.next ≡ w.next)

  raise-Same : (e : Option Exception) (w : World P H) → Same w (raise e w)
  raise-Same none w = (refl, refl)
  raise-Same (some e) w = (refl, refl)

  module _ {A : Type 0} where
    pub pure-Quiet : (a : A) → Quiet {P = P} {H = H} (pure a)
    pure-Quiet a = record { at = λ w. (refl, refl) }

    pub unwind-Quiet : (p : Payload) → Quiet {P = P} {H = H} {A = A} (unwind p)
    unwind-Quiet p = record { at = λ w. (refl, refl) }

    pub expect-Quiet : (r : JResult A) (message : String) → Quiet {P = P} {H = H} (expect r message)
    expect-Quiet (value a) message = record { at = λ w. (refl, refl) }
    expect-Quiet (fault e) message = record { at = raise-Same e }

    pub if-Quiet : (b : Bool) (m n : Native P H A) → Quiet m → Quiet n → Quiet (if b then m else n)
    if-Quiet true m n h k = h
    if-Quiet false m n h k = k

  pub on_call-Quiet :
      {A B : Type 0} (r : Call B) (f : B → Native P H A) (g : Native P H A)
      → ((b : B) → Quiet (f b))
      → Quiet g
      → Quiet (on_call r f g)
  on_call-Quiet (ok b) f g hf hg = hf b
  on_call-Quiet (err e) f g hf hg = hg
  on_call-Quiet (panic p) f g hf hg = unwind-Quiet p

  if-Same :
      {A : Type 0} (b : Bool) (w : World P H) (m n : Native P H A)
      → Quiet m
      → Quiet n
      → Same w (if b then m w else n w).1
  if-Same true w m n h k = h.at w
  if-Same false w m n h k = k.at w

  step-Same :
      {A B : Type 0} (w : World P H) (r : Exit A × World P H) (f : A → Native P H B)
      → Same w r.1
      → ((a : A) → Quiet (f a))
      → Same w (step r f).1
  step-Same w (done a, v) f (h, n) q = let (h', n') = (q a).at v in (h' ∙ h, n' ∙ n)
  step-Same w (panicked p, v) f s q = s
  step-Same w (Exit.undefined_behaviour, v) f s q = s

  pub bind-Quiet :
      {A B : Type 0} (m : Native P H A) (f : A → Native P H B)
      → Quiet m
      → ((a : A) → Quiet (f a))
      → Quiet (m >>= f)
  bind-Quiet m f qm qf = record { at = λ w. step-Same w (m w) f (qm.at w) qf }

  pub deref-Quiet : {A : Type 0} (a : Option A) → Quiet (deref P H a)
  deref-Quiet none = record { at = λ w. (refl, refl) }
  deref-Quiet (some a) = record { at = λ w. (refl, refl) }

module _ (P : Primitives) (H : Handled P) (J : Jvm) where
  throw_class-Same :
      (c : J.JObject) (class description : String) (w : World P H) (r : JResult (Unit {0}))
      → J.throw_new c description ≡ r
      → Same w (throw_class P H J (value c) class description w).1
  unfolding throw_class
  throw_class-Same c class description w (value u) h = rw (throw_class, h) (refl, refl)
  throw_class-Same c class description w (fault e) h = rw (throw_class, h) (raise-Same e w)

  throw_class-Quiet :
      (r : JResult J.JObject) (class description : String)
      → Quiet (throw_class P H J r class description)
  unfolding throw_class
  throw_class-Quiet (fault e) class description = record { at = raise-Same e }
  throw_class-Quiet (value c) class description = record {
    at = λ w. throw_class-Same c class description w (J.throw_new c description) refl;
  }

  throw_inner-Same :
      (class description : String) (q : Option Exception) (w : World P H)
      → Same w (throw_inner P H J class description (record w { pending = q })).1
  unfolding throw_inner
  throw_inner-Same class description (some e) w = (refl, refl)
  throw_inner-Same class description none w =
      (throw_class-Quiet (J.find_class class) class description).at (record w { pending = none })

  pub throw_inner-Quiet : (class description : String) → Quiet (throw_inner P H J class description)
  throw_inner-Quiet class description = record {
    at = λ w. throw_inner-Same class description w.pending w;
  }

  pub throw_and_exit-Quiet :
      {A : Type 0} (class description : String)
      → Quiet (throw_and_exit P H J {A = A} class description)
  unfolding throw_and_exit
  throw_and_exit-Quiet class description =
      bind-Quiet (throw_inner P H J class description) _ (throw_inner-Quiet class description)
        (λ _. unwind-Quiet _)

  pub read_raw_pointer-Quiet :
      {A : Type 0} (cast : Cast P H A) (p : ℕ) → Quiet (read_raw_pointer P H J cast p)
  unfolding read_raw_pointer
  read_raw_pointer-Quiet cast p = record {
    at = λ w.
        if-Same (p == 0) w
          (throw_and_exit P H J "java/lang/NullPointerException" "Received null pointer")
          (deref P H (cast_at P H cast (w.heap p))) (throw_and_exit-Quiet _ _)
          (deref-Quiet (cast_at P H cast (w.heap p)));
  }

  pub ruleset reading = (
    pure-Quiet, unwind-Quiet, expect-Quiet, if-Quiet, on_call-Quiet, bind-Quiet, throw_inner-Quiet,
    throw_and_exit-Quiet, read_raw_pointer-Quiet,
  )

  pub pointer_in-Quiet : (o : J.JObject) (field : String) → Quiet (pointer_in P H J o field)
  unfolding pointer_in
  pointer_in-Quiet o field = search reading

  pub read_field-Quiet :
      {A : Type 0} (cast : Cast P H A) (o : J.JObject) (field : String)
      → Quiet (read_field P H J cast o field)
  unfolding read_field
  read_field-Quiet cast o field = search (reading, pointer_in-Quiet)

  pub serialize_from_jobject-Quiet :
      {A : Type 0} (codec : Codec A) (cast : Cast P H A) (o : J.JObject) (field : String)
      (compressed : Option Bool)
      → Quiet (serialize_from_jobject P H J codec cast o field compressed)
  unfolding serialize_from_jobject serialize_from_raw_pointer
  serialize_from_jobject-Quiet codec cast o field compressed = search reading

  nullable-Same :
      {A : Type 0} (b : Bool) (w : World P H) (found : Option A)
      → Same w
          (if b then (done none, w) else (elim found as (λ _. Exit (Option A) × World P H) [
            | none ↦ (Exit.undefined_behaviour, w)
            | some a ↦ (done (some a), w)
          ])).1
  nullable-Same true w found = (refl, refl)
  nullable-Same false w none = (refl, refl)
  nullable-Same false w (some a) = (refl, refl)

  pub read_nullable_raw_pointer-Quiet :
      {A : Type 0} (cast : Cast P H A) (p : ℕ) → Quiet (read_nullable_raw_pointer P H J cast p)
  unfolding read_nullable_raw_pointer
  read_nullable_raw_pointer-Quiet cast p = record {
    at = λ w. nullable-Same (p == 0) w (cast_at P H cast (w.heap p));
  }

  pub parse_jbyte_array_to_vec-Quiet :
      (arr : J.JObject) (expected : ℕ) → Quiet (parse_jbyte_array_to_vec P H J arr expected)
  unfolding parse_jbyte_array_to_vec
  parse_jbyte_array_to_vec-Quiet arr expected = search reading

  filled-Quiet :
      (r : Option (List ℕ))
      → Quiet {P = P} {H = H} {A = List ℕ}
          (elim r [ none ↦ unwind (string "index out of bounds") | some b ↦ pure b ])
  filled-Quiet none = unwind-Quiet _
  filled-Quiet (some b) = pure-Quiet b

  pub get_byte_array-Quiet :
      (arr : J.JObject) (buffer : List ℕ) → Quiet (get_byte_array P H J arr buffer)
  unfolding get_byte_array
  get_byte_array-Quiet arr buffer =
      bind-Quiet _ _ (expect-Quiet _ _) λ vec. filled-Quiet (fill buffer vec)

  pub read_from-Quiet :
      {A : Type 0} (arr : J.JObject) (each : J.JObject → Native P H A) (i left : ℕ)
      → ((o : J.JObject) → Quiet (each o))
      → Quiet (read_from P H J arr each i left)
  unfolding read_from
  read_from-Quiet arr each i zero q = pure-Quiet []
  read_from-Quiet arr each i (suc left) q = bind-Quiet _ _ (expect-Quiet _ _) λ o.
      bind-Quiet _ _ (q o)
        λ a. bind-Quiet _ _ (read_from-Quiet arr each (i + 1) left q) λ rest. pure-Quiet _

  pub read_array-Quiet :
      {A : Type 0} (arr : J.JObject) (each : J.JObject → Native P H A)
      → ((o : J.JObject) → Quiet (each o))
      → Quiet (read_array P H J arr each)
  unfolding read_array
  read_array-Quiet arr each q = search (reading, q, read_from-Quiet)

  pub read_fixed-Quiet : (size : ℕ) (arr : J.JObject) → Quiet (read_fixed P H J size arr)
  unfolding read_fixed
  read_fixed-Quiet size arr = search reading

  pub read_bt-Quiet : (o : J.JObject) → Quiet (read_bt P H J o)
  unfolding read_bt
  read_bt-Quiet o = search (reading, read_fixed-Quiet)

  pub read_bt_list-Quiet : (arr : J.JObject) → Quiet (read_bt_list P H J arr)
  unfolding read_bt_list
  read_bt_list-Quiet arr = read_array-Quiet arr (read_bt P H J) read_bt-Quiet
