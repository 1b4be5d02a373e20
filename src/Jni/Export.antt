-- ===== src/Jni/Export.antt =====
-- What Java sees of a native method that fails: `ffi_export!` and `throw_and_exit!` of
-- api/src/exception.rs, and the null check of `read_raw_pointer` in api/src/lib.rs.
use zendoo_sc_cryptolib.Prelude.{◌≡◌, refl, ap, ◌∙◌, Option, none, some, String}
use zendoo_sc_cryptolib.Prelude.Call.{Payload, string}
use zendoo_sc_cryptolib.Primitives.{Primitives}
use zendoo_sc_cryptolib.Jni.{
  Handled, World, Exit, done, panicked, returned, Native, Exception, Jvm, JResult, value, ◌>>=◌,
  step, any_to_string, throw_inner, throw_and_exit, ffi_export, throw_class,
}
use zendoo_sc_cryptolib.Jni.Pointer.{Cast, read_raw_pointer}

-- The exception of a class with a description.
abbrev pub exception : (class description : String) → Exception
exception class description = record { class = class; description = description }

abbrev pub with_pending : {P : Primitives} {H : Handled P} → World P H → Exception → World P H
with_pending w e = record w { pending = some e }

-- The first exception that the world had, or the one given.
unfoldable pub first_exception : Option Exception → Exception → Exception
first_exception none e = e
first_exception (some e') e = e'

module _ (P : Primitives) (H : Handled P) (J : Jvm) where
  -- The virtual machine finds a class and can throw exceptions of it.
  unfoldable pub Throws : String → Type 0
  Throws class =
      (c : J.JObject) × (J.find_class class ≡ value c)
      × ((description : String) → J.throw_new c description ≡ value tt)

  throw_class_lem :
      (c : J.JObject) (class description : String) (w : World P H)
      → J.throw_new c description ≡ value tt
      → throw_class P H J (value c) class description w
        ≡ (done tt, with_pending w (exception class description))
  unfolding throw_class
  throw_class_lem c class description w h = rw (throw_class, h) refl

  throw_inner_at :
      (class description : String)
      → Throws class
      → (w : World P H) (q : Option Exception) → w.pending ≡ q
      → throw_inner P H J class description w
        ≡ (done tt, with_pending w (first_exception q (exception class description)))
  unfolding throw_inner Throws first_exception
  throw_inner_at class description (c, found, thrown) w none h =
      ap
        (λ (q : Option Exception). elim q [
          | none ↦ throw_class P H J (J.find_class class) class description w
          | some e ↦ (done tt, w)
        ])
        h
      ∙ ap (λ (r : JResult J.JObject). throw_class P H J r class description w) found
      ∙ throw_class_lem c class description w (thrown description)
  throw_inner_at class description t w (some e) h =
      let set : Option Exception → Exit (Unit {0}) × World P H =
        λ q. (done tt, record w { pending = q }) in
      ap
        (λ (q : Option Exception). elim q [
          | none ↦ throw_class P H J (J.find_class class) class description w
          | some e ↦ (done tt, w)
        ])
        h
      ∙ ap set h

  pub throw_inner_lem :
      (class description : String)
      → Throws class
      → (w : World P H)
      → throw_inner P H J class description w
        ≡ (done tt, with_pending w (first_exception w.pending (exception class description)))
  throw_inner_lem class description t w = throw_inner_at class description t w w.pending refl

  -- A panic of a native method does not leave the method: if the machine can throw a
  -- RuntimeException, Java gets the default of the return type, the boxes are as the panic left
  -- them, and an exception is pending, which is the one that was pending at the panic if there was
  -- one, and else a RuntimeException with the text of the panic.
  pub ffi_export-panicked :
      {A : Type 0} (default : A) (body : Native P H A) (w w' : World P H) (p : Payload)
      → Throws "java/lang/RuntimeException"
      → body w ≡ (panicked p, w')
      → ffi_export P H J default body w ≡ (
        returned default,
        with_pending w'
            (first_exception w'.pending (exception "java/lang/RuntimeException" (any_to_string p))),
      )
  unfolding ffi_export
  ffi_export-panicked default body w w' p t h =
      rw (h, throw_inner_lem "java/lang/RuntimeException" (any_to_string p) t w') refl

  -- A native method that reads a null pointer gives Java the default of the return type and a
  -- NullPointerException, whatever it would have done after that, and nothing else changes: if no
  -- exception is pending and the machine can throw one.
  pub read_raw_pointer-null :
      {A B : Type 0} (default : B) (cast : Cast P H A) (k : A → Native P H B) (w : World P H)
      → Throws "java/lang/NullPointerException"
      → Throws "java/lang/RuntimeException"
      → w.pending ≡ none
      → ffi_export P H J default (read_raw_pointer P H J cast 0 >>= k) w ≡ (
        returned default,
        with_pending w (exception "java/lang/NullPointerException" "Received null pointer"),
      )
  unfolding read_raw_pointer throw_and_exit first_exception
  read_raw_pointer-null {A = A} default cast k w t r h =
      let leave : Unit {0} → World P H → Exit A × World P H =
        λ u v. (panicked (string "Thrown exception"), v) in
      let npe = exception "java/lang/NullPointerException" "Received null pointer" in
      ffi_export-panicked default (read_raw_pointer P H J cast 0 >>= k) w (with_pending w npe)
        (string "Thrown exception") r
        (ap (λ (r : Exit (Unit {0}) × World P H). step (step r leave) k)
          (throw_inner_at "java/lang/NullPointerException" "Received null pointer" t w none h))
