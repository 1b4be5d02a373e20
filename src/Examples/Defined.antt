-- ===== src/Examples/Defined.antt =====
-- A machine with one object, 4096, that holds the field element at 4096; every other handle is null.
-- A session makes another field element and frees it.
use zendoo_sc_cryptolib.Prelude.{
  ℕ, ◌≡◌, ◌≢◌, refl, inl, inr, Bool, true, false, none, ◌==◌, subst, arith,
}
use zendoo_sc_cryptolib.Prelude.Words.{ℤ, pos, as_u64}
use zendoo_sc_cryptolib.Jni.{World, Jvm, JResult, value, ffi_export}
use zendoo_sc_cryptolib.Jni.Pointer.{return_jobject, return_field_element, into_raw, free_box}
use zendoo_sc_cryptolib.Jni.FieldElement.{native_create_from_long, native_free_field_element}
use zendoo_sc_cryptolib.Jni.Handle.{boxed}
use zendoo_sc_cryptolib.Jni.Invariant.{Kind, an_element, undefined, finished, made, IsWellFormed}
use zendoo_sc_cryptolib.Jni.Invariant.Rules.{apart_above}
use zendoo_sc_cryptolib.Jni.Defined.{field_of, HandlesLive, IsHandle}
use zendoo_sc_cryptolib.Jni.Methods.FieldElement
use zendoo_sc_cryptolib.Jni.Methods.FieldElement.{create_from_long, free_field_element, equals}
use zendoo_sc_cryptolib.Jni.Session.{CallOf, run, Session, begun, called, caught, on_field_element}
use zendoo_sc_cryptolib.Jni.Session.Defined.{run-ne-undefined}
use zendoo_sc_cryptolib.Jni.Session.Handles.{Session-HandlesLive}
use zendoo_sc_cryptolib.Examples.Toy.{toy}
use zendoo_sc_cryptolib.Examples.Machine.{handled, machine, world, three}
use zendoo_sc_cryptolib.Examples.Session.{libraries}
use text.Mathlib.Text.{◌==◌ as str_eq}

abbrev address : Bool → Bool → ℕ
address true true = 4096
address _ _ = 0

abbrev holder : Jvm
holder = record machine {
  get_long = λ o f. value (pos (address (str_eq f "fieldElementPointer") (o == 4096)));
}

abbrev with_three : World toy handled
with_three = boxed toy handled machine world three

number : JResult ℤ → ℕ
number (value j) = as_u64 j
number _ = 0

address-IsHandle : (b : Bool) → IsHandle with_three an_element (as_u64 (pos (address true b)))
address-IsHandle true = inr refl
address-IsHandle false = inl refl

get_long-IsHandle :
    (k : Kind) (o : ℕ) → IsHandle with_three k (number (holder.get_long o (field_of k)))
unfolding number
get_long-IsHandle an_element o = address-IsHandle (o == 4096)
get_long-IsHandle _ o = inl refl

with_three-HandlesLive : HandlesLive holder with_three
unfolding number
with_three-HandlesLive = record {
  at = λ k o j e. subst (λ r. IsHandle with_three k (number r)) e (get_long-IsHandle k o);
}

run-ne-undefined_example :
    (run toy handled libraries holder (on_field_element (equals 4096 4096)) with_three).0
    ≢ undefined
run-ne-undefined_example =
    run-ne-undefined toy handled libraries holder (on_field_element (equals 4096 4096)) with_three
      with_three-HandlesLive tt

abbrev make_seven : CallOf libraries machine
make_seven = on_field_element (create_from_long (pos 7))

abbrev free_seven : CallOf libraries machine
free_seven = on_field_element (free_field_element 4097)

abbrev with_seven : World toy handled
with_seven = (run toy handled libraries machine make_seven with_three).1

abbrev without_seven : World toy handled
without_seven = (run toy handled libraries machine free_seven with_seven).1

made_seven : (run toy handled libraries machine make_seven with_three).0 ≡ finished
unfolding run FieldElement.run native_create_from_long made ffi_export return_field_element
    return_jobject into_raw
made_seven = refl

freed_seven : (run toy handled libraries machine free_seven with_seven).0 ≡ finished
unfolding run FieldElement.run native_create_from_long native_free_field_element made ffi_export
    return_field_element return_jobject into_raw free_box
freed_seven = refl

address-ne : (b c : Bool) → 4097 ≢ as_u64 (pos (address b c))
address-ne true true = omega arith
address-ne true false = omega arith
address-ne false c = omega arith

number-ne : (k : Kind) (o : ℕ) → 4097 ≢ number (holder.get_long o (field_of k))
unfolding number
number-ne k o = address-ne (str_eq (field_of k) "fieldElementPointer") (o == 4096)

spared : (k : Kind) (o : ℕ) (j : ℤ) → holder.get_long o (field_of k) ≡ value j → 4097 ≢ as_u64 j
unfolding number
spared k o j e = subst (λ r. 4097 ≢ number r) e (number-ne k o)

with_three-IsWellFormed : IsWellFormed with_three
with_three-IsWellFormed = record {
  not_null = omega arith;
  empty_null = refl;
  fresh = λ p l. rw (apart_above 4096 p l) refl;
}

session : Session toy handled libraries holder with_three (record without_seven { pending = none })
session = caught (
    called (called begun machine make_seven made_seven λ k o j e l. tt) machine free_seven
      freed_seven λ k o j e l. spared k o j e)

Session-HandlesLive_example :
    HandlesLive holder (record without_seven { pending = none })
    × ((run toy handled libraries holder
          (on_field_element (equals 4096 4096))
          (record without_seven { pending = none })).0
        ≢ undefined)
Session-HandlesLive_example =
    Session-HandlesLive toy handled libraries holder (on_field_element (equals 4096 4096))
      with_three-IsWellFormed with_three-HandlesLive session tt
