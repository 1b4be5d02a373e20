-- ===== src/Examples/Honest.antt =====
-- The certificate of the two keys through the toy machine: 0 is an empty list, 1 the list of the
-- signatures, 2 that of the keys.
use zendoo_sc_cryptolib.Prelude.{
  subst, some, true, ℕ, List, ◌+◌, ◌≡◌, refl, ap, arith, false, [], ◌∷◌, ◌==◌, if◌then◌else◌,
}
use zendoo_sc_cryptolib.Prelude.Call.{Call, ok, err, panic, ok-injective}
use zendoo_sc_cryptolib.Calls.{compute_msg_to_sign}
use zendoo_sc_cryptolib.Calls.Certificate.Made.{Counts, no_more, absent, accepted}
use zendoo_sc_cryptolib.Calls.Tally.{NullRejected}
use zendoo_sc_cryptolib.Prelude.Words.{pos}
use zendoo_sc_cryptolib.Jni.{Boxed, World, done, Jvm, value}
use zendoo_sc_cryptolib.Jni.Handle.{boxed}
use zendoo_sc_cryptolib.Jni.Pointer.{
  pointer_in, read_raw_pointer, read_nullable_raw_pointer, read_field, read_array, read_bt_list,
}
use zendoo_sc_cryptolib.Jni.Roundtrip.{ArrayLaws}
use zendoo_sc_cryptolib.Jni.SigProof.{read_lists, read_signers, read_signer}
use zendoo_sc_cryptolib.Jni.SigProof.Honest.{
  Arguments, MakesResult, IsAnswered, native_verify_proof-create_proof,
}
use zendoo_sc_cryptolib.Examples.Toy.{Element, element, toy, toy_field, toy_gadgets, toy_calls}
use zendoo_sc_cryptolib.Examples.Machine.{handled, machine, world}
use zendoo_sc_cryptolib.Examples.Objects.{array_of, array_of-read}
use zendoo_sc_cryptolib.Examples.Threshold.{keys, sigs, null_rejected}
use zendoo_sc_cryptolib.Examples.Argument.{argument, argument_laws, constant_made}
use zendoo_sc_cryptolib.Examples.Argument.Ready.{ready}

abbrev pub pair_of : Call (Element × Element) → Element × Element
pair_of (ok p) = p
pair_of (err e) = (element 0, element 0)
pair_of (panic p) = (element 0, element 0)

abbrev pub message : Element × Element
message = pair_of (compute_msg_to_sign toy (element 3) 7 (element 4) 10 20 [])

pub message_made :
    compute_msg_to_sign toy (element 3) 7 (element 4) 10 20 [] ≡ ok (message.0, message.1)
unfolding compute_msg_to_sign
message_made = refl

abbrev put : World toy handled → Boxed toy handled → World toy handled
put w b = boxed toy handled machine w b

abbrev with_elements : World toy handled
with_elements =
    put (put (put world (Boxed.field_element (element 3))) (Boxed.field_element (element 4)))
      (Boxed.field_element constant_made.0)

-- The elements at 4096 to 4098, a signature at 4099, the keys at 4100 and 4101.
abbrev pub with_signers : World toy handled
with_signers = put (put (put with_elements (Boxed.schnorr_sig 38288535)) (Boxed.g2 5)) (Boxed.g2 9)

abbrev pub lists : Jvm
lists = record machine {
  byte_array_from_slice = array_of;
  get_array_length = λ o. value (if o == 0 then 0 else 2);
  get_object_array_element =
      λ o i. value (if o == 1 then (if i == 0 then 4099 else 0) else 4100 + i);
  get_string = λ o. value (if o == 5 then "pk" else "vk");
}

lists-ArrayLaws : ArrayLaws lists
lists-ArrayLaws = record {
  convert_byte_array-from_slice = λ bytes o h. ap value (array_of-read bytes o h);
}

pub bts_read : read_bt_list toy handled lists 0 with_signers ≡ (done [], with_signers)
unfolding read_bt_list read_array
bts_read = refl

pub signers_read : read_lists toy handled lists 1 2 with_signers ≡ (done (sigs, keys), with_signers)
unfolding read_lists read_signers read_signer pointer_in read_field read_raw_pointer
    read_nullable_raw_pointer
signers_read = refl

abbrev pub arguments : Arguments toy handled lists with_signers
arguments = record {
  bt_list = 0;
  sc_id = 4096;
  root = 4097;
  constant = 4098;
  sigs_list = 1;
  pks_list = 2;
  proving_key_path = 5;
  verification_key_path = 6;
  bts = [];
  id = element 3;
  root_fe = element 4;
  constant_fe = constant_made.0;
  sigs = sigs;
  pks = keys;
  pk_path = "pk";
  vk_path = "vk";
  bts_read = bts_read;
  signers_read = signers_read;
  id_at = record { number = pos 4096; in_field = refl; not_null = omega arith; holds = refl };
  root_at = record { number = pos 4097; in_field = refl; not_null = omega arith; holds = refl };
  constant_at = record { number = pos 4098; in_field = refl; not_null = omega arith; holds = refl };
  pk_path_read = refl;
  vk_path_read = refl;
}

result_made : MakesResult toy handled lists (2 ∷ []) 1 2 2
result_made = record { class = 1; array = refl; found = refl; constructed = refl }

results_made :
    (proof : Unit {0}) (bytes : List ℕ)
    → argument.serialize_proof proof (some true) ≡ ok bytes
    → (proof_object : ℕ) × (result : ℕ) × MakesResult toy handled lists bytes 1 proof_object result
results_made proof bytes h =
    subst
      (λ bs.
        (proof_object : ℕ) × (result : ℕ) × MakesResult toy handled lists bs 1 proof_object result)
      (ok-injective h) (2, 2, result_made)

one_counted : Counts toy message.1 keys sigs 1
unfolding compute_msg_to_sign
one_counted = accepted refl (absent no_more)

null_refused : NullRejected toy message.1 keys
null_refused = null_rejected message message_made

native_verify_proof-create_proof_example :
    IsAnswered toy toy_field toy_gadgets toy_calls handled lists argument with_signers arguments
      false
      (pos 7)
      (pos 10)
      (pos 20)
      (pos 1)
      1
      0
      1
      1
      5
      1
      1
      1
      6
      1
native_verify_proof-create_proof_example =
    native_verify_proof-create_proof toy toy_field toy_gadgets toy_calls handled lists argument
      with_signers arguments false (pos 7) (pos 10) (pos 20) (pos 1) 1 0 1 1 5 1 1 1 6 message.0
      message.1 1 2 lists-ArrayLaws argument_laws ready results_made refl refl (omega arith)
      (omega arith) constant_made.1 message_made null_refused one_counted (omega arith)
