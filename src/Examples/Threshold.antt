-- ===== src/Examples/Threshold.antt =====
-- The theorems of the threshold signature at two keys.
use zendoo_sc_cryptolib.Prelude.{
  ℕ, ◌^◌, ◌≤◌, ◌<◌, ◌≡◌, refl, Bool, map, length, true, false, Option, none, some, List, [], ◌∷◌,
  arith,
}
use zendoo_sc_cryptolib.Prelude.Call.{Call, ok, err, panic}
use zendoo_sc_cryptolib.Threshold.{
  NaiveTresholdSignature, ConstraintSystem, alloc_all, b_bool, new, pack_fees, verify_all,
  count_valid, get_instance_for_setup, generate_constraints,
}
use zendoo_sc_cryptolib.Prelude.Log.{log_max_pks}
use zendoo_sc_cryptolib.Prelude.Bits.{value_be, bits_be, bits_le}
use zendoo_sc_cryptolib.Threshold.Fees.{pack_fees_injective}
use zendoo_sc_cryptolib.Threshold.Soundness.{satisfied-threshold, count_verified}
use zendoo_sc_cryptolib.Threshold.Trace.{Values, IsTrace}
use zendoo_sc_cryptolib.Calls.{
  check_sigs, compute_msg_to_sign, create_circuit, schnorr_verify_signature,
}
use zendoo_sc_cryptolib.Calls.Inputs.{empty_system, SatisfiedAt}
use zendoo_sc_cryptolib.Calls.Completeness.{create_circuit-satisfied}
use zendoo_sc_cryptolib.Calls.Insufficient.{create_circuit-insufficient}
use zendoo_sc_cryptolib.Calls.Tally.{NullRejected, check_sigs-verify_all}
use zendoo_sc_cryptolib.Threshold.Count.{count_true}
use zendoo_sc_cryptolib.Examples.Toy.{Element, element, toy, toy_field, toy_gadgets, toy_calls}

abbrev pub keys : List ℕ
keys = 5 ∷ 9 ∷ []

-- The first key signs the message of these inputs, the second does not.
abbrev pub sigs : List (Option ℕ)
sigs = some 38288535 ∷ none ∷ []

abbrev pub fallback : NaiveTresholdSignature toy
fallback = get_instance_for_setup toy 2

abbrev pub circuit_of : Call (NaiveTresholdSignature toy × ℕ) → NaiveTresholdSignature toy
circuit_of (ok (c, n)) = c
circuit_of (err e) = fallback
circuit_of (panic p) = fallback

-- The circuits of this certificate for a threshold of one and of two.
abbrev pub certificate : (t : ℕ) → Call (NaiveTresholdSignature toy × ℕ)
certificate t = create_circuit toy false keys sigs (element 3) 7 (element 4) 10 20 [] t

abbrev pub system_of : Call (ConstraintSystem toy) → ConstraintSystem toy
system_of (ok cs) = cs
system_of (err e) = empty_system toy
system_of (panic p) = empty_system toy

abbrev pub left : (t : ℕ) → ConstraintSystem toy
left t = system_of (generate_constraints toy (circuit_of (certificate t)) (empty_system toy))

pub null_rejected :
    (r : Element × Element)
    → compute_msg_to_sign toy (element 3) 7 (element 4) 10 20 [] ≡ ok r
    → NullRejected toy r.1 keys
unfolding schnorr_verify_signature
null_rejected r h = ground arith

pub certificate-one : certificate 1 ≡ ok (circuit_of (certificate 1), 1)
unfolding create_circuit schnorr_verify_signature new b_bool log_max_pks bits_be
certificate-one = refl

certificate-two : certificate 2 ≡ ok (circuit_of (certificate 2), 1)
unfolding create_circuit schnorr_verify_signature new b_bool log_max_pks bits_be
certificate-two = refl

pub left-one :
    generate_constraints toy (circuit_of (certificate 1)) (empty_system toy) ≡ ok (left 1)
unfolding create_circuit schnorr_verify_signature new b_bool log_max_pks value_be bits_be bits_le
    generate_constraints alloc_all pack_fees verify_all count_valid
left-one = refl

left-two : generate_constraints toy (circuit_of (certificate 2)) (empty_system toy) ≡ ok (left 2)
unfolding create_circuit schnorr_verify_signature new b_bool log_max_pks value_be bits_be bits_le
    generate_constraints alloc_all pack_fees verify_all count_valid
left-two = refl

create_circuit-satisfied_example :
    SatisfiedAt toy keys (element 3) 7 (element 4) 10 20 [] 1 (circuit_of (certificate 1)) 1
create_circuit-satisfied_example =
    create_circuit-satisfied toy toy_field toy_gadgets toy_calls false keys sigs (element 3) 7
      (element 4) 10 20 [] 1 (omega arith) (omega arith) (omega arith) (omega arith) (omega arith)
      null_rejected certificate-one

create_circuit-insufficient_example : (left 2).satisfied ≡ false
create_circuit-insufficient_example =
    create_circuit-insufficient toy toy_field toy_gadgets toy_calls false keys sigs (element 3) 7
      (element 4) 10 20 [] 2 (empty_system toy) (left 2) (omega arith) (omega arith) (omega arith)
      (omega arith) (omega arith) null_rejected certificate-two left-two

threshold-one : (circuit_of (certificate 1)).threshold ≡ some (element 1)
unfolding create_circuit schnorr_verify_signature new b_bool log_max_pks bits_be
threshold-one = refl

pub holds-one : (left 1).satisfied ≡ true
unfolding create_circuit schnorr_verify_signature new b_bool log_max_pks value_be bits_be bits_le
    generate_constraints alloc_all pack_fees verify_all count_valid
holds-one = refl

pub two_keys : (circuit_of (certificate 1)).max_pks ≡ 2
unfolding create_circuit schnorr_verify_signature new b_bool log_max_pks bits_be
two_keys = refl

max_pks-one : (circuit_of (certificate 1)).max_pks ≤ 2 ^ 63
unfolding create_circuit schnorr_verify_signature new b_bool log_max_pks bits_be
max_pks-one = omega arith

word-one : toy_field.to_nat (element 1) < 2 ^ 64
unfolding toy_field
word-one = omega arith

satisfied-threshold_example :
    (v : Values toy) × IsTrace toy (circuit_of (certificate 1)) (empty_system toy) (left 1) v
    × (v.t ≡ element 1)
    × (toy_field.to_nat (element 1) ≤ count_verified toy v.message v.pks v.sigs)
satisfied-threshold_example =
    satisfied-threshold toy toy_field toy_gadgets (circuit_of (certificate 1)) (empty_system toy)
      (left 1) max_pks-one (element 1) threshold-one word-one left-one holds-one

pack_fees_injective_example : (◌≡◌ {A = ℕ} 10 10) × (◌≡◌ {A = ℕ} 20 20)
pack_fees_injective_example =
    pack_fees_injective toy toy_field toy_gadgets 10 20 10 20 (omega arith) (omega arith)
      (omega arith) (omega arith) refl

loop-two : check_sigs toy (element 38288530) keys sigs ≡ ok (1, some 38288535 ∷ some 0 ∷ [])
unfolding check_sigs schnorr_verify_signature
loop-two = refl

rejected-two : NullRejected toy (element 38288530) keys
unfolding schnorr_verify_signature
rejected-two = (refl, (refl, tt))

check_sigs-verify_all_example :
    (given : List ℕ) × (vs : List Bool) × (some 38288535 ∷ some 0 ∷ [] ≡ map some given)
    × (length given ≡ 2)
    × (verify_all toy (element 38288530) keys given ≡ ok vs)
    × (1 ≡ count_true vs)
check_sigs-verify_all_example =
    check_sigs-verify_all toy toy_field toy_gadgets (element 38288530) keys sigs refl rejected-two
      loop-two
