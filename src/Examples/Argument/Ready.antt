-- ===== src/Examples/Argument/Ready.antt =====
-- The toy argument system proves every witness of the certificate's inputs.
use zendoo_sc_cryptolib.Prelude.{◌≡◌, refl, sym, ap, ◌∙◌, true, false, [], ◌∷◌, arith}
use zendoo_sc_cryptolib.Prelude.Call.{ok, invert, ok-injective, run-ok}
use zendoo_sc_cryptolib.Threshold.{NaiveTresholdSignature, generate_constraints}
use zendoo_sc_cryptolib.Calls.Backend.{CertificateProofUserInputs}
use zendoo_sc_cryptolib.Calls.Certificate.{IsWitness}
use zendoo_sc_cryptolib.Calls.Certificate.Accepted.{user_inputs, SatisfiedAt-IsWitness}
use zendoo_sc_cryptolib.Calls.Certificate.Made.{Prover}
use zendoo_sc_cryptolib.Calls.Completeness.{create_circuit-satisfied}
use zendoo_sc_cryptolib.Calls.Inputs.{empty_system}
use zendoo_sc_cryptolib.Examples.Toy.{Element, element, toy, toy_field, toy_gadgets, toy_calls}
use zendoo_sc_cryptolib.Examples.Threshold.{
  keys, sigs, null_rejected, certificate, certificate-one, circuit_of, left, left-one, two_keys,
}
use zendoo_sc_cryptolib.Examples.Argument.{
  same_list, same_list_refl, public_inputs, IsPublic-public_inputs, made, toy_prove, toy_verify,
  toy_complete, argument, constant_made,
}

-- The inputs of the certificate with its one valid signature.
abbrev pub inputs : CertificateProofUserInputs Element
inputs = user_inputs toy constant_made.0 (element 3) 7 (element 4) 10 20 [] 1

IsWitness-one : IsWitness toy 2 inputs (circuit_of (certificate 1))
IsWitness-one =
    SatisfiedAt-IsWitness toy toy_field toy_gadgets toy_calls keys (element 3) 7 (element 4) 10 20
      [] 1 constant_made.0 (circuit_of (certificate 1)) 1 two_keys constant_made.1
      (create_circuit-satisfied toy toy_field toy_gadgets toy_calls false keys sigs (element 3) 7
        (element 4) 10 20 [] 1 (omega arith) (omega arith) (omega arith) (omega arith) (omega arith)
        null_rejected certificate-one)

proved_one : toy_prove (circuit_of (certificate 1)) ≡ ok tt
unfolding toy_prove made
proved_one =
    run-ok (generate_constraints toy (circuit_of (certificate 1)) (empty_system toy)) _ left-one
      (ap made (same_list_refl (left 1).inputs))

toy_proves :
    (ins : CertificateProofUserInputs Element) (c : NaiveTresholdSignature toy)
    → toy_verify ins ≡ ok true
    → IsWitness toy 2 ins c
    → toy_prove c ≡ ok tt
unfolding toy_prove toy_verify made
toy_proves ins c accepts wit = invert (public_inputs ins) _ accepts λ xs run h.
    let same : wit.cs.inputs ≡ xs =
      ok-injective (sym (IsPublic-public_inputs ins wit.cs.inputs wit.inputs) ∙ run) in
    run-ok (generate_constraints toy c (empty_system toy)) _ wit.runs
      (ap (λ ys. made (same_list ys (left 1).inputs)) same ∙ ap made (ok-injective h))

pub ready : Prover toy argument 2 inputs "pk" true true
ready = record {
  pk = 1;
  ck = 1000;
  pk_read = refl;
  ck_read = refl;
  proves = λ c zk draw wit. (
    tt,
    toy_proves inputs c (toy_complete inputs (circuit_of (certificate 1)) proved_one IsWitness-one)
        wit,
  );
  serializes = λ proof compressed. (2 ∷ [], refl);
}
