-- ===== src/Examples/Argument.antt =====
-- A toy argument system that is complete and sound: it proves one circuit, and its verifier computes
-- the public inputs and compares them with that circuit's.
pub mod Ready
use zendoo_sc_cryptolib.Prelude.{
  ℕ, ◌≡◌, refl, sym, ap, ◌∙◌, Bool, true, false, ◌&&◌, Bool-cases, Option, none, some, inl, inr,
  List, [], ◌∷◌, ◌==◌, ==→eq, eq→==, arith,
}
use zendoo_sc_cryptolib.Prelude.Call.{Call, ok, err, external, invert, ok-injective, run-ok, ◌>>=◌}
use zendoo_sc_cryptolib.Threshold.{NaiveTresholdSignature, ConstraintSystem, generate_constraints}
use zendoo_sc_cryptolib.Prelude.Bits.{value_be, bits_be, bits_le}
use zendoo_sc_cryptolib.Prelude.Log.{log_max_pks}
use zendoo_sc_cryptolib.Threshold.{b_bool, new, alloc_all, pack_fees, verify_all, count_valid}
use zendoo_sc_cryptolib.Calls.{
  only_element, create_circuit, schnorr_verify_signature, compute_pks_threshold_hash,
}
use zendoo_sc_cryptolib.Calls.Certificate.Accepted.{verify-create}
use zendoo_sc_cryptolib.Calls.Proofs.{
  unwrap, create_naive_threshold_sig_proof, verify_naive_threshold_sig_proof,
}
use zendoo_sc_cryptolib.Calls.Backend.{
  Backend, CertificateProofUserInputs, coboundary_marlin, coboundary_marlin_key,
}
use zendoo_sc_cryptolib.Calls.Certificate.{IsPublic, IsWitness, ProofLaws}
use zendoo_sc_cryptolib.Calls.Inputs.{cert_data_hash, empty_system, only_element-eq-ok}
use zendoo_sc_cryptolib.Examples.Toy.{
  Element, element, element-eq, toy, toy_field, toy_gadgets, toy_calls,
}
use zendoo_sc_cryptolib.Examples.Threshold.{
  keys, sigs, null_rejected, certificate, circuit_of, left, left-one, holds-one, two_keys,
}

same_list : List Element → List Element → Bool
same_list [] [] = true
same_list [] (y ∷ ys) = false
same_list (x ∷ xs) [] = false
same_list (x ∷ xs) (y ∷ ys) = x.0 == y.0 && same_list xs ys

same_list-eq : (xs ys : List Element) → same_list xs ys ≡ true → xs ≡ ys
unfolding same_list
same_list-eq [] [] h = refl
same_list-eq [] (y ∷ ys) h = cc
same_list-eq (x ∷ xs) [] h = cc
same_list-eq (x ∷ xs) (y ∷ ys) h = elim (Bool-cases (x.0 == y.0)) [
  | inr differ ↦ cc (rw differ at h)
  | inl same ↦ cc (element-eq x y (==→eq x.0 y.0 same), same_list-eq xs ys (rw same at h))
]

same_list_refl : (xs : List Element) → same_list xs xs ≡ true
unfolding same_list
same_list_refl [] = refl
same_list_refl (x ∷ xs) = rw (eq→== x.0 x.0 refl) (same_list_refl xs)

given : {A : Type 0} → Option A → Call A
given none = err (external 3)
given (some a) = ok a

absent : {A : Type 0} → Option A → Call (Unit {0})
absent none = ok tt
absent (some a) = err (external 4)

given-eq-ok : {A : Type 0} (o : Option A) (a : A) → given o ≡ ok a → o ≡ some a
unfolding given
given-eq-ok none a h = cc
given-eq-ok (some b) a h = ap some (ok-injective h)

absent-eq-ok : {A : Type 0} (o : Option A) (u : Unit {0}) → absent o ≡ ok u → o ≡ none
unfolding absent
absent-eq-ok none u h = refl
absent-eq-ok (some b) u h = cc

data_inputs :
    CertificateProofUserInputs Element → (constant mr_bt fees : Element) → Call (List Element)
data_inputs ins constant mr_bt fees =
    cert_data_hash toy ins.sc_id (element ins.epoch_number) mr_bt (element ins.quality)
      ins.end_cumulative_sc_tx_commitment_tree_root fees
    >>= λ h. ok (constant ∷ h ∷ [])

public_inputs : CertificateProofUserInputs Element → Call (List Element)
unfolding data_inputs
public_inputs ins = absent ins.custom_fields >>= λ _. given ins.constant >>= λ constant.
    toy.get_bt_merkle_root ins.bt_list >>= λ mr_bt.
    toy.accumulate (ins.btr_fee ∷ ins.ft_min_amount ∷ []) >>= λ packed.
    only_element toy packed >>= data_inputs ins constant mr_bt

public_inputs-IsPublic :
    (ins : CertificateProofUserInputs Element) (xs : List Element)
    → public_inputs ins ≡ ok xs
    → IsPublic toy ins xs
unfolding public_inputs
public_inputs-IsPublic ins xs h0 = invert (absent ins.custom_fields) _ h0 λ u e0 h1.
    invert (given ins.constant) _ h1 λ constant e1 h2.
      invert (toy.get_bt_merkle_root ins.bt_list) _ h2 λ mr_bt e2 h3.
        invert (toy.accumulate (ins.btr_fee ∷ ins.ft_min_amount ∷ [])) _ h3 λ packed e3 h4.
          invert (only_element toy packed) _ h4 λ fees e4 h5.
            invert
              (cert_data_hash toy ins.sc_id (element ins.epoch_number) mr_bt (element ins.quality)
                ins.end_cumulative_sc_tx_commitment_tree_root fees)
              _ h5
              λ h e5 h6. record {
                constant = constant;
                mr_bt = mr_bt;
                fees = fees;
                data_hash = h;
                no_custom_fields = absent-eq-ok ins.custom_fields u e0;
                constant_lem = given-eq-ok ins.constant constant e1;
                mr_bt_lem = e2;
                fees_lem = e3 ∙ ap ok (only_element-eq-ok toy packed e4);
                data_hash_lem = e5;
                inputs_lem = sym (ok-injective h6);
              }

IsPublic-public_inputs :
    (ins : CertificateProofUserInputs Element) (xs : List Element)
    → IsPublic toy ins xs
    → public_inputs ins ≡ ok xs
unfolding public_inputs absent given only_element
IsPublic-public_inputs ins xs p =
    run-ok (absent ins.custom_fields) _ (ap absent p.no_custom_fields) (
      run-ok (given ins.constant) _ (ap given p.constant_lem) (
        run-ok (toy.get_bt_merkle_root ins.bt_list) _ p.mr_bt_lem (
          run-ok (toy.accumulate (ins.btr_fee ∷ ins.ft_min_amount ∷ []))
            (λ packed. only_element toy packed >>= data_inputs ins p.constant p.mr_bt) p.fees_lem
            (run-ok
              (cert_data_hash toy ins.sc_id (element ins.epoch_number) p.mr_bt (element ins.quality)
                ins.end_cumulative_sc_tx_commitment_tree_root p.fees)
              (λ h. ok (p.constant ∷ h ∷ [])) p.data_hash_lem (ap ok (sym p.inputs_lem))))))

-- The proof that there is, for a circuit with two keys and the public inputs of the one proved.
made : Bool → Call (Unit {0})
made true = ok tt
made false = err (external 5)

made-eq-ok : (b : Bool) (u : Unit {0}) → made b ≡ ok u → b ≡ true
unfolding made
made-eq-ok true u h = refl
made-eq-ok false u h = cc

pub toy_prove : NaiveTresholdSignature toy → Call (Unit {0})
unfolding made
toy_prove c = generate_constraints toy c (empty_system toy) >>= λ cs.
    made (same_list cs.inputs (left 1).inputs)

pub toy_verify : CertificateProofUserInputs Element → Call Bool
toy_verify ins = public_inputs ins >>= λ inputs. ok (same_list inputs (left 1).inputs)

abbrev pub argument : Backend toy
argument = record {
  CommitterKey = ℕ;
  ProverKey = ℕ;
  VerifierKey = ℕ;
  Proof = Unit {0};
  IndexInfo = ℕ;
  get_g1_committer_key = ok (some 1000);
  key_length = λ k. k;
  read_prover_key = λ p a b. ok (coboundary_marlin_key 1);
  read_verifier_key = λ p a b. ok 2;
  read_proving_system = λ p. ok coboundary_marlin;
  deserialize_proving_system = λ bs. ok coboundary_marlin;
  deserialize_proof = λ bs a b. ok tt;
  serialize_proof = λ p a. ok (2 ∷ []);
  prove = λ pk ck c zk r. toy_prove c;
  verify_zendoo_proof = λ i p vk r. toy_verify i;
  get_index_info = λ c. ok c.max_pks;
  compute_proof_vk_size = λ n i zk ps. (n, i);
  circuit_specific_setup = λ ck i. ok (ck, i);
  Files = List ℕ;
  write_prover_key = λ k p a d. (ok tt, k ∷ d);
  write_verifier_key = λ k p a d. (ok tt, k ∷ d);
  init_dlog_keys = λ ps m s. ok tt;
  get_proving_system_type = λ vk. coboundary_marlin;
  index_info = λ vk. vk;
  check_proof_vk_size = λ n i zk ps m k. true;
}

toy_complete :
    (ins : CertificateProofUserInputs Element) (c : NaiveTresholdSignature toy)
    → toy_prove c ≡ ok tt
    → IsWitness toy 2 ins c
    → toy_verify ins ≡ ok true
unfolding toy_prove toy_verify
toy_complete ins c proved wit =
    invert (generate_constraints toy c (empty_system toy)) _ proved λ cs run h.
      let same : cs ≡ wit.cs = ok-injective (sym run ∙ wit.runs) in
      let listed = made-eq-ok (same_list cs.inputs (left 1).inputs) tt h in
      run-ok (public_inputs ins) _ (IsPublic-public_inputs ins wit.cs.inputs wit.inputs) (
        ap (λ (x : ConstraintSystem toy). ok (same_list x.inputs (left 1).inputs)) (sym same)
        ∙ ap ok listed)

toy_sound :
    (ins : CertificateProofUserInputs Element)
    → toy_verify ins ≡ ok true
    → IsWitness toy 2 ins (circuit_of (certificate 1))
unfolding toy_verify
toy_sound ins accepted = invert (public_inputs ins) _ accepted λ inputs run h. record {
  cs = left 1;
  keys = two_keys;
  runs = left-one;
  satisfied = holds-one;
  inputs =
      public_inputs-IsPublic ins (left 1).inputs
        (run ∙ ap ok (same_list-eq inputs (left 1).inputs (ok-injective h)));
}

pub argument_laws : ProofLaws toy argument 2 "pk" "vk"
argument_laws = record {
  complete =
      λ ins c em cpk cvk chk zk d r pk ck vk proof hk hg hv hp wit. toy_complete ins c hp wit;
  sound =
      λ ins chk cvk r vk proof hv accepted. (circuit_of (certificate 1), toy_sound ins accepted);
  read_back = λ proof chk cmp bytes h. (2, [], sym (ok-injective h), refl, refl);
}

pub proof_made :
    create_naive_threshold_sig_proof toy argument false keys sigs
      (element 3)
      7
      (element 4)
      10
      20
      []
      1
      "pk"
      true
      false
      true
      true
      5
    ≡ ok (2 ∷ [], 1)
unfolding create_naive_threshold_sig_proof create_circuit schnorr_verify_signature new b_bool
    log_max_pks bits_be unwrap toy_prove generate_constraints alloc_all pack_fees verify_all
    count_valid value_be bits_le same_list
proof_made = refl

pub constant_made : (c : Element) × (compute_pks_threshold_hash toy keys 1 ≡ ok c)
unfolding compute_pks_threshold_hash
constant_made = (_, refl)

verify-create_example :
    verify_naive_threshold_sig_proof toy argument constant_made.0
      (element 3)
      7
      (element 4)
      10
      20
      []
      1
      (2 ∷ [])
      true
      true
      "vk"
      true
      true
      6
    ≡ ok true
verify-create_example =
    verify-create toy toy_field toy_gadgets toy_calls argument "pk" "vk" false keys sigs (element 3)
      7 (element 4) 10 20 [] 1 true false true true 5 (2 ∷ []) 1 constant_made.0 true true true 6 2
      argument_laws refl refl (omega arith) (omega arith) (omega arith) (omega arith) null_rejected
      constant_made.1 proof_made (omega arith)
