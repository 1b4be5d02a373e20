-- ===== src/Calls/Tally.antt =====
-- The circuit that `create_naive_threshold_sig_proof` builds, taken apart, and its number of valid
-- signatures beside the circuit's own count.
use zendoo_sc_cryptolib.Prelude.{
  ℕ, suc, ◌+◌, ◌≤◌, ◌≡◌, refl, sym, ap, ◌∙◌, Bool, true, false, Option, none, some, List, [], ◌∷◌,
  map, length, ◌==◌, ==→eq, arith,
}
use zendoo_sc_cryptolib.Prelude.Call.{ok, assert, invert, ok-injective}
use zendoo_sc_cryptolib.Prelude.Bits.{bit}
use zendoo_sc_cryptolib.Primitives.{Primitives, BackwardTransfer}
use zendoo_sc_cryptolib.Primitives.Laws.{FieldLaws, GadgetLaws}
use zendoo_sc_cryptolib.Threshold.{NaiveTresholdSignature, new, verify_all}
use zendoo_sc_cryptolib.Threshold.Trace.{assert-eq-ok}
use zendoo_sc_cryptolib.Threshold.Count.{count_true}
use zendoo_sc_cryptolib.Calls.{
  schnorr_verify_signature, compute_msg_to_sign, check_sigs, sub_u64, create_circuit,
}

-- The keys reject the null signature on the message.
abbrev pub NullRejected : (P : Primitives) → P.FieldElement → List P.G2 → Type 0
NullRejected P msg [] = Unit
NullRejected P msg (pk ∷ pks) =
    (schnorr_verify_signature P msg pk P.null_sig ≡ ok false) × NullRejected P msg pks

module _ (P : Primitives) (L : FieldLaws P) (G : GadgetLaws P L) where
  -- If there are as many places for signatures as keys, the keys reject the null signature, and the
  -- loop succeeds: every place is filled after it, the circuit's verdicts on the filled places exist,
  -- and the loop's count is the number of verdicts that hold.
  pub check_sigs-verify_all :
      (msg : P.FieldElement) (pks : List P.G2) (sigs : List (Option P.SchnorrSig)) {n : ℕ}
      {filled : List (Option P.SchnorrSig)}
      → length sigs ≡ length pks
      → NullRejected P msg pks
      → check_sigs P msg pks sigs ≡ ok (n, filled)
      → (given : List P.SchnorrSig) × (vs : List Bool) × (filled ≡ map some given)
        × (length given ≡ length pks)
        × (verify_all P msg (map P.into_projective pks) given ≡ ok vs)
        × (n ≡ count_true vs)
  unfolding check_sigs verify_all schnorr_verify_signature count_true
  check_sigs-verify_all msg [] sigs len null h = (
    [],
    [],
    ap (λ (r : _). r.1) (sym (ok-injective h)),
    refl,
    refl,
    ap (λ (r : _). r.0) (sym (ok-injective h)),
  )
  check_sigs-verify_all msg (pk ∷ pks) [] len null h = absurd (omega arith)
  check_sigs-verify_all msg (pk ∷ pks) (some sig ∷ sigs) len null h =
      invert (P.schnorr_verify (P.into_projective pk) msg sig) _ h λ v e h1.
        invert (check_sigs P msg pks sigs) _ h1 λ r e' k.
          let (given, vs, f, l, run, n) =
            check_sigs-verify_all msg pks sigs (omega arith) null.1 e' in
          let same = ok-injective k in
          (
            sig ∷ given,
            v ∷ vs,
            ap (λ (r : _). r.1) (sym same) ∙ ap (λ (t : _). some sig ∷ t) f,
            ap suc l,
            rw (G.enforce_signature_verdict_lem (P.into_projective pk) sig msg, e, run),
            ap (λ (r : _). r.0) (sym same) ∙ ap (λ (t : ℕ). bit v + t) n,
          )
  check_sigs-verify_all msg (pk ∷ pks) (none ∷ sigs) len null h =
      invert (check_sigs P msg pks sigs) _ h λ r e' k.
        let (given, vs, f, l, run, n) =
          check_sigs-verify_all msg pks sigs (omega arith) null.1 e' in
        let same = ok-injective k in
        (
          P.null_sig ∷ given,
          false ∷ vs,
          ap (λ (r : _). r.1) (sym same) ∙ ap (λ (t : _). some P.null_sig ∷ t) f,
          ap suc l,
          rw (G.enforce_signature_verdict_lem (P.into_projective pk) P.null_sig msg, null.0, run),
          ap (λ (r : _). r.0) (sym same) ∙ (n ∙ omega arith),
        )

bit-le : (v : Bool) → bit v ≤ 1
bit-le true = omega arith
bit-le false = omega arith

module _ (P : Primitives) where
  -- The loop counts no more signatures than there are keys.
  pub check_sigs-le :
      (msg : P.FieldElement) (pks : List P.G2) (sigs : List (Option P.SchnorrSig)) {n : ℕ}
      {filled : List (Option P.SchnorrSig)}
      → check_sigs P msg pks sigs ≡ ok (n, filled)
      → n ≤ length pks
  unfolding check_sigs
  check_sigs-le msg [] sigs h = omega (arith, ap (λ (r : _). r.0) (ok-injective h))
  check_sigs-le msg (pk ∷ pks) [] h = omega (arith, ap (λ (r : _). r.0) (ok-injective h))
  check_sigs-le msg (pk ∷ pks) (some sig ∷ sigs) h =
      invert (schnorr_verify_signature P msg pk sig) _ h λ v e h1.
        invert (check_sigs P msg pks sigs) _ h1 λ r e' k.
          omega
            (arith, check_sigs-le msg pks sigs e', bit-le v, ap (λ (q : _). q.0) (ok-injective k))
  check_sigs-le msg (pk ∷ pks) (none ∷ sigs) h =
      invert (check_sigs P msg pks sigs) _ h
        λ r e' k. omega (arith, check_sigs-le msg pks sigs e', ap (λ (q : _). q.0) (ok-injective k))

  -- What `create_circuit` went through on the way to a circuit.
  pub record IsBuilt (overflow_checks : Bool) (pks : List P.G2) (sigs : List (Option P.SchnorrSig))
      (sc_id : P.FieldElement) (epoch_number : ℕ) (root : P.FieldElement)
      (btr_fee ft_min_amount : ℕ) (bt_list : List BackwardTransfer) (threshold : ℕ)
      (c : NaiveTresholdSignature P) (n : ℕ) : Type 0 where
    pub lengths : length sigs ≡ length pks
    pub mr_bt : P.FieldElement
    pub msg : P.FieldElement
    pub signed :
        compute_msg_to_sign P sc_id epoch_number root btr_fee ft_min_amount bt_list
        ≡ ok (mr_bt, msg)
    pub filled : List (Option P.SchnorrSig)
    pub counted : check_sigs P msg pks sigs ≡ ok (n, filled)
    pub b : ℕ
    pub difference : sub_u64 P overflow_checks n threshold ≡ ok b
    pub built :
        new P
          (map P.into_projective pks)
          filled
          (P.from threshold)
          (P.from b)
          sc_id
          (P.from epoch_number)
          root
          mr_bt
          ft_min_amount
          btr_fee
          (length pks)
        ≡ ok c

  pub create_circuit-IsBuilt :
      (oc : Bool) (pks : List P.G2) (sigs : List (Option P.SchnorrSig)) (sc_id : P.FieldElement)
      (epoch : ℕ) (root : P.FieldElement) (btr ft : ℕ) (bts : List BackwardTransfer) (t : ℕ)
      {c : NaiveTresholdSignature P} {n : ℕ}
      → create_circuit P oc pks sigs sc_id epoch root btr ft bts t ≡ ok (c, n)
      → IsBuilt oc pks sigs sc_id epoch root btr ft bts t c n
  unfolding create_circuit
  create_circuit-IsBuilt oc pks sigs sc_id epoch root btr ft bts t {c} {n} h0 =
      invert (assert (length sigs == length pks)) _ h0 λ _ e1 h1.
        invert (compute_msg_to_sign P sc_id epoch root btr ft bts) _ h1 λ m e2 h2.
          invert (check_sigs P m.1 pks sigs) _ h2 λ r e3 h3.
            invert (sub_u64 P oc r.0 t) _ h3 λ b e4 h4.
              invert
                (new P (map P.into_projective pks) r.1 (P.from t) (P.from b) sc_id (P.from epoch)
                  root m.0 ft btr (length pks))
                _ h4
                λ c' e5 h5.
                  let same = ok-injective h5 in
                  let same_n : r.0 ≡ n = ap (λ (q : _). q.1) same in
                  let same_c : c' ≡ c = ap (λ (q : _). q.0) same in
                  record {
                    lengths = ==→eq (length sigs) (length pks) (assert-eq-ok _ e1);
                    mr_bt = m.0;
                    msg = m.1;
                    signed = e2;
                    filled = r.1;
                    counted = e3 ∙ ap (λ (k : ℕ). ok (k, r.1)) same_n;
                    b = b;
                    difference = ap (λ (k : ℕ). sub_u64 P oc k t) (sym same_n) ∙ e4;
                    built = e5 ∙ ap ok same_c;
                  }
