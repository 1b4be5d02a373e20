-- ===== src/Threshold/Trace.antt =====
-- A successful run of `generate_constraints`, taken apart into the values of its variables.
use zendoo_sc_cryptolib.Prelude.{
  ℕ, ◌+◌, ◌≡◌, refl, Bool, true, false, ◌&&◌, Option, none, some, List, [], ◌∷◌, ◌++◌, map, length,
  ◌==◌, ==→eq, eq→==, ap, sym,
}
use zendoo_sc_cryptolib.Prelude.Call.{
  ok, assignment_missing, assert, ok_or, invert, ok-injective, run-ok,
}
use zendoo_sc_cryptolib.Prelude.Log.{log_max_pks}
use zendoo_sc_cryptolib.Primitives.{Primitives}
use zendoo_sc_cryptolib.Threshold.{
  NaiveTresholdSignature, ConstraintSystem, alloc_all, pack_fees, verify_all, count_valid,
  generate_constraints,
}

pub ok_or-eq-ok {ℓ} :
    {A : Type ℓ} (x : Option A) {a : A} → ok_or x assignment_missing ≡ ok a → x ≡ some a
ok_or-eq-ok none h = cc
ok_or-eq-ok (some a) h = cc

pub assert-eq-ok : (b : Bool) {u : Unit {0}} → assert b ≡ ok u → b ≡ true
assert-eq-ok true h = refl
assert-eq-ok false h = cc

pub record Values (P : Primitives) : Type 0 where
  pub pks : List P.G2Projective
  pub pks_hash : P.FieldElement
  pub t : P.FieldElement
  pub pks_threshold_hash : P.FieldElement
  pub sc_id : P.FieldElement
  pub epoch_number : P.FieldElement
  pub mr_bt : P.FieldElement
  pub root : P.FieldElement
  pub btr_fee : ℕ
  pub ft_min_amount : ℕ
  pub fees : P.FieldElement
  pub message : P.FieldElement
  pub sigs : List P.SchnorrSig
  pub verdicts : List Bool
  pub sysdata_hash : P.FieldElement
  pub cert_data_hash : P.FieldElement
  pub bits : List Bool
  pub b_field : P.FieldElement

-- The count of valid signatures, as the circuit holds it.
abbrev pub valid : (P : Primitives) → Values P → P.FieldElement
valid P v = count_valid P (P.from 0) v.verdicts

-- The values are those of the circuit's witnesses, each computed from the ones before it, and
-- the constraint system is what they give.
pub record IsTrace (P : Primitives) (c : NaiveTresholdSignature P) (cs cs' : ConstraintSystem P)
    (v : Values P) : Type 0 where
  pub max_pks : c.max_pks ≡ length c.pks
  pub max_sigs : c.max_pks ≡ length c.sigs
  pub max_bits : log_max_pks c.max_pks + 1 ≡ length c.b
  pub pks : alloc_all c.pks ≡ ok v.pks
  pub pks_hash : P.enforce_hash_constant_length (map P.pk_x v.pks) ≡ ok v.pks_hash
  pub t : c.threshold ≡ some v.t
  pub pks_threshold_hash :
      P.enforce_hash_constant_length (v.pks_hash ∷ v.t ∷ []) ≡ ok v.pks_threshold_hash
  pub sc_id : c.sc_id ≡ some v.sc_id
  pub epoch_number : c.epoch_number ≡ some v.epoch_number
  pub mr_bt : c.mr_bt ≡ some v.mr_bt
  pub root : c.end_cumulative_sc_tx_comm_tree_root ≡ some v.root
  pub btr_fee : c.btr_fee ≡ some v.btr_fee
  pub ft_min_amount : c.ft_min_amount ≡ some v.ft_min_amount
  pub fees : pack_fees P v.btr_fee v.ft_min_amount ≡ ok v.fees
  pub message :
      P.enforce_hash_constant_length (v.sc_id ∷ v.epoch_number ∷ v.mr_bt ∷ v.root ∷ v.fees ∷ [])
      ≡ ok v.message
  pub sigs : alloc_all c.sigs ≡ ok v.sigs
  pub verdicts : verify_all P v.message v.pks v.sigs ≡ ok v.verdicts
  pub sysdata_hash :
      P.enforce_hash_constant_length
        (v.sc_id ∷ v.epoch_number ∷ v.mr_bt ∷ valid P v ∷ v.root ∷ v.fees ∷ [])
      ≡ ok v.sysdata_hash
  pub cert_data_hash : P.enforce_hash_constant_length (v.sysdata_hash ∷ []) ≡ ok v.cert_data_hash
  pub bits : alloc_all c.b ≡ ok v.bits
  pub b_field : P.from_bits v.bits ≡ ok v.b_field
  pub inputs : cs'.inputs ≡ (cs.inputs ++ v.pks_threshold_hash ∷ []) ++ v.cert_data_hash ∷ []
  pub satisfied : cs'.satisfied ≡ (
      ((cs.satisfied && P.eq v.pks_threshold_hash v.pks_threshold_hash)
        && P.eq v.cert_data_hash v.cert_data_hash)
      && P.eq (P.sub (valid P v) v.t) v.b_field)

module _ (P : Primitives) (c : NaiveTresholdSignature P) (cs : ConstraintSystem P) where
  pub generate_constraints-IsTrace :
      {cs' : ConstraintSystem P}
      → generate_constraints P c cs ≡ ok cs'
      → (v : Values P) × IsTrace P c cs cs' v
  unfolding generate_constraints
  generate_constraints-IsTrace h0 = invert (assert (c.max_pks == length c.pks)) _ h0 λ _ e1 h1.
      invert (assert (c.max_pks == length c.sigs)) _ h1 λ _ e2 h2.
        invert (assert (log_max_pks c.max_pks + 1 == length c.b)) _ h2 λ _ e3 h3.
          invert (alloc_all c.pks) _ h3 λ pks e4 h4.
            invert (P.enforce_hash_constant_length (map P.pk_x pks)) _ h4 λ pks_hash e5 h5.
              invert (ok_or c.threshold assignment_missing) _ h5 λ t e6 h6.
                invert (P.enforce_hash_constant_length (pks_hash ∷ t ∷ [])) _ h6 λ pth e7 h7.
                  invert (ok_or c.sc_id assignment_missing) _ h7 λ sc_id e8 h8.
                    invert (ok_or c.epoch_number assignment_missing) _ h8 λ epoch e9 h9.
                      invert (ok_or c.mr_bt assignment_missing) _ h9 λ mr_bt e10 h10.
                        invert (ok_or c.end_cumulative_sc_tx_comm_tree_root assignment_missing) _
                          h10
                          λ root e11 h11.
                            invert (ok_or c.btr_fee assignment_missing) _ h11 λ btr e12 h12.
                              invert (ok_or c.ft_min_amount assignment_missing) _ h12 λ ft e13 h13.
                                invert (pack_fees P btr ft) _ h13 λ fees e14 h14.
                                  invert
                                    (P.enforce_hash_constant_length
                                      (sc_id ∷ epoch ∷ mr_bt ∷ root ∷ fees ∷ []))
                                    _ h14
                                    λ msg e15 h15. invert (alloc_all c.sigs) _ h15 λ sigs e16 h16.
                                      invert (verify_all P msg pks sigs) _ h16 λ vs e17 h17.
                                        invert
                                          (P.enforce_hash_constant_length (
                                            sc_id
                                            ∷ epoch
                                            ∷ mr_bt
                                            ∷ count_valid P (P.from 0) vs
                                            ∷ root
                                            ∷ fees
                                            ∷ []))
                                          _ h17
                                          λ sys e18 h18.
                                            invert (P.enforce_hash_constant_length (sys ∷ [])) _ h18
                                              λ cert e19 h19.
                                                invert (alloc_all c.b) _ h19 λ bits e20 h20.
                                                  invert (P.from_bits bits) _ h20 λ bf e21 h21. (
                                                    record {
                                                      pks = pks;
                                                      pks_hash = pks_hash;
                                                      t = t;
                                                      pks_threshold_hash = pth;
                                                      sc_id = sc_id;
                                                      epoch_number = epoch;
                                                      mr_bt = mr_bt;
                                                      root = root;
                                                      btr_fee = btr;
                                                      ft_min_amount = ft;
                                                      fees = fees;
                                                      message = msg;
                                                      sigs = sigs;
                                                      verdicts = vs;
                                                      sysdata_hash = sys;
                                                      cert_data_hash = cert;
                                                      bits = bits;
                                                      b_field = bf;
                                                    },
                                                    record {
                                                      max_pks = ==→eq _ _ (assert-eq-ok _ e1);
                                                      max_sigs = ==→eq _ _ (assert-eq-ok _ e2);
                                                      max_bits = ==→eq _ _ (assert-eq-ok _ e3);
                                                      pks = e4;
                                                      pks_hash = e5;
                                                      t = ok_or-eq-ok _ e6;
                                                      pks_threshold_hash = e7;
                                                      sc_id = ok_or-eq-ok _ e8;
                                                      epoch_number = ok_or-eq-ok _ e9;
                                                      mr_bt = ok_or-eq-ok _ e10;
                                                      root = ok_or-eq-ok _ e11;
                                                      btr_fee = ok_or-eq-ok _ e12;
                                                      ft_min_amount = ok_or-eq-ok _ e13;
                                                      fees = e14;
                                                      message = e15;
                                                      sigs = e16;
                                                      verdicts = e17;
                                                      sysdata_hash = e18;
                                                      cert_data_hash = e19;
                                                      bits = e20;
                                                      b_field = e21;
                                                      inputs =
                                                          ap (λ (s : ConstraintSystem P). s.inputs)
                                                            (sym (ok-injective h21));
                                                      satisfied =
                                                          ap
                                                            (λ (s : ConstraintSystem P).
                                                            s.satisfied)
                                                            (sym (ok-injective h21));
                                                    },
                                                  )

  -- Values that fit together are a run.
  pub IsTrace-generate_constraints :
      (cs' : ConstraintSystem P) (v : Values P)
      → IsTrace P c cs cs' v
      → generate_constraints P c cs ≡ ok cs'
  unfolding generate_constraints
  IsTrace-generate_constraints cs' v tr =
      run-ok (assert (c.max_pks == length c.pks)) _ (rw (eq→== _ _ tr.max_pks)) (
        run-ok (assert (c.max_pks == length c.sigs)) _ (rw (eq→== _ _ tr.max_sigs)) (
          run-ok (assert (log_max_pks c.max_pks + 1 == length c.b)) _ (rw (eq→== _ _ tr.max_bits)) (
            run-ok (alloc_all c.pks) _ tr.pks (
              run-ok (P.enforce_hash_constant_length (map P.pk_x v.pks)) _ tr.pks_hash (
                run-ok (ok_or c.threshold assignment_missing) _ (rw tr.t) (
                  run-ok (P.enforce_hash_constant_length (v.pks_hash ∷ v.t ∷ [])) _
                    tr.pks_threshold_hash
                    (run-ok (ok_or c.sc_id assignment_missing) _ (rw tr.sc_id) (
                      run-ok (ok_or c.epoch_number assignment_missing) _ (rw tr.epoch_number) (
                        run-ok (ok_or c.mr_bt assignment_missing) _ (rw tr.mr_bt) (
                          run-ok (ok_or c.end_cumulative_sc_tx_comm_tree_root assignment_missing) _
                            (rw tr.root)
                            (run-ok (ok_or c.btr_fee assignment_missing) _ (rw tr.btr_fee) (
                              run-ok (ok_or c.ft_min_amount assignment_missing) _
                                (rw tr.ft_min_amount)
                                (run-ok (pack_fees P v.btr_fee v.ft_min_amount) _ tr.fees (
                                  run-ok
                                    (P.enforce_hash_constant_length
                                      (v.sc_id ∷ v.epoch_number ∷ v.mr_bt ∷ v.root ∷ v.fees ∷ []))
                                    _ tr.message
                                    (run-ok (alloc_all c.sigs) _ tr.sigs (
                                      run-ok (verify_all P v.message v.pks v.sigs) _ tr.verdicts (
                                        run-ok
                                          (P.enforce_hash_constant_length (
                                            v.sc_id
                                            ∷ v.epoch_number
                                            ∷ v.mr_bt
                                            ∷ valid P v
                                            ∷ v.root
                                            ∷ v.fees
                                            ∷ []))
                                          _ tr.sysdata_hash
                                          (run-ok
                                            (P.enforce_hash_constant_length (v.sysdata_hash ∷ [])) _
                                            tr.cert_data_hash
                                            (run-ok (alloc_all c.b) _ tr.bits (
                                              run-ok (P.from_bits v.bits) _ tr.b_field (λ i.
                                                ok (record {
                                                  inputs = sym tr.inputs i;
                                                  satisfied = sym tr.satisfied i;
                                                }))))))))))))))))))))))
