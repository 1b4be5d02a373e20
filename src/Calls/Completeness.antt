-- ===== src/Calls/Completeness.antt =====
-- The circuit of an honest prover with enough signatures is satisfied, at the public inputs that
-- the other side computes natively.
use zendoo_sc_cryptolib.Prelude.{
  ℕ, ◌+◌, ◌-◌, ◌^◌, ◌≤◌, ◌<◌, ◌≡◌, refl, sym, ap, ◌∙◌, Bool, true, Option, some, List, [], ◌∷◌, map,
  length, length-map, arith,
}
use native.Mathlib.Nat.{mod-eq_of_lt}
use zendoo_sc_cryptolib.Prelude.Call.{ok, ok-injective}
use zendoo_sc_cryptolib.Prelude.Bits.{bits_be, length-bits_be}
use zendoo_sc_cryptolib.Prelude.Log.{log_max_pks}
use zendoo_sc_cryptolib.Primitives.{Primitives, BackwardTransfer}
use zendoo_sc_cryptolib.Primitives.Laws.{FieldLaws, GadgetLaws, hash}
use zendoo_sc_cryptolib.Threshold.{
  NaiveTresholdSignature, ConstraintSystem, alloc_all, count_valid, verify_all,
}
use zendoo_sc_cryptolib.Threshold.Count.{
  count_true-le-length, alloc_all-map-some, length-verify_all, to_nat-count_valid,
}
use zendoo_sc_cryptolib.Threshold.Trace.{Values, IsTrace, IsTrace-generate_constraints}
use zendoo_sc_cryptolib.Calls.Difference.{
  b_field_of_difference, pack_fees-accumulate, circuit_difference, compute_pks_threshold_hash-eq,
}
use zendoo_sc_cryptolib.Calls.Inputs.{
  CallLaws, empty_system, cert_data_hash, SatisfiedAt, compute_msg_to_sign-eq-ok, map-pk_x, new_lem,
  sub_u64-le,
}
use zendoo_sc_cryptolib.Calls.{compute_msg_to_sign, bt_list_opt, create_circuit}
use zendoo_sc_cryptolib.Calls.Tally.{
  NullRejected, check_sigs-verify_all, IsBuilt, create_circuit-IsBuilt,
}

module _ (P : Primitives) (L : FieldLaws P) (G : GadgetLaws P L) (K : CallLaws P L) where
  module _ (oc : Bool) (pks : List P.G2) (sigs : List (Option P.SchnorrSig))
      (sc_id : P.FieldElement) (epoch : ℕ) (root : P.FieldElement) (btr ft : ℕ)
      (bts : List BackwardTransfer) (t : ℕ) (c : NaiveTresholdSignature P) (n : ℕ)
      (bu : IsBuilt P oc pks sigs sc_id epoch root btr ft bts t c n) where
    -- The digests of the certificate.
    record Digests : Type 0 where
      fees : P.FieldElement
      pks_hash : P.FieldElement
      constant : P.FieldElement
      sysdata_hash : P.FieldElement
      data_hash : P.FieldElement
      mr_bt_lem : P.get_bt_merkle_root (bt_list_opt P bts) ≡ ok bu.mr_bt
      fees_lem : P.accumulate (btr ∷ ft ∷ []) ≡ ok (fees ∷ [])
      message_lem : hash P (sc_id ∷ P.from epoch ∷ bu.mr_bt ∷ root ∷ fees ∷ []) ≡ ok bu.msg
      pks_hash_lem : hash P (map P.affine_x pks) ≡ ok pks_hash
      constant_lem : hash P (pks_hash ∷ P.from t ∷ []) ≡ ok constant
      sysdata_hash_lem :
          hash P (sc_id ∷ P.from epoch ∷ bu.mr_bt ∷ P.from n ∷ root ∷ fees ∷ []) ≡ ok sysdata_hash
      data_hash_lem : hash P (sysdata_hash ∷ []) ≡ ok data_hash

    digests : 0 < length pks → Digests
    digests keys =
        let (fees, (e1, e2, e3)) =
          compute_msg_to_sign-eq-ok P sc_id epoch root btr ft bts bu.signed in
        let (h, eh) =
          K.hash_total (map P.affine_x pks) (omega (arith, length-map P.affine_x pks)) in
        let (constant, ec) = K.hash_total (h ∷ P.from t ∷ []) (omega arith) in
        let (sys, es) =
          K.hash_total (sc_id ∷ P.from epoch ∷ bu.mr_bt ∷ P.from n ∷ root ∷ fees ∷ [])
            (omega arith) in
        let (dh, ed) = K.hash_total (sys ∷ []) (omega arith) in
        record {
          fees = fees;
          pks_hash = h;
          constant = constant;
          sysdata_hash = sys;
          data_hash = dh;
          mr_bt_lem = e1;
          fees_lem = e2;
          message_lem = e3;
          pks_hash_lem = eh;
          constant_lem = ec;
          sysdata_hash_lem = es;
          data_hash_lem = ed;
        }

    -- The verdicts on the signatures, and the difference of their number and the threshold.
    record Verdicts : Type 0 where
      given : List P.SchnorrSig
      verdicts : List Bool
      b_field : P.FieldElement
      filled_lem : bu.filled ≡ map some given
      length_given : length given ≡ length pks
      verdicts_lem : verify_all P bu.msg (map P.into_projective pks) given ≡ ok verdicts
      b_field_lem :
          P.from_bits (bits_be (log_max_pks (length pks) + 1) (L.to_nat (P.from bu.b))) ≡ ok b_field
      counted : count_valid P (P.from 0) verdicts ≡ P.from n
      difference : P.sub (count_valid P (P.from 0) verdicts) (P.from t) ≡ b_field

    verdicts_of : length pks ≤ 2 ^ 63 → t ≤ n → NullRejected P bu.msg pks → Verdicts
    verdicts_of small le null =
        let (given, vs, f, l, run, count) =
          check_sigs-verify_all P L G bu.msg pks sigs bu.lengths null bu.counted in
        let few : length vs ≤ length pks = omega (
          arith,
          length-verify_all P L G bu.msg (map P.into_projective pks) given run,
          length-map P.into_projective pks,
        ) in
        let n_few : n ≤ length pks = omega (arith, count, few, count_true-le-length vs) in
        let b_eq : bu.b ≡ n - t = sub_u64-le P oc n t le bu.difference in
        let (bf, (e, v)) =
          b_field_of_difference P L G K (length pks) bu.b small (omega (arith, b_eq, n_few)) in
        record {
          given = given;
          verdicts = vs;
          b_field = bf;
          filled_lem = f;
          length_given = l;
          verdicts_lem = run;
          b_field_lem = e;
          counted = L.to_nat_injective _ _ (
              to_nat-count_valid P L G vs (omega (arith, count, n_few, small))
              ∙ sym count
              ∙ sym
                  (L.to_nat-from n ∙ mod-eq_of_lt (omega (arith, n_few, small, L.modulus_large))));
          difference =
              circuit_difference P L G K vs t (length pks) bf (omega (arith, few, small))
                (omega (arith, le, count)) (v ∙ omega (arith, b_eq, count));
        }

    module _ (d : Digests) (y : Verdicts) where
      -- The circuit that is built, and the values of its variables.
      abbrev circuit : NaiveTresholdSignature P
      circuit = record {
        pks = map some (map P.into_projective pks);
        sigs = bu.filled;
        threshold = some (P.from t);
        b = map some (bits_be (log_max_pks (length pks) + 1) (L.to_nat (P.from bu.b)));
        sc_id = some sc_id;
        epoch_number = some (P.from epoch);
        end_cumulative_sc_tx_comm_tree_root = some root;
        mr_bt = some bu.mr_bt;
        ft_min_amount = some ft;
        btr_fee = some btr;
        max_pks = length pks;
      }

      abbrev values : Values P
      values = record {
        pks = map P.into_projective pks;
        pks_hash = d.pks_hash;
        t = P.from t;
        pks_threshold_hash = d.constant;
        sc_id = sc_id;
        epoch_number = P.from epoch;
        mr_bt = bu.mr_bt;
        root = root;
        btr_fee = btr;
        ft_min_amount = ft;
        fees = d.fees;
        message = bu.msg;
        sigs = y.given;
        verdicts = y.verdicts;
        sysdata_hash = d.sysdata_hash;
        cert_data_hash = d.data_hash;
        bits = bits_be (log_max_pks (length pks) + 1) (L.to_nat (P.from bu.b));
        b_field = y.b_field;
      }

      abbrev met : ConstraintSystem P
      met = record { inputs = d.constant ∷ d.data_hash ∷ []; satisfied = true }

      circuit-IsTrace : btr < 2 ^ 64 → ft < 2 ^ 64 → IsTrace P circuit (empty_system P) met values
      circuit-IsTrace hb hf = record {
        max_pks =
            sym (length-map some (map P.into_projective pks) ∙ length-map P.into_projective pks);
        max_sigs = sym (ap length y.filled_lem ∙ length-map some y.given ∙ y.length_given);
        max_bits = sym (
            length-map some values.bits
            ∙ length-bits_be (log_max_pks (length pks) + 1) (L.to_nat (P.from bu.b)));
        pks = alloc_all-map-some (map P.into_projective pks);
        pks_hash = G.enforce_hash_lem _ ∙ rw (map-pk_x P L G pks) d.pks_hash_lem;
        t = refl;
        pks_threshold_hash = G.enforce_hash_lem _ ∙ d.constant_lem;
        sc_id = refl;
        epoch_number = refl;
        mr_bt = refl;
        root = refl;
        btr_fee = refl;
        ft_min_amount = refl;
        fees = pack_fees-accumulate P L G K btr ft hb hf d.fees_lem;
        message = G.enforce_hash_lem _ ∙ d.message_lem;
        sigs = ap alloc_all y.filled_lem ∙ alloc_all-map-some y.given;
        verdicts = y.verdicts_lem;
        sysdata_hash = G.enforce_hash_lem _ ∙ rw y.counted d.sysdata_hash_lem;
        cert_data_hash = G.enforce_hash_lem _ ∙ d.data_hash_lem;
        bits = alloc_all-map-some values.bits;
        b_field = y.b_field_lem;
        inputs = refl;
        satisfied =
            rw (L.eq_refl d.constant, L.eq_refl d.data_hash, y.difference, L.eq_refl y.b_field);
      }

      circuit-SatisfiedAt :
          btr < 2 ^ 64 → ft < 2 ^ 64 → SatisfiedAt P pks sc_id epoch root btr ft bts t circuit n
      unfolding cert_data_hash
      circuit-SatisfiedAt hb hf = record {
        cs = met;
        constant = d.constant;
        mr_bt = bu.mr_bt;
        fees = d.fees;
        data_hash = d.data_hash;
        runs =
            IsTrace-generate_constraints P circuit (empty_system P) met values
              (circuit-IsTrace hb hf);
        satisfied = refl;
        inputs = refl;
        constant_lem = compute_pks_threshold_hash-eq P L G K pks t d.pks_hash_lem d.constant_lem;
        mr_bt_lem = d.mr_bt_lem;
        fees_lem = d.fees_lem;
        data_hash_lem = rw d.sysdata_hash_lem d.data_hash_lem;
      }

  -- With at least one key and at most 2 ^ 63, fees of 64 bits, keys that reject the null signature on
  -- the message, and at least `threshold` valid signatures: the circuit that `create_circuit` builds
  -- meets every constraint. Its first public input is the constant of `compute_pks_threshold_hash`,
  -- its second the hash of the certificate's data with the returned number of valid signatures.
  pub create_circuit-satisfied :
      (oc : Bool) (pks : List P.G2) (sigs : List (Option P.SchnorrSig)) (sc_id : P.FieldElement)
      (epoch : ℕ) (root : P.FieldElement) (btr ft : ℕ) (bts : List BackwardTransfer) (t : ℕ)
      {c : NaiveTresholdSignature P} {n : ℕ}
      → 0 < length pks
      → length pks ≤ 2 ^ 63
      → btr < 2 ^ 64
      → ft < 2 ^ 64
      → t ≤ n
      → ((r : P.FieldElement × P.FieldElement)
          → compute_msg_to_sign P sc_id epoch root btr ft bts ≡ ok r
          → NullRejected P r.1 pks)
      → create_circuit P oc pks sigs sc_id epoch root btr ft bts t ≡ ok (c, n)
      → SatisfiedAt P pks sc_id epoch root btr ft bts t c n
  create_circuit-satisfied oc pks sigs sc_id epoch root btr ft bts t {c} {n} keys small hb hf le
        null run =
      let bu = create_circuit-IsBuilt P oc pks sigs sc_id epoch root btr ft bts t run in
      let shape = ok-injective (
        sym bu.built
        ∙ new_lem P L (map P.into_projective pks) bu.filled (P.from t) (P.from bu.b) sc_id
            (P.from epoch) root bu.mr_bt ft btr (length pks) small) in
      rw shape (
        circuit-SatisfiedAt oc pks sigs sc_id epoch root btr ft bts t c n bu
          (digests oc pks sigs sc_id epoch root btr ft bts t c n bu keys)
          (verdicts_of oc pks sigs sc_id epoch root btr ft bts t c n bu small le
            (null (bu.mr_bt, bu.msg) bu.signed))
          hb hf)
