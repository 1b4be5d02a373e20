-- ===== src/Calls/Insufficient.antt =====
-- Too few valid signatures: `valid_signatures - threshold` panics where overflow is checked, and
-- where it wraps the circuit is not satisfied.
use zendoo_sc_cryptolib.Prelude.{
  ℕ, ◌^◌, ◌≤◌, ◌<◌, ◌≡◌, sym, ap, ◌∙◌, some_injective, unpack, inl, inr, Bool, false, Option, some,
  List, [], ◌∷◌, map, length, Bool-cases, arith,
}
use native.Mathlib.Nat.{mod-eq_of_lt}
use zendoo_sc_cryptolib.Prelude.Call.{ok, ok-injective}
use zendoo_sc_cryptolib.Primitives.{Primitives, BackwardTransfer}
use zendoo_sc_cryptolib.Primitives.Laws.{FieldLaws, GadgetLaws}
use zendoo_sc_cryptolib.Threshold.{
  NaiveTresholdSignature, ConstraintSystem, alloc_all, pack_fees, generate_constraints,
}
use zendoo_sc_cryptolib.Threshold.Count.{alloc_all-map-some}
use zendoo_sc_cryptolib.Threshold.Soundness.{
  count_verified, count_true-verify_all, satisfied-threshold,
}
use zendoo_sc_cryptolib.Threshold.Trace.{Values, IsTrace}
use zendoo_sc_cryptolib.Calls.{compute_msg_to_sign, create_circuit}
use zendoo_sc_cryptolib.Calls.Inputs.{CallLaws, compute_msg_to_sign-eq-ok, new_lem}
use zendoo_sc_cryptolib.Calls.Difference.{pack_fees-accumulate}
use zendoo_sc_cryptolib.Calls.Tally.{
  NullRejected, check_sigs-verify_all, IsBuilt, create_circuit-IsBuilt,
}

module _ (P : Primitives) (L : FieldLaws P) (G : GadgetLaws P L) (K : CallLaws P L) where
  pub new_shape :
      {oc : Bool} {pks : List P.G2} {sigs : List (Option P.SchnorrSig)} {sc_id : P.FieldElement}
      {epoch : ℕ} {root : P.FieldElement} {btr ft : ℕ} {bts : List BackwardTransfer} {t : ℕ}
      {c : NaiveTresholdSignature P} {n : ℕ}
      → IsBuilt P oc pks sigs sc_id epoch root btr ft bts t c n
      → length pks ≤ 2 ^ 63
      → (c.threshold ≡ some (P.from t)) × (c.max_pks ≡ length pks)
  new_shape {pks} {sc_id} {epoch} {root} {btr} {ft} {t} bu small =
      let shape = ok-injective (
        sym bu.built
        ∙ new_lem P L (map P.into_projective pks) bu.filled (P.from t) (P.from bu.b) sc_id
            (P.from epoch) root bu.mr_bt ft btr (length pks) small) in
      (
        ap (λ (x : NaiveTresholdSignature P). x.threshold) shape,
        ap (λ (x : NaiveTresholdSignature P). x.max_pks) shape,
      )

  -- The signatures that a run of the circuit finds valid are those that `create_circuit` counted.
  counted_again :
      {oc : Bool} {pks : List P.G2} {sigs : List (Option P.SchnorrSig)} {sc_id : P.FieldElement}
      {epoch : ℕ} {root : P.FieldElement} {btr ft : ℕ} {bts : List BackwardTransfer} {t : ℕ}
      {c : NaiveTresholdSignature P} {n : ℕ} {cs cs' : ConstraintSystem P} (v : Values P)
      → IsBuilt P oc pks sigs sc_id epoch root btr ft bts t c n
      → length pks ≤ 2 ^ 63
      → btr < 2 ^ 64
      → ft < 2 ^ 64
      → ((r : P.FieldElement × P.FieldElement)
          → compute_msg_to_sign P sc_id epoch root btr ft bts ≡ ok r
          → NullRejected P r.1 pks)
      → IsTrace P c cs cs' v
      → (n ≡ count_verified P v.message v.pks v.sigs)
  counted_again {oc} {pks} {sigs} {sc_id} {epoch} {root} {btr} {ft} {bts} {t} {c} {n} v bu small hb
        hf null tr =
      unpack (compute_msg_to_sign-eq-ok P sc_id epoch root btr ft bts bu.signed) λ fees signed.
        let shape = ok-injective (
          sym bu.built
          ∙ new_lem P L (map P.into_projective pks) bu.filled (P.from t) (P.from bu.b) sc_id
              (P.from epoch) root bu.mr_bt ft btr (length pks) small) in
        let (given, vs, f, l, run, count) =
          check_sigs-verify_all P L G bu.msg pks sigs bu.lengths (null (bu.mr_bt, bu.msg) bu.signed)
            bu.counted in
        let keys : map P.into_projective pks ≡ v.pks = ok-injective (
          sym (alloc_all-map-some (map P.into_projective pks))
          ∙ ap (λ (x : NaiveTresholdSignature P). alloc_all x.pks) (sym shape)
          ∙ tr.pks) in
        let signatures : given ≡ v.sigs = ok-injective (
          sym (alloc_all-map-some given)
          ∙ ap alloc_all (sym f)
          ∙ ap (λ (x : NaiveTresholdSignature P). alloc_all x.sigs) (sym shape)
          ∙ tr.sigs) in
        let same_id : sc_id ≡ v.sc_id =
          some_injective (sym (ap (λ (x : NaiveTresholdSignature P). x.sc_id) shape) ∙ tr.sc_id) in
        let same_epoch : P.from epoch ≡ v.epoch_number =
          some_injective
            (sym (ap (λ (x : NaiveTresholdSignature P). x.epoch_number) shape) ∙ tr.epoch_number) in
        let same_bt : bu.mr_bt ≡ v.mr_bt =
          some_injective (sym (ap (λ (x : NaiveTresholdSignature P). x.mr_bt) shape) ∙ tr.mr_bt) in
        let same_root : root ≡ v.root = some_injective (
          sym (ap (λ (x : NaiveTresholdSignature P). x.end_cumulative_sc_tx_comm_tree_root) shape)
          ∙ tr.root) in
        let same_btr : btr ≡ v.btr_fee =
          some_injective
            (sym (ap (λ (x : NaiveTresholdSignature P). x.btr_fee) shape) ∙ tr.btr_fee) in
        let same_ft : ft ≡ v.ft_min_amount =
          some_injective (
            sym (ap (λ (x : NaiveTresholdSignature P). x.ft_min_amount) shape)
            ∙ tr.ft_min_amount) in
        let same_fees : fees ≡ v.fees = ok-injective (
          sym (pack_fees-accumulate P L G K btr ft hb hf signed.1)
          ∙ (λ i. pack_fees P (same_btr i) (same_ft i))
          ∙ tr.fees) in
        let message : bu.msg ≡ v.message = ok-injective (
          sym signed.2
          ∙ sym (G.enforce_hash_lem _)
          ∙ (λ i.
              P.enforce_hash_constant_length
                (same_id i ∷ same_epoch i ∷ same_bt i ∷ same_root i ∷ same_fees i ∷ []))
          ∙ tr.message) in
        count
        ∙ count_true-verify_all P L G bu.msg (map P.into_projective pks) given run
        ∙ (λ i. count_verified P (message i) (keys i) (signatures i))

  -- Whether the difference wraps or not: with at most 2 ^ 63 keys that reject the null signature on
  -- the message, fees and a threshold of 64 bits, and fewer valid signatures than the threshold, no
  -- run of the circuit that `create_circuit` builds leaves a satisfied constraint system.
  pub create_circuit-insufficient :
      (oc : Bool) (pks : List P.G2) (sigs : List (Option P.SchnorrSig)) (sc_id : P.FieldElement)
      (epoch : ℕ) (root : P.FieldElement) (btr ft : ℕ) (bts : List BackwardTransfer) (t : ℕ)
      {c : NaiveTresholdSignature P} {n : ℕ} (cs cs' : ConstraintSystem P)
      → length pks ≤ 2 ^ 63
      → btr < 2 ^ 64
      → ft < 2 ^ 64
      → n < t
      → t < 2 ^ 64
      → ((r : P.FieldElement × P.FieldElement)
          → compute_msg_to_sign P sc_id epoch root btr ft bts ≡ ok r
          → NullRejected P r.1 pks)
      → create_circuit P oc pks sigs sc_id epoch root btr ft bts t ≡ ok (c, n)
      → generate_constraints P c cs ≡ ok cs'
      → cs'.satisfied ≡ false
  create_circuit-insufficient oc pks sigs sc_id epoch root btr ft bts t {c} {n} cs cs' small hb hf
        short word null run gen =
      elim (Bool-cases cs'.satisfied) [
        | inr no_way ↦ no_way
        | inl holds ↦
            let bu = create_circuit-IsBuilt P oc pks sigs sc_id epoch root btr ft bts t run in
            let number : L.to_nat (P.from t) ≡ t =
              L.to_nat-from t ∙ mod-eq_of_lt (omega (arith, L.modulus_large)) in
            let shape = new_shape bu small in
            let (v, tr, same, enough) =
              satisfied-threshold P L G c cs cs' (omega (arith, small, shape.1)) (P.from t) shape.0
                (omega (arith, number, word)) gen holds in
            let again = counted_again v bu small hb hf null tr in
            absurd (omega (arith, again, enough, number, short))
      ]
