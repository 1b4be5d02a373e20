-- ===== src/Calls/Difference.antt =====
-- The numbers of an honest prover's circuit: the difference of the valid signatures and the threshold,
-- the packed fees and the constant, against what api/src/cctp_calls.rs computes.
use zendoo_sc_cryptolib.Prelude.{
  ℕ, ◌+◌, ◌-◌, ◌*◌, ◌%◌, ◌^◌, ◌≤◌, ◌<◌, ◌≡◌, sym, ap, ◌∙◌, Bool, none, List, [], ◌∷◌, map, length,
  length-map, unpack_three, arith,
}
use native.Mathlib.Nat.{mod-eq_of_lt, pow-succ', add-mod_right}
use zendoo_sc_cryptolib.Prelude.Call.{ok, ok-injective, run-ok}
use native.Mathlib.Numerals.{add-one}
use zendoo_sc_cryptolib.Prelude.Bits.{two_pow-pos, bits_be, length-bits_be}
use zendoo_sc_cryptolib.Prelude.Log.{log_max_pks, log_max_pks-le, le-pow-log_max_pks}
use zendoo_sc_cryptolib.Primitives.{Primitives}
use zendoo_sc_cryptolib.Primitives.Laws.{FieldLaws, GadgetLaws, hash, absorb}
use zendoo_sc_cryptolib.Threshold.{count_valid, pack_fees}
use zendoo_sc_cryptolib.Threshold.Comparison.{value_be-kept}
use zendoo_sc_cryptolib.Threshold.Count.{count_true, count_true-le-length, to_nat-count_valid}
use zendoo_sc_cryptolib.Threshold.Fees.{size_in_bits-large, to_nat-pack_fees}
use zendoo_sc_cryptolib.Calls.Inputs.{CallLaws}
use zendoo_sc_cryptolib.Calls.{compute_pks_threshold_hash}

wrap_sub : (a b m : ℕ) → b ≤ a → a < m → (a + m - b) % m ≡ a - b
wrap_sub a b m le lt =
    let shift : a + m - b ≡ a - b + m = omega arith in
    ap (λ (x : ℕ). x % m) shift ∙ add-mod_right (a - b) m ∙ mod-eq_of_lt (omega arith)

list_head {ℓ} : {A : Type ℓ} {a b : A} → (a ∷ []) ≡ (b ∷ []) → a ≡ b
list_head h = ground arith

module _ (P : Primitives) (L : FieldLaws P) (G : GadgetLaws P L) (K : CallLaws P L) where
  -- The difference of the counts comes back from its bits.
  pub b_field_of_difference :
      (n d : ℕ)
      → n ≤ 2 ^ 63
      → d ≤ n
      → (bf : P.FieldElement) × ((P.from_bits (bits_be (log_max_pks n + 1) (L.to_nat (P.from d)))
            ≡ ok bf)
          × (L.to_nat bf ≡ d))
  b_field_of_difference n d small le =
      let number : L.to_nat (P.from d) ≡ d =
        L.to_nat-from d ∙ mod-eq_of_lt (omega (arith, L.modulus_large)) in
      let width = length-bits_be (log_max_pks n + 1) (L.to_nat (P.from d)) in
      let double : 2 ^ (log_max_pks n + 1) ≡ 2 * 2 ^ log_max_pks n =
        rw (add-one (log_max_pks n)) (pow-succ' 2 (log_max_pks n)) in
      let room : L.to_nat (P.from d) < 2 ^ (log_max_pks n + 1) =
        omega (arith, number, double, le-pow-log_max_pks n small, two_pow-pos (log_max_pks n)) in
      unpack_three
        (G.to_nat-from_bits (bits_be (log_max_pks n + 1) (L.to_nat (P.from d)))
          (omega (arith, width, log_max_pks-le n small, size_in_bits-large P L)))
        λ bf e v. (bf, (e, v ∙ value_be-kept P L (P.from d) (log_max_pks n + 1) room ∙ number))

  -- Both ways of packing the fees give the same element.
  pub pack_fees-accumulate :
      (btr ft : ℕ) {fees : P.FieldElement}
      → btr < 2 ^ 64
      → ft < 2 ^ 64
      → P.accumulate (btr ∷ ft ∷ []) ≡ ok (fees ∷ [])
      → pack_fees P btr ft ≡ ok fees
  pack_fees-accumulate btr ft {fees} hb hf acc =
      unpack_three (to_nat-pack_fees P L G btr ft hb hf) λ a e n.
        unpack_three (K.accumulate_fees btr ft hb hf) λ a' e' n'.
          let same : a' ≡ fees = list_head (ok-injective (sym e' ∙ acc)) in
          e ∙ ap ok (L.to_nat_injective a a' (n ∙ sym n') ∙ same)

  -- The count that the circuit holds, less the threshold, is the difference of the numbers.
  pub circuit_difference :
      (vs : List Bool) (t m : ℕ) (bf : P.FieldElement)
      → length vs ≤ 2 ^ 63
      → t ≤ count_true vs
      → L.to_nat bf ≡ count_true vs - t
      → P.sub (count_valid P (P.from 0) vs) (P.from t) ≡ bf
  circuit_difference vs t m bf few le e =
      let bound = count_true-le-length vs in
      let big = L.modulus_large in
      let left = to_nat-count_valid P L G vs (omega arith) in
      let right : L.to_nat (P.from t) ≡ t = L.to_nat-from t ∙ mod-eq_of_lt (omega arith) in
      L.to_nat_injective _ _ (
        L.to_nat-sub (count_valid P (P.from 0) vs) (P.from t)
        ∙ rw (left, right) (wrap_sub (count_true vs) t L.modulus le (omega arith) ∙ sym e))

  -- The constant that the sidechain declares, from the two hashes.
  pub compute_pks_threshold_hash-eq :
      (pks : List P.G2) (t : ℕ) {h constant : P.FieldElement}
      → hash P (map P.affine_x pks) ≡ ok h
      → hash P (h ∷ P.from t ∷ []) ≡ ok constant
      → compute_pks_threshold_hash P pks t ≡ ok constant
  unfolding compute_pks_threshold_hash
  compute_pks_threshold_hash-eq pks t e e' =
      run-ok _ _
        (ap (λ (w : ℕ). P.finalize (absorb P (P.init_constant_length w none) (map P.affine_x pks)))
            (sym (length-map P.affine_x pks))
          ∙ e)
        e'
