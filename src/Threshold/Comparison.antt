-- ===== src/Threshold/Comparison.antt =====
-- The bits of `b` that `NaiveTresholdSignature::new` keeps for the threshold comparison.
use zendoo_sc_cryptolib.Prelude.{
  ℕ, ◌+◌, ◌-◌, ◌^◌, ◌≤◌, ◌<◌, ◌≡◌, refl, ap, ◌∙◌, some, map, drop, le→leb, arith,
}
use native.Mathlib.Nat.{mod-eq_of_lt}
use zendoo_sc_cryptolib.Prelude.Call.{ok}
use zendoo_sc_cryptolib.Prelude.Bits.{bits_be, drop-bits_be, value_be, value_be-bits_be}
use zendoo_sc_cryptolib.Prelude.Log.{log_max_pks, log_max_pks-le}
use zendoo_sc_cryptolib.Primitives.{Primitives}
use zendoo_sc_cryptolib.Primitives.Laws.{FieldLaws}
use zendoo_sc_cryptolib.Threshold.{b_bool}
use zendoo_sc_cryptolib.Threshold.Fees.{size_in_bits-large}

module _ (P : Primitives) (L : FieldLaws P) where
  -- The kept bits are the lowest of `b`; none is lost if `b` is below 2 ^ (log_max_pks + 1).
  pub b_bool_lem :
      (b : P.FieldElement) (max_pks : ℕ)
      → max_pks ≤ 2 ^ 63
      → (b_bool P b max_pks ≡ ok (map some (bits_be (log_max_pks max_pks + 1) (L.to_nat b))))
  unfolding b_bool
  b_bool_lem b max_pks small =
      let few = log_max_pks-le max_pks small in
      let size = size_in_bits-large P L in
      let skip = P.size_in_bits - (log_max_pks max_pks + 1) in
      let whole : P.size_in_bits ≡ skip + (log_max_pks max_pks + 1) = omega arith in
      let kept : drop skip (P.write_bits b) ≡ bits_be (log_max_pks max_pks + 1) (L.to_nat b) =
        ap (drop skip) (L.write_bits_lem b)
        ∙ ap (λ (w : ℕ). drop skip (bits_be w (L.to_nat b))) whole
        ∙ drop-bits_be skip (log_max_pks max_pks + 1) (L.to_nat b) in
      rw (le→leb (log_max_pks max_pks + 1) P.size_in_bits (omega arith), kept) refl

  pub value_be-kept :
      (b : P.FieldElement) (w : ℕ)
      → L.to_nat b < 2 ^ w
      → value_be (bits_be w (L.to_nat b)) ≡ L.to_nat b
  value_be-kept b w small = value_be-bits_be w (L.to_nat b) ∙ mod-eq_of_lt small
