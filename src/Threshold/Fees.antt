-- ===== src/Threshold/Fees.antt =====
-- The two fees share one field element, and neither is lost in it.
use zendoo_sc_cryptolib.Prelude.{
  ℕ, ◌+◌, ◌*◌, ◌^◌, ◌<◌, ◌≡◌, ◌++◌, reverse, length, length-append, length-reverse, arith, ◌∙◌, ap,
  sym,
}
use native.Mathlib.Nat.{pow-le-pow_right, mod-eq_of_lt}
use native.Mathlib.Decide.{dec_lt}
use zendoo_sc_cryptolib.Prelude.Call.{ok, ok-injective}
use zendoo_sc_cryptolib.Prelude.Bits.{
  bits_le, length-bits_le, value_be, value_be-append, value_be-reverse-bits_le,
}
use zendoo_sc_cryptolib.Primitives.{Primitives}
use zendoo_sc_cryptolib.Primitives.Laws.{FieldLaws, GadgetLaws}
use zendoo_sc_cryptolib.Threshold.{pack_fees}

module _ (P : Primitives) (L : FieldLaws P) where
  -- The field has more than 129 bits.
  pub size_in_bits-large : 129 < P.size_in_bits
  size_in_bits-large = elim (dec_lt 129 P.size_in_bits) [
    | yes h ↦ h
    | no h ↦ absurd (
        omega (
          arith,
          pow-le-pow_right {n = 2} (omega arith) {i = P.size_in_bits} {j = 129} (omega arith),
          L.modulus_large,
          L.modulus_fits,
        ))
  ]

module _ (P : Primitives) (L : FieldLaws P) (G : GadgetLaws P L) where
  pack_fees-from_bits :
      (x y : ℕ) → pack_fees P x y ≡ P.from_bits (reverse (bits_le 64 x) ++ reverse (bits_le 64 y))
  unfolding pack_fees
  pack_fees-from_bits x y = λ i.
      P.from_bits (reverse (G.uint64_to_bits_le_lem x i) ++ reverse (G.uint64_to_bits_le_lem y i))

  -- The packed element is the number `btr_fee * 2 ^ 64 + ft_min_amount`.
  pub to_nat-pack_fees :
      (btr_fee ft_min_amount : ℕ)
      → btr_fee < 2 ^ 64
      → ft_min_amount < 2 ^ 64
      → (a : P.FieldElement) × (pack_fees P btr_fee ft_min_amount ≡ ok a)
        × (L.to_nat a ≡ btr_fee * 2 ^ 64 + ft_min_amount)
  to_nat-pack_fees x y hx hy =
      let low = reverse (bits_le 64 y) in
      let high = reverse (bits_le 64 x) in
      let low_length : length low ≡ 64 = length-reverse (bits_le 64 y) ∙ length-bits_le 64 y in
      let high_length : length high ≡ 64 = length-reverse (bits_le 64 x) ∙ length-bits_le 64 x in
      let (a, e, n) =
        G.to_nat-from_bits (high ++ low) (
          omega (arith, size_in_bits-large P L, length-append high low, low_length, high_length)) in
      let value : value_be (high ++ low) ≡ x * 2 ^ 64 + y =
        value_be-append high low
        ∙ rw (
          low_length,
          value_be-reverse-bits_le 64 x,
          value_be-reverse-bits_le 64 y,
          mod-eq_of_lt hx,
          mod-eq_of_lt hy,
        ) in
      (a, pack_fees-from_bits x y ∙ e, n ∙ value)

  -- Two pairs of 64-bit words that are packed into the same element are the same.
  pub pack_fees_injective :
      (x y x' y' : ℕ)
      → x < 2 ^ 64
      → y < 2 ^ 64
      → x' < 2 ^ 64
      → y' < 2 ^ 64
      → pack_fees P x y ≡ pack_fees P x' y'
      → (x ≡ x') × (y ≡ y')
  pack_fees_injective x y x' y' hx hy hx' hy' same =
      let (a, e, n) = to_nat-pack_fees x y hx hy in
      let (a', e', n') = to_nat-pack_fees x' y' hx' hy' in
      let meet : a ≡ a' = ok-injective (sym e ∙ same ∙ e') in
      let numbers : x * 2 ^ 64 + y ≡ x' * 2 ^ 64 + y' = sym n ∙ ap L.to_nat meet ∙ n' in
      (omega arith, omega arith)
