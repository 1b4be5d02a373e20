-- ===== src/Primitives/Laws.antt =====
-- What the program relies on of those operations: the field is the integers below a modulus, the
-- bits of an element are its number's, and each gadget computes what its native counterpart does.
use zendoo_sc_cryptolib.Prelude.{
  ℕ, ◌+◌, ◌-◌, ◌%◌, ◌^◌, ◌≤◌, ◌<◌, ◌≡◌, Bool, true, none, List, [], ◌∷◌, length, if◌then◌else◌,
}
use zendoo_sc_cryptolib.Prelude.Call.{Call, ok}
use zendoo_sc_cryptolib.Prelude.Bits.{value_be, bits_be, bits_le}
use zendoo_sc_cryptolib.Primitives.{Primitives}

-- `h.update(x)` for each `x` in turn.
abbrev pub absorb : (P : Primitives) → P.FieldHash → List P.FieldElement → P.FieldHash
absorb P h [] = h
absorb P h (x ∷ xs) = absorb P (P.update h x) xs

-- `init_constant_length(n, None)`, one update for each of the `n` elements, `finalize()`.
abbrev pub hash : (P : Primitives) → List P.FieldElement → Call P.FieldElement
hash P xs = P.finalize (absorb P (P.init_constant_length (length xs) none) xs)

pub record FieldLaws (P : Primitives) : Type 0 where
  pub modulus : ℕ
  pub to_nat : P.FieldElement → ℕ
  -- two words packed side by side, and a word, fit below the modulus
  pub modulus_large : 2 ^ 129 ≤ modulus
  pub modulus_fits : modulus < 2 ^ P.size_in_bits
  pub to_nat-lt : (a : P.FieldElement) → to_nat a < modulus
  pub to_nat_injective : (a b : P.FieldElement) → to_nat a ≡ to_nat b → a ≡ b
  pub to_nat-from : (n : ℕ) → to_nat (P.from n) ≡ n % modulus
  pub to_nat-add : (a b : P.FieldElement) → to_nat (P.add a b) ≡ (to_nat a + to_nat b) % modulus
  pub to_nat-sub :
      (a b : P.FieldElement) → to_nat (P.sub a b) ≡ (to_nat a + modulus - to_nat b) % modulus
  pub eq_sound : (a b : P.FieldElement) → P.eq a b ≡ true → a ≡ b
  pub eq_refl : (a : P.FieldElement) → P.eq a a ≡ true
  pub write_bits_lem : (a : P.FieldElement) → P.write_bits a ≡ bits_be P.size_in_bits (to_nat a)

pub record GadgetLaws (P : Primitives) (L : FieldLaws P) : Type 0 where
  -- fewer bits than the field's length stand for one element, without reduction
  pub to_nat-from_bits :
      (bs : List Bool)
      → length bs < P.size_in_bits
      → (a : P.FieldElement) × (P.from_bits bs ≡ ok a) × (L.to_nat a ≡ value_be bs)
  pub uint64_to_bits_le_lem : (n : ℕ) → P.uint64_to_bits_le n ≡ bits_le 64 n
  pub conditionally_add_constant_lem :
      (a : P.FieldElement) (b : Bool) (c : P.FieldElement)
      → P.conditionally_add_constant a b c ≡ (if b then P.add a c else a)
  pub enforce_hash_lem : (xs : List P.FieldElement) → P.enforce_hash_constant_length xs ≡ hash P xs
  pub enforce_signature_verdict_lem :
      (pk : P.G2Projective) (sig : P.SchnorrSig) (m : P.FieldElement)
      → P.enforce_signature_verdict pk sig m ≡ P.schnorr_verify pk m sig
  pub pk_x-into_projective : (pk : P.G2) → P.pk_x (P.into_projective pk) ≡ P.affine_x pk
