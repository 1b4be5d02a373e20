-- ===== src/Threshold/Count.antt =====
-- The allocation of optional witnesses, and the count of valid signatures as a number.
use zendoo_sc_cryptolib.Prelude.{
  ℕ, ◌+◌, ◌^◌, ◌≤◌, ◌<◌, ◌≡◌, refl, ap, ◌∙◌, Bool, true, false, Option, none, some, List, [], ◌∷◌,
  map, length, arith,
}
use native.Mathlib.Nat.{mod-eq_of_lt}
use zendoo_sc_cryptolib.Prelude.Call.{ok, invert, ok-injective}
use zendoo_sc_cryptolib.Prelude.Bits.{bit}
use zendoo_sc_cryptolib.Primitives.{Primitives}
use zendoo_sc_cryptolib.Primitives.Laws.{FieldLaws, GadgetLaws}
use zendoo_sc_cryptolib.Threshold.{alloc_all, verify_all, count_valid}

-- How many verdicts hold.
unfoldable pub count_true : List Bool → ℕ
count_true [] = 0
count_true (v ∷ vs) = bit v + count_true vs

pub count_true-le-length : (vs : List Bool) → count_true vs ≤ length vs
unfolding count_true
count_true-le-length [] = omega arith
count_true-le-length (true ∷ vs) = omega (arith, count_true-le-length vs)
count_true-le-length (false ∷ vs) = omega (arith, count_true-le-length vs)

pub alloc_all-map-some {ℓ} : {A : Type ℓ} (xs : List A) → alloc_all (map some xs) ≡ ok xs
unfolding alloc_all
alloc_all-map-some [] = refl
alloc_all-map-some (x ∷ xs) = rw (alloc_all-map-some xs)

pub alloc_all-eq-ok {ℓ} :
    {A : Type ℓ} (xs : List (Option A)) {ys : List A} → alloc_all xs ≡ ok ys → xs ≡ map some ys
unfolding alloc_all
alloc_all-eq-ok [] {ys} h = rw (← ok-injective h) refl
alloc_all-eq-ok (none ∷ xs) h = cc
alloc_all-eq-ok (some x ∷ xs) {ys} h =
    invert (alloc_all xs) _ h
      λ rest e k. rw (← ok-injective k) (ap (λ (t : _). some x ∷ t) (alloc_all-eq-ok xs e))

module _ (P : Primitives) (L : FieldLaws P) (G : GadgetLaws P L) where
  pub length-verify_all :
      (m : P.FieldElement) (pks : List P.G2Projective) (sigs : List P.SchnorrSig) {vs : List Bool}
      → verify_all P m pks sigs ≡ ok vs
      → length vs ≤ length pks
  unfolding verify_all
  length-verify_all m [] sigs h = rw (← ok-injective h) (omega arith)
  length-verify_all m (pk ∷ pks) [] h = rw (← ok-injective h) (omega arith)
  length-verify_all m (pk ∷ pks) (sig ∷ sigs) h =
      invert (P.enforce_signature_verdict pk sig m) _ h λ v e h1.
        invert (verify_all P m pks sigs) _ h1
          λ rest e' k. rw (← ok-injective k) (omega (arith, length-verify_all m pks sigs e'))

  to_nat-from_small : (n : ℕ) → n < 2 ^ 129 → L.to_nat (P.from n) ≡ n
  to_nat-from_small n h = rw (L.to_nat-from n) (mod-eq_of_lt (omega (arith, L.modulus_large)))

  -- As long as the count stays below the modulus it is the number of verdicts that hold.
  to_nat-count_from :
      (acc : P.FieldElement) (vs : List Bool)
      → L.to_nat acc + count_true vs < L.modulus
      → L.to_nat (count_valid P acc vs) ≡ L.to_nat acc + count_true vs
  unfolding count_valid count_true
  to_nat-count_from acc [] h = omega arith
  to_nat-count_from acc (true ∷ vs) h =
      let one_more : L.to_nat (P.add acc (P.from 1)) ≡ L.to_nat acc + 1 =
        rw (L.to_nat-add acc (P.from 1), to_nat-from_small 1 (omega arith))
          (mod-eq_of_lt (omega arith)) in
      rw (G.conditionally_add_constant_lem acc true (P.from 1))
        (to_nat-count_from (P.add acc (P.from 1)) vs (omega arith) ∙ omega arith)
  to_nat-count_from acc (false ∷ vs) h =
      rw (G.conditionally_add_constant_lem acc false (P.from 1))
        (to_nat-count_from acc vs (omega arith) ∙ omega arith)

  pub to_nat-count_valid :
      (vs : List Bool)
      → count_true vs < 2 ^ 129
      → L.to_nat (count_valid P (P.from 0) vs) ≡ count_true vs
  to_nat-count_valid vs h =
      let start = to_nat-from_small 0 (omega arith) in
      to_nat-count_from (P.from 0) vs (omega (arith, L.modulus_large, start)) ∙ omega (arith, start)
