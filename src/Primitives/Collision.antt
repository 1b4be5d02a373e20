-- ===== src/Primitives/Collision.antt =====
-- Collisions of the field's hash, by which demo-circuit and api bind a certificate to its data.
use zendoo_sc_cryptolib.Prelude.{◌≡◌, ◌≢◌, refl, ◌⊎◌, inl, inr, Bool-cases, List, [], ◌∷◌}
use zendoo_sc_cryptolib.Prelude.Call.{ok}
use zendoo_sc_cryptolib.Primitives.{Primitives}
use zendoo_sc_cryptolib.Primitives.Laws.{FieldLaws, hash}

-- Two given inputs that differ and have one digest.
pub record IsCollision (P : Primitives) (xs ys : List P.FieldElement) : Type 0 where
  pub digest : P.FieldElement
  pub differ : xs ≢ ys
  pub first : hash P xs ≡ ok digest
  pub second : hash P ys ≡ ok digest

module _ (P : Primitives) (L : FieldLaws P) where
  same_elements : (xs ys : List P.FieldElement) → (xs ≡ ys) ⊎ (xs ≢ ys)
  same_elements [] [] = inl refl
  same_elements [] (y ∷ ys) = inr (λ e. cc e)
  same_elements (x ∷ xs) [] = inr (λ e. cc e)
  same_elements (x ∷ xs) (y ∷ ys) = elim (Bool-cases (P.eq x y)) [
    | inr differ ↦ inr (λ e. cc (e, differ, L.eq_refl x))
    | inl same ↦ elim (same_elements xs ys) [
      | inl rest ↦ inl (cc (L.eq_sound x y same, rest))
      | inr rest ↦ inr (λ e. rest (cc e))
    ]
  ]

  -- Two inputs with one digest collide, or are the same.
  pub collide_or_same {ℓ} :
      {C : Type ℓ} (xs ys : List P.FieldElement) (h : P.FieldElement)
      → hash P xs ≡ ok h
      → hash P ys ≡ ok h
      → (IsCollision P xs ys → C)
      → (xs ≡ ys → C)
      → C
  collide_or_same xs ys h ex ey collision k = elim (same_elements xs ys) [
    | inl same ↦ k same
    | inr differ ↦ collision (record { digest = h; differ = differ; first = ex; second = ey })
  ]
