-- ===== src/Constants/Table.antt =====
-- What stands in the table of the group hash: `compute_group_hash_table` of
-- demo-circuit/src/constants/mod.rs.
use zendoo_sc_cryptolib.Prelude.{
  ℕ, zero, suc, ◌*◌, ◌^◌, ◌≡◌, refl, sym, ap, ◌∙◌, List, [], ◌∷◌, map, arith,
}
use zendoo_sc_cryptolib.Prelude.Call.{ok}
use zendoo_sc_cryptolib.Constants.{
  Curve, window_size, double_times, segment, generator_at, segments_from, compute_group_hash_table,
}

-- The multiples of a point: `scale n p` is `n` times `p`, and doubling is twice.
pub record Multiples (E : Curve) : Type 0 where
  pub scale : ℕ → E.G2Projective → E.G2Projective
  pub scale_one : (p : E.G2Projective) → scale 1 p ≡ p
  pub scale_mul : (m n : ℕ) (p : E.G2Projective) → scale m (scale n p) ≡ scale (m * n) p
  pub double_lem : (p : E.G2Projective) → E.double p ≡ scale 2 p

-- `f i`, `f (i + 1)`, and so on, `n` values
abbrev pub tabulate_from {ℓ} : {A : Type ℓ} (f : ℕ → A) (i n : ℕ) → List A
tabulate_from f i zero = []
tabulate_from f i (suc n) = f i ∷ tabulate_from f (suc i) n

module _ (E : Curve) (M : Multiples E) where
  open M use {scale}

  -- The segment that belongs to a generator `g`: `16 ^ j` times `g`, for each `j` in the window.
  abbrev pub window : E.G2Projective → List E.G2Projective
  window g = tabulate_from (λ j. scale (16 ^ j) g) 0 window_size

  double_four : (p : E.G2Projective) → double_times E 4 p ≡ scale 16 p
  unfolding double_times
  double_four p =
      rw
        (
          M.double_lem (E.double (E.double (E.double p))),
          M.double_lem (E.double (E.double p)),
          M.double_lem (E.double p),
          M.double_lem p,
          M.scale_mul 2 2 p,
          M.scale_mul 2 4 p,
          M.scale_mul 2 8 p,
        )
        refl

  scale_next : (i : ℕ) (g : E.G2Projective) → scale 16 (scale (16 ^ i) g) ≡ scale (16 ^ suc i) g
  scale_next i g = M.scale_mul 16 (16 ^ i) g ∙ ap (λ k. scale k g) (ground arith)

  segment-scale :
      (n i : ℕ) (g : E.G2Projective)
      → segment E n (scale (16 ^ i) g) ≡ tabulate_from (λ j. scale (16 ^ j) g) i n
  unfolding segment
  segment-scale zero i g = refl
  segment-scale (suc n) i g =
      rw (double_four (scale (16 ^ i) g), scale_next i g, segment-scale n (suc i) g) refl

  segment-window : (g : E.G2Projective) → segment E window_size g ≡ window g
  segment-window g =
      ap (segment E window_size) (sym (M.scale_one g)) ∙ segment-scale window_size 0 g

  -- The table for two generators or more has one segment for each of the first two; entry `j` of a
  -- segment is `16 ^ j` times its generator, for each `j` in the window.
  pub compute_group_hash_table-window :
      (g h : E.G2Projective) (gs : List E.G2Projective)
      → compute_group_hash_table E (g ∷ h ∷ gs) ≡ ok (map window (g ∷ h ∷ []))
  unfolding compute_group_hash_table segments_from generator_at
  compute_group_hash_table-window g h gs = rw (segment-window g, segment-window h) refl
