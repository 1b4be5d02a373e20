-- ===== src/Constants.antt =====
-- The constants of demo-circuit/src/constants/mod.rs: the null signature and key of the threshold
-- circuit, and the generators of the group hash of the VRF. The field and the curve are parameters.
pub mod Table
use zendoo_sc_cryptolib.Prelude.{ℕ, zero, suc, ◌+◌, List, [], ◌∷◌}
use zendoo_sc_cryptolib.Prelude.Call.{Call, ok, panic, string, ◌>>=◌}

-- What the constants are built with: `field_new!` of four limbs, the highest last, and the
-- constructors and the doubling of ginger-lib.
pub record Curve : Type 1 where
  pub FieldElement : Type 0
  pub G2Projective : Type 0
  pub SchnorrSig : Type 0
  pub one : FieldElement
  pub field_new : List ℕ → FieldElement
  pub new_sig : (e s : FieldElement) → SchnorrSig
  pub new_projective : (x y z : FieldElement) → G2Projective
  pub double : G2Projective → G2Projective

pub record NaiveThresholdSigParams (E : Curve) : Type 0 where
  pub null_sig : E.SchnorrSig
  pub null_pk : E.G2Projective

-- `VRFWindow`
abbrev pub window_size : ℕ
window_size = 128

abbrev pub num_windows : ℕ
num_windows = 2

pub record VrfParams (E : Curve) : Type 0 where
  pub group_hash_generators : List (List E.G2Projective)

module _ (E : Curve) where
  open E use {G2Projective, field_new, new_projective}

  -- `NaiveThresholdSigParams::new`
  unfoldable pub threshold_params : NaiveThresholdSigParams E
  threshold_params = record {
    null_sig = E.new_sig E.one E.one;
    null_pk =
        new_projective
          (field_new (
            817531083298639342 ∷ 16113810631348879462 ∷ 1306238005170570794 ∷ 917352325188691328
            ∷ []))
          (field_new (
            7051092939593429249 ∷ 9720513155186830666 ∷ 6359574609400546156 ∷ 2888851165431378812
            ∷ []))
          (field_new (
            2035294266095304701 ∷ 17681163514934325971 ∷ 18446744073709551615 ∷ 4611686018427387903
            ∷ []));
  }

  -- `for _ in 0..n { base.double_in_place(); }`
  unfoldable pub double_times : (n : ℕ) (base : G2Projective) → G2Projective
  double_times zero base = base
  double_times (suc n) base = double_times n (E.double base)

  -- One segment of the table: each entry is the one before it, doubled four times.
  unfoldable pub segment : (n : ℕ) (base : G2Projective) → List G2Projective
  segment zero base = []
  segment (suc n) base = base ∷ segment n (double_times 4 base)

  -- `generators[i]`
  unfoldable pub generator_at : (generators : List G2Projective) (i : ℕ) → Call G2Projective
  generator_at [] i = panic (string "index out of bounds")
  generator_at (g ∷ gs) zero = ok g
  generator_at (g ∷ gs) (suc i) = generator_at gs i

  -- The loop over the segments, from the `i`-th one.
  unfoldable pub segments_from :
      (generators : List G2Projective) (i left : ℕ) → Call (List (List G2Projective))
  segments_from generators i zero = ok []
  segments_from generators i (suc left) = do
    base ← generator_at generators i
    rest ← segments_from generators (i + 1) left
    ok (segment window_size base ∷ rest)

  unfoldable pub compute_group_hash_table :
      (generators : List G2Projective) → Call (List (List G2Projective))
  compute_group_hash_table generators = segments_from generators 0 num_windows

  gen_1 : G2Projective
  gen_1 =
      new_projective
        (field_new (
          12926485790763496744 ∷ 7301812230106132899 ∷ 5868404524855748477 ∷ 606499321461550871
          ∷ []))
        (field_new (
          12459762756615730720 ∷ 7373659181971905397 ∷ 417161890334020390 ∷ 1065371458433835676
          ∷ []))
        (field_new (
          2035294266095304701 ∷ 17681163514934325971 ∷ 18446744073709551615 ∷ 4611686018427387903
          ∷ []))

  gen_2 : G2Projective
  gen_2 =
      new_projective
        (field_new (
          15342121784330514541 ∷ 9118652640516123238 ∷ 17509069746383483632 ∷ 1285742610361624126
          ∷ []))
        (field_new (
          5093526993895361515 ∷ 7436829771986140347 ∷ 8066708127376422025 ∷ 1382517365996680842
          ∷ []))
        (field_new (
          2035294266095304701 ∷ 17681163514934325971 ∷ 18446744073709551615 ∷ 4611686018427387903
          ∷ []))

  -- `VRFParams::new`
  unfoldable pub vrf_params : Call (VrfParams E)
  unfolding gen_1 gen_2
  vrf_params = do
    table ← compute_group_hash_table (gen_1 ∷ gen_2 ∷ [])
    ok (record { group_hash_generators = table })
