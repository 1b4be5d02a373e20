-- ===== src/Examples/Table.antt =====
-- The table of the group hash over the integers, where a point is a number and doubling is twice.
use zendoo_sc_cryptolib.Prelude.{ℕ, ◌*◌, ◌≡◌, refl, arith, [], ◌∷◌, map}
use zendoo_sc_cryptolib.Prelude.Call.{ok}
use zendoo_sc_cryptolib.Constants.{Curve, compute_group_hash_table}
use zendoo_sc_cryptolib.Constants.Table.{Multiples, window, compute_group_hash_table-window}

abbrev integers : Curve
integers = record {
  FieldElement = ℕ;
  G2Projective = ℕ;
  SchnorrSig = ℕ;
  one = 1;
  field_new = λ limbs. 0;
  new_sig = λ e s. e;
  new_projective = λ x y z. x;
  double = λ p. 2 * p;
}

scale_mul : (m n p : ℕ) → m * (n * p) ≡ (m * n) * p
scale_mul m n p = grind arith

scale_one : (p : ℕ) → 1 * p ≡ p
scale_one p = omega arith

abbrev multiples : Multiples integers
multiples = record {
  scale = λ n p. n * p;
  scale_one = scale_one;
  scale_mul = scale_mul;
  double_lem = λ p. refl;
}

compute_group_hash_table-window_example :
    compute_group_hash_table integers (3 ∷ 5 ∷ [])
    ≡ ok (map (window integers multiples) (3 ∷ 5 ∷ []))
compute_group_hash_table-window_example = compute_group_hash_table-window integers multiples 3 5 []
