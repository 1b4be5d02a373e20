-- ===== src/Examples/Toy.antt =====
-- A toy library that meets the laws: the field modulo the Tweedle prime, a polynomial hash, and a
-- signature scheme in which the signature of `m` under the key `k` is `k` plus the low word of `m`.
use zendoo_sc_cryptolib.Prelude.{
  ℕ, ◌+◌, ◌-◌, ◌*◌, ◌%◌, ◌^◌, ◌<◌, ◌≡◌, refl, sym, ap, ◌∙◌, Bool, true, none, some, List, [], ◌∷◌,
  length, ◌==◌, ==→eq, eq→==, if◌then◌else◌, arith,
}
use mathlib.Core.HLevel.{Σ_prop_path}
use native.Mathlib.Bridge.{le_prop}
use native.Mathlib.Nat.{mod-lt, mod-eq_of_lt, pow-le-pow_right}
use zendoo_sc_cryptolib.Prelude.Call.{Call, ok, err, external}
use zendoo_sc_cryptolib.Prelude.Bits.{bits_be, bits_le, value_be, value_be-lt}
use zendoo_sc_cryptolib.Primitives.{Primitives, BackwardTransfer}
use zendoo_sc_cryptolib.Primitives.Laws.{FieldLaws, GadgetLaws, hash, absorb}
use zendoo_sc_cryptolib.Calls.Inputs.{CallLaws}

abbrev pub modulus : ℕ
modulus = 28948022309329048855892746252171976963322203655954433126947083963168578338817

abbrev pub Element : Type 0
Element = (n : ℕ) × (n < modulus)

pub reduced : (n : ℕ) → n % modulus < modulus
reduced n = mod-lt n (omega arith)

abbrev pub element : ℕ → Element
element n = (n % modulus, reduced n)

pub element-eq : (a b : Element) → a.0 ≡ b.0 → a ≡ b
element-eq a b h = Σ_prop_path (λ n. le_prop) h

abbrev pub Hasher : Type 0
Hasher = ℕ × ℕ × ℕ

abbrev pub finalize : Hasher → Call Element
finalize (expected, seen, acc) = if expected == seen then ok (element acc) else err (external 1)

abbrev pub sum_amounts : List BackwardTransfer → ℕ
sum_amounts [] = 0
sum_amounts (t ∷ ts) = t.amount + 3 * sum_amounts ts

abbrev pub pack_words : ℕ → List ℕ → ℕ
pack_words acc [] = acc
pack_words acc (x ∷ xs) = pack_words (acc * 2 ^ 64 + x) xs

abbrev pub toy_update : Hasher → Element → Hasher
toy_update (e, s, acc) x = (e, s + 1, (acc * 31 + x.0 + 7) % modulus)

abbrev pub toy_absorb : Hasher → List Element → Hasher
toy_absorb h [] = h
toy_absorb h (x ∷ xs) = toy_absorb (toy_update h x) xs

abbrev pub toy : Primitives
toy = record {
  FieldElement = Element;
  G2 = ℕ;
  G2Projective = ℕ;
  ScalarFieldElement = ℕ;
  SchnorrSig = ℕ;
  into_projective = λ k. k;
  into_affine = λ k. k;
  size_in_bits = 255;
  from = element;
  add = λ a b. element (a.0 + b.0);
  sub = λ a b. element (a.0 + modulus - b.0);
  eq = λ a b. a.0 == b.0;
  write_bits = λ a. bits_be 255 a.0;
  affine_x = λ k. element (k * 5 + 3);
  FieldHash = Hasher;
  init_constant_length = λ n p. (n, 0, 1);
  update = toy_update;
  finalize = finalize;
  rand_from_seed = element;
  schnorr_keygen = λ r. (r + 1, r + 1);
  schnorr_get_public_key = λ k. k;
  schnorr_keyverify = λ k. true;
  schnorr_sign = λ r pk sk m. ok (sk + m.0 % 2 ^ 64);
  schnorr_verify = λ pk m s. ok (s == pk + m.0 % 2 ^ 64);
  null_sig = 0;
  VrfProof = ℕ;
  vrf_keygen = λ r. (r + 1, r + 1);
  vrf_get_public_key = λ k. k;
  vrf_keyverify = λ k. true;
  vrf_prove = λ r pk sk m. ok (sk + m.0);
  vrf_proof_to_hash = λ pk m proof.
      finalize (toy_absorb (toy_update (3, 0, 1) m) (element proof ∷ element (proof + 1) ∷ []));
  gamma_coords = λ proof. some (element proof ∷ element (proof + 1) ∷ []);
  get_bt_merkle_root =
      λ o. elim o [ none ↦ ok (element 0) | some ts ↦ ok (element (sum_amounts ts)) ];
  accumulate = λ ws. ok (element (pack_words 0 ws) ∷ []);
  enforce_hash_constant_length = λ xs. finalize (toy_absorb (length xs, 0, 1) xs);
  enforce_signature_verdict = λ pk s m. ok (s == pk + m.0 % 2 ^ 64);
  pk_x = λ k. element (k * 5 + 3);
  uint64_to_bits_le = bits_le 64;
  from_bits = λ bs. ok (element (value_be bs));
  conditionally_add_constant = λ a b c. if b then element (a.0 + c.0) else a;
}

unfoldable pub toy_field : FieldLaws toy
toy_field = record {
  modulus = modulus;
  to_nat = λ a. a.0;
  modulus_large = omega arith;
  modulus_fits = omega arith;
  to_nat-lt = λ a. a.1;
  to_nat_injective = element-eq;
  to_nat-from = λ n. refl;
  to_nat-add = λ a b. refl;
  to_nat-sub = λ a b. refl;
  eq_sound = λ a b h. element-eq a b (==→eq a.0 b.0 h);
  eq_refl = λ a. eq→== a.0 a.0 refl;
  write_bits_lem = λ a. refl;
}

absorb-toy : (h : Hasher) (xs : List Element) → absorb toy h xs ≡ toy_absorb h xs
absorb-toy h [] = refl
absorb-toy h (x ∷ xs) = absorb-toy (toy_update h x) xs

bits_fit : (bs : List Bool) → length bs < 255 → value_be bs < modulus
bits_fit bs h = omega (
  arith,
  value_be-lt bs,
  pow-le-pow_right {n = 2} (omega arith) {i = length bs} {j = 254} (omega arith),
)

abbrev hasher : ℕ → ℕ → ℕ → Hasher
hasher e s acc = (e, s, acc)

toy_absorb-count :
    (e s acc : ℕ) (xs : List Element)
    → (a : ℕ) × (toy_absorb (hasher e s acc) xs ≡ hasher e (s + length xs) a)
toy_absorb-count e s acc [] = (acc, ap (λ (k : ℕ). hasher e k acc) (omega arith))
toy_absorb-count e s acc (x ∷ xs) =
    let (a, h) = toy_absorb-count e (s + 1) ((acc * 31 + x.0 + 7) % modulus) xs in
    (a, h ∙ ap (λ (k : ℕ). hasher e k a) (omega arith))

toy_total : (xs : List Element) → (h : Element) × (hash toy xs ≡ ok h)
toy_total xs =
    let (a, h) = toy_absorb-count (length xs) 0 1 xs in
    (
      element a,
      ap finalize (absorb-toy (length xs, 0, 1) xs ∙ h)
          ∙ rw (eq→== (length xs) (0 + length xs) (omega arith)) refl,
    )

pub toy_gadgets : GadgetLaws toy toy_field
unfolding toy_field
toy_gadgets = record {
  to_nat-from_bits = λ bs h. (element (value_be bs), refl, mod-eq_of_lt (bits_fit bs h));
  uint64_to_bits_le_lem = λ n. refl;
  conditionally_add_constant_lem = λ a b c. refl;
  enforce_hash_lem = λ xs. ap finalize (sym (absorb-toy (length xs, 0, 1) xs));
  enforce_signature_verdict_lem = λ pk sig m. refl;
  pk_x-into_projective = λ pk. refl;
}

pub toy_calls : CallLaws toy toy_field
unfolding toy_field
toy_calls = record {
  hash_total = λ xs h. toy_total xs;
  accumulate_fees = λ x y hx hy. (
    element (pack_words 0 (x ∷ y ∷ [])),
    refl,
    mod-eq_of_lt {n = pack_words 0 (x ∷ y ∷ [])} {m = modulus} (omega arith) ∙ omega arith,
  );
}
