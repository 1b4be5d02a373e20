-- ===== src/Threshold/Soundness.antt =====
-- What a satisfied circuit shows: enough signatures verify.
use zendoo_sc_cryptolib.Prelude.{
  ℕ, ◌+◌, ◌-◌, ◌^◌, ◌≤◌, ◌<◌, ◌≡◌, refl, some_injective, sym, ap, ◌∙◌, Bool, true, false, ◌&&◌,
  some, List, [], ◌∷◌, length, length-map, arith,
}
use native.Mathlib.Nat.{mod-eq_of_lt, pow-le-pow_right}
use native.Mathlib.Decide.{dec_le}
use zendoo_sc_cryptolib.Prelude.Call.{Call, ok, err, panic, invert, ok-injective}
use zendoo_sc_cryptolib.Prelude.Bits.{bit, value_be-lt}
use zendoo_sc_cryptolib.Prelude.Log.{log_max_pks, log_max_pks-le}
use zendoo_sc_cryptolib.Primitives.{Primitives}
use zendoo_sc_cryptolib.Primitives.Laws.{FieldLaws, GadgetLaws}
use zendoo_sc_cryptolib.Threshold.{
  NaiveTresholdSignature, ConstraintSystem, verify_all, generate_constraints,
}
use zendoo_sc_cryptolib.Threshold.Count.{
  count_true, count_true-le-length, alloc_all-eq-ok, length-verify_all, to_nat-count_valid,
}
use zendoo_sc_cryptolib.Threshold.Fees.{size_in_bits-large}
use zendoo_sc_cryptolib.Threshold.Trace.{Values, valid, IsTrace, generate_constraints-IsTrace}

-- Whether a verification says yes.
abbrev pub accepts : Call Bool → Bool
accepts (ok v) = v
accepts (err e) = false
accepts (panic p) = false

-- How many signatures the Schnorr scheme accepts on the message, each under the key beside it.
unfoldable pub count_verified :
    (P : Primitives) → P.FieldElement → List P.G2Projective → List P.SchnorrSig → ℕ
count_verified P m [] sigs = 0
count_verified P m (pk ∷ pks) [] = 0
count_verified P m (pk ∷ pks) (sig ∷ sigs) =
    bit (accepts (P.schnorr_verify pk m sig)) + count_verified P m pks sigs

pub and_true : (a b : Bool) → (a && b) ≡ true → b ≡ true
and_true true b h = h
and_true false b h = cc

module _ (P : Primitives) (L : FieldLaws P) (G : GadgetLaws P L) where
  pub count_true-verify_all :
      (m : P.FieldElement) (pks : List P.G2Projective) (sigs : List P.SchnorrSig) {vs : List Bool}
      → verify_all P m pks sigs ≡ ok vs
      → count_true vs ≡ count_verified P m pks sigs
  unfolding verify_all count_true count_verified
  count_true-verify_all m [] sigs h = rw (← ok-injective h) refl
  count_true-verify_all m (pk ∷ pks) [] h = rw (← ok-injective h) refl
  count_true-verify_all m (pk ∷ pks) (sig ∷ sigs) h =
      invert (P.enforce_signature_verdict pk sig m) _ h λ v e h1.
        invert (verify_all P m pks sigs) _ h1 λ rest e' k.
          rw
            (
              ← ok-injective k,
              ← G.enforce_signature_verdict_lem pk sig m,
              e,
              count_true-verify_all m pks sigs e',
            )
            refl

  -- A difference in the field that is small is a difference of numbers.
  no_borrow :
      (v t b : P.FieldElement) (bound : ℕ)
      → P.sub v t ≡ b
      → L.to_nat b < bound
      → L.to_nat t + bound ≤ L.modulus
      → L.to_nat t ≤ L.to_nat v
  no_borrow v t b bound e small room = elim (dec_le (L.to_nat t) (L.to_nat v)) [
    | yes h ↦ h
    | no h ↦
        let value : L.to_nat b ≡ L.to_nat v + L.modulus - L.to_nat t =
          ap L.to_nat (sym e) ∙ L.to_nat-sub v t ∙ mod-eq_of_lt (omega arith) in
        absurd (omega arith)
  ]

  module _ (c : NaiveTresholdSignature P) (cs cs' : ConstraintSystem P) where
    -- The bits of `b` make a number below 2 ^ 65.
    b_field-lt :
        (v : Values P) → c.max_pks ≤ 2 ^ 63 → IsTrace P c cs cs' v → L.to_nat v.b_field < 2 ^ 65
    b_field-lt v small tr =
        let bits_length : length v.bits ≡ log_max_pks c.max_pks + 1 =
          sym (length-map some v.bits)
          ∙ ap length (sym (alloc_all-eq-ok c.b tr.bits))
          ∙ sym tr.max_bits in
        let few = log_max_pks-le c.max_pks small in
        let (a, e, n) =
          G.to_nat-from_bits v.bits (omega (arith, size_in_bits-large P L, bits_length, few)) in
        let same : v.b_field ≡ a = ok-injective (sym tr.b_field ∙ e) in
        let cap =
          pow-le-pow_right {n = 2} (omega arith) {i = length v.bits} {j = 65}
            (omega (arith, bits_length, few)) in
        omega (arith, ap L.to_nat same, n, value_be-lt v.bits, cap)

    -- The number of verdicts that hold is the number of signatures that verify, in the field too.
    pub to_nat-valid :
        (v : Values P)
        → c.max_pks ≤ 2 ^ 63
        → IsTrace P c cs cs' v
        → (L.to_nat (valid P v) ≡ count_verified P v.message v.pks v.sigs)
          × (count_verified P v.message v.pks v.sigs ≤ 2 ^ 63)
    to_nat-valid v small tr =
        let keys : length v.pks ≡ c.max_pks =
          sym (length-map some v.pks)
          ∙ ap length (sym (alloc_all-eq-ok c.pks tr.pks))
          ∙ sym tr.max_pks in
        let fits = length-verify_all P L G v.message v.pks v.sigs tr.verdicts in
        let bound = count_true-le-length v.verdicts in
        let verified = count_true-verify_all v.message v.pks v.sigs tr.verdicts in
        let number = to_nat-count_valid P L G v.verdicts (omega (arith, bound, fits, keys)) in
        (omega (arith, number, verified), omega (arith, bound, fits, keys, verified))

    -- In a run whose constraints hold, a threshold of 64 bits is not above the valid signatures.
    pub threshold-le-valid :
        (v : Values P)
        → c.max_pks ≤ 2 ^ 63
        → IsTrace P c cs cs' v
        → L.to_nat v.t < 2 ^ 64
        → cs'.satisfied ≡ true
        → L.to_nat v.t ≤ L.to_nat (valid P v)
    threshold-le-valid v small tr word holds =
        let equal : P.sub (valid P v) v.t ≡ v.b_field =
          L.eq_sound (P.sub (valid P v) v.t) v.b_field (
            and_true
              ((cs.satisfied && P.eq v.pks_threshold_hash v.pks_threshold_hash)
                && P.eq v.cert_data_hash v.cert_data_hash)
              _ (sym tr.satisfied ∙ holds)) in
        no_borrow (valid P v) v.t v.b_field (2 ^ 65) equal (b_field-lt v small tr)
          (omega (arith, L.modulus_large))

    -- With at most 2 ^ 63 keys and a threshold that is given and below 2 ^ 64: if a run of
    -- `generate_constraints` ends and the constraints that it leaves hold, the run has values for
    -- which at least `threshold` of the signatures verify, each under the key beside it, on the
    -- message that the circuit hashes.
    pub satisfied-threshold :
        c.max_pks ≤ 2 ^ 63
        → (t : P.FieldElement) → c.threshold ≡ some t
        → L.to_nat t < 2 ^ 64
        → generate_constraints P c cs ≡ ok cs'
        → cs'.satisfied ≡ true
        → (v : Values P) × IsTrace P c cs cs' v
          × (v.t ≡ t)
          × (L.to_nat t ≤ count_verified P v.message v.pks v.sigs)
    satisfied-threshold small t given word run holds =
        let (v, tr) = generate_constraints-IsTrace P c cs run in
        let same : v.t ≡ t = some_injective (sym tr.t ∙ given) in
        let counts = to_nat-valid v small tr in
        let small_t : L.to_nat v.t < 2 ^ 64 = omega (arith, ap L.to_nat same, word) in
        (
          v,
          tr,
          same,
          omega (arith, ap L.to_nat same, counts, threshold-le-valid v small tr small_t holds),
        )
