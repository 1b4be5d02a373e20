-- ===== src/Calls/Inputs.antt =====
-- The public inputs of a certificate as its other side computes them, and what the calls of
-- api/src/cctp_calls.rs have done where they succeed.
use zendoo_sc_cryptolib.Prelude.{
  ℕ, ◌+◌, ◌-◌, ◌*◌, ◌^◌, ◌≤◌, ◌<◌, ◌≡◌, refl, sym, ap, ◌∙◌, Bool, true, Option, some, List, [], ◌∷◌,
  map, length, le→leb,
}
use zendoo_sc_cryptolib.Prelude.Call.{Call, ok, invert, ok-injective, ◌>>=◌}
use zendoo_sc_cryptolib.Prelude.Bits.{bits_be}
use zendoo_sc_cryptolib.Prelude.Log.{log_max_pks}
use zendoo_sc_cryptolib.Primitives.{Primitives, BackwardTransfer}
use zendoo_sc_cryptolib.Primitives.Laws.{FieldLaws, GadgetLaws, hash}
use zendoo_sc_cryptolib.Threshold.{
  NaiveTresholdSignature, ConstraintSystem, new, generate_constraints,
}
use zendoo_sc_cryptolib.Threshold.Comparison.{b_bool_lem}
use zendoo_sc_cryptolib.Calls.{
  compute_pks_threshold_hash, compute_msg_to_sign, bt_list_opt, only_element, sub_u64,
}

-- The hash gives a digest of any element or more, and the byte accumulator packs two words.
pub record CallLaws (P : Primitives) (L : FieldLaws P) : Type 0 where
  pub hash_total :
      (xs : List P.FieldElement) → 0 < length xs → (h : P.FieldElement) × (hash P xs ≡ ok h)
  pub accumulate_fees :
      (x y : ℕ)
      → x < 2 ^ 64
      → y < 2 ^ 64
      → (a : P.FieldElement) × (P.accumulate (x ∷ y ∷ []) ≡ ok (a ∷ []))
        × (L.to_nat a ≡ x * 2 ^ 64 + y)

abbrev pub empty_system : (P : Primitives) → ConstraintSystem P
empty_system P = record { inputs = []; satisfied = true }

-- The second public input, as the certificate's verifier computes it: the hash of the hash of the
-- certificate's data, the number of valid signatures among them.
unfoldable pub cert_data_hash :
    (P : Primitives) (sc_id epoch_number mr_bt valid root fees : P.FieldElement)
    → Call P.FieldElement
cert_data_hash P sc_id epoch_number mr_bt valid root fees =
    hash P (sc_id ∷ epoch_number ∷ mr_bt ∷ valid ∷ root ∷ fees ∷ []) >>= λ h. hash P (h ∷ [])

-- The circuit `c` meets every constraint at two public inputs: the constant that
-- `compute_pks_threshold_hash` gives for the keys and the threshold, and the hash of the
-- certificate's data with `n` as the number of valid signatures.
pub record SatisfiedAt (P : Primitives) (pks : List P.G2) (sc_id : P.FieldElement) (epoch : ℕ)
    (root : P.FieldElement) (btr ft : ℕ) (bts : List BackwardTransfer) (t : ℕ)
    (c : NaiveTresholdSignature P) (n : ℕ) : Type 0 where
  pub cs : ConstraintSystem P
  pub constant : P.FieldElement
  pub mr_bt : P.FieldElement
  pub fees : P.FieldElement
  pub data_hash : P.FieldElement
  pub runs : generate_constraints P c (empty_system P) ≡ ok cs
  pub satisfied : cs.satisfied ≡ true
  pub inputs : cs.inputs ≡ constant ∷ data_hash ∷ []
  pub constant_lem : compute_pks_threshold_hash P pks t ≡ ok constant
  pub mr_bt_lem : P.get_bt_merkle_root (bt_list_opt P bts) ≡ ok mr_bt
  pub fees_lem : P.accumulate (btr ∷ ft ∷ []) ≡ ok (fees ∷ [])
  pub data_hash_lem :
      cert_data_hash P sc_id (P.from epoch) mr_bt (P.from n) root fees ≡ ok data_hash

pub only_element-eq-ok :
    (P : Primitives) (fes : List P.FieldElement) {fe : P.FieldElement}
    → only_element P fes ≡ ok fe
    → fes ≡ fe ∷ []
unfolding only_element
only_element-eq-ok P [] h = cc
only_element-eq-ok P (x ∷ []) h = ap (λ (t : _). t ∷ []) (ok-injective h)
only_element-eq-ok P (x ∷ y ∷ rest) h = cc

pub compute_msg_to_sign-eq-ok :
    (P : Primitives) (sc_id : P.FieldElement) (epoch : ℕ) (root : P.FieldElement) (btr ft : ℕ)
    (bts : List BackwardTransfer) {mr_bt msg : P.FieldElement}
    → compute_msg_to_sign P sc_id epoch root btr ft bts ≡ ok (mr_bt, msg)
    → (fees : P.FieldElement) × ((P.get_bt_merkle_root (bt_list_opt P bts) ≡ ok mr_bt)
        × (P.accumulate (btr ∷ ft ∷ []) ≡ ok (fees ∷ []))
        × (hash P (sc_id ∷ P.from epoch ∷ mr_bt ∷ root ∷ fees ∷ []) ≡ ok msg))
unfolding compute_msg_to_sign
compute_msg_to_sign-eq-ok P sc_id epoch root btr ft bts h0 =
    invert (P.get_bt_merkle_root (bt_list_opt P bts)) _ h0 λ mr e1 h1.
      invert (P.accumulate (btr ∷ ft ∷ [])) _ h1 λ fes e2 h2.
        invert (only_element P fes) _ h2 λ fe e3 h3.
          invert (hash P (sc_id ∷ P.from epoch ∷ mr ∷ root ∷ fe ∷ [])) _ h3 λ m e4 h4.
            let same = ok-injective h4 in
            (
              fe,
              (
                e1 ∙ ap (λ (r : P.FieldElement × P.FieldElement). ok (r.0)) same,
                e2 ∙ ap ok (only_element-eq-ok P fes e3),
                ap (λ (x : P.FieldElement). hash P (sc_id ∷ P.from epoch ∷ x ∷ root ∷ fe ∷ []))
                      (ap (λ (r : P.FieldElement × P.FieldElement). r.0) (sym same))
                    ∙ e4
                    ∙ ap (λ (r : P.FieldElement × P.FieldElement). ok (r.1)) same,
              ),
            )

pub map-pk_x :
    (P : Primitives) (L : FieldLaws P) (G : GadgetLaws P L) (pks : List P.G2)
    → map P.pk_x (map P.into_projective pks) ≡ map P.affine_x pks
map-pk_x P L G [] = refl
map-pk_x P L G (pk ∷ pks) = λ i. G.pk_x-into_projective pk i ∷ map-pk_x P L G pks i

pub new_lem :
    (P : Primitives) (L : FieldLaws P) (pks : List P.G2Projective)
    (sigs : List (Option P.SchnorrSig)) (t b sc_id epoch root mr_bt : P.FieldElement)
    (ft btr max_pks : ℕ)
    → max_pks ≤ 2 ^ 63
    → new P pks sigs t b sc_id epoch root mr_bt ft btr max_pks
      ≡ ok (record {
        pks = map some pks;
        sigs = sigs;
        threshold = some t;
        b = map some (bits_be (log_max_pks max_pks + 1) (L.to_nat b));
        sc_id = some sc_id;
        epoch_number = some epoch;
        end_cumulative_sc_tx_comm_tree_root = some root;
        mr_bt = some mr_bt;
        ft_min_amount = some ft;
        btr_fee = some btr;
        max_pks = max_pks;
      })
unfolding new
new_lem P L pks sigs t b sc_id epoch root mr_bt ft btr max_pks small =
    rw (b_bool_lem P L b max_pks small)

pub sub_u64-le :
    (P : Primitives) (oc : Bool) (a b : ℕ) {d : ℕ} → b ≤ a → sub_u64 P oc a b ≡ ok d → d ≡ a - b
unfolding sub_u64
sub_u64-le P oc a b {d} le h = ok-injective (sym h ∙ rw (le→leb b a le))
