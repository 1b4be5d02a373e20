-- ===== src/Threshold.antt =====
-- The naive threshold signature circuit, demo-circuit/src/naive_threshold_sig/mod.rs.
pub mod Comparison
pub mod Count
pub mod Fees
pub mod Soundness
pub mod Trace
use zendoo_sc_cryptolib.Prelude.{
  ℕ, zero, suc, ◌+◌, ◌-◌, ◌≡◌, Bool, true, false, ◌&&◌, Option, none, some, List, [], ◌∷◌, ◌++◌,
  map, reverse, length, drop, replicate, leb, ◌==◌, if◌then◌else◌,
}
use zendoo_sc_cryptolib.Prelude.Call.{
  Call, ok, err, panic, str, assignment_missing, ◌>>=◌, ◌>>◌, assert, ok_or,
}
use zendoo_sc_cryptolib.Prelude.Log.{log_max_pks}
use zendoo_sc_cryptolib.Primitives.{Primitives}

pub record NaiveTresholdSignature (P : Primitives) : Type 0 where
  pub pks : List (Option P.G2Projective)
  pub sigs : List (Option P.SchnorrSig)
  pub threshold : Option P.FieldElement
  pub b : List (Option Bool)
  pub sc_id : Option P.FieldElement
  pub epoch_number : Option P.FieldElement
  pub end_cumulative_sc_tx_comm_tree_root : Option P.FieldElement
  pub mr_bt : Option P.FieldElement
  pub ft_min_amount : Option ℕ
  pub btr_fee : Option ℕ
  pub max_pks : ℕ

-- What the circuit leaves in the constraint system: its public inputs in order, and whether every
-- equality that it enforced holds.
pub record ConstraintSystem (P : Primitives) : Type 0 where
  pub inputs : List P.FieldElement
  pub satisfied : Bool

-- `alloc` of one variable after another from its optional value.
unfoldable pub alloc_all {ℓ} : {A : Type ℓ} → List (Option A) → Call (List A)
alloc_all [] = ok []
alloc_all (x ∷ xs) = do a ← ok_or x assignment_missing; rest ← alloc_all xs; ok (a ∷ rest)

module _ (P : Primitives) where
  open P use {
    FieldElement, G2Projective, SchnorrSig, size_in_bits, from, sub, eq, write_bits,
    enforce_hash_constant_length, enforce_signature_verdict, pk_x, uint64_to_bits_le, from_bits,
    conditionally_add_constant,
  }

  abbrev Circuit : Type 0
  Circuit = NaiveTresholdSignature P

  abbrev System : Type 0
  System = ConstraintSystem P

  -- The lowest `log_max_pks + 1` bits of `b`, the highest first; a slice that would begin below
  -- the first bit panics.
  unfoldable pub b_bool : FieldElement → ℕ → Call (List (Option Bool))
  b_bool b max_pks =
      let needed = log_max_pks max_pks + 1 in
      if leb needed size_in_bits
      then ok (map some (drop (size_in_bits - needed) (write_bits b)))
      else panic (str "attempt to subtract with overflow")

  -- `NaiveTresholdSignature::new`
  unfoldable pub new :
      List G2Projective
      → List (Option SchnorrSig)
      → (threshold b sc_id epoch_number end_cumulative_sc_tx_comm_tree_root mr_bt : FieldElement)
      → (ft_min_amount btr_fee max_pks : ℕ) → Call Circuit
  unfolding b_bool
  new pks sigs threshold b sc_id epoch_number root mr_bt ft_min_amount btr_fee max_pks = do
    bits ← b_bool b max_pks
    ok (record {
      pks = map some pks;
      sigs = sigs;
      threshold = some threshold;
      b = bits;
      sc_id = some sc_id;
      epoch_number = some epoch_number;
      end_cumulative_sc_tx_comm_tree_root = some root;
      mr_bt = some mr_bt;
      ft_min_amount = some ft_min_amount;
      btr_fee = some btr_fee;
      max_pks = max_pks;
    })

  -- `get_instance_for_setup`
  unfoldable pub get_instance_for_setup : ℕ → Circuit
  get_instance_for_setup max_pks = record {
    pks = replicate max_pks none;
    sigs = replicate max_pks none;
    threshold = none;
    b = replicate (log_max_pks max_pks + 1) none;
    sc_id = none;
    epoch_number = none;
    end_cumulative_sc_tx_comm_tree_root = none;
    mr_bt = none;
    ft_min_amount = none;
    btr_fee = none;
    max_pks = max_pks;
  }

  -- Both fees in one element, `btr_fee` above `ft_min_amount`.
  unfoldable pub pack_fees : ℕ → ℕ → Call FieldElement
  pack_fees btr_fee ft_min_amount =
      from_bits (reverse (uint64_to_bits_le btr_fee) ++ reverse (uint64_to_bits_le ft_min_amount))

  -- The verdict on each signature, in the order of the keys.
  unfoldable pub verify_all : FieldElement → List G2Projective → List SchnorrSig → Call (List Bool)
  verify_all message [] sigs = ok []
  verify_all message (pk ∷ pks) [] = ok []
  verify_all message (pk ∷ pks) (sig ∷ sigs) = do
    v ← enforce_signature_verdict pk sig message
    rest ← verify_all message pks sigs
    ok (v ∷ rest)

  -- One is added for each verdict that holds.
  unfoldable pub count_valid : FieldElement → List Bool → FieldElement
  count_valid acc [] = acc
  count_valid acc (v ∷ vs) = count_valid (conditionally_add_constant acc v (from 1)) vs

  alloc_input : FieldElement → System → System
  alloc_input v cs = record cs { inputs = cs.inputs ++ v ∷ [] }

  enforce_equal : FieldElement → FieldElement → System → System
  enforce_equal x y cs = record cs { satisfied = cs.satisfied && eq x y }

  -- `generate_constraints`, where the closures that give the values are called.
  unfoldable pub generate_constraints : Circuit → System → Call System
  unfolding alloc_input enforce_equal
  generate_constraints c cs = do
    assert (c.max_pks == length c.pks)
    assert (c.max_pks == length c.sigs)
    assert (log_max_pks c.max_pks + 1 == length c.b)
    pks_g ← alloc_all c.pks
    pks_hash_g ← enforce_hash_constant_length (map pk_x pks_g)
    t_g ← ok_or c.threshold assignment_missing
    pks_threshold_hash_g ← enforce_hash_constant_length (pks_hash_g ∷ t_g ∷ [])
    sc_id_g ← ok_or c.sc_id assignment_missing
    epoch_number_g ← ok_or c.epoch_number assignment_missing
    mr_bt_g ← ok_or c.mr_bt assignment_missing
    root_g ← ok_or c.end_cumulative_sc_tx_comm_tree_root assignment_missing
    btr_fee_g ← ok_or c.btr_fee assignment_missing
    ft_min_amount_g ← ok_or c.ft_min_amount assignment_missing
    fees_g ← pack_fees btr_fee_g ft_min_amount_g
    message_g ←
        enforce_hash_constant_length (sc_id_g ∷ epoch_number_g ∷ mr_bt_g ∷ root_g ∷ fees_g ∷ [])
    sigs_g ← alloc_all c.sigs
    verdicts ← verify_all message_g pks_g sigs_g
    let valid_signatures = count_valid (from 0) verdicts
    wcert_sysdata_hash_g ←
        enforce_hash_constant_length
          (sc_id_g ∷ epoch_number_g ∷ mr_bt_g ∷ valid_signatures ∷ root_g ∷ fees_g ∷ [])
    cert_data_hash_g ← enforce_hash_constant_length (wcert_sysdata_hash_g ∷ [])
    let cs = alloc_input pks_threshold_hash_g cs
    let cs = enforce_equal pks_threshold_hash_g pks_threshold_hash_g cs
    let cs = alloc_input cert_data_hash_g cs
    let cs = enforce_equal cert_data_hash_g cert_data_hash_g cs
    bs_g ← alloc_all c.b
    b_field ← from_bits bs_g
    ok (enforce_equal (sub valid_signatures t_g) b_field cs)
