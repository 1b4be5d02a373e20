-- ===== src/Calls.antt =====
-- api/src/cctp_calls.rs: the calls behind the Java interface. The proving system behind them is a
-- parameter of its own, declared in the child Backend.
pub mod Backend
pub mod Certificate
pub mod Vrf
pub mod Inputs
pub mod Difference
pub mod Completeness
pub mod Insufficient
pub mod Proofs
pub mod Tally
use zendoo_sc_cryptolib.Prelude.{
  ℕ, ◌+◌, ◌-◌, ◌^◌, Bool, true, false, not, Option, none, some, List, [], ◌∷◌, map, length, leb,
  is_empty, ◌==◌, if◌then◌else◌,
}
use zendoo_sc_cryptolib.Prelude.Call.{
  Call, ok, err, panic, str, ◌>>=◌, ◌>>◌, assert, proving_system_mismatch,
}
use zendoo_sc_cryptolib.Prelude.Bits.{bit}
use zendoo_sc_cryptolib.Primitives.{Primitives, BackwardTransfer}
use zendoo_sc_cryptolib.Primitives.Laws.{absorb}
use zendoo_sc_cryptolib.Threshold.{NaiveTresholdSignature, new}

module _ (P : Primitives) where
  open P use {
    FieldElement, G2, G2Projective, ScalarFieldElement, SchnorrSig, VrfProof, into_projective,
    into_affine, from, affine_x, init_constant_length, update, finalize,
  }

  unfoldable pub get_random_field_element : ℕ → FieldElement
  get_random_field_element seed = P.rand_from_seed seed

  unfoldable pub schnorr_generate_key : (rng : ℕ) → G2 × ScalarFieldElement
  schnorr_generate_key rng = let (pk, sk) = P.schnorr_keygen rng in (into_affine pk, sk)

  unfoldable pub schnorr_get_public_key : ScalarFieldElement → G2
  schnorr_get_public_key sk = into_affine (P.schnorr_get_public_key sk)

  unfoldable pub schnorr_verify_public_key : G2 → Bool
  schnorr_verify_public_key pk = P.schnorr_keyverify (into_projective pk)

  unfoldable pub schnorr_sign :
      (rng : ℕ) (msg : FieldElement) (sk : ScalarFieldElement) (pk : G2) → Call SchnorrSig
  schnorr_sign rng msg sk pk = P.schnorr_sign rng (into_projective pk) sk msg

  unfoldable pub schnorr_verify_signature :
      (msg : FieldElement) (pk : G2) (signature : SchnorrSig) → Call Bool
  schnorr_verify_signature msg pk signature = P.schnorr_verify (into_projective pk) msg signature

  -- H(H(pks), threshold)
  unfoldable pub compute_pks_threshold_hash : List G2 → (threshold : ℕ) → Call FieldElement
  compute_pks_threshold_hash pks threshold = do
    let h = init_constant_length (length pks) none
    pks_hash ← finalize (absorb P h (map affine_x pks))
    finalize (absorb P (init_constant_length 2 none) (pks_hash ∷ from threshold ∷ []))

  -- `if !bt_list.is_empty() { Some(..) } else { None }`
  abbrev pub bt_list_opt : List BackwardTransfer → Option (List BackwardTransfer)
  bt_list_opt bt_list = if not (is_empty bt_list) then some bt_list else none

  -- `fes[0]`, after the assertion that there is one element.
  unfoldable pub only_element : List FieldElement → Call FieldElement
  only_element [] = panic (str "assertion failed")
  only_element (fe ∷ []) = ok fe
  only_element (fe ∷ fe' ∷ rest) = panic (str "assertion failed")

  unfoldable pub compute_msg_to_sign :
      (sc_id : FieldElement) (epoch_number : ℕ) (end_cumulative_sc_tx_comm_tree_root : FieldElement)
      (btr_fee ft_min_amount : ℕ) (bt_list : List BackwardTransfer)
      → Call (FieldElement × FieldElement)
  unfolding only_element
  compute_msg_to_sign sc_id epoch_number root btr_fee ft_min_amount bt_list = do
    mr_bt ← P.get_bt_merkle_root (bt_list_opt bt_list)
    fes ← P.accumulate (btr_fee ∷ ft_min_amount ∷ [])
    fees ← only_element fes
    msg ← finalize (
        absorb P (init_constant_length 5 none)
          (sc_id ∷ from epoch_number ∷ mr_bt ∷ root ∷ fees ∷ []))
    ok (mr_bt, msg)

  -- The loop over the signatures: how many verify, and the signatures with the null one in the
  -- missing places. The lengths are equal by the assertion before it.
  unfoldable pub check_sigs :
      FieldElement → List G2 → List (Option SchnorrSig) → Call (ℕ × List (Option SchnorrSig))
  check_sigs msg [] sigs = ok (0, [])
  check_sigs msg (pk ∷ pks) [] = ok (0, [])
  check_sigs msg (pk ∷ pks) (some sig ∷ sigs) = do
    is_verified ← schnorr_verify_signature msg pk sig
    (valid, rest) ← check_sigs msg pks sigs
    ok (bit is_verified + valid, some sig ∷ rest)
  check_sigs msg (pk ∷ pks) (none ∷ sigs) = do
    (valid, rest) ← check_sigs msg pks sigs
    ok (valid, some P.null_sig ∷ rest)

  -- `valid_signatures - threshold` on `u64`: a panic where overflow checks are compiled in, and a
  -- wrap where they are not.
  unfoldable pub sub_u64 : (overflow_checks : Bool) → ℕ → ℕ → Call ℕ
  sub_u64 overflow_checks a b =
      if leb b a
      then ok (a - b)
      else (if overflow_checks
          then panic (str "attempt to subtract with overflow")
          else ok (a + 2 ^ 64 - b))

  -- The first part of `create_naive_threshold_sig_proof`, up to the circuit, with the number of
  -- valid signatures.
  unfoldable pub create_circuit :
      (overflow_checks : Bool) (pks : List G2) (sigs : List (Option SchnorrSig))
      (sc_id : FieldElement) (epoch_number : ℕ) (end_cumulative_sc_tx_comm_tree_root : FieldElement)
      (btr_fee ft_min_amount : ℕ) (bt_list : List BackwardTransfer) (threshold : ℕ)
      → Call (NaiveTresholdSignature P × ℕ)
  unfolding compute_msg_to_sign check_sigs sub_u64
  create_circuit overflow_checks pks sigs sc_id epoch_number root btr_fee ft_min_amount bt_list
        threshold =
      do
        let max_pks = length pks
        assert (length sigs == max_pks)
        (mr_bt, msg) ← compute_msg_to_sign sc_id epoch_number root btr_fee ft_min_amount bt_list
        (valid_signatures, sigs) ← check_sigs msg pks sigs
        b ← sub_u64 overflow_checks valid_signatures threshold
        c ←
            new P (map into_projective pks) sigs (from threshold) (from b) sc_id (from epoch_number)
              root mr_bt ft_min_amount btr_fee max_pks
        ok (c, valid_signatures)

  unfoldable pub vrf_generate_key : (rng : ℕ) → G2 × ScalarFieldElement
  vrf_generate_key rng = let (pk, sk) = P.vrf_keygen rng in (into_affine pk, sk)

  unfoldable pub vrf_get_public_key : ScalarFieldElement → G2
  vrf_get_public_key sk = into_affine (P.vrf_get_public_key sk)

  unfoldable pub vrf_verify_public_key : G2 → Bool
  vrf_verify_public_key pk = P.vrf_keyverify (into_projective pk)

  -- `to_field_elements().unwrap()`
  abbrev pub unwrap_coords : Option (List FieldElement) → Call (List FieldElement)
  unwrap_coords none = panic (str "called `Option::unwrap()` on a `None` value")
  unwrap_coords (some cs) = ok cs

  unfoldable pub vrf_prove :
      (rng : ℕ) (msg : FieldElement) (sk : ScalarFieldElement) (pk : G2)
      → Call (VrfProof × FieldElement)
  vrf_prove rng msg sk pk = do
    proof ← P.vrf_prove rng (into_projective pk) sk msg
    gamma_coords ← unwrap_coords (P.gamma_coords proof)
    output ← finalize (absorb P (update (init_constant_length 3 none) msg) gamma_coords)
    ok (proof, output)

  unfoldable pub vrf_proof_to_hash :
      (msg : FieldElement) (pk : G2) (proof : VrfProof) → Call FieldElement
  vrf_proof_to_hash msg pk proof = P.vrf_proof_to_hash (into_projective pk) msg proof
