-- ===== src/Calls/Certificate/Made.antt =====
-- An honest certificate gets a proof: `create_naive_threshold_sig_proof` of api/src/cctp_calls.rs
-- returns for enough signatures, where the libraries below it do.
use zendoo_sc_cryptolib.Prelude.{
  ℕ, suc, ◌+◌, ◌-◌, ◌^◌, ◌≤◌, ◌<◌, ◌==◌, ◌≡◌, refl, sym, subst, ap, ◌∙◌, Bool, true, false, Option,
  none, some, List, [], ◌∷◌, String, map, length, le→leb, eq→==, if◌then◌else◌, arith,
}
use zendoo_sc_cryptolib.Prelude.Call.{ok, assert, run-ok, ok-injective}
use zendoo_sc_cryptolib.Primitives.{Primitives, BackwardTransfer}
use zendoo_sc_cryptolib.Primitives.Laws.{FieldLaws, GadgetLaws}
use zendoo_sc_cryptolib.Threshold.{NaiveTresholdSignature, new}
use zendoo_sc_cryptolib.Calls.{
  schnorr_verify_signature, check_sigs, compute_msg_to_sign, compute_pks_threshold_hash, sub_u64,
  create_circuit,
}
use zendoo_sc_cryptolib.Calls.Backend.{Backend, CertificateProofUserInputs, coboundary_marlin_key}
use zendoo_sc_cryptolib.Calls.Certificate.{IsWitness}
use zendoo_sc_cryptolib.Calls.Certificate.Accepted.{user_inputs, SatisfiedAt-IsWitness}
use zendoo_sc_cryptolib.Calls.Completeness.{create_circuit-satisfied}
use zendoo_sc_cryptolib.Calls.Inputs.{CallLaws, new_lem}
use zendoo_sc_cryptolib.Calls.Insufficient.{new_shape}
use zendoo_sc_cryptolib.Calls.Proofs.{unwrap, prove_with, create_naive_threshold_sig_proof}
use zendoo_sc_cryptolib.Calls.Tally.{NullRejected, create_circuit-IsBuilt}

-- A place for each key, and the number of the signatures in them that the scheme accepts on a message.
pub data Counts (P : Primitives) (msg : P.FieldElement)
    : List P.G2 → List (Option P.SchnorrSig) → ℕ → Type 0 where
  no_more : Counts P msg [] [] 0
  absent :
      {pk : P.G2} {pks : List P.G2} {sigs : List (Option P.SchnorrSig)} {n : ℕ}
      → Counts P msg pks sigs n
      → Counts P msg (pk ∷ pks) (none ∷ sigs) n
  accepted :
      {pk : P.G2} {pks : List P.G2} {sig : P.SchnorrSig} {sigs : List (Option P.SchnorrSig)} {n : ℕ}
      → P.schnorr_verify (P.into_projective pk) msg sig ≡ ok true
      → Counts P msg pks sigs n
      → Counts P msg (pk ∷ pks) (some sig ∷ sigs) (1 + n)
  refused :
      {pk : P.G2} {pks : List P.G2} {sig : P.SchnorrSig} {sigs : List (Option P.SchnorrSig)} {n : ℕ}
      → P.schnorr_verify (P.into_projective pk) msg sig ≡ ok false
      → Counts P msg pks sigs n
      → Counts P msg (pk ∷ pks) (some sig ∷ sigs) n

-- A prover that is ready: its keys are there, it proves each circuit that is a witness of the inputs,
-- and a proof can be written.
pub record Prover (P : Primitives) (B : Backend P) (max_pks : ℕ)
    (ins : CertificateProofUserInputs P.FieldElement) (pk_path : String)
    (enforce_membership compressed_pk : Bool) : Type 0 where
  pub pk : B.ProverKey
  pub ck : B.CommitterKey
  pub pk_read :
      B.read_prover_key pk_path (some enforce_membership) (some compressed_pk)
      ≡ ok (coboundary_marlin_key pk)
  pub ck_read : B.get_g1_committer_key ≡ ok (some ck)
  pub proves :
      (c : NaiveTresholdSignature P) (zk : Bool) (draw : Option ℕ)
      → IsWitness P max_pks ins c
      → (proof : B.Proof) × (B.prove pk ck c zk draw ≡ ok proof)
  pub serializes :
      (proof : B.Proof) (compressed : Bool)
      → (bytes : List ℕ) × (B.serialize_proof proof (some compressed) ≡ ok bytes)

module _ (P : Primitives) where
  -- The loop of the proof call counts these signatures.
  check_sigs-Counts :
      (msg : P.FieldElement) {pks : List P.G2} {sigs : List (Option P.SchnorrSig)} {n : ℕ}
      → Counts P msg pks sigs n
      → (filled : List (Option P.SchnorrSig)) × (check_sigs P msg pks sigs ≡ ok (n, filled))
  unfolding check_sigs schnorr_verify_signature
  check_sigs-Counts msg no_more = ([], refl)
  check_sigs-Counts msg (absent s) =
      let (filled, e) = check_sigs-Counts msg s in (some P.null_sig ∷ filled, rw e refl)
  check_sigs-Counts msg (accepted {sig = sig} v s) =
      let (filled, e) = check_sigs-Counts msg s in (some sig ∷ filled, rw (v, e) refl)
  check_sigs-Counts msg (refused {sig = sig} {n = n} v s) =
      let (filled, e) = check_sigs-Counts msg s in
      (some sig ∷ filled, rw (v, e) (ap (λ (k : ℕ). ok (k, some sig ∷ filled)) (plus_zero n)))
    where
      plus_zero : (k : ℕ) → 0 + k ≡ k
      plus_zero k = omega arith

  pub length-Counts :
      (msg : P.FieldElement) {pks : List P.G2} {sigs : List (Option P.SchnorrSig)} {n : ℕ}
      → Counts P msg pks sigs n
      → (length sigs ≡ length pks) × (n ≤ length pks)
  length-Counts msg no_more = (refl, omega arith)
  length-Counts msg (absent s) = let (e, l) = length-Counts msg s in (ap suc e, omega (arith, l))
  length-Counts msg (accepted v s) =
      let (e, l) = length-Counts msg s in (ap suc e, omega (arith, l))
  length-Counts msg (refused v s) = let (e, l) = length-Counts msg s in (ap suc e, omega (arith, l))

  sub_u64-enough : (oc : Bool) (n t : ℕ) → t ≤ n → sub_u64 P oc n t ≡ ok (n - t)
  unfolding sub_u64
  sub_u64-enough oc n t h = rw (le→leb t n h) refl

module _ (P : Primitives) (L : FieldLaws P) (oc : Bool) (pks : List P.G2)
    (sigs : List (Option P.SchnorrSig)) (sc_id : P.FieldElement) (epoch : ℕ) (root : P.FieldElement)
    (btr ft : ℕ) (bts : List BackwardTransfer) (t : ℕ) (mr_bt msg : P.FieldElement) (n : ℕ) where
  -- A circuit is built for enough signatures.
  create_circuit-Counts :
      length pks ≤ 2 ^ 63
      → compute_msg_to_sign P sc_id epoch root btr ft bts ≡ ok (mr_bt, msg)
      → Counts P msg pks sigs n
      → t ≤ n
      → (c : NaiveTresholdSignature P) × (create_circuit P oc pks sigs sc_id epoch root btr ft bts t
          ≡ ok (c, n))
  unfolding create_circuit
  create_circuit-Counts small signed counts enough =
      let (filled, counted) = check_sigs-Counts P msg counts in
      let (lengths, few) = length-Counts P msg counts in
      (
        _,
        run-ok (assert (length sigs == length pks)) _
            (ap assert (eq→== (length sigs) (length pks) lengths))
            (run-ok (compute_msg_to_sign P sc_id epoch root btr ft bts) _ signed (
              run-ok (check_sigs P msg pks sigs) _ counted (
                run-ok (sub_u64 P oc n t) _ (sub_u64-enough P oc n t enough) (
                  run-ok
                    (new P (map P.into_projective pks) filled (P.from t) (P.from (n - t)) sc_id
                      (P.from epoch) root mr_bt ft btr (length pks))
                    _
                    (new_lem P L (map P.into_projective pks) filled (P.from t) (P.from (n - t))
                      sc_id (P.from epoch) root mr_bt ft btr (length pks) small)
                    refl)))),
      )

  -- The call returns the bytes of a proof and the number of valid signatures, for a prover that is ready
  -- for the certificate with this number as its quality.
  pub create_naive_threshold_sig_proof-Counts :
      (G : GadgetLaws P L) (K : CallLaws P L) (B : Backend P) (pk_path : String)
      (enforce_membership zk compressed_pk compress : Bool) (rng : ℕ) (constant : P.FieldElement)
      → 0 < length pks
      → length pks ≤ 2 ^ 63
      → btr < 2 ^ 64
      → ft < 2 ^ 64
      → NullRejected P msg pks
      → compute_pks_threshold_hash P pks t ≡ ok constant
      → Prover P B
          (length pks)
          (user_inputs P constant sc_id epoch root btr ft bts n)
          pk_path
          enforce_membership
          compressed_pk
      → compute_msg_to_sign P sc_id epoch root btr ft bts ≡ ok (mr_bt, msg)
      → Counts P msg pks sigs n
      → t ≤ n
      → (proof : B.Proof) × (bytes : List ℕ) × (B.serialize_proof proof (some compress) ≡ ok bytes)
        × (create_naive_threshold_sig_proof P B oc pks sigs sc_id epoch root btr ft bts t pk_path
              enforce_membership zk compressed_pk compress rng
            ≡ ok (bytes, n))
  unfolding create_naive_threshold_sig_proof prove_with unwrap
  create_naive_threshold_sig_proof-Counts G K B pk_path em zk cpk cmp rng constant some_key small hb
        hf null hc prover signed counts enough =
      let (c, built) = create_circuit-Counts small signed counts enough in
      let rejected : (r : P.FieldElement × P.FieldElement)
          → compute_msg_to_sign P sc_id epoch root btr ft bts ≡ ok r
          → NullRejected P r.1 pks =
        λ r e.
          subst (λ (q : P.FieldElement × P.FieldElement). NullRejected P q.1 pks)
            (ok-injective (sym signed ∙ e)) null in
      let sat =
        create_circuit-satisfied P L G K oc pks sigs sc_id epoch root btr ft bts t some_key small hb
          hf enough rejected built in
      let shape =
        new_shape P L G K (create_circuit-IsBuilt P oc pks sigs sc_id epoch root btr ft bts t built)
          small in
      let witness =
        SatisfiedAt-IsWitness P L G K pks sc_id epoch root btr ft bts t constant c n shape.1 hc
          sat in
      let (proof, proved) = prover.proves c zk (if zk then some rng else none) witness in
      let (bytes, written) = prover.serializes proof cmp in
      (proof, bytes, written, rw (built, prover.pk_read, prover.ck_read, proved, written) refl)
