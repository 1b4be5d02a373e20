-- ===== src/Calls/Certificate/Accepted.antt =====
-- An honest certificate is accepted: create_naive_threshold_sig_proof and
-- verify_naive_threshold_sig_proof of api/src/cctp_calls.rs, one after the other.
use zendoo_sc_cryptolib.Prelude.{
  ℕ, ◌^◌, ◌≤◌, ◌<◌, ◌≡◌, refl, sym, ap, ◌∙◌, Bool, true, Option, none, some, List, [], ◌∷◌, String,
  length,
}
use zendoo_sc_cryptolib.Prelude.Call.{ok, ok-injective, run-ok}
use zendoo_sc_cryptolib.Primitives.{Primitives, BackwardTransfer}
use zendoo_sc_cryptolib.Primitives.Laws.{FieldLaws, GadgetLaws}
use zendoo_sc_cryptolib.Threshold.{NaiveTresholdSignature}
use zendoo_sc_cryptolib.Calls.{compute_msg_to_sign, compute_pks_threshold_hash, bt_list_opt}
use zendoo_sc_cryptolib.Calls.Backend.{Backend, CertificateProofUserInputs, coboundary_marlin}
use zendoo_sc_cryptolib.Calls.Certificate.{IsWitness, ProofLaws}
use zendoo_sc_cryptolib.Calls.Inputs.{CallLaws, SatisfiedAt}
use zendoo_sc_cryptolib.Calls.Completeness.{create_circuit-satisfied}
use zendoo_sc_cryptolib.Calls.Insufficient.{new_shape}
use zendoo_sc_cryptolib.Calls.Proofs.{
  first_byte, create_naive_threshold_sig_proof, verify_naive_threshold_sig_proof,
}
use zendoo_sc_cryptolib.Calls.Proofs.Returned.{proof_of, create_naive_threshold_sig_proof-IsProofOf}
use zendoo_sc_cryptolib.Calls.Tally.{NullRejected, create_circuit-IsBuilt}

-- What the verifier is asked about.
abbrev pub user_inputs :
    (P : Primitives) (constant sc_id : P.FieldElement) (epoch_number : ℕ) (root : P.FieldElement)
    (btr_fee ft_min_amount : ℕ) (bt_list : List BackwardTransfer) (quality : ℕ)
    → CertificateProofUserInputs P.FieldElement
user_inputs P constant sc_id epoch_number root btr_fee ft_min_amount bt_list quality = record {
  constant = some constant;
  sc_id = sc_id;
  epoch_number = epoch_number;
  quality = quality;
  bt_list = bt_list_opt P bt_list;
  custom_fields = none;
  end_cumulative_sc_tx_commitment_tree_root = root;
  btr_fee = btr_fee;
  ft_min_amount = ft_min_amount;
}

module _ (P : Primitives) (B : Backend P) where
  -- A proof that is read back and accepted by the verifier is accepted by the call.
  verify-eq-true :
      (constant sc_id : P.FieldElement) (epoch : ℕ) (root : P.FieldElement) (btr ft : ℕ)
      (bts : List BackwardTransfer) (quality : ℕ) (buffer : List ℕ)
      (check_proof compressed_proof : Bool) (vk_path : String) (check_vk compressed_vk : Bool)
      (rng tag : ℕ) (rest : List ℕ) (vk : B.VerifierKey) (proof : B.Proof)
      → B.read_proving_system vk_path ≡ ok coboundary_marlin
      → B.read_verifier_key vk_path (some check_vk) (some compressed_vk) ≡ ok vk
      → buffer ≡ tag ∷ rest
      → B.deserialize_proving_system (tag ∷ []) ≡ ok coboundary_marlin
      → B.deserialize_proof buffer (some check_proof) (some compressed_proof) ≡ ok proof
      → B.verify_zendoo_proof
          (user_inputs P constant sc_id epoch root btr ft bts quality)
          proof
          vk
          rng
        ≡ ok true
      → verify_naive_threshold_sig_proof P B constant sc_id epoch root btr ft bts quality buffer
          check_proof compressed_proof vk_path check_vk compressed_vk rng
        ≡ ok true
  unfolding verify_naive_threshold_sig_proof first_byte
  verify-eq-true constant sc_id epoch root btr ft bts quality buffer chk cp path chk_vk cvk rng tag
        rest vk proof hs hv hb ht hp h =
      run-ok (B.read_proving_system path) _ hs (
        run-ok (first_byte buffer) _ (ap first_byte hb) (
          run-ok (B.deserialize_proving_system (tag ∷ [])) _ ht (
            run-ok (B.read_verifier_key path (some chk_vk) (some cvk)) _ hv
              (run-ok (B.deserialize_proof buffer (some chk) (some cp)) _ hp h))))

module _ (P : Primitives) (L : FieldLaws P) (G : GadgetLaws P L) (K : CallLaws P L) where
  -- The circuit of an honest prover is a witness of the certificate with its quality.
  pub SatisfiedAt-IsWitness :
      (pks : List P.G2) (sc_id : P.FieldElement) (epoch : ℕ) (root : P.FieldElement) (btr ft : ℕ)
      (bts : List BackwardTransfer) (t : ℕ) (constant : P.FieldElement)
      (c : NaiveTresholdSignature P) (n : ℕ)
      → c.max_pks ≡ length pks
      → compute_pks_threshold_hash P pks t ≡ ok constant
      → SatisfiedAt P pks sc_id epoch root btr ft bts t c n
      → IsWitness P (length pks) (user_inputs P constant sc_id epoch root btr ft bts n) c
  SatisfiedAt-IsWitness pks sc_id epoch root btr ft bts t constant c n keys hc sat = record {
    cs = sat.cs;
    keys = keys;
    runs = sat.runs;
    satisfied = sat.satisfied;
    inputs = record {
      constant = sat.constant;
      mr_bt = sat.mr_bt;
      fees = sat.fees;
      data_hash = sat.data_hash;
      no_custom_fields = refl;
      constant_lem = ap some (ok-injective (sym hc ∙ sat.constant_lem));
      mr_bt_lem = sat.mr_bt_lem;
      fees_lem = sat.fees_lem;
      data_hash_lem = sat.data_hash_lem;
      inputs_lem = sat.inputs;
    };
  }

  -- A proof that `create_naive_threshold_sig_proof` returns, with a quality that is not below the
  -- threshold, is accepted by `verify_naive_threshold_sig_proof` for the same certificate, that
  -- quality and the constant of the keys and the threshold: if there is at least one key and at most
  -- 2 ^ 63, the fees are words of 64 bits, the keys reject the null signature on the message, the
  -- proof is read with the compression that it was written with, and the files hold keys of one setup
  -- for that number of keys, of an argument system that is complete and reads back what it writes.
  pub verify-create :
      (B : Backend P) (pk_path vk_path : String) (oc : Bool) (pks : List P.G2)
      (sigs : List (Option P.SchnorrSig)) (sc_id : P.FieldElement) (epoch : ℕ)
      (root : P.FieldElement) (btr ft : ℕ) (bts : List BackwardTransfer) (t : ℕ)
      (enforce_membership zk compressed_pk compress_proof : Bool) (draw : ℕ) (buffer : List ℕ)
      (quality : ℕ) (constant : P.FieldElement) (check_proof check_vk compressed_vk : Bool)
      (rng : ℕ) (vk : B.VerifierKey)
      → ProofLaws P B (length pks) pk_path vk_path
      → B.read_proving_system vk_path ≡ ok coboundary_marlin
      → B.read_verifier_key vk_path (some check_vk) (some compressed_vk) ≡ ok vk
      → 0 < length pks
      → length pks ≤ 2 ^ 63
      → btr < 2 ^ 64
      → ft < 2 ^ 64
      → ((r : P.FieldElement × P.FieldElement)
          → compute_msg_to_sign P sc_id epoch root btr ft bts ≡ ok r
          → NullRejected P r.1 pks)
      → compute_pks_threshold_hash P pks t ≡ ok constant
      → create_naive_threshold_sig_proof P B oc pks sigs sc_id epoch root btr ft bts t pk_path
          enforce_membership zk compressed_pk compress_proof draw
        ≡ ok (buffer, quality)
      → t ≤ quality
      → verify_naive_threshold_sig_proof P B constant sc_id epoch root btr ft bts quality buffer
          check_proof compress_proof vk_path check_vk compressed_vk rng
        ≡ ok true
  verify-create B pk_path vk_path oc pks sigs sc_id epoch root btr ft bts t em zk cpk cp draw buffer
        quality constant chk chk_vk cvk rng vk laws hs hv some_key small hb hf null hc made enough =
      let (c, run, made_by) =
        create_naive_threshold_sig_proof-IsProofOf P B oc pks sigs sc_id epoch root btr ft bts t
          pk_path em zk cpk cp draw buffer quality made in
      let sat =
        create_circuit-satisfied P L G K oc pks sigs sc_id epoch root btr ft bts t some_key small hb
          hf enough null run in
      let shape =
        new_shape P L G K (create_circuit-IsBuilt P oc pks sigs sc_id epoch root btr ft bts t run)
          small in
      let witness =
        SatisfiedAt-IsWitness pks sc_id epoch root btr ft bts t constant c quality shape.1 hc sat in
      elim made_by [
        | proof_of pk ck proof hk hg hp written ↦
            let (tag, rest, first, system, back) = laws.read_back proof chk cp buffer written in
            verify-eq-true P B constant sc_id epoch root btr ft bts quality buffer chk cp vk_path
              chk_vk cvk rng tag rest vk proof hs hv first system back
              (laws.complete (user_inputs P constant sc_id epoch root btr ft bts quality) c em cpk
                chk_vk cvk zk _ rng pk ck vk proof hk hg hv hp witness)
      ]
