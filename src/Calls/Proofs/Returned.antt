-- ===== src/Calls/Proofs/Returned.antt =====
-- What a result of `create_naive_threshold_sig_proof` and `verify_naive_threshold_sig_proof`, of
-- api/src/cctp_calls.rs, stands for.
use zendoo_sc_cryptolib.Prelude.{
  ℕ, ◌≡◌, refl, ap, sym, ◌∙◌, Bool, true, false, Option, none, some, List, String, if◌then◌else◌,
}
use zendoo_sc_cryptolib.Prelude.Call.{Call, ok, err, invert, ok-injective, proving_system_mismatch}
use zendoo_sc_cryptolib.Primitives.{Primitives, BackwardTransfer}
use zendoo_sc_cryptolib.Threshold.{NaiveTresholdSignature}
use zendoo_sc_cryptolib.Calls.{create_circuit, bt_list_opt}
use zendoo_sc_cryptolib.Calls.Backend.{
  ProvingSystem, undefined, darlin, coboundary_marlin, ZendooKey, darlin_key, coboundary_marlin_key,
  Backend, CertificateProofUserInputs,
}
use zendoo_sc_cryptolib.Calls.Proofs.{
  unwrap, unwrap-ok, same_system, first_byte, prove_with, create_naive_threshold_sig_proof,
  verify_naive_threshold_sig_proof,
}

same_system-eq : (a b : ProvingSystem) → same_system a b ≡ true → a ≡ b
same_system-eq undefined undefined h = refl
same_system-eq darlin darlin h = refl
same_system-eq coboundary_marlin coboundary_marlin h = refl
same_system-eq undefined darlin h = cc
same_system-eq undefined coboundary_marlin h = cc
same_system-eq darlin undefined h = cc
same_system-eq darlin coboundary_marlin h = cc
same_system-eq coboundary_marlin undefined h = cc
same_system-eq coboundary_marlin darlin h = cc

-- A guarded call that succeeds has its guard, and is the call.
invert_if {ℓ κ} :
    {A : Type ℓ} {C : Type κ} (b : Bool) (m : Call A) {a : A}
    → (if b then m else err proving_system_mismatch) ≡ ok a
    → (b ≡ true → m ≡ ok a → C)
    → C
invert_if true m h k = k refl h
invert_if false m h k = cc

module _ (P : Primitives) (B : Backend P) where
  -- The proof in a buffer was made by the prover, for the circuit, under the key in the file.
  pub data IsProofOf (c : NaiveTresholdSignature P) (path : String)
      (enforce_membership zk compressed_pk compress_proof : Bool) (rng : ℕ) (buffer : List ℕ)
      : Type 0 where
    proof_of :
        (pk : B.ProverKey) (ck : B.CommitterKey) (proof : B.Proof)
        → B.read_prover_key path (some enforce_membership) (some compressed_pk)
          ≡ ok (coboundary_marlin_key pk)
        → B.get_g1_committer_key ≡ ok (some ck)
        → B.prove pk ck c zk (if zk then some rng else none) ≡ ok proof
        → B.serialize_proof proof (some compress_proof) ≡ ok buffer
        → IsProofOf c path enforce_membership zk compressed_pk compress_proof rng buffer

  prove_with-IsProofOf :
      (key : ZendooKey B.ProverKey) (g1_ck : Option B.CommitterKey) (c : NaiveTresholdSignature P)
      (path : String) (enforce_membership zk compressed_pk compress_proof : Bool) (rng : ℕ)
      (buffer : List ℕ)
      → B.read_prover_key path (some enforce_membership) (some compressed_pk) ≡ ok key
      → B.get_g1_committer_key ≡ ok g1_ck
      → prove_with P B key g1_ck c zk compress_proof rng ≡ ok buffer
      → IsProofOf c path enforce_membership zk compressed_pk compress_proof rng buffer
  unfolding prove_with
  prove_with-IsProofOf darlin_key g c path em zk cpk cp rng buffer hk hg h = cc
  prove_with-IsProofOf (coboundary_marlin_key pk) g c path em zk cpk cp rng buffer hk hg h =
      invert (unwrap g) _ h λ ck hc h1.
        invert (B.prove pk ck c zk (if zk then some rng else none)) _ h1
          λ proof hp hs. proof_of pk ck proof hk (hg ∙ ap ok (unwrap-ok g ck hc)) hp hs

  -- A proof that the call returns was made by the prover for the circuit that `create_circuit` builds
  -- from the same arguments, under the key in the file, and the quality returned with it is the number
  -- of valid signatures counted for that circuit.
  pub create_naive_threshold_sig_proof-IsProofOf :
      (oc : Bool) (pks : List P.G2) (sigs : List (Option P.SchnorrSig)) (sc_id : P.FieldElement)
      (epoch : ℕ) (root : P.FieldElement) (btr ft : ℕ) (bts : List BackwardTransfer) (t : ℕ)
      (path : String) (enforce_membership zk compressed_pk compress_proof : Bool) (rng : ℕ)
      (buffer : List ℕ) (quality : ℕ)
      → create_naive_threshold_sig_proof P B oc pks sigs sc_id epoch root btr ft bts t path
          enforce_membership zk compressed_pk compress_proof rng
        ≡ ok (buffer, quality)
      → (c : NaiveTresholdSignature P) × (create_circuit P oc pks sigs sc_id epoch root btr ft bts t
          ≡ ok (c, quality))
        × IsProofOf c path enforce_membership zk compressed_pk compress_proof rng buffer
  unfolding create_naive_threshold_sig_proof
  create_naive_threshold_sig_proof-IsProofOf oc pks sigs sc_id epoch root btr ft bts t path em zk
        cpk cp rng buffer quality h =
      invert (create_circuit P oc pks sigs sc_id epoch root btr ft bts t) _ h λ r hc h1.
        invert (B.read_prover_key path (some em) (some cpk)) _ h1 λ key hk h2.
          invert B.get_g1_committer_key _ h2 λ g hg h3.
            invert (prove_with P B key g r.0 zk cp rng) _ h3 λ proof hp h4.
              let same = ok-injective h4 in
              let bytes : proof ≡ buffer = ap (λ (q : _). q.0) same in
              let number : r.1 ≡ quality = ap (λ (q : _). q.1) same in
              (
                r.0,
                hc ∙ ap (λ (n : ℕ). ok (r.0, n)) number,
                prove_with-IsProofOf key g r.0 path em zk cpk cp rng buffer hk hg
                    (hp ∙ ap ok bytes),
              )

  -- The inputs that the verifier is asked about, and its answer.
  pub data IsVerified (ins : CertificateProofUserInputs P.FieldElement) (buffer : List ℕ)
      (check_proof compressed_proof : Bool) (vk_path : String) (check_vk compressed_vk : Bool)
      (rng : ℕ) : Type 0 where
    verified :
        (system : ProvingSystem) (tag : List ℕ) (vk : B.VerifierKey) (proof : B.Proof)
        → B.read_proving_system vk_path ≡ ok system
        → first_byte buffer ≡ ok tag
        → B.deserialize_proving_system tag ≡ ok system
        → B.read_verifier_key vk_path (some check_vk) (some compressed_vk) ≡ ok vk
        → B.deserialize_proof buffer (some check_proof) (some compressed_proof) ≡ ok proof
        → B.verify_zendoo_proof ins proof vk rng ≡ ok true
        → IsVerified ins buffer check_proof compressed_proof vk_path check_vk compressed_vk rng

  -- The call accepts a proof only if the key in the file and the proof name the same proving system,
  -- both can be read, and the verifier accepts the proof for the certificate's data, with the given
  -- number of signatures as its quality, and the given constant.
  pub verify_naive_threshold_sig_proof-IsVerified :
      (constant sc_id : P.FieldElement) (epoch : ℕ) (root : P.FieldElement) (btr ft : ℕ)
      (bts : List BackwardTransfer) (valid_sigs : ℕ) (buffer : List ℕ)
      (check_proof compressed_proof : Bool) (vk_path : String) (check_vk compressed_vk : Bool)
      (rng : ℕ)
      → verify_naive_threshold_sig_proof P B constant sc_id epoch root btr ft bts valid_sigs buffer
          check_proof compressed_proof vk_path check_vk compressed_vk rng
        ≡ ok true
      → IsVerified
          (record {
            constant = some constant;
            sc_id = sc_id;
            epoch_number = epoch;
            quality = valid_sigs;
            bt_list = bt_list_opt P bts;
            custom_fields = none;
            end_cumulative_sc_tx_commitment_tree_root = root;
            btr_fee = btr;
            ft_min_amount = ft;
          })
          buffer
          check_proof
          compressed_proof
          vk_path
          check_vk
          compressed_vk
          rng
  unfolding verify_naive_threshold_sig_proof
  verify_naive_threshold_sig_proof-IsVerified constant sc_id epoch root btr ft bts n buffer chk cmp
        path chk_vk cmp_vk rng h =
      invert (B.read_proving_system path) _ h λ sys hs h1.
        invert (first_byte buffer) _ h1 λ tag ht h2.
          invert (B.deserialize_proving_system tag) _ h2 λ sys' hs' h3.
            invert_if (same_system sys sys') _ h3 λ same h4.
              invert (B.read_verifier_key path (some chk_vk) (some cmp_vk)) _ h4 λ vk hv h5.
                invert (B.deserialize_proof buffer (some chk) (some cmp)) _ h5 λ proof hp h6.
                  verified sys tag vk proof hs ht (hs' ∙ ap ok (sym (same_system-eq sys sys' same)))
                    hv hp h6
