-- ===== src/Setup/Files.antt =====
-- What `generate_circuit_keypair` of demo-circuit/src/lib.rs leaves on disk.
use zendoo_sc_cryptolib.Prelude.{
  ℕ, Bool, ◌≤◌, ◌≡◌, ◌≢◌, refl, sym, ap, ◌∙◌, Option, some, String, arith,
}
use zendoo_sc_cryptolib.Prelude.Call.{Call, ok, err, panic, Error, Payload}
use zendoo_sc_cryptolib.Prelude.Log.{next_power_of_two}
use zendoo_sc_cryptolib.Primitives.{Primitives}
use zendoo_sc_cryptolib.Threshold.{NaiveTresholdSignature}
use zendoo_sc_cryptolib.Calls.Backend.{ProvingSystem, undefined, darlin, coboundary_marlin, Backend}
use zendoo_sc_cryptolib.Calls.Proofs.{unwrap, unwrap-ok}
use zendoo_sc_cryptolib.Setup.{
  continue, Disk, check_sizes, select, setup_coboundary_marlin, generate_circuit_keypair,
}

-- A chain of calls that starts with one that writes nothing, taken apart: that call fails and the disk
-- is as it was, or the chain goes on with its value.
cases_reading {ℓ κ} :
    {Files : Type 0} {A : Type ℓ} {C : Type κ} (m : Call A) (f : A → Disk Files (Unit {0}))
    (e : Files) {r : Call (Unit {0})} {d : Files}
    → continue (m, e) f ≡ (r, d)
    → (r ≢ ok tt → d ≡ e → C)
    → ((a : A) → m ≡ ok a → f a e ≡ (r, d) → C)
    → C
cases_reading (ok a) f e h stop k = k a refl h
cases_reading (err x) f e {r} {d} h stop k = stop (fails (ap (λ q. q.0) h)) (ap (λ q. q.1) (sym h))
  where
    fails : {u : Call (Unit {0})} {y : Error} → err y ≡ u → u ≢ ok tt
    fails h e = cc
cases_reading (panic p) f e {r} {d} h stop k =
    stop (fails (ap (λ q. q.0) h)) (ap (λ q. q.1) (sym h))
  where
    fails : {u : Call (Unit {0})} {y : Payload} → panic y ≡ u → u ≢ ok tt
    fails h e = cc

module _ (P : Primitives) (B : Backend P) where
  check_sizes-ok :
      (proof_size vk_size max_proof_size max_vk_size : ℕ) (u : Unit {0})
      → check_sizes P B proof_size vk_size max_proof_size max_vk_size ≡ ok u
      → (proof_size ≤ max_proof_size) × (vk_size ≤ max_vk_size)
  unfolding check_sizes
  check_sizes-ok p v mp mv u h = ground arith

  -- What a finished setup has done: the circuit's index is known, the sizes of the proof and of the
  -- verifier key for the padded committer key are within the bounds, and the two keys that the setup
  -- gives for that committer key and index are on disk, the prover key written first.
  pub data IsSetUp (circ : NaiveTresholdSignature P) (pk_path vk_path : String)
      (max_proof_size max_vk_size : ℕ) (zk : Bool) (compress_pk compress_vk : Option Bool)
      (d d' : B.Files) : Type 0 where
    set_up :
        (ck : B.CommitterKey) (index : B.IndexInfo) (pk : B.ProverKey) (vk : B.VerifierKey)
        (e : B.Files)
        → B.get_g1_committer_key ≡ ok (some ck)
        → B.get_index_info circ ≡ ok index
        → (B.compute_proof_vk_size
            (next_power_of_two (B.key_length ck))
            index
            zk
            coboundary_marlin).0
          ≤ max_proof_size
        → (B.compute_proof_vk_size
            (next_power_of_two (B.key_length ck))
            index
            zk
            coboundary_marlin).1
          ≤ max_vk_size
        → B.circuit_specific_setup ck index ≡ ok (pk, vk)
        → B.write_prover_key pk pk_path compress_pk d ≡ (ok tt, e)
        → B.write_verifier_key vk vk_path compress_vk e ≡ (ok tt, d')
        → IsSetUp circ pk_path vk_path max_proof_size max_vk_size zk compress_pk compress_vk d d'

  -- The two writes, one after the other: the second is done if the first succeeds.
  pub data IsWritten (pk : B.ProverKey) (vk : B.VerifierKey) (pk_path vk_path : String)
      (compress_pk compress_vk : Option Bool) (d d' : B.Files) (r : Call (Unit {0})) : Type 0 where
    both :
        (e : B.Files)
        → B.write_prover_key pk pk_path compress_pk d ≡ (ok tt, e)
        → B.write_verifier_key vk vk_path compress_vk e ≡ (r, d')
        → IsWritten pk vk pk_path vk_path compress_pk compress_vk d d' r
    first :
        r ≢ ok tt
        → B.write_prover_key pk pk_path compress_pk d ≡ (r, d')
        → IsWritten pk vk pk_path vk_path compress_pk compress_vk d d' r

  -- How the generator ends: with a failure before anything is written, or with the writes of the keys
  -- of a setup for Coboundary Marlin whose sizes are within the bounds.
  pub data IsRun (circ : NaiveTresholdSignature P) (system : ProvingSystem)
      (pk_path vk_path : String) (max_proof_size max_vk_size : ℕ) (zk : Bool)
      (compress_pk compress_vk : Option Bool) (d d' : B.Files) (r : Call (Unit {0})) : Type 0 where
    stopped :
        r ≢ ok tt
        → d' ≡ d
        → IsRun circ system pk_path vk_path max_proof_size max_vk_size zk compress_pk compress_vk d
            d' r
    went_on :
        (ck : B.CommitterKey) (index : B.IndexInfo) (pk : B.ProverKey) (vk : B.VerifierKey)
        → system ≡ coboundary_marlin
        → B.get_g1_committer_key ≡ ok (some ck)
        → B.get_index_info circ ≡ ok index
        → (B.compute_proof_vk_size
            (next_power_of_two (B.key_length ck))
            index
            zk
            coboundary_marlin).0
          ≤ max_proof_size
        → (B.compute_proof_vk_size
            (next_power_of_two (B.key_length ck))
            index
            zk
            coboundary_marlin).1
          ≤ max_vk_size
        → B.circuit_specific_setup ck index ≡ ok (pk, vk)
        → IsWritten pk vk pk_path vk_path compress_pk compress_vk d d' r
        → IsRun circ system pk_path vk_path max_proof_size max_vk_size zk compress_pk compress_vk d
            d' r

  writes-IsWritten :
      (pk : B.ProverKey) (vk : B.VerifierKey) (pk_path vk_path : String)
      (compress_pk compress_vk : Option Bool) (d d' : B.Files) (r : Call (Unit {0}))
      (w : Call (Unit {0}) × B.Files)
      → B.write_prover_key pk pk_path compress_pk d ≡ w
      → continue w (λ u. B.write_verifier_key vk vk_path compress_vk) ≡ (r, d')
      → IsWritten pk vk pk_path vk_path compress_pk compress_vk d d' r
  writes-IsWritten pk vk pp vp cp cv d d' r (ok u, e) h k = both e h k
  writes-IsWritten pk vk pp vp cp cv d d' r (err x, e) h k = first (λ q. cc (q, k)) (h ∙ k)
  writes-IsWritten pk vk pp vp cp cv d d' r (panic x, e) h k = first (λ q. cc (q, k)) (h ∙ k)

  setup_coboundary_marlin-IsRun :
      (g1_ck : Option B.CommitterKey) (circ : NaiveTresholdSignature P) (pk_path vk_path : String)
      (max_proof_size max_vk_size : ℕ) (zk : Bool) (compress_pk compress_vk : Option Bool)
      (d d' : B.Files) (r : Call (Unit {0}))
      → B.get_g1_committer_key ≡ ok g1_ck
      → setup_coboundary_marlin P B g1_ck circ pk_path vk_path max_proof_size max_vk_size zk
          compress_pk compress_vk d
        ≡ (r, d')
      → IsRun circ coboundary_marlin pk_path vk_path max_proof_size max_vk_size zk compress_pk
          compress_vk d d' r
  unfolding setup_coboundary_marlin
  setup_coboundary_marlin-IsRun g circ pp vp mp mv zk cp cv d d' r hg h =
      cases_reading (B.get_index_info circ) _ d h stopped (λ index hi h1.
        cases_reading (unwrap g) _ d h1 stopped (λ ck hc h2.
          let sizes =
            B.compute_proof_vk_size (next_power_of_two (B.key_length ck)) index zk
              coboundary_marlin in
          cases_reading (check_sizes P B sizes.0 sizes.1 mp mv) _ d h2 stopped (λ u hs h3.
            cases_reading (B.circuit_specific_setup ck index) _ d h3 stopped (λ (pk, vk) hk h4.
              let (small, small') = check_sizes-ok sizes.0 sizes.1 mp mv u hs in
              went_on ck index pk vk refl (hg ∙ ap ok (unwrap-ok g ck hc)) hi small small' hk (
                writes-IsWritten pk vk pp vp cp cv d d' r (B.write_prover_key pk pp cp d) refl
                  h4)))))

  -- However the generator of the key pair ends: it either fails and has written nothing, or the proving
  -- system asked for is Coboundary Marlin, the sizes of the proof and of the verifier key for the padded
  -- committer key are within the bounds, and the keys of the setup are written, the prover key first and
  -- the verifier key if that succeeds, with the result of the last write. So nothing is written for sizes
  -- beyond the bounds, or for another proving system.
  pub generate_circuit_keypair-IsRun :
      (circ : NaiveTresholdSignature P) (system : ProvingSystem) (pk_path vk_path : String)
      (max_proof_size max_vk_size : ℕ) (zk : Bool) (compress_pk compress_vk : Option Bool)
      (d d' : B.Files) (r : Call (Unit {0}))
      → generate_circuit_keypair P B circ system pk_path vk_path max_proof_size max_vk_size zk
          compress_pk compress_vk d
        ≡ (r, d')
      → IsRun circ system pk_path vk_path max_proof_size max_vk_size zk compress_pk compress_vk d d'
          r
  unfolding generate_circuit_keypair select
  generate_circuit_keypair-IsRun circ undefined pp vp mp mv zk cp cv d d' r h =
      cases_reading B.get_g1_committer_key _ d h stopped
        (λ g hg h1. stopped (λ e. cc (e, h1)) (ap (λ q. q.1) (sym h1)))
  generate_circuit_keypair-IsRun circ darlin pp vp mp mv zk cp cv d d' r h =
      cases_reading B.get_g1_committer_key _ d h stopped
        (λ g hg h1. stopped (λ e. cc (e, h1)) (ap (λ q. q.1) (sym h1)))
  generate_circuit_keypair-IsRun circ coboundary_marlin pp vp mp mv zk cp cv d d' r h =
      cases_reading B.get_g1_committer_key _ d h stopped
        (λ g hg h1. setup_coboundary_marlin-IsRun g circ pp vp mp mv zk cp cv d d' r hg h1)

  -- Without an error, the proving system is Coboundary Marlin, and the setup has been done as above.
  pub generate_circuit_keypair-IsSetUp :
      (circ : NaiveTresholdSignature P) (system : ProvingSystem) (pk_path vk_path : String)
      (max_proof_size max_vk_size : ℕ) (zk : Bool) (compress_pk compress_vk : Option Bool)
      (d d' : B.Files)
      → generate_circuit_keypair P B circ system pk_path vk_path max_proof_size max_vk_size zk
          compress_pk compress_vk d
        ≡ (ok tt, d')
      → (system ≡ coboundary_marlin)
        × IsSetUp circ pk_path vk_path max_proof_size max_vk_size zk compress_pk compress_vk d d'
  generate_circuit_keypair-IsSetUp circ system pp vp mp mv zk cp cv d d' h =
      elim (generate_circuit_keypair-IsRun circ system pp vp mp mv zk cp cv d d' (ok tt) h) [
        | stopped n e ↦ absurd (n refl)
        | went_on ck index pk vk marlin hg hi small small' hk (first n e) ↦ absurd (n refl)
        | went_on ck index pk vk marlin hg hi small small' hk (both e hp hv) ↦
            (marlin, set_up ck index pk vk e hg hi small small' hk hp hv)
      ]
