-- ===== src/Jni/ProvingSystem/Finished.antt =====
-- What `JNI_TRUE` of NaiveThresholdSigProof.nativeSetup, in api/src/lib.rs, stands for: the arguments,
-- and the files that `generate_circuit_keypair` of demo-circuit/src/lib.rs leaves.
use zendoo_sc_cryptolib.Prelude.{ℕ, ◌==◌, ◌≡◌, refl, ap, ◌∙◌, arith, some, String}
use zendoo_sc_cryptolib.Prelude.Call.{Call, ok, err, panic}
use zendoo_sc_cryptolib.Prelude.Words.{ℤ, as_u64}
use zendoo_sc_cryptolib.Primitives.{Primitives}
use zendoo_sc_cryptolib.Threshold.{get_instance_for_setup}
use zendoo_sc_cryptolib.Calls.Backend.{Backend, ProvingSystem, coboundary_marlin}
use zendoo_sc_cryptolib.Setup.{generate_circuit_keypair}
use zendoo_sc_cryptolib.Setup.Files.{IsSetUp, generate_circuit_keypair-IsSetUp}
use zendoo_sc_cryptolib.Jni.{Handled, World, Exit, done, panicked, returned, Jvm, pure, on_call}
use zendoo_sc_cryptolib.Jni.Invert.{ffi_export-positive}
use zendoo_sc_cryptolib.Jni.ProvingSystem.{read_setup, run_setup, native_setup}

module _ (P : Primitives) (H : Handled P) (J : Jvm) (B : Backend P) where
  -- The arguments were read, and the setup for them and Coboundary Marlin is finished.
  pub data IsFinished (proving_system proving_key_path verification_key_path : J.JObject)
      (max_pks : ℤ) (zk : ℕ) (max_proof_size max_vk_size : ℤ) (compress_pk compress_vk : ℕ)
      (w w' : World P H) (d d' : B.Files) : Type 0 where
    finished_setup :
        (pk_path vk_path : String)
        → read_setup P H J B proving_system proving_key_path verification_key_path w
          ≡ (done (coboundary_marlin, pk_path, vk_path), w')
        → IsSetUp P B
            (get_instance_for_setup P (as_u64 max_pks))
            pk_path
            vk_path
            (as_u64 max_proof_size)
            (as_u64 max_vk_size)
            (zk == 1)
            (some (compress_pk == 1))
            (some (compress_vk == 1))
            d
            d'
        → IsFinished proving_system proving_key_path verification_key_path max_pks zk max_proof_size
            max_vk_size compress_pk compress_vk w w' d d'

  -- The answer to a setup is true only if it ended without an error.
  answered_true :
      (r : Call (Unit {0})) (v w : World P H)
      → ◌≡◌ {A = Exit ℕ × World P H} (on_call r (λ u. pure 1) (pure 0) v) (done 1, w)
      → (r ≡ ok tt) × (v ≡ w)
  answered_true (ok tt) v w h = (refl, ap (λ (q : Exit ℕ × World P H). q.1) h)
  answered_true (err e) v w h = cc
  answered_true (panic p) v w h = cc

  module _ (proving_system proving_key_path verification_key_path : J.JObject) (max_pks : ℤ)
      (zk : ℕ) (max_proof_size max_vk_size : ℤ) (compress_pk compress_vk : ℕ) (d : B.Files)
      (w w' : World P H) where
    run_setup-IsFinished :
        (r : Exit (ProvingSystem × String × String) × World P H)
        → read_setup P H J B proving_system proving_key_path verification_key_path w ≡ r
        → (run_setup P H J B max_pks zk max_proof_size max_vk_size compress_pk compress_vk r d).0
          ≡ (done 1, w')
        → IsFinished proving_system proving_key_path verification_key_path max_pks zk max_proof_size
            max_vk_size compress_pk compress_vk w w' d
            (run_setup P H J B max_pks zk max_proof_size max_vk_size compress_pk compress_vk r d).1
    unfolding run_setup
    run_setup-IsFinished (done (system, pk_path, vk_path), v) read h =
        let run =
          generate_circuit_keypair P B (get_instance_for_setup P (as_u64 max_pks)) system pk_path
            vk_path (as_u64 max_proof_size) (as_u64 max_vk_size) (zk == 1) (some (compress_pk == 1))
            (some (compress_vk == 1)) d in
        let (ran, same) = answered_true run.0 v w' h in
        let (marlin, set) =
          generate_circuit_keypair-IsSetUp P B (get_instance_for_setup P (as_u64 max_pks)) system
            pk_path vk_path (as_u64 max_proof_size) (as_u64 max_vk_size) (zk == 1)
            (some (compress_pk == 1)) (some (compress_vk == 1)) d run.1
            (ap (λ (q : Call (Unit {0})). (q, run.1)) ran) in
        finished_setup pk_path vk_path
          (read
            ∙ ap (λ (s : ProvingSystem). (done (s, pk_path, vk_path), v)) marlin
            ∙ ap (λ (x : World P H). (done (coboundary_marlin, pk_path, vk_path), x)) same)
          set
    run_setup-IsFinished (panicked p, v) read h = cc
    run_setup-IsFinished (Exit.undefined_behaviour, v) read h = cc

    -- `nativeSetup` returns `JNI_TRUE` only if the proving system and the paths were read, the system is
    -- Coboundary Marlin, and both keys of a setup for that number of keys, within the bounds, were
    -- written to these paths: an error, a panic and another system never look like a finished setup.
    pub native_setup-IsFinished :
        (native_setup P H J B proving_system max_pks proving_key_path verification_key_path zk
            max_proof_size max_vk_size compress_pk compress_vk d w).0
          ≡ (returned 1, w')
        → IsFinished proving_system proving_key_path verification_key_path max_pks zk max_proof_size
            max_vk_size compress_pk compress_vk w w' d
            (native_setup P H J B proving_system max_pks proving_key_path verification_key_path zk
              max_proof_size max_vk_size compress_pk compress_vk d w).1
    unfolding native_setup
    native_setup-IsFinished h =
        run_setup-IsFinished
          (read_setup P H J B proving_system proving_key_path verification_key_path w) refl
          (ffi_export-positive P H J _ w w' 1 (omega arith) h)
