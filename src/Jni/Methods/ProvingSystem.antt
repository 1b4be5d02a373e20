-- ===== src/Jni/Methods/ProvingSystem.antt =====
-- The exported functions of com.horizen.provingsystemnative in api/src/lib.rs, as the calls that Java
-- makes: what each leaves of the boxes.
use zendoo_sc_cryptolib.Prelude.{ℕ}
use zendoo_sc_cryptolib.Prelude.Words.{ℤ}
use zendoo_sc_cryptolib.Primitives.{Primitives}
use zendoo_sc_cryptolib.Calls.Backend.{Backend}
use zendoo_sc_cryptolib.Jni.{Handled, World, Exit, done, panicked, Exported, Jvm, pure}
use zendoo_sc_cryptolib.Jni.ProvingSystem
use zendoo_sc_cryptolib.Jni.Invariant.{Outcome, made, CallKeeps}
use zendoo_sc_cryptolib.Jni.Invariant.Export.{exported, made-CallKeeps}
use zendoo_sc_cryptolib.Jni.Invariant.Parts.{parts}
use zendoo_sc_cryptolib.Jni.Invariant.{Quiet, ExportKeeps}
use zendoo_sc_cryptolib.Jni.Invariant.Reads.{Same, pure-Quiet, on_call-Quiet}
use zendoo_sc_cryptolib.Jni.Invariant.Rules.{Same-IsNext}
use zendoo_sc_cryptolib.Jni.Invariant.Export.{ffi_export-IsNext}
use zendoo_sc_cryptolib.Prelude.{◌∙◌, String}
use zendoo_sc_cryptolib.Calls.Backend.{ProvingSystem as System}
use zendoo_sc_cryptolib.Jni.Defined.{IsDefined, Total, CallSafe}
use zendoo_sc_cryptolib.Jni.Defined.Rules.{pure-Total, on_call-Total}
use zendoo_sc_cryptolib.Jni.Defined.Packages.{packages}
use zendoo_sc_cryptolib.Jni.Defined.Calls.{call-IsDefined, made-CallSafe}

-- A call, with its arguments. `O` is the type of Java's objects.
pub data ProvingSystemCall (O Files : Type 0) : Type 0 where
  generate_dlog_keys :
      (proving_system : O) (max_segment_size supported_segment_size : ℤ) → ProvingSystemCall O Files
  check_proof_vk_size :
      (zk : ℕ) (supported_segment_size max_proof_size max_vk_size : ℤ) (verification_key_path : O)
      → ProvingSystemCall O Files
  setup :
      (proving_system : O) (max_pks : ℤ) (proving_key_path verification_key_path : O) (zk : ℕ)
      (max_proof_size max_vk_size : ℤ) (compress_pk compress_vk : ℕ) (d : Files)
      → ProvingSystemCall O Files
  get_prover_key_proving_system_type : (proving_key_path : O) → ProvingSystemCall O Files
  get_verifier_key_proving_system_type : (verifier_key_path : O) → ProvingSystemCall O Files
  get_proof_proving_system_type : (proof : O) → ProvingSystemCall O Files

module _ (P : Primitives) (H : Handled P) (J : Jvm) (B : Backend P) where
  run_setup-Same :
      (max_pks : ℤ) (zk : ℕ) (max_proof_size max_vk_size : ℤ) (compress_pk compress_vk : ℕ)
      (d : B.Files) (w : World P H) (r : Exit (System × String × String) × World P H)
      → Same w r.1
      → Same w
          (ProvingSystem.run_setup P H J B max_pks zk max_proof_size max_vk_size compress_pk
            compress_vk r d).0.1
  unfolding ProvingSystem.run_setup
  run_setup-Same max_pks zk max_proof_size max_vk_size compress_pk compress_vk d w
        (done (ps, pk, vk), v) h =
      let (heap, next) =
        (on_call-Quiet _ (λ u. pure 1) (pure 0) (λ u. pure-Quiet 1) (pure-Quiet 0)).at v in
      (heap ∙ h.0, next ∙ h.1)
  run_setup-Same max_pks zk max_proof_size max_vk_size compress_pk compress_vk d w (panicked p, v)
        h =
      h
  run_setup-Same max_pks zk max_proof_size max_vk_size compress_pk compress_vk d w
        (Exit.undefined_behaviour, v) h =
      h

  read_setup-Quiet :
      (proving_system pk_path vk_path : J.JObject)
      → Quiet (ProvingSystem.read_setup P H J B proving_system pk_path vk_path)
  unfolding ProvingSystem.read_setup
  read_setup-Quiet proving_system pk_path vk_path = search (exported, parts) depth 20

  set_up :
      (proving_system : J.JObject) (max_pks : ℤ) (pk_path vk_path : J.JObject) (zk : ℕ)
      (max_proof_size max_vk_size : ℤ) (compress_pk compress_vk : ℕ) (d : B.Files)
      → Exported P H ℕ
  set_up proving_system max_pks pk_path vk_path zk max_proof_size max_vk_size compress_pk
        compress_vk d w =
      (ProvingSystem.native_setup P H J B proving_system max_pks pk_path vk_path zk max_proof_size
        max_vk_size compress_pk compress_vk d w).0

  set_up-ExportKeeps :
      {owned : ℕ} (proving_system : J.JObject) (max_pks : ℤ) (pk_path vk_path : J.JObject) (zk : ℕ)
      (max_proof_size max_vk_size : ℤ) (compress_pk compress_vk : ℕ) (d : B.Files)
      → ExportKeeps owned (
          set_up proving_system max_pks pk_path vk_path zk max_proof_size max_vk_size compress_pk
            compress_vk d)
  unfolding set_up ProvingSystem.native_setup
  set_up-ExportKeeps proving_system max_pks pk_path vk_path zk max_proof_size max_vk_size
        compress_pk compress_vk d =
      record {
        at = λ w h. ffi_export-IsNext P H J 0 _ w (
            Same-IsNext w _ h (
              run_setup-Same max_pks zk max_proof_size max_vk_size compress_pk compress_vk d w
                (ProvingSystem.read_setup P H J B proving_system pk_path vk_path w)
                ((read_setup-Quiet proving_system pk_path vk_path).at w)));
      }

  run_setup-IsDefined :
      (max_pks : ℤ) (zk : ℕ) (max_proof_size max_vk_size : ℤ) (compress_pk compress_vk : ℕ)
      (d : B.Files) (r : Exit (System × String × String) × World P H)
      → IsDefined r.0
      → IsDefined
          (ProvingSystem.run_setup P H J B max_pks zk max_proof_size max_vk_size compress_pk
            compress_vk r d).0.0
  unfolding ProvingSystem.run_setup
  run_setup-IsDefined max_pks zk max_proof_size max_vk_size compress_pk compress_vk d
        (done (ps, pk, vk), v) h =
      (on_call-Total _ (λ u. pure 1) (pure 0) (λ u. pure-Total 1) (pure-Total 0)).at v
  run_setup-IsDefined max_pks zk max_proof_size max_vk_size compress_pk compress_vk d
        (panicked p, v) h =
      tt
  run_setup-IsDefined max_pks zk max_proof_size max_vk_size compress_pk compress_vk d
        (Exit.undefined_behaviour, v) h =
      h

  read_setup-Total :
      (proving_system pk_path vk_path : J.JObject)
      → Total (ProvingSystem.read_setup P H J B proving_system pk_path vk_path)
  unfolding ProvingSystem.read_setup
  read_setup-Total proving_system pk_path vk_path = search packages depth 20

  set_up-CallSafe :
      (proving_system : J.JObject) (max_pks : ℤ) (pk_path vk_path : J.JObject) (zk : ℕ)
      (max_proof_size max_vk_size : ℤ) (compress_pk compress_vk : ℕ) (d : B.Files)
      → CallSafe J
          (λ w. Unit {0})
          (made (
            set_up proving_system max_pks pk_path vk_path zk max_proof_size max_vk_size compress_pk
              compress_vk d))
  unfolding made set_up ProvingSystem.native_setup
  set_up-CallSafe proving_system max_pks pk_path vk_path zk max_proof_size max_vk_size compress_pk
        compress_vk d =
      record {
        at = λ w live q. call-IsDefined P H J 0 _ w (
            run_setup-IsDefined max_pks zk max_proof_size max_vk_size compress_pk compress_vk d
              (ProvingSystem.read_setup P H J B proving_system pk_path vk_path w)
              ((read_setup-Total proving_system pk_path vk_path).at w));
      }

  -- What a call does.
  unfoldable pub run : ProvingSystemCall J.JObject B.Files → World P H → Outcome × World P H
  unfolding set_up
  run (generate_dlog_keys proving_system max_segment_size supported_segment_size) = made (
      ProvingSystem.native_generate_dlog_keys P H J B proving_system max_segment_size
        supported_segment_size)
  run
        (check_proof_vk_size zk supported_segment_size max_proof_size max_vk_size
          verification_key_path) =
      made (
        ProvingSystem.native_check_proof_vk_size P H J B zk supported_segment_size max_proof_size
          max_vk_size verification_key_path)
  run
        (setup proving_system max_pks proving_key_path verification_key_path zk max_proof_size
          max_vk_size compress_pk compress_vk d) =
      made (
        set_up proving_system max_pks proving_key_path verification_key_path zk max_proof_size
          max_vk_size compress_pk compress_vk d)
  run (get_prover_key_proving_system_type proving_key_path) =
      made (ProvingSystem.native_get_prover_key_proving_system_type P H J B proving_key_path)
  run (get_verifier_key_proving_system_type verifier_key_path) =
      made (ProvingSystem.native_get_verifier_key_proving_system_type P H J B verifier_key_path)
  run (get_proof_proving_system_type proof) =
      made (ProvingSystem.native_get_proof_proving_system_type P H J B proof)

  -- Each of the calls leads from a well-formed state to a next one.
  pub run-CallKeeps :
      {owned : ℕ} (c : ProvingSystemCall J.JObject B.Files) → CallKeeps owned (run c)
  unfolding run ProvingSystem.native_generate_dlog_keys ProvingSystem.native_check_proof_vk_size
      ProvingSystem.native_get_prover_key_proving_system_type
      ProvingSystem.native_get_verifier_key_proving_system_type
      ProvingSystem.native_get_proof_proving_system_type
  run-CallKeeps
        (setup proving_system max_pks proving_key_path verification_key_path zk max_proof_size
          max_vk_size compress_pk compress_vk d) =
      made-CallKeeps (
        set_up-ExportKeeps proving_system max_pks proving_key_path verification_key_path zk
          max_proof_size max_vk_size compress_pk compress_vk d)
  run-CallKeeps (generate_dlog_keys proving_system max_segment_size supported_segment_size) =
      made-CallKeeps (search (exported, parts) depth 40 fits 4000)
  run-CallKeeps _ = made-CallKeeps (search (exported, parts) depth 40 fits 4000)

  -- A call is defined if the handles are live.
  pub run-CallSafe : (c : ProvingSystemCall J.JObject B.Files) → CallSafe J (λ w. Unit {0}) (run c)
  unfolding run ProvingSystem.native_generate_dlog_keys ProvingSystem.native_check_proof_vk_size
      ProvingSystem.native_get_prover_key_proving_system_type
      ProvingSystem.native_get_verifier_key_proving_system_type
      ProvingSystem.native_get_proof_proving_system_type
  run-CallSafe (setup system n pk vk zk m m' c c' d) = set_up-CallSafe system n pk vk zk m m' c c' d
  run-CallSafe (generate_dlog_keys proving_system max_segment_size supported_segment_size) =
      made-CallSafe P H J _ _ (search packages depth 40 fits 4000)
  run-CallSafe _ = made-CallSafe P H J _ _ (search packages depth 40 fits 4000)
