-- ===== src/Jni/ProvingSystem.antt =====
-- The exported functions of com.horizen.provingsystemnative, and the setup of the threshold circuit,
-- in api/src/lib.rs.
pub mod Finished
use zendoo_sc_cryptolib.Prelude.{ℕ, Bool, some, List, String, ◌==◌, if◌then◌else◌}
use zendoo_sc_cryptolib.Prelude.Call.{Call, str}
use zendoo_sc_cryptolib.Prelude.Words.{ℤ, pos, as_u64}
use zendoo_sc_cryptolib.Primitives.{Primitives}
use zendoo_sc_cryptolib.Threshold.{get_instance_for_setup}
use zendoo_sc_cryptolib.Calls.Backend.{Backend, ProvingSystem, undefined, darlin, coboundary_marlin}
use zendoo_sc_cryptolib.Calls.Proofs.{first_byte}
use zendoo_sc_cryptolib.Setup.{generate_circuit_keypair}
use zendoo_sc_cryptolib.Jni.{
  Handled, World, Exit, done, panicked, Returned, Native, Exported, Jvm, ◌>>=◌, pure, unwind,
  expect, on_call, ffi_export,
}
use zendoo_sc_cryptolib.Jni.FieldElement.{jboolean}

module _ (P : Primitives) (H : Handled P) (J : Jvm) (B : Backend P) where
  open J use {JObject}
  open B use {Files}

  -- `match proving_system { .. _ => unreachable!() }`
  unfoldable pub from_ordinal : ℕ → Native P H ProvingSystem
  from_ordinal n =
      if n == 0
      then pure undefined
      else (if n == 1
          then pure darlin
          else (if n == 2
              then pure coboundary_marlin
              else unwind (str "internal error: entered unreachable code")))

  unfoldable pub get_proving_system_type : JObject → Native P H ProvingSystem
  unfolding from_ordinal
  get_proving_system_type proving_system = do
    ordinal ←
        expect (J.call_int proving_system "ordinal")
          "Should be able to call ordinal() on ProvingSystem enum"
    from_ordinal (as_u64 ordinal)

  unfoldable pub get_proving_system_type_as_jint : ProvingSystem → ℤ
  get_proving_system_type_as_jint undefined = pos 0
  get_proving_system_type_as_jint darlin = pos 1
  get_proving_system_type_as_jint coboundary_marlin = pos 2

  unfoldable pub native_generate_dlog_keys :
      (proving_system : JObject) (max_segment_size supported_segment_size : ℤ) → Exported P H ℕ
  native_generate_dlog_keys proving_system max_segment_size supported_segment_size =
      ffi_export P H J 0 do
        proving_system ← get_proving_system_type proving_system
        on_call
            (B.init_dlog_keys proving_system (as_u64 max_segment_size)
              (as_u64 supported_segment_size))
            (λ u. pure 1) (pure 0)

  unfoldable pub native_check_proof_vk_size :
      (zk : ℕ) (supported_segment_size max_proof_size max_vk_size : ℤ)
      (verification_key_path : JObject)
      → Exported P H ℕ
  native_check_proof_vk_size zk supported_segment_size max_proof_size max_vk_size
        verification_key_path =
      ffi_export P H J 0 do
        vk_path ←
            expect (J.get_string verification_key_path)
              "Should be able to read jstring as Rust String"
        on_call (B.read_verifier_key vk_path (some Bool.false) (some Bool.true))
            (λ (vk : B.VerifierKey). pure (
              jboolean (
                B.check_proof_vk_size (as_u64 supported_segment_size) (B.index_info vk) (zk == 1)
                  (B.get_proving_system_type vk) (as_u64 max_proof_size) (as_u64 max_vk_size))))
            (pure 0)

  -- What `nativeSetup` reads before it runs the generator.
  unfoldable pub read_setup :
      (proving_system proving_key_path verification_key_path : JObject)
      → Native P H (ProvingSystem × String × String)
  read_setup proving_system proving_key_path verification_key_path = do
    proving_system ← get_proving_system_type proving_system
    pk ← expect (J.get_string proving_key_path) "Should be able to read jstring as Rust String"
    vk ← expect (J.get_string verification_key_path) "Should be able to read jstring as Rust String"
    pure (proving_system, pk, vk)

  unfoldable pub run_setup :
      (max_pks : ℤ) (zk : ℕ) (max_proof_size max_vk_size : ℤ) (compress_pk compress_vk : ℕ)
      → Exit (ProvingSystem × String × String) × World P H
      → Files
      → (Exit ℕ × World P H) × Files
  run_setup max_pks zk max_proof_size max_vk_size compress_pk compress_vk
        (done (proving_system, pk_path, vk_path), w) d =
      let (result, d') =
        generate_circuit_keypair P B (get_instance_for_setup P (as_u64 max_pks)) proving_system
          pk_path vk_path (as_u64 max_proof_size) (as_u64 max_vk_size) (zk == 1)
          (some (compress_pk == 1)) (some (compress_vk == 1)) d in
      (on_call result (λ u. pure 1) (pure 0) w, d')
  run_setup max_pks zk max_proof_size max_vk_size compress_pk compress_vk (panicked p, w) d =
      ((panicked p, w), d)
  run_setup max_pks zk max_proof_size max_vk_size compress_pk compress_vk
        (Exit.undefined_behaviour, w) d =
      ((Exit.undefined_behaviour, w), d)

  unfoldable pub native_setup :
      (proving_system : JObject) (max_pks : ℤ) (proving_key_path verification_key_path : JObject)
      (zk : ℕ) (max_proof_size max_vk_size : ℤ) (compress_pk compress_vk : ℕ)
      → Files
      → World P H
      → (Returned ℕ × World P H) × Files
  unfolding read_setup run_setup
  native_setup proving_system max_pks proving_key_path verification_key_path zk max_proof_size
        max_vk_size compress_pk compress_vk d w =
      let (exit, d') =
        run_setup max_pks zk max_proof_size max_vk_size compress_pk compress_vk
          (read_setup proving_system proving_key_path verification_key_path w) d in
      (ffi_export P H J 0 (λ v. exit) w, d')

  -- The type that a file or a proof starts with, and 1 where it cannot be read.
  type_or_one : Call ProvingSystem → Native P H ℤ
  type_or_one read =
      on_call read (λ (ps : ProvingSystem). pure (get_proving_system_type_as_jint ps))
        (pure (pos 1))

  unfoldable pub native_get_prover_key_proving_system_type :
      (proving_key_path : JObject) → Exported P H ℤ
  unfolding type_or_one
  native_get_prover_key_proving_system_type proving_key_path = ffi_export P H J (pos 0) do
    path ← expect (J.get_string proving_key_path) "Should be able to read jstring as Rust String"
    type_or_one (B.read_proving_system path)

  unfoldable pub native_get_verifier_key_proving_system_type :
      (verifier_key_path : JObject) → Exported P H ℤ
  unfolding type_or_one
  native_get_verifier_key_proving_system_type verifier_key_path = ffi_export P H J (pos 0) do
    path ← expect (J.get_string verifier_key_path) "Should be able to read jstring as Rust String"
    type_or_one (B.read_proving_system path)

  unfoldable pub native_get_proof_proving_system_type : (proof : JObject) → Exported P H ℤ
  unfolding type_or_one
  native_get_proof_proving_system_type proof = ffi_export P H J (pos 0) do
    proof_bytes ← expect (J.convert_byte_array proof) "Should be able to convert to Rust byte array"
    on_call (first_byte proof_bytes)
        (λ (tag : List ℕ). type_or_one (B.deserialize_proving_system tag)) (pure (pos 1))
