-- ===== src/Setup.antt =====
-- `generate_circuit_keypair` of demo-circuit/src/lib.rs.
pub mod Files
use zendoo_sc_cryptolib.Prelude.{
  ℕ, Bool, true, false, ◌||◌, Option, none, some, String, ltb, if◌then◌else◌,
}
use zendoo_sc_cryptolib.Prelude.Call.{
  Call, ok, err, panic, str, undefined_proving_system, setup_failed,
}
use zendoo_sc_cryptolib.Prelude.Log.{next_power_of_two}
use zendoo_sc_cryptolib.Primitives.{Primitives}
use zendoo_sc_cryptolib.Threshold.{NaiveTresholdSignature}
use zendoo_sc_cryptolib.Calls.Backend.{ProvingSystem, undefined, darlin, coboundary_marlin, Backend}
use zendoo_sc_cryptolib.Calls.Proofs.{unwrap}

-- A call that may write files, on the way to an error too.
abbrev pub Disk {ℓ} : Type 0 → Type ℓ → Type ℓ
Disk Files A = Files → Call A × Files

abbrev continue {ℓ κ} :
    {Files : Type 0} {A : Type ℓ} {B : Type κ}
    → Call A × Files
    → (A → Disk Files B)
    → Call B × Files
continue (ok a, d) f = f a d
continue (err e, d) f = (err e, d)
continue (panic p, d) f = (panic p, d)

infixl 5 ◌>>=◌ ◌>>◌
abbrev pub ◌>>=◌ {ℓ κ} :
    {Files : Type 0} {A : Type ℓ} {B : Type κ} → Disk Files A → (A → Disk Files B) → Disk Files B
◌>>=◌ m f d = continue (m d) f

abbrev pub ◌>>◌ {κ} :
    {Files : Type 0} {B : Type κ} → Disk Files (Unit {0}) → Disk Files B → Disk Files B
m >> k = m >>= λ _. k

-- A call that writes nothing.
abbrev pub reading {ℓ} : {Files : Type 0} {A : Type ℓ} → Call A → Disk Files A
reading m d = (m, d)

module _ (P : Primitives) (B : Backend P) where
  open B use {
    Files, get_g1_committer_key, key_length, get_index_info, compute_proof_vk_size,
    circuit_specific_setup, write_prover_key, write_verifier_key,
  }

  check_sizes : (proof_size vk_size max_proof_size max_vk_size : ℕ) → Call (Unit {0})
  check_sizes proof_size vk_size max_proof_size max_vk_size =
      if ltb max_proof_size proof_size || ltb max_vk_size vk_size
      then err (setup_failed max_proof_size proof_size max_vk_size vk_size)
      else ok tt

  -- The arm of `ProvingSystem::CoboundaryMarlin`.
  unfoldable pub setup_coboundary_marlin :
      Option B.CommitterKey
      → NaiveTresholdSignature P
      → (pk_path vk_path : String) → (max_proof_size max_vk_size : ℕ) → (zk : Bool)
      → (compress_pk compress_vk : Option Bool) → Disk Files (Unit {0})
  unfolding check_sizes
  setup_coboundary_marlin g1_ck circ pk_path vk_path max_proof_size max_vk_size zk compress_pk
        compress_vk =
      do
        index ← reading (get_index_info circ)
        ck ← reading (unwrap g1_ck)
        let (proof_size, vk_size) =
            compute_proof_vk_size (next_power_of_two (key_length ck)) index zk coboundary_marlin
        reading (check_sizes proof_size vk_size max_proof_size max_vk_size)
        (pk, vk) ← reading (circuit_specific_setup ck index)
        write_prover_key pk pk_path compress_pk
        write_verifier_key vk vk_path compress_vk

  select : ProvingSystem → Disk Files (Unit {0}) → Disk Files (Unit {0})
  select undefined marlin = reading (err undefined_proving_system)
  select coboundary_marlin marlin = marlin
  select darlin marlin = reading (panic (str "not implemented"))

  unfoldable pub generate_circuit_keypair :
      NaiveTresholdSignature P
      → ProvingSystem
      → (pk_path vk_path : String) → (max_proof_size max_vk_size : ℕ) → (zk : Bool)
      → (compress_pk compress_vk : Option Bool) → Disk Files (Unit {0})
  unfolding select
  generate_circuit_keypair circ proving_system pk_path vk_path max_proof_size max_vk_size zk
        compress_pk compress_vk =
      do
        g1_ck ← reading get_g1_committer_key
        select proving_system (
            setup_coboundary_marlin g1_ck circ pk_path vk_path max_proof_size max_vk_size zk
              compress_pk compress_vk)
