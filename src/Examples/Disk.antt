-- ===== src/Examples/Disk.antt =====
-- The setup at a toy proving system, whose disk is the list of the keys written, the last one first.
use zendoo_sc_cryptolib.Prelude.{ℕ, ◌≡◌, refl, true, none, some, List, [], ◌∷◌}
use zendoo_sc_cryptolib.Prelude.Call.{ok, err, setup_failed}
use zendoo_sc_cryptolib.Calls.Backend.{Backend, coboundary_marlin, coboundary_marlin_key}
use zendoo_sc_cryptolib.Threshold.{get_instance_for_setup}
use zendoo_sc_cryptolib.Prelude.Log.{next_power_of_two}
use zendoo_sc_cryptolib.Setup.{setup_coboundary_marlin, generate_circuit_keypair}
use zendoo_sc_cryptolib.Calls.Proofs.{unwrap}
use zendoo_sc_cryptolib.Setup.Files.{IsRun, generate_circuit_keypair-IsRun}
use zendoo_sc_cryptolib.Examples.Toy.{toy}

abbrev pub backend : Backend toy
backend = record {
  CommitterKey = ℕ;
  ProverKey = ℕ;
  VerifierKey = ℕ;
  Proof = ℕ;
  IndexInfo = ℕ;
  get_g1_committer_key = ok (some 1000);
  key_length = λ k. k;
  read_prover_key = λ p a b. ok (coboundary_marlin_key 1);
  read_verifier_key = λ p a b. ok 2;
  read_proving_system = λ p. ok coboundary_marlin;
  deserialize_proving_system = λ bs. ok coboundary_marlin;
  deserialize_proof = λ bs a b. ok 3;
  serialize_proof = λ p a. ok (p ∷ []);
  prove = λ pk ck c zk r. ok 3;
  verify_zendoo_proof = λ i p vk r. ok true;
  get_index_info = λ c. ok c.max_pks;
  compute_proof_vk_size = λ n i zk ps. (n, i);
  circuit_specific_setup = λ ck i. ok (ck, i);
  Files = List ℕ;
  write_prover_key = λ k p a d. (ok tt, k ∷ d);
  write_verifier_key = λ k p a d. (ok tt, k ∷ d);
  init_dlog_keys = λ ps m s. ok tt;
  get_proving_system_type = λ vk. coboundary_marlin;
  index_info = λ vk. vk;
  check_proof_vk_size = λ n i zk ps m k. true;
}

too_large :
    generate_circuit_keypair toy backend
      (get_instance_for_setup toy 2)
      coboundary_marlin
      "pk"
      "vk"
      1023
      2
      true
      (some true)
      none
      []
    ≡ (err (setup_failed 1023 1024 2 2), [])
unfolding generate_circuit_keypair get_instance_for_setup next_power_of_two setup_coboundary_marlin
    unwrap
too_large = refl

generate_circuit_keypair-IsRun_example :
    IsRun toy backend
      (get_instance_for_setup toy 2)
      coboundary_marlin
      "pk"
      "vk"
      1023
      2
      true
      (some true)
      none
      []
      []
      (err (setup_failed 1023 1024 2 2))
generate_circuit_keypair-IsRun_example =
    generate_circuit_keypair-IsRun toy backend (get_instance_for_setup toy 2) coboundary_marlin "pk"
      "vk" 1023 2 true (some true) none [] [] (err (setup_failed 1023 1024 2 2)) too_large
