-- ===== src/Examples/Proofs.antt =====
-- The proof calls at the toy proving system.
use zendoo_sc_cryptolib.Prelude.{ℕ, ◌≡◌, refl, true, false, Option, some, none, List, [], ◌∷◌}
use zendoo_sc_cryptolib.Prelude.Call.{ok}
use zendoo_sc_cryptolib.Prelude.Log.{log_max_pks}
use zendoo_sc_cryptolib.Prelude.Bits.{bits_be}
use zendoo_sc_cryptolib.Threshold.{NaiveTresholdSignature, b_bool, new}
use zendoo_sc_cryptolib.Calls.{create_circuit, schnorr_verify_signature}
use zendoo_sc_cryptolib.Calls.Proofs.{
  unwrap, first_byte, create_naive_threshold_sig_proof, verify_naive_threshold_sig_proof,
}
use zendoo_sc_cryptolib.Calls.Proofs.Returned.{
  IsProofOf, IsVerified, create_naive_threshold_sig_proof-IsProofOf,
  verify_naive_threshold_sig_proof-IsVerified,
}
use zendoo_sc_cryptolib.Examples.Toy.{element, toy}
use zendoo_sc_cryptolib.Examples.Disk.{backend}

abbrev keys : List ℕ
keys = 5 ∷ 9 ∷ []

abbrev sigs : List (Option ℕ)
sigs = some 38288535 ∷ none ∷ []

proof_call :
    create_naive_threshold_sig_proof toy backend false keys sigs
      (element 3)
      7
      (element 4)
      10
      20
      []
      1
      "pk"
      true
      false
      true
      true
      5
    ≡ ok (3 ∷ [], 1)
unfolding create_naive_threshold_sig_proof create_circuit schnorr_verify_signature new b_bool
    log_max_pks bits_be unwrap
proof_call = refl

create_naive_threshold_sig_proof-IsProofOf_example :
    (c : NaiveTresholdSignature toy) × (create_circuit toy false keys sigs
        (element 3)
        7
        (element 4)
        10
        20
        []
        1
      ≡ ok (c, 1))
    × IsProofOf toy backend c "pk" true false true true 5 (3 ∷ [])
create_naive_threshold_sig_proof-IsProofOf_example =
    create_naive_threshold_sig_proof-IsProofOf toy backend false keys sigs (element 3) 7 (element 4)
      10 20 [] 1 "pk" true false true true 5 (3 ∷ []) 1 proof_call

verify_call :
    verify_naive_threshold_sig_proof toy backend
      (element 8)
      (element 3)
      7
      (element 4)
      10
      20
      []
      1
      (3 ∷ [])
      true
      true
      "vk"
      true
      true
      5
    ≡ ok true
unfolding verify_naive_threshold_sig_proof first_byte
verify_call = refl

verify_naive_threshold_sig_proof-IsVerified_example :
    IsVerified toy backend
      (record {
        constant = some (element 8);
        sc_id = element 3;
        epoch_number = 7;
        quality = 1;
        bt_list = none;
        custom_fields = none;
        end_cumulative_sc_tx_commitment_tree_root = element 4;
        btr_fee = 10;
        ft_min_amount = 20;
      })
      (3 ∷ [])
      true
      true
      "vk"
      true
      true
      5
verify_naive_threshold_sig_proof-IsVerified_example =
    verify_naive_threshold_sig_proof-IsVerified toy backend (element 8) (element 3) 7 (element 4) 10
      20 [] 1 (3 ∷ []) true true "vk" true true 5 verify_call
