-- ===== src/Examples/Short.antt =====
-- The certificate of the two keys with a threshold of two, which one signature does not reach.
use zendoo_sc_cryptolib.Prelude.{◌≡◌, refl, arith, true, some, [], ◌∷◌}
use zendoo_sc_cryptolib.Prelude.Call.{ok}
use zendoo_sc_cryptolib.Prelude.Words.{pos}
use zendoo_sc_cryptolib.Calls.{compute_msg_to_sign, check_sigs, schnorr_verify_signature}
use zendoo_sc_cryptolib.Jni.{returned}
use zendoo_sc_cryptolib.Jni.Export.{Throws, with_pending, first_exception, exception}
use zendoo_sc_cryptolib.Jni.SigProof.{native_create_proof}
use zendoo_sc_cryptolib.Jni.SigProof.Short.{native_create_proof-short}
use zendoo_sc_cryptolib.Examples.Toy.{toy}
use zendoo_sc_cryptolib.Examples.Machine.{handled}
use zendoo_sc_cryptolib.Examples.Threshold.{keys, sigs}
use zendoo_sc_cryptolib.Examples.Argument.{argument}
use zendoo_sc_cryptolib.Examples.Honest.{lists, with_signers, arguments, message, message_made}

one_valid : check_sigs toy message.1 keys sigs ≡ ok (1, some 38288535 ∷ some 0 ∷ [])
unfolding check_sigs compute_msg_to_sign schnorr_verify_signature
one_valid = refl

Throws-lists : Throws toy handled lists "java/lang/RuntimeException"
unfolding Throws
Throws-lists = (1, refl, λ d. refl)

native_create_proof-short_example :
    native_create_proof toy handled lists argument true 0 4096
      (pos 7)
      4097
      (pos 10)
      (pos 20)
      1
      2
      (pos 2)
      5
      1
      0
      1
      1
      5
      with_signers
    ≡ (
      returned 0,
      with_pending with_signers (
          first_exception with_signers.pending
            (exception "java/lang/RuntimeException" "attempt to subtract with overflow")),
    )
native_create_proof-short_example =
    native_create_proof-short toy handled lists argument with_signers arguments (pos 7) (pos 10)
      (pos 20) (pos 2) 1 0 1 1 5 message.0 message.1 1 (some 38288535 ∷ some 0 ∷ []) Throws-lists
      refl message_made one_valid (omega arith)
