-- ===== src/Examples/Accepted.antt =====
-- A proof that the toy machine has accepted: the three field elements are the box at 4096.
use zendoo_sc_cryptolib.Prelude.{◌≡◌, refl}
use zendoo_sc_cryptolib.Prelude.Words.{pos}
use zendoo_sc_cryptolib.Calls.Proofs.{first_byte, verify_naive_threshold_sig_proof}
use zendoo_sc_cryptolib.Jni.{World, returned, ffi_export}
use zendoo_sc_cryptolib.Jni.Pointer.{
  read_array, read_bt_list, read_field, read_raw_pointer, pointer_in,
}
use zendoo_sc_cryptolib.Jni.Handle.{boxed}
use zendoo_sc_cryptolib.Jni.SigProof.{native_verify_proof}
use zendoo_sc_cryptolib.Jni.SigProof.Accepted.{IsAccepted, native_verify_proof-IsAccepted}
use zendoo_sc_cryptolib.Examples.Toy.{toy}
use zendoo_sc_cryptolib.Examples.Machine.{handled, machine, world, three}
use zendoo_sc_cryptolib.Examples.Disk.{backend}

abbrev with_three : World toy handled
with_three = boxed toy handled machine world three

accepted_call :
    native_verify_proof toy handled machine backend 0 4096
      (pos 7)
      4096
      (pos 10)
      (pos 20)
      4096
      (pos 1)
      3
      1
      1
      2
      1
      1
      5
      with_three
    ≡ (returned 1, with_three)
unfolding native_verify_proof ffi_export read_bt_list read_array read_field read_raw_pointer
    pointer_in verify_naive_threshold_sig_proof first_byte
accepted_call = refl

native_verify_proof-IsAccepted_example :
    IsAccepted toy handled machine backend 0 4096
      (pos 7)
      4096
      (pos 10)
      (pos 20)
      4096
      (pos 1)
      3
      1
      1
      2
      1
      1
      5
      with_three
      with_three
native_verify_proof-IsAccepted_example =
    native_verify_proof-IsAccepted toy handled machine backend 0 4096 (pos 7) 4096 (pos 10) (pos 20)
      4096 (pos 1) 3 1 1 2 1 1 5 with_three with_three accepted_call
