-- ===== src/Examples/Commitment.antt =====
-- Proofs about a commitment tree that the toy library accepts: the element at 4096, the proof at 4097.
use zendoo_sc_cryptolib.Prelude.{◌≡◌, refl, true}
use zendoo_sc_cryptolib.Jni.{Boxed, World, returned, ffi_export}
use zendoo_sc_cryptolib.Jni.Pointer.{
  read_field, read_raw_pointer, pointer_in, parse_jbyte_array_to_vec,
}
use zendoo_sc_cryptolib.Jni.Handle.{boxed}
use zendoo_sc_cryptolib.Jni.CommitmentTree.{Commitment, read_fe, deserialize_fe}
use zendoo_sc_cryptolib.Jni.CommitmentTree.Reading.{
  native_verify_sc_commitment, native_verify_sc_absence,
}
use zendoo_sc_cryptolib.Jni.CommitmentTree.Verified.{
  IsExistence, IsAbsence, native_verify_sc_commitment-IsExistence,
  native_verify_sc_absence-IsAbsence,
}
use zendoo_sc_cryptolib.Examples.Toy.{toy}
use zendoo_sc_cryptolib.Examples.Machine.{handled, machine, world, three}
use zendoo_sc_cryptolib.Examples.Session.{trees}

-- Elements of one byte, as the arrays of the toy machine have.
abbrev byte_trees : Commitment toy handled
byte_trees = record trees { field_size = 1 }

abbrev with_existence : World toy handled
with_existence =
    boxed toy handled machine (boxed toy handled machine world three) (Boxed.existence_proof 6)

abbrev with_absence : World toy handled
with_absence =
    boxed toy handled machine (boxed toy handled machine world three) (Boxed.absence_proof 6)

existence_call :
    native_verify_sc_commitment toy handled machine byte_trees 4096 4097 4096 with_existence
    ≡ (returned true, with_existence)
unfolding native_verify_sc_commitment ffi_export read_field read_raw_pointer pointer_in
existence_call = refl

absence_call :
    native_verify_sc_absence toy handled machine byte_trees 77 4097 4096 with_absence
    ≡ (returned true, with_absence)
unfolding native_verify_sc_absence ffi_export read_field read_raw_pointer pointer_in read_fe
    deserialize_fe parse_jbyte_array_to_vec
absence_call = refl

native_verify_sc_commitment-IsExistence_example :
    IsExistence toy handled machine byte_trees 4096 4097 4096 with_existence with_existence
native_verify_sc_commitment-IsExistence_example =
    native_verify_sc_commitment-IsExistence toy handled machine byte_trees 4096 4097 4096
      with_existence with_existence existence_call

native_verify_sc_absence-IsAbsence_example :
    IsAbsence toy handled machine byte_trees 77 4097 4096 with_absence with_absence
native_verify_sc_absence-IsAbsence_example =
    native_verify_sc_absence-IsAbsence toy handled machine byte_trees 77 4097 4096 with_absence
      with_absence absence_call
