-- ===== src/Examples/Path.antt =====
-- A path that the toy machine verifies: the leaf and the root are the box at 4096, and the path is the
-- box at 4097.
use zendoo_sc_cryptolib.Prelude.{◌≡◌, refl}
use zendoo_sc_cryptolib.Prelude.Words.{pos}
use zendoo_sc_cryptolib.Jni.{Boxed, World, returned, ffi_export}
use zendoo_sc_cryptolib.Jni.Pointer.{read_field, read_raw_pointer, pointer_in}
use zendoo_sc_cryptolib.Jni.Handle.{boxed}
use zendoo_sc_cryptolib.Jni.MerklePath.{native_verify}
use zendoo_sc_cryptolib.Jni.MerklePath.Verified.{IsVerifiedPath, native_verify-IsVerifiedPath}
use zendoo_sc_cryptolib.Examples.Toy.{toy}
use zendoo_sc_cryptolib.Examples.Machine.{handled, machine, world, three}

abbrev with_path : World toy handled
with_path = boxed toy handled machine (boxed toy handled machine world three) (Boxed.merkle_path 6)

verify_call :
    native_verify toy handled machine 4097 (pos 5) 4096 4096 with_path ≡ (returned 1, with_path)
unfolding native_verify ffi_export read_field read_raw_pointer pointer_in
verify_call = refl

native_verify-IsVerifiedPath_example :
    IsVerifiedPath toy handled machine 4097 (pos 5) 4096 4096 with_path with_path
native_verify-IsVerifiedPath_example =
    native_verify-IsVerifiedPath toy handled machine 4097 (pos 5) 4096 4096 with_path with_path
      verify_call
