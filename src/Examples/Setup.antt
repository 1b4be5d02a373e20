-- ===== src/Examples/Setup.antt =====
-- A setup that Java starts at the toy proving system.
use zendoo_sc_cryptolib.Prelude.{◌≡◌, refl, []}
use zendoo_sc_cryptolib.Prelude.Words.{pos}
use zendoo_sc_cryptolib.Prelude.Log.{next_power_of_two}
use zendoo_sc_cryptolib.Calls.Proofs.{unwrap}
use zendoo_sc_cryptolib.Threshold.{get_instance_for_setup}
use zendoo_sc_cryptolib.Setup.{setup_coboundary_marlin, generate_circuit_keypair}
use zendoo_sc_cryptolib.Jni.{Jvm, value, returned, ffi_export}
use zendoo_sc_cryptolib.Jni.ProvingSystem.{
  from_ordinal, get_proving_system_type, read_setup, run_setup, native_setup,
}
use zendoo_sc_cryptolib.Jni.ProvingSystem.Finished.{IsFinished, native_setup-IsFinished}
use zendoo_sc_cryptolib.Examples.Toy.{toy}
use zendoo_sc_cryptolib.Examples.Machine.{handled, machine, world}
use zendoo_sc_cryptolib.Examples.Disk.{backend}

-- The machine whose proving system is the third of its enumeration.
abbrev marlin : Jvm
marlin = record machine { call_int = λ o m. value (pos 2) }

setup_call :
    (native_setup toy handled marlin backend 3 (pos 2) 5 6 1 (pos 1024) (pos 2) 1 0 [] world).0
    ≡ (returned 1, world)
unfolding native_setup run_setup read_setup get_proving_system_type from_ordinal ffi_export
    generate_circuit_keypair get_instance_for_setup next_power_of_two setup_coboundary_marlin unwrap
setup_call = refl

native_setup-IsFinished_example :
    IsFinished toy handled marlin backend 3 5 6
      (pos 2)
      1
      (pos 1024)
      (pos 2)
      1
      0
      world
      world
      []
      (native_setup toy handled marlin backend 3 (pos 2) 5 6 1 (pos 1024) (pos 2) 1 0 [] world).1
native_setup-IsFinished_example =
    native_setup-IsFinished toy handled marlin backend 3 5 6 (pos 2) 1 (pos 1024) (pos 2) 1 0 []
      world world setup_call
