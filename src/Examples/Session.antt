-- ===== src/Examples/Session.antt =====
-- The commitment trees and the other libraries of the toy machine, and that its first state is well
-- formed.
use zendoo_sc_cryptolib.Prelude.{refl, true, false, none, arith}
use zendoo_sc_cryptolib.Prelude.Call.{ok}
use zendoo_sc_cryptolib.Jni.CommitmentTree.{Commitment}
use zendoo_sc_cryptolib.Jni.Invariant.{IsWellFormed}
use zendoo_sc_cryptolib.Jni.Session.{Libraries}
use zendoo_sc_cryptolib.Examples.Toy.{element, toy}
use zendoo_sc_cryptolib.Examples.Machine.{handled, world}
use zendoo_sc_cryptolib.Examples.Disk.{backend}

abbrev pub trees : Commitment toy handled
trees = record {
  field_size = 32;
  mc_pk_size = 20;
  create = 0;
  deserialize_field_element = λ bs. ok (element 5);
  deserialize_existence_proof = λ bs. ok 1;
  deserialize_absence_proof = λ bs. ok 2;
  add_scc = λ t c. (t, true);
  add_fwt = λ t i a p m h o. (t, true);
  add_bwtr = λ t i f d m h o. (t, true);
  add_cert = λ t i e q b c r f m. (t, true);
  add_cert_leaf = λ t i l. (t, false);
  add_csw = λ t i a n m. (t, true);
  get_cert_leaves = λ t i. (t, none);
  get_scc = λ t i. (t, none);
  get_fwt_commitment = λ t i. (t, none);
  get_bwtr_commitment = λ t i. (t, none);
  get_cert_commitment = λ t i. (t, none);
  get_csw_commitment = λ t i. (t, none);
  get_sc_commitment = λ t i. (t, none);
  get_commitment = λ t. (t, none);
  get_sc_existence_proof = λ t i. (t, none);
  get_sc_absence_proof = λ t i. (t, none);
  verify_sc_commitment = λ c p r. true;
  verify_sc_absence = λ i p r. true;
}

abbrev pub libraries : Libraries toy handled
libraries = record {
  sizes = record { field_size = 32; scalar_field_size = 32; group_compressed_size = 33 };
  byte_hashes = record {
    compute_sc_id = λ h i. ok (element i);
    merkle_root_from_compressed_bytes_without_checks = λ bs. ok (element 1);
    merkle_root_from_compressed_bytes = λ bs n. ok (element 1);
  };
  commitment = trees;
  backend = backend;
  overflow_checks = false;
}

pub world-IsWellFormed : IsWellFormed world
world-IsWellFormed = record { not_null = omega arith; empty_null = refl; fresh = λ p h. refl }
