-- ===== src/Jni/SigProof/Short.antt =====
-- A certificate with too few signatures through the Java interface: NaiveThresholdSigProof
-- .nativeCreateProof of api/src/lib.rs, where overflow checks are compiled in.
use zendoo_sc_cryptolib.Prelude.{
  ℕ, ◌<◌, ◌==◌, ◌≡◌, refl, ap, true, Option, List, length, eq→==, lt→leb,
}
use zendoo_sc_cryptolib.Prelude.Call.{ok, panic, str, assert, run-ok}
use zendoo_sc_cryptolib.Prelude.Words.{ℤ, as_u64, as_u32}
use zendoo_sc_cryptolib.Primitives.{Primitives, BackwardTransfer}
use zendoo_sc_cryptolib.Calls.{check_sigs, compute_msg_to_sign, sub_u64, create_circuit}
use zendoo_sc_cryptolib.Calls.Backend.{Backend}
use zendoo_sc_cryptolib.Calls.Proofs.{create_naive_threshold_sig_proof}
use zendoo_sc_cryptolib.Jni.{Handled, World, Jvm, returned, any_to_string}
use zendoo_sc_cryptolib.Jni.Export.{
  Throws, with_pending, first_exception, exception, ffi_export-panicked,
}
use zendoo_sc_cryptolib.Jni.Pointer.{as_field_element}
use zendoo_sc_cryptolib.Jni.Points.{read_field-Points}
use zendoo_sc_cryptolib.Jni.SigProof.{native_create_proof}
use zendoo_sc_cryptolib.Jni.SigProof.Honest.{Arguments}

module _ (P : Primitives) where
  sub_u64-short :
      (n t : ℕ) → n < t → sub_u64 P true n t ≡ panic (str "attempt to subtract with overflow")
  unfolding sub_u64
  sub_u64-short n t h = rw (lt→leb n t h) refl

  create_circuit-short :
      (pks : List P.G2) (sigs : List (Option P.SchnorrSig)) (sc_id : P.FieldElement) (epoch : ℕ)
      (root : P.FieldElement) (btr ft : ℕ) (bts : List BackwardTransfer) (t : ℕ)
      (mr_bt msg : P.FieldElement) (n : ℕ) (filled : List (Option P.SchnorrSig))
      → length sigs ≡ length pks
      → compute_msg_to_sign P sc_id epoch root btr ft bts ≡ ok (mr_bt, msg)
      → check_sigs P msg pks sigs ≡ ok (n, filled)
      → n < t
      → create_circuit P true pks sigs sc_id epoch root btr ft bts t
        ≡ panic (str "attempt to subtract with overflow")
  unfolding create_circuit
  create_circuit-short pks sigs sc_id epoch root btr ft bts t mr_bt msg n filled lengths signed
        counted short =
      run-ok (assert (length sigs == length pks)) _
        (ap assert (eq→== (length sigs) (length pks) lengths))
        (run-ok (compute_msg_to_sign P sc_id epoch root btr ft bts) _ signed
          (run-ok (check_sigs P msg pks sigs) _ counted (rw (sub_u64-short n t short) refl)))

module _ (P : Primitives) (H : Handled P) (J : Jvm) (B : Backend P) where
  -- With fewer valid signatures than the threshold, `nativeCreateProof` gives Java null and leaves a
  -- RuntimeException about the subtraction pending, if none was pending before, and the boxes as they
  -- were: where overflow checks are compiled in, the arguments can be read, there is a place for a
  -- signature for each key, the message can be hashed, every signature gets a verdict, and the machine
  -- can throw.
  pub native_create_proof-short :
      (w : World P H) (a : Arguments P H J w) (epoch btr ft t : ℤ)
      (check_pk zk compressed_pk compress rng : ℕ) (mr_bt msg : P.FieldElement) (n : ℕ)
      (filled : List (Option P.SchnorrSig))
      → Throws P H J "java/lang/RuntimeException"
      → length a.sigs ≡ length a.pks
      → compute_msg_to_sign P a.id (as_u32 epoch) a.root_fe (as_u64 btr) (as_u64 ft) a.bts
        ≡ ok (mr_bt, msg)
      → check_sigs P msg a.pks a.sigs ≡ ok (n, filled)
      → n < as_u64 t
      → native_create_proof P H J B true a.bt_list a.sc_id epoch a.root btr ft a.sigs_list
          a.pks_list t a.proving_key_path check_pk zk compressed_pk compress rng w
        ≡ (
          returned J.null,
          with_pending w (
              first_exception w.pending
                (exception "java/lang/RuntimeException" "attempt to subtract with overflow")),
        )
  unfolding native_create_proof create_naive_threshold_sig_proof any_to_string
  native_create_proof-short w a epoch btr ft t check_pk zk compressed_pk compress rng mr_bt msg n
        filled throws lengths signed counted short =
      ffi_export-panicked P H J J.null _ w w (str "attempt to subtract with overflow") throws (
        rw
          (
            a.bts_read,
            a.signers_read,
            read_field-Points P H J w a.sc_id _ _ a.id_at (as_field_element P H) a.id refl,
            read_field-Points P H J w a.root _ _ a.root_at (as_field_element P H) a.root_fe refl,
            a.pk_path_read,
            create_circuit-short P a.pks a.sigs a.id (as_u32 epoch) a.root_fe (as_u64 btr)
                (as_u64 ft) a.bts (as_u64 t) mr_bt msg n filled lengths signed counted short,
          )
          refl)
