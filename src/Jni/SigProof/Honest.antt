-- ===== src/Jni/SigProof/Honest.antt =====
-- An honest certificate through the Java interface: NaiveThresholdSigProof.nativeCreateProof and
-- nativeVerifyProof of api/src/lib.rs, one after the other.
use zendoo_sc_cryptolib.Prelude.{
  ℕ, ◌^◌, ◌≤◌, ◌<◌, ◌==◌, ◌≡◌, refl, sym, ◌∙◌, subst, arith, Bool, true, Option, some, List, String,
  length,
}
use zendoo_sc_cryptolib.Prelude.Call.{ok, ok-injective}
use zendoo_sc_cryptolib.Prelude.Words.{ℤ, pos, negsuc, as_u64, as_u32, as_i64, as_u64-as_i64}
use zendoo_sc_cryptolib.Primitives.{Primitives, BackwardTransfer}
use zendoo_sc_cryptolib.Primitives.Laws.{FieldLaws, GadgetLaws}
use zendoo_sc_cryptolib.Calls.{compute_msg_to_sign, compute_pks_threshold_hash}
use zendoo_sc_cryptolib.Calls.Backend.{Backend, coboundary_marlin}
use zendoo_sc_cryptolib.Calls.Certificate.{ProofLaws}
use zendoo_sc_cryptolib.Calls.Certificate.Accepted.{user_inputs, verify-create}
use zendoo_sc_cryptolib.Calls.Certificate.Made.{
  Counts, length-Counts, Prover, create_naive_threshold_sig_proof-Counts,
}
use zendoo_sc_cryptolib.Calls.Inputs.{CallLaws}
use zendoo_sc_cryptolib.Calls.Proofs.{
  create_naive_threshold_sig_proof, verify_naive_threshold_sig_proof,
}
use zendoo_sc_cryptolib.Calls.Tally.{NullRejected}
use zendoo_sc_cryptolib.Jni.{Handled, Boxed, World, done, returned, Jvm, value, ffi_export}
use zendoo_sc_cryptolib.Jni.Pointer.{as_field_element, read_bt_list}
use zendoo_sc_cryptolib.Jni.Points.{Points, read_field-Points}
use zendoo_sc_cryptolib.Jni.Roundtrip.{ArrayLaws}
use zendoo_sc_cryptolib.Jni.SigProof.{native_create_proof, native_verify_proof, read_lists}

as_u64-lt : (z : ℤ) → as_u64 z < 2 ^ 64
as_u64-lt (pos n) = omega arith
as_u64-lt (negsuc n) = omega arith

module _ (P : Primitives) (H : Handled P) (J : Jvm) where
  -- The objects that Java gives to both methods, with the values behind them.
  pub record Arguments (w : World P H) : Type 0 where
    pub bt_list : J.JObject
    pub sc_id : J.JObject
    pub root : J.JObject
    pub constant : J.JObject
    pub sigs_list : J.JObject
    pub pks_list : J.JObject
    pub proving_key_path : J.JObject
    pub verification_key_path : J.JObject
    pub bts : List BackwardTransfer
    pub id : P.FieldElement
    pub root_fe : P.FieldElement
    pub constant_fe : P.FieldElement
    pub sigs : List (Option P.SchnorrSig)
    pub pks : List P.G2
    pub pk_path : String
    pub vk_path : String
    pub bts_read : read_bt_list P H J bt_list w ≡ (done bts, w)
    pub signers_read : read_lists P H J sigs_list pks_list w ≡ (done (sigs, pks), w)
    pub id_at : Points J w sc_id "fieldElementPointer" (Boxed.field_element id)
    pub root_at : Points J w root "fieldElementPointer" (Boxed.field_element root_fe)
    pub constant_at : Points J w constant "fieldElementPointer" (Boxed.field_element constant_fe)
    pub pk_path_read : J.get_string proving_key_path ≡ value pk_path
    pub vk_path_read : J.get_string verification_key_path ≡ value vk_path

  -- The machine makes the result of a proof: the array of its bytes, and the pair with the quality.
  pub record MakesResult (bytes : List ℕ) (quality : ℕ) (proof_object result : J.JObject)
      : Type 0 where
    pub class : J.JObject
    pub array : J.byte_array_from_slice bytes ≡ value proof_object
    pub found : J.find_class "com/horizen/sigproofnative/CreateProofResult" ≡ value class
    pub constructed : J.new_result class proof_object (as_i64 quality) ≡ value result

  module _ (B : Backend P) (w : World P H) (a : Arguments w) (epoch btr ft : ℤ) where
    native_create_proof_lem :
        (oc : Bool) (t : ℤ) (check_pk zk compressed_pk compress rng : ℕ) (bytes : List ℕ)
        (quality : ℕ) (proof_object result : J.JObject)
        → create_naive_threshold_sig_proof P B oc a.pks a.sigs a.id
            (as_u32 epoch)
            a.root_fe
            (as_u64 btr)
            (as_u64 ft)
            a.bts
            (as_u64 t)
            a.pk_path
            (check_pk == 1)
            (zk == 1)
            (compressed_pk == 1)
            (compress == 1)
            rng
          ≡ ok (bytes, quality)
        → MakesResult bytes quality proof_object result
        → native_create_proof P H J B oc a.bt_list a.sc_id epoch a.root btr ft a.sigs_list
            a.pks_list t a.proving_key_path check_pk zk compressed_pk compress rng w
          ≡ (returned result, w)
    unfolding native_create_proof ffi_export
    native_create_proof_lem oc t check_pk zk compressed_pk compress rng bytes quality proof_object
          result made makes =
        rw
          (
            a.bts_read,
            a.signers_read,
            read_field-Points P H J w a.sc_id _ _ a.id_at (as_field_element P H) a.id refl,
            read_field-Points P H J w a.root _ _ a.root_at (as_field_element P H) a.root_fe refl,
            a.pk_path_read,
            made,
            makes.array,
            makes.found,
            makes.constructed,
          )
          refl

    native_verify_proof_lem :
        (quality : ℤ) (proof_object : J.JObject) (check_proof compressed : ℕ)
        (check_vk compressed_vk rng : ℕ) (bytes : List ℕ)
        → J.convert_byte_array proof_object ≡ value bytes
        → verify_naive_threshold_sig_proof P B a.constant_fe a.id
            (as_u32 epoch)
            a.root_fe
            (as_u64 btr)
            (as_u64 ft)
            a.bts
            (as_u64 quality)
            bytes
            (check_proof == 1)
            (compressed == 1)
            a.vk_path
            (check_vk == 1)
            (compressed_vk == 1)
            rng
          ≡ ok true
        → native_verify_proof P H J B a.bt_list a.sc_id epoch a.root btr ft a.constant quality
            proof_object check_proof compressed a.verification_key_path check_vk compressed_vk rng w
          ≡ (returned 1, w)
    unfolding native_verify_proof ffi_export
    native_verify_proof_lem quality proof_object check_proof compressed check_vk compressed_vk rng
          bytes array accepted =
        rw
          (
            a.bts_read,
            read_field-Points P H J w a.sc_id _ _ a.id_at (as_field_element P H) a.id refl,
            read_field-Points P H J w a.root _ _ a.root_at (as_field_element P H) a.root_fe refl,
            read_field-Points P H J w a.constant _ _ a.constant_at (as_field_element P H)
                a.constant_fe refl,
            array,
            a.vk_path_read,
            accepted,
          )
          refl

module _ (P : Primitives) (L : FieldLaws P) (G : GadgetLaws P L) (K : CallLaws P L) (H : Handled P)
    (J : Jvm) (B : Backend P) where
  -- The two calls for one certificate: the first returns its result, made from the bytes of a proof and
  -- the quality, and the second answers `JNI_TRUE` to the array and the quality of that result. Neither
  -- changes the state.
  pub data IsAnswered (w : World P H) (a : Arguments P H J w) (oc : Bool) (epoch btr ft t : ℤ)
      (check_pk zk compressed_pk compress rng : ℕ) (check_proof check_vk compressed_vk rng' : ℕ)
      (quality : ℕ) : Type 0 where
    answered :
        (bytes : List ℕ) (proof_object result : J.JObject)
        → MakesResult P H J bytes quality proof_object result
        → native_create_proof P H J B oc a.bt_list a.sc_id epoch a.root btr ft a.sigs_list
            a.pks_list t a.proving_key_path check_pk zk compressed_pk compress rng w
          ≡ (returned result, w)
        → native_verify_proof P H J B a.bt_list a.sc_id epoch a.root btr ft a.constant
            (as_i64 quality)
            proof_object
            check_proof
            compress
            a.verification_key_path
            check_vk
            compressed_vk
            rng'
            w
          ≡ (returned 1, w)
        → IsAnswered w a oc epoch btr ft t check_pk zk compressed_pk compress rng check_proof
            check_vk compressed_vk rng' quality

  -- A certificate with enough signatures gets a proof and is accepted through the Java interface: if as
  -- many of the signatures that Java gives verify on the certificate's message as the threshold says or
  -- more, then `nativeCreateProof` returns a result with this number as the quality, and
  -- `nativeVerifyProof` answers `JNI_TRUE` to its array and quality; where the arguments can be read,
  -- arrays keep their bytes and the machine makes the results, there is at least one key and at most
  -- 2 ^ 63, and a place for a signature for each, the keys reject the null signature on the message, the
  -- constant is that of the keys and the threshold, the prover proves what has a witness, the proof is
  -- read with the compression that it was written with, and the files hold keys of one setup of a
  -- complete argument system.
  pub native_verify_proof-create_proof :
      (w : World P H) (a : Arguments P H J w) (oc : Bool) (epoch btr ft t : ℤ)
      (check_pk zk compressed_pk compress rng : ℕ) (check_proof check_vk compressed_vk rng' : ℕ)
      (mr_bt msg : P.FieldElement) (n : ℕ) (vk : B.VerifierKey)
      → ArrayLaws J
      → ProofLaws P B (length a.pks) a.pk_path a.vk_path
      → Prover P B
          (length a.pks)
          (user_inputs P a.constant_fe a.id
            (as_u32 epoch)
            a.root_fe
            (as_u64 btr)
            (as_u64 ft)
            a.bts
            n)
          a.pk_path
          (check_pk == 1)
          (compressed_pk == 1)
      → ((proof : B.Proof) (bytes : List ℕ)
          → B.serialize_proof proof (some (compress == 1)) ≡ ok bytes
          → (proof_object : J.JObject) × (result : J.JObject) × MakesResult P H J bytes n
              proof_object result)
      → B.read_proving_system a.vk_path ≡ ok coboundary_marlin
      → B.read_verifier_key a.vk_path (some (check_vk == 1)) (some (compressed_vk == 1)) ≡ ok vk
      → 0 < length a.pks
      → length a.pks ≤ 2 ^ 63
      → compute_pks_threshold_hash P a.pks (as_u64 t) ≡ ok a.constant_fe
      → compute_msg_to_sign P a.id (as_u32 epoch) a.root_fe (as_u64 btr) (as_u64 ft) a.bts
        ≡ ok (mr_bt, msg)
      → NullRejected P msg a.pks
      → Counts P msg a.pks a.sigs n
      → as_u64 t ≤ n
      → IsAnswered w a oc epoch btr ft t check_pk zk compressed_pk compress rng check_proof check_vk
          compressed_vk rng' n
  native_verify_proof-create_proof w a oc epoch btr ft t check_pk zk compressed_pk compress rng
        check_proof check_vk compressed_vk rng' mr_bt msg n vk arrays laws prover results system key
        some_key small constant signed null counts enough =
      let (proof, bytes, written, made) =
        create_naive_threshold_sig_proof-Counts P L oc a.pks a.sigs a.id (as_u32 epoch) a.root_fe
          (as_u64 btr) (as_u64 ft) a.bts (as_u64 t) mr_bt msg n G K B a.pk_path (check_pk == 1)
          (zk == 1) (compressed_pk == 1) (compress == 1) rng a.constant_fe some_key small
          (as_u64-lt btr) (as_u64-lt ft) null constant prover signed counts enough in
      let (proof_object, result, makes) = results proof bytes written in
      let few = (length-Counts P msg counts).1 in
      let same : as_u64 (as_i64 n) ≡ n = as_u64-as_i64 n (omega (arith, few, small)) in
      answered bytes proof_object result makes
        (native_create_proof_lem P H J B w a epoch btr ft oc t check_pk zk compressed_pk compress
          rng bytes n proof_object result made makes)
        (native_verify_proof_lem P H J B w a epoch btr ft (as_i64 n) proof_object check_proof
          compress check_vk compressed_vk rng' bytes
          (arrays.convert_byte_array-from_slice bytes proof_object makes.array)
          (rw same (
            verify-create P L G K B a.pk_path a.vk_path oc a.pks a.sigs a.id (as_u32 epoch)
              a.root_fe (as_u64 btr) (as_u64 ft) a.bts (as_u64 t) (check_pk == 1) (zk == 1)
              (compressed_pk == 1) (compress == 1) rng bytes n a.constant_fe (check_proof == 1)
              (check_vk == 1) (compressed_vk == 1) rng' vk laws system key some_key small
              (as_u64-lt btr) (as_u64-lt ft)
              (λ r e.
                subst (λ (q : P.FieldElement × P.FieldElement). NullRejected P q.1 a.pks)
                  (ok-injective (sym signed ∙ e)) null)
              constant made enough)))
