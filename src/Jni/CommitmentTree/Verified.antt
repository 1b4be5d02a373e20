-- ===== src/Jni/CommitmentTree/Verified.antt =====
-- What a true answer of ScExistenceProof.nativeVerifyScCommitment and
-- ScAbsenceProof.nativeVerifyScAbsence, in api/src/lib.rs, stands for.
use zendoo_sc_cryptolib.Prelude.{◌≡◌, ◌≢◌, ap, ◌∙◌, Bool, true, false}
use zendoo_sc_cryptolib.Primitives.{Primitives}
use zendoo_sc_cryptolib.Jni.{Handled, World, Exit, done, returned, Jvm, pure}
use zendoo_sc_cryptolib.Jni.Invert.{invert_step, ffi_export_other}
use zendoo_sc_cryptolib.Jni.Pointer.{
  as_field_element, as_existence_proof, as_absence_proof, read_field,
}
use zendoo_sc_cryptolib.Jni.CommitmentTree.{Commitment, read_fe}
use zendoo_sc_cryptolib.Jni.CommitmentTree.Reading.{
  native_verify_sc_commitment, native_verify_sc_absence,
}

true-ne-false : true ≢ false
true-ne-false e = cc

module _ (P : Primitives) (H : Handled P) (J : Jvm) (C : Commitment P H) where
  open J use {JObject}

  -- The three handles were read, and the library accepts what they hold.
  pub data IsExistence (sc_commitment proof_object commitment : J.JObject) (w w' : World P H)
      : Type 0 where
    verified_existence :
        (sc_commitment_fe commitment_fe : P.FieldElement) (proof : H.ScExistenceProof)
        (w1 w2 : World P H)
        → read_field P H J (as_field_element P H) sc_commitment "fieldElementPointer" w
          ≡ (done sc_commitment_fe, w1)
        → read_field P H J (as_existence_proof P H) proof_object "existenceProofPointer" w1
          ≡ (done proof, w2)
        → read_field P H J (as_field_element P H) commitment "fieldElementPointer" w2
          ≡ (done commitment_fe, w')
        → C.verify_sc_commitment sc_commitment_fe proof commitment_fe ≡ true
        → IsExistence sc_commitment proof_object commitment w w'

  -- The bytes are an element of the right length, the two handles were read, and the library accepts.
  pub data IsAbsence (sc_id_bytes proof_object commitment : J.JObject) (w w' : World P H)
      : Type 0 where
    verified_absence :
        (sc_id commitment_fe : P.FieldElement) (proof : H.ScAbsenceProof) (w1 w2 : World P H)
        → read_fe P H J C sc_id_bytes w ≡ (done sc_id, w1)
        → read_field P H J (as_absence_proof P H) proof_object "absenceProofPointer" w1
          ≡ (done proof, w2)
        → read_field P H J (as_field_element P H) commitment "fieldElementPointer" w2
          ≡ (done commitment_fe, w')
        → C.verify_sc_absence sc_id proof commitment_fe ≡ true
        → IsAbsence sc_id_bytes proof_object commitment w w'

  -- The end of such a method: the answer is the verdict, and nothing has changed since the last read.
  verdict :
      {A : Type 0} (r : Exit A × World P H) (verdict_of : A → Bool) (a : A) (v w : World P H)
      → r ≡ (done a, v)
      → ◌≡◌ {A = Exit Bool × World P H} (pure (verdict_of a) v) (done true, w)
      → (r ≡ (done a, w)) × (verdict_of a ≡ true)
  verdict r verdict_of a v w h k = (
    h ∙ ap (λ (x : World P H). (done a, x)) (ap (λ (q : Exit Bool × World P H). q.1) k),
    ap (λ (q : Exit Bool × World P H). elim q.0 [ done b ↦ b | _ ↦ true ]) k,
  )

  -- `nativeVerifyScCommitment` is true only if the sidechain's commitment, the proof and the
  -- commitment were read and the library verifies them: an error, a panic and a null handle never
  -- look like a proof of existence.
  pub native_verify_sc_commitment-IsExistence :
      (sc_commitment proof_object commitment : J.JObject) (w w' : World P H)
      → native_verify_sc_commitment P H J C sc_commitment proof_object commitment w
        ≡ (returned true, w')
      → IsExistence sc_commitment proof_object commitment w w'
  unfolding native_verify_sc_commitment
  native_verify_sc_commitment-IsExistence sc_commitment proof_object commitment w w' h =
      invert_step (read_field P H J (as_field_element P H) sc_commitment "fieldElementPointer" w) _
        (ffi_export_other P H J false _ w w' true true-ne-false h)
        λ fe w1 h1 k1.
          invert_step
            (read_field P H J (as_existence_proof P H) proof_object "existenceProofPointer" w1) _ k1
            λ proof w2 h2 k2.
              invert_step
                (read_field P H J (as_field_element P H) commitment "fieldElementPointer" w2) _ k2
                λ root w3 h3 k3.
                  let (read, accepted) =
                    verdict
                      (read_field P H J (as_field_element P H) commitment "fieldElementPointer" w2)
                      (C.verify_sc_commitment fe proof) root w3 w' h3 k3 in
                  verified_existence fe root proof w1 w2 h1 h2 read accepted

  -- `nativeVerifyScAbsence` is true only if the identifier was read from bytes of the right number, and
  -- the proof and the commitment from their handles, and the library verifies them.
  pub native_verify_sc_absence-IsAbsence :
      (sc_id_bytes proof_object commitment : J.JObject) (w w' : World P H)
      → native_verify_sc_absence P H J C sc_id_bytes proof_object commitment w ≡ (returned true, w')
      → IsAbsence sc_id_bytes proof_object commitment w w'
  unfolding native_verify_sc_absence
  native_verify_sc_absence-IsAbsence sc_id_bytes proof_object commitment w w' h =
      invert_step (read_fe P H J C sc_id_bytes w) _
        (ffi_export_other P H J false _ w w' true true-ne-false h)
        λ sc_id w1 h1 k1.
          invert_step
            (read_field P H J (as_absence_proof P H) proof_object "absenceProofPointer" w1) _ k1
            λ proof w2 h2 k2.
              invert_step
                (read_field P H J (as_field_element P H) commitment "fieldElementPointer" w2) _ k2
                λ root w3 h3 k3.
                  let (read, accepted) =
                    verdict
                      (read_field P H J (as_field_element P H) commitment "fieldElementPointer" w2)
                      (C.verify_sc_absence sc_id proof) root w3 w' h3 k3 in
                  verified_absence sc_id root proof w1 w2 h1 h2 read accepted
