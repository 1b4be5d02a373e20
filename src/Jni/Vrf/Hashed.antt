-- ===== src/Jni/Vrf/Hashed.antt =====
-- Proving a message from Java and hashing the proof: com.horizen.vrfnative in api/src/lib.rs, over
-- `vrf_prove` and `vrf_proof_to_hash` of api/src/cctp_calls.rs.
use zendoo_sc_cryptolib.Prelude.{ℕ, ◌+◌, ◌≡◌, refl}
use zendoo_sc_cryptolib.Prelude.Call.{ok}
use zendoo_sc_cryptolib.Primitives.{Primitives}
use zendoo_sc_cryptolib.Calls.{vrf_prove, vrf_proof_to_hash}
use zendoo_sc_cryptolib.Calls.Vrf.{VrfLaws, vrf_proof_to_hash-vrf_prove}
use zendoo_sc_cryptolib.Jni.{Handled, Boxed, World, Jvm, value, returned, ffi_export}
use zendoo_sc_cryptolib.Jni.Handle.{boxed}
use zendoo_sc_cryptolib.Jni.Pointer.{
  as_field_element, as_g2, as_scalar, as_vrf_proof, return_field_element,
}
use zendoo_sc_cryptolib.Jni.Points.{Points, after, read_field-Points}
use zendoo_sc_cryptolib.Jni.Points.Fresh.{
  Makes, PairAt, HasRoom, Points-boxed, boxed-IsWellFormed, return_jobject-Makes, Points-Makes,
}
use zendoo_sc_cryptolib.Jni.Vrf.{native_prove, native_proof_to_hash}

module _ (P : Primitives) (H : Handled P) (J : Jvm) where
  -- The state after `nativeProve`: a box for the proof, and one for its output.
  abbrev pub proved : World P H → P.VrfProof → P.FieldElement → World P H
  proved w proof output =
      boxed P H J (boxed P H J w (Boxed.vrf_proof proof)) (Boxed.field_element output)

  -- The objects that the machine makes for a proof by `nativeProve`.
  pub record MakesProof (w : World P H) (proof_object result_object : J.JObject) : Type 0 where
    pub output_object : J.JObject
    pub class : J.JObject
    pub of_proof : Makes J "com/horizen/vrfnative/VRFProof" "proofPointer" w.next proof_object
    pub of_output :
        Makes J "com/horizen/librustsidechains/FieldElement" "fieldElementPointer"
          (w.next + 1)
          output_object
    pub found : J.find_class "com/horizen/vrfnative/VRFProveResult" ≡ value class
    pub constructed : J.new_pair class proof_object output_object ≡ value result_object

  module _ (w : World P H) (key_pair message_object proof_object result_object : J.JObject)
      (sk : P.ScalarFieldElement) (pk : P.G2) (message : P.FieldElement) (proof : P.VrfProof)
      (output : P.FieldElement) where
    native_prove_lem :
        (rng : ℕ)
        → PairAt J w key_pair sk pk
        → Points J w message_object "fieldElementPointer" (Boxed.field_element message)
        → MakesProof w proof_object result_object
        → vrf_prove P rng message sk pk ≡ ok (proof, output)
        → native_prove P H J rng key_pair message_object w
          ≡ (returned result_object, proved w proof output)
    unfolding native_prove ffi_export return_field_element
    native_prove_lem rng pair input made h =
        rw
          (
            pair.in_secret,
            read_field-Points P H J w pair.secret_object _ _ pair.secret (as_scalar P H) sk refl,
            pair.in_public,
            read_field-Points P H J w pair.public_object _ _ pair.public (as_g2 P H) pk refl,
            read_field-Points P H J w message_object _ _ input (as_field_element P H) message refl,
            h,
            return_jobject-Makes P H J w (Boxed.vrf_proof proof) _ _ proof_object made.of_proof,
            return_jobject-Makes P H J (boxed P H J w (Boxed.vrf_proof proof))
                (Boxed.field_element output) _ _ made.output_object made.of_output,
            made.found,
            made.constructed,
          )
          refl

  module _ (w : World P H) (public_object proof_object message_object output_object : J.JObject)
      (pk : P.G2) (message : P.FieldElement) (proof : P.VrfProof) (output : P.FieldElement) where
    native_proof_to_hash_lem :
        Points J w public_object "publicKeyPointer" (Boxed.g2 pk)
        → Points J w message_object "fieldElementPointer" (Boxed.field_element message)
        → Points J w proof_object "proofPointer" (Boxed.vrf_proof proof)
        → Makes J "com/horizen/librustsidechains/FieldElement" "fieldElementPointer" w.next
            output_object
        → vrf_proof_to_hash P message pk proof ≡ ok output
        → native_proof_to_hash P H J public_object proof_object message_object w
          ≡ (returned output_object, boxed P H J w (Boxed.field_element output))
    unfolding native_proof_to_hash ffi_export return_field_element
    native_proof_to_hash_lem key input of_proof made h =
        rw
          (
            read_field-Points P H J w public_object _ _ key (as_g2 P H) pk refl,
            read_field-Points P H J w message_object _ _ input (as_field_element P H) message refl,
            read_field-Points P H J w proof_object _ _ of_proof (as_vrf_proof P H) proof refl,
            h,
            return_jobject-Makes P H J w (Boxed.field_element output) _ _ output_object made,
          )
          refl

  -- The output of a proof is hashed again from the proof: `nativeProve` with a key pair and then
  -- `nativeProofToHash` with an object of the same public key, the new proof object and the same message
  -- return an object for a box with the output that `nativeProve` has put in a box too; where the
  -- handles are live, the machine makes the objects, proving succeeds, and the library's output is the
  -- hash of the message and the coordinates of the proof's point.
  pub native_proof_to_hash-prove :
      (rng : ℕ)
      (key_pair public_object message_object proof_object result_object hash_object : J.JObject)
      (sk : P.ScalarFieldElement) (pk : P.G2) (message : P.FieldElement) (proof : P.VrfProof)
      (output : P.FieldElement) (w : World P H)
      → VrfLaws P sk pk
      → HasRoom w
      → PairAt J w key_pair sk pk
      → Points J w public_object "publicKeyPointer" (Boxed.g2 pk)
      → Points J w message_object "fieldElementPointer" (Boxed.field_element message)
      → MakesProof w proof_object result_object
      → Makes J "com/horizen/librustsidechains/FieldElement" "fieldElementPointer"
          (proved w proof output).next
          hash_object
      → vrf_prove P rng message sk pk ≡ ok (proof, output)
      → after
          (native_prove P H J rng key_pair message_object w)
          (λ result. native_proof_to_hash P H J public_object proof_object message_object)
        ≡ (returned hash_object, boxed P H J (proved w proof output) (Boxed.field_element output))
  native_proof_to_hash-prove rng key_pair public_object message_object proof_object result_object
        hash_object sk pk message proof output w laws has pair key input made hashed h =
      let b = Boxed.vrf_proof proof in
      let c = Boxed.field_element output in
      let v = boxed P H J w b in
      let wf = has.well_formed in
      let wf' = boxed-IsWellFormed P H J w b wf in
      rw
        (native_prove_lem w key_pair message_object proof_object result_object sk pk message proof
          output rng pair input made h)
        (native_proof_to_hash_lem (proved w proof output) public_object proof_object message_object
          hash_object pk message proof output
          (Points-boxed P H J v public_object _ _ c wf'
            (Points-boxed P H J w public_object _ _ b wf key))
          (Points-boxed P H J v message_object _ _ c wf'
            (Points-boxed P H J w message_object _ _ b wf input))
          (Points-boxed P H J v proof_object _ _ c wf'
            (Points-Makes P H J w b _ _ proof_object made.of_proof has))
          hashed (vrf_proof_to_hash-vrf_prove P rng message sk pk proof output laws h))
