-- ===== src/Jni/Roundtrip.antt =====
-- Values that go to Java as bytes and come back: `serialize_from_jobject` and `deserialize_to_jobject`
-- of api/src/lib.rs, which the exported functions for field elements, keys, signatures, proofs and paths
-- call.
use zendoo_sc_cryptolib.Prelude.{ℕ, Bool, ◌≡◌, refl, ap, ◌∙◌, Option, List, String}
use zendoo_sc_cryptolib.Prelude.Call.{Call, ok, err, panic, Payload, string}
use zendoo_sc_cryptolib.Prelude.Words.{as_u64}
use zendoo_sc_cryptolib.Primitives.{Primitives}
use zendoo_sc_cryptolib.Jni.{
  Handled, Boxed, World, done, Jvm, JResult, value, fault, Codec, step, pure, unwind, expect,
  on_call,
}
use zendoo_sc_cryptolib.Jni.Invert.{invert_step, invert_expect}
use zendoo_sc_cryptolib.Jni.Pointer.{
  Cast, read_raw_pointer, read_field, pointer_in, return_jobject, deserialize_to_jobject,
  serialize_from_raw_pointer, serialize_from_jobject,
}

-- The bytes that a Java array is made of are read from it again.
pub record ArrayLaws (J : Jvm) : Type 0 where
  pub convert_byte_array-from_slice :
      (bytes : List ℕ) (arr : J.JObject)
      → J.byte_array_from_slice bytes ≡ value arr
      → J.convert_byte_array arr ≡ value bytes

-- A codec reads what it has written.
pub record CodecLaws {A : Type 0} (codec : Codec A) (checked compressed : Option Bool)
    : Type 0 where
  pub deserialize-serialize :
      (a : A) (bytes : List ℕ)
      → codec.serialize a compressed ≡ ok bytes
      → codec.deserialize bytes checked compressed ≡ ok a

module _ {P : Primitives} {H : Handled P} where
  -- The last step of a chain: a library call, and a call of the machine, that succeeded.
  last_call :
      {A : Type 0} (r : Call A) (p : Payload) (a : A) (v w : World P H)
      → on_call r pure (unwind p) v ≡ (done a, w)
      → (r ≡ ok a) × (v ≡ w)
  last_call (ok b) p a v w h = (cc, ap (λ q. q.1) h)
  last_call (err e) p a v w h = cc
  last_call (panic q) p a v w h = cc

  last_expect :
      {A : Type 0} (r : JResult A) (message : String) (a : A) (v w : World P H)
      → expect r message v ≡ (done a, w)
      → (r ≡ value a) × (v ≡ w)
  last_expect (value b) message a v w h = (cc, ap (λ q. q.1) h)
  last_expect (fault e) message a v w h = cc

module _ (P : Primitives) (H : Handled P) (J : Jvm) where
  -- What a serialisation that succeeded has done: it read a value, and made an array of its bytes.
  invert_serialize {ℓ} :
      {A : Type 0} {C : Type ℓ} (codec : Codec A) (cast : Cast P H A) (o : J.JObject)
      (field : String) (compressed : Option Bool) (w w' : World P H) (arr : J.JObject)
      → serialize_from_jobject P H J codec cast o field compressed w ≡ (done arr, w')
      → ((a : A) (bytes : List ℕ)
          → read_field P H J cast o field w ≡ (done a, w')
          → codec.serialize a compressed ≡ ok bytes
          → J.byte_array_from_slice bytes ≡ value arr
          → C)
      → C
  unfolding serialize_from_jobject serialize_from_raw_pointer read_field pointer_in
  invert_serialize codec cast o field compressed w w' arr h k =
      invert_expect (J.get_long o field) _ w _ h λ j found h1.
        invert_step
          (step (read_raw_pointer P H J cast (as_u64 j) w) λ a.
            on_call (codec.serialize a compressed) pure
              (unwind (string "unable to write to buffer")))
          _ h1
          λ bytes v h2 h3. invert_step (read_raw_pointer P H J cast (as_u64 j) w) _ h2 λ a u h4 h5.
            let (wrote, same) = last_call (codec.serialize a compressed) _ bytes u v h5 in
            let (made, same') = last_expect (J.byte_array_from_slice bytes) _ arr v w' h3 in
            k a bytes (rw found (h4 ∙ ap (λ (x : World P H). (done a, x)) (same ∙ same'))) wrote
              made

  -- A value that was serialised to an array is deserialised from it: if `serialize_from_jobject`
  -- gives an array, it has read a value through the object's handle, and `deserialize_to_jobject` of
  -- that array, in any later state, returns a new object for this value; for a codec that reads what it
  -- writes, and arrays that keep their bytes.
  pub deserialize_to_jobject-serialize_from_jobject :
      {A : Type 0} (codec : Codec A) (cast : Cast P H A) (box : A → Boxed P H) (o : J.JObject)
      (field class_path : String) (checked compressed : Option Bool) (w w' : World P H)
      (arr : J.JObject)
      → ArrayLaws J
      → CodecLaws codec checked compressed
      → serialize_from_jobject P H J codec cast o field compressed w ≡ (done arr, w')
      → (a : A) × (read_field P H J cast o field w ≡ (done a, w'))
        × ((v : World P H)
            → deserialize_to_jobject P H J codec box arr checked compressed class_path v
              ≡ return_jobject P H J (box a) class_path v)
  unfolding deserialize_to_jobject
  deserialize_to_jobject-serialize_from_jobject codec cast box o field class_path checked compressed
        w w' arr arrays laws h =
      invert_serialize codec cast o field compressed w w' arr h λ a bytes read wrote made. (
        a,
        read,
        λ v.
            rw
              (
                arrays.convert_byte_array-from_slice bytes arr made,
                laws.deserialize-serialize a bytes wrote,
              )
              refl,
      )
