-- ===== src/Jni/Poseidon/Updates.antt =====
-- A hash object that Java feeds: com.horizen.poseidonnative in api/src/lib.rs computes the hash of the
-- list of its inputs.
use zendoo_sc_cryptolib.Prelude.{◌≡◌, refl, sym, ap, ◌∙◌, some, List, [], ◌∷◌}
use zendoo_sc_cryptolib.Prelude.Words.{as_u64}
use zendoo_sc_cryptolib.Primitives.{Primitives}
use zendoo_sc_cryptolib.Primitives.Laws.{absorb}
use zendoo_sc_cryptolib.Jni.{
  Handled, Boxed, World, Jvm, Exported, returned, pure, on_call, ffi_export,
}
use zendoo_sc_cryptolib.Jni.Pointer.{as_field_element, as_field_hash, write, return_field_element}
use zendoo_sc_cryptolib.Jni.Invariant.{kind_of}
use zendoo_sc_cryptolib.Jni.Points.{
  Points, after, pointer_in-Points, read_raw_pointer-Points, read_field-Points, write-write,
  write_self, Points-write, Points-write_other,
}
use zendoo_sc_cryptolib.Jni.Poseidon.{native_update, native_finalize}

module _ (P : Primitives) (H : Handled P) (J : Jvm) where
  -- `nativeUpdate` for each of the objects in turn.
  pub update_all : (h_object : J.JObject) (inputs : List J.JObject) → Exported P H (Unit {0})
  update_all h [] w = (returned tt, w)
  update_all h (o ∷ os) w = after (native_update P H J h o w) (λ u. update_all h os)

  -- The objects are those of the field elements.
  abbrev pub Elements : World P H → List J.JObject → List P.FieldElement → Type 0
  Elements w [] [] = Unit {0}
  Elements w [] (x ∷ xs) = ⊥
  Elements w (o ∷ os) [] = ⊥
  Elements w (o ∷ os) (x ∷ xs) =
      Points J w o "fieldElementPointer" (Boxed.field_element x) × Elements w os xs

  abbrev HashAt : World P H → J.JObject → P.FieldHash → Type 0
  HashAt w h d = Points J w h "poseidonHashPointer" (Boxed.field_hash d)

  native_update-step :
      (h o : J.JObject) (d : P.FieldHash) (x : P.FieldElement) (w : World P H) (hash : HashAt w h d)
      → Points J w o "fieldElementPointer" (Boxed.field_element x)
      → native_update P H J h o w
        ≡ (returned tt, write P H w (as_u64 hash.number) (some (Boxed.field_hash (P.update d x))))
  unfolding native_update ffi_export
  native_update-step h o d x w hash input =
      rw
        (
          pointer_in-Points P H J w h _ _ hash,
          read_raw_pointer-Points P H J w h _ _ hash (as_field_hash P H) d refl,
          read_field-Points P H J w o _ _ input (as_field_element P H) x refl,
        )
        refl

  -- Feeding a hash object leaves the inputs as they are.
  Elements-write :
      (h : J.JObject) (d d' : P.FieldHash) (w : World P H) (hash : HashAt w h d)
      (os : List J.JObject) (xs : List P.FieldElement)
      → Elements w os xs
      → Elements (write P H w (as_u64 hash.number) (some (Boxed.field_hash d'))) os xs
  Elements-write h d d' w hash [] [] e = tt
  Elements-write h d d' w hash [] (x ∷ xs) e = e
  Elements-write h d d' w hash (o ∷ os) [] e = e
  Elements-write h d d' w hash (o ∷ os) (x ∷ xs) (input, rest) = (
    Points-write_other P H J w o "fieldElementPointer" (Boxed.field_element x) (as_u64 hash.number)
        (Boxed.field_hash d') input (λ e. cc (e, ap kind_of hash.holds)),
    Elements-write h d d' w hash os xs rest,
  )

  update_all-absorb :
      (h : J.JObject) (os : List J.JObject) (xs : List P.FieldElement) (d : P.FieldHash)
      (w : World P H) (hash : HashAt w h d)
      → Elements w os xs
      → update_all h os w
        ≡ (returned tt, write P H w (as_u64 hash.number) (some (Boxed.field_hash (absorb P d xs))))
  unfolding update_all Points-write
  update_all-absorb h [] [] d w hash e =
      ap (λ (v : World P H). (returned tt, v))
        (sym (write_self P H J w (as_u64 hash.number) (some (Boxed.field_hash d)) hash.holds))
  update_all-absorb h [] (x ∷ xs) d w hash e = absurd e
  update_all-absorb h (o ∷ os) [] d w hash e = absurd e
  update_all-absorb h (o ∷ os) (x ∷ xs) d w hash (input, rest) =
      let p = as_u64 hash.number in
      let fed = Boxed.field_hash (P.update d x) in
      let w' = write P H w p (some fed) in
      rw (native_update-step h o d x w hash input) (
        update_all-absorb h os xs (P.update d x) w'
          (Points-write P H J w h "poseidonHashPointer" (Boxed.field_hash d) fed hash)
          (Elements-write h d (P.update d x) w hash os xs rest)
        ∙ ap (λ (v : World P H). (returned tt, v))
            (write-write P H J w p (some fed)
              (some (Boxed.field_hash (absorb P (P.update d x) xs)))))

  -- A hash object computes the hash of the list that it is fed: `nativeUpdate` for the objects of some
  -- field elements and then `nativeFinalize` give what a method gives that finalises the hasher of the
  -- first state after it has absorbed these elements in order, and boxes the result; nothing but the
  -- hash object has changed before. The handles are live, and no two boxes are of two types.
  pub native_finalize-update_all :
      (h : J.JObject) (os : List J.JObject) (xs : List P.FieldElement) (d : P.FieldHash)
      (w : World P H) (hash : HashAt w h d)
      → Elements w os xs
      → after (update_all h os w) (λ u. native_finalize P H J h)
        ≡ ffi_export P H J J.null
            (on_call (P.finalize (absorb P d xs)) (return_field_element P H J) (pure J.null))
            (write P H w (as_u64 hash.number) (some (Boxed.field_hash (absorb P d xs))))
  unfolding native_finalize ffi_export Points-write
  native_finalize-update_all h os xs d w hash e =
      let fed = Boxed.field_hash (absorb P d xs) in
      let w' = write P H w (as_u64 hash.number) (some fed) in
      rw
        (
          update_all-absorb h os xs d w hash e,
          read_field-Points P H J w' h _ _
              (Points-write P H J w h "poseidonHashPointer" (Boxed.field_hash d) fed hash)
              (as_field_hash P H) (absorb P d xs) refl,
        )
        refl
