-- ===== src/Examples/Objects.antt =====
-- Objects of the toy machine that live through several calls: a hash object, a tree, and an element
-- that goes to bytes and back.
use zendoo_sc_cryptolib.Prelude.{
  ℕ, ◌^◌, ◌≤◌, ◌<◌, ◌≡◌, refl, ap, ◌∙◌, none, some, List, [], ◌∷◌, arith,
}
use native.Mathlib.Nat.{mod-eq_of_lt}
use zendoo_sc_cryptolib.Prelude.Call.{Call, ok, err, external}
use zendoo_sc_cryptolib.Prelude.Words.{pos}
use zendoo_sc_cryptolib.Prelude.Log.{log_max_pks, log_max_pks-least}
use zendoo_sc_cryptolib.Primitives.Laws.{absorb}
use zendoo_sc_cryptolib.Jni.{
  Boxed, World, done, returned, Jvm, JResult, value, fault, Codec, pure, on_call, ffi_export,
}
use zendoo_sc_cryptolib.Jni.Pointer.{
  as_field_element, write, read_field, return_field_element, return_jobject, deserialize_to_jobject,
  serialize_from_raw_pointer, serialize_from_jobject, pointer_in, read_raw_pointer,
}
use zendoo_sc_cryptolib.Jni.Handle.{boxed}
use zendoo_sc_cryptolib.Jni.Points.{Points, after}
use zendoo_sc_cryptolib.Jni.Poseidon.{native_finalize}
use zendoo_sc_cryptolib.Jni.Poseidon.Updates.{update_all, native_finalize-update_all}
use zendoo_sc_cryptolib.Jni.MerkleTree.Operations.{
  append, finalize_in_place, reset, tree_after, run_all, with_tree, run_all-tree_after,
}
use zendoo_sc_cryptolib.Jni.Roundtrip.{
  ArrayLaws, CodecLaws, deserialize_to_jobject-serialize_from_jobject,
}
use zendoo_sc_cryptolib.Examples.Toy.{Element, element, element-eq, Hasher, toy}
use zendoo_sc_cryptolib.Examples.Machine.{handled, machine, world, three}

log_max_pks-least_example :
    (6 ≤ 2 ^ log_max_pks 6) × ((i : ℕ) → i < log_max_pks 6 → 2 ^ i < 6) × (log_max_pks 6 ≤ 64)
log_max_pks-least_example = log_max_pks-least 6 (omega arith)

-- The box `b` at 4096, and an element at 4104.
abbrev holding : Boxed toy handled → World toy handled
holding b =
    write toy handled (write toy handled world 4104 (some (Boxed.field_element (element 5)))) 4096
      (some b)

abbrev two_inputs : Hasher
two_inputs = (2, 0, 1)

abbrev hashing : World toy handled
hashing = holding (Boxed.field_hash two_inputs)

abbrev at_hash : Points machine hashing 4096 "poseidonHashPointer" (Boxed.field_hash two_inputs)
at_hash = record { number = pos 4096; in_field = refl; not_null = omega arith; holds = refl }

abbrev at_input :
    Points machine hashing 4104 "fieldElementPointer" (Boxed.field_element (element 5))
at_input = record { number = pos 4104; in_field = refl; not_null = omega arith; holds = refl }

native_finalize-update_all_example :
    after
      (update_all toy handled machine 4096 (4104 ∷ 4104 ∷ []) hashing)
      (λ u. native_finalize toy handled machine 4096)
    ≡ ffi_export toy handled machine 0
        (on_call
          (toy.finalize (absorb toy two_inputs (element 5 ∷ element 5 ∷ [])))
          (return_field_element toy handled machine)
          (pure 0))
        (write toy handled hashing 4096
          (some (Boxed.field_hash (absorb toy two_inputs (element 5 ∷ element 5 ∷ [])))))
native_finalize-update_all_example =
    native_finalize-update_all toy handled machine 4096 (4104 ∷ 4104 ∷ [])
      (element 5 ∷ element 5 ∷ []) two_inputs hashing at_hash (at_input, (at_input, tt))

abbrev planted : World toy handled
planted = holding (Boxed.merkle_tree 7)

abbrev at_tree :
    Points machine planted 4096 "inMemoryOptimizedMerkleTreePointer" (Boxed.merkle_tree 7)
at_tree = record { number = pos 4096; in_field = refl; not_null = omega arith; holds = refl }

abbrev at_leaf : Points machine planted 4104 "fieldElementPointer" (Boxed.field_element (element 5))
at_leaf = record { number = pos 4104; in_field = refl; not_null = omega arith; holds = refl }

answers :
    tree_after toy handled (append (element 5) ∷ finalize_in_place ∷ reset ∷ []) 7
    ≡ some (7, 1 ∷ 1 ∷ [])
unfolding tree_after
answers = refl

run_all-tree_after_example :
    run_all toy handled machine 4096 (append 4104 ∷ finalize_in_place ∷ reset ∷ []) planted
    ≡ (returned (1 ∷ 1 ∷ []), with_tree toy handled machine planted 4096 7 at_tree 7)
run_all-tree_after_example =
    run_all-tree_after toy handled machine 4096 (append 4104 ∷ finalize_in_place ∷ reset ∷ [])
      (append (element 5) ∷ finalize_in_place ∷ reset ∷ []) 7 7 (1 ∷ 1 ∷ []) planted at_tree
      (at_leaf, tt) answers

-- The machine that has room for arrays of one byte, which are that byte.
abbrev pub array_of : List ℕ → JResult ℕ
array_of [] = fault none
array_of (b ∷ []) = value b
array_of (b ∷ c ∷ bs) = fault none

abbrev one_byte : Jvm
one_byte = record machine { byte_array_from_slice = array_of }

abbrev read_element : List ℕ → Call Element
read_element [] = err (external 2)
read_element (b ∷ bs) = ok (element b)

abbrev byte_codec : Codec Element
byte_codec = record {
  serialize = λ a c. ok (a.0 ∷ []);
  deserialize = λ bytes c d. read_element bytes;
}

pub array_of-read : (bytes : List ℕ) (o : ℕ) → array_of bytes ≡ value o → o ∷ [] ≡ bytes
array_of-read [] o h = cc
array_of-read (b ∷ []) o h = cc
array_of-read (b ∷ c ∷ bs) o h = cc

one_byte-ArrayLaws : ArrayLaws one_byte
one_byte-ArrayLaws = record {
  convert_byte_array-from_slice = λ bytes o h. ap value (array_of-read bytes o h);
}

byte_codec-CodecLaws : CodecLaws byte_codec none none
byte_codec-CodecLaws = record { deserialize-serialize = λ a bytes h. read_back a bytes h }
  where
    read_back :
        (a : Element) (bytes : List ℕ)
        → ◌≡◌ {A = Call (List ℕ)} (ok (a.0 ∷ [])) (ok bytes)
        → read_element bytes ≡ ok a
    read_back a [] h = cc
    read_back a (b ∷ bs) h =
        ap ok (element-eq (element b) a (ap (λ (n : ℕ). (element n).0) same ∙ mod-eq_of_lt a.1))
      where
        same : b ≡ a.0
        same = cc

abbrev three_at : World toy handled
three_at = boxed toy handled machine world three

written :
    serialize_from_jobject toy handled one_byte byte_codec
      (as_field_element toy handled)
      4096
      "fieldElementPointer"
      none
      three_at
    ≡ (done 3, three_at)
unfolding serialize_from_jobject serialize_from_raw_pointer read_field pointer_in read_raw_pointer
written = refl

deserialize_to_jobject-serialize_from_jobject_example :
    (a : Element) × (read_field toy handled one_byte
        (as_field_element toy handled)
        4096
        "fieldElementPointer"
        three_at
      ≡ (done a, three_at))
    × ((v : World toy handled)
        → deserialize_to_jobject toy handled one_byte byte_codec Boxed.field_element 3 none none
            "com/horizen/librustsidechains/FieldElement" v
          ≡ return_jobject toy handled one_byte
              (Boxed.field_element a)
              "com/horizen/librustsidechains/FieldElement"
              v)
deserialize_to_jobject-serialize_from_jobject_example =
    deserialize_to_jobject-serialize_from_jobject toy handled one_byte byte_codec
      (as_field_element toy handled) Boxed.field_element 4096 "fieldElementPointer"
      "com/horizen/librustsidechains/FieldElement" none none three_at three_at 3 one_byte-ArrayLaws
      byte_codec-CodecLaws written
