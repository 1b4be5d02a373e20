-- ===== src/Jni/Defined/Parts.antt =====
-- The helpers of api/src/lib.rs: when each is defined.
use zendoo_sc_cryptolib.Prelude.{ℕ, zero, suc, ◌+◌, Bool, Option, none, some, List, [], String}
use zendoo_sc_cryptolib.Prelude.Call.{string}
use zendoo_sc_cryptolib.Primitives.{Primitives}
use zendoo_sc_cryptolib.Jni.{Handled, Boxed, Native, Jvm, Codec, pure, unwind}
use zendoo_sc_cryptolib.Jni.Pointer.{
  Cast, read_field, return_jobject, return_field_element, deserialize_to_jobject,
  serialize_from_raw_pointer, serialize_from_jobject, parse_jbyte_array_to_vec, fill,
  get_byte_array, read_array, read_from, read_fixed, read_bt, read_bt_list,
}
use zendoo_sc_cryptolib.Jni.Invariant.{Quiet}
use zendoo_sc_cryptolib.Jni.Invariant.Reads.{
  reading, pure-Quiet, expect-Quiet, pointer_in-Quiet, read_field-Quiet,
  serialize_from_jobject-Quiet, read_nullable_raw_pointer-Quiet, parse_jbyte_array_to_vec-Quiet,
  get_byte_array-Quiet, read_from-Quiet, read_array-Quiet, read_fixed-Quiet, read_bt_list-Quiet,
}
use zendoo_sc_cryptolib.Prelude.Words.{as_u64}
use zendoo_sc_cryptolib.Jni.Invariant.Reads.{read_raw_pointer-Quiet}
use zendoo_sc_cryptolib.Jni.Invariant.Parts.{serialize_from_raw_pointer-Quiet}
use zendoo_sc_cryptolib.Jni.Defined.{Total, Safe, SafeAt, IsField}
use zendoo_sc_cryptolib.Jni.Defined.Rules.{
  pure-Total, unwind-Total, expect-Total, if-Total, if-Safe, Total-Safe, Safe-SafeAt, on_call-Total,
  bind-Total, bind-Safe, bind-SafeAt, on_call-Safe, pointer_in-Safe, get_long-Safe,
  throw_inner-Total, throw_and_exit-Total, into_raw-Total, store-Total,
}
use zendoo_sc_cryptolib.Jni.Defined.Fields.{
  read_raw_pointer-SafeAt, read_nullable_raw_pointer-SafeAt, free_box-SafeAt, element-IsField,
  g2-IsField, scalar-IsField, signature-IsField, vrf_proof-IsField, hash-IsField,
  merkle_tree-IsField, merkle_path-IsField, commitment_tree-IsField, existence_proof-IsField,
  absence_proof-IsField,
}

pub ruleset total = (
  pure-Total, unwind-Total, expect-Total, if-Total, on_call-Total, bind-Total, throw_inner-Total,
  throw_and_exit-Total, into_raw-Total, store-Total,
)

module _ (P : Primitives) (H : Handled P) (J : Jvm) where
  pub return_jobject-Total :
      (b : Boxed P H) (class_path : String) → Total (return_jobject P H J b class_path)
  unfolding return_jobject
  return_jobject-Total b class_path = search total

  pub return_field_element-Total : (fe : P.FieldElement) → Total (return_field_element P H J fe)
  unfolding return_field_element
  return_field_element-Total fe = return_jobject-Total _ _

  pub deserialize_to_jobject-Total :
      {A : Type 0} (codec : Codec A) (box : A → Boxed P H) (bytes : J.JObject)
      (checked compressed : Option Bool) (class_path : String)
      → Total (deserialize_to_jobject P H J codec box bytes checked compressed class_path)
  unfolding deserialize_to_jobject
  deserialize_to_jobject-Total codec box bytes checked compressed class_path =
      search (total, return_jobject-Total)

  pub parse_jbyte_array_to_vec-Total :
      (arr : J.JObject) (expected : ℕ) → Total (parse_jbyte_array_to_vec P H J arr expected)
  unfolding parse_jbyte_array_to_vec
  parse_jbyte_array_to_vec-Total arr expected = search total

  pub get_byte_array-Total :
      (arr : J.JObject) (buffer : List ℕ) → Total (get_byte_array P H J arr buffer)
  unfolding get_byte_array
  get_byte_array-Total arr buffer =
      bind-Total _ _ (expect-Total _ _) λ vec. filled (fill buffer vec)
    where
      filled :
          (r : Option (List ℕ))
          → Total {P = P} {H = H} {A = List ℕ}
              (elim r [ none ↦ unwind (string "index out of bounds") | some b ↦ pure b ])
      filled none = unwind-Total _
      filled (some b) = pure-Total b

  pub read_fixed-Total : (size : ℕ) (arr : J.JObject) → Total (read_fixed P H J size arr)
  unfolding read_fixed
  read_fixed-Total size arr = search total

  read_bt-Total : (o : J.JObject) → Total (read_bt P H J o)
  unfolding read_bt
  read_bt-Total o = search (total, read_fixed-Total)

  module _ {A : Type 0} where
    read_from-Total :
        (arr : J.JObject) (each : J.JObject → Native P H A) (i left : ℕ)
        → ((o : J.JObject) → Total (each o))
        → Total (read_from P H J arr each i left)
    unfolding read_from
    read_from-Total arr each i zero q = pure-Total []
    read_from-Total arr each i (suc left) q = bind-Total _ _ (expect-Total _ _) λ o.
        bind-Total _ _ (q o)
          λ a. bind-Total _ _ (read_from-Total arr each (i + 1) left q) λ rest. pure-Total _

    pub read_array-Total :
        (arr : J.JObject) (each : J.JObject → Native P H A)
        → ((o : J.JObject) → Total (each o))
        → Total (read_array P H J arr each)
    unfolding read_array
    read_array-Total arr each q = search (total, q, read_from-Total)

    read_from-Safe :
        (arr : J.JObject) (each : J.JObject → Native P H A) (i left : ℕ)
        → ((o : J.JObject) → Quiet (each o))
        → ((o : J.JObject) → Safe J (each o))
        → Safe J (read_from P H J arr each i left)
    unfolding read_from
    read_from-Safe arr each i zero q s = Total-Safe J _ (pure-Total [])
    read_from-Safe arr each i (suc left) q s =
        bind-Safe J _ _ (expect-Quiet _ _) (Total-Safe J _ (expect-Total _ _)) λ o.
          bind-Safe J _ _ (q o) (s o) λ a.
            bind-Safe J _ _ (read_from-Quiet P H J arr each (i + 1) left q)
              (read_from-Safe arr each (i + 1) left q s) λ rest. Total-Safe J _ (pure-Total _)

    pub read_array-Safe :
        (arr : J.JObject) (each : J.JObject → Native P H A)
        → ((o : J.JObject) → Quiet (each o))
        → ((o : J.JObject) → Safe J (each o))
        → Safe J (read_array P H J arr each)
    unfolding read_array
    read_array-Safe arr each q s =
        bind-Safe J _ _ (expect-Quiet _ _) (Total-Safe J _ (expect-Total _ _))
          λ size. read_from-Safe arr each 0 size q s

  pub read_bt_list-Total : (arr : J.JObject) → Total (read_bt_list P H J arr)
  unfolding read_bt_list
  read_bt_list-Total arr = read_array-Total arr (read_bt P H J) read_bt-Total

  module _ {A : Type 0} where
    pub read_field-Safe :
        (cast : Cast P H A) (o : J.JObject) (field : String)
        → IsField cast field
        → Safe J (read_field P H J cast o field)
    unfolding read_field
    read_field-Safe cast o field k =
        pointer_in-Safe J o field _ λ p. read_raw_pointer-SafeAt P H J cast field p k

    pub serialize_from_raw_pointer-SafeAt :
        (codec : Codec A) (cast : Cast P H A) (field : String) (p : ℕ) (compressed : Option Bool)
        → IsField cast field
        → SafeAt J p field (serialize_from_raw_pointer P H J codec cast p compressed)
    unfolding serialize_from_raw_pointer
    serialize_from_raw_pointer-SafeAt codec cast field p compressed k =
        bind-SafeAt J p field _ _ (read_raw_pointer-Quiet P H J cast p)
          (read_raw_pointer-SafeAt P H J cast field p k)
          λ a. Safe-SafeAt J p field _ (Total-Safe J _ (search total))

    pub serialize_from_jobject-Safe :
        (codec : Codec A) (cast : Cast P H A) (o : J.JObject) (field : String)
        (compressed : Option Bool)
        → IsField cast field
        → Safe J (serialize_from_jobject P H J codec cast o field compressed)
    unfolding serialize_from_jobject
    serialize_from_jobject-Safe codec cast o field compressed k = get_long-Safe J o field _ _ λ j.
        bind-SafeAt J (as_u64 j) field _ _
          (serialize_from_raw_pointer-Quiet P H J codec cast (as_u64 j) compressed)
          (serialize_from_raw_pointer-SafeAt codec cast field (as_u64 j) compressed k)
          λ bytes. Safe-SafeAt J (as_u64 j) field _ (Total-Safe J _ (expect-Total _ _))

  pub ruleset defined = (
    total, return_jobject-Total, return_field_element-Total, deserialize_to_jobject-Total,
    parse_jbyte_array_to_vec-Total, get_byte_array-Total, read_fixed-Total, read_bt_list-Total,
    read_array-Safe, read_field-Safe, serialize_from_raw_pointer-SafeAt,
    serialize_from_jobject-Safe, if-Safe, Total-Safe, Safe-SafeAt, bind-Safe, bind-SafeAt,
    on_call-Safe, pointer_in-Safe, read_raw_pointer-SafeAt, read_nullable_raw_pointer-SafeAt,
    free_box-SafeAt, element-IsField, g2-IsField, scalar-IsField, signature-IsField,
    vrf_proof-IsField, hash-IsField, merkle_tree-IsField, merkle_path-IsField,
    commitment_tree-IsField, existence_proof-IsField, absence_proof-IsField, reading,
    pointer_in-Quiet, read_field-Quiet, serialize_from_jobject-Quiet,
    serialize_from_raw_pointer-Quiet, read_nullable_raw_pointer-Quiet,
    parse_jbyte_array_to_vec-Quiet, get_byte_array-Quiet, read_array-Quiet, read_fixed-Quiet,
    read_bt_list-Quiet,
  )
