-- ===== src/Jni/Pointer.antt =====
-- The helpers at the top of api/src/lib.rs: reading, boxing and freeing values behind pointers, and
-- the byte arrays that carry serialised values. The text of a panic stands without the numbers, the
-- type and the field's name that the source formats into it.
use zendoo_sc_cryptolib.Prelude.{
  ℕ, zero, suc, ◌+◌, Bool, Option, none, some, List, [], ◌∷◌, String, length, ◌==◌, if◌then◌else◌,
}
use zendoo_sc_cryptolib.Prelude.Call.{string}
use zendoo_sc_cryptolib.Prelude.Words.{ℤ, as_u64, as_i64}
use zendoo_sc_cryptolib.Primitives.{Primitives, BackwardTransfer}
use zendoo_sc_cryptolib.Jni.{
  Handled, Boxed, World, Exit, done, Native, Jvm, Codec, ◌>>=◌, pure, unwind, expect, on_call,
  throw_and_exit,
}

-- A typed view of a box: what a pointer to that type may be read as.
abbrev pub Cast : (P : Primitives) → Handled P → Type 0 → Type 0
Cast P H A = Boxed P H → Option A

module _ (P : Primitives) (H : Handled P) where
  abbrev pub as_field_element : Cast P H P.FieldElement
  as_field_element (Boxed.field_element a) = some a
  as_field_element _ = none

  abbrev pub as_g2 : Cast P H P.G2
  as_g2 (Boxed.g2 a) = some a
  as_g2 _ = none

  abbrev pub as_scalar : Cast P H P.ScalarFieldElement
  as_scalar (Boxed.scalar a) = some a
  as_scalar _ = none

  abbrev pub as_schnorr_sig : Cast P H P.SchnorrSig
  as_schnorr_sig (Boxed.schnorr_sig a) = some a
  as_schnorr_sig _ = none

  abbrev pub as_vrf_proof : Cast P H P.VrfProof
  as_vrf_proof (Boxed.vrf_proof a) = some a
  as_vrf_proof _ = none

  abbrev pub as_field_hash : Cast P H P.FieldHash
  as_field_hash (Boxed.field_hash a) = some a
  as_field_hash _ = none

  abbrev pub as_merkle_tree : Cast P H H.GingerMHT
  as_merkle_tree (Boxed.merkle_tree a) = some a
  as_merkle_tree _ = none

  abbrev pub as_merkle_path : Cast P H H.GingerMHTPath
  as_merkle_path (Boxed.merkle_path a) = some a
  as_merkle_path _ = none

  abbrev pub as_commitment_tree : Cast P H H.CommitmentTree
  as_commitment_tree (Boxed.commitment_tree a) = some a
  as_commitment_tree _ = none

  abbrev pub as_existence_proof : Cast P H H.ScExistenceProof
  as_existence_proof (Boxed.existence_proof a) = some a
  as_existence_proof _ = none

  abbrev pub as_absence_proof : Cast P H H.ScAbsenceProof
  as_absence_proof (Boxed.absence_proof a) = some a
  as_absence_proof _ = none

  -- `*ptr`: not defined at an address that holds no box of the type.
  abbrev pub deref : {A : Type 0} → Option A → World P H → Exit A × World P H
  deref none w = (Exit.undefined_behaviour, w)
  deref (some a) w = (done a, w)

  abbrev pub cast_at : {A : Type 0} → Cast P H A → Option (Boxed P H) → Option A
  cast_at cast none = none
  cast_at cast (some b) = cast b

  -- `*ptr = b` for a box that is there, and a box given back
  abbrev pub write : World P H → ℕ → Option (Boxed P H) → World P H
  write w p b = record w { heap = λ q. if q == p then b else w.heap q }

  abbrev pub store : ℕ → Boxed P H → Native P H (Unit {0})
  store p b w = (done tt, write w p (some b))

  -- `drop(Box::from_raw(ptr))`: not defined at an address that holds no box of the type.
  abbrev pub release : {A : Type 0} → ℕ → Option A → World P H → Exit (Unit {0}) × World P H
  release p none w = (Exit.undefined_behaviour, w)
  release p (some a) w = (done tt, write w p none)

  -- `if ptr.is_null() { return; } drop(Box::from_raw(ptr))`
  unfoldable pub free_box : {A : Type 0} → Cast P H A → ℕ → Native P H (Unit {0})
  free_box cast p w = if p == 0 then (done tt, w) else release p (cast_at cast (w.heap p)) w

  -- `Box::into_raw(Box::new(obj)) as i64`
  unfoldable pub into_raw : Boxed P H → Native P H ℤ
  into_raw b w = (done (as_i64 w.next), record (write w w.next (some b)) { next = w.next + 1 })

module _ (P : Primitives) (H : Handled P) (J : Jvm) where
  open J use {
    JObject, null, get_long, find_class, new_handle, convert_byte_array, byte_array_from_slice,
  }

  -- `read_raw_pointer` and `read_mut_raw_pointer`
  unfoldable pub read_raw_pointer : {A : Type 0} → Cast P H A → ℕ → Native P H A
  read_raw_pointer cast p w =
      if p == 0
      then throw_and_exit P H J "java/lang/NullPointerException" "Received null pointer" w
      else deref P H (cast_at P H cast (w.heap p)) w

  -- `read_nullable_raw_pointer(..).copied()`
  unfoldable pub read_nullable_raw_pointer : {A : Type 0} → Cast P H A → ℕ → Native P H (Option A)
  read_nullable_raw_pointer cast p w =
      if p == 0 then (done none, w) else (elim (cast_at P H cast (w.heap p)) [
        | none ↦ (Exit.undefined_behaviour, w)
        | some a ↦ (done (some a), w)
      ])

  -- The address in a field of a Java object.
  unfoldable pub pointer_in : JObject → String → Native P H ℕ
  pointer_in obj field = do
    j ← expect (get_long obj field) "Should be able to get field"
    pure (as_u64 j)

  -- The value that a field of a Java object points to.
  unfoldable pub read_field : {A : Type 0} → Cast P H A → JObject → String → Native P H A
  unfolding pointer_in
  read_field cast obj field = do p ← pointer_in obj field; read_raw_pointer cast p

  -- `return_jobject`
  unfoldable pub return_jobject : Boxed P H → (class_path : String) → Native P H JObject
  return_jobject obj class_path = do
    obj_ptr ← into_raw P H obj
    obj_class ← expect (find_class class_path) "Should be able to find class"
    expect (new_handle obj_class obj_ptr) "Should be able to create new jobject"

  unfoldable pub return_field_element : P.FieldElement → Native P H JObject
  return_field_element fe =
      return_jobject (Boxed.field_element fe) "com/horizen/librustsidechains/FieldElement"

  -- `deserialize_to_jobject`
  unfoldable pub deserialize_to_jobject :
      {A : Type 0}
      → Codec A
      → (A → Boxed P H)
      → (obj_bytes : JObject) → (checked compressed : Option Bool) → (class_path : String)
      → Native P H JObject
  deserialize_to_jobject codec box obj_bytes checked compressed class_path = do
    bytes ← expect (convert_byte_array obj_bytes) "Cannot read bytes."
    on_call (codec.deserialize bytes checked compressed)
        (λ obj. return_jobject (box obj) class_path) (pure null)

  -- `serialize_from_raw_pointer`
  unfoldable pub serialize_from_raw_pointer :
      {A : Type 0}
      → Codec A
      → Cast P H A
      → (to_write : ℕ) → (compressed : Option Bool) → Native P H (List ℕ)
  serialize_from_raw_pointer codec cast to_write compressed = do
    a ← read_raw_pointer cast to_write
    on_call (codec.serialize a compressed) pure (unwind (string "unable to write to buffer"))

  -- `serialize_from_jobject`
  unfoldable pub serialize_from_jobject :
      {A : Type 0}
      → Codec A
      → Cast P H A
      → JObject
      → (ptr_name : String) → (compressed : Option Bool) → Native P H JObject
  unfolding serialize_from_raw_pointer
  serialize_from_jobject codec cast obj ptr_name compressed = do
    j ← expect (get_long obj ptr_name) "Cannot get object raw pointer."
    bytes ← serialize_from_raw_pointer codec cast (as_u64 j) compressed
    expect (byte_array_from_slice bytes) "Cannot write object."

  -- `parse_jbyte_array_to_vec`
  unfoldable pub parse_jbyte_array_to_vec : JObject → (expected : ℕ) → Native P H (List ℕ)
  parse_jbyte_array_to_vec arr expected = do
    vec ← expect (convert_byte_array arr) "Should be able to convert to Rust array"
    if length vec == expected then pure vec else unwind (string "Retrieved array size")

-- The loop of `get_byte_array`: a write beyond the buffer panics, and what is not written stays.
unfoldable pub fill : (buffer vec : List ℕ) → Option (List ℕ)
fill buffer [] = some buffer
fill [] (e ∷ vec) = none
fill (b ∷ buffer) (e ∷ vec) = elim (fill buffer vec) [ none ↦ none | some rest ↦ some (e ∷ rest) ]

module _ (P : Primitives) (H : Handled P) (J : Jvm) where
  -- `get_byte_array`
  unfoldable pub get_byte_array : J.JObject → (buffer : List ℕ) → Native P H (List ℕ)
  get_byte_array arr buffer = do
    vec ← expect (J.convert_byte_array arr) "Should be able to convert to Rust array"
    elim (fill buffer vec) [ none ↦ unwind (string "index out of bounds") | some b ↦ pure b ]

  unfoldable pub read_from :
      {A : Type 0} → J.JObject → (J.JObject → Native P H A) → (i left : ℕ) → Native P H (List A)
  read_from arr each i zero = pure []
  read_from arr each i (suc left) = do
    o ← expect (J.get_object_array_element arr i) "Should be able to get elem of array"
    a ← each o
    rest ← read_from arr each (i + 1) left
    pure (a ∷ rest)

  -- The loops over a Java array: each element in turn, from the first.
  unfoldable pub read_array :
      {A : Type 0} → J.JObject → (J.JObject → Native P H A) → Native P H (List A)
  unfolding read_from
  read_array arr each = do
    size ← expect (J.get_array_length arr) "Should be able to get array size"
    read_from arr each 0 size

  -- An array that is copied into a buffer of a fixed size: `try_into().expect(..)`.
  unfoldable pub read_fixed : (size : ℕ) → J.JObject → Native P H (List ℕ)
  read_fixed size arr = do
    bytes ← expect (J.convert_byte_array arr) "Should be able to convert to Rust byte array"
    if length bytes == size
        then pure bytes
        else unwind (string "Should be able to write into fixed buffer")

  -- One backward transfer of a list: its key hash of 20 bytes, and its amount.
  unfoldable pub read_bt : J.JObject → Native P H BackwardTransfer
  read_bt o = do
    p ← expect (J.call_object o "getPublicKeyHash") "Should be able to call getPublicKeyHash method"
    pk ← read_fixed 20 p
    a ← expect (J.call_long o "getAmount") "Should be able to call getAmount method"
    pure (record { pk_dest = pk; amount = as_u64 a })

  unfoldable pub read_bt_list : J.JObject → Native P H (List BackwardTransfer)
  read_bt_list arr = read_array arr read_bt
