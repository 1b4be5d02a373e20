-- ===== src/Jni.antt =====
-- The Java native interface of api/src/lib.rs and api/src/exception.rs: the state that a native
-- method works on, how it fails, and what the exporting macro makes of a failure. The Java virtual
-- machine and the serialised types are parameters.
pub mod Export
pub mod Invert
pub mod FieldElement
pub mod Schnorr
pub mod Vrf
pub mod Poseidon
pub mod MerklePath
pub mod MerkleTree
pub mod Handle
pub mod Points
pub mod Roundtrip
pub mod CommitmentTree
pub mod SigProof
pub mod ProvingSystem
pub mod Pointer
pub mod Utils
pub mod Invariant
pub mod Defined
pub mod Methods
pub mod Session
use zendoo_sc_cryptolib.Prelude.{
  ℕ, ◌+◌, Bool, true, false, Option, none, some, List, [], ◌∷◌, ◌++◌, String, ◌==◌, if◌then◌else◌,
}
use zendoo_sc_cryptolib.Prelude.Call.{
  Call, ok, err, panic, Error, Payload, str, string, boxed_error, opaque,
}
use zendoo_sc_cryptolib.Prelude.Words.{ℤ}
use zendoo_sc_cryptolib.Primitives.{Primitives}

-- `serialize_to_buffer` and `deserialize_from_buffer` at one type.
pub record Codec (A : Type 0) : Type 0 where
  pub serialize : A → (compressed : Option Bool) → Call (List ℕ)
  pub deserialize : List ℕ → (checked compressed : Option Bool) → Call A

-- The other types of cctp_primitives whose values Java holds, and the codecs.
pub record Handled (P : Primitives) : Type 1 where
  pub GingerMHT : Type 0
  pub GingerMHTPath : Type 0
  pub CommitmentTree : Type 0
  pub ScExistenceProof : Type 0
  pub ScAbsenceProof : Type 0
  pub field_element_codec : Codec P.FieldElement
  pub g2_codec : Codec P.G2
  pub scalar_codec : Codec P.ScalarFieldElement
  pub schnorr_sig_codec : Codec P.SchnorrSig
  pub vrf_proof_codec : Codec P.VrfProof
  pub path_codec : Codec GingerMHTPath
  pub existence_codec : Codec ScExistenceProof
  pub absence_codec : Codec ScAbsenceProof
  -- `is_valid` of `SemanticallyValid`
  pub is_valid_sig : P.SchnorrSig → Bool
  pub is_valid_vrf_proof : P.VrfProof → Bool
  pub is_valid_path : GingerMHTPath → Bool
  -- poseidon_hash: instances, and the operations on one
  pub get_poseidon_hash_constant_length : ℕ → Option (List P.FieldElement) → P.FieldHash
  pub get_poseidon_hash_variable_length : Bool → Option (List P.FieldElement) → P.FieldHash
  pub reset_poseidon_hash : P.FieldHash → Option (List P.FieldElement) → P.FieldHash
  -- mht: a mutating operation gives the tree that it leaves, on an error too
  pub new_ginger_mht : (height processing_step : ℕ) → Call GingerMHT
  pub append_leaf_to_ginger_mht : GingerMHT → P.FieldElement → GingerMHT × Call (Unit {0})
  pub finalize_ginger_mht : GingerMHT → Call GingerMHT
  pub finalize_ginger_mht_in_place : GingerMHT → GingerMHT × Call (Unit {0})
  pub get_ginger_mht_root : GingerMHT → Option P.FieldElement
  pub get_ginger_mht_path : GingerMHT → ℕ → Option GingerMHTPath
  pub reset_ginger_mht : GingerMHT → GingerMHT
  pub verify_ginger_merkle_path :
      GingerMHTPath → (height : ℕ) → (leaf root : P.FieldElement) → Call Bool
  pub verify_ginger_merkle_path_without_length_check :
      GingerMHTPath → (leaf root : P.FieldElement) → Bool
  pub get_root_from_path : GingerMHTPath → P.FieldElement → P.FieldElement
  pub is_path_leftmost : GingerMHTPath → Bool
  pub is_path_rightmost : GingerMHTPath → Bool
  pub are_right_leaves_empty : GingerMHTPath → Bool
  pub get_leaf_index_from_path : GingerMHTPath → ℕ

-- A value behind a raw pointer, with its Rust type.
pub data Boxed (P : Primitives) (H : Handled P) : Type 0 where
  field_element : P.FieldElement → Boxed P H
  g2 : P.G2 → Boxed P H
  scalar : P.ScalarFieldElement → Boxed P H
  schnorr_sig : P.SchnorrSig → Boxed P H
  vrf_proof : P.VrfProof → Boxed P H
  field_hash : P.FieldHash → Boxed P H
  merkle_tree : H.GingerMHT → Boxed P H
  merkle_path : H.GingerMHTPath → Boxed P H
  commitment_tree : H.CommitmentTree → Boxed P H
  existence_proof : H.ScExistenceProof → Boxed P H
  absence_proof : H.ScAbsenceProof → Boxed P H

pub record Exception : Type 0 where
  pub class : String
  pub description : String

-- What a native method sees: the exception that Java has pending, and the boxes by address. Fresh
-- boxes go to `next`, and an address is not used twice.
pub record World (P : Primitives) (H : Handled P) : Type 0 where
  pub pending : Option Exception
  pub heap : ℕ → Option (Boxed P H)
  pub next : ℕ

-- How Rust code ends: with a value, by unwinding, or not in a defined way.
pub data Exit (A : Type 0) : Type 0 where
  done : A → Exit A
  panicked : Payload → Exit A
  undefined_behaviour : Exit A

-- What Java sees of an exported function.
pub data Returned (A : Type 0) : Type 0 where
  returned : A → Returned A
  aborted : Returned A
  undefined_behaviour : Returned A

-- A result of the JNI: a failure may leave a Java exception pending.
pub data JResult {ℓ} (A : Type ℓ) : Type ℓ where
  value : A → JResult A
  fault : Option Exception → JResult A

-- The virtual machine. Java objects, arrays, strings and classes are all references.
pub record Jvm : Type 1 where
  pub JObject : Type 0
  pub null : JObject
  pub is_null : JObject → Bool
  -- `get_field(obj, name, "J")`, and of an object type
  pub get_long : JObject → String → JResult ℤ
  pub get_object : JObject → String → JResult JObject
  pub get_array_length : JObject → JResult ℕ
  pub get_object_array_element : JObject → ℕ → JResult JObject
  pub convert_byte_array : JObject → JResult (List ℕ)
  pub byte_array_from_slice : List ℕ → JResult JObject
  pub get_string : JObject → JResult String
  -- `call_method` of a getter, by the type of its result
  pub call_object : JObject → String → JResult JObject
  pub call_long : JObject → String → JResult ℤ
  pub call_int : JObject → String → JResult ℤ
  pub call_byte : JObject → String → JResult ℤ
  pub find_class : String → JResult JObject
  pub throw_new : JObject → String → JResult (Unit {0})
  -- `new_object(class, "(J)V", ..)`, with two objects, and with an object and a long
  pub new_handle : JObject → ℤ → JResult JObject
  pub new_pair : JObject → JObject → JObject → JResult JObject
  pub new_result : JObject → JObject → ℤ → JResult JObject
  -- an array of objects of a class, a write to one, and `Optional.of`, `Optional.empty`
  pub new_object_array : (length : ℤ) → (class initial : JObject) → JResult JObject
  pub set_object_array_element : JObject → (index : ℤ) → JObject → JResult (Unit {0})
  pub optional_of : JObject → JObject → JResult JObject
  pub optional_empty : JObject → JResult JObject

module _ {P : Primitives} {H : Handled P} where
  abbrev pub step :
      {A B : Type 0}
      → Exit A × World P H
      → (A → World P H → Exit B × World P H)
      → Exit B × World P H
  step (done a, w) f = f a w
  step (panicked p, w) f = (panicked p, w)
  step (Exit.undefined_behaviour, w) f = (Exit.undefined_behaviour, w)

  -- A new exception, or else the one that was pending.
  abbrev pub raise : Option Exception → World P H → World P H
  raise none w = w
  raise (some e) w = record w { pending = some e }

abbrev pub Native : (P : Primitives) → Handled P → Type 0 → Type 0
Native P H A = World P H → Exit A × World P H

abbrev pub Exported : (P : Primitives) → Handled P → Type 0 → Type 0
Exported P H A = World P H → Returned A × World P H

infixl 5 ◌>>=◌ ◌>>◌
abbrev pub ◌>>=◌ :
    {P : Primitives} {H : Handled P} {A B : Type 0}
    → Native P H A
    → (A → Native P H B)
    → Native P H B
◌>>=◌ m f w = step (m w) f

abbrev pub ◌>>◌ :
    {P : Primitives} {H : Handled P} {B : Type 0}
    → Native P H (Unit {0})
    → Native P H B
    → Native P H B
m >> k = m >>= λ _. k

module _ {P : Primitives} {H : Handled P} {A : Type 0} where
  abbrev pub pure : A → Native P H A
  pure a w = (done a, w)

  -- `panic!`
  abbrev pub unwind : Payload → Native P H A
  unwind p w = (panicked p, w)

  -- `.expect(message)` on a result of the JNI
  abbrev pub expect : JResult A → String → Native P H A
  expect (value a) message w = (done a, w)
  expect (fault e) message w = (panicked (string message), raise e w)

  -- A library call: `?`-less, with a handler for the error.
  abbrev pub on_call : {B : Type 0} → Call B → (B → Native P H A) → Native P H A → Native P H A
  on_call (ok b) f g = f b
  on_call (err e) f g = g
  on_call (panic p) f g = unwind p

-- `any_to_string`
unfoldable pub any_to_string : Payload → String
any_to_string (str s) = s
any_to_string (string s) = s
any_to_string (boxed_error s) = s
any_to_string opaque = "Unknown error occurred"

module _ (P : Primitives) (H : Handled P) (J : Jvm) where
  open J use {find_class, throw_new}

  throw_class : JResult J.JObject → (exception description : String) → Native P H (Unit {0})
  throw_class (fault e) exception description w =
      (panicked (string "Unable to find class"), raise e w)
  throw_class (value c) exception description w = elim (throw_new c description) [
    | value u ↦ (
      done tt,
      record w { pending = some (record { class = exception; description = description }) },
    )
    | fault e ↦ (panicked (string "Should be able to throw"), raise e w)
  ]

  -- `_throw_inner`: a pending exception is kept.
  unfoldable pub throw_inner : (exception description : String) → Native P H (Unit {0})
  unfolding throw_class
  throw_inner exception description w = elim w.pending [
    | none ↦ throw_class (find_class exception) exception description w
    | some e ↦ (done tt, w)
  ]

  -- `throw_and_exit!`
  unfoldable pub throw_and_exit : {A : Type 0} → (exception description : String) → Native P H A
  throw_and_exit exception description =
      throw_inner exception description >> unwind (string "Thrown exception")

  -- The second `catch_unwind` of `ffi_export!`, around `throw!`.
  after_throw : {A : Type 0} → A → Exit (Unit {0}) × World P H → Returned A × World P H
  after_throw default (done u, w) = (returned default, w)
  after_throw default (panicked p, w) = (aborted, w)
  after_throw default (Exit.undefined_behaviour, w) = (Returned.undefined_behaviour, w)

  -- The first `catch_unwind` of `ffi_export!`.
  catch_unwind : {A : Type 0} → A → Exit A × World P H → Returned A × World P H
  catch_unwind default (done a, w) = (returned a, w)
  catch_unwind default (panicked p, w) =
      after_throw default (throw_inner "java/lang/RuntimeException" (any_to_string p) w)
  catch_unwind default (Exit.undefined_behaviour, w) = (Returned.undefined_behaviour, w)

  -- `ffi_export!`, with the default of the return type: null, false, zero or nothing.
  unfoldable pub ffi_export : {A : Type 0} → A → Native P H A → Exported P H A
  unfolding catch_unwind after_throw
  ffi_export default body w = catch_unwind default (body w)
