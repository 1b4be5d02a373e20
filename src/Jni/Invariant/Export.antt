-- ===== src/Jni/Invariant/Export.antt =====
-- `ffi_export!` of api/src/exception.rs and the mutated boxes of api/src/lib.rs: the last of the rules,
-- and the set of all of them.
use zendoo_sc_cryptolib.Prelude.{ℕ, ◌≡◌, refl}
use zendoo_sc_cryptolib.Primitives.{Primitives}
use zendoo_sc_cryptolib.Jni.{
  Handled, World, Exit, done, panicked, Native, Exported, Returned, returned, aborted, Jvm, ◌>>=◌,
  throw_inner, any_to_string, after_throw, catch_unwind, ffi_export,
}
use zendoo_sc_cryptolib.Jni.Pointer.{
  as_field_hash, as_merkle_tree, as_commitment_tree, read_raw_pointer,
}
use zendoo_sc_cryptolib.Jni.Invariant.{
  a_hash, a_merkle_tree, a_commitment_tree, IsNext, Keeps, KeepsAt, ExportKeeps, CallKeeps, outcome,
  made,
}
use zendoo_sc_cryptolib.Jni.Invariant.Reads.{
  throw_inner-Quiet, pointer_in-Quiet, read_field-Quiet, serialize_from_jobject-Quiet,
  parse_jbyte_array_to_vec-Quiet, get_byte_array-Quiet, read_array-Quiet, read_fixed-Quiet,
  read_bt_list-Quiet, read_nullable_raw_pointer-Quiet,
}
use zendoo_sc_cryptolib.Jni.Invariant.Rules.{
  IsNext-trans, Quiet-Keeps, read_raw_pointer-bind, read-bind, store-bind, store-KeepsAt,
}
use zendoo_sc_cryptolib.Jni.Invariant.Boxes.{
  keeping, into_raw-Keeps, return_jobject-Keeps, return_field_element-Keeps, free_box-Keeps,
  deserialize_to_jobject-Keeps, hash-IsCast, tree-IsCast, commitment-IsCast,
}

module _ (P : Primitives) (H : Handled P) (J : Jvm) where
  after-IsNext :
      {owned : ℕ} {A : Type 0} (default : A) (w : World P H) (r : Exit (Unit {0}) × World P H)
      → IsNext owned w r.1
      → IsNext owned w (after_throw P H J default r).1
  unfolding after_throw
  after-IsNext default w (done u, v) n = n
  after-IsNext default w (panicked p, v) n = n
  after-IsNext default w (Exit.undefined_behaviour, v) n = n

  catch-IsNext :
      {owned : ℕ} {A : Type 0} (default : A) (w : World P H) (r : Exit A × World P H)
      → IsNext owned w r.1
      → IsNext owned w (catch_unwind P H J default r).1
  unfolding catch_unwind
  catch-IsNext default w (done a, v) n = n
  catch-IsNext default w (panicked p, v) n =
      after-IsNext default w (throw_inner P H J "java/lang/RuntimeException" (any_to_string p) v) (
        IsNext-trans w v _ n (
          (Quiet-Keeps (throw_inner-Quiet P H J "java/lang/RuntimeException" (any_to_string p))).at
            v n.well_formed))
  catch-IsNext default w (Exit.undefined_behaviour, v) n = n

  -- `ffi_export!` keeps what the body keeps, whether it ends with a value or with a panic.
  pub ffi_export-IsNext :
      {owned : ℕ} {A : Type 0} (default : A) (body : Native P H A) (w : World P H)
      → IsNext owned w (body w).1
      → IsNext owned w (ffi_export P H J default body w).1
  unfolding ffi_export
  ffi_export-IsNext default body w n = catch-IsNext default w (body w) n

  pub ffi_export-ExportKeeps :
      {owned : ℕ} {A : Type 0} (default : A) (body : Native P H A)
      → Keeps owned body
      → ExportKeeps owned (ffi_export P H J default body)
  ffi_export-ExportKeeps default body k = record {
    at = λ w h. ffi_export-IsNext default body w (k.at w h);
  }

  pub hash-bind :
      {owned : ℕ} {B : Type 0} (p : ℕ) (f : P.FieldHash → Native P H B)
      → ((a : P.FieldHash) → KeepsAt owned p a_hash (f a))
      → Keeps owned (read_raw_pointer P H J (as_field_hash P H) p >>= f)
  hash-bind p f k = read_raw_pointer-bind P H J (as_field_hash P H) a_hash p f (hash-IsCast P H) k

  pub tree-bind :
      {owned : ℕ} {B : Type 0} (p : ℕ) (f : H.GingerMHT → Native P H B)
      → ((a : H.GingerMHT) → KeepsAt owned p a_merkle_tree (f a))
      → Keeps owned (read_raw_pointer P H J (as_merkle_tree P H) p >>= f)
  tree-bind p f k =
      read_raw_pointer-bind P H J (as_merkle_tree P H) a_merkle_tree p f (tree-IsCast P H) k

  pub commitment-bind :
      {owned : ℕ} {B : Type 0} (p : ℕ) (f : H.CommitmentTree → Native P H B)
      → ((a : H.CommitmentTree) → KeepsAt owned p a_commitment_tree (f a))
      → Keeps owned (read_raw_pointer P H J (as_commitment_tree P H) p >>= f)
  commitment-bind p f k =
      read_raw_pointer-bind P H J (as_commitment_tree P H) a_commitment_tree p f
        (commitment-IsCast P H) k

  pub ruleset exported = (
    ffi_export-ExportKeeps, hash-bind, tree-bind, commitment-bind, store-KeepsAt, store-bind,
    read-bind, keeping, pointer_in-Quiet, read_field-Quiet, serialize_from_jobject-Quiet,
    parse_jbyte_array_to_vec-Quiet, get_byte_array-Quiet, read_array-Quiet, read_fixed-Quiet,
    read_bt_list-Quiet, read_nullable_raw_pointer-Quiet, into_raw-Keeps, return_jobject-Keeps,
    return_field_element-Keeps, free_box-Keeps, deserialize_to_jobject-Keeps,
  )

module _ {P : Primitives} {H : Handled P} where
  outcome-world : {A : Type 0} (r : Returned A × World P H) → (outcome r).1 ≡ r.1
  unfolding outcome
  outcome-world (returned a, w) = refl
  outcome-world (aborted, w) = refl
  outcome-world (Returned.undefined_behaviour, w) = refl

  pub made-CallKeeps :
      {owned : ℕ} {A : Type 0} {m : Exported P H A} → ExportKeeps owned m → CallKeeps owned (made m)
  unfolding made
  made-CallKeeps {m = m} k = record { at = λ w h. rw (outcome-world (m w)) (k.at w h) }
