-- ===== src/Examples/Machine.antt =====
-- A toy machine whose objects are the addresses that they hold, and toy values behind them.
use zendoo_sc_cryptolib.Prelude.{ℕ, ◌==◌, ◌≡◌, refl, true, false, none, some, [], ◌∷◌, arith}
use zendoo_sc_cryptolib.Prelude.Call.{ok, err, external, str}
use zendoo_sc_cryptolib.Prelude.Words.{pos, as_i64, as_u64}
use zendoo_sc_cryptolib.Jni.{
  Handled, Boxed, World, done, returned, step, any_to_string, Jvm, Codec, value, unwind, ffi_export,
}
use zendoo_sc_cryptolib.Jni.Pointer.{
  fill, as_field_element, read_raw_pointer, read_field, return_jobject,
}
use zendoo_sc_cryptolib.Jni.Export.{
  exception, with_pending, first_exception, Throws, ffi_export-panicked, read_raw_pointer-null,
}
use zendoo_sc_cryptolib.Jni.Handle.{boxed, return_jobject-read_field, fill_lem}
use zendoo_sc_cryptolib.Examples.Toy.{Element, element, toy}

abbrev element_codec : Codec Element
element_codec = record {
  serialize = λ a c. ok (a.0 ∷ []);
  deserialize = λ bytes c d. err (external 2);
}

abbrev number_codec : Codec ℕ
number_codec = record {
  serialize = λ a c. ok (a ∷ []);
  deserialize = λ bytes c d. err (external 2);
}

abbrev pub handled : Handled toy
handled = record {
  GingerMHT = ℕ;
  GingerMHTPath = ℕ;
  CommitmentTree = ℕ;
  ScExistenceProof = ℕ;
  ScAbsenceProof = ℕ;
  field_element_codec = element_codec;
  g2_codec = number_codec;
  scalar_codec = number_codec;
  schnorr_sig_codec = number_codec;
  vrf_proof_codec = record {
    serialize = λ a c. ok [];
    deserialize = λ bytes c d. err (external 2);
  };
  path_codec = number_codec;
  existence_codec = number_codec;
  absence_codec = number_codec;
  is_valid_sig = λ s. true;
  is_valid_vrf_proof = λ p. true;
  is_valid_path = λ p. true;
  get_poseidon_hash_constant_length = λ n p. toy.init_constant_length n p;
  get_poseidon_hash_variable_length = λ b p. toy.init_constant_length 0 p;
  reset_poseidon_hash = λ h p. h;
  new_ginger_mht = λ h s. ok h;
  append_leaf_to_ginger_mht = λ t l. (t, ok tt);
  finalize_ginger_mht = λ t. ok t;
  finalize_ginger_mht_in_place = λ t. (t, ok tt);
  get_ginger_mht_root = λ t. none;
  get_ginger_mht_path = λ t i. none;
  reset_ginger_mht = λ t. t;
  verify_ginger_merkle_path = λ p h l r. ok true;
  verify_ginger_merkle_path_without_length_check = λ p l r. true;
  get_root_from_path = λ p l. l;
  is_path_leftmost = λ p. true;
  is_path_rightmost = λ p. false;
  are_right_leaves_empty = λ p. false;
  get_leaf_index_from_path = λ p. p;
}

abbrev pub machine : Jvm
machine = record {
  JObject = ℕ;
  null = 0;
  is_null = λ o. o == 0;
  get_long = λ o f. value (as_i64 o);
  get_object = λ o f. value o;
  get_array_length = λ o. value 0;
  get_object_array_element = λ o i. value o;
  convert_byte_array = λ o. value (o ∷ []);
  byte_array_from_slice = λ xs. value 9;
  get_string = λ o. value "path";
  call_object = λ o m. value o;
  call_long = λ o m. value (pos 0);
  call_int = λ o m. value (pos 0);
  call_byte = λ o m. value (pos 0);
  find_class = λ s. value 1;
  throw_new = λ c d. value tt;
  new_handle = λ c z. value (as_u64 z);
  new_pair = λ c a b. value a;
  new_result = λ c a q. value a;
  new_object_array = λ n c o. value 9;
  set_object_array_element = λ arr i o. value tt;
  optional_of = λ c o. value o;
  optional_empty = λ c. value 8;
}

abbrev pub world : World toy handled
world = record { pending = none; heap = λ p. none; next = 4096 }

abbrev pub three : Boxed toy handled
three = Boxed.field_element (element 3)

Throws-runtime : Throws toy handled machine "java/lang/RuntimeException"
unfolding Throws
Throws-runtime = (1, refl, λ d. refl)

Throws-null : Throws toy handled machine "java/lang/NullPointerException"
unfolding Throws
Throws-null = (1, refl, λ d. refl)

ffi_export-panicked_example :
    ffi_export toy handled machine {A = ℕ} 0 (unwind (str "out of range")) world ≡ (
      returned 0,
      with_pending world
          (first_exception none (exception "java/lang/RuntimeException" "out of range")),
    )
unfolding any_to_string
ffi_export-panicked_example =
    ffi_export-panicked toy handled machine {A = ℕ} 0 (unwind (str "out of range")) world world
      (str "out of range") Throws-runtime refl

read_raw_pointer-null_example :
    ffi_export toy handled machine 7
      (λ w.
        step
          (read_raw_pointer toy handled machine (as_field_element toy handled) 0 w)
          (λ a v. (done a.0, v)))
      world
    ≡ (
      returned 7,
      with_pending world (exception "java/lang/NullPointerException" "Received null pointer"),
    )
read_raw_pointer-null_example =
    read_raw_pointer-null toy handled machine 7 (as_field_element toy handled)
      (λ a v. (done a.0, v)) world Throws-null Throws-runtime refl

return_jobject-read_field_example :
    (return_jobject toy handled machine three "com/horizen/librustsidechains/FieldElement" world
      ≡ (done 4096, boxed toy handled machine world three))
    × (read_field toy handled machine
          (as_field_element toy handled)
          4096
          "fieldElementPointer"
          (boxed toy handled machine world three)
        ≡ (done (element 3), boxed toy handled machine world three))
return_jobject-read_field_example =
    return_jobject-read_field toy handled machine (as_field_element toy handled) three (element 3)
      "com/horizen/librustsidechains/FieldElement" "fieldElementPointer" 1 4096 world refl
      (omega arith) (omega arith) refl refl refl

fill_lem_example : fill (0 ∷ 0 ∷ 0 ∷ []) (7 ∷ 8 ∷ []) ≡ some (7 ∷ 8 ∷ 0 ∷ [])
fill_lem_example = fill_lem (0 ∷ 0 ∷ 0 ∷ []) (7 ∷ 8 ∷ [])
