-- ===== src/Jni/MerklePath/Verified.antt =====
-- What `JNI_TRUE` of MerklePath.nativeVerify, in api/src/lib.rs, stands for.
use zendoo_sc_cryptolib.Prelude.{
  ℕ, ◌≡◌, ◌∙◌, ap, refl, arith, Bool, true, false, not, if◌then◌else◌,
}
use zendoo_sc_cryptolib.Prelude.Call.{ok}
use zendoo_sc_cryptolib.Prelude.Words.{ℤ, as_u64}
use zendoo_sc_cryptolib.Primitives.{Primitives}
use zendoo_sc_cryptolib.Jni.{Handled, World, done, returned, Native, Jvm, pure}
use zendoo_sc_cryptolib.Jni.Invert.{invert_step, answer_true, ffi_export-positive}
use zendoo_sc_cryptolib.Jni.MerklePath.{native_verify}
use zendoo_sc_cryptolib.Jni.Pointer.{as_field_element, as_merkle_path, read_field}

module _ (P : Primitives) (H : Handled P) (J : Jvm) where
  -- The three handles were read, and the valid path leads from the leaf to the root.
  pub data IsVerifiedPath (path_object : J.JObject) (height : ℤ)
      (leaf_object root_object : J.JObject) (w w' : World P H) : Type 0 where
    verified_path :
        (leaf root : P.FieldElement) (path : H.GingerMHTPath) (w1 w2 : World P H)
        → read_field P H J (as_field_element P H) leaf_object "fieldElementPointer" w
          ≡ (done leaf, w1)
        → read_field P H J (as_field_element P H) root_object "fieldElementPointer" w1
          ≡ (done root, w2)
        → read_field P H J (as_merkle_path P H) path_object "merklePathPointer" w2 ≡ (done path, w')
        → H.is_valid_path path ≡ true
        → H.verify_ginger_merkle_path path (as_u64 height) leaf root ≡ ok true
        → IsVerifiedPath path_object height leaf_object root_object w w'

  guarded :
      {C : Type 0} (valid : Bool) (m : Native P H ℕ) (v w : World P H)
      → (if not valid then pure 0 else m) v ≡ (done 1, w)
      → (valid ≡ true → m v ≡ (done 1, w) → C)
      → C
  guarded true m v w h k = k refl h
  guarded false m v w h k = cc

  -- `nativeVerify` returns `JNI_TRUE` only if the leaf, the root and the path were read, the path is
  -- valid, and it is verified for the height, the leaf and the root; an error, a panic and a null
  -- handle never look like a verified path.
  pub native_verify-IsVerifiedPath :
      (path_object : J.JObject) (height : ℤ) (leaf_object root_object : J.JObject)
      (w w' : World P H)
      → native_verify P H J path_object height leaf_object root_object w ≡ (returned 1, w')
      → IsVerifiedPath path_object height leaf_object root_object w w'
  unfolding native_verify
  native_verify-IsVerifiedPath path_object height leaf_object root_object w w' h =
      invert_step (read_field P H J (as_field_element P H) leaf_object "fieldElementPointer" w) _
        (ffi_export-positive P H J _ w w' 1 (omega arith) h)
        λ leaf w1 h1 k1.
          invert_step (read_field P H J (as_field_element P H) root_object "fieldElementPointer" w1)
            _ k1
            λ root w2 h2 k2.
              invert_step (read_field P H J (as_merkle_path P H) path_object "merklePathPointer" w2)
                _ k2
                λ path w3 h3 k3. guarded (H.is_valid_path path) _ w3 w' k3 λ valid k4.
                  answer_true _ w3 w' k4 λ yes same.
                    verified_path leaf root path w1 w2 h1 h2
                      (h3 ∙ ap (λ (v : World P H). (done path, v)) same) valid yes
