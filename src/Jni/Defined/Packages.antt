-- ===== src/Jni/Defined/Packages.antt =====
-- What the helpers of single packages in api/src/lib.rs need to be defined.
use zendoo_sc_cryptolib.Prelude.{ℕ, Bool, zero, suc, ◌+◌, Option, none, some, List, [], ◌∷◌, String}
use zendoo_sc_cryptolib.Prelude.Call.{Call}
use zendoo_sc_cryptolib.Prelude.Words.{as_i32}
use zendoo_sc_cryptolib.Primitives.{Primitives}
use zendoo_sc_cryptolib.Calls.Backend.{Backend}
use zendoo_sc_cryptolib.Jni.{Handled, Boxed, Native, Jvm}
use zendoo_sc_cryptolib.Jni.Poseidon.{read_personalization}
use zendoo_sc_cryptolib.Jni.MerkleTree.{mutate_tree, nullable}
use zendoo_sc_cryptolib.Jni.SigProof.{read_signer, read_signers, read_lists}
use zendoo_sc_cryptolib.Jni.ProvingSystem.{from_ordinal, get_proving_system_type}
use zendoo_sc_cryptolib.Jni.CommitmentTree.{
  Commitment, deserialize_fe, read_fe, read_loose_fe, answer,
}
use zendoo_sc_cryptolib.Jni.CommitmentTree.Adding.{
  with_constant, read_csw_key, read_bits, read_config, read_custom_fields,
}
use zendoo_sc_cryptolib.Jni.CommitmentTree.Reading.{
  handle, optional_handle, set_leaves, cert_leaves,
}
use zendoo_sc_cryptolib.Jni.Invariant.Parts.{
  read_personalization-Quiet, read_signer-Quiet, read_signers-Quiet, read_lists-Quiet,
  get_proving_system_type-Quiet, deserialize_fe-Quiet, read_fe-Quiet, read_loose_fe-Quiet,
  read_bits-Quiet, read_config-Quiet, read_csw_key-Quiet, read_custom_fields-Quiet,
}
use zendoo_sc_cryptolib.Jni.Defined.{Total, Safe}
use zendoo_sc_cryptolib.Jni.Defined.Rules.{
  pure-Total, expect-Total, bind-Total, Total-Safe, bind-Safe, into_raw-Total,
}
use zendoo_sc_cryptolib.Jni.Defined.Parts.{
  total, defined, read_array-Total, parse_jbyte_array_to_vec-Total, read_fixed-Total,
}

module _ (P : Primitives) (H : Handled P) (J : Jvm) where
  pub read_personalization-Safe : (arr : J.JObject) → Safe J (read_personalization P H J arr)
  unfolding read_personalization
  read_personalization-Safe arr = search defined depth 20

  pub mutate_tree-Total :
      (op : H.GingerMHT → H.GingerMHT × Call (Unit {0})) (p : ℕ) (tree : H.GingerMHT)
      → Total (mutate_tree P H J op p tree)
  unfolding mutate_tree
  mutate_tree-Total op p tree = search total

  pub nullable-Total :
      {A : Type 0} (found : Option A) (f : A → Native P H J.JObject)
      → ((a : A) → Total (f a))
      → Total (nullable P H J found f)
  unfolding nullable
  nullable-Total none f k = pure-Total J.null
  nullable-Total (some a) f k = k a

  pub read_signer-Safe :
      (sigs_list pks_list : J.JObject) (i : ℕ) → Safe J (read_signer P H J sigs_list pks_list i)
  unfolding read_signer
  read_signer-Safe sigs_list pks_list i = search defined depth 30

  pub read_signers-Safe :
      (sigs_list pks_list : J.JObject) (i left : ℕ)
      → Safe J (read_signers P H J sigs_list pks_list i left)
  unfolding read_signers
  read_signers-Safe sigs_list pks_list i zero = Total-Safe J _ (pure-Total ([], []))
  read_signers-Safe sigs_list pks_list i (suc left) =
      bind-Safe J _ _ (read_signer-Quiet P H J sigs_list pks_list i)
        (read_signer-Safe sigs_list pks_list i)
        λ s.
          bind-Safe J _ _ (read_signers-Quiet P H J sigs_list pks_list (i + 1) left)
            (read_signers-Safe sigs_list pks_list (i + 1) left) λ r. Total-Safe J _ (pure-Total _)

  pub read_lists-Safe :
      (sigs_list pks_list : J.JObject) → Safe J (read_lists P H J sigs_list pks_list)
  unfolding read_lists
  read_lists-Safe sigs_list pks_list = search (defined, read_signers-Safe) depth 20

  module _ (B : Backend P) where
    pub get_proving_system_type-Total : (o : J.JObject) → Total (get_proving_system_type P H J B o)
    unfolding get_proving_system_type from_ordinal
    get_proving_system_type-Total o = search total depth 20

  module _ (C : Commitment P H) where
    pub deserialize_fe-Total : (bytes : List ℕ) → Total (deserialize_fe P H J C bytes)
    unfolding deserialize_fe
    deserialize_fe-Total bytes = search total

    pub read_fe-Total : (arr : J.JObject) → Total (read_fe P H J C arr)
    unfolding read_fe
    read_fe-Total arr = search (total, deserialize_fe-Total, parse_jbyte_array_to_vec-Total)

    pub read_loose_fe-Total : (arr : J.JObject) → Total (read_loose_fe P H J C arr)
    unfolding read_loose_fe
    read_loose_fe-Total arr = search (total, deserialize_fe-Total)

    pub answer-Total : (p : ℕ) (r : H.CommitmentTree × Bool) → Total (answer P H J C p r)
    unfolding answer
    answer-Total p r = search total

    pub read_bits-Total : (o : J.JObject) → Total (read_bits P H J C o)
    unfolding read_bits
    read_bits-Total o = search total

    pub read_config-Total : (o : J.JObject) → Total (read_config P H J C o)
    unfolding read_config
    read_config-Total o = search total

    pub read_csw_key-Total : (o : J.JObject) → Total (read_csw_key P H J C o)
    unfolding read_csw_key
    read_csw_key-Total o = search total depth 10

    pub with_constant-Safe :
        (o : J.JObject) (rest : Option P.FieldElement → Native P H ℕ)
        → ((fe : Option P.FieldElement) → Safe J (rest fe))
        → Safe J (with_constant P H J C o rest)
    unfolding with_constant
    with_constant-Safe o rest k = search (defined, k) depth 20

    pub read_custom_fields-Total : (o : J.JObject) → Total (read_custom_fields P H J C o)
    unfolding read_custom_fields
    read_custom_fields-Total o = search (total, read_array-Total, read_loose_fe-Total) depth 20

    pub handle-Total :
        {A : Type 0} (cls : J.JObject) (found : Option A) (box : A → Boxed P H)
        (class_path : String)
        → Total (handle P H J C cls found box class_path)
    unfolding handle
    handle-Total cls none box class_path = expect-Total _ _
    handle-Total cls (some a) box class_path = search total depth 20

    pub optional_handle-Total :
        {A : Type 0} (p : ℕ) (tree : H.CommitmentTree) (found : Option A) (box : A → Boxed P H)
        (class_path : String)
        → Total (optional_handle P H J C p tree found box class_path)
    unfolding optional_handle
    optional_handle-Total p tree found box class_path = search (total, handle-Total) depth 20

    set_leaves-Total :
        (class leaf_fe_array : J.JObject) (idx : ℕ) (leaves : List P.FieldElement)
        → Total (set_leaves P H J C class leaf_fe_array idx leaves)
    unfolding set_leaves
    set_leaves-Total class leaf_fe_array idx [] = pure-Total _
    set_leaves-Total class leaf_fe_array idx (leaf ∷ leaves) =
        bind-Total _ _ (into_raw-Total P H J _) λ p.
          bind-Total {A = J.JObject} _ _
            (expect-Total (J.new_handle class p)
              "Should be able to create new long for FieldElement")
            λ element.
              bind-Total {A = Unit {0}} _ _
                (expect-Total (J.set_object_array_element leaf_fe_array (as_i32 idx) element)
                  "Should be able to add FieldElement leaf to an array")
                λ u. set_leaves-Total class leaf_fe_array (idx + 1) leaves

    pub cert_leaves-Total :
        (leaves : Option (List P.FieldElement)) → Total (cert_leaves P H J C leaves)
    unfolding cert_leaves
    cert_leaves-Total none = search total depth 20
    cert_leaves-Total (some leaves) = search (total, set_leaves-Total) depth 20

  pub ruleset packages = (
    defined, read_personalization-Safe, mutate_tree-Total, nullable-Total, read_lists-Safe,
    get_proving_system_type-Total, read_fe-Total, read_loose_fe-Total, answer-Total,
    read_bits-Total, read_config-Total, read_csw_key-Total, with_constant-Safe,
    read_custom_fields-Total, optional_handle-Total, cert_leaves-Total, read_array-Total,
    read_personalization-Quiet, read_lists-Quiet, get_proving_system_type-Quiet, read_fe-Quiet,
    read_loose_fe-Quiet, read_bits-Quiet, read_config-Quiet, read_csw_key-Quiet,
    read_custom_fields-Quiet,
  )
