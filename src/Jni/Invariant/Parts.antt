-- ===== src/Jni/Invariant/Parts.antt =====
-- What the helpers of single packages in api/src/lib.rs do to the boxes.
use zendoo_sc_cryptolib.Prelude.{ℕ, zero, suc, ◌+◌, Bool, Option, none, some, List, [], ◌∷◌, String}
use zendoo_sc_cryptolib.Prelude.Call.{Call}
use zendoo_sc_cryptolib.Prelude.Words.{as_i32}
use zendoo_sc_cryptolib.Primitives.{Primitives}
use zendoo_sc_cryptolib.Calls.Backend.{Backend}
use zendoo_sc_cryptolib.Jni.{Handled, Boxed, Native, Jvm, Codec}
use zendoo_sc_cryptolib.Jni.Pointer.{Cast, serialize_from_raw_pointer}
use zendoo_sc_cryptolib.Jni.Poseidon.{read_personalization}
use zendoo_sc_cryptolib.Jni.MerkleTree.{mutate_tree, nullable}
use zendoo_sc_cryptolib.Jni.SigProof.{read_signer, read_signers, read_lists}
use zendoo_sc_cryptolib.Jni.ProvingSystem.{from_ordinal, get_proving_system_type}
use zendoo_sc_cryptolib.Jni.CommitmentTree.{
  Commitment, deserialize_fe, read_fe, read_loose_fe, answer,
}
use zendoo_sc_cryptolib.Jni.CommitmentTree.Adding.{
  with_constant, read_csw_key, read_bits, read_config, read_custom_fields,
}
use zendoo_sc_cryptolib.Jni.CommitmentTree.Reading.{
  handle, optional_handle, set_leaves, cert_leaves,
}
use zendoo_sc_cryptolib.Jni.Invariant.{a_merkle_tree, a_commitment_tree, Keeps, KeepsAt, Quiet}
use zendoo_sc_cryptolib.Jni.Invariant.Reads.{reading, pure-Quiet, expect-Quiet, bind-Quiet}
use zendoo_sc_cryptolib.Jni.Invariant.Rules.{bind-Keeps, Quiet-Keeps}
use zendoo_sc_cryptolib.Jni.Invariant.Boxes.{into_raw-Keeps}
use zendoo_sc_cryptolib.Jni.Invariant.Export.{exported}

module _ (P : Primitives) (H : Handled P) (J : Jvm) where
  pub serialize_from_raw_pointer-Quiet :
      {A : Type 0} (codec : Codec A) (cast : Cast P H A) (p : ℕ) (compressed : Option Bool)
      → Quiet (serialize_from_raw_pointer P H J codec cast p compressed)
  unfolding serialize_from_raw_pointer
  serialize_from_raw_pointer-Quiet codec cast p compressed = search reading

  pub read_personalization-Quiet : (arr : J.JObject) → Quiet (read_personalization P H J arr)
  unfolding read_personalization
  read_personalization-Quiet arr = search exported depth 10

  pub mutate_tree-KeepsAt :
      {owned : ℕ} (op : H.GingerMHT → H.GingerMHT × Call (Unit {0})) (p : ℕ) (tree : H.GingerMHT)
      → KeepsAt owned p a_merkle_tree (mutate_tree P H J op p tree)
  unfolding mutate_tree
  mutate_tree-KeepsAt op p tree = search exported depth 10

  pub nullable-Keeps :
      {owned : ℕ} {A : Type 0} (found : Option A) (f : A → Native P H J.JObject)
      → ((a : A) → Keeps owned (f a))
      → Keeps owned (nullable P H J found f)
  unfolding nullable
  nullable-Keeps none f k = Quiet-Keeps (pure-Quiet J.null)
  nullable-Keeps (some a) f k = k a

  pub read_signer-Quiet :
      (sigs_list pks_list : J.JObject) (i : ℕ) → Quiet (read_signer P H J sigs_list pks_list i)
  unfolding read_signer
  read_signer-Quiet sigs_list pks_list i = search exported depth 20

  pub read_signers-Quiet :
      (sigs_list pks_list : J.JObject) (i left : ℕ)
      → Quiet (read_signers P H J sigs_list pks_list i left)
  unfolding read_signers
  read_signers-Quiet sigs_list pks_list i zero = pure-Quiet ([], [])
  read_signers-Quiet sigs_list pks_list i (suc left) =
      bind-Quiet _ _ (read_signer-Quiet sigs_list pks_list i)
        λ s. bind-Quiet _ _ (read_signers-Quiet sigs_list pks_list (i + 1) left) λ r. pure-Quiet _

  pub read_lists-Quiet :
      (sigs_list pks_list : J.JObject) → Quiet (read_lists P H J sigs_list pks_list)
  unfolding read_lists
  read_lists-Quiet sigs_list pks_list = search (exported, read_signers-Quiet) depth 20

  module _ (B : Backend P) where
    pub get_proving_system_type-Quiet : (o : J.JObject) → Quiet (get_proving_system_type P H J B o)
    unfolding get_proving_system_type from_ordinal
    get_proving_system_type-Quiet o = search exported depth 20

  module _ (C : Commitment P H) where
    pub deserialize_fe-Quiet : (bytes : List ℕ) → Quiet (deserialize_fe P H J C bytes)
    unfolding deserialize_fe
    deserialize_fe-Quiet bytes = search reading

    pub read_fe-Quiet : (arr : J.JObject) → Quiet (read_fe P H J C arr)
    unfolding read_fe
    read_fe-Quiet arr = search (exported, deserialize_fe-Quiet) depth 10

    pub read_loose_fe-Quiet : (arr : J.JObject) → Quiet (read_loose_fe P H J C arr)
    unfolding read_loose_fe
    read_loose_fe-Quiet arr = search (exported, deserialize_fe-Quiet) depth 10

    pub answer-KeepsAt :
        {owned : ℕ} (p : ℕ) (r : H.CommitmentTree × Bool)
        → KeepsAt owned p a_commitment_tree (answer P H J C p r)
    unfolding answer
    answer-KeepsAt p r = search exported depth 10

    pub read_bits-Quiet : (o : J.JObject) → Quiet (read_bits P H J C o)
    unfolding read_bits
    read_bits-Quiet o = search reading

    pub read_config-Quiet : (o : J.JObject) → Quiet (read_config P H J C o)
    unfolding read_config
    read_config-Quiet o = search reading

    pub with_constant-Keeps :
        {owned : ℕ} (o : J.JObject) (rest : Option P.FieldElement → Native P H ℕ)
        → ((fe : Option P.FieldElement) → Keeps owned (rest fe))
        → Keeps owned (with_constant P H J C o rest)
    unfolding with_constant
    with_constant-Keeps o rest k = search (exported, k) depth 10

    pub read_csw_key-Quiet : (o : J.JObject) → Quiet (read_csw_key P H J C o)
    unfolding read_csw_key
    read_csw_key-Quiet o = search reading depth 10

    pub read_custom_fields-Quiet : (o : J.JObject) → Quiet (read_custom_fields P H J C o)
    unfolding read_custom_fields
    read_custom_fields-Quiet o = search (exported, read_loose_fe-Quiet) depth 10

    pub handle-Keeps :
        {owned : ℕ} {A : Type 0} (cls : J.JObject) (found : Option A) (box : A → Boxed P H)
        (class_path : String)
        → Keeps owned (handle P H J C cls found box class_path)
    unfolding handle
    handle-Keeps cls none box class_path = search exported depth 10
    handle-Keeps cls (some a) box class_path = search exported depth 20

    pub optional_handle-KeepsAt :
        {owned : ℕ} {A : Type 0} (p : ℕ) (tree : H.CommitmentTree) (found : Option A)
        (box : A → Boxed P H) (class_path : String)
        → KeepsAt owned p a_commitment_tree (optional_handle P H J C p tree found box class_path)
    unfolding optional_handle
    optional_handle-KeepsAt p tree found box class_path = search (exported, handle-Keeps) depth 20

    pub set_leaves-Keeps :
        {owned : ℕ} (class leaf_fe_array : J.JObject) (idx : ℕ) (leaves : List P.FieldElement)
        → Keeps owned (set_leaves P H J C class leaf_fe_array idx leaves)
    unfolding set_leaves
    set_leaves-Keeps class leaf_fe_array idx [] = Quiet-Keeps (pure-Quiet _)
    set_leaves-Keeps class leaf_fe_array idx (leaf ∷ leaves) =
        bind-Keeps _ _ (into_raw-Keeps P H _) λ p.
          bind-Keeps {A = J.JObject} _ _
            (Quiet-Keeps (
              expect-Quiet (J.new_handle class p)
                "Should be able to create new long for FieldElement"))
            λ element.
              bind-Keeps {A = Unit {0}} _ _
                (Quiet-Keeps (
                  expect-Quiet (J.set_object_array_element leaf_fe_array (as_i32 idx) element)
                    "Should be able to add FieldElement leaf to an array"))
                λ u. set_leaves-Keeps class leaf_fe_array (idx + 1) leaves

    pub cert_leaves-Keeps :
        {owned : ℕ} (leaves : Option (List P.FieldElement))
        → Keeps owned (cert_leaves P H J C leaves)
    unfolding cert_leaves
    cert_leaves-Keeps none = search exported depth 20
    cert_leaves-Keeps (some leaves) = search (exported, set_leaves-Keeps) depth 20

  pub ruleset parts = (
    serialize_from_raw_pointer-Quiet, read_personalization-Quiet, mutate_tree-KeepsAt,
    nullable-Keeps, read_lists-Quiet, get_proving_system_type-Quiet, read_fe-Quiet,
    read_loose_fe-Quiet, answer-KeepsAt, read_bits-Quiet, read_config-Quiet, with_constant-Keeps,
    read_csw_key-Quiet, read_custom_fields-Quiet, optional_handle-KeepsAt, cert_leaves-Keeps,
  )
