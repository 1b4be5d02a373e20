-- ===== src/Jni/MerkleTree/Operations.antt =====
-- A tree object that Java changes in place: com.horizen.merkletreenative in api/src/lib.rs against the
-- library's tree.
use zendoo_sc_cryptolib.Prelude.{ℕ, ◌≡◌, refl, sym, ap, ◌∙◌, Option, none, some, List, [], ◌∷◌}
use zendoo_sc_cryptolib.Prelude.Call.{Call, ok, err, panic}
use zendoo_sc_cryptolib.Prelude.Words.{as_u64}
use zendoo_sc_cryptolib.Primitives.{Primitives}
use zendoo_sc_cryptolib.Jni.{
  Handled, Boxed, World, Jvm, Exported, Returned, returned, pure, on_call, catch_unwind, ffi_export,
}
use zendoo_sc_cryptolib.Jni.Pointer.{as_field_element, as_merkle_tree, write}
use zendoo_sc_cryptolib.Jni.Invariant.{kind_of}
use zendoo_sc_cryptolib.Jni.Points.{
  Points, after, pointer_in-Points, read_raw_pointer-Points, read_field-Points, write-write,
  write_self, Points-write, Points-write_other,
}
use zendoo_sc_cryptolib.Jni.MerkleTree.{
  mutate_tree, native_append, native_finalize_in_place, native_reset,
}

-- What Java asks of a tree: to append the element of an object or an element, to finalise it in place,
-- or to reset it.
pub data TreeOperation (A : Type 0) : Type 0 where
  append : A → TreeOperation A
  finalize_in_place : TreeOperation A
  reset : TreeOperation A

module _ (P : Primitives) (H : Handled P) where
  -- The answer of a native method to a library call that does not panic.
  abbrev pub answer_of : Call (Unit {0}) → Option ℕ
  answer_of (ok u) = some 1
  answer_of (err e) = some 0
  answer_of (panic p) = none

  abbrev pub with_answer : {A B : Type 0} → Option A → (A → Option B) → Option B
  with_answer none f = none
  with_answer (some a) f = f a

  -- The same operations on the library's tree, with their answers; none if one of them panics.
  unfoldable pub tree_after :
      List (TreeOperation P.FieldElement) → H.GingerMHT → Option (H.GingerMHT × List ℕ)
  tree_after [] t = some (t, [])
  tree_after (append x ∷ ops) t =
      with_answer (answer_of (H.append_leaf_to_ginger_mht t x).1) λ n.
        with_answer (tree_after ops (H.append_leaf_to_ginger_mht t x).0) λ r. some (r.0, n ∷ r.1)
  tree_after (finalize_in_place ∷ ops) t =
      with_answer (answer_of (H.finalize_ginger_mht_in_place t).1) λ n.
        with_answer (tree_after ops (H.finalize_ginger_mht_in_place t).0) λ r. some (r.0, n ∷ r.1)
  tree_after (reset ∷ ops) t = tree_after ops (H.reset_ginger_mht t)

module _ (P : Primitives) (H : Handled P) (J : Jvm) where
  -- The operations of Java, one call after the other, with their answers.
  pub run_all : (tree_object : J.JObject) → List (TreeOperation J.JObject) → Exported P H (List ℕ)
  run_all h [] w = (returned [], w)
  run_all h (append o ∷ ops) w =
      after (native_append P H J h o w)
        λ n v. after (run_all h ops v) λ ns u. (returned (n ∷ ns), u)
  run_all h (finalize_in_place ∷ ops) w =
      after (native_finalize_in_place P H J h w)
        λ n v. after (run_all h ops v) λ ns u. (returned (n ∷ ns), u)
  run_all h (reset ∷ ops) w = after (native_reset P H J h w) λ u. run_all h ops

  -- The same operations, where each object to append is that of the element.
  abbrev pub Same :
      World P H → List (TreeOperation J.JObject) → List (TreeOperation P.FieldElement) → Type 0
  Same w [] [] = Unit {0}
  Same w (append o ∷ os) (append x ∷ xs) =
      Points J w o "fieldElementPointer" (Boxed.field_element x) × Same w os xs
  Same w (finalize_in_place ∷ os) (finalize_in_place ∷ xs) = Same w os xs
  Same w (reset ∷ os) (reset ∷ xs) = Same w os xs
  Same w _ _ = ⊥

  abbrev TreeAt : World P H → J.JObject → H.GingerMHT → Type 0
  TreeAt w h t = Points J w h "inMemoryOptimizedMerkleTreePointer" (Boxed.merkle_tree t)

  -- The state with another tree in the box.
  abbrev pub with_tree :
      (w : World P H) (h : J.JObject) (t : H.GingerMHT) → TreeAt w h t → H.GingerMHT → World P H
  with_tree w h t tree t' = write P H w (as_u64 tree.number) (some (Boxed.merkle_tree t'))

  answered :
      (r : Call (Unit {0})) (v : World P H) (n : ℕ)
      → answer_of P H r ≡ some n
      → catch_unwind P H J 0 (on_call r (λ u. pure 1) (pure 0) v) ≡ (returned n, v)
  unfolding catch_unwind
  answered (ok u) v n e = cc
  answered (err x) v n e = cc
  answered (panic p) v n e = cc

  module _ (w : World P H) (h : J.JObject) (t : H.GingerMHT) (tree : TreeAt w h t) where
    native_append-step :
        (o : J.JObject) (x : P.FieldElement) (n : ℕ)
        → Points J w o "fieldElementPointer" (Boxed.field_element x)
        → answer_of P H (H.append_leaf_to_ginger_mht t x).1 ≡ some n
        → native_append P H J h o w
          ≡ (returned n, with_tree w h t tree (H.append_leaf_to_ginger_mht t x).0)
    unfolding native_append ffi_export mutate_tree
    native_append-step o x n input a =
        rw
          (
            read_field-Points P H J w o _ _ input (as_field_element P H) x refl,
            pointer_in-Points P H J w h _ _ tree,
            read_raw_pointer-Points P H J w h _ _ tree (as_merkle_tree P H) t refl,
          )
          (answered (H.append_leaf_to_ginger_mht t x).1 _ n a)

    native_finalize_in_place-step :
        (n : ℕ)
        → answer_of P H (H.finalize_ginger_mht_in_place t).1 ≡ some n
        → native_finalize_in_place P H J h w
          ≡ (returned n, with_tree w h t tree (H.finalize_ginger_mht_in_place t).0)
    unfolding native_finalize_in_place ffi_export mutate_tree
    native_finalize_in_place-step n a =
        rw
          (
            pointer_in-Points P H J w h _ _ tree,
            read_raw_pointer-Points P H J w h _ _ tree (as_merkle_tree P H) t refl,
          )
          (answered (H.finalize_ginger_mht_in_place t).1 _ n a)

    native_reset-step :
        native_reset P H J h w ≡ (returned tt, with_tree w h t tree (H.reset_ginger_mht t))
    unfolding native_reset ffi_export
    native_reset-step =
        rw
          (
            pointer_in-Points P H J w h _ _ tree,
            read_raw_pointer-Points P H J w h _ _ tree (as_merkle_tree P H) t refl,
          )
          refl

    -- Changing the tree leaves the elements as they are.
    Same-write :
        (t' : H.GingerMHT) (os : List (TreeOperation J.JObject))
        (xs : List (TreeOperation P.FieldElement))
        → Same w os xs
        → Same (with_tree w h t tree t') os xs
    Same-write t' [] [] s = tt
    Same-write t' (append o ∷ os) (append x ∷ xs) (input, rest) = (
      Points-write_other P H J w o "fieldElementPointer" (Boxed.field_element x)
          (as_u64 tree.number) (Boxed.merkle_tree t') input (λ e. cc (e, ap kind_of tree.holds)),
      Same-write t' os xs rest,
    )
    Same-write t' (finalize_in_place ∷ os) (finalize_in_place ∷ xs) s = Same-write t' os xs s
    Same-write t' (reset ∷ os) (reset ∷ xs) s = Same-write t' os xs s
    Same-write t' _ _ s = absurd s

  with_answer-eq_some :
      {A B : Type 0} (m : Option A) (f : A → Option B) (b : B)
      → with_answer P H m f ≡ some b
      → (a : A) × (m ≡ some a) × (f a ≡ some b)
  with_answer-eq_some none f b e = cc
  with_answer-eq_some (some a) f b e = (a, refl, e)

  module _ (w : World P H) (h : J.JObject) (t : H.GingerMHT) (tree : TreeAt w h t) where
    moved : (t1 : H.GingerMHT) → TreeAt (with_tree w h t tree t1) h t1
    unfolding Points-write
    moved t1 =
        Points-write P H J w h "inMemoryOptimizedMerkleTreePointer" (Boxed.merkle_tree t)
          (Boxed.merkle_tree t1) tree

    -- The end of a run, for a tree and answers that are known by an equation.
    given_tree :
        (m m' : H.GingerMHT × List ℕ)
        → ◌≡◌ {A = Option (H.GingerMHT × List ℕ)} (some m) (some m')
        → ◌≡◌ {A = Returned (List ℕ) × World P H}
            (returned m.1, with_tree w h t tree m.0)
            (returned m'.1, with_tree w h t tree m'.0)
    given_tree m m' e =
        ap
          (λ (q : Option (H.GingerMHT × List ℕ)). elim q [
            | none ↦ (returned m.1, with_tree w h t tree m.0)
            | some x ↦ (returned x.1, with_tree w h t tree x.0)
          ])
          e

    -- One answer, and then those of the rest of the run.
    then_answered :
        (t1 : H.GingerMHT) (n : ℕ) (r : Returned (List ℕ) × World P H) (m m' : H.GingerMHT × List ℕ)
        → ◌≡◌ {A = Option (H.GingerMHT × List ℕ)} (some (m.0, n ∷ m.1)) (some m')
        → r ≡ (returned m.1, with_tree (with_tree w h t tree t1) h t1 (moved t1) m.0)
        → after r (λ ns u. (returned (n ∷ ns), u)) ≡ (returned m'.1, with_tree w h t tree m'.0)
    unfolding moved Points-write
    then_answered t1 n r m m' e rest =
        ap (λ (q : Returned (List ℕ) × World P H). after q (λ ns u. (returned (n ∷ ns), u))) rest
        ∙ ap (λ (v : World P H). (returned (n ∷ m.1), v))
            (write-write P H J w (as_u64 tree.number) (some (Boxed.merkle_tree t1))
              (some (Boxed.merkle_tree m.0)))
        ∙ given_tree (m.0, n ∷ m.1) m' e

  -- Java's tree object does what the library's tree does: if none of the library's operations panics,
  -- the calls of `nativeAppend`, `nativeFinalizeInPlace` and `nativeReset` answer 1 or 0 as the library
  -- succeeds or fails, and leave its tree in the box and all else unchanged, where the handles are live.
  pub run_all-tree_after :
      (h : J.JObject) (os : List (TreeOperation J.JObject))
      (xs : List (TreeOperation P.FieldElement)) (t t' : H.GingerMHT) (ns : List ℕ) (w : World P H)
      (tree : TreeAt w h t)
      → Same w os xs
      → tree_after P H xs t ≡ some (t', ns)
      → run_all h os w ≡ (returned ns, with_tree w h t tree t')
  unfolding run_all tree_after moved Points-write
  run_all-tree_after h [] [] t t' ns w tree s e =
      ap (λ (v : World P H). (returned [], v))
        (sym (write_self P H J w (as_u64 tree.number) (some (Boxed.merkle_tree t)) tree.holds))
      ∙ given_tree w h t tree (t, []) (t', ns) e
  run_all-tree_after h (append o ∷ os) (append x ∷ xs) t t' ns w tree (input, s) e =
      let (t1, r) = H.append_leaf_to_ginger_mht t x in
      let (n, a, e1) = with_answer-eq_some (answer_of P H r) _ _ e in
      let (m, a1, e2) = with_answer-eq_some (tree_after P H xs t1) _ _ e1 in
      rw (native_append-step w h t tree o x n input a) (
        then_answered w h t tree t1 n _ m (t', ns) e2
          (run_all-tree_after h os xs t1 m.0 m.1 (with_tree w h t tree t1) (moved w h t tree t1)
            (Same-write w h t tree t1 os xs s) a1))
  run_all-tree_after h (finalize_in_place ∷ os) (finalize_in_place ∷ xs) t t' ns w tree s e =
      let (t1, r) = H.finalize_ginger_mht_in_place t in
      let (n, a, e1) = with_answer-eq_some (answer_of P H r) _ _ e in
      let (m, a1, e2) = with_answer-eq_some (tree_after P H xs t1) _ _ e1 in
      rw (native_finalize_in_place-step w h t tree n a) (
        then_answered w h t tree t1 n _ m (t', ns) e2
          (run_all-tree_after h os xs t1 m.0 m.1 (with_tree w h t tree t1) (moved w h t tree t1)
            (Same-write w h t tree t1 os xs s) a1))
  run_all-tree_after h (reset ∷ os) (reset ∷ xs) t t' ns w tree s e =
      let t1 = H.reset_ginger_mht t in
      rw (native_reset-step w h t tree) (
        run_all-tree_after h os xs t1 t' ns (with_tree w h t tree t1) (moved w h t tree t1)
          (Same-write w h t tree t1 os xs s) e
        ∙ ap (λ (v : World P H). (returned ns, v))
            (write-write P H J w (as_u64 tree.number) (some (Boxed.merkle_tree t1))
              (some (Boxed.merkle_tree t'))))
  run_all-tree_after h _ _ t t' ns w tree s e = absurd s
