-- ===== src/Jni/Handle.antt =====
-- The life of a box behind a Java object, and the byte arrays copied into fixed buffers: the helpers
-- at the top of api/src/lib.rs.
use zendoo_sc_cryptolib.Prelude.{
  ℕ, suc, ◌+◌, ◌<◌, ◌^◌, ◌≡◌, refl, arith, none, some, List, [], ◌∷◌, ◌++◌, Bool, true, false,
  String, length, drop, le→leb, lt→leb, eq→==, leb, if◌then◌else◌, ◌==◌,
}
use zendoo_sc_cryptolib.Prelude.Words.{as_i64, as_u64-as_i64}
use zendoo_sc_cryptolib.Primitives.{Primitives}
use zendoo_sc_cryptolib.Jni.{Handled, Boxed, World, done, Jvm, value}
use zendoo_sc_cryptolib.Jni.Pointer.{
  Cast, write, into_raw, read_raw_pointer, read_field, pointer_in, return_jobject, fill,
}

leb-suc : (m n : ℕ) → leb (suc m) (suc n) ≡ leb m n
leb-suc m n = ground arith

fill_cons :
    (e : ℕ) (fits : Bool) (xs : List ℕ)
    → (elim (if fits then some xs else none) [ none ↦ none | some rest ↦ some (e ∷ rest) ])
      ≡ (if fits then some (e ∷ xs) else none)
fill_cons e true xs = refl
fill_cons e false xs = refl

not_null : (p : ℕ) → 0 < p → (p == 0) ≡ false
not_null p h = ground arith

-- Copying bytes into a buffer fails exactly if there are more bytes than the buffer holds; else it
-- gives the bytes, followed by what the buffer had after them, so a short array is padded.
pub fill_lem :
    (buffer vec : List ℕ)
    → fill buffer vec
      ≡ (if leb (length vec) (length buffer) then some (vec ++ drop (length vec) buffer) else none)
unfolding fill
fill_lem buffer [] = rw (le→leb 0 (length buffer) (omega arith)) refl
fill_lem [] (e ∷ vec) = rw (lt→leb 0 (suc (length vec)) (omega arith)) refl
fill_lem (b ∷ buffer) (e ∷ vec) =
    rw (fill_lem buffer vec, leb-suc (length vec) (length buffer))
      (fill_cons e (leb (length vec) (length buffer)) (vec ++ drop (length vec) buffer))

module _ (P : Primitives) (H : Handled P) (J : Jvm) where
  -- The world with one box more.
  abbrev pub boxed : World P H → Boxed P H → World P H
  boxed w b = record (write P H w w.next (some b)) { next = w.next + 1 }

  -- An object returned for a box can be read through its field: it gives the value of the box and
  -- changes nothing, if the object's field holds the number that its constructor was given, and the
  -- fresh address is not null and fits in 64 bits.
  pub return_jobject-read_field :
      {A : Type 0} (cast : Cast P H A) (b : Boxed P H) (a : A) (class_path field : String)
      (c o : J.JObject) (w : World P H)
      → cast b ≡ some a
      → 0 < w.next
      → w.next < 2 ^ 64
      → J.find_class class_path ≡ value c
      → J.new_handle c (as_i64 w.next) ≡ value o
      → J.get_long o field ≡ value (as_i64 w.next)
      → (return_jobject P H J b class_path w ≡ (done o, boxed w b))
        × (read_field P H J cast o field (boxed w b) ≡ (done a, boxed w b))
  unfolding return_jobject read_field pointer_in read_raw_pointer into_raw
  return_jobject-read_field cast b a class_path field c o w hb h0 h1 hc ho hg = (
    rw (hc, ho) refl,
    rw (hg, as_u64-as_i64 w.next h1, not_null w.next h0, eq→== w.next w.next refl, hb) refl,
  )
