-- ===== src/Examples/Keys.antt =====
-- A key pair, a message, and what the toy machine makes of them: the objects are the addresses.
use zendoo_sc_cryptolib.Prelude.{
  ℕ, ◌+◌, ◌%◌, ◌^◌, ◌<◌, ◌≡◌, refl, ap, arith, none, some, Bool, true, false, String, eq→==, [],
  ◌∷◌, List,
}
use zendoo_sc_cryptolib.Prelude.Call.{Call, ok}
use zendoo_sc_cryptolib.Prelude.Words.{pos, as_i64, as_u64, as_u64-as_i64}
use zendoo_sc_cryptolib.Calls.{schnorr_sign, vrf_prove}
use zendoo_sc_cryptolib.Calls.Vrf.{VrfLaws}
use zendoo_sc_cryptolib.Primitives.Laws.{absorb}
use zendoo_sc_cryptolib.Jni.{Boxed, World, Jvm, value, returned}
use zendoo_sc_cryptolib.Jni.Handle.{boxed}
use zendoo_sc_cryptolib.Jni.Points.{Points, after}
use zendoo_sc_cryptolib.Jni.Points.Fresh.{Makes, PairAt, HasRoom, boxed-IsWellFormed}
use zendoo_sc_cryptolib.Jni.Schnorr.{native_sign_message, native_verify_signature}
use zendoo_sc_cryptolib.Jni.Schnorr.Signed.{SignatureLaws, native_verify_signature-sign_message}
use zendoo_sc_cryptolib.Jni.Vrf.{native_prove, native_proof_to_hash}
use zendoo_sc_cryptolib.Jni.Vrf.Hashed.{proved, MakesProof, native_proof_to_hash-prove}
use zendoo_sc_cryptolib.Examples.Toy.{Element, element, toy}
use zendoo_sc_cryptolib.Examples.Machine.{handled, machine, world, three}
use zendoo_sc_cryptolib.Examples.Session.{world-IsWellFormed}
use text.Mathlib.Text.{◌==◌ as str_eq}

abbrev with_message : World toy handled
with_message = boxed toy handled machine world three

abbrev with_secret : World toy handled
with_secret = boxed toy handled machine with_message (Boxed.scalar 5)

-- The message at 4096, the secret key at 4097, the public key at 4098.
abbrev with_keys : World toy handled
with_keys = boxed toy handled machine with_secret (Boxed.g2 5)

abbrev key_of : Bool → ℕ
key_of true = 4097
key_of false = 4098

-- The machine whose pair has these two keys.
abbrev paired : Jvm
paired = record machine { get_object = λ o f. value (key_of (str_eq f "secretKey")) }

with_keys-HasRoom : HasRoom with_keys
with_keys-HasRoom = record {
  well_formed = boxed-IsWellFormed toy handled paired with_secret (Boxed.g2 5) (
      boxed-IsWellFormed toy handled paired with_message (Boxed.scalar 5)
        (boxed-IsWellFormed toy handled paired world three world-IsWellFormed));
  room = omega arith;
}

abbrev message_at : Points paired with_keys 4096 "fieldElementPointer" three
message_at = record { number = pos 4096; in_field = refl; not_null = omega arith; holds = refl }

abbrev secret_at : Points paired with_keys 4097 "secretKeyPointer" (Boxed.scalar 5)
secret_at = record { number = pos 4097; in_field = refl; not_null = omega arith; holds = refl }

abbrev public_at : Points paired with_keys 4098 "publicKeyPointer" (Boxed.g2 5)
public_at = record { number = pos 4098; in_field = refl; not_null = omega arith; holds = refl }

pair_at : PairAt paired with_keys 77 5 5
pair_at = record {
  secret_object = 4097;
  public_object = 4098;
  in_secret = refl;
  in_public = refl;
  secret = secret_at;
  public = public_at;
}

five-SignatureLaws : SignatureLaws toy 5 5
five-SignatureLaws = record {
  schnorr_verify-sign = λ rng m s h.
      ap (λ (b : Bool). ok b) (eq→== s (5 + m.0 % 2 ^ 64) (signed_as (5 + m.0 % 2 ^ 64) s h));
}
  where
    signed_as : (x s : ℕ) → ◌≡◌ {A = Call ℕ} (ok x) (ok s) → s ≡ x
    signed_as x s h = cc

made_at :
    (class_path field : String) (p : ℕ)
    → p < 2 ^ 64
    → Makes paired class_path field p (as_u64 (as_i64 p))
made_at class_path field p fits = record {
  class = 1;
  found = refl;
  constructed = refl;
  in_field = ap (λ (q : ℕ). value (as_i64 q)) (as_u64-as_i64 p fits);
}

signed_eight : schnorr_sign toy 2 (element 3) 5 5 ≡ ok 8
unfolding schnorr_sign
signed_eight = refl

native_verify_signature-sign_message_example :
    after
      (native_sign_message toy handled paired 2 77 4096 with_keys)
      (λ sig. native_verify_signature toy handled paired 4098 sig 4096)
    ≡ (returned 1, boxed toy handled paired with_keys (Boxed.schnorr_sig 8))
native_verify_signature-sign_message_example =
    native_verify_signature-sign_message toy handled paired 2 77 4098 4096 4099 5 5 (element 3) 8
      with_keys five-SignatureLaws with_keys-HasRoom pair_at public_at message_at
      (made_at "com/horizen/schnorrnative/SchnorrSignature" "signaturePointer" 4099 (omega arith))
      signed_eight

proved_eight : vrf_prove toy 2 (element 3) 5 5 ≡ ok (8, element 39882)
unfolding vrf_prove
proved_eight = refl

five-VrfLaws : VrfLaws toy 5 5
five-VrfLaws = record {
  vrf_proof_to_hash-prove = λ rng m proof gamma h coords.
      ap (λ xs. toy.finalize (absorb toy (toy.update (toy.init_constant_length 3 none) m) xs))
        (same_coords (element proof ∷ element (proof + 1) ∷ []) gamma coords);
}
  where
    same_coords : (xs ys : List Element) → some xs ≡ some ys → xs ≡ ys
    same_coords xs ys h = cc

makes_proof : MakesProof toy handled paired with_keys 4099 4099
makes_proof = record {
  output_object = 4100;
  class = 1;
  of_proof = made_at "com/horizen/vrfnative/VRFProof" "proofPointer" 4099 (omega arith);
  of_output =
      made_at "com/horizen/librustsidechains/FieldElement" "fieldElementPointer" 4100 (omega arith);
  found = refl;
  constructed = refl;
}

native_proof_to_hash-prove_example :
    after
      (native_prove toy handled paired 2 77 4096 with_keys)
      (λ result. native_proof_to_hash toy handled paired 4098 4099 4096)
    ≡ (
      returned 4101,
      boxed toy handled paired
          (proved toy handled paired with_keys 8 (element 39882))
          (Boxed.field_element (element 39882)),
    )
native_proof_to_hash-prove_example =
    native_proof_to_hash-prove toy handled paired 2 77 4098 4096 4099 4099 4101 5 5 (element 3) 8
      (element 39882) with_keys five-VrfLaws with_keys-HasRoom pair_at public_at message_at
      makes_proof
      (made_at "com/horizen/librustsidechains/FieldElement" "fieldElementPointer" 4101
        (omega arith))
      proved_eight
