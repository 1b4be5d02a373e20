-- ===== src/Jni/Defined/Calls.antt =====
-- The calls that Java makes of api/src/lib.rs: a body that is defined gives a call that is, whatever
-- `ffi_export!` has to catch.
use zendoo_sc_cryptolib.Prelude.{
  ℕ, ◌≡◌, ◌≢◌, refl, ap, subst, Option, none, some, String, if◌then◌else◌,
}
use text.Mathlib.Text.{◌==◌}
use zendoo_sc_cryptolib.Primitives.{Primitives}
use zendoo_sc_cryptolib.Jni.{
  Handled, World, Exit, done, panicked, Native, Returned, returned, aborted, Jvm, any_to_string,
  after_throw, catch_unwind, ffi_export,
}
use zendoo_sc_cryptolib.Jni.Invariant.{
  an_element, a_g2, a_scalar, a_signature, a_vrf_proof, a_hash, a_merkle_tree, a_merkle_path,
  a_commitment_tree, an_existence_proof, an_absence_proof, Kind, undefined, made,
}
use zendoo_sc_cryptolib.Jni.Defined.{field_of, IsHandle, IsDefined, Safe, SafeAt, CallSafe}
use zendoo_sc_cryptolib.Jni.Defined.Rules.{throw_inner-Total}

-- The kind whose field has a name.
abbrev kind_named : String → Option Kind
kind_named s =
    if s == field_of an_element
    then some an_element
    else (if s == field_of a_g2
        then some a_g2
        else (if s == field_of a_scalar
            then some a_scalar
            else (if s == field_of a_signature
                then some a_signature
                else (if s == field_of a_vrf_proof
                    then some a_vrf_proof
                    else (if s == field_of a_hash
                        then some a_hash
                        else (if s == field_of a_merkle_tree
                            then some a_merkle_tree
                            else (if s == field_of a_merkle_path
                                then some a_merkle_path
                                else (if s == field_of a_commitment_tree
                                    then some a_commitment_tree
                                    else (if s == field_of an_existence_proof
                                        then some an_existence_proof
                                        else (if s == field_of an_absence_proof
                                            then some an_absence_proof
                                            else none))))))))))

kind_named-field_of : (k : Kind) → kind_named (field_of k) ≡ some k
kind_named-field_of an_element = refl
kind_named-field_of a_g2 = refl
kind_named-field_of a_scalar = refl
kind_named-field_of a_signature = refl
kind_named-field_of a_vrf_proof = refl
kind_named-field_of a_hash = refl
kind_named-field_of a_merkle_tree = refl
kind_named-field_of a_merkle_path = refl
kind_named-field_of a_commitment_tree = refl
kind_named-field_of an_existence_proof = refl
kind_named-field_of an_absence_proof = refl

-- No two kinds of box stand in fields of one name.
field_of_injective : (k k' : Kind) → field_of k ≡ field_of k' → k ≡ k'
field_of_injective k k' e = cc (kind_named-field_of k, kind_named-field_of k', ap kind_named e)

module _ {P : Primitives} {H : Handled P} where
  made-IsDefined :
      {A : Type 0} (r : Returned A × World P H) (w : World P H)
      → r.0 ≢ Returned.undefined_behaviour
      → (made (λ v. r) w).0 ≢ undefined
  unfolding made
  made-IsDefined (returned a, v) w n = λ e. cc
  made-IsDefined (aborted, v) w n = λ e. cc
  made-IsDefined (Returned.undefined_behaviour, v) w n = λ e. n refl

module _ (P : Primitives) (H : Handled P) (J : Jvm) where
  after-IsDefined :
      {A : Type 0} (default : A) (r : Exit (Unit {0}) × World P H)
      → IsDefined r.0
      → (after_throw P H J default r).0 ≢ Returned.undefined_behaviour
  unfolding after_throw
  after-IsDefined default (done u, v) h = λ e. cc
  after-IsDefined default (panicked p, v) h = λ e. cc
  after-IsDefined default (Exit.undefined_behaviour, v) h = λ e. h

  catch-IsDefined :
      {A : Type 0} (default : A) (r : Exit A × World P H)
      → IsDefined r.0
      → (catch_unwind P H J default r).0 ≢ Returned.undefined_behaviour
  unfolding catch_unwind
  catch-IsDefined default (done a, v) h = λ e. cc
  catch-IsDefined default (panicked p, v) h =
      after-IsDefined default _
        ((throw_inner-Total P H J "java/lang/RuntimeException" (any_to_string p)).at v)
  catch-IsDefined default (Exit.undefined_behaviour, v) h = λ e. h

  pub call-IsDefined :
      {A : Type 0} (default : A) (body : Native P H A) (w : World P H)
      → IsDefined (body w).0
      → (made (ffi_export P H J default body) w).0 ≢ undefined
  unfolding made ffi_export
  call-IsDefined default body w h =
      made-IsDefined (catch_unwind P H J default (body w)) w (catch-IsDefined default (body w) h)

  pub made-CallSafe :
      {A : Type 0} (default : A) (body : Native P H A)
      → Safe J body
      → CallSafe J (λ w. Unit {0}) (made (ffi_export P H J default body))
  made-CallSafe default body s = record {
    at = λ w live q. call-IsDefined default body w (s.at w live);
  }

  -- A call that is given the address itself.
  pub given-CallSafe :
      {A : Type 0} (default : A) (body : Native P H A) (k : Kind) (p : ℕ)
      → SafeAt J p (field_of k) body
      → CallSafe J (λ w. IsHandle w k p) (made (ffi_export P H J default body))
  given-CallSafe default body k p s = record {
    at = λ w live q.
        call-IsDefined default body w
          (s.at w live λ k' e. subst (λ k. IsHandle w k p) (field_of_injective k k' e) q);
  }
