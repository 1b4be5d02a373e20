-- ===== src/Prelude/Call.antt =====
-- The result of a Rust call that returns `Result<A, Error>` and may panic.
use Prim.Native.Nat.{ℕ}
use Prim.Native.String.{String}
use mathlib.Core.Path.{◌≡◌, refl}
use mathlib.Core.Option.{Option, none, some}
use native.Mathlib.Omega.{arith}
use mathlib.Core.Bool.{Bool, true, false}

-- The errors that the program names itself, and those that the libraries return, by a code.
pub data Error : Type 0 where
  undefined_proving_system : Error
  proving_system_mismatch : Error
  setup_failed : (max_proof_size proof_size max_vk_size vk_size : ℕ) → Error
  assignment_missing : Error
  external : ℕ → Error

-- What a panic carries: a literal, a formatted text, a boxed error with its text, or anything else.
pub data Payload : Type 0 where
  str : String → Payload
  string : String → Payload
  boxed_error : String → Payload
  opaque : Payload

pub data Call {ℓ} (A : Type ℓ) : Type ℓ where
  ok : A → Call A
  err : Error → Call A
  panic : Payload → Call A

-- `?`, and a call whose value is not used
infixl 5 ◌>>=◌
abbrev pub ◌>>=◌ {ℓ κ} : {X : Type ℓ} {Y : Type κ} (m : Call X) (next : X → Call Y) → Call Y
panic payload >>= next = panic payload
err error >>= next = err error
ok x >>= next = next x

infixl 5 ◌>>◌
abbrev pub ◌>>◌ {κ} : {Y : Type κ} (m : Call (Unit {0})) (next : Call Y) → Call Y
m >> next = m >>= λ (u : Unit {0}). next

-- `assert!` and `assert_eq!`
abbrev pub assert : Bool → Call (Unit {0})
assert true = ok tt
assert false = panic (string "assertion failed")

-- `option.ok_or(e)?`
abbrev pub ok_or {ℓ} : {A : Type ℓ} → Option A → Error → Call A
ok_or none e = err e
ok_or (some a) e = ok a

-- A call that succeeds went through both of its steps: the parts are handed to the rest of a proof.
pub invert {ℓ κ μ} :
    {A : Type ℓ} {B : Type κ} {C : Type μ} (m : Call A) (f : A → Call B) {b : B}
    → (m >>= f) ≡ ok b
    → ((a : A) → m ≡ ok a → f a ≡ ok b → C)
    → C
invert (ok a) f h k = k a refl h
invert (err e) f h k = cc
invert (panic p) f h k = cc

pub ok-injective {ℓ} : {A : Type ℓ} {a b : A} → ok a ≡ ok b → a ≡ b
ok-injective h = ground arith

-- A chain whose first call succeeds goes on with its value.
pub run-ok {ℓ κ} :
    {A : Type ℓ} {B : Type κ} (m : Call A) (f : A → Call B) {a : A} {r : Call B}
    → m ≡ ok a
    → f a ≡ r
    → (m >>= f) ≡ r
run-ok m f e h = rw e h
