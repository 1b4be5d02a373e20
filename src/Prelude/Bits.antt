-- ===== src/Prelude/Bits.antt =====
-- Bit strings and the numbers that they stand for.
use Prim.Native.Nat.{ℕ, zero, suc, ◌+◌, ◌*◌, ◌/◌, ◌%◌, ◌^◌, ◌≤◌, ◌<◌}
use mathlib.Core.Path.{◌≡◌, refl, ap, ◌∙◌}
use mathlib.Core.Bool.{Bool, true, false}
use mathlib.Core.List.{List, [], ◌∷◌, ◌++◌, reverse, reverse-append}
use native.Mathlib.Nat.{
  pow-zero, pow-suc, pow-succ', zero-add, suc-add, mod-lt, mod-eq_of_lt, div-add-mod,
  mul-add-mod_self_left,
}
use native.Mathlib.Omega.{arith}
use zendoo_sc_cryptolib.Prelude.Tests.{◌==◌}
use zendoo_sc_cryptolib.Prelude.Lists.{length, drop, length-append}

abbrev pub bit : Bool → ℕ
bit true = 1
bit false = 0

pub bit-le-one : (b : Bool) → bit b ≤ 1
bit-le-one true = omega arith
bit-le-one false = omega arith

pub two_pow-pos : (w : ℕ) → 0 < 2 ^ w
two_pow-pos zero = omega arith
two_pow-pos (suc w) = rw pow-suc (omega (arith, two_pow-pos w))

pow-add : (a m n : ℕ) → a ^ (m + n) ≡ a ^ m * a ^ n
pow-add a zero n = rw (zero-add, pow-zero) (omega arith)
pow-add a (suc m) n = rw (suc-add, pow-suc, pow-suc a m, pow-add a m n) (omega arith)

-- The number that bits, the highest first, stand for.
unfoldable pub value_be : List Bool → ℕ
value_be [] = 0
value_be (b ∷ bs) = bit b * 2 ^ length bs + value_be bs

-- The lowest `w` bits of `n`, the highest first.
unfoldable pub bits_be : ℕ → ℕ → List Bool
bits_be zero n = []
bits_be (suc w) n = ((n / 2 ^ w) % 2 == 1) ∷ bits_be w n

-- The lowest `w` bits of `n`, the lowest first.
unfoldable pub bits_le : ℕ → ℕ → List Bool
bits_le zero n = []
bits_le (suc w) n = (n % 2 == 1) ∷ bits_le w (n / 2)

pub length-bits_be : (w n : ℕ) → length (bits_be w n) ≡ w
unfolding bits_be
length-bits_be zero n = refl
length-bits_be (suc w) n = ap suc (length-bits_be w n)

pub length-bits_le : (w n : ℕ) → length (bits_le w n) ≡ w
unfolding bits_le
length-bits_le zero n = refl
length-bits_le (suc w) n = ap suc (length-bits_le w (n / 2))

pub drop-bits_be : (k w n : ℕ) → drop k (bits_be (k + w) n) ≡ bits_be w n
unfolding bits_be
drop-bits_be zero w n = rw zero-add
drop-bits_be (suc k) w n = rw suc-add (drop-bits_be k w n)

pub value_be-append :
    (xs ys : List Bool) → value_be (xs ++ ys) ≡ value_be xs * 2 ^ length ys + value_be ys
unfolding value_be
value_be-append [] ys = omega arith
value_be-append (x ∷ xs) ys =
    rw (length-append xs ys, pow-add 2 (length xs) (length ys), value_be-append xs ys) (omega arith)

-- One more bit: the quotient's lowest bit goes above the remainder.
mod_split : (n q b : ℕ) → 0 < q → 0 < b → n % (q * b) ≡ n / q % b * q + n % q
mod_split n q b hq hb =
    let low : ℕ = n / q % b * q + n % q in
    let bound : low < q * b = grind (arith, mod-lt (n / q) hb, mod-lt n hq) in
    let whole : n ≡ q * b * (n / q / b) + low =
      omega (arith, div-add-mod n q, ap (λ (t : ℕ). q * t) (div-add-mod (n / q) b)) in
    ap (λ (t : ℕ). t % (q * b)) whole
    ∙ mul-add-mod_self_left (q * b) (n / q / b) low
    ∙ mod-eq_of_lt bound

bit-== : (k : ℕ) → k < 2 → bit (k == 1) ≡ k
bit-== k h = ground arith

pub value_be-bits_be : (w n : ℕ) → value_be (bits_be w n) ≡ n % 2 ^ w
unfolding value_be bits_be
value_be-bits_be zero n = omega arith
value_be-bits_be (suc w) n =
    rw
      (
        length-bits_be w n,
        value_be-bits_be w n,
        pow-suc 2 w,
        mod_split n (2 ^ w) 2 (two_pow-pos w) (omega arith),
        bit-== (n / 2 ^ w % 2) (omega arith),
      )
      refl

value_be-snoc : (xs : List Bool) (x : Bool) → value_be (xs ++ x ∷ []) ≡ value_be xs * 2 + bit x
unfolding value_be
value_be-snoc xs x = value_be-append xs (x ∷ []) ∙ omega arith

pub value_be-reverse-bits_le : (w n : ℕ) → value_be (reverse (bits_le w n)) ≡ n % 2 ^ w
unfolding value_be bits_le
value_be-reverse-bits_le zero n = omega arith
value_be-reverse-bits_le (suc w) n =
    rw
      (
        reverse-append (((n % 2) == 1) ∷ []) (bits_le w (n / 2)),
        value_be-snoc (reverse (bits_le w (n / 2))) ((n % 2) == 1),
        value_be-reverse-bits_le w (n / 2),
        bit-== (n % 2) (omega arith),
        pow-succ' 2 w,
      )
      (omega (arith, mod_split n 2 (2 ^ w) (omega arith) (two_pow-pos w)))

pub value_be-lt : (bs : List Bool) → value_be bs < 2 ^ length bs
unfolding value_be
value_be-lt [] = omega arith
value_be-lt (true ∷ bs) = rw pow-suc (omega (arith, value_be-lt bs))
value_be-lt (false ∷ bs) = rw pow-suc (omega (arith, value_be-lt bs))
