-- ===== src/Prelude/Log.antt =====
-- `usize::next_power_of_two` and `u64::trailing_zeros`, as the program composes them.
use Prim.Native.Nat.{ℕ, zero, suc, ◌+◌, ◌*◌, ◌/◌, ◌%◌, ◌^◌, ◌≤◌, ◌<◌}
use mathlib.Core.Path.{◌≡◌, refl}
use native.Mathlib.Nat.{pow-succ', suc-add, add-suc, add-zero}
use native.Mathlib.Omega.{arith}
use zendoo_sc_cryptolib.Prelude.Tests.{◌==◌, leb, if◌then◌else◌, Bool-cases, leb→le, leb→lt}
use native.Mathlib.Decide.{ℕ_discrete}
use mathlib.Core.Logic.{inl, inr}
use mathlib.Core.Bool.{false}

-- Doubles `p` until it reaches `n`.
abbrev next_power_from : ℕ → ℕ → ℕ → ℕ
next_power_from zero p n = p
next_power_from (suc f) p n = let rest = next_power_from f (2 * p) n in if leb n p then p else rest

unfoldable pub next_power_of_two : ℕ → ℕ
next_power_of_two n = next_power_from 64 1 n

zeros_from : ℕ → ℕ → ℕ
zeros_from zero x = 0
zeros_from (suc f) x = let rest = suc (zeros_from f (x / 2)) in if x % 2 == 1 then 0 else rest

unfoldable pub trailing_zeros : ℕ → ℕ
unfolding zeros_from
trailing_zeros x = zeros_from 64 x

-- `(max_pks.next_power_of_two() as u64).trailing_zeros()`
unfoldable pub log_max_pks : ℕ → ℕ
unfolding trailing_zeros next_power_of_two
log_max_pks max_pks = trailing_zeros (next_power_of_two max_pks)

half_double : (q : ℕ) → (2 * q) / 2 ≡ q
half_double q = omega arith

zeros_from-pow : (f j : ℕ) → j ≤ f → zeros_from f (2 ^ j) ≡ j
unfolding zeros_from
zeros_from-pow zero zero h = refl
zeros_from-pow zero (suc j) h = absurd (omega arith)
zeros_from-pow (suc f) zero h = refl
zeros_from-pow (suc f) (suc j) h =
    rw (pow-succ' 2 j, half_double (2 ^ j), zeros_from-pow f j (omega arith), even (2 ^ j)) refl
  where
    even : (q : ℕ) → (2 * q % 2 == 1) ≡ false
    even q = ground arith

next_power_from-least :
    (f k n : ℕ)
    → n ≤ 2 ^ (k + f)
    → ((i : ℕ) → i < k → 2 ^ i < n)
    → (j : ℕ) × (next_power_from f (2 ^ k) n ≡ 2 ^ j)
      × (j ≤ k + f)
      × (n ≤ 2 ^ j)
      × ((i : ℕ) → i < j → 2 ^ i < n)
next_power_from-least zero k n h below = (k, refl, omega arith, rw add-zero at h, below)
next_power_from-least (suc f) k n h below = elim (Bool-cases (leb n (2 ^ k))) [
  | inl done ↦ (k, rw done, omega arith, leb→le n (2 ^ k) done, below)
  | inr more ↦
      let (j, e, small, above, least) =
        next_power_from-least f (suc k) n (rw suc-add (rw add-suc at h)) (λ i l.
          elim (ℕ_discrete i k) [
            | yes same ↦ rw same (leb→lt n (2 ^ k) more)
            | no other ↦ below i (omega (arith, other))
          ]) in
      (j, rw (more, ← pow-succ' 2 k) e, omega arith, above, least)
]

-- The rounded-up logarithm is the least exponent of a power of two that covers the number of keys: no
-- smaller one does, for at most `2 ^ 63` keys, and so the loops need no more than 64 rounds.
pub log_max_pks-least :
    (n : ℕ)
    → n ≤ 2 ^ 63
    → (n ≤ 2 ^ log_max_pks n) × ((i : ℕ) → i < log_max_pks n → 2 ^ i < n) × (log_max_pks n ≤ 64)
unfolding log_max_pks
log_max_pks-least n h =
    let (j, e, small, above, least) =
      next_power_from-least 64 0 n (omega arith) (λ i l. absurd (omega arith)) in
    rw (e, zeros_from-pow 64 j (omega arith)) (above, least, omega arith)

-- A power of two with the rounded-up logarithm as its exponent covers the number of keys.
pub le-pow-log_max_pks : (n : ℕ) → n ≤ 2 ^ 63 → n ≤ 2 ^ log_max_pks n
le-pow-log_max_pks n h = (log_max_pks-least n h).0

pub log_max_pks-le : (n : ℕ) → n ≤ 2 ^ 63 → log_max_pks n ≤ 64
log_max_pks-le n h = (log_max_pks-least n h).2

log_examples : (log_max_pks 0 ≡ 0) × (log_max_pks 1 ≡ 0) × (log_max_pks 6 ≡ 3) × (log_max_pks 8 ≡ 3)
unfolding log_max_pks
log_examples = (refl, refl, refl, refl)
