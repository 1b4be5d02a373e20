-- ===== src/Prelude/Words.antt =====
-- Java's signed words and Rust's `as` casts between them and unsigned words.
use Prim.Native.Nat.{ℕ, ◌-◌, ◌%◌, ◌^◌, ◌<◌}
use mathlib.Core.Path.{◌≡◌}
use native.Mathlib.Omega.{arith}
use zendoo_sc_cryptolib.Prelude.Tests.{ltb, if◌then◌else◌}

-- `negsuc n` is -(n + 1).
pub data ℤ : Type 0 where
  pos : ℕ → ℤ
  negsuc : ℕ → ℤ

-- `x as u8`, `x as u32`, `x as u64` and `x as usize` of a signed word: reduction modulo 2 ^ w.
abbrev pub as_u8 : ℤ → ℕ
as_u8 (pos n) = n % 2 ^ 8
as_u8 (negsuc n) = 2 ^ 8 - 1 - n % 2 ^ 8

abbrev pub as_u32 : ℤ → ℕ
as_u32 (pos n) = n % 2 ^ 32
as_u32 (negsuc n) = 2 ^ 32 - 1 - n % 2 ^ 32

abbrev pub as_u64 : ℤ → ℕ
as_u64 (pos n) = n % 2 ^ 64
as_u64 (negsuc n) = 2 ^ 64 - 1 - n % 2 ^ 64

-- `x as i64` and `x as i32` of an unsigned word.
abbrev pub as_i64 : ℕ → ℤ
as_i64 n = if ltb (n % 2 ^ 64) (2 ^ 63) then pos (n % 2 ^ 64) else negsuc (2 ^ 64 - 1 - n % 2 ^ 64)

abbrev pub as_i32 : ℕ → ℤ
as_i32 n = if ltb (n % 2 ^ 32) (2 ^ 31) then pos (n % 2 ^ 32) else negsuc (2 ^ 32 - 1 - n % 2 ^ 32)

-- The values of a `jlong`.
abbrev pub IsLong : ℤ → Type 0
IsLong (pos n) = n < 2 ^ 63
IsLong (negsuc n) = n < 2 ^ 63

pub as_u64-as_i64 : (n : ℕ) → n < 2 ^ 64 → as_u64 (as_i64 n) ≡ n
as_u64-as_i64 n h = ground arith

pub as_i64-as_u64 : (z : ℤ) → IsLong z → as_i64 (as_u64 z) ≡ z
as_i64-as_u64 (pos n) h = ground arith
as_i64-as_u64 (negsuc n) h = ground arith
