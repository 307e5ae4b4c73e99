-- ===== src/Prelude/Int.antt =====
-- The program's `i64`, as integers over the native numbers.
use Prim.Native.Nat.{ℕ}
use mathlib.Core.Bool.{Bool, true, false}
use mathlib.Core.List.{List}
use rustmail.Prelude.Tests.{leb}
use rustmail.Prelude.Lists.{take, drop}

-- `negsuc n` is `-1 - n`.
pub data ℤ : Type 0 where
  pos negsuc : ℕ → ℤ

-- `usize::try_from(i)` and `u64::try_from(i)`, where a negative number gives nothing, and `max(0)`.
abbrev pub from_zero : ℤ → ℕ
from_zero (pos n) = n
from_zero (negsuc n) = 0

abbrev pub is_negative : ℤ → Bool
is_negative (pos n) = false
is_negative (negsuc n) = true

-- `n <= i` for a number that is not negative.
abbrev pub leb_int : ℕ → ℤ → Bool
leb_int n (pos m) = leb n m
leb_int n (negsuc m) = false

-- SQL's `LIMIT` takes every row for a negative number, and its `OFFSET` skips none.
abbrev pub limited {ℓ} : {A : Type ℓ} → ℤ → List A → List A
limited (pos n) xs = take n xs
limited (negsuc n) xs = xs

abbrev pub skipping {ℓ} : {A : Type ℓ} → ℤ → List A → List A
skipping i xs = drop (from_zero i) xs
