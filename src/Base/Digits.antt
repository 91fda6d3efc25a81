-- ===== src/Base/Digits.antt =====
-- Numbers as sets of binary digits: `&` and `|` are intersection and union.
use Prim.Native.Nat.{ℕ, zero, suc, ◌/◌, ◌%◌, ◌^◌, ◌≤◌, min, max, bit_and, bit_or}
use mathlib.Core.Path.{◌≡◌, ap}
use native.Mathlib.Nat.{div-one, zero-div}
use native.Mathlib.Omega.{arith}
use webfuse.Base.Bits.{bit_and_lowest, bit_or_lowest}
use webfuse.Base.Masks.{halved_div}

-- The digit of `a` at place `k`.
abbrev pub digit : ℕ → ℕ → ℕ
digit a k = a / 2 ^ k % 2

pub digit-zero : (k : ℕ) → digit 0 k ≡ 0
digit-zero k = omega (arith, zero-div (2 ^ k))

digit-suc : (a k : ℕ) → digit a (suc k) ≡ digit (a / 2) k
digit-suc a k = ap (λ (t : ℕ). t % 2) (halved_div k a)

pub digit-bit_and : (a b k : ℕ) → digit (bit_and a b) k ≡ min (digit a k) (digit b k)
digit-bit_and a b zero =
    omega (arith, bit_and_lowest a b, div-one a, div-one b, div-one (bit_and a b))
digit-bit_and a b (suc k) =
    let half : bit_and a b / 2 ≡ bit_and (a / 2) (b / 2) = omega (arith, bit_and_lowest a b) in
    omega (
      arith,
      digit-suc a k,
      digit-suc b k,
      digit-suc (bit_and a b) k,
      ap (λ (t : ℕ). digit t k) half,
      digit-bit_and (a / 2) (b / 2) k,
    )

pub digit-bit_or : (a b k : ℕ) → digit (bit_or a b) k ≡ max (digit a k) (digit b k)
digit-bit_or a b zero = omega (arith, bit_or_lowest a b, div-one a, div-one b, div-one (bit_or a b))
digit-bit_or a b (suc k) =
    let half : bit_or a b / 2 ≡ bit_or (a / 2) (b / 2) = omega (arith, bit_or_lowest a b) in
    omega (
      arith,
      digit-suc a k,
      digit-suc b k,
      digit-suc (bit_or a b) k,
      ap (λ (t : ℕ). digit t k) half,
      digit-bit_or (a / 2) (b / 2) k,
    )

digits_determine : (n a b : ℕ) → a ≤ n → b ≤ n → ((k : ℕ) → digit a k ≡ digit b k) → a ≡ b
digits_determine zero a b p q same = omega arith
digits_determine (suc n) a b p q same =
    let upper : a / 2 ≡ b / 2 =
      digits_determine n (a / 2) (b / 2) (omega arith) (omega arith)
        (λ k. omega (arith, same (suc k), digit-suc a k, digit-suc b k)) in
    omega (arith, upper, same 0, div-one a, div-one b)

-- Every digit of `a` is a digit of `b`.
abbrev pub Within : ℕ → ℕ → Type 0
Within a b = (k : ℕ) → digit a k ≤ digit b k

pub Within-antisymm : (a b : ℕ) → Within a b → Within b a → a ≡ b
Within-antisymm a b p q =
    digits_determine (max a b) a b (omega arith) (omega arith) (λ k. omega (arith, p k, q k))

-- The test of the source: `a == (b & a)`.
pub Within-test : (a b : ℕ) → Within a b → a ≡ bit_and b a
Within-test a b p =
    Within-antisymm a (bit_and b a) (λ k. omega (arith, digit-bit_and b a k, p k))
      (λ k. omega (arith, digit-bit_and b a k))

pub Within-of_test : (a b : ℕ) → a ≡ bit_and b a → Within a b
Within-of_test a b e k = omega (arith, digit-bit_and b a k, ap (λ (t : ℕ). digit t k) e)

pub Within-union : (a b c : ℕ) → Within a c → Within b c → Within (bit_or a b) c
Within-union a b c p q k = omega (arith, digit-bit_or a b k, p k, q k)

pub Within-of_union_left : (a b c : ℕ) → Within (bit_or a b) c → Within a c
Within-of_union_left a b c p k = omega (arith, digit-bit_or a b k, p k)

pub Within-of_union_right : (a b c : ℕ) → Within (bit_or a b) c → Within b c
Within-of_union_right a b c p k = omega (arith, digit-bit_or a b k, p k)

pub Within-left : (a b c : ℕ) → Within a b → Within a (bit_or b c)
Within-left a b c p k = omega (arith, digit-bit_or b c k, p k)

pub Within-right : (a b c : ℕ) → Within a c → Within a (bit_or b c)
Within-right a b c p k = omega (arith, digit-bit_or b c k, p k)

-- What shares no digit with `c` lies in the rest of the union.
pub Within-other : (a b c : ℕ) → bit_and a c ≡ 0 → Within a (bit_or b c) → Within a b
Within-other a b c apart p k = omega (
  arith,
  p k,
  digit-bit_or b c k,
  digit-bit_and a c k,
  ap (λ (t : ℕ). digit t k) apart,
  digit-zero k,
)
