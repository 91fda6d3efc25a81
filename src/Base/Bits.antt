-- ===== src/Base/Bits.antt =====
-- Laws of `|` and `&` that hold at every width.
use Prim.Native.Nat.{
  ℕ, zero, suc, ◌+◌, ◌*◌, ◌/◌, ◌%◌, ◌^◌, ◌≤◌, ◌<◌, min, max, digits, bitwise, bit_and, bit_or,
  bit_and-bitwise, bit_or-bitwise,
}
use mathlib.Core.Path.{◌≡◌, refl, ap}
use native.Mathlib.Omega.{arith}
use native.Mathlib.Nat.{pow-suc}

module _ (last : ℕ → ℕ) (digit : ℕ → ℕ → ℕ) where
  -- Fuel beyond the number itself changes nothing.
  enough_fuel : (n m a b : ℕ) → a ≤ n → a ≤ m → digits last digit n a b ≡ digits last digit m a b
  enough_fuel zero zero zero b p q = refl
  enough_fuel zero (suc m) zero b p q = refl
  enough_fuel (suc n) zero zero b p q = refl
  enough_fuel (suc n) (suc m) zero b p q = refl
  enough_fuel zero m (suc a) b p q = absurd (omega arith)
  enough_fuel (suc n) zero (suc a) b p q = absurd (omega arith)
  enough_fuel (suc n) (suc m) (suc a) b p q =
      rw (enough_fuel n m (suc a / 2) (b / 2) (omega arith) (omega arith))

  lowest_digit :
      (a b : ℕ)
      → bitwise last digit (suc a) b
        ≡ bitwise last digit (suc a / 2) (b / 2) * 2 + digit (suc a % 2) (b % 2)
  lowest_digit a b =
      omega (arith, enough_fuel a (suc a / 2) (suc a / 2) (b / 2) (omega arith) (omega arith))

pub bit_or_lowest : (a b : ℕ) → bit_or a b ≡ bit_or (a / 2) (b / 2) * 2 + max (a % 2) (b % 2)
bit_or_lowest zero b = simp bit_or-bitwise (omega arith)
bit_or_lowest (suc a) b = simp bit_or-bitwise (lowest_digit (λ y. y) max a b)

pub bit_and_lowest : (a b : ℕ) → bit_and a b ≡ bit_and (a / 2) (b / 2) * 2 + min (a % 2) (b % 2)
bit_and_lowest zero b = simp bit_and-bitwise (omega arith)
bit_and_lowest (suc a) b = simp bit_and-bitwise (lowest_digit (λ y. 0) min a b)

pub zero-bit_or : (b : ℕ) → bit_or 0 b ≡ b
zero-bit_or b = bit_or-bitwise 0 b

pub zero-bit_and : (b : ℕ) → bit_and 0 b ≡ 0
zero-bit_and b = bit_and-bitwise 0 b

or_zero_upto : (n a : ℕ) → a ≤ n → bit_or a 0 ≡ a
or_zero_upto n zero h = zero-bit_or 0
or_zero_upto zero (suc a) h = absurd (omega arith)
or_zero_upto (suc n) (suc a) h =
    omega (arith, bit_or_lowest (suc a) 0, or_zero_upto n (suc a / 2) (omega arith))

pub bit_or-zero : (a : ℕ) → bit_or a 0 ≡ a
bit_or-zero a = or_zero_upto a a (omega arith)

and_zero_upto : (n a : ℕ) → a ≤ n → bit_and a 0 ≡ 0
and_zero_upto n zero h = zero-bit_and 0
and_zero_upto zero (suc a) h = absurd (omega arith)
and_zero_upto (suc n) (suc a) h =
    omega (arith, bit_and_lowest (suc a) 0, and_zero_upto n (suc a / 2) (omega arith))

pub bit_and-zero : (a : ℕ) → bit_and a 0 ≡ 0
bit_and-zero a = and_zero_upto a a (omega arith)

pub doubled : (q k : ℕ) → q * 2 ^ suc k ≡ 2 * (q * 2 ^ k)
doubled q k = omega (arith, ap (λ (t : ℕ). q * t) (pow-suc 2 k))

-- `(q << k) | r` adds, where `r` has at most `k` bits.
pub bit_or_disjoint : (k q r : ℕ) → r < 2 ^ k → bit_or (q * 2 ^ k) r ≡ q * 2 ^ k + r
bit_or_disjoint zero q r h = ground (arith, bit_or-zero (q * 1), bit_or-zero q)
bit_or_disjoint (suc k) q r h = ground (
  arith,
  bit_or_lowest (q * 2 ^ suc k) r,
  doubled q k,
  pow-suc 2 k,
  bit_or_disjoint k q (r / 2) (omega (arith, pow-suc 2 k)),
)

-- The same for a left side that is known to be a multiple of `2 ^ k`.
pub bit_or-add : (k q x r : ℕ) → x ≡ q * 2 ^ k → r < 2 ^ k → bit_or x r ≡ x + r
bit_or-add k q x r e h = rw e (bit_or_disjoint k q r h)

pub bit_or_disjoint_right : (k q r : ℕ) → r < 2 ^ k → bit_or r (q * 2 ^ k) ≡ q * 2 ^ k + r
bit_or_disjoint_right zero q zero h = omega (arith, zero-bit_or (q * 1))
bit_or_disjoint_right zero q (suc r) h = absurd (omega arith)
bit_or_disjoint_right (suc k) q r h = ground (
  arith,
  bit_or_lowest r (q * 2 ^ suc k),
  doubled q k,
  pow-suc 2 k,
  bit_or_disjoint_right k q (r / 2) (omega (arith, pow-suc 2 k)),
)

-- Bytes that are shifted to their places and joined by `|`.
unfoldable pub join4 : ℕ → ℕ → ℕ → ℕ → ℕ
join4 a b c d = bit_or (bit_or (bit_or (a * 2 ^ 24) (b * 2 ^ 16)) (c * 2 ^ 8)) d

unfoldable pub join8 : ℕ → ℕ → ℕ → ℕ → ℕ → ℕ → ℕ → ℕ → ℕ
join8 a b c d e f g h =
    bit_or
      (bit_or
        (bit_or
          (bit_or (bit_or (bit_or (bit_or (a * 2 ^ 56) (b * 2 ^ 48)) (c * 2 ^ 40)) (d * 2 ^ 32))
            (e * 2 ^ 24))
          (f * 2 ^ 16))
        (g * 2 ^ 8))
      h

module _ (a b c d : ℕ) (pa : a < 256) (pb : b < 256) (pc : c < 256) (pd : d < 256) where
  pub join4-eq-sum : join4 a b c d ≡ a * 2 ^ 24 + b * 2 ^ 16 + c * 2 ^ 8 + d
  unfolding join4
  join4-eq-sum =
      rw
        (
          bit_or-add 24 a (a * 2 ^ 24) (b * 2 ^ 16) refl (omega arith),
          bit_or-add 16 (a * 2 ^ 8 + b) (a * 2 ^ 24 + b * 2 ^ 16) (c * 2 ^ 8) (omega arith)
              (omega arith),
          bit_or-add 8 (a * 2 ^ 16 + b * 2 ^ 8 + c) (a * 2 ^ 24 + b * 2 ^ 16 + c * 2 ^ 8) d
              (omega arith) (omega arith),
        )
        refl

  module _ (e f g h : ℕ) (pe : e < 256) (pf : f < 256) (pg : g < 256) (ph : h < 256) where
    pub join8-eq-sum :
        join8 a b c d e f g h
        ≡ a * 2 ^ 56
          + b * 2 ^ 48
          + c * 2 ^ 40
          + d * 2 ^ 32
          + e * 2 ^ 24
          + f * 2 ^ 16
          + g * 2 ^ 8
          + h
    unfolding join8
    join8-eq-sum =
        let s2 : ℕ = a * 2 ^ 56 + b * 2 ^ 48 in
        let s3 : ℕ = s2 + c * 2 ^ 40 in
        let s4 : ℕ = s3 + d * 2 ^ 32 in
        let s5 : ℕ = s4 + e * 2 ^ 24 in
        let s6 : ℕ = s5 + f * 2 ^ 16 in
        let s7 : ℕ = s6 + g * 2 ^ 8 in
        rw
          (
            bit_or-add 56 a (a * 2 ^ 56) (b * 2 ^ 48) refl (omega arith),
            bit_or-add 48 (s2 / 2 ^ 48) s2 (c * 2 ^ 40) (omega arith) (omega arith),
            bit_or-add 40 (s3 / 2 ^ 40) s3 (d * 2 ^ 32) (omega arith) (omega arith),
            bit_or-add 32 (s4 / 2 ^ 32) s4 (e * 2 ^ 24) (omega arith) (omega arith),
            bit_or-add 24 (s5 / 2 ^ 24) s5 (f * 2 ^ 16) (omega arith) (omega arith),
            bit_or-add 16 (s6 / 2 ^ 16) s6 (g * 2 ^ 8) (omega arith) (omega arith),
            bit_or-add 8 (s7 / 2 ^ 8) s7 h (omega arith) (omega arith),
          )
          refl
