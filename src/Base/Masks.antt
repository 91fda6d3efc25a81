-- ===== src/Base/Masks.antt =====
-- `&` with a mask as arithmetic.
use native.Mathlib.Nat.{pow-suc, div-div-eq-div-mul, div-add-mod, one-le-pow, div-one}
use Prim.Native.Nat.{ℕ, zero, suc, ◌+◌, ◌-◌, ◌*◌, ◌/◌, ◌%◌, ◌^◌, bit_and}
use mathlib.Core.Path.{◌≡◌, ap}
use native.Mathlib.Omega.{arith}
use webfuse.Base.Bits.{bit_and_lowest, bit_and-zero, doubled}

pub halved_div : (k v : ℕ) → v / 2 ^ suc k ≡ v / 2 / 2 ^ k
halved_div k v =
    rw (div-div-eq-div-mul v 2 (2 ^ k)) (ap (λ (t : ℕ). v / t) (omega (arith, pow-suc 2 k)))

-- `v & (m << k)`
pub bit_and_shift : (k m v : ℕ) → bit_and v (m * 2 ^ k) ≡ bit_and (v / 2 ^ k) m * 2 ^ k
bit_and_shift zero m v = let e : m * 1 ≡ m = omega arith in rw (div-one v, e) (omega arith)
bit_and_shift (suc k) m v =
    let half : m * 2 ^ suc k / 2 ≡ m * 2 ^ k = omega (arith, doubled m k) in
    omega (
      arith,
      bit_and_lowest v (m * 2 ^ suc k),
      ap (bit_and (v / 2)) half,
      bit_and_shift k m (v / 2),
      ap (λ (t : ℕ). bit_and t m * 2 ^ suc k) (halved_div k v),
      doubled m k,
      doubled (bit_and (v / 2 / 2 ^ k) m) k,
    )

halved_mod : (k v : ℕ) → v % 2 ^ suc k ≡ v / 2 % 2 ^ k * 2 + v % 2
halved_mod k v = omega (
  arith,
  div-add-mod v (2 ^ suc k),
  div-add-mod (v / 2) (2 ^ k),
  ap (λ (t : ℕ). 2 ^ suc k * t) (halved_div k v),
  doubled (v / 2 / 2 ^ k) k,
)

-- `v & (2 ^ k - 1)`
pub bit_and_mask : (k v : ℕ) → bit_and v (2 ^ k - 1) ≡ v % 2 ^ k
bit_and_mask zero v = omega (arith, bit_and-zero v)
bit_and_mask (suc k) v =
    let half : (2 ^ suc k - 1) / 2 ≡ 2 ^ k - 1 = omega (arith, pow-suc 2 k) in
    omega (
      arith,
      bit_and_lowest v (2 ^ suc k - 1),
      ap (bit_and (v / 2)) half,
      bit_and_mask k (v / 2),
      halved_mod k v,
      pow-suc 2 k,
      one-le-pow k 2,
    )

-- `v & (1 << k)`
pub bit_and_bit : (k v : ℕ) → bit_and v (2 ^ k) ≡ v / 2 ^ k % 2 * 2 ^ k
bit_and_bit k v =
    let e : 2 ^ k ≡ 1 * 2 ^ k = omega arith in
    omega (
      arith,
      ap (bit_and v) e,
      bit_and_shift k 1 v,
      ap (λ (t : ℕ). t * 2 ^ k) (bit_and_mask 1 (v / 2 ^ k)),
    )
