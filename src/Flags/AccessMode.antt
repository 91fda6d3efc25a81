-- ===== src/Flags/AccessMode.antt =====
-- The mode of `access`: src/webfuse/filesystem/accessmode.hpp and accessmode.cpp. An `int` and an
-- `int8_t` are their bit patterns.
use webfuse.Base.{ℕ, ◌%◌, ◌≡◌, not, arith, ◌==◌, if◌then◌else◌, bit_and, bit_or}
use webfuse.Base.Masks.{bit_and_bit}
use webfuse.Flags.Platform.{Platform}

-- The encoding that messages use.
abbrev f_ok : ℕ
f_ok = 0

abbrev r_ok : ℕ
r_ok = 4

abbrev w_ok : ℕ
w_ok = 2

abbrev x_ok : ℕ
x_ok = 1

-- `if (0 != (value & test)) { result |= bit; }`
abbrev merge_if_any : ℕ → ℕ → ℕ → ℕ → ℕ
merge_if_any value test bit result =
    if not (bit_and value test == 0) then bit_or result bit else result

module _ (p : Platform) where
  unfoldable pub from_int : ℕ → ℕ
  from_int value =
      merge_if_any value p.x_ok x_ok
        (merge_if_any value p.w_ok w_ok (merge_if_any value p.r_ok r_ok f_ok))

  unfoldable pub to_int : ℕ → ℕ
  to_int value_ =
      merge_if_any value_ x_ok p.x_ok
        (merge_if_any value_ w_ok p.w_ok (merge_if_any value_ r_ok p.r_ok 0))

  -- The documented values of `R_OK`, `W_OK` and `X_OK`.
  pub record HasAccessModes : Type 0 where
    pub r_ok_eq : p.r_ok ≡ 4
    pub w_ok_eq : p.w_ok ≡ 2
    pub x_ok_eq : p.x_ok ≡ 1

  module _ (documented : HasAccessModes) where
    open documented use {r_ok_eq, w_ok_eq, x_ok_eq}

    pub from_int-eq-mod : (value : ℕ) → from_int value ≡ value % 8
    unfolding from_int
    from_int-eq-mod value =
        rw (r_ok_eq, w_ok_eq, x_ok_eq)
          (ground (arith, bit_and_bit 0 value, bit_and_bit 1 value, bit_and_bit 2 value))

    pub to_int-eq-mod : (value : ℕ) → to_int value ≡ value % 8
    unfolding to_int
    to_int-eq-mod value =
        rw (r_ok_eq, w_ok_eq, x_ok_eq)
          (ground (arith, bit_and_bit 0 value, bit_and_bit 1 value, bit_and_bit 2 value))
