-- ===== src/Flags/RenameFlags.antt =====
-- The flags of `rename`, as `messagewriter::write_rename_flags` of
-- src/webfuse/ws/messagewriter.cpp encodes them.
use webfuse.Base.{ℕ, ◌%◌, ◌≡◌, arith, ◌==◌, if◌then◌else◌, bit_and, bit_or}
use webfuse.Base.Masks.{bit_and_bit}
use webfuse.Flags.Platform.{Platform}

abbrev rename_noreplace : ℕ
rename_noreplace = 0x01

abbrev rename_exchange : ℕ
rename_exchange = 0x02

-- `if (test == (value & test)) { result |= bit; }`
abbrev pub merge_if_all : ℕ → ℕ → ℕ → ℕ → ℕ
merge_if_all value test bit result =
    if test == bit_and value test then bit_or result bit else result

module _ (p : Platform) where
  unfoldable pub rename_flags : ℕ → ℕ
  rename_flags value =
      merge_if_all value p.rename_exchange rename_exchange
        (merge_if_all value p.rename_noreplace rename_noreplace 0)

  -- The documented values of the flags.
  pub record HasRenameFlags : Type 0 where
    pub noreplace_eq : p.rename_noreplace ≡ 1
    pub exchange_eq : p.rename_exchange ≡ 2

  pub rename_flags-eq-mod : HasRenameFlags → (value : ℕ) → rename_flags value ≡ value % 4
  unfolding rename_flags
  rename_flags-eq-mod documented value =
      rw (documented.noreplace_eq, documented.exchange_eq)
        (ground (arith, bit_and_bit 0 value, bit_and_bit 1 value))
