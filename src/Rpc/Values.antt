-- ===== src/Rpc/Values.antt =====
-- Arguments that are encoded by the service and decoded by the provider.
use webfuse.Base.{ℕ, ◌%◌, ◌/◌, ◌^◌, ◌≡◌, refl, ◌==◌, ◌++◌, Bool, true, false, if◌then◌else◌, arith}
use webfuse.Flags.Platform.{Platform}
use webfuse.Flags.AccessMode
use webfuse.Flags.AccessMode.{HasAccessModes, from_int-eq-mod, to_int-eq-mod}
use webfuse.Flags.FileMode
use webfuse.Flags.FileMode.{
  HasFileModes, plain_mode, plain_mode-lt, plain_mode_idem, from_mode-eq-plain_mode,
  to_mode-eq-plain_mode,
}
use webfuse.Flags.RenameFlags.{HasRenameFlags, rename_flags, rename_flags-eq-mod}
use webfuse.Message.Bytes.{be32, be64}

module _ (p q : Platform) where
  pub access_mode_crosses :
      (mode : ℕ)
      → HasAccessModes p
      → HasAccessModes q
      → AccessMode.to_int q (AccessMode.from_int p mode % 2 ^ 8) ≡ mode % 8
  access_mode_crosses mode a b =
      rw (from_int-eq-mod p a mode, to_int-eq-mod q b (mode % 8 % 2 ^ 8)) (omega arith)

  pub mode_crosses :
      (mode : ℕ)
      → HasFileModes p
      → HasFileModes q
      → FileMode.to_mode q (FileMode.from_mode p mode % 2 ^ 32) ≡ plain_mode mode
  mode_crosses mode a b =
      let e : plain_mode mode % 2 ^ 32 ≡ plain_mode mode = omega (arith, plain_mode-lt mode) in
      rw (from_mode-eq-plain_mode p a mode, e, to_mode-eq-plain_mode q b (plain_mode mode))
        (plain_mode_idem mode)

pub rename_flags_cross :
    (p : Platform) (flags : ℕ) → HasRenameFlags p → rename_flags p flags % 2 ^ 8 ≡ flags % 4
rename_flags_cross p flags a = rw (rename_flags-eq-mod p a flags) (omega arith)

pub bool_crosses : (b : Bool) → (1 == (if b then 1 else 0) % 2 ^ 8) ≡ b
bool_crosses true = refl
bool_crosses false = refl

-- The two halves of eight bytes.
pub be64_halves : (v : ℕ) → be64 v ≡ be32 (v / 2 ^ 32) ++ be32 v
unfolding be64
be64_halves v = refl
