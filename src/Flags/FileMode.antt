-- ===== src/Flags/FileMode.antt =====
-- File modes: src/webfuse/filesystem/filemode.hpp and filemode.cpp.
use webfuse.Base.{
  ℕ, ◌+◌, ◌*◌, ◌/◌, ◌%◌, ◌^◌, ◌<◌, ◌≡◌, ap, Bool, ◌||◌, arith, ◌==◌, if◌then◌else◌, bit_and, bit_or,
}
use webfuse.Base.Bits.{bit_or_disjoint_right}
use webfuse.Base.Masks.{bit_and_mask, bit_and_shift}
use webfuse.Flags.Platform.{Platform}

-- `filemode::...`
abbrev filetype_mask : ℕ
filetype_mask = 0o170000

abbrev reg : ℕ
reg = 0o100000

abbrev dir : ℕ
dir = 0o040000

abbrev chr : ℕ
chr = 0o020000

abbrev blk : ℕ
blk = 0o060000

abbrev fifo : ℕ
fifo = 0o010000

abbrev lnk : ℕ
lnk = 0o120000

abbrev sock : ℕ
sock = 0o140000

-- `is_reg()`, `is_dir()`, ... of filemode.hpp, for the file type `kind`.
abbrev is_kind : ℕ → ℕ → Bool
is_kind kind value_ = kind == bit_and value_ filetype_mask

-- `if (test) { result |= bit; }`
abbrev merge_if : Bool → ℕ → ℕ → ℕ
merge_if test bit result = if test then bit_or result bit else result

module _ (p : Platform) where
  -- `S_ISREG(value)` and the like of <sys/stat.h>: `(value & S_IFMT) == S_IFREG`.
  abbrev has_kind : ℕ → ℕ → Bool
  has_kind kind value = bit_and value p.s_ifmt == kind

  unfoldable pub from_mode : ℕ → ℕ
  from_mode value = merge_if (has_kind p.s_ifsock value) sock (
      merge_if (has_kind p.s_iflnk value) lnk (
        merge_if (has_kind p.s_ififo value) fifo (
          merge_if (has_kind p.s_ifblk value) blk (
            merge_if (has_kind p.s_ifchr value) chr (
              merge_if (has_kind p.s_ifdir value) dir
                (merge_if (has_kind p.s_ifreg value) reg (bit_and value 0o7777)))))))

  unfoldable pub to_mode : ℕ → ℕ
  to_mode value_ = merge_if (is_kind sock value_) p.s_ifsock (
      merge_if (is_kind lnk value_) p.s_iflnk (
        merge_if (is_kind fifo value_) p.s_ififo (
          merge_if (is_kind blk value_) p.s_ifblk (
            merge_if (is_kind chr value_) p.s_ifchr (
              merge_if (is_kind dir value_) p.s_ifdir
                (merge_if (is_kind reg value_) p.s_ifreg (bit_and value_ 0o7777)))))))

  -- The documented values of <sys/stat.h>.
  pub record HasFileModes : Type 0 where
    pub ifmt_eq : p.s_ifmt ≡ 0o170000
    pub ifreg_eq : p.s_ifreg ≡ 0o100000
    pub ifdir_eq : p.s_ifdir ≡ 0o040000
    pub ifchr_eq : p.s_ifchr ≡ 0o020000
    pub ifblk_eq : p.s_ifblk ≡ 0o060000
    pub ififo_eq : p.s_ififo ≡ 0o010000
    pub iflnk_eq : p.s_iflnk ≡ 0o120000
    pub ifsock_eq : p.s_ifsock ≡ 0o140000

-- The type bits of a mode, if they are those of one of the seven file types, else 0.
unfoldable pub known_kind : ℕ → ℕ
known_kind t = if t == 8 || t == 4 || t == 2 || t == 6 || t == 1 || t == 10 || t == 12 then t else 0

-- A mode with its permissions and its file type alone.
unfoldable pub plain_mode : ℕ → ℕ
plain_mode value = known_kind (value / 2 ^ 12 % 16) * 2 ^ 12 + value % 2 ^ 12

with_kind : (k value : ℕ) → bit_or (value % 2 ^ 12) (k * 2 ^ 12) ≡ k * 2 ^ 12 + value % 2 ^ 12
with_kind k value = bit_or_disjoint_right 12 k (value % 2 ^ 12) (omega arith)

kind_bits : (value : ℕ) → bit_and value 0o170000 ≡ value / 2 ^ 12 % 16 * 2 ^ 12
kind_bits value =
    omega (
      arith,
      bit_and_shift 12 15 value,
      ap (λ (t : ℕ). t * 2 ^ 12) (bit_and_mask 4 (value / 2 ^ 12)),
    )

-- A mode that has one of the seven file types and nothing above it.
abbrev pub IsFileMode : ℕ → Type 0
IsFileMode value = value < 2 ^ 16 × (known_kind (value / 2 ^ 12) ≡ value / 2 ^ 12)

pub plain_mode_self : (value : ℕ) → IsFileMode value → plain_mode value ≡ value
unfolding plain_mode
plain_mode_self value (small, known) =
    let e : value / 2 ^ 12 % 16 ≡ value / 2 ^ 12 = omega arith in rw (e, known) (omega arith)

pub plain_mode_idem : (value : ℕ) → plain_mode (plain_mode value) ≡ plain_mode value
unfolding plain_mode known_kind
plain_mode_idem value = ground arith

pub plain_mode-lt : (value : ℕ) → plain_mode value < 2 ^ 32
unfolding plain_mode known_kind
plain_mode-lt value = ground arith

module _ (p : Platform) (documented : HasFileModes p) (value : ℕ) where
  open documented use {
    ifmt_eq, ifreg_eq, ifdir_eq, ifchr_eq, ifblk_eq, ififo_eq, iflnk_eq, ifsock_eq,
  }

  pub from_mode-eq-plain_mode : from_mode p value ≡ plain_mode value
  unfolding from_mode plain_mode known_kind
  from_mode-eq-plain_mode =
      rw (ifmt_eq, ifreg_eq, ifdir_eq, ifchr_eq, ifblk_eq, ififo_eq, iflnk_eq, ifsock_eq)
        (ground (
          arith,
          kind_bits value,
          bit_and_mask 12 value,
          with_kind 8 value,
          with_kind 4 value,
          with_kind 2 value,
          with_kind 6 value,
          with_kind 1 value,
          with_kind 10 value,
          with_kind 12 value,
        ))

  pub to_mode-eq-plain_mode : to_mode p value ≡ plain_mode value
  unfolding to_mode plain_mode known_kind
  to_mode-eq-plain_mode =
      rw (ifreg_eq, ifdir_eq, ifchr_eq, ifblk_eq, ififo_eq, iflnk_eq, ifsock_eq)
        (ground (
          arith,
          kind_bits value,
          bit_and_mask 12 value,
          with_kind 8 value,
          with_kind 4 value,
          with_kind 2 value,
          with_kind 6 value,
          with_kind 1 value,
          with_kind 10 value,
          with_kind 12 value,
        ))
