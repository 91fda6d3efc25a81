-- ===== src/Local/Links.antt =====
-- Symbolic links that are made in the directory of the provider, read back.
use webfuse.Base.{
  ℕ, ◌^◌, ◌<◌, ◌≤◌, ◌≡◌, refl, ap, [], ◌∷◌, ◌++◌, Bool-cases, inl, inr, some, length, take, lt→ltb,
  if◌then◌else◌, ◌==◌, arith,
}
use webfuse.Base.Int.{pos, to_i32, to_u32}
use webfuse.Base.Text.{c_string}
use webfuse.Message.Bytes.{Bytes}
use webfuse.Local
use webfuse.Local.{full_path, stored_target, status_of, link_target, as_int}
use webfuse.Local.Calls.{Posix}

c_string_twice : (s : Bytes) → c_string (c_string s) ≡ c_string s
unfolding c_string
c_string_twice [] = refl
c_string_twice (c ∷ s) = elim (Bool-cases (c == 0)) [
  | inl e ↦ rw (e) refl
  | inr e ↦ rw (e, c_string) (rw (e, c_string_twice s) refl)
]

take-length : (s rest : Bytes) → take (length s) (s ++ rest) ≡ s
take-length [] rest = refl
take-length (c ∷ s) rest = ap (λ s. c ∷ s) (take-length s rest)

as_int-pos : (n : ℕ) → n < 2 ^ 31 → as_int (pos n) ≡ pos n
unfolding to_i32 to_u32
as_int-pos n h = ground arith

module _ {W : Type 0} (sys : Posix W) (base_path token : Bytes) where
  -- What is stored for a target: an absolute one behind the directory, a relative one as it is, each up
  -- to its first zero.
  abbrev pub stored : ℕ → Bytes → Bytes
  stored c target = if c == b'/' then c_string (base_path ++ c ∷ target) else c_string (c ∷ target)

  stored_target-eq :
      (c : ℕ) (target : Bytes) → stored_target sys base_path token c target ≡ stored c target
  unfolding stored_target full_path
  stored_target-eq c target = refl

  stored-c_string : (c : ℕ) (target : Bytes) → c_string (stored c target) ≡ stored c target
  stored-c_string c target = elim (Bool-cases (c == b'/')) [
    | inl e ↦ rw (e) (c_string_twice _)
    | inr e ↦ rw (e) (c_string_twice _)
  ]

  -- If the provider's system makes a link, to the path in its directory, with the target as it
  -- was given if that is relative, and with the path of the directory put in front if it starts
  -- with a slash, each up to its first zero, and reads it back as made, then `symlink` succeeds
  -- and `readlink` gives exactly this target: an absolute target does not come back as it was
  -- given. The target made is shorter than `PATH_MAX`, which is at most 2 ^ 31.
  pub symlink-readlink :
      (c : ℕ) (target linkpath out rest : Bytes) (w w1 w2 : W)
      → length (stored c target) < sys.path_max
      → sys.path_max ≤ 2 ^ 31
      → sys.symlink (stored c target) (full_path sys base_path token linkpath) w ≡ (pos 0, w1)
      → sys.readlink (full_path sys base_path token linkpath) sys.path_max w1
        ≡ (pos (length (stored c target)), stored c target ++ rest, w2)
      → (Local.symlink sys base_path token (c ∷ target) linkpath w ≡ (some (pos 0), w1))
        × (Local.readlink sys base_path token linkpath out w1 ≡ (pos 0, stored c target, w2))
  unfolding Local.symlink Local.readlink status_of link_target
  symlink-readlink c target linkpath out rest w w1 w2 fits small made read =
      let stored : Bytes = stored c target in
      (
        rw (stored_target-eq c target, made) refl,
        rw
            (
              read,
              as_int-pos (length stored) (omega arith),
              lt→ltb (length stored) sys.path_max fits,
              take-length stored rest,
              stored-c_string c target,
            )
            refl,
      )
