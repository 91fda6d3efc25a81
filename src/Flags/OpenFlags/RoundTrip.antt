-- ===== src/Flags/OpenFlags/RoundTrip.antt =====
-- What `openflags::from_int` and `openflags::to_int` keep of a set of flags.
use webfuse.Base.{
  ℕ, ◌≡◌, ◌≢◌, refl, ◌⊎◌, inl, inr, List, [], ◌∷◌, arith, ◌==◌, ==_iff, true, Bool-cases, bit_and,
  bit_or,
}
use webfuse.Base.Digits.{
  Within, Within-antisymm, Within-test, Within-of_test, Within-union, Within-left, Within-right,
  Within-other, digit-zero, Within-of_union_left, Within-of_union_right,
}
use webfuse.Flags.Platform.{Platform, OpenFlag, largefile}
use webfuse.Flags.Cases.{IsOneOf, IsOneOf-at}
use webfuse.Flags.OpenFlags.{code, open_flags, merge_flags, from_int, to_int}

module _ (from to : OpenFlag → ℕ) (value : ℕ) where
  -- Flags are only added.
  merge_flags_keeps :
      (result x : ℕ) (fs : List OpenFlag)
      → Within x result
      → Within x (merge_flags from to value result fs)
  unfolding merge_flags
  merge_flags_keeps result x [] h = h
  merge_flags_keeps result x (f ∷ fs) h = elim (Bool-cases (from f == bit_and value (from f))) [
    | inl e ↦
        rw (e, merge_flags)
          (merge_flags_keeps (bit_or result (to f)) x fs (Within-left x result (to f) h))
    | inr e ↦ rw (e, merge_flags) (merge_flags_keeps result x fs h)
  ]

  -- A flag that the value has adds its counterpart.
  merge_flags_has :
      (f : OpenFlag) (fs : List OpenFlag) (result : ℕ)
      → IsOneOf f fs
      → Within (from f) value
      → Within (to f) (merge_flags from to value result fs)
  unfolding merge_flags
  merge_flags_has f [] result m h = elim m [ ]
  merge_flags_has f (g ∷ fs) result (inl e) h =
      let has : Within (from g) value = rw e h in
      let taken : (from g == bit_and value (from g)) ≡ true =
        (==_iff _ _).1 (Within-test _ _ has) in
      rw (taken, merge_flags)
        (merge_flags_keeps (bit_or result (to g)) (to f) fs
          (Within-right (to f) result (to g) (rw e (λ k. omega arith))))
  merge_flags_has f (g ∷ fs) result (inr m) h = merge_flags_has f fs _ m h

  -- Nothing else is added.
  merge_flags-Within :
      (bound result : ℕ) (fs : List OpenFlag)
      → ((f : OpenFlag) → Within (from f) value → Within (to f) bound)
      → Within result bound
      → Within (merge_flags from to value result fs) bound
  unfolding merge_flags
  merge_flags-Within bound result [] each h = h
  merge_flags-Within bound result (f ∷ fs) each h =
      elim (Bool-cases (from f == bit_and value (from f))) [
        | inl e ↦
            let has = Within-of_test (from f) value ((==_iff _ _).0 e) in
            rw (e, merge_flags)
              (merge_flags-Within bound (bit_or result (to f)) fs each
                (Within-union result (to f) bound h (each f has)))
        | inr e ↦ rw (e, merge_flags) (merge_flags-Within bound result fs each h)
      ]

IsOneOf-open_flags : (f : OpenFlag) → IsOneOf f open_flags
IsOneOf-open_flags OpenFlag.rdonly = IsOneOf-at 0 open_flags refl
IsOneOf-open_flags OpenFlag.wronly = IsOneOf-at 1 open_flags refl
IsOneOf-open_flags OpenFlag.rdwr = IsOneOf-at 2 open_flags refl
IsOneOf-open_flags OpenFlag.append = IsOneOf-at 3 open_flags refl
IsOneOf-open_flags OpenFlag.async = IsOneOf-at 4 open_flags refl
IsOneOf-open_flags OpenFlag.cloexec = IsOneOf-at 5 open_flags refl
IsOneOf-open_flags OpenFlag.creat = IsOneOf-at 6 open_flags refl
IsOneOf-open_flags OpenFlag.direct = IsOneOf-at 7 open_flags refl
IsOneOf-open_flags OpenFlag.directory = IsOneOf-at 8 open_flags refl
IsOneOf-open_flags OpenFlag.dsync = IsOneOf-at 9 open_flags refl
IsOneOf-open_flags OpenFlag.excl = IsOneOf-at 10 open_flags refl
IsOneOf-open_flags OpenFlag.largefile = IsOneOf-at 11 open_flags refl
IsOneOf-open_flags OpenFlag.noatime = IsOneOf-at 12 open_flags refl
IsOneOf-open_flags OpenFlag.noctty = IsOneOf-at 13 open_flags refl
IsOneOf-open_flags OpenFlag.nofollow = IsOneOf-at 14 open_flags refl
IsOneOf-open_flags OpenFlag.nonblock = IsOneOf-at 15 open_flags refl
IsOneOf-open_flags OpenFlag.ndelay = IsOneOf-at 16 open_flags refl
IsOneOf-open_flags OpenFlag.path = IsOneOf-at 17 open_flags refl
IsOneOf-open_flags OpenFlag.sync = IsOneOf-at 18 open_flags refl
IsOneOf-open_flags OpenFlag.tmpfile = IsOneOf-at 19 open_flags refl
IsOneOf-open_flags OpenFlag.trunc = IsOneOf-at 20 open_flags refl

-- The union of a list of flags, as a caller of `open` writes it.
unfoldable pub union : (OpenFlag → ℕ) → List OpenFlag → ℕ
union bits [] = 0
union bits (f ∷ fs) = bit_or (bits f) (union bits fs)

union_reaches :
    (bits : OpenFlag → ℕ) (value bound : ℕ) (fs : List OpenFlag)
    → ((f : OpenFlag) → Within (bits f) value → Within (bits f) bound)
    → Within (union bits fs) value
    → Within (union bits fs) bound
unfolding union
union_reaches bits value bound [] each h = λ k. omega (arith, digit-zero k)
union_reaches bits value bound (f ∷ fs) each h =
    Within-union (bits f) (union bits fs) bound
      (each f (Within-of_union_left (bits f) (union bits fs) value h))
      (union_reaches bits value bound fs each
        (Within-of_union_right (bits f) (union bits fs) value h))

-- The flags of 64-bit Linux are those of openflags.hpp, but `O_LARGEFILE` is 0 there.
pub record HasLinuxOpenFlags (p : Platform) : Type 0 where
  pub same : (f : OpenFlag) → f ≢ largefile → p.open_flag f ≡ code f
  pub no_largefile : p.open_flag largefile ≡ 0

-- No other flag shares the bit of `largefile`.
apart_from_largefile :
    (f : OpenFlag) → (f ≡ largefile) ⊎ ((f ≢ largefile) × (bit_and (code f) (code largefile) ≡ 0))
unfolding code
apart_from_largefile OpenFlag.rdonly = inr ((λ e. cc), refl)
apart_from_largefile OpenFlag.wronly = inr ((λ e. cc), refl)
apart_from_largefile OpenFlag.rdwr = inr ((λ e. cc), refl)
apart_from_largefile OpenFlag.append = inr ((λ e. cc), refl)
apart_from_largefile OpenFlag.async = inr ((λ e. cc), refl)
apart_from_largefile OpenFlag.cloexec = inr ((λ e. cc), refl)
apart_from_largefile OpenFlag.creat = inr ((λ e. cc), refl)
apart_from_largefile OpenFlag.direct = inr ((λ e. cc), refl)
apart_from_largefile OpenFlag.directory = inr ((λ e. cc), refl)
apart_from_largefile OpenFlag.dsync = inr ((λ e. cc), refl)
apart_from_largefile OpenFlag.excl = inr ((λ e. cc), refl)
apart_from_largefile OpenFlag.largefile = inl refl
apart_from_largefile OpenFlag.noatime = inr ((λ e. cc), refl)
apart_from_largefile OpenFlag.noctty = inr ((λ e. cc), refl)
apart_from_largefile OpenFlag.nofollow = inr ((λ e. cc), refl)
apart_from_largefile OpenFlag.nonblock = inr ((λ e. cc), refl)
apart_from_largefile OpenFlag.ndelay = inr ((λ e. cc), refl)
apart_from_largefile OpenFlag.path = inr ((λ e. cc), refl)
apart_from_largefile OpenFlag.sync = inr ((λ e. cc), refl)
apart_from_largefile OpenFlag.tmpfile = inr ((λ e. cc), refl)
apart_from_largefile OpenFlag.trunc = inr ((λ e. cc), refl)

module _ (p : Platform) (documented : HasLinuxOpenFlags p) (value : ℕ) where
  open documented use {same, no_largefile}

  -- The encoding adds the bit of `largefile` and no other.
  from_int-Within : Within (from_int p value) (bit_or value (code largefile))
  unfolding from_int
  from_int-Within =
      merge_flags-Within p.open_flag code value (bit_or value (code largefile)) 0 open_flags
        (λ f h. elim (apart_from_largefile f) [
          | inl e ↦ rw e (Within-right _ value (code largefile) (λ k. omega arith))
          | inr (other, _) ↦ Within-left (code f) value (code largefile) (rw (← same f other) h)
        ])
        (λ k. omega (arith, digit-zero k))

  to_int-from_int-Within : Within (to_int p (from_int p value)) value
  unfolding to_int
  to_int-from_int-Within =
      merge_flags-Within code p.open_flag (from_int p value) value 0 open_flags
        (λ f h. elim (apart_from_largefile f) [
          | inl e ↦ rw (e, no_largefile) (λ k. omega (arith, digit-zero k))
          | inr (other, apart) ↦ rw (same f other) (
              Within-other (code f) value (code largefile) apart
                (λ k. omega (arith, h k, from_int-Within k)))
        ])
        (λ k. omega (arith, digit-zero k))

  from_int-reaches :
      (f : OpenFlag)
      → Within (p.open_flag f) value
      → Within (p.open_flag f) (to_int p (from_int p value))
  unfolding from_int to_int
  from_int-reaches f h =
      merge_flags_has code p.open_flag (from_int p value) f open_flags 0 (IsOneOf-open_flags f)
        (merge_flags_has p.open_flag code value f open_flags 0 (IsOneOf-open_flags f) h)

-- Where the system has the open flags of 64-bit Linux, any union of the flags that it defines is
-- encoded by `openflags::from_int` and decoded by `to_int` without loss or addition.
pub to_int-from_int :
    (p : Platform) (fs : List OpenFlag)
    → HasLinuxOpenFlags p
    → to_int p (from_int p (union p.open_flag fs)) ≡ union p.open_flag fs
to_int-from_int p fs documented =
    let value : ℕ = union p.open_flag fs in
    Within-antisymm (to_int p (from_int p value)) value (to_int-from_int-Within p documented value)
      (union_reaches p.open_flag value _ fs (from_int-reaches p documented value)
        (λ k. omega arith))
