-- ===== src/Flags/Cases.antt =====
-- A `switch` over named labels: which case is taken.
use webfuse.Base.{
  ℕ, zero, suc, ◌≡◌, refl, List, [], ◌∷◌, Option, none, some, arith, ◌==◌, if◌then◌else◌, ◌⊎◌, inl,
  inr, ==_self, get_elem?,
}

-- The case of a `switch` that is taken: the first whose label is `value`. A compiler accepts the
-- cases only if no two labels are equal.
module _ {N : Type 0} where
  unfoldable pub find_case : (N → ℕ) → ℕ → List N → Option N
  find_case label value [] = none
  find_case label value (name ∷ names) =
      if value == label name then some name else find_case label value names

  -- What the case that is taken says of its label.
  pub find_case_label :
      (label : N → ℕ) (value : ℕ) (names : List N) (name : N)
      → find_case label value names ≡ some name
      → label name ≡ value
  unfolding find_case
  find_case_label label value [] name e = cc
  find_case_label label value (n ∷ names) name e =
      ground (arith, find_case_label label value names name)

  abbrev pub IsOneOf : N → List N → Type 0
  IsOneOf name [] = ⊥
  IsOneOf name (n ∷ names) = (n ≡ name) ⊎ IsOneOf name names

  pub IsOneOf-at :
      (i : ℕ) (names : List N) {name : N} → get_elem? names i ≡ some name → IsOneOf name names
  IsOneOf-at i [] e = cc
  IsOneOf-at zero (n ∷ names) e = inl (ground arith)
  IsOneOf-at (suc i) (n ∷ names) e = inr (IsOneOf-at i names e)

  -- Labels that differ: what a compiler demands of the cases of a `switch`.
  abbrev pub AreDistinct : (N → ℕ) → Type 0
  AreDistinct label = (m n : N) → label m ≡ label n → m ≡ n

  pub find_case_total :
      (label : N → ℕ) (name : N) (names : List N)
      → AreDistinct label
      → IsOneOf name names
      → find_case label (label name) names ≡ some name
  unfolding find_case
  find_case_total label name [] distinct h = elim h [ ]
  find_case_total label name (n ∷ names) distinct (inl e) = rw (e, ==_self (label name)) refl
  find_case_total label name (n ∷ names) distinct (inr rest) =
      ground (arith, distinct name n, find_case_total label name names distinct rest)
