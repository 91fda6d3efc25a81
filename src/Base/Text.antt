-- ===== src/Base/Text.antt =====
-- Texts as lists of bytes, and what the program uses of `std::string` on them.
use Prim.Native.Char.{code}
use Prim.Native.String.{String}
use Prim.Native.Nat.{ℕ, ◌+◌, ◌-◌, ◌*◌, ◌^◌, ◌≤◌, ◌<◌}
use mathlib.Core.Path.{◌≡◌, refl}
use mathlib.Core.Logic.{◌≢◌}
use mathlib.Core.Bool.{Bool, true, false, ◌&&◌, ◌||◌}
use mathlib.Core.Option.{Option, none, some}
use mathlib.Core.List.{List, [], ◌∷◌, ◌++◌}
use native.Mathlib.Omega.{arith}
use webfuse.Base.Lists.{All}
use webfuse.Base.Tests.{leb, ltb, ◌==◌, if◌then◌else◌, ==_self}
use webfuse.Base.Int.{ℤ, pos, neg}

-- The bytes of a literal in ASCII.
abbrev pub codes : String → List ℕ
codes String.[] = []
codes (String.◌∷◌ c s) = code c ∷ codes s

-- `==` of `std::string`
unfoldable pub same : List ℕ → List ℕ → Bool
same [] [] = true
same [] (b ∷ bs) = false
same (a ∷ rest) [] = false
same (a ∷ rest) (b ∷ bs) = (a == b) && same rest bs

pub same_self : (s : List ℕ) → same s s ≡ true
unfolding same
same_self [] = refl
same_self (c ∷ s) = rw (==_self c) (same_self s)

-- A text that is passed as `char const *` ends with the first zero.
unfoldable pub c_string : List ℕ → List ℕ
c_string [] = []
c_string (b ∷ bs) = let rest = c_string bs in if b == 0 then [] else b ∷ rest

-- `0 == value.find(prefix)`, and `value.substr(strlen(prefix))`
unfoldable pub after_prefix : List ℕ → List ℕ → Option (List ℕ)
after_prefix [] value = some value
after_prefix (p ∷ prefix) [] = none
after_prefix (p ∷ prefix) (c ∷ value) =
    let rest = after_prefix prefix value in if c == p then rest else none

pub after_prefix-append : (prefix rest : List ℕ) → after_prefix prefix (prefix ++ rest) ≡ some rest
unfolding after_prefix
after_prefix-append [] rest = refl
after_prefix-append (p ∷ prefix) rest = rw (==_self p) (after_prefix-append prefix rest)

-- The text before the first `sep`, and the text from there on, if `find(sep)` finds one.
unfoldable pub cut_at : ℕ → List ℕ → Option (List ℕ × List ℕ)
cut_at sep [] = none
cut_at sep (c ∷ s) = elim (c == sep) [
  | true ↦ some ([], c ∷ s)
  | false ↦ elim (cut_at sep s) [ none ↦ none | some (front, rest) ↦ some (c ∷ front, rest) ]
]

abbrev pub Lacks : ℕ → List ℕ → Type 0
Lacks sep = All (λ c. (c == sep) ≡ false)

pub cut_at-append :
    (sep : ℕ) (front rest : List ℕ)
    → Lacks sep front
    → cut_at sep (front ++ sep ∷ rest) ≡ some (front, sep ∷ rest)
unfolding cut_at
cut_at-append sep [] rest h = rw (==_self sep, cut_at) refl
cut_at-append sep (c ∷ front) rest (h, hs) =
    rw (h, cut_at) (rw (cut_at-append sep front rest hs) refl)

pub cut_at_missing : (sep : ℕ) (s : List ℕ) → Lacks sep s → cut_at sep s ≡ none
unfolding cut_at
cut_at_missing sep [] h = refl
cut_at_missing sep (c ∷ s) (h, hs) = rw (h, cut_at) (rw (cut_at_missing sep s hs) refl)

-- `std::isspace` in the C locale
is_space : ℕ → Bool
is_space c = (c == 32) || (leb 9 c && leb c 13)

pub is_digit : ℕ → Bool
is_digit c = leb b'0' c && leb c b'9'

skip_spaces : List ℕ → List ℕ
skip_spaces [] = []
skip_spaces (c ∷ s) = let rest = skip_spaces s in if is_space c then rest else c ∷ s

-- The number that the digits at the front spell behind `n`.
digits_from : ℕ → List ℕ → ℕ
digits_from n [] = n
digits_from n (c ∷ s) =
    let rest = digits_from (n * 10 + (c - b'0')) s in if is_digit c then rest else n

-- The value of at least one digit.
number : List ℕ → Option ℕ
unfolding is_digit
number [] = none
number (c ∷ s) = if is_digit c then some (digits_from 0 (c ∷ s)) else none

-- `std::out_of_range`
in_int : Bool → Option ℕ → Option ℤ
in_int negative none = none
in_int true (some n) = if leb n (2 ^ 31) then some (neg n) else none
in_int false (some n) = if ltb n (2 ^ 31) then some (pos n) else none

signed : List ℕ → Option ℤ
signed [] = none
signed (c ∷ s) =
    if c == b'-'
    then in_int true (number s)
    else if c == b'+'
    then in_int false (number s)
    else in_int false (number (c ∷ s))

-- `std::stoi`, where an exception is none. What follows the digits is ignored.
unfoldable pub stoi : List ℕ → Option ℤ
unfolding skip_spaces is_space digits_from number in_int signed is_digit
stoi s = signed (skip_spaces s)

-- Digits, and the number that they spell.
abbrev pub IsDigits : List ℕ → Type 0
IsDigits = All (λ c. (b'0' ≤ c) × (c ≤ b'9'))

unfoldable pub spelled : ℕ → List ℕ → ℕ
spelled n [] = n
spelled n (c ∷ s) = spelled (n * 10 + (c - b'0')) s

digits_from-spelled : (n : ℕ) (s : List ℕ) → IsDigits s → digits_from n s ≡ spelled n s
unfolding digits_from spelled is_digit
digits_from-spelled n [] h = refl
digits_from-spelled n (c ∷ s) (h, hs) = ground (arith, digits_from-spelled (n * 10 + (c - b'0')) s)

-- A text of digits that spells an `int` is read as this number.
pub stoi-spelled :
    (s : List ℕ) → s ≢ [] → IsDigits s → spelled 0 s < 2 ^ 31 → stoi s ≡ some (pos (spelled 0 s))
unfolding stoi
stoi-spelled [] h hs small = absurd (h refl)
stoi-spelled (c ∷ s) _ (h, hs) small = ground (arith, digits_from-spelled 0 (c ∷ s) (h, hs))
