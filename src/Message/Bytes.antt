-- ===== src/Message/Bytes.antt =====
-- The wire format of single values, as lists of bytes, most significant byte first. The writer and
-- the reader are compared with it; the program itself has no such functions.
use webfuse.Base.{
  ℕ, ◌/◌, ◌%◌, ◌^◌, ◌<◌, ◌≡◌, refl, List, [], ◌∷◌, ◌++◌, arith, length, take, take_all,
}

abbrev pub IsByte : ℕ → Type 0
IsByte b = b < 256

abbrev pub Bytes : Type 0
Bytes = List ℕ

-- A `uint32_t` and a `uint64_t` in network byte order.
unfoldable pub be32 : ℕ → Bytes
be32 v = v / 2 ^ 24 % 2 ^ 8 ∷ v / 2 ^ 16 % 2 ^ 8 ∷ v / 2 ^ 8 % 2 ^ 8 ∷ v % 2 ^ 8 ∷ []

unfoldable pub be64 : ℕ → Bytes
be64 v = be32 (v / 2 ^ 32) ++ be32 v

-- A counted sequence of bytes. Its count has 32 bits.
unfoldable pub counted : Bytes → Bytes
counted s = be32 (length s % 2 ^ 32) ++ take (length s % 2 ^ 32) s

pub length-be32 : (v : ℕ) → length (be32 v) ≡ 4
unfolding be32
length-be32 v = refl

pub length-be64 : (v : ℕ) → length (be64 v) ≡ 8
unfolding be64 be32
length-be64 v = refl

pub counted_short : (s : Bytes) → length s < 2 ^ 32 → counted s ≡ be32 (length s) ++ s
unfolding counted
counted_short s h =
    let e : length s % 2 ^ 32 ≡ length s = omega arith in
    rw (e, take_all (length s) s (omega arith)) refl
