-- ===== src/Message/Reader/At.antt =====
-- A reader in the middle of a message: what each operation returns when the encoding of a value
-- is next, and where it leaves the reader.
use webfuse.Base.{
  ℕ, ◌+◌, ◌/◌, ◌%◌, ◌^◌, ◌<◌, ◌≡◌, refl, sym, ap, ◌∙◌, [], ◌∷◌, ◌++◌, true, some, length, get_or,
  take, ltb, ◌==◌, arith, lt→ltb, le→leb, append_assoc, length-append, get_or-append, drop-append,
  take-append,
}
use mathlib.Core.Path.{ap₂}
use webfuse.Base.Bits.{join4, join8, join4-eq-sum, join8-eq-sum}
use webfuse.Base.Int.{to_i32}
use webfuse.Message.Bytes.{Bytes, be32, be64, counted, length-be32, length-be64, counted_short}
use webfuse.Message.Reader.{
  Reader, new_reader, byte_at, read_u8, read_u32, read_u64, read_i32, read_bytes, read_str,
  read_bool, take_bytes, ◌>>=◌, return,
}

-- The reader has read `front`, and `rest` follows.
unfoldable pub at : Bytes → Bytes → Reader
at front rest = record { bytes = front ++ rest; pos = length front }

moved :
    (front more rest : Bytes) (n : ℕ)
    → length more ≡ n
    → record (at front (more ++ rest)) { pos = length front + n } ≡ at (front ++ more) rest
unfolding at
moved front more rest n e =
    ap₂ (λ b k. record { bytes = b; pos = k }) (sym (append_assoc front more rest))
      (omega (arith, length-append front more))

byte_at-at : (front rest : Bytes) (i : ℕ) → byte_at (at front rest) i ≡ get_or rest i 0 % 2 ^ 8
unfolding byte_at at
byte_at-at front rest i = ap (λ (t : ℕ). t % 2 ^ 8) (get_or-append front rest i 0)

has_more :
    (front more rest : Bytes) (n : ℕ)
    → n < length more
    → ltb (length front + n) (length (front ++ (more ++ rest))) ≡ true
has_more front more rest n h =
    lt→ltb _ _ (omega (arith, length-append front (more ++ rest), length-append more rest))

joined_u32 :
    (front rest : Bytes) (v : ℕ)
    → let r = at front (be32 v ++ rest) in
      join4 (byte_at r 0) (byte_at r 1) (byte_at r 2) (byte_at r 3) ≡ v % 2 ^ 32
unfolding be32
joined_u32 front rest v = simp byte_at-at (
    omega (
      arith,
      join4-eq-sum (v / 2 ^ 24 % 2 ^ 8 % 2 ^ 8) (v / 2 ^ 16 % 2 ^ 8 % 2 ^ 8)
          (v / 2 ^ 8 % 2 ^ 8 % 2 ^ 8) (v % 2 ^ 8 % 2 ^ 8) (omega arith) (omega arith) (omega arith)
          (omega arith),
    ))

pub read_u32-at :
    (front rest : Bytes) (v : ℕ)
    → read_u32 (at front (be32 v ++ rest)) ≡ some (v % 2 ^ 32, at (front ++ be32 v) rest)
unfolding read_u32 at
read_u32-at front rest v = rw (has_more front (be32 v) rest 3 (omega (arith, length-be32 v))) (
    ap₂ (λ x r. some (x, r)) (joined_u32 front rest v)
      (moved front (be32 v) rest 4 (length-be32 v)))

joined_u64 :
    (front rest : Bytes) (v : ℕ)
    → let r = at front (be64 v ++ rest) in
      join8
        (byte_at r 0)
        (byte_at r 1)
        (byte_at r 2)
        (byte_at r 3)
        (byte_at r 4)
        (byte_at r 5)
        (byte_at r 6)
        (byte_at r 7)
      ≡ v % 2 ^ 64
unfolding be64 be32
joined_u64 front rest v =
    let h : ℕ = v / 2 ^ 32 in
    simp byte_at-at (
      omega (
        arith,
        join8-eq-sum (h / 2 ^ 24 % 2 ^ 8 % 2 ^ 8) (h / 2 ^ 16 % 2 ^ 8 % 2 ^ 8)
            (h / 2 ^ 8 % 2 ^ 8 % 2 ^ 8) (h % 2 ^ 8 % 2 ^ 8) (omega arith) (omega arith)
            (omega arith) (omega arith) (v / 2 ^ 24 % 2 ^ 8 % 2 ^ 8) (v / 2 ^ 16 % 2 ^ 8 % 2 ^ 8)
            (v / 2 ^ 8 % 2 ^ 8 % 2 ^ 8) (v % 2 ^ 8 % 2 ^ 8) (omega arith) (omega arith)
            (omega arith) (omega arith),
      ))

-- `read_u64` reads past the eight bytes of a 64-bit value, and returns the value modulo 2 ^ 32.
pub read_u64-at :
    (front rest : Bytes) (v : ℕ)
    → read_u64 (at front (be64 v ++ rest)) ≡ some (v % 2 ^ 32, at (front ++ be64 v) rest)
unfolding read_u64 at
read_u64-at front rest v = rw (has_more front (be64 v) rest 7 (omega (arith, length-be64 v))) (
    ap₂ (λ x r. some (x, r)) (ap (λ (t : ℕ). t % 2 ^ 32) (joined_u64 front rest v) ∙ omega arith)
      (moved front (be64 v) rest 8 (length-be64 v)))

pub read_u8-at :
    (front rest : Bytes) (v : ℕ)
    → read_u8 (at front (v ∷ rest)) ≡ some (v % 2 ^ 8, at (front ++ v ∷ []) rest)
unfolding read_u8 at
read_u8-at front rest v =
    let here : length front + 0 ≡ length front = omega arith in
    let more : ltb (length front) (length (front ++ v ∷ rest)) ≡ true =
      rw here at (has_more front (v ∷ []) rest 0 (omega arith)) in
    rw more
      (ap₂ (λ x r. some (x, r)) (byte_at-at front (v ∷ rest) 0) (moved front (v ∷ []) rest 1 refl))

pub read_i32-at :
    (front rest : Bytes) (v : ℕ)
    → read_i32 (at front (be32 v ++ rest)) ≡ some (to_i32 (v % 2 ^ 32), at (front ++ be32 v) rest)
unfolding read_i32
read_i32-at front rest v = simp (read_u32-at, ◌>>=◌)

take_bytes-at :
    (front s rest : Bytes)
    → take_bytes (length s) (at front (s ++ rest)) ≡ some (s, at (front ++ s) rest)
unfolding take_bytes at
take_bytes-at front s rest =
    rw
      (le→leb (length front + length s) (length (front ++ (s ++ rest)))
        (omega (arith, length-append front (s ++ rest), length-append s rest)))
      (ap₂ (λ x r. some (x, r))
        (ap (take (length s)) (drop-append front (s ++ rest)) ∙ take-append s rest)
        (moved front s rest (length s) refl))

-- A counted sequence of bytes, shorter than 2 ^ 32, is read whole, whatever comes before and
-- after it, and the reader stands behind it.
pub read_bytes-at :
    (front s rest : Bytes)
    → length s < 2 ^ 32
    → read_bytes (at front (counted s ++ rest)) ≡ some (s, at (front ++ counted s) rest)
unfolding read_bytes
read_bytes-at front s rest h =
    let e : length s % 2 ^ 32 ≡ length s = omega arith in
    rw
      (
        counted_short s h,
        append_assoc (be32 (length s)) s rest,
        read_u32-at front (s ++ rest) (length s),
        ◌>>=◌,
        e,
      )
      (take_bytes-at (front ++ be32 (length s)) s rest
        ∙ ap (λ f. some (s, at f rest)) (append_assoc front (be32 (length s)) s))

pub read_str-at :
    (front s rest : Bytes)
    → length s < 2 ^ 32
    → read_str (at front (counted s ++ rest)) ≡ some (s, at (front ++ counted s) rest)
unfolding read_str
read_str-at front s rest h = read_bytes-at front s rest h

pub read_bool-at :
    (front rest : Bytes) (v : ℕ)
    → read_bool (at front (v ∷ rest)) ≡ some (1 == v % 2 ^ 8, at (front ++ v ∷ []) rest)
unfolding read_bool
read_bool-at front rest v = simp (read_u8-at, ◌>>=◌)

pub new_reader-at : (bytes : Bytes) → new_reader bytes ≡ at [] bytes
unfolding new_reader at
new_reader-at bytes = refl

pub ruleset reader_laws = (
  read_u8-at, read_u32-at, read_u64-at, read_i32-at, read_bool-at, read_str-at, read_bytes-at,
  ◌>>=◌,
)
