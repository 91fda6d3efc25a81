-- ===== src/Message/Writer/Shape.antt =====
-- What a writer holds after each operation: the reserved bytes, the id, the type and the body.
use webfuse.Base.{
  ℕ, ◌+◌, ◌/◌, ◌%◌, ◌^◌, ◌≡◌, refl, sym, ap, ◌∙◌, List, [], ◌∷◌, ◌++◌, length, take, replicate,
  lt→ltb, arith, append_assoc, append-nil, length-append, length-replicate, set-append, drop-append,
  take-append, drop_all,
}
use webfuse.Base.Int.{ℤ, to_u32}
use webfuse.Flags.Platform.{Platform}
use webfuse.Message.Bytes.{Bytes, be32, be64, counted, length-be32}
use webfuse.Message.Writer.{
  Writer, store4, copy_to, write_u8, write_u32, write_u64, new_message, set_id, write_data,
  write_str, write_items, write_i32, get_data,
}

-- Bytes added at the end.
abbrev pub put : Bytes → Writer → Writer
put more w = record w { bytes = w.bytes ++ more }

store4_at :
    (front rest : Bytes) (a b c d value : ℕ)
    → store4 (length front) value (front ++ (a ∷ b ∷ c ∷ d ∷ rest)) ≡ front ++ (be32 value ++ rest)
unfolding store4 be32
store4_at front rest a b c d value = simp set-append

pub write_u32-put : (value : ℕ) (w : Writer) → write_u32 value w ≡ put (be32 value) w
unfolding write_u32
write_u32-put value w =
    ap (λ b. record w { bytes = b })
      (store4_at w.bytes [] 0 0 0 0 value ∙ ap (◌++◌ w.bytes) (append-nil (be32 value)))

-- The second half of eight bytes is stored first, over the first half that is already there.
store8_at :
    (front : Bytes) (value : ℕ)
    → store4
        (length front + 4)
        value
        (store4 (length front) (value / 2 ^ 32) (front ++ replicate 8 0))
      ≡ front ++ be64 value
unfolding be64
store8_at front value =
    rw (store4_at front (replicate 4 0) 0 0 0 0 (value / 2 ^ 32))
      (second ∙ append_assoc front high (be32 value))
  where
    high : Bytes
    high = be32 (value / 2 ^ 32)

    second :
        store4 (length front + 4) value (front ++ (high ++ replicate 4 0))
        ≡ (front ++ high) ++ be32 value
    second =
        let e : length front + 4 ≡ length (front ++ high) =
          omega (arith, length-append front high, length-be32 (value / 2 ^ 32)) in
        rw (e, ← append_assoc front high (replicate 4 0))
          (store4_at (front ++ high) [] 0 0 0 0 value
            ∙ ap (◌++◌ (front ++ high)) (append-nil (be32 value)))

pub write_u64-put : (value : ℕ) (w : Writer) → write_u64 value w ≡ put (be64 value) w
unfolding write_u64
write_u64-put value w = ap (λ b. record w { bytes = b }) (store8_at w.bytes value)

pub write_i32-put : (value : ℤ) (w : Writer) → write_i32 value w ≡ put (be32 (to_u32 value)) w
unfolding write_i32
write_i32-put value w = write_u32-put (to_u32 value) w

copied :
    (front buffer : Bytes) (size : ℕ)
    → copy_to (length front) buffer size (front ++ replicate size 0) ≡ front ++ take size buffer
unfolding copy_to
copied front buffer size =
    rw
      (
        take-append front (replicate size 0),
        drop_all (length front + size) (front ++ replicate size 0) (
            omega (arith, length-append front (replicate size 0), length-replicate {A = ℕ} size 0)),
        append-nil (take size buffer),
      )
      refl

-- `write_data`, which resizes the vector and copies into it, appends the length of the data
-- modulo 2 ^ 32 in network byte order and so many bytes of the data.
pub write_data-put : (buffer : Bytes) (w : Writer) → write_data buffer w ≡ put (counted buffer) w
unfolding write_data counted
write_data-put [] w = write_u32-put 0 w ∙ ap (λ b. put b w) (sym (append-nil (be32 0)))
write_data-put (b ∷ buffer) w =
    let size : ℕ = length (b ∷ buffer) % 2 ^ 32 in
    rw (write_u32-put size w, lt→ltb 0 (length (b ∷ buffer)) (omega arith))
      (ap (λ b. record w { bytes = b })
        (copied (w.bytes ++ be32 size) (b ∷ buffer) size
          ∙ append_assoc w.bytes (be32 size) (take size (b ∷ buffer))))

unfoldable pub counted_items : List Bytes → Bytes
counted_items [] = []
counted_items (item ∷ items) = counted item ++ counted_items items

pub write_items-put :
    (items : List Bytes) (w : Writer) → write_items items w ≡ put (counted_items items) w
unfolding write_items write_str counted_items
write_items-put [] w = ap (λ b. record w { bytes = b }) (sym (append-nil w.bytes))
write_items-put (item ∷ items) w =
    write_items-put items (write_data item w)
    ∙ ap (put (counted_items items)) (write_data-put item w)
    ∙ ap (λ b. record w { bytes = b }) (append_assoc w.bytes (counted item) (counted_items items))

-- The writer of a message: `p.lws_pre` free bytes, then the id, the type and the body.
unfoldable pub message : Platform → ℕ → ℕ → Bytes → Writer
message p id code body = record {
  id = id;
  bytes = replicate p.lws_pre 0 ++ (be32 id ++ code ∷ body);
}

module _ (p : Platform) where
  -- An operation that adds bytes adds them to the body.
  pub put-message :
      (id code : ℕ) (body more : Bytes)
      → put more (message p id code body) ≡ message p id code (body ++ more)
  unfolding message
  put-message id code body more =
      ap (λ b. record { id = id; bytes = b })
        (append_assoc (replicate p.lws_pre 0) (be32 id ++ code ∷ body) more
          ∙ ap (◌++◌ (replicate p.lws_pre 0)) (append_assoc (be32 id) (code ∷ body) more))

  pub new_message-message : (code : ℕ) → new_message p code ≡ message p 0 code []
  unfolding new_message message write_u8
  new_message-message code =
      rw (write_u32-put 0 (record { id = 0; bytes = replicate p.lws_pre 0 })) (
        ap (λ b. record { id = 0; bytes = b })
          (append_assoc (replicate p.lws_pre 0) (be32 0) (code ∷ [])))

  -- `set_id` overwrites the id of a message, which stands behind the free bytes, and leaves its
  -- type and its body.
  pub set_id-message :
      (id old code : ℕ) (body : Bytes)
      → set_id p id (message p old code body) ≡ message p id code body
  unfolding set_id message be32
  set_id-message id old code body =
      ap (λ b. record { id = id; bytes = b })
        (rw (length-replicate {A = ℕ} p.lws_pre 0) at (
          store4_at (replicate p.lws_pre 0) (code ∷ body) (old / 2 ^ 24 % 2 ^ 8)
            (old / 2 ^ 16 % 2 ^ 8) (old / 2 ^ 8 % 2 ^ 8) (old % 2 ^ 8) id))

  pub get_data-message :
      (id code : ℕ) (body : Bytes) → get_data p (message p id code body) ≡ be32 id ++ code ∷ body
  unfolding get_data message
  get_data-message id code body =
      rw (length-replicate {A = ℕ} p.lws_pre 0) at
        (drop-append (replicate p.lws_pre 0) (be32 id ++ code ∷ body))
