-- ===== src/Rpc/Exchange.antt =====
-- One exchange that nothing disturbs: the service sends a request, the provider answers it, and
-- the service reads the response.
use webfuse.Base.{
  ℕ, zero, suc, ◌%◌, ◌^◌, ◌<◌, ◌≡◌, refl, Option, none, some, [], ◌∷◌, ◌++◌, append-nil, arith,
  if◌then◌else◌,
}
use webfuse.Base.Int.{ℤ, pos, negsuc, IsI32, to_u32, to_u32-lt, to_i32-to_u32, is_zero}
use webfuse.Flags.Platform.{Platform}
use webfuse.Flags.Status.{to_fusestatus}
use webfuse.Flags.Status.Crossing.{HasLinuxErrnos, to_fusestatus_id}
use webfuse.Message.Bytes.{Bytes, be32}
use webfuse.Message.Types.{
  RequestType, request_code, response_code, get_response_type, get_request_type-request_code,
}
use webfuse.Message.Writer.{Writer, set_id, get_data}
use webfuse.Message.Writer.Shape.{message, set_id-message, get_data-message}
use webfuse.Message.Writer.Laws.{write_i32-message, new_response-message}
use webfuse.Message.Reader.{Reader, ReadM, Fill, new_reader, read_u32, read_u8, read_result, ◌>>=◌}
use webfuse.Message.Reader.At.{at, new_reader-at, reader_laws}
use webfuse.Message.Reader.Structures.{read_result-at}
use webfuse.Fs.{FilesystemI}
use webfuse.Fs.Remote.{Proxy, perform, perform_fill, settle, settle_fill, filled}
use webfuse.Provider.{on_message, dispatch}
use webfuse.Provider.Serve.{reply, reply_with}

-- The service reads the id and the type of a response before it hands the reader out.
read_type : ReadM ℕ
read_type = do id ← read_u32; read_u8

response_reader : Bytes → Option Reader
unfolding read_type
response_reader bytes = elim (read_type (new_reader bytes)) [ none ↦ none | some (_, r) ↦ some r ]

module _ (p q : Platform) {S : Type 0} (fs : FilesystemI S) (id : ℕ) where
  pub deliver : Option Writer × S → Option Reader × S
  deliver (none, s) = (none, s)
  deliver (some response, s) = (response_reader (get_data q response), s)

  -- The service runs on the system `p`, the provider with the file system `fs` on `q`.
  pub exchange : Proxy S
  exchange req s = deliver (on_message q fs (new_reader (get_data p (set_id p id req))) s)

request_code-byte : (t : RequestType) → request_code t % 2 ^ 8 ≡ request_code t
unfolding request_code
request_code-byte RequestType.unknown = refl
request_code-byte _ = refl

-- What the reader of a message has read before the body.
abbrev pub head : ℕ → ℕ → Bytes
head id code = be32 id ++ code ∷ []

-- The response to a request, before its body is written.
abbrev pub response : Platform → ℕ → RequestType → Writer
response q id t = message q id (response_code (get_response_type t)) []

-- A result of the provider, as the service reads it.
abbrev pub arrive : Platform → {S : Type 0} → ℤ × S → ℤ × S
arrive p (r, s) = (to_fusestatus p r, s)

-- A result with a buffer: the buffer is decoded after a good result, and kept after any other.
abbrev pub receive : {B S : Type 0} → B → (B → B) → ℤ × B × S → ℤ × B × S
receive old decode (r, b, s) = (r, (if is_zero r then decode b else old), s)

module _ (p q : Platform) {S : Type 0} (fs : FilesystemI S) (id : ℕ) (small : id < 2 ^ 32) where
  pub on_message-at :
      (t : RequestType) (body : Bytes) (s : S)
      → on_message q fs (new_reader (be32 id ++ request_code t ∷ body)) s
        ≡ dispatch q fs t (at (head id (request_code t)) body) (response q id t) s
  unfolding on_message
  on_message-at t body s =
      let e : id % 2 ^ 32 ≡ id = omega arith in
      simp (
        new_reader-at, reader_laws, request_code-byte, e, get_request_type-request_code, on_message,
        new_response-message, set_id-message,
      )

  pub deliver-message :
      (code : ℕ) (body : Bytes) (s : S)
      → deliver p q fs id (some (message q id code body), s) ≡ (some (at (head id code) body), s)
  unfolding deliver response_reader
  deliver-message code body s =
      simp (get_data-message, new_reader-at, reader_laws, read_type, response_reader)

  -- What becomes of a request whose response is a message.
  pub exchange-message :
      (writer : Writer) (code : ℕ) (body : Bytes) (s s' : S)
      → on_message q fs (new_reader (get_data p (set_id p id writer))) s
        ≡ (some (message q id code body), s')
      → exchange p q fs id writer s ≡ (some (at (head id code) body), s')
  unfolding exchange
  exchange-message writer code body s s' e = rw e (deliver-message code body s')

  pub exchange-none :
      (writer : Writer) (s s' : S)
      → on_message q fs (new_reader (get_data p (set_id p id writer))) s ≡ (none, s')
      → exchange p q fs id writer s ≡ (none, s')
  unfolding exchange deliver
  exchange-none writer s s' e = rw (e) refl

  pub exchange-at :
      (t : RequestType) (body : Bytes) (s : S)
      → exchange p q fs id (message p 0 (request_code t) body) s
        ≡ deliver p q fs id
            (dispatch q fs t (at (head id (request_code t)) body) (response q id t) s)
  unfolding exchange
  exchange-at t body s = rw (set_id-message, get_data-message, on_message-at) refl

  -- A result that the provider writes is the one that the service reads.
  pub read_result-reply :
      (front rest : Bytes) (r : ℤ)
      → IsI32 r
      → read_result p (at front (be32 (to_u32 r) ++ rest))
        ≡ some (to_fusestatus p r, at (front ++ be32 (to_u32 r)) rest)
  read_result-reply front rest r h =
      let e : to_u32 r % 2 ^ 32 ≡ to_u32 r = omega (arith, to_u32-lt r) in
      rw (e, to_i32-to_u32 r h) at (read_result-at p front rest (to_u32 r))

  pub read_result-reply_only :
      (front : Bytes) (r : ℤ)
      → IsI32 r
      → read_result p (at front (be32 (to_u32 r)))
        ≡ some (to_fusestatus p r, at (front ++ be32 (to_u32 r)) [])
  read_result-reply_only front r h =
      rw (append-nil (be32 (to_u32 r))) at (read_result-reply front [] r h)

  pub perform-reply :
      (t : RequestType) (body : Bytes) (fallback : ℤ) (s : S) (out : ℤ × S)
      → IsI32 out.0
      → dispatch q fs t (at (head id (request_code t)) body) (response q id t) s
        ≡ reply (response q id t) out
      → perform p (exchange p q fs id) (message p 0 (request_code t) body) fallback s ≡ arrive p out
  unfolding perform settle
  perform-reply t body fallback s (r, s') h e =
      rw
        (
          exchange-at t body s,
          e,
          write_i32-message,
          deliver-message,
          read_result-reply_only (head id (response_code (get_response_type t))) r h,
          settle,
        )
        refl

module _ (p q : Platform) {S : Type 0} (fs : FilesystemI S) (id : ℕ) (small : id < 2 ^ 32)
    (linux : HasLinuxErrnos p) where
  module _ {B : Type 0} (fallback : B → ℤ × B) (fill : Fill B) (old : B)
      (write : B → Writer → Writer) (t : RequestType) (body : Bytes) (s : S) where
    pub perform_fill-reply :
        (decode : B → B) (enc : Bytes) (out : ℤ × B × S)
        → IsI32 out.0
        → ((code : ℕ) (front : Bytes)
            → write out.1 (message q id code front) ≡ message q id code (front ++ enc))
        → ((front : Bytes) → fill (at front enc) old ≡ (some (at (front ++ enc) []), decode out.1))
        → dispatch q fs t (at (head id (request_code t)) body) (response q id t) s
          ≡ reply_with write (response q id t) out
        → perform_fill p
            (exchange p q fs id)
            fallback
            is_zero
            fill
            (message p 0 (request_code t) body)
            old
            s
          ≡ receive old decode out
    unfolding perform_fill settle_fill filled to_fusestatus
    perform_fill-reply decode enc (pos zero, b, s') h writes fills e =
        rw
          (
            exchange-at p q fs id small t body s,
            e,
            write_i32-message,
            writes,
            deliver-message p q fs id small,
            read_result-reply p q fs id small (head id (response_code (get_response_type t))) enc
                (pos zero) h,
            to_fusestatus_id p (pos zero) linux,
            settle_fill,
            fills,
            filled,
          )
          refl
    perform_fill-reply decode enc (pos (suc n), b, s') h writes fills e =
        rw
          (
            exchange-at p q fs id small t body s,
            e,
            write_i32-message,
            deliver-message p q fs id small,
            read_result-reply_only p q fs id small (head id (response_code (get_response_type t)))
                (pos (suc n)) h,
            to_fusestatus_id p (pos (suc n)) linux,
            settle_fill,
          )
          refl
    perform_fill-reply decode enc (negsuc n, b, s') h writes fills e =
        rw
          (
            exchange-at p q fs id small t body s,
            e,
            write_i32-message,
            deliver-message p q fs id small,
            read_result-reply_only p q fs id small (head id (response_code (get_response_type t)))
                (negsuc n) h,
            to_fusestatus_id p (negsuc n) linux,
            settle_fill,
          )
          refl
