-- ===== src/Rpc/Read.antt =====
-- `filesystem::read` over one exchange that nothing disturbs. The data come with a positive result.
use webfuse.Base.{
  ℕ, zero, suc, ◌%◌, ◌^◌, ◌≤◌, ◌<◌, ◌≡◌, refl, [], ◌++◌, if◌then◌else◌, append-nil, length, take,
  drop, replicate, le→leb, length-take, arith, some,
}
use webfuse.Base.Int.{ℤ, pos, negsuc, is_positive, magnitude}
use webfuse.Flags.Platform.{Platform}
use webfuse.Flags.Status.{to_fusestatus}
use webfuse.Flags.Status.Crossing.{HasLinuxErrnos, to_fusestatus_id}
use webfuse.Message.Bytes.{Bytes, be32, be64, counted}
use webfuse.Message.Types.{RequestType, request_code, response_code, get_response_type}
use webfuse.Message.Reader.At.{at, read_bytes-at}
use webfuse.Message.Writer.Shape.{message}
use webfuse.Message.Writer.Laws.{
  writer_laws, new_request-message, write_i32-message, write_data-message,
}
use webfuse.Fs.{FilesystemI}
use webfuse.Fs.Contract.{IsRead}
use webfuse.Fs.Remote
use webfuse.Fs.Remote.{read_into, perform_fill, settle_fill, filled}
use webfuse.Fs.Empty
use webfuse.Rpc.Exchange.{
  exchange, exchange-at, deliver-message, head, response, read_result-reply, read_result-reply_only,
}
use webfuse.Rpc.Decode
use webfuse.Provider.{dispatch}
use webfuse.Provider.Serve.{reply_data}

-- The bytes that were read replace the front of the caller's buffer.
abbrev pub receive_data : {S : Type 0} → Bytes → ℤ × Bytes × S → ℤ × Bytes × S
receive_data old (r, b, s) =
    (r, (if is_positive r then take (magnitude r) b ++ drop (magnitude r) old else old), s)

read_into-at :
    (front received old : Bytes)
    → length received ≤ length old
    → length received < 2 ^ 32
    → read_into (at front (counted received)) old
      ≡ (some (at (front ++ counted received) []), received ++ drop (length received) old)
unfolding read_into
read_into-at front received old fits small =
    let e = read_bytes-at front received [] small in
    rw
      (
        rw (append-nil (counted received)) at e,
        le→leb (length received) (length old) fits,
        read_into,
      )
      refl

module _ (p q : Platform) {S : Type 0} (fs : FilesystemI S) (id : ℕ) (small : id < 2 ^ 32)
    (linux : HasLinuxErrnos p) where
  module _ (fallback : Bytes → ℤ × Bytes) (body old : Bytes) (s : S)
      (bounded : length old < 2 ^ 32) where
    perform_read-reply :
        (out : ℤ × Bytes × S)
        → IsRead (length old) out
        → dispatch q fs RequestType.read
            (at (head id (request_code RequestType.read)) body)
            (response q id RequestType.read)
            s
          ≡ reply_data (response q id RequestType.read) out
        → perform_fill p
            (exchange p q fs id)
            fallback
            is_positive
            read_into
            (message p 0 (request_code RequestType.read) body)
            old
            s
          ≡ receive_data old out
    unfolding perform_fill settle_fill filled to_fusestatus
    perform_read-reply (pos zero, b, s') h e =
        rw
          (
            exchange-at p q fs id small RequestType.read body s,
            e,
            write_i32-message,
            deliver-message p q fs id small,
            read_result-reply_only p q fs id small
                (head id (response_code (get_response_type RequestType.read))) (pos zero)
                h.in_range,
            settle_fill,
          )
          refl
    perform_read-reply (pos (suc n), b, s') h e =
        let fits : suc n ≤ length old = h.fits refl in
        let size : length (take (suc n) b) ≡ suc n =
          omega (arith, length-take (suc n) b, h.same_size) in
        rw
          (
            exchange-at p q fs id small RequestType.read body s,
            e,
            le→leb (suc n) (length b) (omega (arith, h.same_size)),
            write_i32-message,
            write_data-message,
            deliver-message p q fs id small,
            read_result-reply p q fs id small
                (head id (response_code (get_response_type RequestType.read)))
                (counted (take (suc n) b)) (pos (suc n)) h.in_range,
            to_fusestatus_id p (pos (suc n)) linux,
            settle_fill,
            read_into-at _ (take (suc n) b) old (omega (arith, size)) (omega (arith, size)),
            filled,
            size,
          )
          refl
    perform_read-reply (negsuc n, b, s') h e =
        rw
          (
            exchange-at p q fs id small RequestType.read body s,
            e,
            write_i32-message,
            deliver-message p q fs id small,
            read_result-reply_only p q fs id small
                (head id (response_code (get_response_type RequestType.read))) (negsuc n)
                h.in_range,
            to_fusestatus_id p (negsuc n) linux,
            settle_fill,
          )
          refl

  -- Over one exchange that nothing disturbs, between systems of which the service has the error
  -- numbers of Linux, `filesystem::read` asks the provider's file system to read into a zeroed
  -- buffer of the caller's size (below 2 ^ 32), with the offset and the handle taken modulo 2 ^
  -- 32. The caller gets the provider's result; a positive result replaces so many bytes at the
  -- front of the caller's buffer by those read, any other leaves the buffer alone. The path is
  -- shorter than 2 ^ 32, and the provider's `read` keeps the size of the buffer and returns an
  -- `int32_t` that, if positive, is at most this size.
  pub read-exchange :
      (path : Bytes) (offset handle : ℕ) (old : Bytes) (s : S)
      → length path < 2 ^ 32
      → length old < 2 ^ 32
      → IsRead
          (length old)
          (fs.read path (offset % 2 ^ 32) (handle % 2 ^ 32) (replicate (length old) 0) s)
      → Remote.read p (exchange p q fs id) path offset handle old s
        ≡ receive_data old
            (fs.read path (offset % 2 ^ 32) (handle % 2 ^ 32) (replicate (length old) 0) s)
  unfolding Remote.read dispatch
  read-exchange path offset handle old s h bounded r =
      let e : length old % 2 ^ 32 % 2 ^ 32 ≡ length old = omega arith in
      rw (new_request-message) (
        simp writer_laws (
          perform_read-reply (Empty.read p path offset handle)
            (counted path ++ (be32 (length old % 2 ^ 32) ++ (be64 offset ++ be64 handle))) old s
            bounded (fs.read path (offset % 2 ^ 32) (handle % 2 ^ 32) (replicate (length old) 0) s)
            r
            (rw (append-nil (be64 handle), e) at
              (Decode.fs_read-at q fs (head id (request_code RequestType.read)) []
                (response q id RequestType.read) s path (length old % 2 ^ 32) offset handle h))))
