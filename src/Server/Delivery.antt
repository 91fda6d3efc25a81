-- ===== src/Server/Delivery.antt =====
-- Requests on their way to the provider, and responses on their way back.
use webfuse.Base.{
  ℕ, ◌%◌, ◌^◌, ◌<◌, ◌≡◌, ◌≢◌, refl, ap, List, [], ◌∷◌, ◌++◌, map, append_assoc, append-nil, Bool,
  true, false, Option, none, some, ◌==◌, length, replicate, arith, ==_self, ≢→==,
}
use webfuse.Flags.Platform.{Platform}
use webfuse.Message.Bytes.{Bytes, be32}
use webfuse.Message.Types.{ResponseType, response_code}
use webfuse.Message.Writer.{Writer, set_id, get_data}
use webfuse.Message.Reader.{new_reader}
use webfuse.Message.Reader.At.{at, new_reader-at, reader_laws}
use webfuse.Rpc.Exchange.{head}
use webfuse.Server
use webfuse.Server.{
  ServerHandler, Effect, callback_on_writable, lws_write, set_value, set_exception, next_id, find,
  erase, on_receive, on_message, resolve, is_empty, send_front, read_head,
}
use webfuse.Server.Authentication.{Header}
use webfuse.Server.Events.{Event, receive, server_writeable, call_perform, step, run}

-- The next id is positive and below 2 ^ 32.
pub next_id-bounds : (id : ℕ) → (0 < next_id id) × (next_id id < 2 ^ 32)
unfolding next_id
next_id-bounds id = ground arith

-- The messages that the effects send.
unfoldable pub sent : List Effect → List Bytes
sent [] = []
sent (lws_write connection bytes ∷ effects) = bytes ∷ sent effects
sent (_ ∷ effects) = sent effects

module _ (p : Platform) (copy_header : ℕ → Header → Option Bytes)
    (authenticate : Bytes → Bytes → Bool) where
  -- A handler that is not shutting down, called as often as it has requests to write, sends all
  -- of them, in their order.
  pub drain-order :
      (requests : List Writer) (s : ServerHandler)
      → sent
          (run p copy_header authenticate
            (replicate (length requests) server_writeable)
            (record s { requests = requests; shutdown_requested = false })).0
        ≡ map (get_data p) requests
  unfolding run step sent Server.on_writable send_front
  drain-order [] s = refl
  drain-order (w ∷ []) s = refl
  drain-order (w ∷ v ∷ rest) s = ap (λ more. get_data p w ∷ more) (drain-order (v ∷ rest) s)

module _ (authenticate : Bytes → Bytes → Bool) where
  pub on_message-response :
      (wsi id code ticket : ℕ) (body : Bytes) (s : ServerHandler)
      → id < 2 ^ 32
      → code < 2 ^ 8
      → code ≢ response_code ResponseType.getcreds
      → find id s.pending_responses ≡ some ticket
      → on_message authenticate wsi (new_reader (be32 id ++ code ∷ body)) s ≡ (
        set_value ticket (at (head id code) body) ∷ [],
        record s { pending_responses = erase id s.pending_responses },
      )
  unfolding on_message resolve
  on_message-response wsi id code ticket body s small byte other known =
      let e : id % 2 ^ 32 ≡ id = omega arith in
      let f : code % 2 ^ 8 ≡ code = omega arith in
      let g : (code == response_code ResponseType.getcreds) ≡ false =
        ≢→== code (response_code ResponseType.getcreds) other in
      simp (new_reader-at, reader_laws, e, f, g, known, read_head, on_message, resolve)

-- The bytes of a message that arrives in fragments, and its arrival.
unfoldable pub joined : List Bytes → Bytes → Bytes
joined [] last = last
joined (fragment ∷ fragments) last = fragment ++ joined fragments last

unfoldable pub arrivals : ℕ → List Bytes → Bytes → List Event
arrivals wsi [] last = receive wsi last true ∷ []
arrivals wsi (fragment ∷ fragments) last = receive wsi fragment false ∷ arrivals wsi fragments last

module _ (p : Platform) (copy_header : ℕ → Header → Option Bytes)
    (authenticate : Bytes → Bytes → Bool) where
  pub run-arrivals :
      (wsi : ℕ) (fragments : List Bytes) (last : Bytes) (s : ServerHandler)
      → run p copy_header authenticate (arrivals wsi fragments last) s
        ≡ on_message authenticate wsi
            (new_reader (s.current_message ++ joined fragments last))
            (record s { current_message = [] })
  unfolding run step arrivals joined on_receive
  run-arrivals wsi [] last s =
      ap (λ effects. (effects, (on_receive authenticate wsi last true s).1))
        (append-nil (on_receive authenticate wsi last true s).0)
  run-arrivals wsi (fragment ∷ fragments) last s =
      rw (← append_assoc s.current_message fragment (joined fragments last)) (
        run-arrivals wsi fragments last
          (record s { current_message = s.current_message ++ fragment }))

  -- An authenticated handler that is not shutting down, whose queue and current message are empty
  -- and whose next id is not pending, sends a request under that id; once a message with the same
  -- id, of a type other than the response to `getcreds`, arrives in any number of fragments,
  -- exactly the call that waits gets its reader, standing at the body, and the pending responses
  -- are as before.
  pub perform-answered :
      (wsi ticket code : ℕ) (writer : Writer) (fragments : List Bytes) (last body : Bytes)
      (s : ServerHandler)
      → code < 2 ^ 8
      → code ≢ response_code ResponseType.getcreds
      → find (next_id s.id) s.pending_responses ≡ none
      → joined fragments last ≡ be32 (next_id s.id) ++ code ∷ body
      → run p copy_header authenticate
          (call_perform writer ticket ∷ server_writeable ∷ arrivals wsi fragments last)
          (record s {
            is_authenticated = true;
            shutdown_requested = false;
            requests = [];
            current_message = [];
          })
        ≡ (
          lws_write s.connection (get_data p (set_id p (next_id s.id) writer))
              ∷ set_value ticket (at (head (next_id s.id) code) body)
              ∷ [],
          record s {
            id = next_id s.id;
            is_authenticated = true;
            shutdown_requested = false;
            requests = [];
            current_message = [];
          },
        )
  unfolding run step Server.perform Server.emplace Server.enqueue Server.on_writable send_front find
      erase
  perform-answered wsi ticket code writer fragments last body s byte other fresh whole =
      let id : ℕ = next_id s.id in
      let waits : ServerHandler = record s {
        id = id;
        is_authenticated = true;
        shutdown_requested = false;
        requests = [];
        current_message = [];
        pending_responses = (id, ticket) ∷ s.pending_responses;
      } in
      let found : find id waits.pending_responses ≡ some ticket = rw (==_self id) refl in
      let erased : erase id waits.pending_responses ≡ s.pending_responses = rw (==_self id) refl in
      rw (Server.emplace, fresh)
        (ap
          (λ (after : List Effect × ServerHandler).
            (lws_write s.connection (get_data p (set_id p id writer)) ∷ after.0, after.1))
          (rw
            (
              run-arrivals wsi fragments last waits,
              whole,
              on_message-response authenticate wsi id code ticket body waits (next_id-bounds s.id).1
                  byte other found,
              erased,
            )
            refl))
