-- ===== src/System/Order/Service.antt =====
-- What the service does with its calls, and their order.
use webfuse.Base.{
  if-both, inl, inr, List-cases, ℕ, suc, ◌≡◌, ◌≢◌, refl, sym, subst, ap, ◌∙◌, List, [], ◌∷◌, ◌++◌,
  map, append_assoc, Bool, false, Option, some, arith, length, length-append,
}
use webfuse.Flags.Platform.{Platform}
use webfuse.Message.Bytes.{Bytes}
use webfuse.Message.Writer.{Writer, get_data}
use webfuse.Message.Reader.At.{at}
use webfuse.Fs.{FilesystemI}
use webfuse.Rpc.Exchange.{head}
use webfuse.Server
use webfuse.Server.{
  Effect, is_empty, set_value, erase, ServerHandler, next_id, find, send_front, on_writable,
}
use webfuse.Server.Authentication.{Header}
use webfuse.Server.Delivery.{sent, joined, arrivals, run-arrivals, on_message-response}
use webfuse.Server.Events.{run}
use webfuse.System.{response_code_byte, not_credentials}
use webfuse.System.World.{values, Call, World, poll, transmit, receive, exchanged}
use webfuse.System.Flow.{same_parts, not_empty, map_shift, Bounded-erase}
use webfuse.System.Live.{IsLive, IsLive-lower, IsLive-erase}
use webfuse.System.Order.{code_of, Flight, flight_call, flight_bytes, flight_answer, IsOrdered}

poll-kept : (wsi : ℕ) (s : ServerHandler) → s.connection ≡ some wsi → (Server.poll s).1 ≡ s
unfolding Server.poll
poll-kept wsi s e =
    if-both (λ (out : List Effect × ServerHandler). out.1 ≡ s) (is_empty s.requests) refl
      (simp (e, Server.poll))

on_writable-front :
    (p : Platform) (s : ServerHandler) (writer : Writer) (rest : List Writer)
    → s.shutdown_requested ≡ false
    → s.requests ≡ writer ∷ rest
    → (sent (on_writable p s).1.0 ≡ get_data p writer ∷ [])
      × ((on_writable p s).1.1 ≡ record s { requests = rest })
unfolding on_writable send_front sent
on_writable-front p s writer [] running e =
    (simp (running, e, on_writable, send_front), simp (running, e, on_writable, send_front))
on_writable-front p s writer (other ∷ rest) running e =
    (simp (running, e, on_writable, send_front), simp (running, e, on_writable, send_front))

module _ (p q : Platform) {S : Type 0} (fs : FilesystemI S)
    (copy_header : ℕ → Header → Option Bytes) (authenticate : Bytes → Bytes → Bool)
    (wsi_s wsi_c : ℕ) (state : S) where
  pub poll-IsOrdered :
      (w : World S)
      → IsOrdered p q fs wsi_s state w
      → IsOrdered p q fs wsi_s state (poll p q fs copy_header authenticate wsi_s wsi_c w)
  unfolding poll
  poll-IsOrdered w h =
      subst (λ service. IsOrdered p q fs wsi_s state (record w { service = service }))
        (sym (poll-kept wsi_s w.service h.connected)) h

  transmit-front :
      (w : World S) (writer : Writer) (rest : List Writer)
      → w.service.requests ≡ writer ∷ rest
      → IsOrdered p q fs wsi_s state w
      → IsOrdered p q fs wsi_s state (transmit p q fs copy_header authenticate wsi_s wsi_c w)
  unfolding transmit
  transmit-front w writer rest e h =
      let (bytes, after) = on_writable-front p w.service writer rest h.running e in
      subst
        (λ (service : ServerHandler).
          IsOrdered p q fs wsi_s state
            (record w { service = service; up = w.up ++ sent (on_writable p w.service).1.0 }))
        (sym after)
        (subst
          (λ (more : List Bytes).
            IsOrdered p q fs wsi_s state
              (record w { service = record (w.service) { requests = rest }; up = w.up ++ more }))
          (sym bytes)
          (record {
            authenticated = h.authenticated;
            running = h.running;
            connected = h.connected;
            short_id = h.short_id;
            no_message = h.no_message;
            client_message = h.client_message;
            flying = h.flying;
            requests = map_shift (get_data p) w.up writer rest _ (rw (e) at h.requests);
            responses = h.responses;
            live = h.live;
            bounded = h.bounded;
            provider = h.provider;
            answers = h.answers;
          }))

  pub transmit-IsOrdered :
      (w : World S)
      → w.service.requests ≢ []
      → IsOrdered p q fs wsi_s state w
      → IsOrdered p q fs wsi_s state (transmit p q fs copy_header authenticate wsi_s wsi_c w)
  transmit-IsOrdered w some_request h = elim (List-cases w.service.requests) [
    | inl e ↦ absurd (some_request e)
    | inr (writer, (rest, e)) ↦ transmit-front w writer rest e h
  ]

  received-run :
      (fragments : List Bytes) (last : Bytes) (w : World S) (f : Flight) (calls : List Call)
      → IsOrdered p q fs wsi_s state w
      → joined fragments last ≡ flight_bytes f
      → IsLive w.service.id w.service.pending_responses 0 (f.call ∷ calls)
      → run p copy_header authenticate (arrivals wsi_s fragments last) w.service ≡ (
        set_value f.call.ticket (at (head f.call.id (code_of f.call)) f.body) ∷ [],
        record (w.service) {
          current_message = [];
          pending_responses = erase f.call.id w.service.pending_responses;
        },
      )
  unfolding IsLive
  received-run fragments last w f calls h whole (above, below, found, kind, rest) =
      run-arrivals p copy_header authenticate wsi_s fragments last w.service
      ∙ rw (h.no_message, whole)
          (on_message-response authenticate wsi_s f.call.id (code_of f.call) f.call.ticket f.body
            (record (w.service) { current_message = [] }) (omega (arith, below, h.short_id))
            (response_code_byte f.call.kind) (not_credentials f.call.kind kind) found)

  receive-front :
      (fragments : List Bytes) (last : Bytes) (down : List Bytes) (w : World S) (f : Flight)
      (flying : List Flight)
      → IsOrdered p q fs wsi_s state w
      → joined fragments last ≡ flight_bytes f
      → down ++ map (get_data q) w.client.requests ≡ map flight_bytes flying
      → IsLive w.service.id w.service.pending_responses 0
          (f.call ∷ (map flight_call flying ++ w.waiting))
      → exchanged p q fs w.performed state ≡ w.got ++ map flight_answer (f ∷ flying)
      → IsOrdered p q fs wsi_s state
          (receive p q fs copy_header authenticate wsi_s wsi_c fragments last down w)
  unfolding receive IsLive values
  receive-front fragments last down w f flying h whole responses live answers =
      let s : ServerHandler = w.service in
      let (above, below, found, kind, rest) = live in
      subst
        (λ (after : List Effect × ServerHandler).
          IsOrdered p q fs wsi_s state
            (record w { service = after.1; down = down; got = w.got ++ values after.0 }))
        (sym (received-run fragments last w f _ h whole live))
        (record {
          authenticated = h.authenticated;
          running = h.running;
          connected = h.connected;
          short_id = h.short_id;
          no_message = refl;
          client_message = h.client_message;
          flying = flying;
          requests = h.requests;
          responses = responses;
          live =
              IsLive-lower s.id _ f.call.id 0 _ (omega arith)
                (IsLive-erase s.id s.pending_responses f.call.id f.call.id _ (omega arith) rest);
          bounded = Bounded-erase s.id f.call.id s.pending_responses h.bounded;
          provider = h.provider;
          answers =
              answers ∙ sym (append_assoc w.got (flight_answer f ∷ []) (map flight_answer flying));
        })

  pub receive-IsOrdered :
      (fragments : List Bytes) (last : Bytes) (down : List Bytes) (w : World S)
      → w.down ≡ joined fragments last ∷ down
      → IsOrdered p q fs wsi_s state w
      → IsOrdered p q fs wsi_s state
          (receive p q fs copy_header authenticate wsi_s wsi_c fragments last down w)
  receive-IsOrdered fragments last down w arrived h = elim (List-cases h.flying) [
    | inl e ↦ absurd (not_empty _ _ (rw (e, arrived) at h.responses))
    | inr (f, (flying, e)) ↦
        let both = same_parts _ _ _ _ (rw (e, arrived) at h.responses) in
        receive-front fragments last down w f flying h both.0 both.1 (rw (e) at h.live)
          (rw (e) at h.answers)
  ]

  -- An answer that arrives leaves the requests in the queue.
  pub receive-requests :
      (fragments : List Bytes) (last : Bytes) (down : List Bytes) (w : World S)
      → w.down ≡ joined fragments last ∷ down
      → IsOrdered p q fs wsi_s state w
      → (receive p q fs copy_header authenticate wsi_s wsi_c fragments last down w).service.requests
        ≡ w.service.requests
  unfolding receive
  receive-requests fragments last down w arrived h = elim (List-cases h.flying) [
    | inl e ↦ absurd (not_empty _ _ (rw (e, arrived) at h.responses))
    | inr (f, (flying, e)) ↦
        let both = same_parts _ _ _ _ (rw (e, arrived) at h.responses) in
        ap (λ (after : List Effect × ServerHandler). after.1.requests)
          (received-run fragments last w f _ h both.0 (rw (e) at h.live))
  ]

  pub transmit-sizes :
      (w : World S)
      → w.service.requests ≢ []
      → IsOrdered p q fs wsi_s state w
      → (let w' = transmit p q fs copy_header authenticate wsi_s wsi_c w in
          (length w.service.requests ≡ suc (length w'.service.requests))
          × (length w'.up ≡ suc (length w.up)))
  unfolding transmit
  transmit-sizes w some_request h = elim (List-cases w.service.requests) [
    | inl e ↦ absurd (some_request e)
    | inr (writer, (rest, e)) ↦
        let (bytes, after) = on_writable-front p w.service writer rest h.running e in
        (
          rw (after, e) refl,
          rw (bytes) (omega (arith, length-append w.up (get_data p writer ∷ []))),
        )
  ]
