-- ===== src/System/Order/Performed.antt =====
-- What one performed call adds to the state of the provider and to the answers on their way.
use mathlib.Core.List.{map-append}
use webfuse.Base.{
  ℕ, ◌^◌, ◌<◌, ◌≡◌, refl, sym, ap, ◌∙◌, List, [], ◌∷◌, ◌++◌, map, append_assoc, append-nil, Bool,
  Option, none, some, arith,
}
use webfuse.Flags.Platform.{Platform}
use webfuse.Message.Bytes.{Bytes}
use webfuse.Message.Writer.{Writer, get_data}
use webfuse.Message.Reader.{Reader, new_reader}
use webfuse.Fs.{FilesystemI}
use webfuse.Rpc.Exchange.{exchange, exchange-none, exchange-message}
use webfuse.System.{response_head, request_bytes-eq}
use webfuse.Provider.{on_message}
use webfuse.Provider.Answers.{HasHead}
use webfuse.Message.Writer.Shape.{get_data-message}
use webfuse.Client.{UserData}
use webfuse.Server.Authentication.{Header}
use webfuse.System.World.{
  answer_list, Call, call_message, call_bytes, World, after_calls, exchanged,
}
use webfuse.System.Flow.{exchanged-append, after_calls-append, map_snoc}
use webfuse.System.Live.{IsLive, IsLive-remove, IsLive-bound}
use webfuse.System.Order.{code_of, Flight, flight_call, flight_bytes, flight_answer, IsOrdered}

module _ (p q : Platform) {S : Type 0} (fs : FilesystemI S)
    (copy_header : ℕ → Header → Option Bytes) (authenticate : Bytes → Bytes → Bool)
    (wsi_s wsi_c : ℕ) (state : S) where
  -- What a call adds to the answers.
  exchanged-one :
      (performed : List Call) (call : Call) (o : Option Reader) (s' : S)
      → exchange p q fs call.id (call_message p call) (after_calls p q fs performed state) ≡ (o, s')
      → (exchanged p q fs (performed ++ call ∷ []) state
          ≡ exchanged p q fs performed state ++ answer_list p q fs call.ticket o)
        × (after_calls p q fs (performed ++ call ∷ []) state ≡ s')
  unfolding exchanged after_calls
  exchanged-one performed call o s' e = (
    rw
        (
          exchanged-append p q fs performed (call ∷ []) state,
          e,
          append-nil (answer_list p q fs call.ticket o),
        )
        refl,
    after_calls-append p q fs performed (call ∷ []) state
        ∙ ap (λ (out : Option Reader × S). out.1) e,
  )

  -- The provider throws.
  pub perform-none :
      (w : World S) (up : List Bytes) (call : Call) (waiting : List Call) (c : UserData) (s' : S)
      → IsOrdered p q fs wsi_s state w
      → c.current_message ≡ []
      → c.requests ≡ w.client.requests
      → up ++ map (get_data p) w.service.requests ≡ map (call_bytes p) waiting
      → w.waiting ≡ call ∷ waiting
      → on_message q fs (new_reader (call_bytes p call)) w.provider ≡ (none, s')
      → IsOrdered p q fs wsi_s state (record w {
        up = up;
        client = c;
        provider = s';
        performed = w.performed ++ call ∷ [];
        waiting = waiting;
      })
  perform-none w up call waiting c s' h empty same requests e thrown =
      let live : IsLive w.service.id w.service.pending_responses 0
          (map flight_call h.flying ++ call ∷ waiting) =
        rw (e) at h.live in
      let small : call.id < 2 ^ 32 = omega (
        arith,
        h.short_id,
        IsLive-bound w.service.id w.service.pending_responses 0 (map flight_call h.flying) call
            waiting live,
      ) in
      let (answers, after) = exchanged-one w.performed call none s' (
        exchange-none p q fs call.id small (call_message p call) _ s'
          (rw (h.provider) at thrown)) in
      record {
        authenticated = h.authenticated;
        running = h.running;
        connected = h.connected;
        short_id = h.short_id;
        no_message = h.no_message;
        client_message = empty;
        flying = h.flying;
        requests = requests;
        responses = rw (same) h.responses;
        live =
            IsLive-remove w.service.id w.service.pending_responses 0 (map flight_call h.flying) call
              waiting live;
        bounded = h.bounded;
        provider = sym after;
        answers = answers ∙ append-nil _ ∙ h.answers;
      }

  pub perform-some :
      (w : World S) (up : List Bytes) (call : Call) (waiting : List Call) (c : UserData)
      (response : Writer) (s' : S)
      → IsOrdered p q fs wsi_s state w
      → c.current_message ≡ []
      → c.requests ≡ w.client.requests ++ response ∷ []
      → up ++ map (get_data p) w.service.requests ≡ map (call_bytes p) waiting
      → w.waiting ≡ call ∷ waiting
      → on_message q fs (new_reader (call_bytes p call)) w.provider ≡ (some response, s')
      → IsOrdered p q fs wsi_s state (record w {
        up = up;
        client = c;
        provider = s';
        performed = w.performed ++ call ∷ [];
        waiting = waiting;
      })
  unfolding HasHead
  perform-some w up call waiting c response s' h empty same requests e answered =
      let live : IsLive w.service.id w.service.pending_responses 0
          (map flight_call h.flying ++ call ∷ waiting) =
        rw (e) at h.live in
      let small : call.id < 2 ^ 32 = omega (
        arith,
        h.short_id,
        IsLive-bound w.service.id w.service.pending_responses 0 (map flight_call h.flying) call
            waiting live,
      ) in
      let (body, headed) : HasHead q call.id (code_of call) response =
        response_head p q fs call.id small call.kind call.body response w.provider s'
          (rw (request_bytes-eq p q fs call.id small call.kind call.body) at answered) in
      let f : Flight = record { call = call; body = body } in
      let (answers, after) = exchanged-one w.performed call (some (flight_answer f).1) s' (
        exchange-message p q fs call.id small (call_message p call) (code_of call) body _ s'
          (rw (h.provider, headed) at answered)) in
      record {
        authenticated = h.authenticated;
        running = h.running;
        connected = h.connected;
        short_id = h.short_id;
        no_message = h.no_message;
        client_message = empty;
        flying = h.flying ++ f ∷ [];
        requests = requests;
        responses = rw (same) (
            map_snoc (get_data q) flight_bytes w.down w.client.requests h.flying response f
              h.responses
              (ap (get_data q) headed ∙ get_data-message q call.id (code_of call) body));
        live =
            rw
              (
                map-append flight_call h.flying (f ∷ []),
                append_assoc (map flight_call h.flying) (call ∷ []) waiting,
              )
              live;
        bounded = h.bounded;
        provider = sym after;
        answers =
            answers
            ∙ rw
                (
                  h.answers,
                  map-append flight_answer h.flying (f ∷ []),
                  append_assoc w.got (map flight_answer h.flying) (flight_answer f ∷ []),
                )
                refl;
      }
