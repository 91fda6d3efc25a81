-- ===== src/System/Order/Ask.antt =====
-- A new call of a thread, and the order of the calls before it.
use webfuse.Base.{
  ℕ, ◌+◌, ◌^◌, ◌<◌, ◌≡◌, ◌≢◌, refl, sym, subst, [], ◌∷◌, ◌++◌, map, append_assoc, Bool, true,
  Option, none, some, ==_self, arith, length,
}
use webfuse.Flags.Platform.{Platform}
use webfuse.Message.Bytes.{Bytes}
use webfuse.Message.Types.{RequestType}
use webfuse.Message.Writer.{Writer, get_data, set_id}
use webfuse.Fs.{FilesystemI}
use webfuse.Server
use webfuse.Server.{ServerHandler, next_id, find, send_front, on_writable}
use webfuse.Server.Authentication.{Header}
use webfuse.System.World.{Call, call_message, call_bytes, World, ask}
use webfuse.System.Flow.{map_snoc, Bounded-find, Bounded-more}
use webfuse.System.Live.{IsLive-add}
use webfuse.System.Order.{flight_call, IsOrdered}

next_id-suc : (id : ℕ) → id + 1 < 2 ^ 32 → next_id id ≡ id + 1
unfolding next_id
next_id-suc id small = ground arith

perform-fresh :
    (p : Platform) (writer : Writer) (ticket : ℕ) (s : ServerHandler)
    → s.is_authenticated ≡ true
    → find (next_id s.id) s.pending_responses ≡ none
    → (Server.perform p writer ticket s).1 ≡ record s {
      id = next_id s.id;
      requests = s.requests ++ set_id p (next_id s.id) writer ∷ [];
      pending_responses = (next_id s.id, ticket) ∷ s.pending_responses;
    }
unfolding Server.perform Server.emplace Server.enqueue
perform-fresh p writer ticket s authenticated fresh = simp (authenticated, fresh, Server.emplace)

module _ (p q : Platform) {S : Type 0} (fs : FilesystemI S)
    (copy_header : ℕ → Header → Option Bytes) (authenticate : Bytes → Bytes → Bool)
    (wsi_s wsi_c : ℕ) (state : S) where
  pub ask-IsOrdered :
      (kind : RequestType) (body : Bytes) (w : World S)
      → kind ≢ RequestType.getcreds
      → w.service.id + 1 < 2 ^ 32
      → IsOrdered p q fs wsi_s state w
      → IsOrdered p q fs wsi_s state (ask p q fs copy_header authenticate wsi_s wsi_c kind body w)
  unfolding ask find
  ask-IsOrdered kind body w other small h =
      let s : ServerHandler = w.service in
      let next : next_id s.id ≡ s.id + 1 = next_id-suc s.id small in
      let call : Call = record {
        ticket = length w.performed + length w.waiting;
        id = next_id s.id;
        kind = kind;
        body = body;
      } in
      let fresh : find call.id s.pending_responses ≡ none =
        Bounded-find s.id call.id s.pending_responses h.bounded (omega (arith, next)) in
      let found : find call.id ((call.id, call.ticket) ∷ s.pending_responses) ≡ some call.ticket =
        rw (==_self call.id) refl in
      subst
        (λ service.
          IsOrdered p q fs wsi_s state
            (record w { service = service; waiting = w.waiting ++ call ∷ [] }))
        (sym (perform-fresh p (call_message p call) call.ticket s h.authenticated fresh))
        (record {
          authenticated = h.authenticated;
          running = h.running;
          connected = h.connected;
          short_id = omega (arith, next);
          no_message = h.no_message;
          client_message = h.client_message;
          flying = h.flying;
          requests =
              map_snoc (get_data p) (call_bytes p) w.up s.requests w.waiting
                (set_id p call.id (call_message p call)) call h.requests refl;
          responses = h.responses;
          live = rw (← append_assoc (map flight_call h.flying) w.waiting (call ∷ [])) (
              IsLive-add s.id s.pending_responses 0 (map flight_call h.flying ++ w.waiting) call
                (omega arith) (omega (arith, next)) other found h.live);
          bounded = (
            omega arith,
            Bounded-more s.id call.id s.pending_responses (omega (arith, next)) h.bounded,
          );
          provider = h.provider;
          answers = h.answers;
        })
