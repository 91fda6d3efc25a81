-- ===== src/System/Linear.antt =====
-- Calls of many threads on one connection, against the same calls made one by one.
use webfuse.Base.{
  ℕ, suc, ◌+◌, ◌≡◌, ◌∙◌, refl, sym, subst, List, [], ◌∷◌, ◌++◌, Bool, Option, map, append_assoc,
  append-nil, arith, length, length-append, take, drop,
}
use webfuse.Flags.Platform.{Platform}
use webfuse.Message.Bytes.{Bytes}
use webfuse.Message.Reader.{Reader}
use webfuse.Fs.{FilesystemI}
use webfuse.Server.Authentication.{Header}
use webfuse.System.World.{
  ask, poll, transmit, perform, reply, receive, Call, World, Move, transmits, performs, replies,
  receives, Step, asks, polls, moves, Start, Reachable, here, next, after_calls, exchanged,
}
use webfuse.System.Order.{IsOrdered, flight_answer}
use webfuse.System.Order.Ask.{ask-IsOrdered}
use webfuse.System.Order.Service.{poll-IsOrdered, transmit-IsOrdered, receive-IsOrdered}
use webfuse.System.Order.Client.{perform-IsOrdered, reply-IsOrdered}

-- Promises that are numbered in the order in which the calls were made.
unfoldable pub IsNumbered : ℕ → List Call → Type 0
IsNumbered n [] = Unit {0}
IsNumbered n (call ∷ calls) = (call.ticket ≡ n) × IsNumbered (suc n) calls

IsNumbered-snoc :
    (n : ℕ) (calls : List Call) (call : Call)
    → call.ticket ≡ n + length calls
    → IsNumbered n calls
    → IsNumbered n (calls ++ call ∷ [])
unfolding IsNumbered
IsNumbered-snoc n [] call last h = (last ∙ omega arith, record {})
IsNumbered-snoc n (first ∷ calls) call last (found, h) =
    (found, IsNumbered-snoc (suc n) calls call (last ∙ omega arith) h)

IsNumbered-shift :
    (calls waiting : List Call)
    → IsNumbered 0 (calls ++ waiting)
    → IsNumbered 0 ((calls ++ take 1 waiting) ++ drop 1 waiting)
IsNumbered-shift calls [] h = rw (append-nil calls) h
IsNumbered-shift calls (call ∷ waiting) h = rw (append_assoc calls (call ∷ []) waiting) h

module _ (p q : Platform) {S : Type 0} (fs : FilesystemI S)
    (copy_header : ℕ → Header → Option Bytes) (authenticate : Bytes → Bytes → Bool)
    (wsi_s wsi_c : ℕ) where
  pub Start-IsOrdered :
      (w : World S)
      → Start p q fs copy_header authenticate wsi_s wsi_c w
      → IsOrdered p q fs wsi_s w.provider w
  unfolding webfuse.System.Live.IsLive after_calls exchanged
  Start-IsOrdered w start = record {
    authenticated = start.authenticated;
    running = start.running;
    connected = start.connected;
    short_id = start.short_id;
    no_message = start.no_message;
    client_message = start.client_message;
    flying = [];
    requests = rw (start.nothing_up, start.no_requests, start.none_waiting) refl;
    responses = rw (start.nothing_down, start.client_requests) refl;
    live = rw (start.none_waiting) (record {});
    bounded = rw (start.no_pending) (record {});
    provider = rw (start.none_performed) refl;
    answers = rw (start.none_performed, start.none_got) refl;
  }

  pub Move-IsOrdered :
      (state : S) (w w' : World S)
      → IsOrdered p q fs wsi_s state w
      → Move p q fs copy_header authenticate wsi_s wsi_c w w'
      → IsOrdered p q fs wsi_s state w'
  Move-IsOrdered state w w' h (transmits some_request e) =
      subst (IsOrdered p q fs wsi_s state) (sym e)
        (transmit-IsOrdered p q fs copy_header authenticate wsi_s wsi_c state w some_request h)
  Move-IsOrdered state w w' h (performs fragments last up arrived e) =
      subst (IsOrdered p q fs wsi_s state) (sym e) (
        perform-IsOrdered p q fs copy_header authenticate wsi_s wsi_c state fragments last up w
          arrived h)
  Move-IsOrdered state w w' h (replies some_response e) =
      subst (IsOrdered p q fs wsi_s state) (sym e)
        (reply-IsOrdered p q fs copy_header authenticate wsi_s wsi_c state w some_response h)
  Move-IsOrdered state w w' h (receives fragments last down arrived e) =
      subst (IsOrdered p q fs wsi_s state) (sym e) (
        receive-IsOrdered p q fs copy_header authenticate wsi_s wsi_c state fragments last down w
          arrived h)

  pub Step-IsOrdered :
      (state : S) (w w' : World S)
      → IsOrdered p q fs wsi_s state w
      → Step p q fs copy_header authenticate wsi_s wsi_c w w'
      → IsOrdered p q fs wsi_s state w'
  Step-IsOrdered state w w' h (asks kind body other room e) =
      subst (IsOrdered p q fs wsi_s state) (sym e)
        (ask-IsOrdered p q fs copy_header authenticate wsi_s wsi_c state kind body w other room h)
  Step-IsOrdered state w w' h (polls e) =
      subst (IsOrdered p q fs wsi_s state) (sym e)
        (poll-IsOrdered p q fs copy_header authenticate wsi_s wsi_c state w h)
  Step-IsOrdered state w w' h (moves move) = Move-IsOrdered state w w' h move

  pub reachable-IsOrdered :
      (start w : World S)
      → Start p q fs copy_header authenticate wsi_s wsi_c start
      → Reachable p q fs copy_header authenticate wsi_s wsi_c start w
      → IsOrdered p q fs wsi_s start.provider w
  reachable-IsOrdered start w begin here = Start-IsOrdered start begin
  reachable-IsOrdered start w begin (next {w = before} reached step) =
      Step-IsOrdered start.provider before w (reachable-IsOrdered start before begin reached) step

  Step-IsNumbered :
      (w w' : World S)
      → IsNumbered 0 (w.performed ++ w.waiting)
      → Step p q fs copy_header authenticate wsi_s wsi_c w w'
      → IsNumbered 0 (w'.performed ++ w'.waiting)
  unfolding ask poll transmit perform reply receive
  Step-IsNumbered w w' h (asks kind body other room e) =
      rw (e, ← append_assoc w.performed w.waiting _)
        (IsNumbered-snoc 0 (w.performed ++ w.waiting) _
          (omega (arith, length-append w.performed w.waiting)) h)
  Step-IsNumbered w w' h (polls e) = rw (e) h
  Step-IsNumbered w w' h (moves (transmits some_request e)) = rw (e) h
  Step-IsNumbered w w' h (moves (performs fragments last up arrived e)) =
      rw (e) (IsNumbered-shift w.performed w.waiting h)
  Step-IsNumbered w w' h (moves (replies some_response e)) = rw (e) h
  Step-IsNumbered w w' h (moves (receives fragments last down arrived e)) = rw (e) h

  reachable-IsNumbered :
      (start w : World S)
      → Start p q fs copy_header authenticate wsi_s wsi_c start
      → Reachable p q fs copy_header authenticate wsi_s wsi_c start w
      → IsNumbered 0 (w.performed ++ w.waiting)
  unfolding IsNumbered
  reachable-IsNumbered start w begin here =
      rw (begin.none_performed, begin.none_waiting) (record {})
  reachable-IsNumbered start w begin (next {w = before} reached step) =
      Step-IsNumbered before w (reachable-IsNumbered start before begin reached) step

  -- In every world that is reached from an established, authenticated and idle connection, in any
  -- order of calls of any threads (none for credentials, and no more than the 2 ^ 32 - 1 ids),
  -- polls, writes and arrivals in any fragments, the provider's file system is as after exactly
  -- the performed calls, one by one by `exchange`; what the calls have got so far is the
  -- beginning of what these exchanges give, each answer at the promise of its own call; and the
  -- performed calls, then the waiting ones, are all calls in the order in which they were made.
  pub reachable-linearizable :
      (start w : World S)
      → Start p q fs copy_header authenticate wsi_s wsi_c start
      → Reachable p q fs copy_header authenticate wsi_s wsi_c start w
      → (w.provider ≡ after_calls p q fs w.performed start.provider)
        × ((later : List (ℕ × Reader)) × (exchanged p q fs w.performed start.provider
              ≡ w.got ++ later))
        × IsNumbered 0 (w.performed ++ w.waiting)
  reachable-linearizable start w begin reached =
      let h = reachable-IsOrdered start w begin reached in
      (
        h.provider,
        (map flight_answer h.flying, h.answers),
        reachable-IsNumbered start w begin reached,
      )
