-- ===== src/System/Asked.antt =====
-- What the client has asked for where responses wait.
use webfuse.Base.{
  ℕ, ◌≡◌, ◌≢◌, refl, ap, List, [], ◌∷◌, ◌++◌, append_assoc, append-nil, ◌||◌, Bool, true, false,
  Option, none, some,
}
use webfuse.Flags.Platform.{Platform}
use webfuse.Message.Bytes.{Bytes}
use webfuse.Message.Writer.{Writer}
use webfuse.Message.Reader.{new_reader}
use webfuse.Fs.{FilesystemI}
use webfuse.Provider.{on_message}
use webfuse.Client
use webfuse.Client.{ClientHandler, UserData, run_client, client_callback}
use webfuse.Server.Authentication.{Header}
use webfuse.Server.Delivery.{joined}
use webfuse.System.{client_arrivals}
use webfuse.System.World
use webfuse.System.World.{World}
use webfuse.System.Flow.{run_client-arrivals}
use webfuse.System.Writable.{
  Served, client_asks, ask, poll, transmit, perform, reply, receive, Progress, wakes,
  writes_request, performs_request, writes_response, receives_response, Happens, calls, polls,
  progresses, Reached, here, next,
}

-- What the fragments of a message make the client ask for.
run_client-effects :
    (q : Platform) {S : Type 0} (handler : ClientHandler S) (wsi : ℕ) (fragments : List Bytes)
    (last : Bytes) (c : UserData) (s : S)
    → (run_client q handler wsi (client_arrivals fragments last) c s).0.0
      ≡ (Client.enqueue wsi
          (handler (new_reader (c.current_message ++ joined fragments last)) s).0
          (record c { current_message = [] })).0
unfolding run_client client_arrivals joined client_callback Client.receive Client.answer
run_client-effects q handler wsi [] last c s = append-nil _
run_client-effects q handler wsi (fragment ∷ fragments) last c s =
    rw (← append_assoc c.current_message fragment (joined fragments last)) (
      run_client-effects q handler wsi fragments last
        (record c { current_message = c.current_message ++ fragment }) s)

abbrev Waits : List Writer → Bool → Type 0
Waits requests asked = requests ≢ [] → asked ≡ true

or_true : (a : Bool) → (a || true) ≡ true
or_true true = refl
or_true false = refl

or_more : (a b : Bool) → a ≡ true → (a || b) ≡ true
or_more true b e = refl
or_more false b e = absurd (cc e)

enqueue-Waits :
    (wsi : ℕ) (response : Option Writer) (c : UserData) (asked : Bool)
    → Waits c.requests asked
    → Waits
        (Client.enqueue wsi response (record c { current_message = [] })).1.requests
        (asked || client_asks (Client.enqueue wsi response (record c { current_message = [] })).0)
unfolding Client.enqueue client_asks
enqueue-Waits wsi none c asked h some_request = or_more asked false (h some_request)
enqueue-Waits wsi (some writer) c asked h some_request = or_true asked

write_front-Waits :
    (q : Platform) (wsi : ℕ) (requests : List Writer) (c : UserData)
    → c.requests ≡ requests
    → Waits
        (Client.write_front q wsi requests c).1.requests
        (client_asks (Client.write_front q wsi requests c).0)
unfolding Client.write_front Client.more_to_write client_asks
write_front-Waits q wsi [] c e some_request = absurd (some_request e)
write_front-Waits q wsi (writer ∷ []) c e some_request = absurd (some_request refl)
write_front-Waits q wsi (writer ∷ other ∷ rest) c e some_request = refl

module _ (p q : Platform) {S : Type 0} (fs : FilesystemI S)
    (copy_header : ℕ → Header → Option Bytes) (authenticate : Bytes → Bytes → Bool)
    (wsi_s wsi_c : ℕ) where
  abbrev pub IsAsked : Served S → Type 0
  IsAsked v = Waits v.world.client.requests v.client_asked

  pub Progress-IsAsked :
      (v v' : Served S)
      → IsAsked v
      → Progress p q fs copy_header authenticate wsi_s wsi_c v v'
      → IsAsked v'
  unfolding poll transmit perform reply receive World.poll World.transmit World.perform World.reply
      World.receive client_callback
  Progress-IsAsked v v' h (wakes unasked some_request e) = rw (e) h
  Progress-IsAsked v v' h (writes_request asked some_request e) = rw (e) h
  Progress-IsAsked v v' h (performs_request fragments last up arrived e) =
      let w = v.world in
      rw
        (
          e,
          run_client-arrivals q (on_message q fs) wsi_c fragments last w.client w.provider,
          run_client-effects q (on_message q fs) wsi_c fragments last w.client w.provider,
        )
        (enqueue-Waits wsi_c
          (on_message q fs (new_reader (w.client.current_message ++ joined fragments last))
            w.provider).0
          w.client v.client_asked h)
  Progress-IsAsked v v' h (writes_response asked some_response e) =
      rw (e) (write_front-Waits q wsi_c v.world.client.requests v.world.client refl)
  Progress-IsAsked v v' h (receives_response fragments last down arrived e) = rw (e) h

  Happens-IsAsked :
      (v v' : Served S)
      → IsAsked v
      → Happens p q fs copy_header authenticate wsi_s wsi_c v v'
      → IsAsked v'
  unfolding ask poll World.ask World.poll
  Happens-IsAsked v v' h (calls kind body other room e) = rw (e) h
  Happens-IsAsked v v' h (polls e) = rw (e) h
  Happens-IsAsked v v' h (progresses progress) = Progress-IsAsked v v' h progress

  pub Reached-IsAsked :
      (start : World S) (v : Served S)
      → World.Start p q fs copy_header authenticate wsi_s wsi_c start
      → Reached p q fs copy_header authenticate wsi_s wsi_c start v
      → IsAsked v
  Reached-IsAsked start v begin here = λ some_response. absurd (some_response begin.client_requests)
  Reached-IsAsked start v begin (next {v = before} reached happens) =
      Happens-IsAsked before v (Reached-IsAsked start before begin reached) happens

  -- Each step of this world is one of the world without what was asked for.
  pub Progress-Step :
      (v v' : Served S)
      → Progress p q fs copy_header authenticate wsi_s wsi_c v v'
      → World.Step p q fs copy_header authenticate wsi_s wsi_c v.world v'.world
  unfolding poll transmit perform reply receive
  Progress-Step v v' (wakes unasked some_request e) = World.polls (ap (λ (v : Served S). v.world) e)
  Progress-Step v v' (writes_request asked some_request e) =
      World.moves (World.transmits some_request (ap (λ (v : Served S). v.world) e))
  Progress-Step v v' (performs_request fragments last up arrived e) =
      World.moves (World.performs fragments last up arrived (ap (λ (v : Served S). v.world) e))
  Progress-Step v v' (writes_response asked some_response e) =
      World.moves (World.replies some_response (ap (λ (v : Served S). v.world) e))
  Progress-Step v v' (receives_response fragments last down arrived e) =
      World.moves (World.receives fragments last down arrived (ap (λ (v : Served S). v.world) e))

  pub Reached-Reachable :
      (start : World S) (v : Served S)
      → Reached p q fs copy_header authenticate wsi_s wsi_c start v
      → World.Reachable p q fs copy_header authenticate wsi_s wsi_c start v.world
  unfolding ask poll
  Reached-Reachable start v here = World.here
  Reached-Reachable start v (next {v = before} reached (calls kind body other room e)) =
      World.next (Reached-Reachable start before reached)
        (World.asks kind body other room (ap (λ (v : Served S). v.world) e))
  Reached-Reachable start v (next {v = before} reached (polls e)) =
      World.next (Reached-Reachable start before reached)
        (World.polls (ap (λ (v : Served S). v.world) e))
  Reached-Reachable start v (next {v = before} reached (progresses progress)) =
      World.next (Reached-Reachable start before reached) (Progress-Step before v progress)
