-- ===== src/ProviderMain/Program.antt =====
-- `main` of src/provider_main.cpp with its provider: what the callbacks of each service, the listener of the
-- connection and the signals do to the loop. Round `i` is what happens while `provider::service` runs for
-- the `i`th time, which is a parameter.
use webfuse.Base.{
  ℕ, zero, suc, ◌+◌, ◌<◌, ◌≡◌, refl, ◌∙◌, List, [], ◌∷◌, ◌++◌, Bool, true, false, ◌||◌, Option,
  none, some, arith, Bool-cases, inl, inr, if◌then◌else◌,
}
use webfuse.Flags.Platform.{Platform}
use webfuse.Message.Bytes.{Bytes}
use webfuse.Fs.{FilesystemI}
use webfuse.Provider.{on_message}
use webfuse.Provider.Session
use webfuse.Provider.Session.{Session}
use webfuse.Message.Writer.{Writer}
use webfuse.Message.Reader.{new_reader}
use webfuse.Client
use webfuse.Client.{
  enqueue, write_front, more_to_write, ClientHandler, UserData, Effect, connection_listener,
  callback_on_writable, lws_write, Reason, client_established, client_connection_error,
  client_closed, client_receive, client_writeable, client_callback, run_client,
}
use webfuse.Client.Order.{sent}
use webfuse.ProviderMain.Run.{stopped, Stops, now, after, serve, serve-Stops}

pub record Round : Type 0 where
  pub signalled : Bool
  pub reasons : List Reason

-- `on_signal`, and the listener that `main` gives to the provider, on `shutdown_requested`.
abbrev pub on_signal : Bool → Bool
on_signal shutdown = true

abbrev pub on_connection : Bool → Bool → Bool
on_connection connected shutdown = if connected then shutdown else true

-- The calls of the listener in a service.
unfoldable pub listen : List Effect → Bool → Bool
listen [] shutdown = shutdown
listen (connection_listener connected ∷ effects) shutdown =
    listen effects (on_connection connected shutdown)
listen (callback_on_writable wsi ∷ effects) shutdown = listen effects shutdown
listen (lws_write wsi bytes ∷ effects) shutdown = listen effects shutdown

pub record Program (S : Type 0) : Type 0 where
  pub round : ℕ
  pub shutdown_requested : Bool
  pub session : Session S
  pub written : List Bytes

-- A round that loses the connection, or has a signal.
unfoldable pub loses : List Reason → Bool
loses [] = false
loses (client_connection_error ∷ reasons) = true
loses (client_closed ∷ reasons) = true
loses (client_established ∷ reasons) = loses reasons
loses (client_receive fragment is_final ∷ reasons) = loses reasons
loses (client_writeable ∷ reasons) = loses reasons

abbrev pub ends : Round → Bool
ends round = round.signalled || loses round.reasons

module _ (q : Platform) {S : Type 0} (fs : FilesystemI S) (wsi : ℕ) (rounds : ℕ → Round) where
  -- `provider.service()`, which does not throw.
  unfoldable pub service : Program S → Option (Program S)
  service w =
      let round = rounds w.round in
      let out = Session.serve q fs wsi round.reasons w.session in
      let listened = listen out.0.1 w.shutdown_requested in
      some (record {
        round = suc w.round;
        shutdown_requested = if round.signalled then on_signal listened else listened;
        session = out.1;
        written = w.written ++ sent out.0.1;
      })

  abbrev pub requested : Program S → Bool
  requested w = w.shutdown_requested

listen-append :
    (xs ys : List Effect) (shutdown : Bool)
    → listen (xs ++ ys) shutdown ≡ listen ys (listen xs shutdown)
unfolding listen
listen-append [] ys shutdown = refl
listen-append (connection_listener connected ∷ xs) ys shutdown = listen-append xs ys _
listen-append (callback_on_writable wsi ∷ xs) ys shutdown = listen-append xs ys shutdown
listen-append (lws_write wsi bytes ∷ xs) ys shutdown = listen-append xs ys shutdown

listen-true : (effects : List Effect) → listen effects true ≡ true
unfolding listen
listen-true [] = refl
listen-true (connection_listener true ∷ effects) = listen-true effects
listen-true (connection_listener false ∷ effects) = listen-true effects
listen-true (callback_on_writable wsi ∷ effects) = listen-true effects
listen-true (lws_write wsi bytes ∷ effects) = listen-true effects

from_zero : (n : ℕ) → 0 + n ≡ n
from_zero n = omega arith

enqueue-listen :
    (wsi : ℕ) (response : Option Writer) (c : UserData) (shutdown : Bool)
    → listen (enqueue wsi response c).0 shutdown ≡ shutdown
unfolding listen enqueue
enqueue-listen wsi none c shutdown = refl
enqueue-listen wsi (some writer) c shutdown = refl

write_front-listen :
    (q : Platform) (wsi : ℕ) (requests : List Writer) (c : UserData) (shutdown : Bool)
    → listen (write_front q wsi requests c).0 shutdown ≡ shutdown
unfolding listen write_front more_to_write
write_front-listen q wsi [] c shutdown = refl
write_front-listen q wsi (writer ∷ []) c shutdown = refl
write_front-listen q wsi (writer ∷ other ∷ rest) c shutdown = refl

module _ (q : Platform) {S : Type 0} (handler : ClientHandler S) (wsi : ℕ) where
  receive-listen :
      (fragment : Bytes) (is_final : Bool) (c : UserData) (s : S) (shutdown : Bool)
      → listen (Client.receive q handler wsi fragment is_final c s).0.0 shutdown ≡ shutdown
  unfolding Client.receive Client.answer listen
  receive-listen fragment true c s shutdown =
      enqueue-listen wsi (handler (new_reader (c.current_message ++ fragment)) s).0 _ shutdown
  receive-listen fragment false c s shutdown = refl

  -- The listener asks for the end exactly if the connection is lost.
  run_client-listen :
      (reasons : List Reason) (c : UserData) (s : S) (shutdown : Bool)
      → listen (run_client q handler wsi reasons c s).0.0 shutdown
        ≡ (if loses reasons then true else shutdown)
  unfolding run_client client_callback listen loses Client.disconnect
  run_client-listen [] c s shutdown = refl
  run_client-listen (client_established ∷ reasons) c s shutdown =
      run_client-listen reasons c s shutdown
  run_client-listen (client_connection_error ∷ reasons) c s shutdown =
      listen-true (run_client q handler wsi reasons (Client.disconnect c).1 s).0.0
  run_client-listen (client_closed ∷ reasons) c s shutdown =
      listen-true (run_client q handler wsi reasons (Client.disconnect c).1 s).0.0
  run_client-listen (client_receive fragment is_final ∷ reasons) c s shutdown =
      let out = Client.receive q handler wsi fragment is_final c s in
      listen-append out.0.0 (run_client q handler wsi reasons out.0.1 out.1).0.0 shutdown
      ∙ rw (receive-listen fragment is_final c s shutdown)
          (run_client-listen reasons out.0.1 out.1 shutdown)
  run_client-listen (client_writeable ∷ reasons) c s shutdown =
      let out = write_front q wsi c.requests c in
      listen-append out.0 (run_client q handler wsi reasons out.1 s).0.0 shutdown
      ∙ rw (write_front-listen q wsi c.requests c shutdown)
          (run_client-listen reasons out.1 s shutdown)

module _ (q : Platform) {S : Type 0} (fs : FilesystemI S) (wsi : ℕ) (rounds : ℕ → Round) where
  after_round : Program S → Program S
  after_round w =
      let out = Session.serve q fs wsi (rounds w.round).reasons w.session in
      record {
        round = suc w.round;
        shutdown_requested = ends (rounds w.round);
        session = out.1;
        written = w.written ++ sent out.0.1;
      }

  service-after_round :
      (w : Program S)
      → w.shutdown_requested ≡ false
      → service q fs wsi rounds w ≡ some (after_round w)
  unfolding service after_round Session.serve
  service-after_round w idle =
      rw
        (
          idle,
          run_client-listen q (on_message q fs) wsi (rounds w.round).reasons w.session.user_data
              w.session.state false,
        )
        (elim (Bool-cases ((rounds w.round).signalled)) [
          | inl e ↦ rw (e) refl
          | inr e ↦ elim (Bool-cases (loses (rounds w.round).reasons)) [
            | inl f ↦ rw (e, f) refl
            | inr f ↦ rw (e, f) refl
          ]
        ])

  rounds_stop :
      (n : ℕ) (w : Program S)
      → w.shutdown_requested ≡ false
      → ends (rounds (w.round + n)) ≡ true
      → ((m : ℕ) → m < n → ends (rounds (w.round + m)) ≡ false)
      → (w' : Program S) × Stops (service q fs wsi rounds) (requested q fs wsi rounds) (suc n) w w'
        × (w'.round ≡ w.round + suc n)
  unfolding after_round
  rounds_stop zero w idle last before =
      let e : w.round + 0 ≡ w.round = omega arith in
      (after_round w, after idle (service-after_round w idle) (now (rw (e) at last)), omega arith)
  rounds_stop (suc n) w idle last before =
      let e : w.round + 0 ≡ w.round = omega arith in
      let f : w.round + suc n ≡ suc w.round + n = omega arith in
      let (w', stops, round) =
        rounds_stop n (after_round w) (rw (e) at (before 0 (omega arith))) (rw (f) at last)
          (λ m less.
            (let g : w.round + suc m ≡ suc w.round + m = omega arith in
              rw (g) at (before (suc m) (omega (arith, less))))) in
      (w', after idle (service-after_round w idle) stops, round ∙ omega arith)

  -- The loop of the provider's `main` ends after the first of its services in which the
  -- connection is lost or fails, or a signal comes, and not before: if this is round `n`, counted
  -- from 0, the loop, with fuel for one round more, has made `n + 1` services. Services do not
  -- throw.
  pub serve-ends :
      (n fuel : ℕ) (session : Session S)
      → ends (rounds n) ≡ true
      → ((m : ℕ) → m < n → ends (rounds m) ≡ false)
      → suc n < fuel
      → (w : Program S) × (serve
            (service q fs wsi rounds)
            (requested q fs wsi rounds)
            fuel
            (record { round = 0; shutdown_requested = false; session = session; written = [] })
          ≡ stopped w)
        × (w.round ≡ suc n)
  serve-ends n fuel session last before enough =
      let start : Program S = record {
        round = 0;
        shutdown_requested = false;
        session = session;
        written = [];
      } in
      let (w, stops, round) =
        rounds_stop n start refl (rw (from_zero n) last)
          (λ m less. rw (from_zero m) (before m less)) in
      (w, serve-Stops _ _ (suc n) fuel start w stops enough, round ∙ omega arith)
