-- ===== src/System/Weight.antt =====
-- How much is on its way, and what a step of progress does to it.
use webfuse.Base.{
  ℕ, suc, ◌+◌, ◌*◌, ◌<◌, ◌≤◌, ◌≡◌, ◌≢◌, ◌∙◌, refl, sym, ap, List, [], ◌∷◌, ◌++◌, ◌||◌, Bool, true,
  false, Option, append_assoc, arith, length, take, drop, List-cases, Bool-cases, inl, inr, ◌⊎◌,
  if◌then◌else◌,
}
use webfuse.Flags.Platform.{Platform}
use webfuse.Message.Bytes.{Bytes}
use webfuse.Fs.{FilesystemI}
use webfuse.Server
use webfuse.Server.Authentication.{Header}
use webfuse.Server.Delivery.{joined}
use webfuse.Server.Loop.{asks, poll_asks}
use webfuse.System.World
use webfuse.System.World.{Call, World}
use webfuse.System.Order.{IsOrdered}
use webfuse.System.Order.Service.{receive-requests, transmit-sizes}
use webfuse.System.Order.Client.{perform-sizes, reply-sizes}
use webfuse.System.Flow.{not_empty}
use webfuse.System.Writable.{
  Served, poll, transmit, perform, reply, receive, Progress, wakes, writes_request,
  performs_request, writes_response, receives_response,
}
use webfuse.System.Asked.{IsAsked}

-- How many requests and responses there are, in the queues and between both ends.
unfoldable pub on_way : {S : Type 0} → World S → ℕ
on_way w = length w.service.requests + length w.up + length w.client.requests + length w.down

-- How many steps of progress they can make.
unfoldable pub budget : {S : Type 0} → Served S → ℕ
budget v =
    5 * length v.world.service.requests
    + 3 * length v.world.up
    + 2 * length v.world.client.requests
    + length v.world.down
    + (if v.service_asked then 0 else 1)

-- All calls that were made.
abbrev pub all_calls : {S : Type 0} → World S → List Call
all_calls w = w.performed ++ w.waiting

take-drop : {A : Type 0} (xs : List A) → take 1 xs ++ drop 1 xs ≡ xs
take-drop [] = refl
take-drop (x ∷ xs) = refl

unasked_once : (asked : Bool) → (if asked then 0 else 1) ≤ 1
unasked_once true = omega arith
unasked_once false = omega arith

asked_more : (asked again : Bool) → (if asked || again then 0 else 1) ≤ (if asked then 0 else 1)
asked_more true again = omega arith
asked_more false true = omega arith
asked_more false false = omega arith

module _ (p q : Platform) {S : Type 0} (fs : FilesystemI S)
    (copy_header : ℕ → Header → Option Bytes) (authenticate : Bytes → Bytes → Bool)
    (wsi_s wsi_c : ℕ) where
  pub Progress-budget :
      (state : S) (v v' : Served S)
      → IsOrdered p q fs wsi_s state v.world
      → Progress p q fs copy_header authenticate wsi_s wsi_c v v'
      → budget v' < budget v
  unfolding budget poll transmit perform reply receive World.poll asks World.transmit World.perform
      World.reply World.receive
  Progress-budget state v v' h (wakes unasked some_request e) =
      elim (List-cases v.world.service.requests) [
        | inl none_wait ↦ absurd (some_request none_wait)
        | inr (writer, (rest, waiting)) ↦
            rw
              (
                e,
                poll_asks p copy_header authenticate wsi_s writer rest v.world.service h.connected
                    waiting,
                unasked,
              )
              (omega arith)
      ]
  Progress-budget state v v' h (writes_request asked some_request e) =
      let sizes =
        transmit-sizes p q fs copy_header authenticate wsi_s wsi_c state v.world some_request h in
      rw (e, asked)
        (omega
          (arith, sizes.0, sizes.1, unasked_once (asks (Server.on_writable p v.world.service).1.0)))
  Progress-budget state v v' h (performs_request fragments last up arrived e) =
      let sizes =
        perform-sizes p q fs copy_header authenticate wsi_s wsi_c state fragments last up v.world
          arrived in
      rw (e) (omega (arith, sizes.0, sizes.1))
  Progress-budget state v v' h (writes_response asked some_response e) =
      let sizes =
        reply-sizes p q fs copy_header authenticate wsi_s wsi_c state v.world some_response in
      rw (e) (omega (arith, sizes.0, sizes.1))
  Progress-budget state v v' h (receives_response fragments last down arrived e) =
      let same =
        receive-requests p q fs copy_header authenticate wsi_s wsi_c state fragments last down
          v.world arrived h in
      let one : length v.world.down ≡ suc (length down) = rw (arrived) refl in
      rw (e) (omega (arith, one, ap length same, asked_more v.service_asked _))

  pub Progress-calls :
      (v v' : Served S)
      → Progress p q fs copy_header authenticate wsi_s wsi_c v v'
      → all_calls v'.world ≡ all_calls v.world
  unfolding poll transmit perform reply receive World.poll World.transmit World.perform World.reply
      World.receive
  Progress-calls v v' (wakes unasked some_request e) = rw (e) refl
  Progress-calls v v' (writes_request asked some_request e) = rw (e) refl
  Progress-calls v v' (performs_request fragments last up arrived e) = rw (e) (
      append_assoc v.world.performed _ _
      ∙ ap (λ calls. v.world.performed ++ calls) (take-drop v.world.waiting))
  Progress-calls v v' (writes_response asked some_response e) = rw (e) refl
  Progress-calls v v' (receives_response fragments last down arrived e) = rw (e) refl

  abbrev pub Further : Served S → Type 0
  Further v = (v' : Served S) × Progress p q fs copy_header authenticate wsi_s wsi_c v v'

  -- The thread polls, or the connection is made writable.
  serves : (v : Served S) → v.world.service.requests ≢ [] → Further v
  serves v some_request = elim (Bool-cases (v.service_asked)) [
    | inl asked ↦ (_, writes_request asked some_request refl)
    | inr unasked ↦ (_, wakes unasked some_request refl)
  ]

  -- Where something is on its way, there is progress.
  pub can-Progress :
      (v : Served S)
      → IsAsked p q fs copy_header authenticate wsi_s wsi_c v
      → (on_way v.world ≡ 0) ⊎ Further v
  unfolding on_way joined
  can-Progress v h = elim (List-cases v.world.down) [
    | inr (bytes, (down, e)) ↦ inr (_, receives_response [] bytes down e refl)
    | inl down ↦ elim (List-cases v.world.client.requests) [
      | inr (response, (rest, e)) ↦
          let some_response : ¬ (v.world.client.requests ≡ []) =
            λ empty. not_empty _ _ (sym e ∙ empty) in
          inr (_, writes_response (h some_response) some_response refl)
      | inl responses ↦ elim (List-cases v.world.up) [
        | inr (bytes, (up, e)) ↦ inr (_, performs_request [] bytes up e refl)
        | inl up ↦ elim (List-cases v.world.service.requests) [
          | inr (request, (rest, e)) ↦ inr (serves v (λ empty. not_empty _ _ (sym e ∙ empty)))
          | inl requests ↦ inl (rw (down, responses, up, requests) refl)
        ]
      ]
    ]
  ]
