-- ===== src/System/Quiet.antt =====
-- The end of what is on its way.
use webfuse.Base.{
  ℕ, ◌+◌, ◌≤◌, ◌≡◌, ◌∙◌, refl, sym, List, [], ◌∷◌, Bool, Option, map, append-nil, arith, length,
  inl, inr, ◌⊎◌,
}
use webfuse.Flags.Platform.{Platform}
use webfuse.Message.Bytes.{Bytes}
use webfuse.Fs.{FilesystemI}
use webfuse.Server.Authentication.{Header}
use webfuse.System.World.{World, Start, after_calls, exchanged}
use webfuse.System.Order.{IsOrdered}
use webfuse.System.Linear.{Step-IsOrdered, reachable-IsOrdered}
use webfuse.System.Writable.{Served, Reached, Moves, still, more}
use webfuse.System.Asked.{
  IsAsked, Progress-IsAsked, Reached-IsAsked, Progress-Step, Reached-Reachable,
}
use webfuse.System.Weight.{
  on_way, budget, all_calls, Progress-budget, Progress-calls, Further, can-Progress,
}
use webfuse.System.Flow.{not_empty}

no_length : {A : Type 0} (xs : List A) → length xs ≡ 0 → xs ≡ []
no_length [] e = refl
no_length (x ∷ xs) e = absurd (omega (arith, e))

map_none : {A B : Type 0} (f : A → B) (xs : List A) → [] ≡ map f xs → xs ≡ []
map_none f [] e = refl
map_none f (x ∷ xs) e = absurd (not_empty (f x) (map f xs) (sym e))

module _ (p q : Platform) {S : Type 0} (fs : FilesystemI S)
    (copy_header : ℕ → Header → Option Bytes) (authenticate : Bytes → Bytes → Bool)
    (wsi_s wsi_c : ℕ) where
  -- Every call of a world `w` is answered in `w'`: none is on its way, the provider has performed
  -- them all in their order, and they have got what the exchanges give.
  pub record IsAnswered (state : S) (w w' : World S) : Type 0 where
    pub none_waiting : w'.waiting ≡ []
    pub none_on_way : on_way w' ≡ 0
    pub performed : w'.performed ≡ all_calls w
    pub provider : w'.provider ≡ after_calls p q fs (all_calls w) state
    pub got : w'.got ≡ exchanged p q fs (all_calls w) state

  Moves-IsOrdered :
      (state : S) (v : Served S) (n : ℕ) (v' : Served S)
      → IsOrdered p q fs wsi_s state v.world
      → Moves p q fs copy_header authenticate wsi_s wsi_c v n v'
      → IsOrdered p q fs wsi_s state v'.world
  Moves-IsOrdered state v n v' h still = h
  Moves-IsOrdered state v n v' h (more {v' = middle} moves progress) =
      Step-IsOrdered p q fs copy_header authenticate wsi_s wsi_c state middle.world v'.world
        (Moves-IsOrdered state v _ middle h moves)
        (Progress-Step p q fs copy_header authenticate wsi_s wsi_c middle v' progress)

  Moves-IsAsked :
      (v : Served S) (n : ℕ) (v' : Served S)
      → IsAsked p q fs copy_header authenticate wsi_s wsi_c v
      → Moves p q fs copy_header authenticate wsi_s wsi_c v n v'
      → IsAsked p q fs copy_header authenticate wsi_s wsi_c v'
  Moves-IsAsked v n v' h still = h
  Moves-IsAsked v n v' h (more {v' = middle} moves progress) =
      Progress-IsAsked p q fs copy_header authenticate wsi_s wsi_c middle v'
        (Moves-IsAsked v _ middle h moves) progress

  Moves-budget :
      (state : S) (v : Served S) (n : ℕ) (v' : Served S)
      → IsOrdered p q fs wsi_s state v.world
      → Moves p q fs copy_header authenticate wsi_s wsi_c v n v'
      → n + budget v' ≤ budget v
  Moves-budget state v n v' h still = omega arith
  Moves-budget state v n v' h (more {v' = middle} moves progress) = omega (
    arith,
    Moves-budget state v _ middle h moves,
    Progress-budget p q fs copy_header authenticate wsi_s wsi_c state middle v'
        (Moves-IsOrdered state v _ middle h moves) progress,
  )

  Moves-calls :
      (v : Served S) (n : ℕ) (v' : Served S)
      → Moves p q fs copy_header authenticate wsi_s wsi_c v n v'
      → all_calls v'.world ≡ all_calls v.world
  Moves-calls v n v' still = refl
  Moves-calls v n v' (more {v' = middle} moves progress) =
      Progress-calls p q fs copy_header authenticate wsi_s wsi_c middle v' progress
      ∙ Moves-calls v _ middle moves

  -- A world with nothing on its way has answered its calls.
  quiet-IsAnswered :
      (state : S) (w : World S)
      → IsOrdered p q fs wsi_s state w
      → on_way w ≡ 0
      → IsAnswered state w w
  unfolding on_way
  quiet-IsAnswered state w h quiet =
      let up = no_length w.up (omega (arith, quiet)) in
      let requests = no_length w.service.requests (omega (arith, quiet)) in
      let down = no_length w.down (omega (arith, quiet)) in
      let responses = no_length w.client.requests (omega (arith, quiet)) in
      let waiting = map_none _ w.waiting (rw (up, requests) at h.requests) in
      let flying = map_none _ h.flying (rw (down, responses) at h.responses) in
      record {
        none_waiting = waiting;
        none_on_way = quiet;
        performed = rw (waiting, append-nil w.performed) refl;
        provider = rw (waiting, append-nil w.performed) h.provider;
        got =
            rw (waiting, append-nil w.performed)
              (sym (h.answers ∙ rw (flying, append-nil w.got) refl));
      }

  Moves-IsAnswered :
      (state : S) (v : Served S) (n : ℕ) (v' : Served S)
      → IsOrdered p q fs wsi_s state v.world
      → Moves p q fs copy_header authenticate wsi_s wsi_c v n v'
      → on_way v'.world ≡ 0
      → IsAnswered state v.world v'.world
  Moves-IsAnswered state v n v' h moves quiet =
      let answered = quiet-IsAnswered state v'.world (Moves-IsOrdered state v n v' h moves) quiet in
      let calls = Moves-calls v n v' moves in
      record {
        none_waiting = answered.none_waiting;
        none_on_way = quiet;
        performed = answered.performed ∙ calls;
        provider = rw (← calls) answered.provider;
        got = rw (← calls) answered.got;
      }

  -- In a world that is reached from an established, authenticated and idle connection by calls
  -- (none for credentials, and no more than the 2 ^ 32 - 1 ids), polls and progress, in any
  -- order: where libwebsockets makes an end writable only if that end has asked for it by
  -- `lws_callback_on_writable` since it last was, and the thread of the service polls when it is
  -- woken with requests it has not asked to write, no run of progress is longer than five times
  -- the requests in the queue of the handler, three times those on their way, twice the responses
  -- in the queue of the client, those on their way back, and one poll; and after any such run
  -- either nothing is on its way and every call made before it is answered as its exchange says,
  -- or there is further progress to make: no request or response gets stuck.
  pub Moves-end :
      (start : World S) (v : Served S) (n : ℕ) (v' : Served S)
      → Start p q fs copy_header authenticate wsi_s wsi_c start
      → Reached p q fs copy_header authenticate wsi_s wsi_c start v
      → Moves p q fs copy_header authenticate wsi_s wsi_c v n v'
      → (n ≤ budget v)
        × (IsAnswered start.provider v.world v'.world
            ⊎ Further p q fs copy_header authenticate wsi_s wsi_c v')
  Moves-end start v n v' begin reached moves =
      let h =
        reachable-IsOrdered p q fs copy_header authenticate wsi_s wsi_c start v.world begin
          (Reached-Reachable p q fs copy_header authenticate wsi_s wsi_c start v reached) in
      let asked =
        Moves-IsAsked v n v'
          (Reached-IsAsked p q fs copy_header authenticate wsi_s wsi_c start v begin reached)
          moves in
      (
        omega (arith, Moves-budget start.provider v n v' h moves),
        elim (can-Progress p q fs copy_header authenticate wsi_s wsi_c v' asked) [
          | inl quiet ↦ inl (Moves-IsAnswered start.provider v n v' h moves quiet)
          | inr further ↦ inr further
        ],
      )
