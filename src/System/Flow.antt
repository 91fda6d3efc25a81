-- ===== src/System/Flow.antt =====
-- What one event does to a service or a client that has other calls on their way.
use mathlib.Core.List.{map-append}
use webfuse.Base.{
  ℕ, ◌<◌, ◌≤◌, ◌≡◌, ◌≢◌, refl, ◌∙◌, List, [], ◌∷◌, ◌++◌, map, append_assoc, none, ◌==◌, ≢→==, All,
  arith, Bool-cases, inl, inr,
}
use webfuse.Flags.Platform.{Platform}
use webfuse.Message.Bytes.{Bytes}
use webfuse.Message.Reader.{new_reader}
use webfuse.Fs.{FilesystemI}
use webfuse.Rpc.Exchange.{exchange}
use webfuse.Client
use webfuse.Client.{ClientHandler, UserData, run_client}
use webfuse.Server.{find, erase}
use webfuse.Server.Delivery.{joined}
use webfuse.System.{client_arrivals}
use webfuse.System.World.{Call, call_message, answer_list, after_calls, exchanged}

module _ (q : Platform) {S : Type 0} (handler : ClientHandler S) where
  -- A message that arrives in fragments becomes a response in the queue, if the handler makes one.
  pub run_client-arrivals :
      (wsi : ℕ) (fragments : List Bytes) (last : Bytes) (c : UserData) (s : S)
      → (run_client q handler wsi (client_arrivals fragments last) c s).0.1
        ≡ (Client.enqueue wsi
            (handler (new_reader (c.current_message ++ joined fragments last)) s).0
            (record c { current_message = [] })).1
  unfolding run_client client_arrivals joined Client.client_callback Client.receive Client.answer
  run_client-arrivals wsi [] last c s = refl
  run_client-arrivals wsi (fragment ∷ fragments) last c s =
      rw (← append_assoc c.current_message fragment (joined fragments last)) (
        run_client-arrivals wsi fragments last
          (record c { current_message = c.current_message ++ fragment }) s)

  pub run_client-state :
      (wsi : ℕ) (fragments : List Bytes) (last : Bytes) (c : UserData) (s : S)
      → (run_client q handler wsi (client_arrivals fragments last) c s).1
        ≡ (handler (new_reader (c.current_message ++ joined fragments last)) s).1
  unfolding run_client client_arrivals joined Client.client_callback Client.receive Client.answer
  run_client-state wsi [] last c s = refl
  run_client-state wsi (fragment ∷ fragments) last c s =
      rw (← append_assoc c.current_message fragment (joined fragments last)) (
        run_client-state wsi fragments last
          (record c { current_message = c.current_message ++ fragment }) s)

pub same_parts : {A : Type 0} (x y : A) (xs ys : List A) → x ∷ xs ≡ y ∷ ys → (x ≡ y) × (xs ≡ ys)
same_parts x y xs ys e = (cc e, cc e)

pub not_empty : {A : Type 0} (x : A) (xs : List A) → ¬ (x ∷ xs ≡ [])
not_empty x xs e = cc e

-- One more at the end of what is on its way.
pub map_snoc :
    {A B C : Type 0} (f : A → C) (g : B → C) (sent : List C) (xs : List A) (ys : List B) (x : A)
    (y : B)
    → sent ++ map f xs ≡ map g ys
    → f x ≡ g y
    → sent ++ map f (xs ++ x ∷ []) ≡ map g (ys ++ y ∷ [])
map_snoc f g sent xs ys x y e one =
    rw
      (
        map-append f xs (x ∷ []),
        map-append g ys (y ∷ []),
        ← append_assoc sent (map f xs) (f x ∷ []),
        e,
        one,
      )
      refl

-- The first of what waits is sent.
pub map_shift :
    {A C : Type 0} (f : A → C) (sent : List C) (x : A) (xs : List A) (whole : List C)
    → sent ++ map f (x ∷ xs) ≡ whole
    → (sent ++ f x ∷ []) ++ map f xs ≡ whole
map_shift f sent x xs whole e = append_assoc sent (f x ∷ []) (map f xs) ∙ e

-- Another id is not affected by an emplaced or an erased one.
pub find-other :
    (key id ticket : ℕ) (pending : List (ℕ × ℕ))
    → key ≢ id
    → find id ((key, ticket) ∷ pending) ≡ find id pending
unfolding find
find-other key id ticket pending h = rw (≢→== key id h) refl

pub find-erase :
    (gone id : ℕ) (pending : List (ℕ × ℕ))
    → gone ≢ id
    → find id (erase gone pending) ≡ find id pending
unfolding find erase
find-erase gone id [] h = refl
find-erase gone id ((key, ticket) ∷ pending) h = elim (Bool-cases (key == gone)) [
  | inl e ↦ rw (e, ≢→== key id (ground arith)) refl
  | inr e ↦ rw (e, find) (rw (find-erase gone id pending h) refl)
]

-- Keys up to a bound, so that a greater id is fresh.
abbrev pub Bounded : ℕ → List (ℕ × ℕ) → Type 0
Bounded n = All (λ entry. entry.0 ≤ n)

pub Bounded-find :
    (n id : ℕ) (pending : List (ℕ × ℕ)) → Bounded n pending → n < id → find id pending ≡ none
unfolding find
Bounded-find n id [] h less = refl
Bounded-find n id ((key, ticket) ∷ pending) (h, hs) less =
    rw (≢→== key id (omega arith)) (Bounded-find n id pending hs less)

pub Bounded-erase :
    (n gone : ℕ) (pending : List (ℕ × ℕ)) → Bounded n pending → Bounded n (erase gone pending)
unfolding erase
Bounded-erase n gone [] h = record {}
Bounded-erase n gone ((key, ticket) ∷ pending) (h, hs) = elim (Bool-cases (key == gone)) [
  | inl e ↦ rw (e) hs
  | inr e ↦ rw (e) (h, Bounded-erase n gone pending hs)
]

pub Bounded-more :
    (n m : ℕ) (pending : List (ℕ × ℕ)) → n ≤ m → Bounded n pending → Bounded m pending
Bounded-more n m [] less h = record {}
Bounded-more n m (entry ∷ pending) less (h, hs) = (omega arith, Bounded-more n m pending less hs)

module _ (p q : Platform) {S : Type 0} (fs : FilesystemI S) where
  pub after_calls-append :
      (calls more : List Call) (s : S)
      → after_calls p q fs (calls ++ more) s ≡ after_calls p q fs more (after_calls p q fs calls s)
  unfolding after_calls
  after_calls-append [] more s = refl
  after_calls-append (call ∷ calls) more s = after_calls-append calls more _

  pub exchanged-append :
      (calls more : List Call) (s : S)
      → exchanged p q fs (calls ++ more) s
        ≡ exchanged p q fs calls s ++ exchanged p q fs more (after_calls p q fs calls s)
  unfolding exchanged after_calls
  exchanged-append [] more s = refl
  exchanged-append (call ∷ calls) more s =
      let out = exchange p q fs call.id (call_message p call) s in
      rw (exchanged-append calls more out.1) (
        rw
          (append_assoc (answer_list p q fs call.ticket out.0) (exchanged p q fs calls out.1)
            (exchanged p q fs more (after_calls p q fs calls out.1)))
          refl)
