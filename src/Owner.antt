-- ===== src/Owner.antt =====
-- The objects that own a `detail` by a pointer: `ws_server` of src/webfuse/ws/server.cpp, `ws_client` of
-- src/webfuse/ws/client.cpp, `fuse` of src/webfuse/fuse.cpp and `provider` of src/webfuse/provider.cpp
-- have the same constructor, destructor, move constructor and move assignment. A `detail *` is the
-- number of its allocation, and `nullptr` is none.

pub mod Laws
use webfuse.Base.{
  ℕ, suc, ◌+◌, List, [], ◌∷◌, ◌++◌, Option, none, some, ◌==◌, length, get_elem?, set, if◌then◌else◌,
}

infixl 5 ◌>>=◌
abbrev ◌>>=◌ : {A B : Type 0} → Option A → (A → Option B) → Option B
◌>>=◌ none f = none
◌>>=◌ (some a) f = f a

abbrev return : {A : Type 0} → A → Option A
return a = some a

-- An object lives, with its `d`, or its lifetime has ended.
pub data Object : Type 0 where
  living : Option ℕ → Object
  ended : Object

pub record Heap : Type 0 where
  pub next : ℕ
  pub objects : List Object
  pub deleted : List ℕ

abbrev pub empty : Heap
empty = record { next = 0; objects = []; deleted = [] }

-- `delete d`, which does nothing for `nullptr`.
unfoldable pub delete : Option ℕ → Heap → Heap
delete none heap = heap
delete (some k) heap = record heap { deleted = k ∷ heap.deleted }

abbrev pub assign : ℕ → Object → Heap → Heap
assign i object heap = record heap { objects = set heap.objects i object }

-- `d` of an object; none where no such object lives, which no program may ask for.
abbrev pub pointed : Option Object → Option (Option ℕ)
pointed (some (living d)) = some d
pointed (some ended) = none
pointed none = none

unfoldable pub pointer : ℕ → Heap → Option (Option ℕ)
pointer i heap = pointed (get_elem? heap.objects i)

-- `d(new detail(...))`
unfoldable pub construct : Heap → Heap
construct heap = record heap {
  next = suc heap.next;
  objects = heap.objects ++ living (some heap.next) ∷ [];
}

unfoldable pub destroy : ℕ → Heap → Option Heap
destroy i heap = do d ← pointer i heap; return (assign i ended (delete d heap))

-- The new object takes the pointer of the other, which is left with `nullptr`.
unfoldable pub move_construct : ℕ → Heap → Option Heap
move_construct other heap = do
  d ← pointer other heap
  let moved = assign other (living none) heap
  return (record moved { objects = moved.objects ++ living d ∷ [] })

-- The assignment of an object to itself does nothing.
unfoldable pub move_assign : ℕ → ℕ → Heap → Option Heap
move_assign this other heap = do
  d ← pointer this heap
  other_d ← pointer other heap
  return (
      if this == other
      then heap
      else assign other (living none) (assign this (living other_d) (delete d heap)))

pub data Operation : Type 0 where
  constructs : Operation
  destroys : ℕ → Operation
  moves : ℕ → Operation
  assigns : ℕ → ℕ → Operation

unfoldable pub operate : Operation → Heap → Option Heap
operate constructs heap = some (construct heap)
operate (destroys i) heap = destroy i heap
operate (moves other) heap = move_construct other heap
operate (assigns this other) heap = move_assign this other heap

-- A program; none where it uses an object that does not live.
unfoldable pub run : List Operation → Heap → Option Heap
run [] heap = some heap
run (operation ∷ operations) heap = do after ← operate operation heap; run operations after
