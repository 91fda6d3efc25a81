-- ===== src/Owner/Laws.antt =====
-- What becomes of each `detail`.
use mathlib.Core.Option.{some-injective}
use webfuse.Base.{
  ℕ, suc, ◌+◌, ◌≡◌, ◌≢◌, refl, subst, ap, ◌∙◌, List, [], ◌∷◌, ◌++◌, Option, none, some, ◌==◌, ltb,
  arith, get_elem?, set, if◌then◌else◌, Bool-cases, Option-cases, inl, inr, zero,
}
use webfuse.Owner.{
  Object, living, ended, Heap, empty, delete, assign, pointed, pointer, construct, destroy,
  move_construct, move_assign, Operation, constructs, destroys, moves, assigns, operate, run,
}

abbrev one : ℕ → ℕ → ℕ
one k d = if d == k then 1 else 0

abbrev points : ℕ → Option ℕ → ℕ
points k none = 0
points k (some d) = one k d

abbrev holds : ℕ → Object → ℕ
holds k (living d) = points k d
holds k ended = 0

-- How many objects own the `detail`, and how often it was deleted.
unfoldable pub owners : ℕ → List Object → ℕ
owners k [] = 0
owners k (object ∷ objects) = holds k object + owners k objects

unfoldable pub times : ℕ → List ℕ → ℕ
times k [] = 0
times k (d ∷ deleted) = one k d + times k deleted

abbrev balance : ℕ → Heap → ℕ
balance k heap = owners k heap.objects + times k heap.deleted

owners-append :
    (k : ℕ) (objects : List Object) (object : Object)
    → owners k (objects ++ object ∷ []) ≡ owners k objects + holds k object
unfolding owners
owners-append k [] object = omega arith
owners-append k (first ∷ objects) object = omega (arith, owners-append k objects object)

owners-set :
    (k : ℕ) (objects : List Object) (i : ℕ) (old new : Object)
    → get_elem? objects i ≡ some old
    → owners k (set objects i new) + holds k old ≡ owners k objects + holds k new
unfolding owners
owners-set k [] i old new e = absurd (cc e)
owners-set k (first ∷ objects) zero old new e =
    let same : first ≡ old = cc e in rw (same) (omega arith)
owners-set k (first ∷ objects) (suc i) old new e = omega (arith, owners-set k objects i old new e)

get_elem?-set :
    (objects : List Object) (i j : ℕ) (new : Object)
    → i ≢ j
    → get_elem? (set objects i new) j ≡ get_elem? objects j
get_elem?-set [] i j new h = refl
get_elem?-set (first ∷ objects) zero zero new h = absurd (h refl)
get_elem?-set (first ∷ objects) zero (suc j) new h = refl
get_elem?-set (first ∷ objects) (suc i) zero new h = refl
get_elem?-set (first ∷ objects) (suc i) (suc j) new h =
    get_elem?-set objects i j new (λ e. h (ap suc e))

pointed-living : (o : Option Object) (d : Option ℕ) → pointed o ≡ some d → o ≡ some (living d)
pointed-living (some (living d')) d e = ap (λ d. some (living d)) (cc e)
pointed-living (some ended) d e = absurd (cc e)
pointed-living none d e = absurd (cc e)

pointer-living :
    (i : ℕ) (heap : Heap) (d : Option ℕ)
    → pointer i heap ≡ some d
    → get_elem? heap.objects i ≡ some (living d)
unfolding pointer
pointer-living i heap d e = pointed-living (get_elem? heap.objects i) d e

delete-balance :
    (k : ℕ) (d : Option ℕ) (heap : Heap) → balance k (delete d heap) ≡ balance k heap + points k d
unfolding delete times
delete-balance k none heap = omega arith
delete-balance k (some d) heap = omega arith

-- The counts of each `detail` when an operation ends.
construct-balance :
    (k : ℕ) (heap : Heap) → balance k (construct heap) ≡ balance k heap + one k heap.next
unfolding construct
construct-balance k heap = omega (arith, owners-append k heap.objects (living (some heap.next)))

destroy-balance :
    (k i : ℕ) (heap after : Heap)
    → destroy i heap ≡ some after
    → (balance k after ≡ balance k heap) × (after.next ≡ heap.next)
unfolding destroy delete times
destroy-balance k i heap after e = elim (Option-cases (pointer i heap)) [
  | inl h ↦ absurd (cc (rw (h, destroy) at e))
  | inr (none, h) ↦
      let living = owners-set k heap.objects i _ ended (pointer-living i heap none h) in
      rw (← some-injective _ _ (rw (h, destroy) at e)) (omega (arith, living), refl)
  | inr (some d, h) ↦
      let living = owners-set k heap.objects i _ ended (pointer-living i heap (some d) h) in
      rw (← some-injective _ _ (rw (h, destroy) at e)) (omega (arith, living), refl)
]

move_construct-balance :
    (k other : ℕ) (heap after : Heap)
    → move_construct other heap ≡ some after
    → (balance k after ≡ balance k heap) × (after.next ≡ heap.next)
unfolding move_construct
move_construct-balance k other heap after e = elim (Option-cases (pointer other heap)) [
  | inl h ↦ absurd (cc (rw (h, move_construct) at e))
  | inr (d, h) ↦
      let moved = owners-set k heap.objects other _ (living none) (pointer-living other heap d h) in
      let added = owners-append k (set heap.objects other (living none)) (living d) in
      rw (← some-injective _ _ (rw (h, move_construct) at e)) (omega (arith, moved, added), refl)
]

delete-objects : (d : Option ℕ) (heap : Heap) → (delete d heap).objects ≡ heap.objects
unfolding delete
delete-objects none heap = refl
delete-objects (some d) heap = refl

delete-next : (d : Option ℕ) (heap : Heap) → (delete d heap).next ≡ heap.next
unfolding delete
delete-next none heap = refl
delete-next (some d) heap = refl

-- Two different objects: the old `detail` is deleted, and the other one changes its owner.
exchanged-balance :
    (k this other : ℕ) (heap : Heap) (d other_d : Option ℕ)
    → this ≢ other
    → pointer this heap ≡ some d
    → pointer other heap ≡ some other_d
    → balance k (assign other (living none) (assign this (living other_d) (delete d heap)))
      ≡ balance k heap
exchanged-balance k this other heap d other_d differ e f =
    let deleted = delete-balance k d heap in
    let taken = owners-set k heap.objects this _ (living other_d) (pointer-living this heap d e) in
    let found =
      get_elem?-set heap.objects this other (living other_d) differ
      ∙ pointer-living other heap other_d f in
    let left = owners-set k (set heap.objects this (living other_d)) other _ (living none) found in
    rw (delete-objects d heap) (omega (arith, rw (delete-objects d heap) at deleted, taken, left))

move_assign-balance :
    (k this other : ℕ) (heap after : Heap)
    → move_assign this other heap ≡ some after
    → (balance k after ≡ balance k heap) × (after.next ≡ heap.next)
unfolding move_assign
move_assign-balance k this other heap after e = elim (Option-cases (pointer this heap)) [
  | inl h ↦ absurd (cc (rw (h, move_assign) at e))
  | inr (d, h) ↦ elim (Option-cases (pointer other heap)) [
    | inl g ↦ absurd (cc (rw (h, g, move_assign) at e))
    | inr (other_d, g) ↦ elim (Bool-cases (this == other)) [
      | inl self ↦ rw (← some-injective _ _ (rw (h, g, self, move_assign) at e)) (refl, refl)
      | inr differ ↦ rw (← some-injective _ _ (rw (h, g, differ, move_assign) at e)) (
        exchanged-balance k this other heap d other_d
            (λ same. absurd (ground (arith, same, differ))) h g,
        delete-next d heap,
      )
    ]
  ]
]

-- A heap in which each `detail` that was allocated is owned once or was deleted once.
IsOwned : Heap → Type 0
IsOwned heap = (k : ℕ) → balance k heap ≡ (if ltb k heap.next then 1 else 0)

operate-IsOwned :
    (operation : Operation) (heap after : Heap)
    → IsOwned heap
    → operate operation heap ≡ some after
    → IsOwned after
unfolding operate IsOwned construct
operate-IsOwned constructs heap after h e k =
    rw (← some-injective _ _ e) (construct-balance k heap ∙ ground (arith, h k))
operate-IsOwned (destroys i) heap after h e k =
    let (kept, same) = destroy-balance k i heap after e in rw (same) (kept ∙ h k)
operate-IsOwned (moves other) heap after h e k =
    let (kept, same) = move_construct-balance k other heap after e in rw (same) (kept ∙ h k)
operate-IsOwned (assigns this other) heap after h e k =
    let (kept, same) = move_assign-balance k this other heap after e in rw (same) (kept ∙ h k)

run-IsOwned :
    (operations : List Operation) (heap after : Heap)
    → IsOwned heap
    → run operations heap ≡ some after
    → IsOwned after
unfolding run
run-IsOwned [] heap after h e = subst IsOwned (some-injective _ _ e) h
run-IsOwned (operation ∷ operations) heap after h e = elim (Option-cases (operate operation heap)) [
  | inl g ↦ absurd (cc (rw (g, run) at e))
  | inr (middle, g) ↦
      run-IsOwned operations middle after (operate-IsOwned operation heap middle h g)
        (rw (g, run) at e)
]

-- Whatever objects a program constructs, move-constructs, move-assigns (also to themselves) and
-- destroys, as long as it uses no object that does not live: each `detail` that was allocated is
-- either owned by exactly one living object and not deleted, or owned by none and deleted exactly
-- once, and no other is owned or deleted.
pub run-owned :
    (operations : List Operation) (heap : Heap) (k : ℕ)
    → run operations empty ≡ some heap
    → owners k heap.objects + times k heap.deleted ≡ (if ltb k heap.next then 1 else 0)
unfolding IsOwned owners times
run-owned operations heap k e = run-IsOwned operations empty heap (λ k. ground arith) e k
