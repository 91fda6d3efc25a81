-- ===== src/Tests/Objects.antt =====
-- Objects that are moved, assigned and destroyed, at concrete inputs.
use webfuse.Base.{◌+◌, ◌≡◌, refl, List, [], ◌∷◌, none, some}
use webfuse.Owner.{
  Operation, constructs, destroys, moves, assigns, living, ended, Heap, empty, delete, pointer,
  construct, destroy, move_construct, move_assign, operate, run,
}
use webfuse.Owner.Laws
use webfuse.Owner.Laws.{owners, times}

abbrev operations : List Operation
operations =
    constructs ∷ moves 0 ∷ constructs ∷ assigns 2 1 ∷ assigns 2 2 ∷ destroys 1 ∷ destroys 0 ∷ []

abbrev last : Heap
last = record { next = 2; objects = ended ∷ ended ∷ living (some 0) ∷ []; deleted = 1 ∷ [] }

left : run operations empty ≡ some last
unfolding run operate construct destroy move_construct move_assign pointer delete
left = refl

-- An object is not used after its lifetime.
twice : run (constructs ∷ destroys 0 ∷ destroys 0 ∷ []) empty ≡ none
unfolding run operate construct destroy pointer delete
twice = refl

run-owned_example : owners 1 last.objects + times 1 last.deleted ≡ 1
run-owned_example = Laws.run-owned operations last 1 left
