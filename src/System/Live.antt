-- ===== src/System/Live.antt =====
-- The calls that wait for an answer, and the ids under which they are pending.
use webfuse.Base.{ℕ, ◌<◌, ◌≤◌, ◌≡◌, ◌≢◌, ◌∙◌, List, [], ◌∷◌, ◌++◌, some, arith}
use webfuse.Message.Types.{RequestType}
use webfuse.Server.{find, erase}
use webfuse.System.Flow.{find-other, find-erase}
use webfuse.System.World.{Call}

-- Calls with ascending ids above `n` and up to `bound`, each pending with its promise.
unfoldable pub IsLive : ℕ → List (ℕ × ℕ) → ℕ → List Call → Type 0
IsLive bound pending n [] = Unit {0}
IsLive bound pending n (call ∷ calls) =
    (n < call.id)
    × (call.id ≤ bound)
    × (find call.id pending ≡ some call.ticket)
    × (call.kind ≢ RequestType.getcreds)
    × IsLive bound pending call.id calls

pub IsLive-lower :
    (bound : ℕ) (pending : List (ℕ × ℕ)) (n m : ℕ) (calls : List Call)
    → m ≤ n
    → IsLive bound pending n calls
    → IsLive bound pending m calls
unfolding IsLive
IsLive-lower bound pending n m [] less h = h
IsLive-lower bound pending n m (call ∷ calls) less (above, below, found, kind, rest) =
    (omega arith, below, found, kind, rest)

-- A call that the provider answers by nothing is gone.
pub IsLive-remove :
    (bound : ℕ) (pending : List (ℕ × ℕ)) (n : ℕ) (before : List Call) (call : Call)
    (calls : List Call)
    → IsLive bound pending n (before ++ call ∷ calls)
    → IsLive bound pending n (before ++ calls)
unfolding IsLive
IsLive-remove bound pending n [] call calls (above, below, found, kind, rest) =
    IsLive-lower bound pending call.id n calls (omega arith) rest
IsLive-remove bound pending n (other ∷ before) call calls (above, below, found, kind, rest) =
    (above, below, found, kind, IsLive-remove bound pending other.id before call calls rest)

-- The call that is answered has the least id.
pub IsLive-erase :
    (bound : ℕ) (pending : List (ℕ × ℕ)) (gone n : ℕ) (calls : List Call)
    → gone ≤ n
    → IsLive bound pending n calls
    → IsLive bound (erase gone pending) n calls
unfolding IsLive
IsLive-erase bound pending gone n [] less h = h
IsLive-erase bound pending gone n (call ∷ calls) less (above, below, found, kind, rest) = (
  above,
  below,
  find-erase gone call.id pending (λ e. omega (arith, e)) ∙ found,
  kind,
  IsLive-erase bound pending gone call.id calls (omega arith) rest,
)

-- The call that is made gets the next id.
pub IsLive-add :
    (bound : ℕ) (pending : List (ℕ × ℕ)) (n : ℕ) (calls : List Call) (call : Call)
    → n ≤ bound
    → bound < call.id
    → call.kind ≢ RequestType.getcreds
    → find call.id ((call.id, call.ticket) ∷ pending) ≡ some call.ticket
    → IsLive bound pending n calls
    → IsLive call.id ((call.id, call.ticket) ∷ pending) n (calls ++ call ∷ [])
unfolding IsLive
IsLive-add bound pending n [] call less new kind found h =
    (omega arith, omega arith, found, kind, record {})
IsLive-add bound pending n (other ∷ calls) call less new kind found
      (above, below, known, other_kind, rest) =
    (
      above,
      omega arith,
      find-other call.id other.id call.ticket pending (λ e. omega (arith, e)) ∙ known,
      other_kind,
      IsLive-add bound pending other.id calls call below new kind found rest,
    )

pub IsLive-bound :
    (bound : ℕ) (pending : List (ℕ × ℕ)) (n : ℕ) (before : List Call) (call : Call)
    (calls : List Call)
    → IsLive bound pending n (before ++ call ∷ calls)
    → call.id ≤ bound
unfolding IsLive
IsLive-bound bound pending n [] call calls (above, below, found, kind, rest) = below
IsLive-bound bound pending n (other ∷ before) call calls (above, below, found, kind, rest) =
    IsLive-bound bound pending other.id before call calls rest
