-- ===== src/Nodes/Loop/Steps.antt =====
-- The numbering of the steps that were taken.
use chat_aiagent.Prelude.{ℕ, suc, ◌+◌, ◌≡◌, List, [], ◌∷◌, ◌++◌, Text, length, arith}
use chat_aiagent.Prelude.Json.{Json}
use chat_aiagent.Graph.State.{AgentState, ThoughtActObserve}
use chat_aiagent.Nodes.Loop.{observed}

-- The records are numbered n, n + 1, … in their order.
abbrev pub NumberedFrom : ℕ → List ThoughtActObserve → Type 0
NumberedFrom n [] = Unit
NumberedFrom n (s ∷ ss) = (s.step_number ≡ n) × NumberedFrom (suc n) ss

NumberedFrom-append :
    (n : ℕ) (ss : List ThoughtActObserve) (s : ThoughtActObserve)
    → NumberedFrom n ss
    → s.step_number ≡ n + length ss
    → NumberedFrom n (ss ++ s ∷ [])
NumberedFrom-append n [] s h e = (omega arith, tt)
NumberedFrom-append n (t ∷ ts) s h e = (h.0, NumberedFrom-append (suc n) ts s h.1 (omega arith))

-- An observation keeps the numbering.
pub observed-NumberedFrom :
    (render : Json → Text) (finding : Text) (s : AgentState)
    → NumberedFrom 1 s.step_history
    → NumberedFrom 1 (observed render finding s).step_history
observed-NumberedFrom render finding s h = NumberedFrom-append 1 s.step_history _ h (omega arith)
