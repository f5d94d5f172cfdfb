-- ===== src/Reverse/Refinement.antt =====
-- A server's stream refines a client's request.
use value_rpc.Prelude.{ℕ, ◌≡◌, List, [], ◌∷◌, ◌++◌}
use value_rpc.Exchange.{RequestCtx}
use value_rpc.Exchange
use value_rpc.Reverse.{ClientStream, Event}
use value_rpc.Reverse.Shows.{Shows}
use value_rpc.Reverse.Answers.{Answers, Moves}

module _ {A E : Type 0} (nil_value : A) (truncated : E) (grow : ℕ → ℕ → ℕ) where
  -- Each event of the stream is answered to, in its turn.
  abbrev pub Explains : List (Event A E) → List (Exchange.Event A E) → Type 0
  Explains [] fs = fs ≡ []
  Explains (e ∷ es) fs =
      (gs : List (Exchange.Event A E)) × (hs : List (Exchange.Event A E)) × (fs ≡ gs ++ hs)
      × Answers nil_value truncated grow e gs
      × Explains es hs

  abbrev pub Follows : List (Event A E) → RequestCtx A E → ClientStream A E → Type 0
  Follows es c t = Moves nil_value truncated grow (Explains es) c t
