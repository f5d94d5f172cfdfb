-- ===== src/Interceptor.antt =====
-- valuerpc/interceptor.go. An invoker is a parameter, so that it may be a function into any effect; an
-- interceptor is a function of the next invoker.
use value_rpc.Prelude.{
  ℕ, zero, suc, ◌≡◌, refl, ap, ◌∙◌, List, [], ◌∷◌, Option, none, some, length, get_elem?,
}

module _ {Invoker : Type 0} where
  abbrev wrapped : Option (Invoker → Invoker) → Invoker → Invoker
  wrapped none invoker = invoker
  wrapped (some ic) invoker = ic invoker

  -- The loop with `n` interceptors left, from the index `n - 1` down to 0.
  unfoldable wrap : List (Invoker → Invoker) → ℕ → Invoker → Invoker
  wrap ics zero invoker = invoker
  wrap ics (suc i) invoker = wrap ics i (wrapped (get_elem? ics i) invoker)

  unfoldable pub chain_client_interceptors : Invoker → List (Invoker → Invoker) → Invoker
  unfolding wrap
  chain_client_interceptors final ics = wrap ics (length ics) final

  -- The first interceptor is outermost.
  abbrev nested : List (Invoker → Invoker) → Invoker → Invoker
  nested [] final = final
  nested (ic ∷ ics) final = ic (nested ics final)

  wrap-cons :
      (ic : Invoker → Invoker) (ics : List (Invoker → Invoker)) (n : ℕ) (final : Invoker)
      → wrap (ic ∷ ics) (suc n) final ≡ ic (wrap ics n final)
  unfolding wrap
  wrap-cons ic ics zero final = refl
  wrap-cons ic ics (suc n) final = wrap-cons ic ics n (wrapped (get_elem? ics n) final)

  wrap-nested :
      (ics : List (Invoker → Invoker)) (final : Invoker)
      → wrap ics (length ics) final ≡ nested ics final
  unfolding wrap
  wrap-nested [] final = refl
  wrap-nested (ic ∷ ics) final = wrap-cons ic ics (length ics) final ∙ ap ic (wrap-nested ics final)

  -- The chain is the interceptors nested in their order, the first one outermost: it gets the call first
  -- and the rest of the chain is what it calls next.
  pub chain_outermost_first :
      (final : Invoker) (ics : List (Invoker → Invoker))
      → chain_client_interceptors final ics ≡ nested ics final
  unfolding chain_client_interceptors
  chain_outermost_first final ics = wrap-nested ics final
