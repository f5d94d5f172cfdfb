-- ===== src/Flow/StreamPump/Default.antt =====
-- A caller that fills in the default bound gets the pump that it would get without.
use value_rpc.Prelude.{ℕ, ◌≡◌, refl, inl, inr, sle, Bool-cases}
use value_rpc.Flow.StreamPump.{new_stream_pump, at_least_default}

pub new_stream_pump-at_least_default :
    {A : Type 0} (max_pending : ℕ)
    → new_stream_pump {A = A} max_pending ≡ new_stream_pump (at_least_default max_pending)
unfolding new_stream_pump
new_stream_pump-at_least_default max_pending = elim (Bool-cases (sle max_pending 0)) [
  | inl y ↦ simp y refl
  | inr f ↦ simp f refl
]
