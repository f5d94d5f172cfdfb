-- ===== src/Examples/Exchanges.antt =====
-- Requests of a client whose values and errors are numbers.
use value_rpc.Prelude.{ℕ, ◌+◌, List, [], ◌∷◌, none, some}
use value_rpc.Exchange.{
  Event, chat_kind, new_request_ctx, run, responds, ends_out, pump_takes, pump_delivers,
  stream_ready, stream_value, stream_end,
}
use value_rpc.Exchange.Life.{Life}
use value_rpc.Exchange.Once.{run-Life}

abbrev pub one_more : ℕ → ℕ → ℕ
one_more c n = n + 1

abbrev conversation : List (Event ℕ ℕ)
conversation =
    responds stream_ready
    ∷ pump_takes
    ∷ pump_delivers
    ∷ responds (stream_value (some 5))
    ∷ ends_out
    ∷ responds (stream_end none)
    ∷ []

run-Life_example : Life (run 0 9 one_more conversation (new_request_ctx chat_kind 4 8))
run-Life_example = run-Life 0 9 one_more chat_kind 4 8 conversation
