-- ===== src/Examples/Streams.antt =====
-- Streams that the server opens, and those who answer them.
use value_rpc.Prelude.{ℕ, ◌≡◌, refl, List, [], ◌∷◌, some, arith}
use value_rpc.Serving.{chat}
use value_rpc.Flow.CreditGate.{acquire, grant, new_credit_gate}
use value_rpc.Flow.StreamPump.{push, new_stream_pump, append, compact}
use value_rpc.Reverse.{ClientStream}
use value_rpc.Reverse
use value_rpc.Responder.{
  Event, arrives, returns, polls, acquires, stream_value, stream_end, stream_credit, cancel_request,
  new_serving_request, run,
}
use value_rpc.Responder.Client.{new_client_serving_request}
use value_rpc.Responder.Client
use value_rpc.Responder.Retired.{retires_tidily}
use value_rpc.Responder.Tidy.{IsTidy}
use value_rpc.Responder.View.{kind_of, as_client}
use value_rpc.Responder.Agreement.{AllExpected, responders_agree}
use value_rpc.Examples.Exchanges.{one_more}

abbrev reversed : List (Reverse.Event ℕ ℕ)
reversed =
    Reverse.arrives Reverse.stream_ready
    ∷ Reverse.arrives (Reverse.stream_value (some 5))
    ∷ Reverse.ends_out
    ∷ Reverse.arrives (Reverse.stream_end (some 6))
    ∷ []

abbrev chatting : List (Event ℕ)
chatting =
    returns
    ∷ arrives (stream_credit (some 2))
    ∷ arrives (stream_value (some 5))
    ∷ polls (some 9)
    ∷ acquires
    ∷ arrives (stream_end (some 6))
    ∷ arrives cancel_request
    ∷ []

chatting-Expected : AllExpected 0 one_more chatting (new_serving_request chat 8)
unfolding new_serving_request run push new_stream_pump append compact acquire grant new_credit_gate
chatting-Expected = (tt, (tt, (tt, (tt, (tt, (refl, (tt, tt)))))))

responders_agree_example :
    as_client (run 0 one_more chatting (new_serving_request chat 8))
    ≡ Client.run 0 one_more chatting (new_client_serving_request (kind_of chat) 8)
responders_agree_example =
    responders_agree 0 one_more chat 8 chatting (omega arith) (omega arith) chatting-Expected

retires_tidily_example : IsTidy (run 0 one_more chatting (new_serving_request chat 8))
retires_tidily_example = retires_tidily 0 one_more chat 8 chatting
