-- ===== src/Examples/FlowControl.antt =====
-- Streams of small numbers under valuerpc/credit.go and valuerpc/pump.go.
use value_rpc.Prelude.{
  ℕ, ◌+◌, ◌≤◌, ◌≡◌, ◌≢◌, refl, inl, true, false, List, [], ◌∷◌, ◌++◌, some, arith,
}
use value_rpc.Flow.CreditGate.{new_credit_gate, acquire, grant, taken}
use value_rpc.Flow.StreamPump.{
  Event, push, append, compact, run, step, take, take_from, dequeue, deliver, deliver_from, close,
  pushes, closes, takes, delivers, new_stream_pump, backlog, finished, finish,
}
use value_rpc.Flow.StreamPump.Occupancy.{occupancy}
use value_rpc.Flow.StreamPump.Order.{run-drained}
use value_rpc.Flow.StreamPump.Drain.{run-finishes, rounds}
use value_rpc.Flow.Link.{Link, inbound_link, send, arrive, refill, Reach, here, next, Step}
use value_rpc.Flow.Link.Safety.{never_overflows, idle_sender_proceeds}
use value_rpc.Flow.Link.Stall.{nonpositive_bound_stalls}

-- Room for what is needed, and for one more.
abbrev grow : ℕ → ℕ → ℕ
grow c n = n + 1

abbrev granted : Link ℕ
granted = refill 2 [] (inbound_link 2)

abbrev sent : Link ℕ
sent = send (some 7) granted

abbrev arrived : Link ℕ
arrived = arrive grow (some 7) [] sent

sent-Reach : Reach 0 grow (inbound_link 2) sent
unfolding inbound_link refill send acquire grant new_credit_gate
sent-Reach = next (next here (Step.refills 2 [] refl refl)) (Step.sends (some 7) refl refl refl)

arrived-Reach : Reach 0 grow (inbound_link 2) arrived
unfolding inbound_link refill send
arrived-Reach = next sent-Reach (Step.arrives (some 7) [] refl refl)

never_overflows_example : (arrived.pump.overflow ≡ false) × (backlog arrived.pump ≤ 2)
unfolding arrive send refill inbound_link
never_overflows_example =
    never_overflows 0 grow 2 (inbound_link 2) arrived (omega arith) (omega arith) (inl refl)
      arrived-Reach (λ h. refl)

granted-Reach : Reach 0 grow (inbound_link 2) granted
unfolding inbound_link refill
granted-Reach = next here (Step.refills 2 [] refl refl)

idle_sender_proceeds_example : (acquire granted.gate).1 ≡ taken
unfolding inbound_link refill grant new_credit_gate new_stream_pump
idle_sender_proceeds_example =
    idle_sender_proceeds 0 grow 2 (inbound_link 2) granted (omega arith) (omega arith) (inl refl)
      granted-Reach (λ h. refl) refl refl refl refl refl refl refl

abbrev unserved : Link ℕ
unserved = refill 0 [] (inbound_link 0)

unserved-Reach : Reach 0 grow (inbound_link 0) unserved
unfolding inbound_link refill
unserved-Reach = next here (Step.refills 0 [] refl refl)

nonpositive_bound_stalls_example :
    ((acquire unserved.gate).1 ≢ taken) × (unserved.wire ≡ []) × (occupancy unserved.pump ≡ 0)
nonpositive_bound_stalls_example = nonpositive_bound_stalls 0 grow 0 unserved refl unserved-Reach

abbrev handed_over : List (Event ℕ)
handed_over = pushes 5 ∷ pushes 6 ∷ takes ∷ delivers ∷ []

abbrev ended : List (Event ℕ)
ended = pushes 5 ∷ closes ∷ takes ∷ delivers ∷ takes ∷ []

run-drained_example :
    let (q, accepted) = run 0 grow (new_stream_pump 2, []) ended in
    (q.out ≡ accepted) × (q.out_closed ≡ true)
unfolding run step push append compact close take take_from dequeue deliver deliver_from
    new_stream_pump finish
run-drained_example = run-drained 0 grow 2 ended refl refl

abbrev ending : List (Event ℕ)
ending = pushes 5 ∷ closes ∷ []

run-finishes_example :
    let (p, accepted) = run 0 grow (new_stream_pump 2, []) ending in
    let (q, now) = run 0 grow (new_stream_pump 2, []) (ending ++ rounds 2) in
    (q.runner ≡ finished) × (q.out ≡ accepted) × (q.out_closed ≡ true)
unfolding run step push append compact close take take_from dequeue deliver deliver_from
    new_stream_pump finish
run-finishes_example = run-finishes 0 grow 2 2 ending (refl, refl) (omega arith)
