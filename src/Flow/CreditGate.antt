-- ===== src/Flow/CreditGate.antt =====
-- valuerpc/credit.go. A method that changes the gate returns the new one. `Acquire` is one pass of its
-- loop: where the code waits on the condition variable the result is `blocked` and nothing changes.
use value_rpc.Prelude.{
  ℕ, suc, ◌+◌, ◌<◌, ◌≡◌, refl, ◌∙◌, Bool, true, false, not, ◌&&◌, if◌then◌else◌, List, [], ◌∷◌,
  add64, sub64, sle, two63, arith,
}

pub record CreditGate : Type 0 where
  pub credit : ℕ
  pub closed : Bool

pub data Acquired : Type 0 where
  blocked refused taken : Acquired

unfoldable pub new_credit_gate : CreditGate
new_credit_gate = record { credit = 0; closed = false }

unfoldable pub acquire : CreditGate → CreditGate × Acquired
acquire g =
    if sle g.credit 0 && not g.closed
    then (g, blocked)
    else if g.closed
    then (g, refused)
    else (record g { credit = sub64 g.credit 1 }, taken)

unfoldable pub grant : CreditGate → ℕ → CreditGate
grant g n = if sle n 0 then g else record g { credit = add64 g.credit n }

unfoldable pub close : CreditGate → CreditGate
close g = record g { closed = true }

-- A run of calls on one gate, with the number of credits granted and of values let through.
pub data Call : Type 0 where
  acquires closes : Call
  grants : ℕ → Call

pub record Account : Type 0 where
  pub gate : CreditGate
  pub granted : ℕ
  pub sent : ℕ

abbrev pub one_if_taken : Acquired → ℕ
one_if_taken taken = 1
one_if_taken _ = 0

unfoldable pub call : Account → Call → Account
unfolding acquire grant close
call s acquires =
    let (g, r) = acquire s.gate in record s { gate = g; sent = s.sent + one_if_taken r }
call s closes = record s { gate = close s.gate }
call s (grants n) = record s {
  gate = grant s.gate n;
  granted = s.granted + (if sle n 0 then 0 else n);
}

unfoldable pub calls : Account → List Call → Account
calls s [] = s
calls s (c ∷ cs) = calls (call s c) cs

abbrev pub start : Account
start = record { gate = record { credit = 0; closed = false }; granted = 0; sent = 0 }

abbrev pub IsBalanced : Account → Type 0
IsBalanced s = s.sent + s.gate.credit ≡ s.granted

call-granted_mono : (s : Account) (c : Call) → s.granted < suc (call s c).granted
unfolding call
call-granted_mono s acquires = ground arith
call-granted_mono s closes = ground arith
call-granted_mono s (grants n) = ground arith

calls-granted_mono : (s : Account) (cs : List Call) → s.granted < suc (calls s cs).granted
unfolding calls
calls-granted_mono s [] = omega arith
calls-granted_mono s (c ∷ cs) =
    omega (arith, call-granted_mono s c, calls-granted_mono (call s c) cs)

call-IsBalanced :
    (s : Account) (c : Call) → (call s c).granted < two63 → IsBalanced s → IsBalanced (call s c)
unfolding call
call-IsBalanced s acquires h b = ground arith
call-IsBalanced s closes h b = ground arith
call-IsBalanced s (grants n) h b = ground arith

calls-IsBalanced_of :
    (s : Account) (cs : List Call)
    → (calls s cs).granted < two63
    → IsBalanced s
    → IsBalanced (calls s cs)
unfolding calls
calls-IsBalanced_of s [] h b = b
calls-IsBalanced_of s (c ∷ cs) h b =
    calls-IsBalanced_of (call s c) cs h
      (call-IsBalanced s c (omega (arith, calls-granted_mono (call s c) cs)) b)

-- Whatever calls are made on a new gate, as long as the credits granted in total stay below 2 ^ 63 the
-- values let through and the credit left add up to the credits granted: none is lost or made up.
pub calls-IsBalanced :
    (cs : List Call) → (calls start cs).granted < two63 → IsBalanced (calls start cs)
calls-IsBalanced cs h = calls-IsBalanced_of start cs h (omega arith)

call-closed : (s : Account) (c : Call) → s.gate.closed ≡ true → (call s c).gate.closed ≡ true
unfolding call
call-closed s acquires h = ground arith
call-closed s closes h = refl
call-closed s (grants n) h = ground arith

call-sent_closed : (s : Account) (c : Call) → s.gate.closed ≡ true → (call s c).sent ≡ s.sent
unfolding call
call-sent_closed s acquires h = ground arith
call-sent_closed s closes h = refl
call-sent_closed s (grants n) h = refl

-- After a close no value is let through, and every later `Acquire` is refused without waiting.
pub calls_closed :
    (s : Account) (cs : List Call)
    → s.gate.closed ≡ true
    → ((calls s cs).sent ≡ s.sent) × ((acquire (calls s cs).gate).1 ≡ refused)
unfolding calls acquire
calls_closed s [] h = ground arith
calls_closed s (c ∷ cs) h =
    let rest = calls_closed (call s c) cs (call-closed s c h) in
    (rest.0 ∙ call-sent_closed s c h, rest.1)
