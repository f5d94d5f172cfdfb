-- ===== src/Pending.antt =====
-- The calls that a server makes to its client: CallFunction and completePendingCall of
-- valueserver/serving_client.go. Each call waits at a channel of its own, which pendingCalls holds under
-- the call's id; the callers' goroutines and the read loop take turns.
pub mod Once
use value_rpc.Prelude.{
  ℕ, ◌==◌, if◌then◌else◌, add64, List, [], ◌∷◌, ◌++◌, Option, none, some, length, get_elem?, set,
}
use value_rpc.Prelude.Maps.{load, delete, store}
use value_rpc.Routing.{next_server_request_id}

-- How CallFunction returns: with what came through the channel, or because the context ended, the
-- session closed or the request was not sent.
pub data CallEnd (A : Type 0) : Type 0 where
  got : A → CallEnd A
  gave_up : CallEnd A

-- `channel` has what was sent and not yet received; `answers` all that was sent to it, with the ids of the
-- replies.
pub record Waiting (A : Type 0) : Type 0 where
  pub id : ℕ
  pub channel : List A
  pub answers : List (ℕ × A)
  pub returned : Option (CallEnd A)

-- `pending` maps ids to positions in `calls`.
pub record Pending (A : Type 0) : Type 0 where
  pub last_server_request : ℕ
  pub calls : List (Waiting A)
  pub pending : List (ℕ × ℕ)

unfoldable pub new_pending : {A : Type 0} → Pending A
new_pending = record { last_server_request = 0; calls = []; pending = [] }

-- A reverse stream draws an id too; a reply has an id and a result.
pub data Event (A : Type 0) : Type 0 where
  begins draws : Event A
  replied : ℕ → A → Event A
  receives gives_up : ℕ → Event A

module _ {A : Type 0} where
  unfoldable pub begin_call : Pending A → Pending A
  unfolding store next_server_request_id
  begin_call p =
      let id = next_server_request_id p.last_server_request in
      let c : Waiting A = record { id = id; channel = []; answers = []; returned = none } in
      record {
        last_server_request = add64 p.last_server_request 1;
        calls = p.calls ++ c ∷ [];
        pending = store id (length p.calls) p.pending;
      }

  unfoldable pub deliver_to : ℕ → ℕ → A → Pending A → Option (Waiting A) → Pending A
  deliver_to i id a p none = p
  deliver_to i id a p (some c) = record p {
    calls =
        set p.calls i (record c { channel = c.channel ++ a ∷ []; answers = (id, a) ∷ c.answers });
  }

  unfoldable pub complete_loaded : ℕ → A → Pending A → Option ℕ → Pending A
  unfolding deliver_to
  complete_loaded id a p none = p
  complete_loaded id a p (some i) =
      deliver_to i id a (record p { pending = delete id p.pending }) (get_elem? p.calls i)

  -- completePendingCall, of the result that the reply holds.
  unfoldable pub complete_pending_call : ℕ → A → Pending A → Pending A
  unfolding complete_loaded
  complete_pending_call id a p = complete_loaded id a p (load id p.pending)

  -- The i-th call returns, which deletes its id.
  unfoldable pub return_call : ℕ → Waiting A → Pending A → Pending A
  return_call i c p = record p { calls = set p.calls i c; pending = delete c.id p.pending }

  unfoldable pub receive_from : ℕ → Waiting A → Pending A → List A → Pending A
  unfolding return_call
  receive_from i c p [] = p
  receive_from i c p (a ∷ rest) =
      return_call i (record c { channel = rest; returned = some (got a) }) p

  -- What the caller's select does; a call that has returned does nothing more.
  unfoldable pub receive_call : ℕ → Pending A → Waiting A → Option (CallEnd A) → Pending A
  unfolding receive_from
  receive_call i p c none = receive_from i c p c.channel
  receive_call i p c (some end) = p

  unfoldable pub give_up_call : ℕ → Pending A → Waiting A → Option (CallEnd A) → Pending A
  unfolding return_call
  give_up_call i p c none = return_call i (record c { returned = some gave_up }) p
  give_up_call i p c (some end) = p

  unfoldable pub at_call :
      (Pending A → Waiting A → Pending A) → Pending A → Option (Waiting A) → Pending A
  at_call f p none = p
  at_call f p (some c) = f p c

  unfoldable pub step : Event A → Pending A → Pending A
  unfolding begin_call complete_pending_call receive_call give_up_call at_call
  step begins p = begin_call p
  step draws p = record p { last_server_request = add64 p.last_server_request 1 }
  step (replied id a) p = complete_pending_call id a p
  step (receives i) p = at_call (λ q c. receive_call i q c c.returned) p (get_elem? p.calls i)
  step (gives_up i) p = at_call (λ q c. give_up_call i q c c.returned) p (get_elem? p.calls i)

  unfoldable pub run : List (Event A) → Pending A → Pending A
  unfolding step
  run [] p = p
  run (e ∷ es) p = run es (step e p)
