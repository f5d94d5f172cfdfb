-- ===== src/Examples/Sessions.antt =====
-- Sessions over a digest of numbers: a link is a number, and its hash is the next one.
use value_rpc.Prelude.{
  ℕ, zero, suc, ◌+◌, ◌≡◌, refl, ap, ◌↔◌, ◌==◌, inl, inr, true, false, List, [], ◌∷◌, Option, none,
  some, ==_iff, arith,
}
use mathlib.Core.List.{map}
use value_rpc.Session.Digest.{Digest}
use value_rpc.Session.HashChain.{decode_link, verify_hash_step, default_resync_window}
use value_rpc.Session.HashChain.Verify.{iterate, Reaches, verify_hash_step_iff}
use value_rpc.Session.Server.{
  Session, Server, Rejection, token_mismatch, load, authorize_resume, attach, resume,
  store_or_resume, found_or_new, create_or_update_serving_client,
}
use value_rpc.Session.Server.Authorize.{
  IsRepeatFree, authorize_resume_cases, authorize_resume_again, spent_link_rejected,
}
use value_rpc.Session.Server.Isolation.{Resumes, handshake-Resumes, race_loser_closed}
use value_rpc.Session.Reconnect.{Fate, lost, unanswered, answered, attempts}
use value_rpc.Session.Reconnect.Heal.{expected, reconnects_heal}

abbrev padding : ℕ → List ℕ
padding zero = []
padding (suc n) = 0 ∷ padding n

abbrev pub digits : ℕ → List ℕ
digits n = n ∷ padding 63

abbrev value_of : List ℕ → Option ℕ
value_of [] = none
value_of (x ∷ xs) = some x

abbrev pub counting : Digest
counting = record {
  Link = ℕ;
  sum256 = λ n. suc n;
  same = λ a b. a == b;
  same_iff = ==_iff;
  encode = digits;
  decode = value_of;
  length_encode = λ a. refl;
  decode_encode = λ a. refl;
}

iterate_lem : (n a : ℕ) → iterate counting n a ≡ n + a
iterate_lem zero a = omega arith
iterate_lem (suc n) a = let e = iterate_lem n (suc a) in omega arith

counting-IsRepeatFree : (n seed : ℕ) → IsRepeatFree counting n seed
counting-IsRepeatFree n seed i j lt le e =
    let a = iterate_lem i seed in let b = iterate_lem j seed in omega arith

abbrev pub alice : List ℕ
alice = 97 ∷ []

abbrev known : Session
known = record { client_id = 7; resume_token = digits 3; principal = alice; active_conn = 1 }

abbrev pub serving_alice : Server
serving_alice = record { client_map = (7, known) ∷ []; closed = [] }

abbrev nobody : Server
nobody = record { client_map = []; closed = [] }

verify_hash_step_iff_example :
    ((verify_hash_step counting (digits 2) (digits 3) 4).1 ≡ true)
    ↔ Reaches counting 4 (digits 2) (digits 3)
verify_hash_step_iff_example = verify_hash_step_iff counting (digits 2) (digits 3) 4

spent_link_rejected_example :
    authorize_resume counting (digits (iterate counting 4 0)) known ≡ (known, some token_mismatch)
spent_link_rejected_example =
    spent_link_rejected counting 0 5 3 4 known (counting-IsRepeatFree (5 + default_resync_window) 0)
      refl (omega arith) (omega arith)

reveals :
    authorize_resume counting (digits 2) known ≡ (record known { resume_token = digits 2 }, none)
unfolding decode_link
reveals = elim (authorize_resume_cases counting (digits 2) known) [
  | inl (_, e) ↦ e
  | inr (inl (f, _, _)) ↦ absurd (f (2, 3, 0, refl, refl, omega arith, refl))
  | inr (inr (f, _, _)) ↦ absurd (f (2, 3, 0, refl, refl, omega arith, refl))
]

authorize_resume_again_example :
    (authorize_resume counting (digits 2) (authorize_resume counting (digits 2) known).0).1 ≡ none
authorize_resume_again_example =
    authorize_resume_again counting (digits 2) known
      (ap (λ (r : Session × Option Rejection). r.1) reveals)

handshake-Resumes_example :
    Resumes counting 7
      (digits 2)
      alice
      2
      known
      serving_alice
      (create_or_update_serving_client counting (λ s. s) 7 (digits 2) alice 2 serving_alice)
unfolding load
handshake-Resumes_example =
    handshake-Resumes counting (λ s. s) 7 (digits 2) alice 2 known serving_alice refl

second_wins :
    (create_or_update_serving_client counting (λ s. serving_alice) 7 (digits 2) alice 2 nobody).1
    ≡ none
unfolding create_or_update_serving_client found_or_new store_or_resume resume attach load
second_wins = rw reveals refl

race_loser_closed_example :
    let (t, r) =
      create_or_update_serving_client counting (λ s. serving_alice) 7 (digits 2) alice 2 nobody in
    (u : Session) × (load 7 t.client_map ≡ some u) × (u.active_conn ≡ 2) × (t.closed ≡ 1 ∷ 2 ∷ [])
unfolding load
race_loser_closed_example =
    race_loser_closed counting (λ s. serving_alice) 7 (digits 2) alice 2 known nobody refl refl
      second_wins

abbrev fates : List Fate
fates = answered ∷ lost ∷ unanswered ∷ answered ∷ []

reconnects_heal_example :
    attempts counting
      (some 0)
      7
      alice
      1
      (record { client = record { resume_chain = none; established = false }; server = nobody })
      fates
    ≡ map expected fates
unfolding load
reconnects_heal_example =
    reconnects_heal counting 0 7 1 alice nobody fates refl (omega arith)
      (omega arith, (omega arith, (omega arith, tt)))
