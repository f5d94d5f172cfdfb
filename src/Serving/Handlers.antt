-- ===== src/Serving/Handlers.antt =====
-- What the counters of a session say, kept by every step of a handler.
use value_rpc.Prelude.{
  ℕ, ◌+◌, ◌≤◌, ◌<◌, ◌≡◌, refl, ap, ◌∙◌, ◌⊎◌, inl, inr, true, ◌&&◌, ◌==◌, ltb, if◌then◌else◌, List,
  [], ◌∷◌, ◌++◌, Option, none, some, length, get_elem?, set, Bool-cases, arith,
}
use mathlib.Core.Option.{some-ne-none}
use value_rpc.Serving.Totals.{total, total-append, total-set, total-remove_at, total_mono}
use value_rpc.Wire.Values.{Values}
use value_rpc.Serving.{
  FunctionType, single_function, same_type, Function, Limits, Message, Phase, started, admitted,
  serving, Handler, Serving, has, store_key, delete_key, remove_at, reserve, refusal_of,
  refusal_named, refusal, end_handler, checked, delete_request, answered, proceed,
}

length-delete_key :
    (id : ℕ) (ids : List ℕ) → has id ids ≡ true → length (delete_key id ids) + 1 ≡ length ids
unfolding has delete_key
length-delete_key id [] h = ground arith
length-delete_key id (x ∷ xs) h = elim (Bool-cases (x == id)) [
  | inl e ↦ rw e (omega arith)
  | inr e ↦ rw e (let rest = length-delete_key id xs (ground (arith, h, e)) in omega arith)
]

length-store_key : (id : ℕ) (ids : List ℕ) → length (store_key id ids) ≤ length ids + 1
unfolding store_key
length-store_key id ids = ground arith

module _ (v : Values) where
  abbrev pub one : Handler v → ℕ
  one h = 1

  abbrev pub opening_in : Phase → ℕ
  opening_in started = 0
  opening_in admitted = 1
  opening_in serving = 0

  abbrev pub opening : Handler v → ℕ
  opening h = opening_in h.phase

  opening_le : (h : Handler v) → opening h ≤ one h
  opening_le h = go h.phase
    where
      go : (p : Phase) → opening_in p ≤ 1
      go started = omega arith
      go admitted = omega arith
      go serving = omega arith

  module _ (limits : Limits) (find : v.Text → Option (Function v)) where
    -- The counters say what they count, and no cap is passed by more than the handlers between the
    -- check and the registration of a stream account for.
    pub record Inv (s : Serving v) : Type 0 where
      pub counted : s.in_flight ≡ total one s.handlers
      pub capped :
          (limits.max_concurrent_requests ≡ 0) ⊎ (s.in_flight ≤ limits.max_concurrent_requests)
      pub registered : length s.requests ≤ s.live_streams
      pub streams :
          (limits.max_concurrent_requests ≡ 0)
          ⊎ (limits.max_concurrent_streams ≡ 0)
          ⊎ (s.live_streams + total opening s.handlers
              < limits.max_concurrent_streams + limits.max_concurrent_requests)

    pub reserve-Inv :
        (s : Serving v) (m : Message v) (ft : FunctionType)
        → Inv s
        → Inv (reserve v limits find s m ft)
    unfolding reserve
    reserve-Inv s m ft inv =
        let h : Handler v = record { ft = ft; request = m; phase = started } in
        elim (Bool-cases (
          ltb 0 limits.max_concurrent_requests
          && ltb limits.max_concurrent_requests (s.in_flight + 1))) [
            | inl e ↦ rw e (record {
              counted = omega (arith, inv.counted);
              capped = omega (arith, inv.capped);
              registered = inv.registered;
              streams = inv.streams;
            })
            | inr e ↦ rw e (record {
              counted = omega (arith, total-append one s.handlers (h ∷ []), inv.counted);
              capped = ground (arith, inv.capped, e);
              registered = inv.registered;
              streams = omega (arith, total-append opening s.handlers (h ∷ []), inv.streams);
            })
          ]

    pub delete_request-Inv :
        (s : Serving v) (id : ℕ) → Inv s → Inv (delete_request v limits find id s)
    unfolding delete_request
    delete_request-Inv s id inv = elim (Bool-cases (has id s.requests)) [
      | inl e ↦ rw e (record {
        counted = inv.counted;
        capped = inv.capped;
        registered = omega (arith, length-delete_key id s.requests e, inv.registered);
        streams = omega (arith, inv.streams);
      })
      | inr e ↦ rw e inv
    ]

    end_handler-Inv :
        (s : Serving v) (i : ℕ) (h : Handler v)
        → get_elem? s.handlers i ≡ some h
        → opening h ≡ 0
        → Inv s
        → Inv (end_handler v limits find i s)
    unfolding end_handler
    end_handler-Inv s i h at z inv = record {
      counted = omega (arith, total-remove_at one s.handlers i h at, inv.counted);
      capped = omega (arith, inv.capped);
      registered = inv.registered;
      streams = omega (arith, total-remove_at opening s.handlers i h at, inv.streams, z);
    }

    replied-Inv : (s : Serving v) (r : List ℕ) → Inv s → Inv (record s { replies = r })
    replied-Inv s r inv = record {
      counted = inv.counted;
      capped = inv.capped;
      registered = inv.registered;
      streams = inv.streams;
    }

    delete_request_handlers :
        (s : Serving v) (id : ℕ) → (delete_request v limits find id s).handlers ≡ s.handlers
    unfolding delete_request
    delete_request_handlers s id = ground arith

    abbrev Passes : Serving v → FunctionType → Type 0
    Passes s ft =
        (same_type ft single_function ≡ true)
        ⊎ (limits.max_concurrent_streams ≡ 0)
        ⊎ (s.live_streams < limits.max_concurrent_streams)

    refusal_of_lem :
        (s : Serving v) (m : Message v) (ft : FunctionType) (fn : Option (Function v))
        → refusal_of v limits find s m ft fn ≡ none
        → Passes s ft
    unfolding refusal_of
    refusal_of_lem s m ft none e = absurd (some-ne-none _ e)
    refusal_of_lem s m ft (some fn) e = ground arith

    -- The check lets a stream pass only below the cap.
    refusal_lem :
        (s : Serving v) (m : Message v) (ft : FunctionType) (name : Option v.Text)
        → refusal_named v limits find s m ft name ≡ none
        → Passes s ft
    unfolding refusal_named
    refusal_lem s m ft none e = absurd (some-ne-none _ e)
    refusal_lem s m ft (some x) e = refusal_of_lem s m ft (find x) e

    -- A handler that is about to open its stream is one of those that run.
    passes_lem :
        (s : Serving v) (i : ℕ) (h : Handler v)
        → get_elem? s.handlers i ≡ some h
        → opening h ≡ 0
        → Passes s h.ft
        → Inv s
        → (limits.max_concurrent_requests ≡ 0)
          ⊎ (limits.max_concurrent_streams ≡ 0)
          ⊎ (s.live_streams
                + total opening (
                    set s.handlers i (record h {
                      phase = if same_type h.ft single_function then serving else admitted;
                    }))
              < limits.max_concurrent_streams + limits.max_concurrent_requests)
    passes_lem s i h at z p inv = elim (Bool-cases (same_type h.ft single_function)) [
      | inl e ↦ rw e (
          omega (
            arith,
            total-set opening s.handlers i h (record h { phase = serving }) at,
            z,
            inv.streams,
          ))
      | inr e ↦ rw e (
          ground (
            arith,
            p,
            e,
            total-set opening s.handlers i h (record h { phase = admitted }) at,
            z,
            inv.streams,
            inv.capped,
            inv.counted,
            total-remove_at opening s.handlers i h at,
            total-remove_at one s.handlers i h at,
            total_mono opening one (remove_at s.handlers i) opening_le,
          ))
    ]

    checked-Inv :
        (s : Serving v) (i : ℕ) (h : Handler v) (code : Option ℕ)
        → get_elem? s.handlers i ≡ some h
        → opening h ≡ 0
        → (code ≡ none → Passes s h.ft)
        → Inv s
        → Inv (checked v limits find i s h code)
    unfolding checked
    checked-Inv s i h (some c) at z pass inv =
        end_handler-Inv _ i h at z (replied-Inv s (s.replies ++ c ∷ []) inv)
    checked-Inv s i h none at z pass inv = record {
      counted = omega (arith, total-set one s.handlers i h _ at, inv.counted);
      capped = inv.capped;
      registered = inv.registered;
      streams = passes_lem s i h at z (pass refl) inv;
    }

    answered-Inv :
        (s : Serving v) (i : ℕ) (failure : Option ℕ) (h : Handler v)
        → get_elem? s.handlers i ≡ some h
        → opening h ≡ 0
        → Inv s
        → Inv (answered v limits find i failure s h)
    unfolding answered
    answered-Inv s i none h at z inv = end_handler-Inv s i h at z inv
    answered-Inv s i (some code) h at z inv = elim (Bool-cases (same_type h.ft single_function)) [
      | inl e ↦ rw e (end_handler-Inv _ i h at z (replied-Inv s _ inv))
      | inr e ↦ rw e (
          end_handler-Inv _ i h
            (ap (λ hs. get_elem? hs i) (delete_request_handlers s h.request.id) ∙ at) z
            (replied-Inv _ _ (delete_request-Inv s h.request.id inv)))
    ]

    pub proceed-Inv :
        (s : Serving v) (i : ℕ) (failure : Option ℕ) (h : Handler v) (p : Phase)
        → get_elem? s.handlers i ≡ some h
        → h.phase ≡ p
        → Inv s
        → Inv (proceed v limits find i failure s h p)
    unfolding proceed refusal
    proceed-Inv s i failure h started at e inv =
        checked-Inv s i h (refusal v limits find s h.request h.ft) at (ap opening_in e)
          (refusal_lem s h.request h.ft h.request.name) inv
    proceed-Inv s i failure h admitted at e inv = record {
      counted =
          omega
            (arith, total-set one s.handlers i h (record h { phase = serving }) at, inv.counted);
      capped = inv.capped;
      registered = omega (arith, length-store_key h.request.id s.requests, inv.registered);
      streams = omega (
        arith,
        total-set opening s.handlers i h (record h { phase = serving }) at,
        ap opening_in e,
        inv.streams,
      );
    }
    proceed-Inv s i failure h serving at e inv = answered-Inv s i failure h at (ap opening_in e) inv
