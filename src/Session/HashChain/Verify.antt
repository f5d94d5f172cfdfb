-- ===== src/Session/HashChain/Verify.antt =====
-- What `VerifyHashStep` accepts, and what the links of a chain are.
use value_rpc.Prelude.{
  ℕ, zero, suc, ◌+◌, ◌≤◌, ◌<◌, ◌≡◌, ◌≢◌, refl, sym, ap, ◌∙◌, ◌↔◌, inl, inr, Bool, true, false,
  if◌then◌else◌, List, Option, none, some, length, get_elem?, sle, Bool-cases, arith,
}
use value_rpc.Session.Digest.{Digest}
use value_rpc.Session.HashChain.{
  default_resync_window, build, decode_link, hash_forward, verify_links, verify_hash_step,
  same_links, same_token,
}

module _ (d : Digest) where
  open d use {Link, sum256, same, same_iff, encode, decode, length_encode, decode_encode}

  -- `n` hashes one after the other.
  abbrev pub iterate : ℕ → Link → Link
  iterate zero a = a
  iterate (suc n) a = iterate n (sum256 a)

  pub iterate-sum256 : (n : ℕ) (a : Link) → iterate (suc n) a ≡ sum256 (iterate n a)
  iterate-sum256 zero a = refl
  iterate-sum256 (suc n) a = iterate-sum256 n (sum256 a)

  pub iterate-add : (m n : ℕ) (a : Link) → iterate (m + n) a ≡ iterate m (iterate n a)
  iterate-add zero n a = ap (λ k. iterate k a) (let e : zero + n ≡ n = omega arith in e)
  iterate-add (suc m) n a =
      ap (λ k. iterate k a) (let e : suc m + n ≡ suc (m + n) = omega arith in e)
      ∙ iterate-sum256 (m + n) a
      ∙ ap sum256 (iterate-add m n a)
      ∙ sym (iterate-sum256 m (iterate n a))

  pub get_elem?-build :
      (n i : ℕ) (seed : Link) → i ≤ n → get_elem? (build d n seed) i ≡ some (iterate i seed)
  unfolding build
  get_elem?-build zero zero seed h = refl
  get_elem?-build zero (suc i) seed h = absurd (omega arith)
  get_elem?-build (suc n) zero seed h = refl
  get_elem?-build (suc n) (suc i) seed h = get_elem?-build n i (sum256 seed) (omega arith)

  pub length-build : (n : ℕ) (seed : Link) → length (build d n seed) ≡ suc n
  unfolding build
  length-build zero seed = refl
  length-build (suc n) seed = ap suc (length-build n (sum256 seed))

  pub decode_link-encode : (a : Link) → decode_link d (encode a) ≡ some a
  unfolding decode_link
  decode_link-encode a = rw (length_encode a) (decode_encode a)

  -- The answer tells the first number of hashes, from `step` on, that leads to the target, or that none
  -- within the rounds does.
  abbrev pub Answers : ℕ → ℕ → Link → Link → ℕ × Bool → Type 0
  Answers rounds step h target (n, true) =
      (k : ℕ) × (k < rounds)
      × (n ≡ step + k)
      × (iterate (suc k) h ≡ target)
      × ((j : ℕ) → j < k → iterate (suc j) h ≢ target)
  Answers rounds step h target (n, false) =
      (n ≡ 0) × ((j : ℕ) → j < rounds → iterate (suc j) h ≢ target)

  misses_later :
      (k : ℕ) (h target : Link)
      → sum256 h ≢ target
      → ((j : ℕ) → j < k → iterate (suc j) (sum256 h) ≢ target)
      → (j : ℕ) → j < suc k
      → iterate (suc j) h ≢ target
  misses_later k h target miss rest zero lt = miss
  misses_later k h target miss rest (suc j) lt = rest j (omega arith)

  later-Answers :
      (rounds step : ℕ) (h target : Link) (r : ℕ × Bool)
      → sum256 h ≢ target
      → Answers rounds (suc step) (sum256 h) target r
      → Answers (suc rounds) step h target r
  later-Answers rounds step h target (n, true) miss (k, lt, e, at, first) =
      (suc k, omega arith, omega arith, at, misses_later k h target miss first)
  later-Answers rounds step h target (n, false) miss (z, never) =
      (z, misses_later rounds h target miss never)

  hash_forward-Answers :
      (rounds step : ℕ) (h target : Link)
      → Answers rounds step h target (hash_forward d rounds step h target)
  unfolding hash_forward
  hash_forward-Answers zero step h target = (refl, λ j lt. absurd (omega arith))
  hash_forward-Answers (suc rounds) step h target = elim (Bool-cases (same (sum256 h) target)) [
    | inl hit ↦
        rw hit (0, omega arith, omega arith, (same_iff _ _).0 hit, λ j lt. absurd (omega arith))
    | inr miss ↦ rw miss (
        later-Answers rounds step h target _ (λ e. cc ((same_iff (sum256 h) target).1 e))
          (hash_forward-Answers rounds (suc step) (sum256 h) target))
  ]

  abbrev pub effective_window : ℕ → ℕ
  effective_window window = if sle window 0 then default_resync_window else window

  -- The presented link leads to the last accepted one within the window.
  abbrev pub Reaches : ℕ → List ℕ → List ℕ → Type 0
  Reaches window presented last =
      (cur : Link) × (target : Link) × (k : ℕ) × (decode_link d presented ≡ some cur)
      × (decode_link d last ≡ some target)
      × (k < effective_window window)
      × (iterate (suc k) cur ≡ target)

  -- For well-formed texts the answer counts the hashes from the presented link to the first match; it is
  -- (0, false) if no number of hashes within the window leads to the last accepted link.
  pub verify_hash_step_lem :
      (presented last : List ℕ) (window : ℕ) (cur target : Link)
      → decode_link d presented ≡ some cur
      → decode_link d last ≡ some target
      → Answers (effective_window window) 1 cur target (verify_hash_step d presented last window)
  unfolding verify_hash_step
  verify_hash_step_lem presented last window cur target e f =
      rw (e, f, verify_links) (hash_forward-Answers (effective_window window) 1 cur target)

  accepted_of :
      (rounds : ℕ) (cur target : Link) (r : ℕ × Bool) (k : ℕ)
      → Answers rounds 1 cur target r
      → k < rounds
      → iterate (suc k) cur ≡ target
      → r.1 ≡ true
  accepted_of rounds cur target (n, true) k a lt e = refl
  accepted_of rounds cur target (n, false) k (z, never) lt e = absurd (never k lt e)

  found_of :
      (rounds : ℕ) (cur target : Link) (r : ℕ × Bool)
      → Answers rounds 1 cur target r
      → r.1 ≡ true
      → (k : ℕ) × (k < rounds) × (iterate (suc k) cur ≡ target)
  found_of rounds cur target (n, true) (k, lt, e, at, first) h = (k, lt, at)
  found_of rounds cur target (n, false) a h = cc

  verify_links_well_formed :
      (window : ℕ) (a b : Option Link)
      → (verify_links d window a b).1 ≡ true
      → (cur : Link) × (target : Link) × (a ≡ some cur) × (b ≡ some target)
  unfolding verify_links
  verify_links_well_formed window none b h = cc
  verify_links_well_formed window (some a) none h = cc
  verify_links_well_formed window (some a) (some b) h = (a, b, refl, refl)

  -- A link is accepted exactly if both texts are well formed and hashing the presented link forward, at
  -- least once and at most as often as the window says, reproduces the last accepted one.
  pub verify_hash_step_iff :
      (presented last : List ℕ) (window : ℕ)
      → ((verify_hash_step d presented last window).1 ≡ true) ↔ Reaches window presented last
  unfolding verify_hash_step
  verify_hash_step_iff presented last window = (sound, complete)
    where
      sound : (verify_hash_step d presented last window).1 ≡ true → Reaches window presented last
      sound h =
          let (cur, target, e, f) =
            verify_links_well_formed window (decode_link d presented) (decode_link d last) h in
          let (k, lt, at) =
            found_of (effective_window window) cur target _
              (verify_hash_step_lem presented last window cur target e f) h in
          (cur, target, k, e, f, lt, at)

      complete : Reaches window presented last → (verify_hash_step d presented last window).1 ≡ true
      complete (cur, target, k, e, f, lt, at) =
          accepted_of (effective_window window) cur target _ k
            (verify_hash_step_lem presented last window cur target e f) lt at

  -- Two tokens are the same exactly if both are well formed and stand for one link.
  pub same_token_iff :
      (a b : List ℕ)
      → (same_token d a b ≡ true)
        ↔ ((l : Link) × (decode_link d a ≡ some l) × (decode_link d b ≡ some l))
  unfolding same_token
  same_token_iff a b = same_links_iff (decode_link d a) (decode_link d b)
    where
      same_links_iff :
          (x y : Option Link)
          → (same_links d x y ≡ true) ↔ ((l : Link) × (x ≡ some l) × (y ≡ some l))
      same_links_iff none y = ((λ h. cc), (λ (l, e, f). cc))
      same_links_iff (some x) none = ((λ h. cc), (λ (l, e, f). cc))
      same_links_iff (some x) (some y) = (
        (λ h. (x, refl, ap some (sym ((same_iff x y).0 h)))),
        (λ (l, e, f). (same_iff x y).1 (cc)),
      )
