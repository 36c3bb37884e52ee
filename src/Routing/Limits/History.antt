-- ===== src/Routing/Limits/History.antt =====
-- The sliding window, which forgets what has left it, against the history of all admissions.
use zk_ai.Prelude.{
  ℕ, ◌≤◌, ◌≡◌, refl, ap, sym, subst, ◌∙◌, String, Bool, true, false, not, Option, none, some, List,
  [], ◌∷◌, ◌++◌, length, All, ltb, arith, Bool-cases, inl, inr, if◌then◌else◌,
}
use native.Mathlib.Nat.{le_trans}
use zk_ai.Prelude.Dict.{Dict, lookup, insert, lookup-insert_self}
use zk_ai.Routing.Limits.{
  RateLimitRule, Bucket, RateLimiter, is_expired, drop_expired, own_time, prune, prune_key,
  prune_at, used_requests, headroom, is_spent, check, mark, mark_if, add_hit, rules_of, key_of,
  admit, admit_under, settle,
}
use zk_ai.Routing.Limits.Windows.{inside, IsOrdered, IsOrdered-tail, drop_expired-inside}

-- The specification: the times of all requests that were ever admitted. A request is admitted if
-- fewer than `cap` of them are inside the window.
module _ (window cap : ℕ) where
  abbrev pub may_pass : List ℕ → ℕ → Bool
  may_pass history moment = ltb (length (inside own_time window moment history)) cap

  abbrev pub remember : List ℕ → ℕ → List ℕ
  remember history moment = if may_pass history moment then history ++ moment ∷ [] else history

  -- The answers to requests at these moments.
  abbrev pub answers : List ℕ → List ℕ → List Bool
  answers history [] = []
  answers history (moment ∷ moments) =
      may_pass history moment ∷ answers (remember history moment) moments

-- The answers of the limiter to requests for a key of a provider at these moments.
module _ (provider_id credential_id : String) (tags : List String) where
  abbrev pub admissions : RateLimiter → List ℕ → List Bool
  admissions limiter [] = []
  admissions limiter (moment ∷ moments) =
      let answer = admit limiter provider_id credential_id tags moment in
      answer.1 ∷ admissions answer.0 moments

abbrev hits_of : Option Bucket → List ℕ
hits_of none = []
hits_of (some b) = b.hits

module _ (window : ℕ) where
  -- The limiter's times of a key agree with the history, from now on.
  abbrev Agrees : ℕ → List ℕ → List ℕ → Type 0
  Agrees now hits history =
      IsOrdered own_time hits
      × All (λ t. t ≤ now) hits
      × ((moment : ℕ)
          → now ≤ moment
          → inside own_time window moment hits ≡ inside own_time window moment history)

  inside-append :
      (moment : ℕ) (xs ys : List ℕ)
      → inside own_time window moment (xs ++ ys)
        ≡ inside own_time window moment xs ++ inside own_time window moment ys
  inside-append moment [] ys = refl
  inside-append moment (x ∷ xs) ys = elim (Bool-cases (is_expired window moment x)) [
    | inl old ↦ rw old (inside-append moment xs ys)
    | inr live ↦ rw live (ap (λ l. x ∷ l) (inside-append moment xs ys))
  ]

  -- What has left the window does not come back.
  inside-later :
      (now moment : ℕ) (xs : List ℕ)
      → now ≤ moment
      → inside own_time window moment (inside own_time window now xs)
        ≡ inside own_time window moment xs
  inside-later now moment [] h = refl
  inside-later now moment (x ∷ xs) h = elim (Bool-cases (is_expired window now x)) [
    | inl old ↦
        let older : is_expired window moment x ≡ true = ground (arith, old, h) in
        rw (old, older) (inside-later now moment xs h)
    | inr live ↦ elim (Bool-cases (is_expired window moment x)) [
      | inl older ↦ rw (live, older) (inside-later now moment xs h)
      | inr alive ↦ rw (live, alive) (ap (λ l. x ∷ l) (inside-later now moment xs h))
    ]
  ]

  drop_expired-IsOrdered :
      (moment : ℕ) (xs : List ℕ)
      → IsOrdered own_time xs
      → IsOrdered own_time (drop_expired own_time window moment xs)
  unfolding drop_expired
  drop_expired-IsOrdered moment [] h = tt
  drop_expired-IsOrdered moment (x ∷ xs) h = elim (Bool-cases (is_expired window moment x)) [
    | inl old ↦ rw old (drop_expired-IsOrdered moment xs (IsOrdered-tail own_time x xs h))
    | inr live ↦ rw live h
  ]

  drop_expired-All :
      (now moment : ℕ) (xs : List ℕ)
      → now ≤ moment
      → All (λ t. t ≤ now) xs
      → All (λ t. t ≤ moment) (drop_expired own_time window moment xs)
  unfolding drop_expired
  drop_expired-All now moment [] h all = tt
  drop_expired-All now moment (x ∷ xs) h all = elim (Bool-cases (is_expired window moment x)) [
    | inl old ↦ rw old (drop_expired-All now moment xs h all.1)
    | inr live ↦ rw live (le_trans all.0 h, widen xs all.1)
  ]
    where
      widen : (ys : List ℕ) → All (λ t. t ≤ now) ys → All (λ t. t ≤ moment) ys
      widen [] hs = tt
      widen (y ∷ ys) hs = (le_trans hs.0 h, widen ys hs.1)

  -- Pruning keeps the agreement.
  drop_expired-Agrees :
      (now moment : ℕ) (hits history : List ℕ)
      → now ≤ moment
      → Agrees now hits history
      → Agrees moment (drop_expired own_time window moment hits) history
  drop_expired-Agrees now moment hits history h agree = (
    drop_expired-IsOrdered moment hits agree.0,
    drop_expired-All now moment hits h agree.1,
    λ later le.
        ap (inside own_time window later) (drop_expired-inside own_time window moment hits agree.0)
        ∙ inside-later moment later hits le
        ∙ agree.2 later (le_trans h le),
  )

  append-IsOrdered :
      (moment : ℕ) (xs : List ℕ)
      → IsOrdered own_time xs
      → All (λ t. t ≤ moment) xs
      → IsOrdered own_time (xs ++ moment ∷ [])
  append-IsOrdered moment [] h all = tt
  append-IsOrdered moment (x ∷ []) h all = (all.0, tt)
  append-IsOrdered moment (x ∷ y ∷ xs) h all = (h.0, append-IsOrdered moment (y ∷ xs) h.1 all.1)

  append-All :
      (moment : ℕ) (xs : List ℕ)
      → All (λ t. t ≤ moment) xs
      → All (λ t. t ≤ moment) (xs ++ moment ∷ [])
  append-All moment [] all = (omega arith, tt)
  append-All moment (x ∷ xs) all = (all.0, append-All moment xs all.1)

  -- So does an admission.
  append-Agrees :
      (moment : ℕ) (hits history : List ℕ)
      → Agrees moment hits history
      → Agrees moment (hits ++ moment ∷ []) (history ++ moment ∷ [])
  append-Agrees moment hits history agree = (
    append-IsOrdered moment hits agree.0 agree.1,
    append-All moment hits agree.1,
    λ later le.
        inside-append later hits (moment ∷ [])
        ∙ ap (λ l. l ++ inside own_time window later (moment ∷ [])) (agree.2 later le)
        ∙ sym (inside-append later history (moment ∷ [])),
  )

hits-prune_at :
    (k : String) (window moment : ℕ) (d : Dict Bucket) (found : Option Bucket)
    → lookup k d ≡ found
    → hits_of (lookup k (prune_at k window moment d found))
      ≡ drop_expired own_time window moment (hits_of found)
unfolding drop_expired prune
hits-prune_at k window moment d none h = ap hits_of h
hits-prune_at k window moment d (some b) h =
    ap hits_of (lookup-insert_self k (prune b window moment) d)

hits-mark :
    (k : String) (moment : ℕ) (key : RateLimitRule → String) (d : Dict Bucket)
    → hits_of (lookup k (insert k (add_hit key moment (lookup k d)) d))
      ≡ hits_of (lookup k d) ++ moment ∷ []
hits-mark k moment key d =
    ap hits_of (lookup-insert_self k (add_hit key moment (lookup k d)) d) ∙ added (lookup k d)
  where
    added : (found : Option Bucket) → (add_hit key moment found).hits ≡ hits_of found ++ moment ∷ []
    added none = refl
    added (some b) = refl

used_requests-hits : (found : Option Bucket) → used_requests found ≡ length (hits_of found)
used_requests-hits none = refl
used_requests-hits (some b) = refl

-- A rule that caps the requests.
abbrev pub capped : ℕ → ℕ → String → RateLimitRule
capped window cap scope = record {
  window_seconds = window;
  max_requests = some cap;
  max_tokens = none;
  scope = scope;
}

-- The moments do not go back, and none is before `now`.
abbrev pub Follows : ℕ → List ℕ → Type 0
Follows now [] = Unit
Follows now (moment ∷ moments) = (now ≤ moment) × Follows moment moments

module _ (provider_id credential_id : String) (tags : List String) (window cap : ℕ)
    (scope : String) where
  module _ (limiter : RateLimiter) where
    abbrev bucket_hits : List ℕ
    bucket_hits = hits_of (
        lookup (key_of limiter provider_id credential_id tags (capped window cap scope))
          limiter.buckets)

    -- The rule is the only one of the provider, and the limiter's times agree with the history.
    abbrev Simulates : ℕ → List ℕ → Type 0
    Simulates now history =
        (rules_of limiter provider_id ≡ capped window cap scope ∷ [])
        × Agrees window now bucket_hits history

  abbrev StepSimulates : ℕ → List ℕ → RateLimiter × Bool → Type 0
  StepSimulates moment history answer =
      (answer.1 ≡ may_pass window cap history moment)
      × Simulates answer.0 moment (remember window cap history moment)

  settle-Simulates :
      (limiter : RateLimiter) (moment : ℕ) (history : List ℕ) (pruned : Dict Bucket) (spent : Bool)
      → may_pass window cap history moment ≡ not spent
      → Simulates (record limiter { buckets = pruned }) moment history
      → StepSimulates moment history (
          settle limiter provider_id credential_id tags moment
            (capped window cap scope ∷ [])
            (if spent then (pruned, false) else (pruned, true)))
  unfolding mark mark_if
  settle-Simulates limiter moment history pruned true same h = rw same (refl, h)
  settle-Simulates limiter moment history pruned false same h =
      let k = key_of limiter provider_id credential_id tags (capped window cap scope) in
      rw same (
        refl,
        (
          h.0,
          subst (λ hits. Agrees window moment hits (history ++ moment ∷ []))
              (sym (hits-mark k moment (key_of limiter provider_id credential_id tags) pruned))
              (append-Agrees window moment _ history h.1),
        ),
      )

  spent-may_pass :
      (found : Option Bucket) (history : List ℕ) (moment : ℕ)
      → hits_of found ≡ inside own_time window moment history
      → may_pass window cap history moment
        ≡ not (is_spent (headroom (capped window cap scope) found))
  unfolding headroom
  spent-may_pass found history moment h =
      let held = used_requests-hits found ∙ ap length h in ground (arith, held)

  admit_under-Simulates :
      (limiter : RateLimiter) (now moment : ℕ) (history : List ℕ)
      → now ≤ moment
      → Simulates limiter now history
      → StepSimulates moment history
          (admit_under limiter provider_id credential_id tags moment (capped window cap scope ∷ []))
  unfolding check
  admit_under-Simulates limiter now moment history le h =
      let k = key_of limiter provider_id credential_id tags (capped window cap scope) in
      let pruned = prune_key k window moment limiter.buckets in
      let hits = hits-prune_at k window moment limiter.buckets (lookup k limiter.buckets) refl in
      settle-Simulates limiter moment history pruned
        (is_spent (headroom (capped window cap scope) (lookup k pruned)))
        (spent-may_pass (lookup k pruned) history moment
          (hits ∙ drop_expired-inside own_time window moment _ h.1.0 ∙ h.1.2 moment le))
        (
          h.0,
          subst (λ l. Agrees window moment l history) (sym hits)
              (drop_expired-Agrees window now moment _ history le h.1),
        )

  admit-Simulates :
      (limiter : RateLimiter) (now moment : ℕ) (history : List ℕ)
      → now ≤ moment
      → Simulates limiter now history
      → StepSimulates moment history (admit limiter provider_id credential_id tags moment)
  unfolding admit
  admit-Simulates limiter now moment history le h =
      subst
        (λ rules.
          StepSimulates moment history
            (admit_under limiter provider_id credential_id tags moment rules))
        (sym h.0) (admit_under-Simulates limiter now moment history le h)

  admissions-Simulates :
      (moments history : List ℕ) (limiter : RateLimiter) (now : ℕ)
      → Follows now moments
      → Simulates limiter now history
      → admissions provider_id credential_id tags limiter moments
        ≡ answers window cap history moments
  admissions-Simulates [] history limiter now follows h = refl
  admissions-Simulates (moment ∷ moments) history limiter now follows h =
      let answer = admit limiter provider_id credential_id tags moment in
      let step = admit-Simulates limiter now moment history follows.0 h in
      ap (λ b. b ∷ admissions provider_id credential_id tags answer.0 moments) step.0
      ∙ ap (λ rest. may_pass window cap history moment ∷ rest)
          (admissions-Simulates moments (remember window cap history moment) answer.0 moment
            follows.1 step.1)

-- The limiter refines its specification. For a provider whose only rule caps the requests, and a key
-- that has no bucket yet, the answers to requests at moments that do not go back are those of the
-- specification, which keeps the whole history and admits a request if fewer than the cap were
-- admitted inside the window: nothing that pruning forgets is ever missed.
pub admissions-answers :
    (provider_id credential_id : String) (tags : List String) (window cap : ℕ) (scope : String)
    (limiter : RateLimiter) (moments : List ℕ)
    → rules_of limiter provider_id ≡ capped window cap scope ∷ []
    → lookup
        (key_of limiter provider_id credential_id tags (capped window cap scope))
        limiter.buckets
      ≡ none
    → Follows 0 moments
    → admissions provider_id credential_id tags limiter moments ≡ answers window cap [] moments
admissions-answers provider_id credential_id tags window cap scope limiter moments rules fresh
      follows =
    admissions-Simulates provider_id credential_id tags window cap scope moments [] limiter 0
      follows
      (
        rules,
        subst (λ found. Agrees window 0 (hits_of found) []) (sym fresh) (tt, tt, λ moment le. refl),
      )
