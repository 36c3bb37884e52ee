-- ===== src/Routing/Limits/Admission.antt =====
-- What an admission guarantees, and that it agrees with the room that selection sees.
use zk_ai.Prelude.{
  ℕ, ◌+◌, ◌≤◌, ◌<◌, ◌≡◌, refl, ap, sym, subst, ◌∙◌, String, Bool, true, false, not, ◌||◌, Option,
  none, some, List, [], ◌∷◌, length, length-append, All, str_eq, eq_iff, arith, Bool-cases,
  Option-cases, inl, inr,
}
use zk_ai.Prelude.Dict.{Dict, lookup, lookup-insert, lookup-insert_self}
use zk_ai.Routing.Limits.{
  RateLimitRule, Bucket, RateLimiter, drop_expired, own_time, prune, prune_key, used_requests,
  min_room, headroom, is_spent, tightest, check, mark_if, mark, add_hit, rules_of, key_of,
  remaining, admit, admit_under, settle,
}

is_spent-min_room : (a b : Option ℕ) → is_spent (min_room a b) ≡ (is_spent a || is_spent b)
is_spent-min_room a b = ground arith

str_sym : (s t : String) → str_eq s t ≡ false → str_eq t s ≡ false
str_sym s t h = ground (arith, eq_iff s t, eq_iff t s)

not-not : (b : Bool) → b ≡ not (not b)
not-not true = refl
not-not false = refl

-- How many requests a key's bucket holds.
abbrev pub used : Dict Bucket → String → ℕ
used buckets k = used_requests (lookup k buckets)

length-drop_expired-le :
    {A : Type 0} (timestamp : A → ℕ) (window moment : ℕ) (es : List A)
    → length (drop_expired timestamp window moment es) ≤ length es
unfolding drop_expired
length-drop_expired-le timestamp window moment [] = omega arith
length-drop_expired-le timestamp window moment (e ∷ es) =
    ground (arith, length-drop_expired-le timestamp window moment es)

used-prune_key-le :
    (k j : String) (window moment : ℕ) (d : Dict Bucket)
    → used (prune_key k window moment d) j ≤ used d j
unfolding prune
used-prune_key-le k j window moment d = elim (Option-cases (lookup k d)) [
  | inl missing ↦ rw missing (omega arith)
  | inr (b, found) ↦
      rw (found, lookup-insert k j (prune b window moment) d)
        (ground (arith, eq_iff k j, found, length-drop_expired-le own_time window moment b.hits))
]

module _ (key : RateLimitRule → String) (moment : ℕ) where
  -- The check passes exactly when the tightest rule is not spent.
  is_spent-tightest :
      (rules : List RateLimitRule) (d : Dict Bucket) (best : Option ℕ)
      → is_spent (tightest key moment rules d best).1
        ≡ (is_spent best || not (check key moment rules d).1)
  unfolding tightest check
  is_spent-tightest [] d best = ground arith
  is_spent-tightest (rule ∷ rules) d best =
      let pruned = prune_key (key rule) rule.window_seconds moment d in
      let h = headroom rule (lookup (key rule) pruned) in
      is_spent-tightest rules pruned (min_room best h) ∙ ground (arith, is_spent-min_room best h)

  used-check-le :
      (rules : List RateLimitRule) (d : Dict Bucket) (j : String)
      → used (check key moment rules d).0 j ≤ used d j
  unfolding check
  used-check-le [] d j = omega arith
  used-check-le (rule ∷ rules) d j =
      let pruned = prune_key (key rule) rule.window_seconds moment d in
      let here = used-prune_key-le (key rule) j rule.window_seconds moment d in
      elim (Bool-cases (is_spent (headroom rule (lookup (key rule) pruned)))) [
        | inl spent ↦ rw spent here
        | inr roomy ↦ rw roomy (omega (arith, here, used-check-le rules pruned j))
      ]

  -- Below the cap of the rule, if it has one.
  abbrev Room : Dict Bucket → RateLimitRule → Type 0
  Room d rule = (cap : ℕ) → rule.max_requests ≡ some cap → used d (key rule) < cap

  abbrev pub Within : Dict Bucket → RateLimitRule → Type 0
  Within d rule = (cap : ℕ) → rule.max_requests ≡ some cap → used d (key rule) ≤ cap

  -- No rule of the list has this key.
  abbrev pub Absent : String → List RateLimitRule → Type 0
  Absent k [] = Unit
  Absent k (rule ∷ rules) = (str_eq (key rule) k ≡ false) × Absent k rules

  -- No two rules share a bucket.
  abbrev pub Distinct : List RateLimitRule → Type 0
  Distinct [] = Unit
  Distinct (rule ∷ rules) = Absent (key rule) rules × Distinct rules

  room_of_unspent :
      (rule : RateLimitRule) (b : Option Bucket) (cap : ℕ)
      → is_spent (headroom rule b) ≡ false
      → rule.max_requests ≡ some cap
      → used_requests b < cap
  unfolding headroom
  room_of_unspent rule b cap unspent capped = ground arith

  check-Room :
      (rules : List RateLimitRule) (d d' : Dict Bucket)
      → check key moment rules d ≡ (d', true)
      → All (Room d') rules
  unfolding check
  check-Room [] d d' h = tt
  check-Room (rule ∷ rules) d d' h =
      let pruned = prune_key (key rule) rule.window_seconds moment d in
      let b = lookup (key rule) pruned in
      elim (Bool-cases (is_spent (headroom rule b))) [
        | inl spent ↦ absurd (ground arith)
        | inr roomy ↦
            let passed : check key moment rules pruned ≡ (d', true) = ground arith in
            (
              (λ cap e. omega (
                arith,
                rw (ap (λ (x : Dict Bucket × Bool). x.0) passed) at
                    (used-check-le rules pruned (key rule)),
                room_of_unspent rule b cap roomy e,
              )),
              check-Room rules pruned d' passed,
            )
      ]

  lookup-mark_if_ne :
      (cap : Option ℕ) (j k : String) (d : Dict Bucket)
      → str_eq j k ≡ false
      → lookup k (mark_if key moment cap j d) ≡ lookup k d
  unfolding mark_if
  lookup-mark_if_ne none j k d h = refl
  lookup-mark_if_ne (some most) j k d h =
      lookup-insert j k (add_hit key moment (lookup j d)) d ∙ rw h

  length-add_hit : (b : Option Bucket) → length (add_hit key moment b).hits ≤ used_requests b + 1
  length-add_hit none = omega arith
  length-add_hit (some b) = omega (arith, length-append b.hits (moment ∷ []))

  used-mark_if-le :
      (cap : Option ℕ) (k : String) (d : Dict Bucket)
      → used (mark_if key moment cap k d) k ≤ used d k + 1
  unfolding mark_if
  used-mark_if-le none k d = omega arith
  used-mark_if-le (some most) k d =
      rw (lookup-insert_self k (add_hit key moment (lookup k d)) d) (length-add_hit (lookup k d))

  lookup-mark-Absent :
      (rules : List RateLimitRule) (d : Dict Bucket) (k : String)
      → Absent k rules
      → lookup k (mark key moment rules d) ≡ lookup k d
  unfolding mark
  lookup-mark-Absent [] d k h = refl
  lookup-mark-Absent (rule ∷ rules) d k h =
      lookup-mark-Absent rules (mark_if key moment rule.max_requests (key rule) d) k h.1
      ∙ lookup-mark_if_ne rule.max_requests (key rule) k d h.0

  -- Marking one rule takes no room from rules with other keys.
  Room-mark_if :
      (rule : RateLimitRule) (d : Dict Bucket) (rules : List RateLimitRule)
      → Absent (key rule) rules
      → All (Room d) rules
      → All (Room (mark_if key moment rule.max_requests (key rule) d)) rules
  Room-mark_if rule d [] h r = tt
  Room-mark_if rule d (other ∷ rules) h r = (
    (λ cap capped.
        subst (λ (b : Option Bucket). used_requests b < cap)
          (sym (
            lookup-mark_if_ne rule.max_requests (key rule) (key other) d
              (str_sym (key other) (key rule) h.0)))
          (r.0 cap capped)),
    Room-mark_if rule d rules h.1 r.1,
  )

  mark-Within :
      (rules : List RateLimitRule) (d d' : Dict Bucket)
      → mark key moment rules d ≡ d'
      → Distinct rules
      → All (Room d) rules
      → All (Within d') rules
  unfolding mark
  mark-Within [] d d' e h r = tt
  mark-Within (rule ∷ rules) d d' e h r = (
    (λ cap capped.
        let kept =
          lookup-mark-Absent rules (mark_if key moment rule.max_requests (key rule) d) (key rule)
            h.0 in
        omega (
          arith,
          ap used_requests (ap (lookup (key rule)) (sym e) ∙ kept),
          used-mark_if-le rule.max_requests (key rule) d,
          r.0 cap capped,
        )),
    mark-Within rules (mark_if key moment rule.max_requests (key rule) d) d' e h.1
        (Room-mark_if rule d rules h.0 r.1),
  )

module _ (limiter : RateLimiter) (provider_id credential_id : String) (tags : List String)
    (moment : ℕ) where
  abbrev key : RateLimitRule → String
  key = key_of limiter provider_id credential_id tags

  abbrev under : List RateLimitRule → RateLimiter × Bool
  under = admit_under limiter provider_id credential_id tags moment

  abbrev settled : List RateLimitRule → Dict Bucket × Bool → RateLimiter × Bool
  settled = settle limiter provider_id credential_id tags moment

  settle-flag : (rules : List RateLimitRule) (r : Dict Bucket × Bool) → (settled rules r).1 ≡ r.1
  settle-flag rules (d, true) = refl
  settle-flag rules (d, false) = refl

  admit_under-tightest :
      (rules : List RateLimitRule)
      → (under rules).1 ≡ not (is_spent (tightest key moment rules limiter.buckets none).1)
  admit_under-tightest [] =
      rw (is_spent-tightest key moment [] limiter.buckets none) (unfold check in refl)
  admit_under-tightest (rule ∷ rules) =
      settle-flag (rule ∷ rules) (check key moment (rule ∷ rules) limiter.buckets)
      ∙ rw (is_spent-tightest key moment (rule ∷ rules) limiter.buckets none)
          (not-not (check key moment (rule ∷ rules) limiter.buckets).1)

  -- A request is admitted exactly when `remaining` sees room at the same moment: what selection
  -- offers, dispatch accepts.
  pub admit-remaining :
      (admit limiter provider_id credential_id tags moment).1
      ≡ not (is_spent (remaining limiter provider_id credential_id tags moment).1)
  unfolding admit remaining
  admit-remaining = admit_under-tightest (rules_of limiter provider_id)

  settle-Within :
      (rules : List RateLimitRule) (r : Dict Bucket × Bool) (limiter' : RateLimiter)
      → Distinct key moment rules
      → check key moment rules limiter.buckets ≡ r
      → settled rules r ≡ (limiter', true)
      → All (Within key moment limiter'.buckets) rules
  settle-Within rules (d, false) limiter' distinct checked e = absurd (ground arith)
  settle-Within rules (d, true) limiter' distinct checked e =
      mark-Within key moment rules d limiter'.buckets (ground arith) distinct
        (check-Room key moment rules limiter.buckets d checked)

  admit_under-Within :
      (rules : List RateLimitRule) (limiter' : RateLimiter)
      → Distinct key moment rules
      → under rules ≡ (limiter', true)
      → All (Within key moment limiter'.buckets) rules
  admit_under-Within [] limiter' distinct e = tt
  admit_under-Within (rule ∷ rules) limiter' distinct e =
      settle-Within (rule ∷ rules) _ limiter' distinct refl e

  -- After a request was admitted no bucket of the provider's rules holds more requests than the
  -- rule allows, if no two rules share a bucket.
  pub admit-Within :
      (limiter' : RateLimiter)
      → Distinct key moment (rules_of limiter provider_id)
      → admit limiter provider_id credential_id tags moment ≡ (limiter', true)
      → All (Within key moment limiter'.buckets) (rules_of limiter provider_id)
  unfolding admit
  admit-Within = admit_under-Within (rules_of limiter provider_id)

  Refused : RateLimiter → Type 0
  Refused l =
      (l.rules ≡ limiter.rules)
      × (l.dirty ≡ limiter.dirty)
      × ((k : String) → used l.buckets k ≤ used limiter.buckets k)

  settle-Refused :
      (rules : List RateLimitRule) (r : Dict Bucket × Bool) (limiter' : RateLimiter)
      → check key moment rules limiter.buckets ≡ r
      → settled rules r ≡ (limiter', false)
      → Refused limiter'
  unfolding Refused
  settle-Refused rules (d, true) limiter' checked e = absurd (ground arith)
  settle-Refused rules (d, false) limiter' checked e = (
    ground arith,
    ground arith,
    λ k.
        subst (λ (x : Dict Bucket). used x k ≤ used limiter.buckets k)
          (ap (λ (x : Dict Bucket × Bool). x.0) checked
            ∙ ap (λ (x : RateLimiter × Bool). x.0.buckets) e)
          (used-check-le key moment rules limiter.buckets k),
  )

  admit_under-Refused :
      (rules : List RateLimitRule) (limiter' : RateLimiter)
      → under rules ≡ (limiter', false)
      → Refused limiter'
  admit_under-Refused [] limiter' e = absurd (ground arith)
  admit_under-Refused (rule ∷ rules) limiter' e = settle-Refused (rule ∷ rules) _ limiter' refl e

  -- A refused request leaves the rules and the flag as they were, and no bucket holds more requests
  -- than before.
  admit_refused :
      (limiter' : RateLimiter)
      → admit limiter provider_id credential_id tags moment ≡ (limiter', false)
      → (limiter'.rules ≡ limiter.rules)
        × (limiter'.dirty ≡ limiter.dirty)
        × ((k : String) → used limiter'.buckets k ≤ used limiter.buckets k)
  unfolding admit Refused
  admit_refused = admit_under-Refused (rules_of limiter provider_id)
