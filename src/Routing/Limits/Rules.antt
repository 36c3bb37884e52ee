-- ===== src/Routing/Limits/Rules.antt =====
-- app/routing/limits.py: the rules of the quotas, from the configuration, and their usage for the
-- console. What is read of an entry has been parsed: a number that is missing, malformed or not
-- positive is `none`.
use zk_ai.Prelude.{
  ℕ, ◌<◌, ◌≡◌, refl, sym, ap, subst, ◌∙◌, ◌⊎◌, inl, inr, String, str_eq, eq_iff, Bool, true, false,
  not, ◌&&◌, ◌||◌, Option, none, some, List, [], ◌∷◌, All, keep_if, one_of, is_some, ◌==◌, arith,
  Bool-cases, if◌then◌else◌,
}
use zk_ai.Prelude.Dict.{Dict, lookup, insert, remove, keys, lookup-insert, lookup-remove}
use zk_ai.Routing.Limits.{
  RateLimitRule, Bucket, RateLimiter, prune_key, used_requests, used_tokens, rules_of, key_of,
}

-- An entry of `rate_limits`.
pub record RuleEntry : Type 0 where
  pub window_seconds : Option ℕ
  pub max_requests : Option ℕ
  pub max_tokens : Option ℕ
  pub scope : String

abbrev pub scopes : List String
scopes = "credential" ∷ "account" ∷ "provider" ∷ []

-- `_positive_or_none`
abbrev pub positive_or_none : Option ℕ → Option ℕ
positive_or_none none = none
positive_or_none (some n) = if n == 0 then none else some n

abbrev pub rule_with : Option ℕ → Option ℕ → String → ℕ → Option RateLimitRule
rule_with max_requests max_tokens scope window =
    if (not (is_some max_requests) && not (is_some max_tokens))
      || (window == 0 || not (one_of scope scopes))
    then none
    else some (record {
      window_seconds = window;
      max_requests = max_requests;
      max_tokens = max_tokens;
      scope = scope;
    })

-- `RateLimitRule.from_mapping`
unfoldable pub from_mapping : RuleEntry → Option RateLimitRule
from_mapping entry = elim entry.window_seconds [
  | none ↦ none
  | some window ↦
      rule_with (positive_or_none entry.max_requests) (positive_or_none entry.max_tokens)
        entry.scope window
]

-- The loop of `register_provider`.
abbrev pub add_rule : Option RateLimitRule → List RateLimitRule → List RateLimitRule
add_rule none rules = rules
add_rule (some rule) rules = rule ∷ rules

unfoldable pub valid_rules : List RuleEntry → List RateLimitRule
valid_rules [] = []
valid_rules (entry ∷ entries) = add_rule (from_mapping entry) (valid_rules entries)

abbrev pub set_rules : RateLimiter → String → List RateLimitRule → RateLimiter
set_rules limiter id [] = record limiter { rules = remove id limiter.rules }
set_rules limiter id (rule ∷ rules) = record limiter {
  rules = insert id (rule ∷ rules) limiter.rules;
}

-- `register_provider`, of a provider with these entries.
unfoldable pub register_provider : RateLimiter → String → List RuleEntry → RateLimiter
register_provider limiter id entries = set_rules limiter id (valid_rules entries)

-- The entries of all providers, by their ids.
abbrev pub Providers : Type 0
Providers = Dict (List RuleEntry)

unfoldable pub register_all : RateLimiter → Providers → RateLimiter
register_all limiter [] = limiter
register_all limiter ((id, entries) ∷ providers) =
    register_all (register_provider limiter id entries) providers

abbrev pub drop_rules : Dict (List RateLimitRule) → List String → Dict (List RateLimitRule)
drop_rules rules [] = rules
drop_rules rules (id ∷ ids) = drop_rules (remove id rules) ids

-- `configured - set(providers)`
abbrev pub stale_ids : RateLimiter → Providers → List String
stale_ids limiter providers = keep_if (λ id. not (one_of id (keys providers))) (keys limiter.rules)

unfoldable pub configure : RateLimiter → Providers → RateLimiter
configure limiter providers =
    let registered = register_all limiter providers in
    record registered { rules = drop_rules registered.rules (stale_ids limiter providers) }

pub record Usage : Type 0 where
  pub rule : RateLimitRule
  pub requests : ℕ
  pub tokens : ℕ

-- The loop of `usage`: the buckets are pruned, and what is left is told.
module _ (key : RateLimitRule → String) (moment : ℕ) where
  unfoldable pub usage_of : List RateLimitRule → Dict Bucket → Dict Bucket × List Usage
  usage_of [] buckets = (buckets, [])
  usage_of (rule ∷ rules) buckets =
      let pruned = prune_key (key rule) rule.window_seconds moment buckets in
      let found = lookup (key rule) pruned in
      let rest = usage_of rules pruned in
      (
        rest.0,
        record { rule = rule; requests = used_requests found; tokens = used_tokens found } ∷ rest.1,
      )

unfoldable pub usage : RateLimiter → String → String → List String → ℕ → RateLimiter × List Usage
usage limiter provider_id credential_id tags moment =
    let told =
      usage_of (key_of limiter provider_id credential_id tags) moment (rules_of limiter provider_id)
        limiter.buckets in
    (record limiter { buckets = told.0 }, told.1)

-- The rule caps something, over a window, for a known scope.
abbrev pub IsRule : RateLimitRule → Type 0
IsRule rule =
    ((is_some rule.max_requests ≡ true) ⊎ (is_some rule.max_tokens ≡ true))
    × (0 < rule.window_seconds)
    × (one_of rule.scope scopes ≡ true)

rule_with-IsRule :
    (max_requests max_tokens : Option ℕ) (scope : String) (window : ℕ) (rules : List RateLimitRule)
    → All IsRule rules
    → All IsRule (add_rule (rule_with max_requests max_tokens scope window) rules)
rule_with-IsRule max_requests max_tokens scope window rules h =
    elim (Bool-cases (
      (not (is_some max_requests) && not (is_some max_tokens))
      || (window == 0 || not (one_of scope scopes)))) [
        | inl bad ↦ rw bad h
        | inr good ↦ rw good (
          (
            elim (Bool-cases (is_some max_requests)) [
              | inl capped ↦ inl capped
              | inr free ↦ inr (ground (arith, good, free))
            ],
            ground (arith, good),
            ground (arith, good),
          ),
          h,
        )
      ]

valid_rules-IsRule : (entries : List RuleEntry) → All IsRule (valid_rules entries)
unfolding valid_rules from_mapping
valid_rules-IsRule [] = tt
valid_rules-IsRule (entry ∷ entries) = with_window entry.window_seconds (valid_rules-IsRule entries)
  where
    with_window :
        (window : Option ℕ)
        → All IsRule (valid_rules entries)
        → All IsRule (
            add_rule
              (elim window [
                | none ↦ none
                | some w ↦
                    rule_with
                      (positive_or_none entry.max_requests)
                      (positive_or_none entry.max_tokens)
                      entry.scope
                      w
              ])
              (valid_rules entries))
    with_window none h = h
    with_window (some w) h =
        rule_with-IsRule (positive_or_none entry.max_requests) (positive_or_none entry.max_tokens)
          entry.scope w (valid_rules entries) h

or_empty : Option (List RateLimitRule) → List RateLimitRule
or_empty found = elim found [ none ↦ [] | some rules ↦ rules ]

set_rules-rules_of :
    (limiter : RateLimiter) (id j : String) (rules : List RateLimitRule)
    → rules_of (set_rules limiter id rules) j ≡ (if str_eq id j then rules else rules_of limiter j)
set_rules-rules_of limiter id j [] = ground (arith, lookup-remove id j limiter.rules)
set_rules-rules_of limiter id j (rule ∷ rules) =
    ground (arith, lookup-insert id j (rule ∷ rules) limiter.rules)

-- The keys of a dictionary are distinct.
abbrev pub DistinctKeys : Providers → Type 0
DistinctKeys [] = Unit
DistinctKeys ((id, entries) ∷ providers) =
    (one_of id (keys providers) ≡ false) × DistinctKeys providers

-- What the configuration says for a provider, or what was there.
abbrev pub rules_or : Option (List RuleEntry) → List RateLimitRule → List RateLimitRule
rules_or none before = before
rules_or (some entries) before = valid_rules entries

not_there :
    (j : String) (providers : Providers)
    → one_of j (keys providers) ≡ false
    → lookup j providers ≡ none
unfolding lookup
not_there j [] h = refl
not_there j ((id, entries) ∷ providers) h =
    ground (arith, not_there j providers (ground (arith, h)), eq_iff id j, eq_iff j id, h)

register_all-rules_of :
    (providers : Providers) (limiter : RateLimiter) (j : String)
    → DistinctKeys providers
    → rules_of (register_all limiter providers) j
      ≡ rules_or (lookup j providers) (rules_of limiter j)
unfolding register_all register_provider lookup
register_all-rules_of [] limiter j h = refl
register_all-rules_of ((id, entries) ∷ providers) limiter j h =
    register_all-rules_of providers (set_rules limiter id (valid_rules entries)) j h.1
    ∙ ap (rules_or (lookup j providers)) (set_rules-rules_of limiter id j (valid_rules entries))
    ∙ elim (Bool-cases (str_eq id j)) [
      | inl same ↦
          rw
            (
              same,
              not_there j providers
                  (subst (λ x. one_of x (keys providers) ≡ false) ((eq_iff id j).0 same) h.0),
            )
            refl
      | inr other ↦ rw other refl
    ]

one_of-keys : {V : Type 0} (j : String) (d : Dict V) → one_of j (keys d) ≡ is_some (lookup j d)
unfolding lookup
one_of-keys j [] = refl
one_of-keys j ((i, v) ∷ d) = ground (arith, one_of-keys j d, eq_iff i j, eq_iff j i)

if-one_of :
    (b : Bool) (j i : String) (xs : List String)
    → one_of j (if b then i ∷ xs else xs) ≡ ((str_eq j i && b) || one_of j xs)
if-one_of true j i xs = ground arith
if-one_of false j i xs = ground arith

one_of-keep_if :
    (test : String → Bool) (j : String) (ids : List String)
    → one_of j (keep_if test ids) ≡ (one_of j ids && test j)
one_of-keep_if test j [] = refl
one_of-keep_if test j (i ∷ ids) =
    if-one_of (test i) j i (keep_if test ids) ∙ elim (Bool-cases (str_eq j i)) [
      | inl same ↦
          let equal : test j ≡ test i = ap test ((eq_iff j i).0 same) in
          ground (arith, one_of-keep_if test j ids, same, equal)
      | inr other ↦ ground (arith, one_of-keep_if test j ids, other)
    ]

lookup-drop_rules :
    (ids : List String) (rules : Dict (List RateLimitRule)) (j : String)
    → lookup j (drop_rules rules ids) ≡ (if one_of j ids then none else lookup j rules)
lookup-drop_rules [] rules j = refl
lookup-drop_rules (i ∷ ids) rules j =
    lookup-drop_rules ids (remove i rules) j
    ∙ ground (arith, lookup-remove i j rules, eq_iff i j, eq_iff j i)

register_all-buckets :
    (providers : Providers) (limiter : RateLimiter)
    → (register_all limiter providers).buckets ≡ limiter.buckets
unfolding register_all register_provider
register_all-buckets [] limiter = refl
register_all-buckets ((id, entries) ∷ providers) limiter =
    register_all-buckets providers (set_rules limiter id (valid_rules entries))
    ∙ kept (valid_rules entries)
  where
    kept : (rules : List RateLimitRule) → (set_rules limiter id rules).buckets ≡ limiter.buckets
    kept [] = refl
    kept (rule ∷ rules) = refl

stale-rules :
    (entries : Option (List RuleEntry)) (before : Option (List RateLimitRule))
    (after : Option (List RateLimitRule))
    → or_empty after ≡ rules_or entries (or_empty before)
    → or_empty (if is_some before && not (is_some entries) then none else after)
      ≡ rules_or entries []
unfolding or_empty
stale-rules none none after h = h
stale-rules none (some rules) after h = refl
stale-rules (some entries) none after h = h
stale-rules (some entries) (some rules) after h = h

configure-rules_of :
    (limiter : RateLimiter) (providers : Providers) (j : String)
    → DistinctKeys providers
    → rules_of (configure limiter providers) j ≡ rules_or (lookup j providers) []
unfolding configure or_empty
configure-rules_of limiter providers j h =
    let registered = register_all limiter providers in
    let stale =
      one_of-keep_if (λ id. not (one_of id (keys providers))) j (keys limiter.rules)
      ∙ ap (λ b. b && not (one_of j (keys providers))) (one_of-keys j limiter.rules)
      ∙ ap (λ b. is_some (lookup j limiter.rules) && not b) (one_of-keys j providers) in
    ap or_empty (lookup-drop_rules (stale_ids limiter providers) registered.rules j)
    ∙ ap (λ b. or_empty (if b then none else lookup j registered.rules)) stale
    ∙ stale-rules (lookup j providers) (lookup j limiter.rules) (lookup j registered.rules)
        (register_all-rules_of providers limiter j h)

rules_or-IsRule : (found : Option (List RuleEntry)) → All IsRule (rules_or found [])
rules_or-IsRule none = tt
rules_or-IsRule (some entries) = valid_rules-IsRule entries

-- Whatever rules there were: if the providers of the configuration have distinct ids, then after
-- `configure` a provider has exactly the valid rules of its entries, and a provider that is not in
-- the configuration has none; each rule caps something, over a window, for a known scope; and no
-- counter is lost.
pub configure-rules :
    (limiter : RateLimiter) (providers : Providers) (j : String)
    → DistinctKeys providers
    → (rules_of (configure limiter providers) j ≡ rules_or (lookup j providers) [])
      × All IsRule (rules_of (configure limiter providers) j)
      × ((configure limiter providers).buckets ≡ limiter.buckets)
configure-rules limiter providers j h = (
  configure-rules_of limiter providers j h,
  subst (All IsRule) (sym (configure-rules_of limiter providers j h))
      (rules_or-IsRule (lookup j providers)),
  unfold configure in register_all-buckets providers limiter,
)
