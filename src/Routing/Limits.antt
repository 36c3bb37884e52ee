-- ===== src/Routing/Limits.antt =====
-- app/routing/limits.py: quotas over sliding windows. Times are in ticks of 0.1 ms. The state file
-- is left out: the methods that read and write it are I/O.
pub mod Windows
pub mod Admission
pub mod History
pub mod Rules
use zk_ai.Prelude.{
  ℕ, zero, suc, ◌+◌, ◌-◌, ◌/◌, ◌*◌, ◌≡◌, min, String, Bool, true, false, not, ◌&&◌, ◌||◌, Option,
  none, some, List, [], ◌∷◌, ◌++◌, map, length, leb, ltb, ◌==◌, str_eq, one_of, if◌then◌else◌,
}
use zk_ai.Prelude.Dict.{Dict, lookup, insert, remove}
use zk_ai.Prelude.Text.{codes, starts_with, is_empty, ◌⧺◌, decimal}
use zk_ai.Prelude.Round.{second}

pub record RateLimitRule : Type 0 where
  pub window_seconds : ℕ
  pub max_requests : Option ℕ
  pub max_tokens : Option ℕ
  pub scope : String

-- `tag.startswith("account-")`
unfoldable pub is_account_tag : String → Bool
unfolding starts_with
is_account_tag tag = starts_with (codes "account-") (codes tag)

-- `_account_of`, and `_account_tag_of` of the pool.
unfoldable pub account_of : List String → Option String
account_of [] = none
account_of (tag ∷ tags) = if is_account_tag tag then some tag else account_of tags

-- Timestamps of admitted requests, and (timestamp, tokens) of completed ones.
pub record Bucket : Type 0 where
  pub hits : List ℕ
  pub token_hits : List (ℕ × ℕ)

abbrev pub empty_bucket : Bucket
empty_bucket = record { hits = []; token_hits = [] }

pub record RateLimiter : Type 0 where
  pub rules : Dict (List RateLimitRule)
  pub buckets : Dict Bucket
  pub dirty : Bool

-- `account or credential_id`
abbrev account_or : Option String → String → String
account_or none credential_id = credential_id
account_or (some account) credential_id = if is_empty account then credential_id else account

unfoldable pub bucket_key : RateLimitRule → String → String → Option String → String
bucket_key rule provider_id credential_id account =
    provider_id ⧺ "|" ⧺ rule.scope ⧺ "|" ⧺ decimal (rule.window_seconds / second) ⧺ "|" ⧺ key
  where
    key : String
    key =
        if str_eq rule.scope "provider"
        then "*"
        else if str_eq rule.scope "account"
        then account_or account credential_id
        else credential_id

-- `timestamp <= moment - window`
abbrev pub is_expired : ℕ → ℕ → ℕ → Bool
is_expired window moment timestamp = leb (timestamp + window) moment

-- The loop that drops the expired prefix of a list of entries, each with its timestamp.
module _ {A : Type 0} (timestamp : A → ℕ) (window moment : ℕ) where
  unfoldable pub drop_expired : List A → List A
  drop_expired [] = []
  drop_expired (e ∷ es) =
      let rest = drop_expired es in if is_expired window moment (timestamp e) then rest else e ∷ es

abbrev pub own_time : ℕ → ℕ
own_time t = t

abbrev pub hit_time : ℕ × ℕ → ℕ
hit_time (t, n) = t

unfoldable pub prune : Bucket → ℕ → ℕ → Bucket
prune bucket window moment = record {
  hits = drop_expired own_time window moment bucket.hits;
  token_hits = drop_expired hit_time window moment bucket.token_hits;
}

abbrev pub sum_tokens : List (ℕ × ℕ) → ℕ
sum_tokens [] = 0
sum_tokens ((t, n) ∷ ts) = n + sum_tokens ts

abbrev pub used_requests : Option Bucket → ℕ
used_requests none = 0
used_requests (some b) = length b.hits

abbrev pub used_tokens : Option Bucket → ℕ
used_tokens none = 0
used_tokens (some b) = sum_tokens b.token_hits

-- `min` where `none` is infinite.
abbrev pub min_room : Option ℕ → Option ℕ → Option ℕ
min_room none b = b
min_room (some a) none = some a
min_room (some a) (some b) = some (min a b)

-- What a cap leaves. The code's value may be negative, and is only compared with 0 or raised to it.
abbrev pub room : Option ℕ → ℕ → Option ℕ
room none used = none
room (some cap) used = some (cap - used)

-- `_headroom`; `none` is infinite.
unfoldable pub headroom : RateLimitRule → Option Bucket → Option ℕ
headroom rule bucket =
    min_room (room rule.max_requests (used_requests bucket))
      (room rule.max_tokens (used_tokens bucket))

-- `headroom <= 0`
abbrev pub is_spent : Option ℕ → Bool
is_spent none = false
is_spent (some r) = r == 0

-- A bucket that is there is pruned in place.
abbrev pub prune_at : String → ℕ → ℕ → Dict Bucket → Option Bucket → Dict Bucket
prune_at key window moment buckets none = buckets
prune_at key window moment buckets (some b) = insert key (prune b window moment) buckets

abbrev pub prune_key : String → ℕ → ℕ → Dict Bucket → Dict Bucket
prune_key key window moment buckets = prune_at key window moment buckets (lookup key buckets)

abbrev pub rules_of : RateLimiter → String → List RateLimitRule
rules_of limiter provider_id = elim (lookup provider_id limiter.rules) [
  | none ↦ []
  | some rules ↦ rules
]

-- The loops below run over the rules with a function for the key of each.
module _ (key : RateLimitRule → String) (moment : ℕ) where
  -- The loop of `remaining`.
  unfoldable pub tightest : List RateLimitRule → Dict Bucket → Option ℕ → Dict Bucket × Option ℕ
  tightest [] buckets best = (buckets, best)
  tightest (rule ∷ rules) buckets best =
      let pruned = prune_key (key rule) rule.window_seconds moment buckets in
      tightest rules pruned (min_room best (headroom rule (lookup (key rule) pruned)))

  -- The first loop of `admit`: false at the first rule that is spent.
  unfoldable pub check : List RateLimitRule → Dict Bucket → Dict Bucket × Bool
  check [] buckets = (buckets, true)
  check (rule ∷ rules) buckets =
      let pruned = prune_key (key rule) rule.window_seconds moment buckets in
      let rest = check rules pruned in
      if is_spent (headroom rule (lookup (key rule) pruned)) then (pruned, false) else rest

  abbrev pub add_hit : Option Bucket → Bucket
  add_hit none = record empty_bucket { hits = moment ∷ [] }
  add_hit (some b) = record b { hits = b.hits ++ moment ∷ [] }

  -- A rule that caps no requests needs no mark.
  unfoldable pub mark_if : Option ℕ → String → Dict Bucket → Dict Bucket
  mark_if none k buckets = buckets
  mark_if (some most) k buckets = insert k (add_hit (lookup k buckets)) buckets

  -- The second loop of `admit`: a mark for each rule that caps requests.
  unfoldable pub mark : List RateLimitRule → Dict Bucket → Dict Bucket
  mark [] buckets = buckets
  mark (rule ∷ rules) buckets = mark rules (mark_if rule.max_requests (key rule) buckets)

  abbrev add_tokens : ℕ → Option Bucket → Bucket
  add_tokens tokens none = record empty_bucket { token_hits = (moment, tokens) ∷ [] }
  add_tokens tokens (some b) = record b { token_hits = b.token_hits ++ (moment, tokens) ∷ [] }

  -- The loop of `note_tokens`, with the flag `touched`.
  unfoldable pub feed : ℕ → List RateLimitRule → Dict Bucket → Bool → Dict Bucket × Bool
  feed tokens [] buckets touched = (buckets, touched)
  feed tokens (rule ∷ rules) buckets touched = elim rule.max_tokens [
    | none ↦ feed tokens rules buckets touched
    | some cap ↦
        feed tokens rules
          (insert (key rule) (add_tokens tokens (lookup (key rule) buckets)) buckets) true
  ]

module _ (limiter : RateLimiter) (provider_id credential_id : String) (tags : List String) where
  abbrev pub key_of : RateLimitRule → String
  key_of rule = bucket_key rule provider_id credential_id (account_of tags)

  -- The room left under the tightest rule; `none` is infinite.
  unfoldable pub remaining : ℕ → RateLimiter × Option ℕ
  remaining moment =
      let (buckets, best) =
        tightest key_of moment (rules_of limiter provider_id) limiter.buckets none in
      (record limiter { buckets = buckets }, best)

  abbrev pub settle : ℕ → List RateLimitRule → Dict Bucket × Bool → RateLimiter × Bool
  settle moment rules (buckets, false) = (record limiter { buckets = buckets }, false)
  settle moment rules (buckets, true) =
      (record limiter { buckets = mark key_of moment rules buckets; dirty = true }, true)

  abbrev pub admit_under : ℕ → List RateLimitRule → RateLimiter × Bool
  admit_under moment [] = (limiter, true)
  admit_under moment (rule ∷ rules) =
      settle moment (rule ∷ rules) (check key_of moment (rule ∷ rules) limiter.buckets)

  unfoldable pub admit : ℕ → RateLimiter × Bool
  admit moment = admit_under moment (rules_of limiter provider_id)

  unfoldable pub note_tokens : ℕ → ℕ → RateLimiter
  note_tokens tokens moment =
      if tokens == 0
      then limiter
      else (let (buckets, touched) =
            feed key_of moment tokens (rules_of limiter provider_id) limiter.buckets false in
          record limiter { buckets = buckets; dirty = limiter.dirty || touched })
