-- ===== src/Credentials/Rotation/Sorted.antt =====
-- app/credentials/rotation.py: the strategies that sort by the record of a key, as rotations of the
-- pool. The rate of success, a quotient in the code, is compared by cross multiplication.
use zk_ai.Prelude.{ℕ, ◌+◌, ◌*◌, Bool, List, ◌==◌, if◌then◌else◌}
use zk_ai.Prelude.Text.{codes}
use zk_ai.Prelude.Sort.{
  sort_by, sort_by-Perm, sort_by-All, sort_by-IsSorted, IsSorted, ascending, descending,
  ascending-IsRank, descending-IsRank, then_by, text_before, text_before-IsRank,
}
use zk_ai.Credentials.Runtime.{CredentialRuntime}
use zk_ai.Credentials.Rotation.{Rotation, used_at}

abbrev pub KeyOrder : Type 0
KeyOrder = CredentialRuntime → CredentialRuntime → Bool

abbrev pub by_id : KeyOrder
by_id a b = text_before (codes a.id) (codes b.id)

-- `success_rate`, as a fraction: 1 for a key without calls.
abbrev pub success_rate : CredentialRuntime → ℕ × ℕ
success_rate c =
    if c.success_count + c.failure_count == 0
    then (1, 1)
    else (c.success_count, c.success_count + c.failure_count)

-- By `-success_rate`, then by the rest.
abbrev pub by_success_rate : KeyOrder → KeyOrder
by_success_rate rest a b =
    then_by ((success_rate b).0 * (success_rate a).1) ((success_rate a).0 * (success_rate b).1)
      (rest a b)

-- The key of `LeastFailuresRotation`.
abbrev pub by_failures : KeyOrder
by_failures =
    ascending (λ c. c.consecutive_failures)
      (by_success_rate
        (descending (λ c. c.priority) (ascending (λ c. used_at c.last_used_at) by_id)))

-- Is no latency known? Then the key ranks last.
abbrev pub has_no_latency : CredentialRuntime → ℕ
has_no_latency c = if c.latency_ema_ms == 0 then 1 else 0

-- The key of `FastestRotation`.
abbrev pub by_latency : KeyOrder
by_latency =
    ascending has_no_latency
      (ascending (λ c. c.latency_ema_ms) (descending (λ c. c.priority) by_id))

abbrev pub least_failures_rotation : Rotation
least_failures_rotation = record {
  order = sort_by by_failures;
  order_perm = sort_by-Perm by_failures;
  order_all = sort_by-All by_failures;
}

abbrev pub fastest_rotation : Rotation
fastest_rotation = record {
  order = sort_by by_latency;
  order_perm = sort_by-Perm by_latency;
  order_all = sort_by-All by_latency;
}

-- The keys come by their latency, those without one last, then by priority, then by id: none stands
-- after one that ranks behind it.
fastest_rotation-IsSorted :
    (keys : List CredentialRuntime) → IsSorted by_latency (fastest_rotation.order keys)
fastest_rotation-IsSorted keys =
    sort_by-IsSorted by_latency
      (ascending-IsRank has_no_latency _ (
        ascending-IsRank (λ c. c.latency_ema_ms) _
          (descending-IsRank (λ c. c.priority) by_id (text_before-IsRank (λ c. codes c.id)))))
      keys
