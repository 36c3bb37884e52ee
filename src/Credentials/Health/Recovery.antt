-- ===== src/Credentials/Health/Recovery.antt =====
-- How a key comes back: successes, rests and the operator.
use zk_ai.Prelude.{
  ℕ, ◌+◌, ◌≤◌, ◌<◌, ◌≡◌, refl, String, true, false, none, min, max, if◌then◌else◌, arith,
}
use zk_ai.Credentials.Cooldown.{CooldownPolicy}
use zk_ai.Credentials.Runtime.{CredentialStatus, CredentialRuntime, is_usable, is_over}
use zk_ai.Credentials.Health.{
  on_success, mark_disabled, mark_enabled, refresh, next_rate_limits, is_rested, is_decayed,
  latency_ema,
}

module _ (p : CooldownPolicy) (c : CredentialRuntime) (moment : ℕ) where
  -- Refreshing is lazy recovery and no more: a second refresh at the same time changes nothing and
  -- reports nothing; a usable key stays usable; and a key that becomes usable was either resting
  -- after a 401 or 403 for `auto_recover_after`, or at the end of its cooldown.
  refresh_lazy :
      (refresh p (refresh p c moment).0 moment ≡ ((refresh p c moment).0, none))
      × (is_usable c false moment ≡ true → is_usable (refresh p c moment).0 false moment ≡ true)
      × (is_usable (refresh p c moment).0 false moment ≡ (elim c.status [
        | CredentialStatus.healthy ↦ true
        | CredentialStatus.disabled ↦ false
        | CredentialStatus.unhealthy ↦ is_rested p c.last_error_at moment
        | CredentialStatus.cooldown ↦ is_over c.cooldown_until moment
      ]))
  unfolding refresh is_usable
  refresh_lazy = (ground arith, ground arith, ground arith)

  -- The ladder of cooldowns restarts at its base after a success, after the operator enables the
  -- key, after a cooldown was served, and after `rate_limit_decay` without a 429: the next 429 is
  -- the first of its run. Otherwise it is one more than the last.
  ladder_restarts :
      (latency t : ℕ)
      → (next_rate_limits p (on_success c latency t).0 moment ≡ 1)
        × (next_rate_limits p (mark_enabled c).0 moment ≡ 1)
        × (c.status ≡ CredentialStatus.cooldown
            → is_over c.cooldown_until t ≡ true
            → next_rate_limits p (refresh p c t).0 moment ≡ 1)
        × (next_rate_limits p c moment ≡ (
            if is_decayed p c.last_rate_limit_at moment then 1 else c.consecutive_rate_limits + 1))
  unfolding next_rate_limits on_success mark_enabled refresh
  ladder_restarts latency t = (ground arith, ground arith, ground arith, ground arith)

-- The average latency of a key lies between the old average and the new latency, once there is one.
pub latency_ema_between :
    (ema latency : ℕ)
    → 0 < ema
    → 0 < latency
    → (min ema latency ≤ latency_ema ema latency) × (latency_ema ema latency ≤ max ema latency)
unfolding latency_ema
latency_ema_between ema latency old new = ground arith

-- A request that is still in flight when the operator disables its key undoes the decision: if it
-- succeeds the key is usable at once, at any time, though it still counts as not enabled.
pub disabled_undone :
    (p : CooldownPolicy) (c : CredentialRuntime) (reason : String) (latency t t' : ℕ)
    → let d = (on_success (mark_disabled c reason).0 latency t).0 in
      (is_usable (mark_disabled c reason).0 true t ≡ false)
      × (d.enabled ≡ false)
      × (is_usable (refresh p d t').0 false t' ≡ true)
unfolding on_success mark_disabled refresh is_usable
disabled_undone p c reason latency t t' = (refl, refl, refl)
