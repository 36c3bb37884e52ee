-- ===== src/Credentials/Health/Failures.antt =====
-- What a failure does to a key: who is blamed, and for how long the key is out.
use zk_ai.Prelude.{
  ℕ, ◌+◌, ◌≤◌, ◌<◌, ◌≡◌, Bool, true, false, none, leb, one_of, if◌then◌else◌, arith,
}
use zk_ai.Prelude.Round.{Uniform}
use zk_ai.Retry.Info.{ErrorClass, ErrorInfo}
use zk_ai.Credentials.Cooldown.{CooldownPolicy}
use zk_ai.Credentials.Runtime.{CredentialStatus, CredentialRuntime, is_usable}
use zk_ai.Credentials.Health.{
  credential_fatal, throttle_errors, on_failure, next_rate_limits, throttle_duration, refresh,
}

-- Is the failure evidence against the key?
abbrev pub is_blamed : ErrorInfo → Bool
is_blamed info = elim info.error_class [
  | ErrorClass.client ↦ false
  | ErrorClass.internal ↦ false
  | _ ↦ true
]

-- The status after a failure: a rejected key is unhealthy and a rate-limited one cools down; any other
-- blamed failure, a 529 among them, cools it down only when the run of failures is long enough.
abbrev pub status_after : CredentialRuntime → ErrorInfo → CredentialStatus
status_after c info =
    if is_blamed info
    then (if one_of info.error_type credential_fatal
        then CredentialStatus.unhealthy
        else if one_of info.error_type throttle_errors
        then CredentialStatus.cooldown
        else if leb c.max_consecutive_failures (c.consecutive_failures + 1)
        then CredentialStatus.cooldown
        else c.status)
    else c.status

-- A key's record, without what it says of the last error.
abbrev pub blank_error : CredentialRuntime → CredentialRuntime
blank_error c = record c { last_error_at = none; last_error_type = none; last_error_detail = none }

module _ (p : CooldownPolicy) (c : CredentialRuntime) (info : ErrorInfo) (moment : ℕ)
    (rng : Uniform) where
  -- The caller's errors and the gateway's own change nothing of a key but what it says of its last
  -- error; any other failure is counted once, also in the run of failures. A 401 or 403 makes the key
  -- unhealthy, a 429 cools it down, and any other blamed failure leaves the status as it is until
  -- there are `max_consecutive_failures` in a row. An overload (529) is one of these: it does not cool
  -- the key down by itself.
  pub on_failure-status_after :
      ((on_failure p c info moment rng).0.status ≡ status_after c info)
      × (is_blamed info ≡ false → blank_error (on_failure p c info moment rng).0 ≡ blank_error c)
      × (is_blamed info ≡ true
          → ((on_failure p c info moment rng).0.failure_count ≡ c.failure_count + 1)
            × ((on_failure p c info moment rng).0.consecutive_failures
                ≡ c.consecutive_failures + 1))
      × (info.error_type ≡ "overloaded"
          → c.consecutive_failures + 1 < c.max_consecutive_failures
          → (on_failure p c info moment rng).0.status ≡ c.status)
  unfolding on_failure
  on_failure-status_after = (
    ground arith,
    ground arith,
    ground arith,
    λ overload short.
        let not_fatal : one_of info.error_type credential_fatal ≡ false = rw overload in
        let no_throttle : one_of info.error_type throttle_errors ≡ false = rw overload in
        ground arith,
  )

  -- A 429 keeps the key out for exactly the duration that the cooldown policy sets: from the moment
  -- of the failure on, the refreshed key is usable exactly when that time has passed.
  pub throttled_until :
      (t : ℕ)
      → moment ≤ t
      → is_blamed info ≡ true
      → info.error_type ≡ "rate_limit_error"
      → is_usable (refresh p (on_failure p c info moment rng).0 t).0 false t
        ≡ leb (moment + throttle_duration p c info moment rng) t
  unfolding on_failure refresh is_usable throttle_duration next_rate_limits
  throttled_until t later blamed limit =
      let not_fatal : one_of info.error_type credential_fatal ≡ false = rw limit in
      let throttle : one_of info.error_type throttle_errors ≡ true = rw limit in ground arith

  -- A 401 or 403 keeps the key out for exactly `auto_recover_after`: the refreshed key is usable
  -- exactly when that time has passed since the failure.
  pub fatal_until :
      (t : ℕ)
      → is_blamed info ≡ true
      → one_of info.error_type credential_fatal ≡ true
      → is_usable (refresh p (on_failure p c info moment rng).0 t).0 false t
        ≡ leb (moment + p.auto_recover_after) t
  unfolding on_failure refresh is_usable
  fatal_until t blamed fatal = ground arith
