-- ===== src/Routing/Deployments/Quarantine.antt =====
-- When the scheduler leaves a deployment out of its plans, and for how long.
use zk_ai.Prelude.{
  ℕ, ◌+◌, ◌-◌, ◌≤◌, ◌<◌, ◌≡◌, refl, ap, ◌∙◌, sym, subst, String, Bool, true, false, ◌||◌, Option,
  none, some, List, [], ◌∷◌, ltb, leb, ◌==◌, lt→ltb, one_of, if◌then◌else◌, arith,
}
use zk_ai.Prelude.Dict.{lookup, insert, lookup-insert_self}
use zk_ai.Retry.Info.{ErrorInfo}
use zk_ai.Retry.Classifier.{ErrorClassifier, by_status}
use zk_ai.Routing.Deployments.{
  is_transport, Deployments, DeploymentHealth, fail, next_failures, health_or_new,
  quarantine_ladder, quarantine_decay, is_quarantine_worthy, note_deployment_failure,
  note_deployment_success, recover, recover_at, runs_past, is_quarantined, deployment_cooling_down,
}

-- What the answer to `is_quarantine_worthy` depends on.
by_status-transport :
    (c : ErrorClassifier) (status : ℕ) (detail : String) (retry_after : Option ℕ)
    → 400 ≤ status
    → is_transport (by_status c status detail retry_after).error_class
      ≡ (status == 408 || leb 500 status)
unfolding by_status
by_status-transport c status detail retry_after error = ground arith

is_gone : String → Bool
is_gone t = one_of t ("model_not_found" ∷ "model_gone" ∷ [])

literals-is_gone :
    ((is_gone "invalid_request_error" ≡ false)
      × (is_gone "authentication_error" ≡ false)
      × (is_gone "permission_denied" ≡ false)
      × (is_gone "conflict_error" ≡ false)
      × (is_gone "context_length_exceeded" ≡ false))
    × ((is_gone "rate_limit_error" ≡ false)
        × (is_gone "timeout" ≡ false)
        × (is_gone "upstream_error" ≡ false)
        × (is_gone "overloaded" ≡ false))
    × ((is_gone "model_gone" ≡ true) × (is_gone "model_not_found" ≡ true))
unfolding is_gone
literals-is_gone = ((refl, refl, refl, refl, refl), (refl, refl, refl, refl), (refl, refl))

by_status-gone :
    (c : ErrorClassifier) (status : ℕ) (detail : String) (retry_after : Option ℕ)
    → 400 ≤ status
    → is_gone (by_status c status detail retry_after).error_type ≡ (status == 404 || status == 410)
unfolding by_status
by_status-gone c status detail retry_after error = ground (arith, literals-is_gone)

by_status-http_status :
    (c : ErrorClassifier) (status : ℕ) (detail : String) (retry_after : Option ℕ)
    → 400 ≤ status
    → (by_status c status detail retry_after).http_status ≡ status
unfolding by_status
by_status-http_status c status detail retry_after error = ground arith

worthy_of :
    (info : ErrorInfo) (status : ℕ)
    → info.http_status ≡ status
    → is_transport info.error_class ≡ (status == 408 || leb 500 status)
    → is_gone info.error_type ≡ (status == 404 || status == 410)
    → is_quarantine_worthy info
      ≡ ((status == 404 || status == 410) || (status == 408 || leb 500 status))
unfolding is_quarantine_worthy is_gone
worthy_of info status same transport gone = ground arith

-- Of the upstream's answers, those that count towards the quarantine are exactly 404, 408, 410 and
-- every status of 500 or more: never the caller's mistakes, a bad key or a rate limit.
by_status-is_quarantine_worthy :
    (c : ErrorClassifier) (status : ℕ) (detail : String) (retry_after : Option ℕ)
    → 400 ≤ status
    → is_quarantine_worthy (by_status c status detail retry_after)
      ≡ ((status == 404 || status == 410) || (status == 408 || leb 500 status))
by_status-is_quarantine_worthy c status detail retry_after error =
    worthy_of (by_status c status detail retry_after) status
      (by_status-http_status c status detail retry_after error)
      (by_status-transport c status detail retry_after error)
      (by_status-gone c status detail retry_after error)

-- The health after the failures at these times, the oldest first.
abbrev pub fail_all : DeploymentHealth → String → List ℕ → DeploymentHealth
fail_all health error_type [] = health
fail_all health error_type (now ∷ times) = fail_all (fail health error_type now) error_type times

-- No two failures of the run are further apart than the decay.
abbrev pub IsRun : ℕ → List ℕ → Type 0
IsRun last [] = Unit
IsRun last (now ∷ times) = (now ≤ last + quarantine_decay) × IsRun now times

abbrev pub last_of : ℕ → List ℕ → ℕ
last_of last [] = last
last_of last (now ∷ times) = last_of now times

-- The end of the quarantine after `n` failures in a row, the last of them at `now`.
abbrev pub quarantine_end : ℕ → ℕ → ℕ
quarantine_end n now = if ltb n 3 then 0 else now + quarantine_ladder (n - 3)

-- Where a run of `n` failures leaves the health.
record IsAfter (n last : ℕ) (health : DeploymentHealth) : Type 0 where
  pub counted : health.consecutive_failures ≡ n
  pub since : health.last_failure_at ≡ last
  pub until : health.quarantined_until ≡ quarantine_end n last

is_quarantined-recovered :
    (s : Deployments) (id : String) (o : Option DeploymentHealth) (moment : ℕ)
    → lookup id s.health ≡ o
    → is_quarantined (lookup id (recover_at id s o).health) moment ≡ false
is_quarantined-recovered s id none moment at_id = ap (λ o. is_quarantined o moment) at_id
is_quarantined-recovered s id (some health) moment at_id =
    ap (λ o. is_quarantined o moment) (lookup-insert_self id (recover health) s.health)
    ∙ ground arith

recover_at-cooldowns :
    (s : Deployments) (id : String) (o : Option DeploymentHealth)
    → (recover_at id s o).cooldowns ≡ s.cooldowns
recover_at-cooldowns s id none = refl
recover_at-cooldowns s id (some health) = refl

-- One success ends a deployment's quarantine however long it had to run: only a short cooldown of
-- its own can keep the deployment out of the plans after it.
note_deployment_success-lifts :
    (s : Deployments) (id : String) (moment : ℕ)
    → deployment_cooling_down (note_deployment_success s id) id moment
      ≡ runs_past (lookup id s.cooldowns) moment
unfolding note_deployment_success deployment_cooling_down
note_deployment_success-lifts s id moment =
    let lifted = is_quarantined-recovered s id (lookup id s.health) moment refl in
    let same =
      ap (λ d. runs_past (lookup id d) moment) (recover_at-cooldowns s id (lookup id s.health)) in
    ground arith

quarantined-cooling_down :
    (s : Deployments) (id : String) (moment : ℕ)
    → is_quarantined (lookup id s.health) moment ≡ true
    → deployment_cooling_down s id moment ≡ true
unfolding deployment_cooling_down
quarantined-cooling_down s id moment h = ground arith

-- A failure that counts, and is at least the third of its run, keeps the deployment out of the
-- plans at every moment before the end of the quarantine that the run has earned.
note_deployment_failure-quarantine :
    (s : Deployments) (id : String) (info : ErrorInfo) (now moment : ℕ)
    → is_quarantine_worthy info ≡ true
    → let failures = next_failures (health_or_new (lookup id s.health)) now in
      3 ≤ failures
      → moment < now + quarantine_ladder (failures - 3)
      → deployment_cooling_down (note_deployment_failure s id info now) id moment ≡ true
unfolding note_deployment_failure fail
note_deployment_failure-quarantine s id info now moment worthy long inside =
    ap (λ o. deployment_cooling_down o id moment) noted
    ∙ quarantined-cooling_down (record s { health = insert id failed s.health }) id moment stored
  where
    failed : DeploymentHealth
    failed = fail (health_or_new (lookup id s.health)) info.error_type now

    noted : note_deployment_failure s id info now ≡ record s { health = insert id failed s.health }
    noted = ground arith

    until :
        failed.quarantined_until
        ≡ now + quarantine_ladder (next_failures (health_or_new (lookup id s.health)) now - 3)
    until = ground arith

    stored : is_quarantined (lookup id (insert id failed s.health)) moment ≡ true
    stored =
        ap (λ o. is_quarantined o moment) (lookup-insert_self id failed s.health)
        ∙ lt→ltb moment failed.quarantined_until (subst (λ n. moment < n) (sym until) inside)
