-- ===== src/Routing/Deployments.antt =====
-- app/routing/scheduler.py: what the scheduler remembers of a deployment between requests: the
-- short cooldown after one error, the quarantine after a run of failures, and the sessions it
-- serves. Times are in ticks of 0.1 ms; the time 0 stands for `0.0`, as in the code.
pub mod Quarantine
pub mod Preference
use zk_ai.Prelude.{
  ℕ, ◌+◌, ◌-◌, ◌≡◌, min, String, Bool, true, false, not, ◌&&◌, ◌||◌, Option, none, some, List, [],
  ◌∷◌, ltb, leb, ◌==◌, str_eq, one_of, if◌then◌else◌, keep_if, ◌++◌,
}
use zk_ai.Prelude.Dict.{Dict, lookup, insert, keys}
use zk_ai.Prelude.Round.{second}
use zk_ai.Prelude.Text.{is_empty}
use zk_ai.Retry.Info.{ErrorClass, ErrorInfo}
use zk_ai.Credentials.Affinity.{Binding, bind, bound, names_session}

-- `QUARANTINE_THRESHOLD`
abbrev pub quarantine_threshold : ℕ
quarantine_threshold = 3

-- `QUARANTINE_LADDER[step]`, whose last rung serves for every further step.
abbrev pub quarantine_ladder : ℕ → ℕ
quarantine_ladder step =
    if step == 0
    then 600000
    else if step == 1
    then 3000000
    else if step == 2
    then 18000000
    else if step == 3
    then 72000000
    else 216000000

-- `QUARANTINE_DECAY_SECONDS`
abbrev pub quarantine_decay : ℕ
quarantine_decay = 36000000

pub record DeploymentHealth : Type 0 where
  pub consecutive_failures : ℕ
  pub quarantined_until : ℕ
  pub last_error_type : String
  pub last_failure_at : ℕ

abbrev pub new_health : DeploymentHealth
new_health = record {
  consecutive_failures = 0;
  quarantined_until = 0;
  last_error_type = "";
  last_failure_at = 0;
}

abbrev pub is_transport : ErrorClass → Bool
is_transport ErrorClass.transient = true
is_transport ErrorClass.availability = true
is_transport _ = false

unfoldable pub is_quarantine_worthy : ErrorInfo → Bool
is_quarantine_worthy info =
    if (info.http_status == 404 || info.http_status == 410)
      || one_of info.error_type ("model_not_found" ∷ "model_gone" ∷ [])
    then true
    else is_transport info.error_class

-- `deployment_cooldowns`, `deployment_health` and `deployment_affinity` of the scheduler.
pub record Deployments : Type 0 where
  pub cooldowns : Dict ℕ
  pub health : Dict DeploymentHealth
  pub affinity : Dict Binding

abbrev pub runs_past : Option ℕ → ℕ → Bool
runs_past none moment = false
runs_past (some until) moment = ltb 0 until && ltb moment until

abbrev pub is_quarantined : Option DeploymentHealth → ℕ → Bool
is_quarantined none moment = false
is_quarantined (some health) moment = ltb moment health.quarantined_until

unfoldable pub deployment_cooling_down : Deployments → String → ℕ → Bool
deployment_cooling_down s id moment =
    if runs_past (lookup id s.cooldowns) moment
    then true
    else is_quarantined (lookup id s.health) moment

-- The count after a failure: an old run is forgotten first.
abbrev pub next_failures : DeploymentHealth → ℕ → ℕ
next_failures health now =
    (if ltb 0 health.last_failure_at && ltb (health.last_failure_at + quarantine_decay) now
      then 0
      else health.consecutive_failures)
    + 1

-- What a failure makes of the health: from the threshold on, the deployment is quarantined.
unfoldable pub fail : DeploymentHealth → String → ℕ → DeploymentHealth
fail health error_type now =
    let failures = next_failures health now in
    record health {
      consecutive_failures = failures;
      last_error_type = error_type;
      last_failure_at = now;
      quarantined_until =
          if ltb failures quarantine_threshold
          then health.quarantined_until
          else now + quarantine_ladder (failures - quarantine_threshold);
    }

-- `setdefault(deployment_id, DeploymentHealth())`
abbrev pub health_or_new : Option DeploymentHealth → DeploymentHealth
health_or_new none = new_health
health_or_new (some health) = health

unfoldable pub note_deployment_failure : Deployments → String → ErrorInfo → ℕ → Deployments
note_deployment_failure s id info now = if not (is_quarantine_worthy info) then s else record s {
  health = insert id (fail (health_or_new (lookup id s.health)) info.error_type now) s.health;
}

abbrev pub recover : DeploymentHealth → DeploymentHealth
recover health = record health {
  consecutive_failures = 0;
  quarantined_until = 0;
  last_error_type = "";
}

abbrev pub recover_at : String → Deployments → Option DeploymentHealth → Deployments
recover_at id s none = s
recover_at id s (some health) = record s { health = insert id (recover health) s.health }

unfoldable pub note_deployment_success : Deployments → String → Deployments
note_deployment_success s id = recover_at id s (lookup id s.health)

-- The TTL and the limit are those of the credential pool.
unfoldable pub note_deployment_affinity :
    Deployments → ℕ → ℕ → Option String → String → ℕ → Deployments
note_deployment_affinity s ttl max_sessions session_key id now = elim (names_session session_key) [
  | none ↦ s
  | some session ↦
      if is_empty id
      then s
      else record s { affinity = bind max_sessions session (id, now + ttl) s.affinity }
]

unfoldable pub preferred_deployment : Deployments → Option String → ℕ → Deployments × Option String
preferred_deployment s session_key moment = elim (names_session session_key) [
  | none ↦ (s, none)
  | some session ↦
      (let (affinity, target) = bound session moment s.affinity in
        (record s { affinity = affinity }, target))
]

-- A candidate of a plan, as far as the scheduler reads it.
pub record Candidate : Type 0 where
  pub deployment_id : String
  pub provider_id : String
  pub model : String
  pub eligible : Bool

abbrev pub is_choice : String → Candidate → Bool
is_choice preferred candidate = candidate.eligible && str_eq candidate.deployment_id preferred

-- The candidate that is the choice, and the others in their order.
abbrev pub found_or :
    Bool
    → Candidate
    → List Candidate
    → Option (Candidate × List Candidate)
    → Option (Candidate × List Candidate)
found_or true candidate rest later = some (candidate, rest)
found_or false candidate rest none = none
found_or false candidate rest (some (found, others)) = some (found, candidate ∷ others)

-- `candidates.pop(index)` at the first index that satisfies the condition of the loop.
unfoldable pub take_out : String → List Candidate → Option (Candidate × List Candidate)
take_out preferred [] = none
take_out preferred (candidate ∷ rest) =
    found_or (is_choice preferred candidate) candidate rest (take_out preferred rest)

-- `candidates.insert(start, ...)`, with the candidate that is at `start` before.
abbrev pub put_before : Candidate → Option (Candidate × List Candidate) → Option (List Candidate)
put_before front none = none
put_before front (some (found, others)) = some (found ∷ front ∷ others)

abbrev pub after_front : Candidate → Option (List Candidate) → Option (List Candidate)
after_front front none = none
after_front front (some order) = some (front ∷ order)

-- The loop over `enumerate(candidates)` with `index > start`: `start` is 1 if the front is kept.
unfoldable pub promote : Bool → String → List Candidate → Option (List Candidate)
promote preserve_front preferred [] = none
promote false preferred (front ∷ rest) = put_before front (take_out preferred rest)
promote true preferred (front ∷ []) = none
promote true preferred (front ∷ next ∷ rest) =
    after_front front (put_before next (take_out preferred rest))

abbrev pub promoted :
    List Candidate → String → Option (List Candidate) → List Candidate × Option String
promoted candidates preferred none = (candidates, none)
promoted candidates preferred (some order) = (order, some preferred)

-- The candidates in their new order, and the deployment that moved.
abbrev pub reorder :
    Deployments → List Candidate → Bool → ℕ → Option String → List Candidate × Option String
reorder s candidates preserve_front moment none = (candidates, none)
reorder s candidates preserve_front moment (some target) =
    if is_empty target || deployment_cooling_down s target moment
    then (candidates, none)
    else promoted candidates target (promote preserve_front target candidates)

unfoldable pub apply_deployment_affinity :
    Deployments
    → List Candidate
    → Option String
    → Bool
    → ℕ
    → Deployments × (List Candidate × Option String)
apply_deployment_affinity s candidates session_key preserve_front moment =
    let (s', preferred) = preferred_deployment s session_key moment in
    (s', reorder s' candidates preserve_front moment preferred)

unfoldable pub unavailable_deployments : Deployments → ℕ → List String
unavailable_deployments s moment =
    keep_if (λ id. deployment_cooling_down s id moment) (keys s.cooldowns ++ keys s.health)

-- The state, and the seconds of the cooldown.
unfoldable pub apply_deployment_cooldown : Deployments → String → ErrorInfo → ℕ → Deployments × ℕ
apply_deployment_cooldown s id info now =
    if not (str_eq info.cooldown_scope "deployment") || info.cooldown_seconds == 0
    then (s, 0)
    else (
      record s { cooldowns = insert id (now + info.cooldown_seconds) s.cooldowns },
      info.cooldown_seconds,
    )
