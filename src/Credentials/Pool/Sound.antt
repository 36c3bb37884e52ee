-- ===== src/Credentials/Pool/Sound.antt =====
-- What holds of every key in the pool: it is filed under its own id, and it is sound.
use zk_ai.Prelude.{
  ℕ, ◌≡◌, refl, sym, ap, subst, ◌∙◌, inl, inr, String, Bool, true, false, Option, none, some, List,
  [], ◌∷◌, str_eq, one_of, if◌then◌else◌, arith, eq_iff, Bool-cases,
}
use zk_ai.Prelude.Dict.{Dict, lookup, insert, lookup-insert}
use zk_ai.Prelude.Round.{Uniform}
use zk_ai.Retry.Info.{ErrorInfo}
use zk_ai.Credentials.Cooldown.{CooldownPolicy}
use zk_ai.Credentials.Runtime.{CredentialRuntime}
use zk_ai.Credentials.Health.{
  Move, Probe, on_success, on_failure, mark_enabled, mark_disabled, mark_from_health_check, refresh,
}
use zk_ai.Credentials.Health.Lifecycle.{IsSound, Event, step, step-IsSound}
use zk_ai.Credentials.Pool.{CredentialPool, ids_of, sweep, sweep_one, apply_affinity, candidates}
use zk_ai.Credentials.Pool.Reports.{
  release, report_success, report_failure, fail_at, enable, disable, apply_health_check, change,
  move, landed, store, park, park_one, park_all, park_until, park_throttled_siblings,
}
use zk_ai.Credentials.Pool.Waits.{refresh_one, refresh_all, next_available_in}

abbrev pub IsEntry : String → CredentialRuntime → Type 0
IsEntry k c = (c.id ≡ k) × IsSound c

abbrev pub AllEntries : Dict CredentialRuntime → Type 0
AllEntries d = (k : String) (c : CredentialRuntime) → lookup k d ≡ some c → IsEntry k c

pub AllEntries-insert :
    (d : Dict CredentialRuntime) (k : String) (c : CredentialRuntime)
    → AllEntries d
    → IsEntry k c
    → AllEntries (insert k c d)
AllEntries-insert d k c all entry j e found = elim (Bool-cases (str_eq k j)) [
  | inl same ↦
      let here : some e ≡ some c =
        sym found ∙ lookup-insert k j c d ∙ ap (λ b. if b then some c else lookup j d) same in
      subst (λ o. elim o as (λ _. Type 0) [ none ↦ Unit | some x ↦ IsEntry j x ]) (sym here)
        (subst (λ x. IsEntry x c) ((eq_iff k j).0 same) entry)
  | inr other ↦
      all j e (
        ap (λ b. if b then some c else lookup j d) (sym other)
        ∙ sym (lookup-insert k j c d)
        ∙ found)
]

-- Every method of the tracker keeps the id.
step-id : (p : CooldownPolicy) (c : CredentialRuntime) (e : Event) → (step p c e).id ≡ c.id
unfolding on_success on_failure mark_disabled mark_enabled mark_from_health_check refresh park
step-id p c (Event.success latency moment) = refl
step-id p c (Event.failure info moment rng) = ground arith
step-id p c (Event.disable reason) = refl
step-id p c Event.enable = refl
step-id p c (Event.health_check probe moment rng) = ground arith
step-id p c (Event.tick moment) = ground arith
step-id p c (Event.picked moment) = refl
step-id p c Event.released = refl
step-id p c (Event.sibling_limited leader scope until) = ground arith

pub step-IsEntry :
    (p : CooldownPolicy) (k : String) (c : CredentialRuntime) (e : Event)
    → IsEntry k c
    → IsEntry k (step p c e)
step-IsEntry p k c e h = (step-id p c e ∙ h.0, step-IsSound p c e h.1)

park-IsEntry :
    (leader : CredentialRuntime) (scope : String) (until : ℕ) (k : String) (c : CredentialRuntime)
    → IsEntry k c
    → IsEntry k (park leader scope until c)
unfolding park
park-IsEntry leader scope until k c h = ground arith

landed-IsEntry : (k : String) (c : CredentialRuntime) → IsEntry k c → IsEntry k (landed c)
landed-IsEntry k c h = h

-- The pool in which every key is such.
abbrev pub IsSoundPool : CredentialPool → Type 0
IsSoundPool pool = AllEntries pool.credentials

module _ (id : String) (pool : CredentialPool) (all : IsSoundPool pool) where
  change-IsSoundPool :
      (f : CredentialRuntime → CredentialRuntime) (o : Option CredentialRuntime)
      → lookup id pool.credentials ≡ o
      → ((c : CredentialRuntime) → IsEntry id c → IsEntry id (f c))
      → IsSoundPool (change id pool f o)
  change-IsSoundPool f none found keep = all
  change-IsSoundPool f (some c) found keep =
      AllEntries-insert pool.credentials id (f c) all (keep c (all id c found))

  move-IsSoundPool :
      (f : CredentialRuntime → Move) (o : Option CredentialRuntime)
      → lookup id pool.credentials ≡ o
      → ((c : CredentialRuntime) → IsEntry id c → IsEntry id (f c).0)
      → IsSoundPool (move id pool f o).0
  move-IsSoundPool f none found keep = all
  move-IsSoundPool f (some c) found keep =
      AllEntries-insert pool.credentials id (f c).0 all (keep c (all id c found))

  pub release-IsSoundPool : IsSoundPool (release pool id)
  unfolding release
  release-IsSoundPool = change-IsSoundPool landed _ refl (λ c h. h)

  pub report_success-IsSoundPool :
      (latency moment : ℕ) → IsSoundPool (report_success pool id latency moment).0
  unfolding report_success
  report_success-IsSoundPool latency moment =
      move-IsSoundPool (λ c. on_success (landed c) latency moment) _ refl
        (λ c h. step-IsEntry pool.policy id (landed c) (Event.success latency moment) h)

  pub enable-IsSoundPool : IsSoundPool (enable pool id).0
  unfolding enable
  enable-IsSoundPool =
      move-IsSoundPool mark_enabled _ refl (λ c h. step-IsEntry pool.policy id c Event.enable h)

  pub disable-IsSoundPool : (reason : String) → IsSoundPool (disable pool id reason).0
  unfolding disable
  disable-IsSoundPool reason =
      move-IsSoundPool (λ c. mark_disabled c reason) _ refl
        (λ c h. step-IsEntry pool.policy id c (Event.disable reason) h)

  pub apply_health_check-IsSoundPool :
      (probe : Probe) (moment : ℕ) (rng : Uniform)
      → IsSoundPool (apply_health_check pool id probe moment rng).0
  unfolding apply_health_check
  apply_health_check-IsSoundPool probe moment rng =
      move-IsSoundPool (λ c. mark_from_health_check pool.policy c probe moment rng) _ refl
        (λ c h. step-IsEntry pool.policy id c (Event.health_check probe moment rng) h)

park_one-AllEntries :
    (leader : CredentialRuntime) (scope : String) (until : ℕ) (id : String)
    (o : Option CredentialRuntime) (d : Dict CredentialRuntime)
    → lookup id d ≡ o
    → AllEntries d
    → AllEntries (park_one leader scope until id o d)
park_one-AllEntries leader scope until id none d found all = all
park_one-AllEntries leader scope until id (some c) d found all =
    AllEntries-insert d id _ all (park-IsEntry leader scope until id c (all id c found))

park_all-AllEntries :
    (ids : List String) (leader : CredentialRuntime) (scope : String) (until : ℕ)
    (d : Dict CredentialRuntime)
    → AllEntries d
    → AllEntries (park_all leader scope until ids d)
unfolding park_all
park_all-AllEntries [] leader scope until d all = all
park_all-AllEntries (id ∷ ids) leader scope until d all =
    park_all-AllEntries ids leader scope until (park_one leader scope until id (lookup id d) d)
      (park_one-AllEntries leader scope until id (lookup id d) d refl all)

park_until-IsSoundPool :
    (pool : CredentialPool) (leader : CredentialRuntime) (scope : String) (end : Option ℕ)
    → IsSoundPool pool
    → IsSoundPool (park_until pool leader scope end)
park_until-IsSoundPool pool leader scope none all = all
park_until-IsSoundPool pool leader scope (some until) all =
    park_all-AllEntries (ids_of pool leader.provider_id) leader scope until pool.credentials all

fail_at-IsSoundPool :
    (pool : CredentialPool) (id : String) (info : ErrorInfo) (moment : ℕ) (rng : Uniform)
    (o : Option CredentialRuntime)
    → lookup id pool.credentials ≡ o
    → IsSoundPool pool
    → IsSoundPool (fail_at pool id info moment rng o).0
unfolding park_throttled_siblings
fail_at-IsSoundPool pool id info moment rng none found all = all
fail_at-IsSoundPool pool id info moment rng (some c) found all =
    let m = on_failure pool.policy (landed c) info moment rng in
    park_until-IsSoundPool (store pool id m.0) m.0 _ _ (
      AllEntries-insert pool.credentials id m.0 all
        (step-IsEntry pool.policy id (landed c) (Event.failure info moment rng) (all id c found)))

pub report_failure-IsSoundPool :
    (pool : CredentialPool) (id : String) (info : ErrorInfo) (moment : ℕ) (rng : Uniform)
    → IsSoundPool pool
    → IsSoundPool (report_failure pool id info moment rng).0
unfolding report_failure
report_failure-IsSoundPool pool id info moment rng all =
    fail_at-IsSoundPool pool id info moment rng _ refl all

refresh_one-AllEntries :
    (p : CooldownPolicy) (moment : ℕ) (id : String) (o : Option CredentialRuntime)
    (d : Dict CredentialRuntime)
    → lookup id d ≡ o
    → AllEntries d
    → AllEntries (refresh_one p moment id o d)
refresh_one-AllEntries p moment id none d found all = all
refresh_one-AllEntries p moment id (some c) d found all =
    AllEntries-insert d id _ all (step-IsEntry p id c (Event.tick moment) (all id c found))

refresh_all-AllEntries :
    (ids : List String) (p : CooldownPolicy) (moment : ℕ) (d : Dict CredentialRuntime)
    → AllEntries d
    → AllEntries (refresh_all p moment ids d)
unfolding refresh_all
refresh_all-AllEntries [] p moment d all = all
refresh_all-AllEntries (id ∷ ids) p moment d all =
    refresh_all-AllEntries ids p moment (refresh_one p moment id (lookup id d) d)
      (refresh_one-AllEntries p moment id (lookup id d) d refl all)

pub next_available_in-IsSoundPool :
    (pool : CredentialPool) (provider_id : String) (moment : ℕ)
    → IsSoundPool pool
    → IsSoundPool (next_available_in pool provider_id moment).0
unfolding next_available_in
next_available_in-IsSoundPool pool provider_id moment all =
    refresh_all-AllEntries (ids_of pool provider_id) pool.policy moment pool.credentials all

if-AllEntries :
    (b : Bool) (u v : Dict CredentialRuntime × List CredentialRuntime)
    → AllEntries u.0
    → AllEntries v.0
    → AllEntries (if b then u else v).0
if-AllEntries true u v hu hv = hu
if-AllEntries false u v hu hv = hv

sweep_one-AllEntries :
    (p : CooldownPolicy) (excluded : List String) (allow : Bool) (moment : ℕ) (id : String)
    (o : Option CredentialRuntime) (d : Dict CredentialRuntime)
    → lookup id d ≡ o
    → AllEntries d
    → AllEntries (sweep_one p excluded allow moment id o d).0
sweep_one-AllEntries p excluded allow moment id none d found all = all
sweep_one-AllEntries p excluded allow moment id (some c) d found all =
    if-AllEntries (one_of c.id excluded) _ _ all
      (AllEntries-insert d id _ all (step-IsEntry p id c (Event.tick moment) (all id c found)))

sweep-AllEntries :
    (ids : List String) (p : CooldownPolicy) (excluded : List String) (allow : Bool) (moment : ℕ)
    (d : Dict CredentialRuntime)
    → AllEntries d
    → AllEntries (sweep p excluded allow moment ids d).0
unfolding sweep
sweep-AllEntries [] p excluded allow moment d all = all
sweep-AllEntries (id ∷ ids) p excluded allow moment d all =
    sweep-AllEntries ids p excluded allow moment
      (sweep_one p excluded allow moment id (lookup id d) d).0
      (sweep_one-AllEntries p excluded allow moment id (lookup id d) d refl all)

pub candidates-IsSoundPool :
    (pool : CredentialPool) (provider_id : String) (exclude : List String) (return_cooldown : Bool)
    (session_key : Option String) (moment : ℕ)
    → IsSoundPool pool
    → IsSoundPool (candidates pool provider_id exclude return_cooldown session_key moment).0
unfolding candidates apply_affinity
candidates-IsSoundPool pool provider_id exclude return_cooldown session_key moment all =
    sweep-AllEntries (ids_of pool provider_id) pool.policy exclude return_cooldown moment
      pool.credentials all
