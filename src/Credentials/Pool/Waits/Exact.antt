-- ===== src/Credentials/Pool/Waits/Exact.antt =====
-- How exact the waiting time is that the pool reports.
use zk_ai.Prelude.{
  ℕ, ◌+◌, ◌≤◌, ◌<◌, ◌≡◌, refl, sym, ap, subst, min, ◌⊎◌, inl, inr, Bool, true, false, not, ◌||◌,
  ◌∙◌, Option, none, some, List, [], ◌∷◌, map, leb, any_of, keep_if, if◌then◌else◌, arith, String,
  Bool-cases,
}
use zk_ai.Credentials.Cooldown.{CooldownPolicy}
use zk_ai.Credentials.Runtime.{CredentialStatus, CredentialRuntime, is_usable, cooldown_remaining}
use zk_ai.Credentials.Health.{refresh}
use zk_ai.Credentials.Pool.{CredentialPool, for_provider}
use zk_ai.Credentials.Pool.Waits.{is_cooling, sooner, least, shortest_wait, next_available_in}

usable-out :
    (c : CredentialRuntime) (moment t : ℕ)
    → is_usable c false moment ≡ false
    → is_cooling c.status ≡ false
    → is_usable c false t ≡ false
unfolding is_usable
usable-out c moment t h out = ground arith

usable-cooling :
    (c : CredentialRuntime) (moment t : ℕ)
    → is_usable c false moment ≡ false
    → is_cooling c.status ≡ true
    → (is_usable c false t ≡ leb (moment + cooldown_remaining c moment) t)
      × (1 ≤ cooldown_remaining c moment)
unfolding is_usable cooldown_remaining
usable-cooling c moment t h cooling = ground arith

-- Nothing becomes available from `moment` on, or something does after exactly the wait.
abbrev pub IsExact : (ℕ → Bool) → ℕ → Option ℕ → Type 0
IsExact available moment none = (t : ℕ) → moment ≤ t → available t ≡ false
IsExact available moment (some wait) =
    (available (moment + wait) ≡ true)
    × ((t : ℕ) → moment ≤ t → t < moment + wait → available t ≡ false)

either-IsExact :
    (f rest : ℕ → Bool) (moment n : ℕ) (o : Option ℕ)
    → ((t : ℕ) → f t ≡ leb (moment + n) t)
    → IsExact rest moment o
    → IsExact (λ t. f t || rest t) moment (some (sooner n o))
either-IsExact f rest moment n none hf hr =
    (ground (arith, hf (moment + n)), λ t low early. ground (arith, hf t, hr t low))
either-IsExact f rest moment n (some m) hf hr = (
  ground (arith, hf (moment + min n m), hr.0, hr.1 (moment + n)),
  λ t low early. ground (arith, hf t, hr.1 t low),
)

skip-IsExact :
    (f rest : ℕ → Bool) (moment : ℕ) (o : Option ℕ)
    → ((t : ℕ) → f t ≡ false)
    → IsExact rest moment o
    → IsExact (λ t. f t || rest t) moment o
skip-IsExact f rest moment none hf hr = λ t low. ground (arith, hf t, hr t low)
skip-IsExact f rest moment (some m) hf hr =
    (ground (arith, hf (moment + m), hr.0), λ t low early. ground (arith, hf t, hr.1 t low early))

-- Is one of the keys usable at the time?
abbrev available : List CredentialRuntime → ℕ → Bool
available cs t = any_of (λ c. is_usable c false t) cs

abbrev waits : List CredentialRuntime → ℕ → Option ℕ
waits cs moment = least (map (λ c. cooldown_remaining c moment) cs)

cons-IsExact :
    (c : CredentialRuntime) (cs cooling : List CredentialRuntime) (moment : ℕ) (b : Bool)
    → is_usable c false moment ≡ false
    → is_cooling c.status ≡ b
    → IsExact (available cs) moment (waits cooling moment)
    → IsExact (available (c ∷ cs)) moment (waits (if b then c ∷ cooling else cooling) moment)
cons-IsExact c cs cooling moment true out cools h =
    either-IsExact (λ t. is_usable c false t) (available cs) moment (cooldown_remaining c moment)
      (waits cooling moment) (λ t. (usable-cooling c moment t out cools).0) h
cons-IsExact c cs cooling moment false out cools h =
    skip-IsExact (λ t. is_usable c false t) (available cs) moment (waits cooling moment)
      (λ t. usable-out c moment t out cools) h

waits-IsExact :
    (cs : List CredentialRuntime) (moment : ℕ)
    → available cs moment ≡ false
    → IsExact (available cs) moment (waits (keep_if (λ c. is_cooling c.status) cs) moment)
waits-IsExact [] moment none_now = λ t low. refl
waits-IsExact (c ∷ cs) moment none_now =
    cons-IsExact c cs (keep_if (λ x. is_cooling x.status) cs) moment (is_cooling c.status)
      (ground (arith, none_now)) refl (waits-IsExact cs moment (ground (arith, none_now)))

shortest_wait-IsExact :
    (cs : List CredentialRuntime) (moment : ℕ)
    → ((available cs moment ≡ true) × (shortest_wait cs moment ≡ none))
      ⊎ ((available cs moment ≡ false) × IsExact (available cs) moment (shortest_wait cs moment))
unfolding shortest_wait
shortest_wait-IsExact cs moment = elim (Bool-cases (available cs moment)) [
  | inl now ↦ inl (now, ap (λ b. if b then none else kept) now)
  | inr none_now ↦ inr (
    none_now,
    subst (λ b. IsExact (available cs) moment (if b then none else kept)) (sym none_now)
        (waits-IsExact cs moment none_now),
  )
]
  where
    kept : Option ℕ
    kept = waits (keep_if (λ c. is_cooling c.status) cs) moment

abbrev pub is_unhealthy : CredentialStatus → Bool
is_unhealthy CredentialStatus.unhealthy = true
is_unhealthy _ = false

-- The keys that nothing but the end of a cooldown brings back.
abbrev pub settled : List CredentialRuntime → List CredentialRuntime
settled cs = keep_if (λ c. not (is_unhealthy c.status)) cs

-- Does a selection at the time, which refreshes the keys, find a usable one?
abbrev pub offered : CooldownPolicy → List CredentialRuntime → ℕ → Bool
offered p cs t = any_of (λ c. is_usable (refresh p c t).0 false t) cs

usable-unhealthy :
    (c : CredentialRuntime) (t : ℕ)
    → not (is_unhealthy c.status) ≡ false
    → is_usable c false t ≡ false
unfolding is_usable
usable-unhealthy c t h = ground arith

usable-refresh :
    (p : CooldownPolicy) (c : CredentialRuntime) (t : ℕ)
    → not (is_unhealthy c.status) ≡ true
    → is_usable c false t ≡ is_usable (refresh p c t).0 false t
unfolding is_usable refresh
usable-refresh p c t h = ground arith

available-offered :
    (p : CooldownPolicy) (cs : List CredentialRuntime) (t : ℕ)
    → available cs t ≡ offered p (settled cs) t
available-offered p [] t = refl
available-offered p (c ∷ cs) t = elim (Bool-cases (not (is_unhealthy c.status))) [
  | inl stays ↦ rw stays (
      ap (λ b. b || available cs t) (usable-refresh p c t stays)
      ∙ ap (λ b. is_usable (refresh p c t).0 false t || b) (available-offered p cs t))
  | inr recovers ↦
      rw recovers
        (ap (λ b. b || available cs t) (usable-unhealthy c t recovers) ∙ available-offered p cs t)
]

IsExact-same :
    (f g : ℕ → Bool) (moment : ℕ) (o : Option ℕ)
    → ((t : ℕ) → f t ≡ g t)
    → IsExact f moment o
    → IsExact g moment o
IsExact-same f g moment none same h = λ t low. sym (same t) ∙ h t low
IsExact-same f g moment (some wait) same h =
    (sym (same (moment + wait)) ∙ h.0, λ t low early. sym (same t) ∙ h.1 t low early)

-- The waiting time of a provider is exact for the keys that are not unhealthy. Either one of them is
-- usable now and there is no wait; or there is none because none of them ever will be usable; or a
-- selection after just that time, which refreshes the keys, finds a usable one, and no earlier one
-- does. An unhealthy key, which a refresh may bring back sooner, is not counted.
pub next_available_in-IsExact :
    (pool : CredentialPool) (provider_id : String) (moment : ℕ)
    → let result = next_available_in pool provider_id moment in
      let keys = settled (for_provider result.0 provider_id) in
      ((offered pool.policy keys moment ≡ true) × (result.1 ≡ none))
      ⊎ ((offered pool.policy keys moment ≡ false)
          × IsExact (offered pool.policy keys) moment result.1)
unfolding next_available_in for_provider
next_available_in-IsExact pool provider_id moment = elim (shortest_wait-IsExact keys moment) [
  | inl (now, no_wait) ↦ inl (sym (same moment) ∙ now, no_wait)
  | inr (none_now, exact) ↦ inr (
    sym (same moment) ∙ none_now,
    IsExact-same (available keys) (offered pool.policy (settled keys)) moment _ same exact,
  )
]
  where
    keys : List CredentialRuntime
    keys = for_provider (next_available_in pool provider_id moment).0 provider_id

    same : (t : ℕ) → available keys t ≡ offered pool.policy (settled keys) t
    same t = available-offered pool.policy keys t
