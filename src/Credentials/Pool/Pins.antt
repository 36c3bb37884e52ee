-- ===== src/Credentials/Pool/Pins.antt =====
-- Session pins: a session comes back to the key that served it, and the pins stay bounded.
use zk_ai.Prelude.{
  ℕ, ◌+◌, ◌≤◌, ◌<◌, ◌≡◌, refl, sym, ap, subst, ◌∙◌, String, Bool, true, false, ◌||◌, Option, none,
  some, List, [], ◌∷◌, map, length, leb, str_eq, one_of, if◌then◌else◌, arith, eq_iff,
}
use zk_ai.Prelude.Dict.{Dict}
use zk_ai.Prelude.Text.{is_empty}
use zk_ai.Credentials.Runtime.{CredentialRuntime}
use zk_ai.Credentials.Affinity.{Binding, bind-bounded, bound, bound-bind, names_session}
use zk_ai.Credentials.Pool.{
  CredentialPool, pin_or, take_pinned, pinned_first, pin, apply_pin, apply_affinity,
}
use zk_ai.Credentials.Pool.Reports.{note_affinity, note_named, pin_session}

-- Noting which key served a session never lets the pins exceed the pool's limit.
note_affinity-bounded :
    (pool : CredentialPool) (session_key : Option String) (id : String) (moment : ℕ)
    → length pool.affinity ≤ pool.affinity_max_sessions
    → length (note_affinity pool session_key id moment).affinity ≤ pool.affinity_max_sessions
unfolding note_affinity
note_affinity-bounded pool session_key id moment h =
    bounded (if pool.affinity_enabled then names_session session_key else none)
  where
    keep :
        (session : String) (b : Bool)
        → length (if b then pool else pin_session pool id moment session).affinity
          ≤ pool.affinity_max_sessions
    keep session true = h
    keep session false =
        bind-bounded pool.affinity_max_sessions session (id, moment + pool.affinity_ttl)
          pool.affinity

    bounded :
        (o : Option String)
        → length (note_named pool id moment o).affinity ≤ pool.affinity_max_sessions
    bounded none = h
    bounded (some session) = keep session (is_empty id)

-- The list starts with a key that has the id.
abbrev pub FrontIs : String → List CredentialRuntime → Type 0
FrontIs id [] = ⊥
FrontIs id (c ∷ cs) = c.id ≡ id

abbrev Found : String → Bool → Option (CredentialRuntime × List CredentialRuntime) → Type 0
Found id there none = there ≡ false
Found id there (some (c, cs)) = c.id ≡ id

pin_or-Found :
    (id : String) (c : CredentialRuntime) (cs : List CredentialRuntime) (b there : Bool)
    (later : Option (CredentialRuntime × List CredentialRuntime))
    → str_eq c.id id ≡ b
    → Found id there later
    → Found id (str_eq id c.id || there) (pin_or b c cs later)
pin_or-Found id c cs true there later same h = (eq_iff c.id id).0 same
pin_or-Found id c cs false there none same h = ground (arith, eq_iff c.id id, eq_iff id c.id)
pin_or-Found id c cs false there (some (pinned, others)) same h = h

take_pinned-Found :
    (cs : List CredentialRuntime) (id : String)
    → Found id (one_of id (map (λ x. x.id) cs)) (take_pinned id cs)
unfolding take_pinned
take_pinned-Found [] id = refl
take_pinned-Found (c ∷ cs) id =
    pin_or-Found id c cs (str_eq c.id id) (one_of id (map (λ x. x.id) cs)) (take_pinned id cs) refl
      (take_pinned-Found cs id)

pinned_first-Leads :
    (c : CredentialRuntime) (cs : List CredentialRuntime) (id : String)
    (split : Option (CredentialRuntime × List CredentialRuntime))
    → Found id (one_of id (map (λ x. x.id) (c ∷ cs))) split
    → one_of id (map (λ x. x.id) (c ∷ cs)) ≡ true
    → FrontIs id (pinned_first (c ∷ cs) split)
pinned_first-Leads c cs id none h there = ground (arith, h, there)
pinned_first-Leads c cs id (some (pinned, others)) h there = h

apply_pin-front :
    (ordered : List CredentialRuntime) (session id : String) (moment : ℕ) (d : Dict Binding)
    → (bound session moment d).1 ≡ some id
    → one_of id (map (λ x. x.id) ordered) ≡ true
    → FrontIs id (apply_pin ordered (some session) moment d).1
apply_pin-front [] session id moment d found there = ground (arith, there)
apply_pin-front (c ∷ cs) session id moment d found there =
    subst (λ o. FrontIs id (pin (c ∷ cs) o)) (sym found)
      (pinned_first-Leads c cs id (take_pinned id (c ∷ cs)) (take_pinned-Found (c ∷ cs) id) there)

-- A session that a key has just served finds this key first among those that are offered to it, as
-- long as the pin has not expired and the key is among them at all.
pub note_affinity-leads :
    (pool : CredentialPool) (session id : String) (noted moment : ℕ)
    (ordered : List CredentialRuntime)
    → pool.affinity_enabled ≡ true
    → is_empty session ≡ false
    → is_empty id ≡ false
    → 1 ≤ pool.affinity_max_sessions
    → moment < noted + pool.affinity_ttl
    → one_of id (map (λ x. x.id) ordered) ≡ true
    → FrontIs id
        (apply_affinity
          (note_affinity pool (some session) id noted)
          ordered
          (some session)
          moment).1
unfolding apply_affinity note_affinity
note_affinity-leads pool session id noted moment ordered enabled named known room alive there =
    subst (λ p. FrontIs id (apply_affinity p ordered (some session) moment).1) (sym pinned)
      (subst (λ o. FrontIs id (apply_pin ordered o moment pool'.affinity).1) (sym session_is)
        (apply_pin-front ordered session id moment pool'.affinity found there))
  where
    pool' : CredentialPool
    pool' = pin_session pool id noted session

    session_is :
        (if pool.affinity_enabled then names_session (some session) else none) ≡ some session
    session_is = ground arith

    pinned : note_affinity pool (some session) id noted ≡ pool'
    pinned = ap (note_named pool id noted) session_is ∙ ap (λ b. if b then pool else pool') known

    fresh : leb (noted + pool.affinity_ttl) moment ≡ false
    fresh = ground arith

    found : (bound session moment pool'.affinity).1 ≡ some id
    found =
        bound-bind pool.affinity_max_sessions session id (noted + pool.affinity_ttl) moment
          pool.affinity room
        ∙ ap (λ b. if b then none else some id) fresh
