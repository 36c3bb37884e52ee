-- ===== src/Credentials/Pool/Selection.antt =====
-- The keys that the pool hands out.
use zk_ai.Prelude.{
  ℕ, ◌+◌, ◌≡◌, refl, ap, subst, ◌∙◌, inl, inr, Bool-cases, String, Bool, true, false, Option, none,
  some, List, [], ◌∷◌, str_eq, one_of, if◌then◌else◌, arith, All, All-append,
}
use zk_ai.Prelude.Dict.{Dict, lookup, insert, lookup-insert, lookup-insert_self}
use zk_ai.Credentials.Cooldown.{CooldownPolicy}
use zk_ai.Credentials.Runtime.{CredentialRuntime, is_usable}
use zk_ai.Credentials.Health.{refresh}
use zk_ai.Credentials.Pool.{
  CredentialPool, ids_of, sweep, sweep_one, with_room, limited, pin_or, take_pinned, pinned_first,
  pin, apply_pin, apply_affinity, candidates,
}
use zk_ai.Credentials.Affinity.{Binding, bound}
use zk_ai.Credentials.Pool.Reports.{change, pick, pick_from, taken, release, landed, store}
use zk_ai.Routing.Limits.{RateLimiter, remaining, is_spent}

-- Not excluded, and usable now: what the caller may expect of a key.
abbrev IsOffered : List String → Bool → ℕ → CredentialRuntime → Type 0
IsOffered excluded allow moment c =
    (one_of c.id excluded ≡ false) × (is_usable c allow moment ≡ true)

refresh-id :
    (p : CooldownPolicy) (c : CredentialRuntime) (moment : ℕ) → (refresh p c moment).0.id ≡ c.id
unfolding refresh
refresh-id p c moment = ground arith

refresh-in_flight :
    (p : CooldownPolicy) (c : CredentialRuntime) (moment : ℕ)
    → (refresh p c moment).0.in_flight ≡ c.in_flight
unfolding refresh
refresh-in_flight p c moment = ground arith

module _ (policy : CooldownPolicy) (excluded : List String) (allow : Bool) (moment : ℕ) where
  All-if :
      (P : CredentialRuntime → Type 0) (b : Bool)
      (x y : Dict CredentialRuntime × List CredentialRuntime)
      → (b ≡ true → All P x.1)
      → (b ≡ false → All P y.1)
      → All P (if b then x else y).1
  All-if P true x y hx hy = hx refl
  All-if P false x y hx hy = hy refl

  kept :
      (c : CredentialRuntime) (usable : Bool)
      → one_of c.id excluded ≡ false
      → is_usable c allow moment ≡ usable
      → All (IsOffered excluded allow moment) (if usable then c ∷ [] else [])
  kept c true out h = ((out, h), tt)
  kept c false out h = tt

  sweep_one-All :
      (id : String) (o : Option CredentialRuntime) (d : Dict CredentialRuntime)
      → All (IsOffered excluded allow moment) (sweep_one policy excluded allow moment id o d).1
  sweep_one-All id none d = tt
  sweep_one-All id (some c) d =
      All-if (IsOffered excluded allow moment) (one_of c.id excluded) _ _ (λ out. tt)
        (λ inside.
          kept (refresh policy c moment).0 (is_usable (refresh policy c moment).0 allow moment)
            (ap (λ x. one_of x excluded) (refresh-id policy c moment) ∙ inside) refl)

  sweep-All :
      (ids : List String) (d : Dict CredentialRuntime)
      → All (IsOffered excluded allow moment) (sweep policy excluded allow moment ids d).1
  unfolding sweep
  sweep-All [] d = tt
  sweep-All (id ∷ ids) d =
      let first = sweep_one policy excluded allow moment id (lookup id d) d in
      All-append (IsOffered excluded allow moment) first.1
        (sweep policy excluded allow moment ids first.0).1 (sweep_one-All id (lookup id d) d)
        (sweep-All ids first.0)

module _ (P : CredentialRuntime → Type 0) where
  with_room-All :
      (cs : List CredentialRuntime) (provider_id : String) (moment : ℕ) (limiter : RateLimiter)
      → All P cs
      → All P (with_room provider_id moment cs limiter).1
  unfolding with_room
  with_room-All [] provider_id moment limiter h = tt
  with_room-All (c ∷ cs) provider_id moment limiter h =
      let look = remaining limiter provider_id c.id c.tags moment in
      let rest = with_room-All cs provider_id moment look.0 h.1 in
      keep (is_spent look.1) (with_room provider_id moment cs look.0).1 rest
    where
      keep :
          (b : Bool) (kept : List CredentialRuntime)
          → All P kept
          → All P (if b then kept else c ∷ kept)
      keep true kept hk = hk
      keep false kept hk = (h.0, hk)

  limited-All :
      (provider_id : String) (return_cooldown : Bool) (moment : ℕ) (cs : List CredentialRuntime)
      (limiter : Option RateLimiter)
      → All P cs
      → All P (limited provider_id return_cooldown moment cs limiter).1
  limited-All provider_id return_cooldown moment cs none h = h
  limited-All provider_id true moment cs (some limiter) h = h
  limited-All provider_id false moment cs (some limiter) h =
      with_room-All cs provider_id moment limiter h

  AllSplit : Option (CredentialRuntime × List CredentialRuntime) → Type 0
  AllSplit none = Unit
  AllSplit (some (c, cs)) = P c × All P cs

  pin_or-All :
      (b : Bool) (c : CredentialRuntime) (cs : List CredentialRuntime)
      (later : Option (CredentialRuntime × List CredentialRuntime))
      → P c
      → All P cs
      → AllSplit later
      → AllSplit (pin_or b c cs later)
  unfolding AllSplit
  pin_or-All true c cs later hc hs hl = (hc, hs)
  pin_or-All false c cs none hc hs hl = tt
  pin_or-All false c cs (some (pinned, others)) hc hs hl = (hl.0, (hc, hl.1))

  take_pinned-All :
      (cs : List CredentialRuntime) (id : String) → All P cs → AllSplit (take_pinned id cs)
  unfolding take_pinned AllSplit
  take_pinned-All [] id h = tt
  take_pinned-All (c ∷ cs) id h =
      pin_or-All (str_eq c.id id) c cs (take_pinned id cs) h.0 h.1 (take_pinned-All cs id h.1)

  pinned_first-All :
      (cs : List CredentialRuntime) (split : Option (CredentialRuntime × List CredentialRuntime))
      → All P cs
      → AllSplit split
      → All P (pinned_first cs split)
  unfolding AllSplit
  pinned_first-All cs none h hs = h
  pinned_first-All cs (some (pinned, others)) h hs = hs

  pin-All : (cs : List CredentialRuntime) (o : Option String) → All P cs → All P (pin cs o)
  pin-All cs none h = h
  pin-All cs (some id) h = pinned_first-All cs (take_pinned id cs) h (take_pinned-All cs id h)

  apply_pin-All :
      (cs : List CredentialRuntime) (session_key : Option String) (moment : ℕ) (d : Dict Binding)
      → All P cs
      → All P (apply_pin cs session_key moment d).1
  apply_pin-All [] session_key moment d h = tt
  apply_pin-All (c ∷ cs) none moment d h = h
  apply_pin-All (c ∷ cs) (some session) moment d h = pin-All (c ∷ cs) (bound session moment d).1 h

pub candidates-IsOffered :
    (pool : CredentialPool) (provider_id : String) (exclude : List String) (return_cooldown : Bool)
    (session_key : Option String) (moment : ℕ)
    → All
        (IsOffered exclude return_cooldown moment)
        (candidates pool provider_id exclude return_cooldown session_key moment).1
unfolding candidates apply_affinity
candidates-IsOffered pool provider_id exclude return_cooldown session_key moment =
    let swept =
      sweep pool.policy exclude return_cooldown moment (ids_of pool provider_id) pool.credentials in
    let room = limited provider_id return_cooldown moment swept.1 pool.rate_limiter in
    let P = IsOffered exclude return_cooldown moment in
    apply_pin-All P (pool.rotation.order room.1) _ moment pool.affinity (
      pool.rotation.order_all P room.1 (
        limited-All P provider_id return_cooldown moment swept.1 pool.rate_limiter (
          sweep-All pool.policy exclude return_cooldown moment (ids_of pool provider_id)
            pool.credentials)))

-- The key comes from an entry of the pool: the same id, and as often in flight.
record Origin (before : Dict CredentialRuntime) (c : CredentialRuntime) : Type 0 where
  key : String
  entry : CredentialRuntime
  at_key : lookup key before ≡ some entry
  same_id : c.id ≡ entry.id
  same_count : c.in_flight ≡ entry.in_flight

module _ (before : Dict CredentialRuntime) where
  Descends : Dict CredentialRuntime → Type 0
  Descends d = (k : String) (c : CredentialRuntime) → lookup k d ≡ some c → Origin before c

  Origin-refresh :
      (p : CooldownPolicy) (c : CredentialRuntime) (moment : ℕ)
      → Origin before c
      → Origin before (refresh p c moment).0
  Origin-refresh p c moment o = record {
    key = o.key;
    entry = o.entry;
    at_key = o.at_key;
    same_id = refresh-id p c moment ∙ o.same_id;
    same_count = refresh-in_flight p c moment ∙ o.same_count;
  }

  Descends-insert :
      (id : String) (c : CredentialRuntime) (d : Dict CredentialRuntime)
      → Descends d
      → Origin before c
      → Descends (insert id c d)
  unfolding Descends
  Descends-insert id c d all o k e found = elim (Bool-cases (str_eq id k)) [
    | inl same ↦
        let same_key : c ≡ e = ground (arith, lookup-insert id k c d, found, same) in
        subst (Origin before) same_key o
    | inr other ↦ all k e (ground (arith, lookup-insert id k c d, found, other))
  ]

  module _ (policy : CooldownPolicy) (excluded : List String) (allow : Bool) (moment : ℕ) where
    swept_one-Origin :
        (out usable : Bool) (id : String) (c : CredentialRuntime) (d : Dict CredentialRuntime)
        → Descends d
        → Origin before c
        → let first : Dict CredentialRuntime × List CredentialRuntime =
            (if out then (d, []) else (insert id c d, if usable then c ∷ [] else [])) in
          Descends first.0 × All (Origin before) first.1
    swept_one-Origin true usable id c d all o = (all, tt)
    swept_one-Origin false true id c d all o = (Descends-insert id c d all o, (o, tt))
    swept_one-Origin false false id c d all o = (Descends-insert id c d all o, tt)

    sweep_one-Origin :
        (id : String) (found : Option CredentialRuntime) (d : Dict CredentialRuntime)
        → lookup id d ≡ found
        → Descends d
        → let first = sweep_one policy excluded allow moment id found d in
          Descends first.0 × All (Origin before) first.1
    unfolding Descends
    sweep_one-Origin id none d at_id all = (all, tt)
    sweep_one-Origin id (some c) d at_id all =
        let fresh = (refresh policy c moment).0 in
        swept_one-Origin (one_of c.id excluded) (is_usable fresh allow moment) id fresh d all
          (Origin-refresh policy c moment (all id c at_id))

    sweep-Origin :
        (ids : List String) (d : Dict CredentialRuntime)
        → Descends d
        → All (Origin before) (sweep policy excluded allow moment ids d).1
    unfolding sweep
    sweep-Origin [] d all = tt
    sweep-Origin (id ∷ ids) d all =
        let first = sweep_one policy excluded allow moment id (lookup id d) d in
        let from = sweep_one-Origin id (lookup id d) d refl all in
        All-append (Origin before) first.1 (sweep policy excluded allow moment ids first.0).1 from.1
          (sweep-Origin ids first.0 from.0)

candidates-Origin :
    (pool : CredentialPool) (provider_id : String) (exclude : List String) (return_cooldown : Bool)
    (session_key : Option String) (moment : ℕ)
    → All
        (Origin pool.credentials)
        (candidates pool provider_id exclude return_cooldown session_key moment).1
unfolding candidates apply_affinity Descends
candidates-Origin pool provider_id exclude return_cooldown session_key moment =
    let swept =
      sweep pool.policy exclude return_cooldown moment (ids_of pool provider_id) pool.credentials in
    let room = limited provider_id return_cooldown moment swept.1 pool.rate_limiter in
    let P = Origin pool.credentials in
    apply_pin-All P (pool.rotation.order room.1) _ moment pool.affinity (
      pool.rotation.order_all P room.1 (
        limited-All P provider_id return_cooldown moment swept.1 pool.rate_limiter (
          sweep-Origin pool.credentials pool.policy exclude return_cooldown moment
            (ids_of pool provider_id) pool.credentials
            (λ k c found. record {
              key = k;
              entry = c;
              at_key = found;
              same_id = refl;
              same_count = refl;
            }))))

-- What `pick` does, from the pool `before` to the pool `after`, when it hands out `c`: of the entry
-- of `c`, the count goes up by one, and releasing `c` sets it to what it was and changes nothing else.
pub record Picked (exclude : List String) (moment : ℕ) (before after : CredentialPool)
    (c : CredentialRuntime) : Type 0 where
  pub offered : IsOffered exclude false moment c
  pub key : String
  pub entry : CredentialRuntime
  pub at_key : lookup key before.credentials ≡ some entry
  pub same_id : c.id ≡ entry.id
  pub one_more : c.in_flight ≡ entry.in_flight + 1
  pub noted : c.last_used_at ≡ some moment
  pub stored : lookup c.id after.credentials ≡ some c
  pub returned :
      lookup c.id (release after c.id).credentials ≡ some (record c { in_flight = entry.in_flight })

pub IsPicked :
    List String
    → ℕ
    → CredentialPool
    → List CredentialRuntime
    → CredentialPool
    → Option CredentialRuntime
    → Type 0
IsPicked exclude moment before found after none = found ≡ []
IsPicked exclude moment before found after (some c) = Picked exclude moment before after c

release-lookup :
    (pool : CredentialPool) (id : String) (c : CredentialRuntime)
    → lookup id pool.credentials ≡ some c
    → lookup id (release pool id).credentials ≡ some (landed c)
unfolding release
release-lookup pool id c at_id =
    ap (λ o. lookup id (change id pool landed o).credentials) at_id
    ∙ lookup-insert_self id (landed c) pool.credentials

pick_from-IsPicked :
    (before pool : CredentialPool) (cs : List CredentialRuntime) (exclude : List String)
    (moment : ℕ)
    → All (IsOffered exclude false moment) cs
    → All (Origin before.credentials) cs
    → let result = pick_from (pool, cs) moment in
      IsPicked exclude moment before cs result.0 result.1
unfolding IsPicked is_usable
pick_from-IsPicked before pool [] exclude moment h o = refl
pick_from-IsPicked before pool (c ∷ cs) exclude moment h o =
    let stored = lookup-insert_self c.id (taken c moment) pool.credentials in
    let origin = o.0 in
    record {
      offered = h.0;
      key = origin.key;
      entry = origin.entry;
      at_key = origin.at_key;
      same_id = origin.same_id;
      one_more = ap (λ (n : ℕ). n + 1) origin.same_count;
      noted = refl;
      stored = stored;
      returned =
          release-lookup (store pool c.id (taken c moment)) c.id (taken c moment) stored
          ∙ ap (λ (n : ℕ). some (record (taken c moment) { in_flight = n }))
              (let count : c.in_flight ≡ origin.entry.in_flight = origin.same_count in
                omega (arith, count));
    }

-- A key that `pick` hands out is usable, not excluded and used at this moment. In the pool that is
-- left it is in flight once more than in the entry of its id that it comes from; releasing it sets
-- the count to what it was there and leaves the rest of the key alone. `pick` hands out none only
-- if `candidates` offers none.
pub pick-IsPicked :
    (pool : CredentialPool) (provider_id : String) (exclude : List String) (moment : ℕ)
    → let result = pick pool provider_id exclude moment in
      let found = (candidates pool provider_id exclude false none moment).1 in
      IsPicked exclude moment pool found result.0 result.1
unfolding pick
pick-IsPicked pool provider_id exclude moment =
    let found = candidates pool provider_id exclude false none moment in
    pick_from-IsPicked pool found.0 found.1 exclude moment
      (candidates-IsOffered pool provider_id exclude false none moment)
      (candidates-Origin pool provider_id exclude false none moment)
