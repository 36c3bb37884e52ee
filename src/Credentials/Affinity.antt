-- ===== src/Credentials/Affinity.antt =====
-- app/credentials/pool.py and app/routing/scheduler.py: the map from a session to what served it
-- last, an `OrderedDict` whose oldest entries are dropped beyond a limit.
use zk_ai.Prelude.{
  ℕ, ◌≤◌, ◌≡◌, ap, ◌∙◌, String, Option, none, some, [], ◌∷◌, ◌++◌, ltb, leb, length, if◌then◌else◌,
  arith,
}
use zk_ai.Prelude.Dict.{Dict, lookup, remove, lookup-remove, str_refl}
use zk_ai.Prelude.Text.{is_empty}

-- What served the session, and when the binding expires.
abbrev pub Binding : Type 0
Binding = String × ℕ

-- `while len(self._affinity) > limit: self._affinity.popitem(last=False)`
unfoldable pub drop_oldest : ℕ → Dict Binding → Dict Binding
drop_oldest limit [] = []
drop_oldest limit (entry ∷ d) =
    let rest = drop_oldest limit d in if ltb limit (length (entry ∷ d)) then rest else entry ∷ d

-- The entry goes to the end, its old place is given up.
unfoldable pub bind : ℕ → String → Binding → Dict Binding → Dict Binding
unfolding drop_oldest
bind limit session binding d = drop_oldest limit (remove session d ++ (session, binding) ∷ [])

-- `not session_key`
abbrev pub names_session : Option String → Option String
names_session none = none
names_session (some s) = if is_empty s then none else some s

abbrev pub alive : String → ℕ → Dict Binding → Option Binding → Dict Binding × Option String
alive session moment d none = (d, none)
alive session moment d (some (target, expires)) =
    if leb expires moment then (remove session d, none) else (d, some target)

-- What the session is bound to: an expired binding is dropped.
unfoldable pub bound : String → ℕ → Dict Binding → Dict Binding × Option String
bound session moment d = alive session moment d (lookup session d)

length-drop_oldest : (limit : ℕ) (d : Dict Binding) → length (drop_oldest limit d) ≤ limit
unfolding drop_oldest
length-drop_oldest limit [] = omega arith
length-drop_oldest limit (entry ∷ d) = ground (arith, length-drop_oldest limit d)

lookup-append :
    (d : Dict Binding) (session : String) (binding : Binding)
    → lookup session d ≡ none
    → lookup session (d ++ (session, binding) ∷ []) ≡ some binding
unfolding lookup
lookup-append [] session binding absent = ground (arith, str_refl session)
lookup-append ((other, b) ∷ d) session binding absent =
    ground (arith, lookup-append d session binding)

lookup-drop_oldest :
    (d : Dict Binding) (limit : ℕ) (session : String) (binding : Binding)
    → 1 ≤ limit
    → lookup session d ≡ none
    → lookup session (drop_oldest limit (d ++ (session, binding) ∷ [])) ≡ some binding
unfolding drop_oldest lookup
lookup-drop_oldest [] limit session binding h absent = ground (arith, str_refl session)
lookup-drop_oldest ((other, b) ∷ d) limit session binding h absent =
    ground (arith, lookup-drop_oldest d limit session binding h, lookup-append d session binding)

-- The map never exceeds its limit after a binding, whatever it held before.
pub bind-bounded :
    (limit : ℕ) (session : String) (binding : Binding) (d : Dict Binding)
    → length (bind limit session binding d) ≤ limit
unfolding bind
bind-bounded limit session binding d =
    length-drop_oldest limit (remove session d ++ (session, binding) ∷ [])

lookup-remove_self :
    (session : String) (d : Dict Binding) → lookup session (remove session d) ≡ none
lookup-remove_self session d = rw (lookup-remove session session d, str_refl session)

pub lookup-bind :
    (limit : ℕ) (session : String) (binding : Binding) (d : Dict Binding)
    → 1 ≤ limit
    → lookup session (bind limit session binding d) ≡ some binding
unfolding bind
lookup-bind limit session binding d h =
    lookup-drop_oldest (remove session d) limit session binding h (lookup-remove_self session d)

-- A session that was just bound, under a limit of at least one, is found with what it was bound to
-- until the binding expires, and is forgotten from then on.
pub bound-bind :
    (limit : ℕ) (session target : String) (expires moment : ℕ) (d : Dict Binding)
    → 1 ≤ limit
    → (bound session moment (bind limit session (target, expires) d)).1
      ≡ (if leb expires moment then none else some target)
unfolding bound
bound-bind limit session target expires moment d h =
    ap (λ o. (alive session moment (bind limit session (target, expires) d) o).1)
      (lookup-bind limit session (target, expires) d h)
    ∙ found
  where
    found :
        (alive session moment (bind limit session (target, expires) d) (some (target, expires))).1
        ≡ (if leb expires moment then none else some target)
    found = ground arith
