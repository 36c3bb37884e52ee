-- ===== src/Credentials/Cooldown/Scopes.antt =====
-- The table of throttle scopes: a supplied entry overrides one kind, and a typo degrades it.
use zk_ai.Prelude.{
  ◌≡◌, refl, inl, inr, String, true, false, Option, none, some, List, [], ◌∷◌, ◌++◌, ◌∙◌, str_eq,
  one_of, ap, Bool-cases,
}
use zk_ai.Prelude.Dict.{Dict, lookup, insert, lookup-insert, lookup-insert_self}
use zk_ai.Credentials.Cooldown.{
  CooldownPolicy, valid_scopes, valid_or_credential, scope_of, merge_scopes, throttle_scope,
}

valid_or_credential-valid : (s : String) → one_of (valid_or_credential s) valid_scopes ≡ true
unfolding valid_or_credential
valid_or_credential-valid s = elim (Bool-cases (one_of s valid_scopes)) [
  | inl known ↦ rw known known
  | inr typo ↦ rw typo
]

valid_or_credential_idem :
    (s : String) → valid_or_credential (valid_or_credential s) ≡ valid_or_credential s
unfolding valid_or_credential
valid_or_credential_idem s = elim (Bool-cases (one_of s valid_scopes)) [
  | inl known ↦ rw (known, known)
  | inr typo ↦ rw typo
]

scope_of-valid : (o : Option String) → one_of (scope_of o) valid_scopes ≡ true
scope_of-valid none = refl
scope_of-valid (some s) = valid_or_credential-valid s

throttle_scope-valid :
    (p : CooldownPolicy) (kind : String) → one_of (throttle_scope p kind) valid_scopes ≡ true
unfolding throttle_scope
throttle_scope-valid p kind = scope_of-valid (lookup kind p.throttle_scopes)

merge_scopes-append :
    (xs ys : List (String × String)) (d : Dict String)
    → merge_scopes d (xs ++ ys) ≡ merge_scopes (merge_scopes d xs) ys
unfolding merge_scopes
merge_scopes-append [] ys d = refl
merge_scopes-append ((k, s) ∷ xs) ys d =
    merge_scopes-append xs ys (insert k (valid_or_credential s) d)

-- No entry of the list is for the kind.
abbrev pub Absent : String → List (String × String) → Type 0
Absent kind [] = Unit
Absent kind ((k, s) ∷ xs) = (str_eq k kind ≡ false) × Absent kind xs

lookup-merge_scopes-Absent :
    (kind : String) (xs : List (String × String)) (d : Dict String)
    → Absent kind xs
    → lookup kind (merge_scopes d xs) ≡ lookup kind d
unfolding merge_scopes
lookup-merge_scopes-Absent kind [] d h = refl
lookup-merge_scopes-Absent kind ((k, s) ∷ xs) d h =
    lookup-merge_scopes-Absent kind xs (insert k (valid_or_credential s) d) h.1
    ∙ rw (lookup-insert k kind (valid_or_credential s) d, h.0)

-- The policy with these entries supplied for its table.
abbrev pub supplied : CooldownPolicy → List (String × String) → CooldownPolicy
supplied p xs = record p { throttle_scopes = merge_scopes p.throttle_scopes xs }

last_counts :
    (before after : List (String × String)) (kind scope : String) (d : Dict String)
    → Absent kind after
    → lookup kind (merge_scopes d (before ++ (kind, scope) ∷ after))
      ≡ some (valid_or_credential scope)
unfolding merge_scopes
last_counts before after kind scope d h =
    ap (lookup kind) (merge_scopes-append before ((kind, scope) ∷ after) d)
    ∙ lookup-merge_scopes-Absent kind after _ h
    ∙ lookup-insert_self kind (valid_or_credential scope) (merge_scopes d before)

-- Of the entries supplied for a kind of throttle the last one counts: its scope if that is one of
-- the three, else `credential`. A kind that is not supplied keeps its scope; and whatever the
-- table holds, the scope in use is one of the three.
throttle_scope-merge_scopes :
    (p : CooldownPolicy) (before after : List (String × String)) (kind scope : String)
    → Absent kind after
    → (throttle_scope (supplied p (before ++ (kind, scope) ∷ after)) kind
        ≡ valid_or_credential scope)
      × (throttle_scope (supplied p after) kind ≡ throttle_scope p kind)
      × (one_of (throttle_scope p kind) valid_scopes ≡ true)
unfolding throttle_scope
throttle_scope-merge_scopes p before after kind scope h = (
  ap scope_of (last_counts before after kind scope p.throttle_scopes h)
      ∙ valid_or_credential_idem scope,
  ap scope_of (lookup-merge_scopes-Absent kind after p.throttle_scopes h),
  throttle_scope-valid p kind,
)
