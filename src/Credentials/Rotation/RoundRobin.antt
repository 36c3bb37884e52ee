-- ===== src/Credentials/Rotation/RoundRobin.antt =====
-- app/credentials/rotation.py: `RoundRobinRotation`, with its cursor for each priority, and
-- `WeightedRotation`. The cursor is filed under the number, the code files it under its text.
use zk_ai.Prelude.{ℕ, ◌+◌, ◌%◌, max, List, [], ◌∷◌, ◌++◌, length, ◌==◌, if◌then◌else◌}
use mathlib.Core.List.{Perm}
use mathlib.Core.List.Perm
use zk_ai.Prelude.Sort.{sort_by, sort_by-Perm}
use zk_ai.Prelude.Bands.{
  Bands, Choices, rotate, rotate-Perm, flat, sorted_bands, sorted_bands-flat, draw_bands,
  draw_bands-flat,
}
use zk_ai.Credentials.Runtime.{CredentialRuntime}
use zk_ai.Credentials.Rotation.Sorted.{by_id}

abbrev key_priority : CredentialRuntime → ℕ
key_priority c = c.priority

-- `_cursor`
abbrev pub KeyCursor : Type 0
KeyCursor = ℕ → ℕ

abbrev pub put_cursor : KeyCursor → ℕ → ℕ → KeyCursor
put_cursor cursor priority offset = λ p. if p == priority then offset else cursor p

-- The loop over the priorities.
unfoldable pub turn_bands : Bands CredentialRuntime → KeyCursor → List CredentialRuntime × KeyCursor
turn_bands [] cursor = ([], cursor)
turn_bands ((priority, band) ∷ bands) cursor =
    let bucket = sort_by by_id band in
    let first = cursor priority % length bucket in
    let rest = turn_bands bands (put_cursor cursor priority ((first + 1) % length bucket)) in
    (rotate first bucket ++ rest.0, rest.1)

-- `RoundRobinRotation.order`
unfoldable pub round_robin_keys :
    List CredentialRuntime → KeyCursor → List CredentialRuntime × KeyCursor
round_robin_keys keys cursor = turn_bands (sorted_bands key_priority keys) cursor

-- `WeightedRotation.order`
unfoldable pub weighted_keys : Choices → List CredentialRuntime → List CredentialRuntime
weighted_keys choices keys =
    draw_bands (λ c. max 1 c.weight) choices (sorted_bands key_priority keys)

turn_bands-flat :
    (bands : Bands CredentialRuntime) (cursor : KeyCursor)
    → Perm (turn_bands bands cursor).0 (flat bands)
unfolding turn_bands flat
turn_bands-flat [] cursor = Perm.rfl
turn_bands-flat ((priority, band) ∷ bands) cursor =
    Perm.append (Perm.trans (rotate-Perm _ (sort_by by_id band)) (sort_by-Perm by_id band))
      (turn_bands-flat bands _)

-- The round robin and the weighted draws over keys offer every key once, whatever the cursor and the
-- draws: they only reorder.
rotations-Perm :
    (keys : List CredentialRuntime) (cursor : KeyCursor) (choices : Choices)
    → Perm (round_robin_keys keys cursor).0 keys × Perm (weighted_keys choices keys) keys
unfolding round_robin_keys weighted_keys
rotations-Perm keys cursor choices = (
  Perm.trans (turn_bands-flat (sorted_bands key_priority keys) cursor)
      (sorted_bands-flat key_priority keys),
  Perm.trans (draw_bands-flat (λ c. max 1 c.weight) choices (sorted_bands key_priority keys))
      (sorted_bands-flat key_priority keys),
)
