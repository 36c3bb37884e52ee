-- ===== src/Routing/Limits/Windows.antt =====
-- Pruning a bucket: the prefix that the code drops is exactly what has left the window.
use zk_ai.Prelude.{
  ℕ, ◌≤◌, ◌≡◌, refl, false, not, List, [], ◌∷◌, keep_if, arith, Bool-cases, inl, inr, ap, sym, ◌∙◌,
}
use zk_ai.Routing.Limits.{Bucket, is_expired, own_time, hit_time, drop_expired, prune}

module _ {A : Type 0} (timestamp : A → ℕ) where
  -- The timestamps are in the order of the calls.
  abbrev pub IsOrdered : List A → Type 0
  IsOrdered [] = Unit
  IsOrdered (e ∷ []) = Unit
  IsOrdered (e ∷ f ∷ es) = (timestamp e ≤ timestamp f) × IsOrdered (f ∷ es)

  pub IsOrdered-tail : (e : A) (es : List A) → IsOrdered (e ∷ es) → IsOrdered es
  IsOrdered-tail e [] h = tt
  IsOrdered-tail e (f ∷ es) h = h.1

  module _ (window moment : ℕ) where
    -- The entries inside the window.
    abbrev pub inside : List A → List A
    inside = keep_if (λ e. not (is_expired window moment (timestamp e)))

    none_expired :
        (e : A) (es : List A)
        → IsOrdered (e ∷ es)
        → is_expired window moment (timestamp e) ≡ false
        → inside (e ∷ es) ≡ e ∷ es
    none_expired e [] h live = rw live
    none_expired e (f ∷ es) h live = rw live (ap (◌∷◌ e) (none_expired f es h.1 (ground arith)))

    drop_live :
        (e : A) (es : List A)
        → is_expired window moment (timestamp e) ≡ false
        → drop_expired timestamp window moment (e ∷ es) ≡ e ∷ es
    unfolding drop_expired
    drop_live e es live = rw live

    pub drop_expired-inside :
        (es : List A) → IsOrdered es → drop_expired timestamp window moment es ≡ inside es
    unfolding drop_expired
    drop_expired-inside [] h = refl
    drop_expired-inside (e ∷ es) h = elim (Bool-cases (is_expired window moment (timestamp e))) [
      | inl old ↦ rw old (drop_expired-inside es (IsOrdered-tail e es h))
      | inr live ↦ drop_live e es live ∙ sym (none_expired e es h live)
    ]

-- If the entries of a bucket are in the order of their times, dropping the expired prefix keeps
-- exactly the requests and the token counts that are inside the window.
prune-inside :
    (b : Bucket) (window moment : ℕ)
    → IsOrdered own_time b.hits
    → IsOrdered hit_time b.token_hits
    → prune b window moment ≡ record {
      hits = inside own_time window moment b.hits;
      token_hits = inside hit_time window moment b.token_hits;
    }
unfolding prune
prune-inside b window moment h k = rw (
  drop_expired-inside own_time window moment b.hits h,
  drop_expired-inside hit_time window moment b.token_hits k,
)
