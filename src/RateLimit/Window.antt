-- ===== src/RateLimit/Window.antt =====
-- request_limits.py: times in order, and those that a window holds.
use evidencedesk.Prelude.{
  ℕ, ◌+◌, ◌≤◌, ◌<◌, ◌≡◌, refl, sym, ap, List, [], ◌∷◌, ◌++◌, arith, leb, select, All, All-append,
  Bool-cases, inl, inr, not,
}
use evidencedesk.RateLimit.{expire}

-- The admissions in the window that ends at `now`
abbrev pub recent : ℕ → ℕ → List ℕ → List ℕ
recent window now = select (λ a. not (leb (a + window) now))

-- Times in order, none of them after `now`
abbrev pub Ascending : List ℕ → Type 0
Ascending [] = Unit
Ascending (a ∷ rest) = All (λ b. a ≤ b) rest × Ascending rest

pub Ascending-append :
    (now : ℕ) (times : List ℕ)
    → Ascending times
    → All (λ a. a ≤ now) times
    → Ascending (times ++ now ∷ [])
Ascending-append now [] h past = (tt, tt)
Ascending-append now (a ∷ rest) h past =
    (All-append _ rest (now ∷ []) h.0 (past.0, tt), Ascending-append now rest h.1 past.1)

recent-All :
    (window now : ℕ) (a : ℕ) (times : List ℕ)
    → now < a + window
    → All (λ b. a ≤ b) times
    → recent window now times ≡ times
recent-All window now a [] h later = refl
recent-All window now a (b ∷ times) h later =
    ground (arith, recent-All window now a times h later.1, later.0)

-- On times in order, the deque that is left is what the window holds.
pub expire-eq-recent :
    (window now : ℕ) (times : List ℕ)
    → Ascending times
    → expire window now times ≡ recent window now times
unfolding expire
expire-eq-recent window now [] h = refl
expire-eq-recent window now (a ∷ times) h = elim (Bool-cases (leb (a + window) now)) [
  | inl e ↦ rw e (expire-eq-recent window now times h.1)
  | inr e ↦
      rw e
        (ap (λ (r : List ℕ). a ∷ r) (sym (recent-All window now a times (ground (arith, e)) h.0)))
]

pub expire-expire :
    (window now later : ℕ) (times : List ℕ)
    → now ≤ later
    → expire window later (expire window now times) ≡ expire window later times
unfolding expire
expire-expire window now later [] h = refl
expire-expire window now later (a ∷ times) h =
    ground (arith, expire-expire window now later times h)

pub expire-append_now :
    (window now : ℕ) (times : List ℕ)
    → 0 < window
    → expire window now (times ++ now ∷ []) ≡ expire window now times ++ now ∷ []
unfolding expire
expire-append_now window now [] h = ground arith
expire-append_now window now (a ∷ times) h = ground (arith, expire-append_now window now times h)
