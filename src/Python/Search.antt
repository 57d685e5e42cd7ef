-- ===== src/Python/Search.antt =====
-- `s in t` on strings and sequences, and `separator.join`.
use evidencedesk.Prelude.{
  ℕ, Text, Bool, true, false, List, [], ◌∷◌, ◌++◌, ◌||◌, ◌==◌, ◌≡◌, refl, ap, arith, and_true,
  or_true, inl, inr, codes,
}
use evidencedesk.Python.Strings.{starts_with}

-- `needle in text`
unfoldable pub within : Text → Text → Bool
unfolding starts_with
within needle [] = starts_with [] needle
within needle (c ∷ s) = starts_with (c ∷ s) needle || within needle s

-- `n in numbers`
unfoldable pub has_number : ℕ → List ℕ → Bool
has_number n [] = false
has_number n (m ∷ rest) = n == m || has_number n rest

-- `separator.join(parts)`, the separator being one character
unfoldable pub joined : ℕ → List Text → Text
joined separator [] = []
joined separator (w ∷ []) = w
joined separator (w ∷ v ∷ rest) = w ++ separator ∷ joined separator (v ∷ rest)

-- The text has the needle in it, with something before it and something after it.
abbrev pub Occurs : Text → Text → Type 0
Occurs needle s = (before : Text) × (after : Text) × (s ≡ before ++ needle ++ after)

pub starts_with-Occurs :
    (needle s : Text) → starts_with s needle ≡ true → (after : Text) × (s ≡ needle ++ after)
unfolding starts_with
starts_with-Occurs [] s e = (s, refl)
starts_with-Occurs (d ∷ t) [] e = cc
starts_with-Occurs (d ∷ t) (c ∷ s) e =
    let (head, tail) = and_true (c == d) (starts_with s t) e in
    let (after, rest) = starts_with-Occurs t s tail in (after, joined_on after head rest)
  where
    joined_on : (after : Text) → (c == d) ≡ true → s ≡ t ++ after → c ∷ s ≡ d ∷ t ++ after
    joined_on after h k = ground (arith, h, k)

pub within-Occurs : (needle s : Text) → within needle s ≡ true → Occurs needle s
unfolding within
within-Occurs needle [] e = let (after, f) = starts_with-Occurs needle [] e in ([], after, f)
within-Occurs needle (c ∷ s) e = elim (or_true (starts_with (c ∷ s) needle) (within needle s) e) [
  | inl h ↦ let (after, f) = starts_with-Occurs needle (c ∷ s) h in ([], after, f)
  | inr h ↦
      let (before, after, f) = within-Occurs needle s h in
      (c ∷ before, after, ap (λ (r : Text). c ∷ r) f)
]

found_inside : within (codes "bc") (codes "abcd") ≡ true
unfolding within starts_with
found_inside = refl
