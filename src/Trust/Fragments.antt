-- ===== src/Trust/Fragments.antt =====
-- trust_boundaries.py: the texts that `untrusted_document_fragment_indexes` does not block.
use evidencedesk.Prelude.{
  ℕ, suc, Text, Bool, true, false, List, [], ◌∷◌, ◌++◌, ◌&&◌, not, ◌==◌, ◌≡◌, refl, ◌⊎◌, inl, inr,
  Bool-cases, arith, All, if◌then◌else◌, subst, sym,
}
use evidencedesk.Python.Strings.{is_blank}
use evidencedesk.Python.Search.{has_number, joined}
use evidencedesk.Trust.{
  TextHost, is_untrusted_document_instruction, indexes_where, remaining, some_left,
  untrusted_document_fragment_indexes,
}

abbrev Covers : List ℕ → List ℕ → Type 0
Covers blocked found = (m : ℕ) → has_number m found ≡ true → has_number m blocked ≡ true

-- The texts of the list that satisfy `f` have blocked indexes, from `n` on.
abbrev CoversTexts : (Text → Bool) → List ℕ → ℕ → List Text → Type 0
CoversTexts f blocked n [] = Unit
CoversTexts f blocked n (s ∷ rest) =
    ((f s ≡ false) ⊎ (has_number n blocked ≡ true)) × CoversTexts f blocked (suc n) rest

has_number_head : (n : ℕ) (rest : List ℕ) → has_number n (n ∷ rest) ≡ true
unfolding has_number
has_number_head n rest = grind arith

has_number_tail :
    (m n : ℕ) (rest : List ℕ) → has_number m rest ≡ true → has_number m (n ∷ rest) ≡ true
unfolding has_number
has_number_tail m n rest e = elim (Bool-cases (m == n)) [ inl f ↦ rw f refl | inr f ↦ rw f e ]

Covers-CoversTexts :
    (f : Text → Bool) (blocked : List ℕ) (n : ℕ) (values : List Text)
    → Covers blocked (indexes_where f n values)
    → CoversTexts f blocked n values
unfolding indexes_where
Covers-CoversTexts f blocked n [] h = tt
Covers-CoversTexts f blocked n (s ∷ rest) h = elim (Bool-cases (f s)) [
  | inl e ↦
      let k =
        subst
          (λ b.
            Covers blocked
              (if b then n ∷ indexes_where f (suc n) rest else indexes_where f (suc n) rest))
          e h in
      (
        inr (k n (has_number_head n (indexes_where f (suc n) rest))),
        Covers-CoversTexts f blocked (suc n) rest
            (λ m g. k m (has_number_tail m n (indexes_where f (suc n) rest) g)),
      )
  | inr e ↦
      let k =
        subst
          (λ b.
            Covers blocked
              (if b then n ∷ indexes_where f (suc n) rest else indexes_where f (suc n) rest))
          e h in
      (inl e, Covers-CoversTexts f blocked (suc n) rest k)
]

has_number-append_left :
    (m : ℕ) (a b : List ℕ) → has_number m a ≡ true → has_number m (a ++ b) ≡ true
unfolding has_number
has_number-append_left m [] b e = cc
has_number-append_left m (n ∷ a) b e = elim (Bool-cases (m == n)) [
  | inl f ↦ rw f refl
  | inr f ↦ rw f (has_number-append_left m a b (rw f at e))
]

has_number-append_right :
    (m : ℕ) (a b : List ℕ) → has_number m b ≡ true → has_number m (a ++ b) ≡ true
has_number-append_right m [] b e = e
has_number-append_right m (n ∷ a) b e =
    has_number_tail m n (a ++ b) (has_number-append_right m a b e)

remaining-All :
    (f : Text → Bool) (blocked : List ℕ) (n : ℕ) (values : List Text)
    → CoversTexts f blocked n values
    → All (λ (s : Text). f s ≡ false) (remaining blocked n values)
unfolding remaining
remaining-All f blocked n [] h = tt
remaining-All f blocked n (s ∷ rest) (h, hs) =
    elim (Bool-cases (not (has_number n blocked) && not (is_blank s))) [
      | inl e ↦ rw e (go h e, remaining-All f blocked (suc n) rest hs)
      | inr e ↦ rw e (remaining-All f blocked (suc n) rest hs)
    ]
  where
    go :
        (f s ≡ false) ⊎ (has_number n blocked ≡ true)
        → (not (has_number n blocked) && not (is_blank s)) ≡ true
        → f s ≡ false
    go (inl g) e = g
    go (inr g) e = cc (rw g at e)

remaining_none :
    (blocked : List ℕ) (n : ℕ) (values : List Text)
    → CoversTexts (λ s. not (is_blank s)) blocked n values
    → remaining blocked n values ≡ []
unfolding remaining
remaining_none blocked n [] h = refl
remaining_none blocked n (s ∷ rest) (h, hs) = rw (go h) (remaining_none blocked (suc n) rest hs)
  where
    go :
        (not (is_blank s) ≡ false) ⊎ (has_number n blocked ≡ true)
        → (not (has_number n blocked) && not (is_blank s)) ≡ false
    go (inl g) = elim (Bool-cases (has_number n blocked)) [
      | inl e ↦ rw e refl
      | inr e ↦ rw (e, g) refl
    ]
    go (inr g) = rw g refl

-- No text is an instruction, and the texts are none, or are none when joined by newlines.
abbrev pub AreSafe : TextHost → List Text → Type 0
AreSafe host left =
    All (λ (s : Text). is_untrusted_document_instruction host s ≡ false) left
    × ((left ≡ []) ⊎ (is_untrusted_document_instruction host (joined 10 left) ≡ false))

AreSafe-none : (host : TextHost) (left : List Text) → left ≡ [] → AreSafe host left
AreSafe-none host left e = subst (AreSafe host) (sym e) (tt, inl refl)

not_together :
    (host : TextHost) (left : List Text)
    → (some_left left && is_untrusted_document_instruction host (joined 10 left)) ≡ false
    → (left ≡ []) ⊎ (is_untrusted_document_instruction host (joined 10 left) ≡ false)
not_together host [] e = inl refl
not_together host (s ∷ rest) e = inr e

-- Of the texts that are not blank, those whose indexes `untrusted_document_fragment_indexes` does not
-- give are no instructions, and joined by newlines they are none either.
pub untrusted_document_fragment_indexes-AreSafe :
    (host : TextHost) (values : List Text)
    → AreSafe host (remaining (untrusted_document_fragment_indexes host values) 0 values)
unfolding untrusted_document_fragment_indexes
untrusted_document_fragment_indexes-AreSafe host values =
    let untrusted = is_untrusted_document_instruction host in
    let blocked = indexes_where untrusted 0 values in
    let inked = indexes_where (λ s. not (is_blank s)) 0 values in
    elim (Bool-cases (
      some_left (remaining blocked 0 values)
      && untrusted (joined 10 (remaining blocked 0 values)))) [
        | inl e ↦ rw e (
            AreSafe-none host (remaining (blocked ++ inked) 0 values) (
              remaining_none (blocked ++ inked) 0 values (
                Covers-CoversTexts (λ s. not (is_blank s)) (blocked ++ inked) 0 values
                  (λ m h. has_number-append_right m blocked inked h))))
        | inr e ↦ rw e (
          remaining-All untrusted blocked 0 values
              (Covers-CoversTexts untrusted blocked 0 values (λ m h. h)),
          not_together host (remaining blocked 0 values) e,
        )
      ]
