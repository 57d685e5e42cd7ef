-- ===== src/Python/Strings.antt =====
-- `str` methods, on code points.
use evidencedesk.Prelude.{
  ℕ, ◌≡◌, refl, arith, ◌+◌, ◌-◌, Text, Bool, true, false, [], ◌∷◌, ◌&&◌, ◌||◌, ◌==◌, leb, and_true,
  if◌then◌else◌,
}

-- `str.isspace` of one character: the code points at which `str.strip()` and `\s` cut.
unfoldable pub is_space : ℕ → Bool
is_space c =
    (leb 9 c && leb c 13)
    || (leb 28 c && leb c 32)
    || c == 0x85
    || c == 0xa0
    || c == 0x1680
    || (leb 0x2000 c && leb c 0x200a)
    || c == 0x2028
    || c == 0x2029
    || c == 0x202f
    || c == 0x205f
    || c == 0x3000

unfoldable pub lstrip : Text → Text
unfolding is_space
lstrip [] = []
lstrip (c ∷ s) = let rest = lstrip s in if is_space c then rest else c ∷ s

unfoldable pub rstrip : Text → Text
unfolding is_space
rstrip [] = []
rstrip (c ∷ s) = elim (rstrip s) [ [] ↦ if is_space c then [] else c ∷ [] | d ∷ r ↦ c ∷ d ∷ r ]

-- `s.strip()`
unfoldable pub strip : Text → Text
unfolding lstrip rstrip
strip s = rstrip (lstrip s)

-- `s.replace(a, b)` for single characters
unfoldable pub replace : ℕ → ℕ → Text → Text
replace a b [] = []
replace a b (c ∷ s) = (if c == a then b else c) ∷ replace a b s

-- `c in s`
unfoldable pub contains : ℕ → Text → Bool
contains a [] = false
contains a (c ∷ s) = c == a || contains a s

-- `s == t`
unfoldable pub same : Text → Text → Bool
same [] [] = true
same [] (d ∷ t) = false
same (c ∷ s) [] = false
same (c ∷ s) (d ∷ t) = c == d && same s t

-- `s.startswith(t)`
unfoldable pub starts_with : Text → Text → Bool
starts_with t [] = true
starts_with [] (d ∷ t) = false
starts_with (c ∷ s) (d ∷ t) = c == d && starts_with s t

-- `s.lower()` on ASCII letters. No other character lowers to one of the letters of a suffix that
-- the code knows.
unfoldable pub lower : Text → Text
lower [] = []
lower (c ∷ s) = (if leb 65 c && leb c 90 then c + 32 else c) ∷ lower s

-- `not s.strip()`
unfoldable pub is_blank : Text → Bool
unfolding strip
is_blank s = elim (strip s) [ [] ↦ true | c ∷ r ↦ false ]

-- `s.upper()` on ASCII letters
unfoldable pub upper : Text → Text
upper [] = []
upper (c ∷ s) = (if leb 97 c && leb c 122 then c - 32 else c) ∷ upper s

pub same_refl : (s : Text) → same s s ≡ true
unfolding same
same_refl [] = refl
same_refl (c ∷ s) = ground (arith, same_refl s)

pub same_sound : (s t : Text) → same s t ≡ true → s ≡ t
unfolding same
same_sound [] [] e = refl
same_sound [] (d ∷ t) e = cc
same_sound (c ∷ s) [] e = cc
same_sound (c ∷ s) (d ∷ t) e =
    let (head, tail) = and_true (c == d) (same s t) e in joined_on head (same_sound s t tail)
  where
    joined_on : (c == d) ≡ true → s ≡ t → c ∷ s ≡ d ∷ t
    joined_on h k = ground (arith, h, k)
