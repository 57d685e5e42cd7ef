-- ===== src/Python/Lines.antt =====
-- `str.splitlines`, and `" ".join`.
use evidencedesk.Prelude.{
  ℕ, Text, Bool, false, List, [], ◌∷◌, ◌&&◌, ◌||◌, ◌==◌, leb, if◌then◌else◌, ◌≡◌, refl, codes,
}

abbrev pub is_line_break : ℕ → Bool
is_line_break c =
    (leb 10 c && leb c 13) || (leb 28 c && leb c 30) || c == 0x85 || c == 0x2028 || c == 0x2029

-- The pieces between the line breaks: the first and the others. `cr` tells of a carriage return
-- before, with which a newline is one break.
unfoldable pub pieces_from : Bool → Text → Text × List Text
pieces_from cr [] = ([], [])
pieces_from cr (c ∷ s) =
    let (first, rest) = pieces_from (c == 13) s in
    if cr && c == 10
    then (first, rest)
    else if is_line_break c
    then ([], first ∷ rest)
    else (c ∷ first, rest)

-- A break at the end starts no line.
unfoldable pub without_last_empty : List Text → List Text
without_last_empty [] = []
without_last_empty ([] ∷ []) = []
without_last_empty ((c ∷ w) ∷ []) = (c ∷ w) ∷ []
without_last_empty (w ∷ v ∷ rest) = w ∷ without_last_empty (v ∷ rest)

unfoldable pub split_lines : Text → List Text
unfolding pieces_from without_last_empty
split_lines s = let (first, rest) = pieces_from false s in without_last_empty (first ∷ rest)

three_lines : split_lines (codes "a\r\nb\n\nc\n") ≡ codes "a" ∷ codes "b" ∷ [] ∷ codes "c" ∷ []
unfolding split_lines
three_lines = refl
