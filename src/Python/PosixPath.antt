-- ===== src/Python/PosixPath.antt =====
-- `pathlib.PurePosixPath`: the last component of a path and its suffix.
use evidencedesk.Prelude.{
  ℕ, Text, ◌≡◌, refl, ◌∙◌, ap, false, Option, none, some, List, [], ◌∷◌, arith, ◌==◌, if◌then◌else◌,
  codes, Bool-cases, inl, inr,
}
use evidencedesk.Python.Strings.{same, contains}

-- The components between the separators, empty ones included: the first and the others.
unfoldable pub split_on : ℕ → Text → Text × List Text
split_on sep [] = ([], [])
split_on sep (c ∷ s) =
    let (w, ws) = split_on sep s in if c == sep then ([], w ∷ ws) else (c ∷ w, ws)

-- Empty components and "." are dropped, so the last of the others is the name.
abbrev pub component : Text → Text
component w = if same w (codes ".") then [] else w

unfoldable pub last_component : List Text → Text
last_component [] = []
last_component (w ∷ ws) = elim (last_component ws) [ [] ↦ component w | c ∷ r ↦ c ∷ r ]

-- `PurePosixPath(path).name`
unfoldable pub name : Text → Text
unfolding split_on last_component same
name path = let (w, ws) = split_on b'/' path in last_component (w ∷ ws)

-- What stands before and after the last dot.
unfoldable pub last_dot : Text → Option (Text × Text)
last_dot [] = none
last_dot (c ∷ s) = elim (last_dot s) [
  | none ↦ if c == b'.' then some ([], s) else none
  | some (before, after) ↦ some (c ∷ before, after)
]

abbrev dotted : Text → Text → Text
dotted (c ∷ before) (d ∷ after) = b'.' ∷ d ∷ after
dotted _ _ = []

-- `PurePosixPath(name).suffix` of a last component (Python 3.12: a dot at either end starts none)
unfoldable pub suffix : Text → Text
unfolding last_dot
suffix n = elim (last_dot n) [ none ↦ [] | some (before, after) ↦ dotted before after ]

abbrev Free : ℕ → List Text → Type 0
Free a [] = Unit
Free a (w ∷ ws) = (contains a w ≡ false) × Free a ws

split_on-Free :
    (sep : ℕ) (s : Text) → let (w, ws) = split_on sep s in (contains sep w ≡ false) × Free sep ws
unfolding split_on contains
split_on-Free sep [] = (refl, tt)
split_on-Free sep (c ∷ s) =
    let (here, rest) = split_on-Free sep s in
    elim (Bool-cases (c == sep)) [
      | inl e ↦ rw e (refl, (here, rest))
      | inr e ↦ rw e (rw e here, rest)
    ]

contains-component : (a : ℕ) (w : Text) → contains a w ≡ false → contains a (component w) ≡ false
unfolding contains
contains-component a w h = elim (Bool-cases (same w (codes "."))) [
  | inl e ↦ rw e refl
  | inr e ↦ rw e h
]

contains-last_component :
    (a : ℕ) (ws : List Text) → Free a ws → contains a (last_component ws) ≡ false
unfolding last_component contains
contains-last_component a [] h = refl
contains-last_component a (w ∷ ws) h = pick (last_component ws) (contains-last_component a ws h.1)
  where
    pick :
        (last : Text)
        → contains a last ≡ false
        → contains a (elim last [ [] ↦ component w | c ∷ r ↦ c ∷ r ]) ≡ false
    pick [] e = contains-component a w h.0
    pick (c ∷ r) e = e

-- A name holds no separator.
pub contains-name : (path : Text) → contains b'/' (name path) ≡ false
unfolding name
contains-name path =
    let (w, ws) = split_on b'/' path in
    contains-last_component b'/' (w ∷ ws) (split_on-Free b'/' path)

-- A character that the path does not hold is not in its parts, nor in its name.
split_on-others :
    (a sep : ℕ) (s : Text)
    → contains a s ≡ false
    → let (w, ws) = split_on sep s in (contains a w ≡ false) × Free a ws
unfolding split_on contains
split_on-others a sep [] h = (refl, tt)
split_on-others a sep (c ∷ s) h =
    let (here, rest) = split_on-others a sep s (ground arith) in
    elim (Bool-cases (c == sep)) [
      | inl e ↦ rw e (refl, (here, rest))
      | inr e ↦ rw e (ground arith, rest)
    ]

pub contains-name_others :
    (a : ℕ) (path : Text) → contains a path ≡ false → contains a (name path) ≡ false
unfolding name
contains-name_others a path h =
    let (w, ws) = split_on b'/' path in
    contains-last_component a (w ∷ ws) (split_on-others a b'/' path h)

split_on-free : (sep : ℕ) (s : Text) → contains sep s ≡ false → split_on sep s ≡ (s, [])
unfolding split_on contains
split_on-free sep [] h = refl
split_on-free sep (c ∷ s) h = ground (arith, split_on-free sep s)

-- A name is never ".".
component-component : (w : Text) → component (component w) ≡ component w
component-component w = elim (Bool-cases (same w (codes "."))) [
  | inl e ↦ rw e (unfold same in refl)
  | inr e ↦ rw e (rw e refl)
]

component-last_component : (ws : List Text) → component (last_component ws) ≡ last_component ws
unfolding last_component
component-last_component [] = unfold same in refl
component-last_component (w ∷ ws) = pick (last_component ws) (component-last_component ws)
  where
    pick :
        (last : Text)
        → component last ≡ last
        → component (elim last [ [] ↦ component w | c ∷ r ↦ c ∷ r ])
          ≡ elim last [ [] ↦ component w | c ∷ r ↦ c ∷ r ]
    pick [] e = component-component w
    pick (c ∷ r) e = e

last_component_one : (w : Text) → last_component (w ∷ []) ≡ component w
unfolding last_component
last_component_one w = refl

-- The name of a name is that name.
pub name-name : (path : Text) → name (name path) ≡ name path
name-name path = name_free (name path) (contains-name path) ∙ component-name path
  where
    name_free : (s : Text) → contains b'/' s ≡ false → name s ≡ component s
    name_free s h =
        unfold name in
        (ap (λ (ws : Text × List Text). last_component (ws.0 ∷ ws.1)) (split_on-free b'/' s h)
          ∙ last_component_one s)

    component-name : (p : Text) → component (name p) ≡ name p
    component-name p =
        unfold name in (let (w, ws) = split_on b'/' p in component-last_component (w ∷ ws))
