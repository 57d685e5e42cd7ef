-- ===== src/Db/Table.antt =====
-- A table of rows with a primary key, as the SQLAlchemy sessions of the API and the worker use it.
use evidencedesk.Prelude.{
  ℕ, ◌≡◌, Option, none, some, List, [], ◌∷◌, arith, ◌==◌, if◌then◌else◌, Bool-cases, ==_iff, inl,
  inr,
}

-- What is found in a row's place once the row is `r`.
abbrev pub replaced : {R : Type 0} → R → Option R → Option R
replaced r none = none
replaced r (some _) = some r

module _ {R : Type 0} (key : R → ℕ) where
  -- `session.get(Model, id)`, or a select by primary key
  unfoldable pub find : ℕ → List R → Option R
  find k [] = none
  find k (r ∷ rows) = if key r == k then some r else find k rows

  -- what a commit writes for a loaded object: the row with its key
  unfoldable pub save : R → List R → List R
  save r [] = []
  save r (x ∷ rows) = if key x == key r then r ∷ rows else x ∷ save r rows

  pub find-save :
      (k : ℕ) (r : R) (rows : List R)
      → find k (save r rows) ≡ (if key r == k then replaced r (find k rows) else find k rows)
  unfolding find save
  find-save k r [] = ground arith
  find-save k r (x ∷ rows) = ground (arith, find-save k r rows)

  pub key-find : (k : ℕ) (rows : List R) (r : R) → find k rows ≡ some r → key r ≡ k
  unfolding find
  key-find k [] r h = cc
  key-find k (x ∷ rows) r h = ground (arith, key-find k rows r)

  -- No two rows have one key.
  abbrev pub Distinct : List R → Type 0
  Distinct [] = Unit
  Distinct (r ∷ rows) = (find (key r) rows ≡ none) × Distinct rows

  find-save-none :
      (k : ℕ) (r : R) (rows : List R) → find k rows ≡ none → find k (save r rows) ≡ none
  find-save-none k r rows h = ground (arith, find-save k r rows)

  pub Distinct-save : (r : R) (rows : List R) → Distinct rows → Distinct (save r rows)
  unfolding save
  Distinct-save r [] d = tt
  Distinct-save r (x ∷ rows) d = elim (Bool-cases (key x == key r)) [
    | inl e ↦ rw e (rw (← (==_iff (key x) (key r)).0 e) d.0, d.1)
    | inr e ↦ rw e (find-save-none (key x) r rows d.0, Distinct-save r rows d.1)
  ]
