-- ===== src/Holdout/OneShot.antt =====
-- holdout.py, holdout_v4.py: which runs get the lock.
use evidencedesk.Prelude.{
  ℕ, Bool, true, false, Option, none, some, List, [], ◌∷◌, ◌==◌, ◌&&◌, not, ◌≤◌, arith, length,
  if◌then◌else◌, ◌≡◌, ◌⊎◌, refl, sym, ap, ◌∙◌, Bool-cases, inl, inr, ==_iff,
}
use evidencedesk.Holdout.{
  Files, Stage, assert_one_shot_available, may_claim, open_lock, open_output, passing, run_step,
  Desktop, Turn, take_turn, take_turns,
}

-- The run got the lock, whatever became of it since.
abbrev pub has_claimed : Stage → Bool
has_claimed Stage.claimed = true
has_claimed Stage.evaluated = true
has_claimed Stage.written = true
has_claimed Stage.broken = true
has_claimed _ = false

-- A run that has claimed wrote the lock.
abbrev IsExclusive : Desktop → Type 0
IsExclusive w = (i : ℕ) → has_claimed (w.stages i) ≡ true → w.files.lock ≡ some i

passing_unclaimed :
    (ok : Bool) (next : Stage) (files : Files)
    → has_claimed next ≡ false
    → has_claimed (passing ok next files).0 ≡ false
passing_unclaimed true next files e = e
passing_unclaimed false next files e = refl

clash : {b : Bool} → b ≡ true → b ≡ false → ⊥
clash e f = cc

-- What one step does: the lock stays, and a run that has claimed after it had claimed before; or the
-- lock was free and is now this run's.
abbrev StepKeeps : ℕ → Stage → Files → Stage × Files → Type 0
StepKeeps run stage files (next, after) =
    ((after.lock ≡ files.lock) × (has_claimed next ≡ true → has_claimed stage ≡ true))
    ⊎ ((files.lock ≡ none) × (after.lock ≡ some run))

run_step-StepKeeps :
    (allow_holdout ok : Bool) (run : ℕ) (stage : Stage) (files : Files)
    → StepKeeps run stage files (run_step allow_holdout ok run stage files)
unfolding run_step
run_step-StepKeeps allow_holdout ok run Stage.started files = inl (
  refl,
  λ h. absurd (
      clash h (
        passing_unclaimed (assert_one_shot_available allow_holdout files) Stage.available files
          refl)),
)
run_step-StepKeeps allow_holdout ok run Stage.available files =
    inl (refl, λ h. absurd (clash h (passing_unclaimed ok Stage.prepared files refl)))
run_step-StepKeeps allow_holdout ok run Stage.prepared files = inl (
  refl,
  λ h.
      absurd
        (clash h (passing_unclaimed (may_claim allow_holdout files) Stage.claiming files refl)),
)
run_step-StepKeeps allow_holdout ok run Stage.claiming files = go files.lock refl
  where
    go :
        (o : Option ℕ) → files.lock ≡ o → StepKeeps run Stage.claiming files (open_lock run files o)
    go none e = inr (e, refl)
    go (some other) e = inl (refl, λ h. cc)
run_step-StepKeeps allow_holdout ok run Stage.claimed files = inl (refl, λ h. refl)
run_step-StepKeeps allow_holdout ok run Stage.evaluated files = go files.output
  where
    go : (o : Option ℕ) → StepKeeps run Stage.evaluated files (open_output run files o)
    go none = inl (refl, λ h. refl)
    go (some other) = inl (refl, λ h. refl)
run_step-StepKeeps allow_holdout ok run Stage.written files = inl (refl, λ h. refl)
run_step-StepKeeps allow_holdout ok run Stage.failed files = inl (refl, λ h. h)
run_step-StepKeeps allow_holdout ok run Stage.broken files = inl (refl, λ h. refl)

take_turn-IsExclusive : (t : Turn) (w : Desktop) → IsExclusive w → IsExclusive (take_turn t w)
unfolding take_turn
take_turn-IsExclusive t w h i claimed =
    elim (run_step-StepKeeps t.allow_holdout t.ok t.run (w.stages t.run) w.files) [
      | inl (kept, before) ↦ elim (Bool-cases (i == t.run)) [
        | inl e ↦
            kept
            ∙ h i (
                ap (λ n. has_claimed (w.stages n)) ((==_iff i t.run).0 e)
                ∙ before (rw e at claimed))
        | inr e ↦ kept ∙ h i (rw e at claimed)
      ]
      | inr (free, taken) ↦ elim (Bool-cases (i == t.run)) [
        | inl e ↦ taken ∙ ap (λ n. some n) (sym ((==_iff i t.run).0 e))
        | inr e ↦ cc (free, h i (rw e at claimed))
      ]
    ]

take_turns-IsExclusive :
    (turns : List Turn) (w : Desktop) → IsExclusive w → IsExclusive (take_turns turns w)
unfolding take_turns
take_turns-IsExclusive [] w h = h
take_turns-IsExclusive (t ∷ rest) w h =
    take_turns-IsExclusive rest (take_turn t w) (take_turn-IsExclusive t w h)

abbrev pub all_started : Files → Desktop
all_started files = record { stages = λ i. Stage.started; files = files }

-- In its turn the run gets the lock.
unfoldable pub wins : Turn → Desktop → Bool
unfolding take_turn
wins t w = has_claimed ((take_turn t w).stages t.run) && not (has_claimed (w.stages t.run))

-- The runs that get the lock, one for each time
unfoldable pub winners : List Turn → Desktop → List ℕ
unfolding wins
winners [] w = []
winners (t ∷ rest) w =
    let later = winners rest (take_turn t w) in if wins t w then t.run ∷ later else later

-- A run that had claimed before its turn does not get the lock in it.
no_win :
    (t : Turn) (w : Desktop)
    → (has_claimed (run_step t.allow_holdout t.ok t.run (w.stages t.run) w.files).0 ≡ true
        → has_claimed (w.stages t.run) ≡ true)
    → wins t w ≡ false
unfolding take_turn wins
no_win t w before =
    rw ((==_iff t.run t.run).1 refl) (not_new _ (has_claimed (w.stages t.run)) before)
  where
    not_new : (a b : Bool) → (a ≡ true → b ≡ true) → (a && not b) ≡ false
    not_new false b f = refl
    not_new true b f = rw (f refl) refl

-- A lock that is there stays, and only a free lock is got.
lock_kept :
    (t : Turn) (w : Desktop) (k : ℕ)
    → w.files.lock ≡ some k
    → ((take_turn t w).files.lock ≡ some k) × (wins t w ≡ false)
unfolding take_turn
lock_kept t w k locked =
    elim (run_step-StepKeeps t.allow_holdout t.ok t.run (w.stages t.run) w.files) [
      | inl (kept, before) ↦ (kept ∙ locked, no_win t w before)
      | inr (free, taken) ↦ absurd (cc (free, locked))
    ]

lock_got : (t : Turn) (w : Desktop) → wins t w ≡ true → (take_turn t w).files.lock ≡ some t.run
unfolding take_turn
lock_got t w won = elim (run_step-StepKeeps t.allow_holdout t.ok t.run (w.stages t.run) w.files) [
  | inl (kept, before) ↦ absurd (clash won (no_win t w before))
  | inr (free, taken) ↦ taken
]

none_later :
    (turns : List Turn) (w : Desktop) (k : ℕ) → w.files.lock ≡ some k → winners turns w ≡ []
unfolding winners
none_later [] w k locked = refl
none_later (t ∷ rest) w k locked =
    let (kept, lost) = lock_kept t w k locked in rw (lost) (none_later rest (take_turn t w) k kept)

one_winner : (turns : List Turn) (w : Desktop) → length (winners turns w) ≤ 1
unfolding winners
one_winner [] w = omega arith
one_winner (t ∷ rest) w = elim (Bool-cases (wins t w)) [
  | inl e ↦ rw (e, none_later rest (take_turn t w) t.run (lock_got t w e)) (omega arith)
  | inr e ↦ rw e (one_winner rest (take_turn t w))
]

-- However the steps of any runs interleave, of the files that are there at the start, the lock is got at
-- most once, and two runs that got it, whatever became of them since, are one run, which is the one
-- in the lock.
pub one_run :
    (files : Files) (turns : List Turn) (i j : ℕ)
    → has_claimed ((take_turns turns (all_started files)).stages i) ≡ true
    → has_claimed ((take_turns turns (all_started files)).stages j) ≡ true
    → (i ≡ j)
      × ((take_turns turns (all_started files)).files.lock ≡ some i)
      × (length (winners turns (all_started files)) ≤ 1)
one_run files turns i j h k =
    let exclusive = take_turns-IsExclusive turns (all_started files) (λ n e. cc) in
    (cc (exclusive i h, exclusive j k), exclusive i h, one_winner turns (all_started files))

-- The lock is there, and nobody got it.
abbrev IsOpened : ℕ → Desktop → Type 0
IsOpened earlier w = (w.files.lock ≡ some earlier) × ((i : ℕ) → has_claimed (w.stages i) ≡ true → ⊥)

take_turn-IsOpened :
    (earlier : ℕ) (t : Turn) (w : Desktop) → IsOpened earlier w → IsOpened earlier (take_turn t w)
unfolding take_turn
take_turn-IsOpened earlier t w (locked, none_claimed) =
    elim (run_step-StepKeeps t.allow_holdout t.ok t.run (w.stages t.run) w.files) [
      | inl (kept, before) ↦ (
        kept ∙ locked,
        λ i claimed. elim (Bool-cases (i == t.run)) [
          | inl e ↦ none_claimed t.run (before (rw e at claimed))
          | inr e ↦ none_claimed i (rw e at claimed)
        ],
      )
      | inr (free, taken) ↦ absurd (cc (free, locked))
    ]

take_turns-IsOpened :
    (earlier : ℕ) (turns : List Turn) (w : Desktop)
    → IsOpened earlier w
    → IsOpened earlier (take_turns turns w)
unfolding take_turns
take_turns-IsOpened earlier [] w h = h
take_turns-IsOpened earlier (t ∷ rest) w h =
    take_turns-IsOpened earlier rest (take_turn t w) (take_turn-IsOpened earlier t w h)

-- Where the lock is there at the start, no run evaluates, however the steps interleave.
pub never_again :
    (files : Files) (earlier : ℕ) (turns : List Turn) (i : ℕ)
    → files.lock ≡ some earlier
    → has_claimed ((take_turns turns (all_started files)).stages i) ≡ false
never_again files earlier turns i locked =
    elim (Bool-cases (has_claimed ((take_turns turns (all_started files)).stages i))) [
      | inl e ↦
          absurd ((take_turns-IsOpened earlier turns (all_started files) (locked, λ n f. cc)).1 i e)
      | inr e ↦ e
    ]
