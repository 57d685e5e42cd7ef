-- ===== src/Examples/Holdout.antt =====
-- The theorems on the one run of the holdout: two runs whose steps alternate, and a run after the lock.
use evidencedesk.Prelude.{ℕ, ◌≤◌, length, ◌≡◌, refl, true, false, none, some, List, [], ◌∷◌}
use evidencedesk.Holdout.{Files, Turn, run_step, take_turn, take_turns}
use evidencedesk.Holdout.OneShot.{has_claimed, all_started, winners, one_run, never_again}

abbrev turn : ℕ → Turn
turn run = record { run = run; allow_holdout = true; ok = true }

-- Both find the files free, and the second run is first at the lock.
abbrev race : List Turn
race =
    turn 1
    ∷ turn 2
    ∷ turn 1
    ∷ turn 2
    ∷ turn 1
    ∷ turn 2
    ∷ turn 2
    ∷ turn 1
    ∷ turn 2
    ∷ turn 1
    ∷ turn 2
    ∷ []

abbrev free : Files
free = record { lock = none; output = none }

abbrev second : ℕ
second = 2

second_won : has_claimed ((take_turns race (all_started free)).stages second) ≡ true
unfolding take_turns take_turn run_step
second_won = refl

first_lost : has_claimed ((take_turns race (all_started free)).stages 1) ≡ false
unfolding take_turns take_turn run_step
first_lost = refl

one_run_example :
    (second ≡ second)
    × ((take_turns race (all_started free)).files.lock ≡ some second)
    × (length (winners race (all_started free)) ≤ 1)
one_run_example = one_run free race second second second_won second_won

never_again_example :
    has_claimed ((take_turns race (all_started (record { lock = some 7; output = none }))).stages 1)
    ≡ false
never_again_example = never_again (record { lock = some 7; output = none }) 7 race 1 refl
