-- ===== src/Holdout.antt =====
-- evals/holdout.py and evals/holdout_v4.py: the one run of the holdout that a lock file allows. Each
-- look at the files, and each exclusive creation of one, is a step of its own, so runs interleave.
pub mod OneShot
use evidencedesk.Prelude.{
  ℕ, Bool, true, false, Option, none, some, List, [], ◌∷◌, ◌==◌, ◌&&◌, not, is_some, if◌then◌else◌,
}

-- The lock and the output, each with the run that wrote it
pub record Files : Type 0 where
  pub lock : Option ℕ
  pub output : Option ℕ

-- Where a run of `run_holdout_once` is: before the first look, after it, after the preflight, after the
-- look of `claim_one_shot`, with the lock, after the evaluation, with the output, or at an exception,
-- before or after it got the lock.
pub data Stage : Type 0 where
  started available prepared claiming claimed evaluated written failed broken : Stage

-- `_assert_one_shot_available` returns.
abbrev pub assert_one_shot_available : Bool → Files → Bool
assert_one_shot_available allow_holdout files =
    allow_holdout && not (is_some files.output) && not (is_some files.lock)

-- The first two tests of `claim_one_shot`
abbrev pub may_claim : Bool → Files → Bool
may_claim allow_holdout files = allow_holdout && not (is_some files.output)

-- `lock_path.open("x")`: a file that exists is a `FileExistsError`.
abbrev pub open_lock : ℕ → Files → Option ℕ → Stage × Files
open_lock run files none = (Stage.claimed, record files { lock = some run })
open_lock run files (some other) = (Stage.failed, files)

-- `output_path.open("x")`
abbrev pub open_output : ℕ → Files → Option ℕ → Stage × Files
open_output run files none = (Stage.written, record files { output = some run })
open_output run files (some other) = (Stage.broken, files)

abbrev pub passing : Bool → Stage → Files → Stage × Files
passing ok next files = (if ok then next else Stage.failed, files)

-- The same with the lock, which an exception leaves where it is
abbrev pub evaluating : Bool → Files → Stage × Files
evaluating ok files = (if ok then Stage.evaluated else Stage.broken, files)

-- The next step of a run. `ok` tells that the preflight, or the evaluation, raises nothing.
unfoldable pub run_step : Bool → Bool → ℕ → Stage → Files → Stage × Files
run_step allow_holdout ok run Stage.started files =
    passing (assert_one_shot_available allow_holdout files) Stage.available files
run_step allow_holdout ok run Stage.available files = passing ok Stage.prepared files
run_step allow_holdout ok run Stage.prepared files =
    passing (may_claim allow_holdout files) Stage.claiming files
run_step allow_holdout ok run Stage.claiming files = open_lock run files files.lock
run_step allow_holdout ok run Stage.claimed files = evaluating ok files
run_step allow_holdout ok run Stage.evaluated files = open_output run files files.output
run_step allow_holdout ok run stage files = (stage, files)

-- All runs, and the files that they share
pub record Desktop : Type 0 where
  pub stages : ℕ → Stage
  pub files : Files

-- A turn: the run whose step is next, whether it was started with `allow_holdout`, and `ok`.
pub record Turn : Type 0 where
  pub run : ℕ
  pub allow_holdout : Bool
  pub ok : Bool

unfoldable pub take_turn : Turn → Desktop → Desktop
unfolding run_step
take_turn t w =
    let (stage, files) = run_step t.allow_holdout t.ok t.run (w.stages t.run) w.files in
    record { stages = λ i. if i == t.run then stage else w.stages i; files = files }

unfoldable pub take_turns : List Turn → Desktop → Desktop
unfolding take_turn
take_turns [] w = w
take_turns (t ∷ rest) w = take_turns rest (take_turn t w)
