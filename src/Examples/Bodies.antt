-- ===== src/Examples/Bodies.antt =====
-- The theorems on the limit on request bodies (request_limits.py) at an application that reads one
-- message and answers.
use evidencedesk.Prelude.{
  ℕ, ◌≤◌, ◌≡◌, refl, arith, Bytes, false, Option, none, some, List, [], ◌∷◌, codes, length,
}
use evidencedesk.Python.Strings.{same, lower}
use evidencedesk.BodyLimit.{
  Received, Sent, App, Header, declared_length, limited, run, refusal, handle,
}
use evidencedesk.BodyLimit.Promise.{StartsOnce, starts, handle_bound, handle-run, starts-handle}

abbrev answer : App
answer = App.send (Sent.response_start 204) (App.send (Sent.response_body []) App.done)

abbrev answer_or_fail : Option Received → App
answer_or_fail none = App.too_large
answer_or_fail (some m) = answer

abbrev reader : App
reader = App.receive answer_or_fail

-- A stand-in for `int` that reads the number of characters
abbrev count_digits : Bytes → Option ℕ
count_digits v = some (length v)

abbrev headers : List Header
headers = (codes "Host", codes "x") ∷ (codes "Content-Length", codes "123") ∷ []

abbrev small : List Received
small = Received.body (codes "abc") false ∷ []

abbrev large : List Received
large = Received.body (codes "abcdef") false ∷ []

too_large_refused : handle count_digits 5 headers reader large ≡ refusal
unfolding handle declared_length limited same lower
too_large_refused = refl

handle_bound_example : (handle count_digits 5 headers reader large).given ≤ 5
handle_bound_example = handle_bound count_digits 5 headers reader large

handle-run_example : handle count_digits 5 headers reader small ≡ run reader small
handle-run_example =
    handle-run count_digits 5 headers reader small (λ m. tt) (omega arith)
      (unfold declared_length in unfold same in unfold lower in refl)

reader-StartsOnce : StartsOnce false reader
reader-StartsOnce none = tt
reader-StartsOnce (some m) = (refl, tt)

starts-handle_example : starts (handle count_digits 5 headers reader large).sent ≤ 1
starts-handle_example = starts-handle count_digits 5 headers reader large reader-StartsOnce
