-- ===== src/BodyLimit.antt =====
-- apps/api/evidencedesk_api/request_limits.py, `RequestBodyLimitMiddleware`. The application that it
-- wraps is what it does with `receive` and `send`, step by step; the server is the list of the
-- messages that `receive` still gives, and `disconnect` for ever after them.
pub mod Promise
use evidencedesk.Prelude.{
  ℕ, suc, ◌+◌, ◌-◌, ◌*◌, Text, Bytes, Bool, true, false, Option, none, some, List, [], ◌∷◌, ◌++◌,
  ◌==◌, ◌&&◌, ◌||◌, leb, ltb, if◌then◌else◌, length, codes,
}
use evidencedesk.Python.Strings.{same, lower}

-- A message of type "http.request", or of another type.
pub data Received : Type 0 where
  body : Bytes → Bool → Received
  disconnect : Received

pub data Sent : Type 0 where
  response_start : ℕ → Sent
  response_body : Bytes → Sent

-- `receive` hands the application a message, or `none` where `RequestBodyTooLarge` is raised in it;
-- `too_large` lets that exception leave the application, `raised` any other one.
pub data App : Type 0 where
  done raised too_large : App
  receive : (Option Received → App) → App
  send : Sent → App → App

pub data End : Type 0 where
  returned failed : End

-- What leaves through the server's `send`, the number of bytes of the body that the application was
-- given, and how the call ends.
pub record Run : Type 0 where
  pub sent : List Sent
  pub given : ℕ
  pub end : End

abbrev pub ended : End → Run
ended e = record { sent = []; given = 0; end = e }

abbrev pub sending : Sent → Run → Run
sending o r = record r { sent = o ∷ r.sent }

abbrev pub giving : ℕ → Run → Run
giving n r = record r { given = n + r.given }

abbrev pub size_of : Received → ℕ
size_of (Received.body b more) = length b
size_of Received.disconnect = 0

-- The application on its own
unfoldable pub run : App → List Received → Run
run App.done ms = ended End.returned
run App.raised ms = ended End.failed
run App.too_large ms = ended End.failed
run (App.receive k) [] = run (k (some Received.disconnect)) []
run (App.receive k) (Received.disconnect ∷ ms) = run (k (some Received.disconnect)) ms
run (App.receive k) (Received.body b more ∷ ms) =
    giving (length b) (run (k (some (Received.body b more))) ms)
run (App.send o next) ms = sending o (run next ms)

-- `_send_too_large`
abbrev pub refusal : Run
refusal = record {
  sent =
      Sent.response_start 413
      ∷ Sent.response_body (codes "{\"detail\":{\"code\":\"request_too_large\"}}")
      ∷ [];
  given = 0;
  end = End.returned;
}

abbrev pub is_start : Sent → Bool
is_start (Sent.response_start status) = true
is_start (Sent.response_body b) = false

-- The end of `__call__`, where `RequestBodyTooLarge` left the application
abbrev pub caught : Bool → Run
caught true = ended End.failed
caught false = refusal

-- `limited_receive` and `tracked_send` around the application; `consumed` and `started` are the
-- variables that they share.
unfoldable pub limited : ℕ → ℕ → Bool → App → List Received → Run
limited max_bytes consumed started App.done ms = ended End.returned
limited max_bytes consumed started App.raised ms = ended End.failed
limited max_bytes consumed started App.too_large ms = caught started
limited max_bytes consumed started (App.receive k) [] =
    limited max_bytes consumed started (k (some Received.disconnect)) []
limited max_bytes consumed started (App.receive k) (Received.disconnect ∷ ms) =
    limited max_bytes consumed started (k (some Received.disconnect)) ms
limited max_bytes consumed started (App.receive k) (Received.body b more ∷ ms) =
    let refused = limited max_bytes (consumed + length b) started (k none) ms in
    let given =
      limited max_bytes (consumed + length b) started (k (some (Received.body b more))) ms in
    if ltb max_bytes (consumed + length b) then refused else giving (length b) given
limited max_bytes consumed started (App.send o next) ms =
    sending o (limited max_bytes consumed (started || is_start o) next ms)

-- A header: its name and its value
abbrev pub Header : Type 0
Header = Bytes × Bytes

-- The length that the first "content-length" declares. `to_int` is `int` on bytes, as far as it
-- gives a number that is not negative.
unfoldable pub declared_length : (Bytes → Option ℕ) → List Header → Option ℕ
unfolding same lower
declared_length to_int [] = none
declared_length to_int ((name, v) ∷ rest) =
    let others = declared_length to_int rest in
    if same (lower name) (codes "content-length") then to_int v else others

abbrev pub within : ℕ → Option ℕ → Bool
within max_bytes none = true
within max_bytes (some n) = leb n max_bytes

-- `RequestBodyLimitMiddleware.__call__` on a scope of type "http"
unfoldable pub handle : (Bytes → Option ℕ) → ℕ → List Header → App → List Received → Run
unfolding declared_length limited
handle to_int max_bytes headers app ms =
    if within max_bytes (declared_length to_int headers)
    then limited max_bytes 0 false app ms
    else refusal
