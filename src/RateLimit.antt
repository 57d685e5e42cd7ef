-- ===== src/RateLimit.antt =====
-- apps/api/evidencedesk_api/request_limits.py, `RateLimitMiddleware`: a sliding log of the requests
-- of each client in each bucket. The clock and the window are in ticks, `ticks` to the second; the
-- lock makes `_admit` one step. Routes are matched on their segments.
pub mod Log
pub mod Window
pub mod Admission
pub mod Promise
use evidencedesk.Prelude.{
  ℕ, zero, suc, ◌+◌, ◌-◌, ◌/◌, Text, Bool, true, false, Option, none, some, List, [], ◌∷◌, ◌++◌,
  ◌&&◌, ◌==◌, leb, ltb, if◌then◌else◌, length, codes,
}
use evidencedesk.Python.Strings.{same, upper}
use evidencedesk.Python.PosixPath.{split_on}

pub data Bucket : Type 0 where
  auth ask upload : Bucket

abbrev pub bucket_number : Bucket → ℕ
bucket_number Bucket.auth = 0
bucket_number Bucket.ask = 1
bucket_number Bucket.upload = 2

pub record Key : Type 0 where
  pub bucket : Bucket
  pub client : Text

unfoldable pub same_key : Key → Key → Bool
unfolding same
same_key a b = bucket_number a.bucket == bucket_number b.bucket && same a.client b.client

-- One entry of `_events`: a key and its deque, the oldest request first.
pub record Entry : Type 0 where
  pub key : Key
  pub events : List ℕ

pub record Limiter : Type 0 where
  pub limits : Bucket → ℕ
  pub window : ℕ
  pub ticks : ℕ
  pub max_keys : ℕ

-- What `_admit` returns; `crashed` is an `IndexError` on an empty deque.
pub data Decision : Type 0 where
  admitted : Decision
  limited : ℕ → Decision
  crashed : Decision

-- `while events and events[0] <= cutoff: events.popleft()`
unfoldable pub expire : ℕ → ℕ → List ℕ → List ℕ
expire window now [] = []
expire window now (e ∷ events) =
    let rest = expire window now events in if leb (e + window) now then rest else e ∷ events

abbrev pub ceil_div : ℕ → ℕ → ℕ
ceil_div a b = (a + (b - 1)) / b

-- `max(1, math.ceil(events[0] + window_seconds - now))`
abbrev pub retry_after : Limiter → ℕ → ℕ → ℕ
retry_after l now e =
    let wait = ceil_div (e + l.window - now) l.ticks in if leb 1 wait then wait else 1

-- The end of `_admit`, on the requests that have not expired: the decision and the deque.
unfoldable pub decide : Limiter → Bucket → ℕ → List ℕ → Decision × List ℕ
decide l bucket now [] =
    if leb (l.limits bucket) 0 then (Decision.crashed, []) else (Decision.admitted, now ∷ [])
decide l bucket now (e ∷ events) =
    if leb (l.limits bucket) (length (e ∷ events))
    then (Decision.limited (retry_after l now e), e ∷ events)
    else (Decision.admitted, (e ∷ events) ++ now ∷ [])

-- `self._events.get(key)`
unfoldable pub lookup : Key → List Entry → Option (List ℕ)
lookup key [] = none
lookup key (x ∷ log) = if same_key x.key key then some x.events else lookup key log

-- the deque of a key that is there, changed in place
unfoldable pub update : Key → List ℕ → List Entry → List Entry
update key events [] = []
update key events (x ∷ log) =
    if same_key x.key key then record x { events = events } ∷ log else x ∷ update key events log

-- `del self._events[key]`
unfoldable pub remove : Key → List Entry → List Entry
remove key [] = []
remove key (x ∷ log) = if same_key x.key key then log else x ∷ remove key log

-- `events[-1]`, or an `IndexError`
unfoldable pub last : List ℕ → Option ℕ
last [] = none
last (e ∷ []) = some e
last (e ∷ f ∷ events) = last (f ∷ events)

abbrev older : Entry → Option ℕ → Option (Key × ℕ) → Option (Key × ℕ)
older x none other = none
older x (some e) none = none
older x (some e) (some (key, f)) = if leb e f then some (x.key, e) else some (key, f)

-- `min(self._events, key=lambda candidate: self._events[candidate][-1])`: the first of the keys whose
-- last request is oldest
unfoldable pub oldest : List Entry → Option (Key × ℕ)
unfolding last
oldest [] = none
oldest (x ∷ []) = elim (last x.events) [ none ↦ none | some e ↦ some (x.key, e) ]
oldest (x ∷ y ∷ log) = older x (last x.events) (oldest (y ∷ log))

abbrev pub opened : Limiter → Key → ℕ → List Entry → Decision × List Entry
opened l key now log =
    let (decision, events) = decide l key.bucket now [] in
    (decision, log ++ record { key = key; events = events } ∷ [])

abbrev pub make_room : Limiter → Key → ℕ → List Entry → Option (Key × ℕ) → Decision × List Entry
make_room l key now log none = (Decision.crashed, log)
make_room l key now log (some (victim, e)) = opened l key now (remove victim log)

abbrev pub admit_known : Limiter → Key → ℕ → List Entry → Option (List ℕ) → Decision × List Entry
admit_known l key now log (some events) =
    let (decision, kept) = decide l key.bucket now (expire l.window now events) in
    (decision, update key kept log)
admit_known l key now log none =
    if leb l.max_keys (length log)
    then make_room l key now log (oldest log)
    else opened l key now log

-- `_admit`
unfoldable pub admit : Limiter → Key → ℕ → List Entry → Decision × List Entry
unfolding lookup
admit l key now log = admit_known l key now log (lookup key log)

-- `_bucket`: the sensitive route of a request. `[^/]+` is one segment that is not empty.
abbrev matched : Text → List Text → Option Bucket
matched s (a ∷ v ∷ b ∷ c ∷ []) =
    if same s []
      && same a (codes "api")
      && same v (codes "v1")
      && same b (codes "auth")
      && same c (codes "token")
    then some Bucket.auth
    else none
matched s (a ∷ v ∷ b ∷ [] ∷ d ∷ []) = none
matched s (a ∷ v ∷ b ∷ (c ∷ id) ∷ d ∷ []) =
    if same s [] && same a (codes "api") && same v (codes "v1") && same b (codes "dossiers")
    then (if same d (codes "ask")
        then some Bucket.ask
        else if same d (codes "documents")
        then some Bucket.upload
        else none)
    else none
matched s _ = none

unfoldable pub bucket_of : Text → Text → Option Bucket
unfolding split_on same upper
bucket_of method path =
    if same (upper method) (codes "POST")
    then (let (first, rest) = split_on b'/' path in matched first rest)
    else none
