-- ===== src/Examples/Limits.antt =====
-- The theorems on the rate limiter (request_limits.py) at one client's requests.
use evidencedesk.Prelude.{◌≤◌, ◌≢◌, refl, List, [], ◌∷◌, codes, length, arith}
use evidencedesk.Python.Strings.{same}
use evidencedesk.RateLimit.{
  Bucket, Key, Entry, Limiter, Decision, same_key, expire, decide, lookup, update, admit,
}
use evidencedesk.RateLimit.Log.{IsConfigured, IsLog, admit-IsLog}
use evidencedesk.RateLimit.Window.{recent}
use evidencedesk.RateLimit.Promise.{Arrival, own, other, Served, serve, NoEviction, window_bound}

abbrev limiter : Limiter
limiter = record { limits = λ b. 2; window = 60; ticks = 1; max_keys = 1 }

limiter-IsConfigured : IsConfigured limiter
limiter-IsConfigured = record {
  limits_positive = λ b. omega arith;
  window_positive = omega arith;
  keys_positive = omega arith;
  ticks_positive = omega arith;
}

abbrev ana_asks : Key
ana_asks = record { bucket = Bucket.ask; client = codes "10.0.0.1" }

abbrev bob_asks : Key
bob_asks = record { bucket = Bucket.ask; client = codes "10.0.0.2" }

-- A log that is full with the requests of another client
abbrev full_log : List Entry
full_log = record { key = bob_asks; events = 3 ∷ 9 ∷ [] } ∷ []

full_log-IsLog : IsLog limiter full_log
full_log-IsLog = record { entries = ((omega arith, omega arith), tt); bounded = omega arith }

admit-IsLog_example :
    let (decision, log') = admit limiter ana_asks 10 full_log in
    (decision ≢ Decision.crashed) × IsLog limiter log'
admit-IsLog_example = admit-IsLog limiter limiter-IsConfigured ana_asks 10 full_log full_log-IsLog

-- There is room for two clients, and the other comes between the requests of the first.
abbrev shared : Limiter
shared = record limiter { max_keys = 2 }

shared-IsConfigured : IsConfigured shared
shared-IsConfigured = record {
  limits_positive = λ b. omega arith;
  window_positive = omega arith;
  keys_positive = omega arith;
  ticks_positive = omega arith;
}

abbrev mixed : List Arrival
mixed = own 1 ∷ other bob_asks 1 ∷ own 2 ∷ other bob_asks 0 ∷ own 3 ∷ own 60 ∷ []

abbrev at_ten : Served
at_ten = record { now = 10; admissions = []; log = [] }

mixed-NoEviction : NoEviction shared ana_asks mixed at_ten
unfolding admit lookup update same_key same expire decide
mixed-NoEviction = (tt, ((refl, refl), (tt, ((refl, refl), (tt, (tt, tt))))))

window_bound_example :
    let s = serve shared ana_asks mixed at_ten in length (recent 60 s.now s.admissions) ≤ 2
window_bound_example =
    window_bound shared shared-IsConfigured ana_asks 10 mixed []
      (record { entries = tt; bounded = omega arith }) (unfold lookup in refl) mixed-NoEviction
