-- ===== src/RateLimit/Promise.antt =====
-- request_limits.py: what the clients of a bucket are promised.
use evidencedesk.Prelude.{
  ℕ, ◌+◌, ◌≤◌, ◌<◌, ◌≡◌, sym, ◌∙◌, ap, none, List, [], ◌∷◌, ◌++◌, arith, false, length,
  length-append, All, All-append, All-mono, inl, inr,
}
use evidencedesk.RateLimit.{Key, Entry, Limiter, Decision, expire, same_key, lookup, admit}
use evidencedesk.RateLimit.Log.{IsConfigured, IsLog, admit-IsLog, length-expire-le}
use evidencedesk.RateLimit.Window.{
  recent, Ascending, Ascending-append, expire-eq-recent, expire-expire, expire-append_now,
}
use evidencedesk.RateLimit.Admission.{deque, admit_own, evicts, admit_apart, decide-cases}

-- A request of the client in its bucket, or one of another key, so many ticks after the request before
pub data Arrival : Type 0 where
  own : ℕ → Arrival
  other : Key → ℕ → Arrival

-- The time, the times at which requests of the client were let in, and the limiter's log.
pub record Served : Type 0 where
  pub now : ℕ
  pub admissions : List ℕ
  pub log : List Entry

abbrev note : List ℕ → ℕ → Decision → List ℕ
note admissions now Decision.admitted = admissions ++ now ∷ []
note admissions now _ = admissions

abbrev serve_one : Limiter → Key → Arrival → Served → Served
serve_one l key (own delay) s =
    let (decision, log') = admit l key (s.now + delay) s.log in
    record {
      now = s.now + delay;
      admissions = note s.admissions (s.now + delay) decision;
      log = log';
    }
serve_one l key (other k delay) s = record s {
  now = s.now + delay;
  log = (admit l k (s.now + delay) s.log).1;
}

unfoldable pub serve : Limiter → Key → List Arrival → Served → Served
serve l key [] s = s
serve l key (a ∷ arrivals) s = serve l key arrivals (serve_one l key a s)

-- The others are others, and no request of theirs finds the log full and itself not in it.
abbrev StaysApart : Limiter → Key → Arrival → Served → Type 0
StaysApart l key (own delay) s = Unit
StaysApart l key (other k delay) s = (same_key k key ≡ false) × (evicts l k s.log ≡ false)

abbrev pub NoEviction : Limiter → Key → List Arrival → Served → Type 0
NoEviction l key [] s = Unit
NoEviction l key (a ∷ arrivals) s =
    StaysApart l key a s × NoEviction l key arrivals (serve_one l key a s)

-- Of the deque and of the admissions, the window holds the same.
record IsTracked (l : Limiter) (key : Key) (s : Served) : Type 0 where
  valid : IsLog l s.log
  tracked : expire l.window s.now (deque (lookup key s.log)) ≡ expire l.window s.now s.admissions
  ascending : Ascending s.admissions
  past : All (λ a. a ≤ s.now) s.admissions
  bounded : length (expire l.window s.now s.admissions) ≤ l.limits key.bucket

-- What is tracked when a request was let in.
IsTracked-append :
    (l : Limiter) (key : Key) (now : ℕ) (admissions : List ℕ) (log : List Entry)
    → 0 < l.window
    → IsLog l log
    → deque (lookup key log) ≡ expire l.window now admissions ++ now ∷ []
    → Ascending admissions
    → All (λ a. a ≤ now) admissions
    → length (expire l.window now admissions) < l.limits key.bucket
    → IsTracked l key (record { now = now; admissions = admissions ++ now ∷ []; log = log })
IsTracked-append l key now admissions log positive valid found ascending past room =
    let same = expire-append_now l.window now admissions positive in
    record {
      valid = valid;
      tracked =
          ap (expire l.window now) (found ∙ sym same)
          ∙ expire-expire l.window now now (admissions ++ now ∷ []) (omega arith);
      ascending = Ascending-append now admissions ascending past;
      past = All-append _ admissions (now ∷ []) past (omega arith, tt);
      bounded =
          rw same (omega (arith, length-append (expire l.window now admissions) (now ∷ []), room));
    }

module _ (l : Limiter) (c : IsConfigured l) (key : Key) where
  past_later :
      (s : Served) (delay : ℕ) → IsTracked l key s → All (λ a. a ≤ s.now + delay) s.admissions
  past_later s delay t = All-mono _ _ s.admissions (λ a h. omega arith) t.past

  -- What the window holds later
  later :
      (s : Served) (now : ℕ)
      → s.now ≤ now
      → IsTracked l key s
      → (expire l.window now (deque (lookup key s.log)) ≡ expire l.window now s.admissions)
        × (length (expire l.window now s.admissions) ≤ l.limits key.bucket)
  later s now more t =
      let again = expire-expire l.window s.now now s.admissions more in
      (
        sym (expire-expire l.window s.now now (deque (lookup key s.log)) more)
            ∙ ap (expire l.window now) t.tracked
            ∙ again,
        rw (← again) (
            omega (
              arith,
              length-expire-le l.window now (expire l.window s.now s.admissions),
              t.bounded,
            )),
      )

  serve_own-IsTracked :
      (delay : ℕ) (s : Served) → IsTracked l key s → IsTracked l key (serve_one l key (own delay) s)
  serve_own-IsTracked delay s t =
      let now = s.now + delay in
      let (same, found) = admit_own l c key now s.log t.valid in
      let (left, shorter) = later s now (omega arith) t in
      let valid' = (admit-IsLog l c key now s.log t.valid).1 in
      let kept = ap deque found in
      elim (decide-cases l key.bucket now (expire l.window now (deque (lookup key s.log)))
        (c.limits_positive key.bucket)) [
          | inl (e, room) ↦ rw (same ∙ ap (λ (d : Decision × List ℕ). d.0) e) (
              IsTracked-append l key now s.admissions _ c.window_positive valid'
                (kept
                  ∙ ap (λ (d : Decision × List ℕ). d.1) e
                  ∙ ap (λ events. events ++ now ∷ []) left)
                t.ascending (past_later s delay t) (rw left at room))
          | inr (first, rest, shape, e, full) ↦
              rw (same ∙ ap (λ (d : Decision × List ℕ). d.0) e) (record {
                valid = valid';
                tracked =
                    ap (expire l.window now) (kept ∙ ap (λ (d : Decision × List ℕ). d.1) e ∙ left)
                    ∙ expire-expire l.window now now s.admissions (omega arith);
                ascending = t.ascending;
                past = past_later s delay t;
                bounded = shorter;
              })
        ]

  serve_one-IsTracked :
      (a : Arrival) (s : Served)
      → StaysApart l key a s
      → IsTracked l key s
      → IsTracked l key (serve_one l key a s)
  serve_one-IsTracked (own delay) s h t = serve_own-IsTracked delay s t
  serve_one-IsTracked (other k delay) s (apart, kept) t =
      let (same, shorter) = later s (s.now + delay) (omega arith) t in
      let found = admit_apart l key k (s.now + delay) s.log apart kept in
      record {
        valid = (admit-IsLog l c k (s.now + delay) s.log t.valid).1;
        tracked = ap (λ o. expire l.window (s.now + delay) (deque o)) found ∙ same;
        ascending = t.ascending;
        past = past_later s delay t;
        bounded = shorter;
      }

  serve-IsTracked :
      (arrivals : List Arrival) (s : Served)
      → NoEviction l key arrivals s
      → IsTracked l key s
      → IsTracked l key (serve l key arrivals s)
  unfolding serve
  serve-IsTracked [] s h t = t
  serve-IsTracked (a ∷ arrivals) s h t =
      serve-IsTracked arrivals (serve_one l key a s) h.1 (serve_one-IsTracked a s h.0 t)

  -- From a log that has nothing of a client's bucket, however the requests of the client and of others
  -- are mixed and spaced, as long as no request of another finds the log full and itself not in it:
  -- of the client's requests that are let in, no more than the limit lie in the window that ends at
  -- the last request.
  pub window_bound :
      (start : ℕ) (arrivals : List Arrival) (log : List Entry)
      → IsLog l log
      → lookup key log ≡ none
      → NoEviction l key arrivals (record { now = start; admissions = []; log = log })
      → let s = serve l key arrivals (record { now = start; admissions = []; log = log }) in
        length (recent l.window s.now s.admissions) ≤ l.limits key.bucket
  unfolding expire
  window_bound start arrivals log valid fresh apart =
      let t =
        serve-IsTracked arrivals (record { now = start; admissions = []; log = log }) apart
          (record {
            valid = valid;
            tracked = ap (λ o. expire l.window start (deque o)) fresh;
            ascending = tt;
            past = tt;
            bounded = omega arith;
          }) in
      rw (← expire-eq-recent l.window _ _ t.ascending) t.bounded
