-- ===== src/RateLimit/Log.antt =====
-- request_limits.py: what `_admit` keeps of the log, so that it never fails and stays bounded.
use evidencedesk.Prelude.{
  ℕ, suc, ◌≤◌, ◌<◌, ◌≡◌, ◌≢◌, ◌⊎◌, ap, ◌∙◌, refl, true, Option, none, some, List, [], ◌∷◌, arith,
  leb, length, length-append, All, All-append, Bool-cases, inl, inr,
}
use evidencedesk.Python.Strings.{same_refl}
use evidencedesk.RateLimit.{
  bucket_number, Bucket, Key, Entry, Limiter, Decision, same_key, expire, decide, lookup, update,
  remove, last, older, oldest, opened, admit_known, admit,
}

-- What the constructor of the middleware checks
pub record IsConfigured (l : Limiter) : Type 0 where
  pub limits_positive : (b : Bucket) → 0 < l.limits b
  pub window_positive : 0 < l.window
  pub keys_positive : 0 < l.max_keys
  pub ticks_positive : 0 < l.ticks

abbrev pub IsEntry : Limiter → Entry → Type 0
IsEntry l x = (0 < length x.events) × (length x.events ≤ l.limits x.key.bucket)

-- No deque is empty or longer than its limit, and there are no more keys than allowed.
pub record IsLog (l : Limiter) (log : List Entry) : Type 0 where
  pub entries : All (IsEntry l) log
  pub bounded : length log ≤ l.max_keys

pub length-expire-le :
    (window now : ℕ) (events : List ℕ) → length (expire window now events) ≤ length events
unfolding expire
length-expire-le window now [] = omega arith
length-expire-le window now (e ∷ events) = ground (arith, length-expire-le window now events)

pub decide-IsEntry :
    (l : Limiter) (bucket : Bucket) (now : ℕ) (events : List ℕ)
    → 0 < l.limits bucket
    → length events ≤ l.limits bucket
    → let (decision, kept) = decide l bucket now events in
      (decision ≢ Decision.crashed) × (0 < length kept) × (length kept ≤ l.limits bucket)
unfolding decide
decide-IsEntry l bucket now [] positive fits = ground arith
decide-IsEntry l bucket now (e ∷ events) positive fits =
    ground (arith, length-append events (now ∷ []))

bucket_number-injective : (a b : Bucket) → bucket_number a ≡ bucket_number b → a ≡ b
bucket_number-injective a b h = ground arith

same_key-bucket : (a b : Key) → same_key a b ≡ true → a.bucket ≡ b.bucket
unfolding same_key
same_key-bucket a b h = bucket_number-injective a.bucket b.bucket (ground arith)

pub same_key_refl : (a : Key) → same_key a a ≡ true
unfolding same_key
same_key_refl a = ground (arith, same_refl a.client)

pub lookup-IsEntry :
    (l : Limiter) (key : Key) (log : List Entry) (events : List ℕ)
    → All (IsEntry l) log
    → lookup key log ≡ some events
    → length events ≤ l.limits key.bucket
unfolding lookup
lookup-IsEntry l key [] events all h = cc
lookup-IsEntry l key (x ∷ log) events all h = elim (Bool-cases (same_key x.key key)) [
  | inl e ↦
      let found : x.events ≡ events = cc (rw (e, lookup) at h) in
      rw (← same_key-bucket x.key key e) (rw (← found) all.0.1)
  | inr e ↦ lookup-IsEntry l key log events all.1 (rw (e, lookup) at h)
]

update-IsEntry :
    (l : Limiter) (key : Key) (events : List ℕ) (log : List Entry)
    → 0 < length events
    → length events ≤ l.limits key.bucket
    → All (IsEntry l) log
    → All (IsEntry l) (update key events log)
unfolding update
update-IsEntry l key events [] some_left fits all = tt
update-IsEntry l key events (x ∷ log) some_left fits all = elim (Bool-cases (same_key x.key key)) [
  | inl e ↦ rw e ((some_left, rw (same_key-bucket x.key key e) fits), all.1)
  | inr e ↦ rw e (all.0, update-IsEntry l key events log some_left fits all.1)
]

length-update :
    (key : Key) (events : List ℕ) (log : List Entry) → length (update key events log) ≡ length log
unfolding update
length-update key events [] = refl
length-update key events (x ∷ log) = ground (arith, length-update key events log)

remove-IsEntry :
    (l : Limiter) (key : Key) (log : List Entry)
    → All (IsEntry l) log
    → All (IsEntry l) (remove key log)
unfolding remove
remove-IsEntry l key [] all = tt
remove-IsEntry l key (x ∷ log) all = elim (Bool-cases (same_key x.key key)) [
  | inl e ↦ rw e all.1
  | inr e ↦ rw e (all.0, remove-IsEntry l key log all.1)
]

-- The victim is one of the keys.
pub Listed : Key → List Entry → Type 0
Listed key [] = ⊥
Listed key (x ∷ log) = (x.key ≡ key) ⊎ Listed key log

length-remove :
    (key : Key) (log : List Entry) → Listed key log → suc (length (remove key log)) ≡ length log
unfolding Listed remove
length-remove key [] h = absurd h
length-remove key (x ∷ log) (inl e) = rw (ap (λ k. same_key k key) e ∙ same_key_refl key) refl
length-remove key (x ∷ log) (inr h) = ground (arith, length-remove key log h)

last-some : (events : List ℕ) → 0 < length events → (e : ℕ) × (last events ≡ some e)
unfolding last
last-some [] h = absurd (omega arith)
last-some (e ∷ []) h = (e, refl)
last-some (e ∷ f ∷ events) h = last-some (f ∷ events) (omega arith)

older_one :
    (log : List Entry) (x : Entry) (e : ℕ) (key : Key) (f : ℕ)
    → Listed key log
    → (victim : Key) × (g : ℕ) × (older x (some e) (some (key, f)) ≡ some (victim, g))
      × Listed victim (x ∷ log)
unfolding Listed
older_one log x e key f h = elim (Bool-cases (leb e f)) [
  | inl p ↦ (x.key, e, rw p refl, inl refl)
  | inr p ↦ (key, f, rw p refl, inr h)
]

pub oldest-Listed :
    (l : Limiter) (log : List Entry)
    → All (IsEntry l) log
    → 0 < length log
    → (victim : Key) × (e : ℕ) × (oldest log ≡ some (victim, e)) × Listed victim log
unfolding oldest Listed
oldest-Listed l [] all h = absurd (omega arith)
oldest-Listed l (x ∷ []) all h =
    let (e, p) = last-some x.events all.0.0 in (x.key, e, rw (p, oldest) refl, inl refl)
oldest-Listed l (x ∷ y ∷ log) all h =
    let (e, p) = last-some x.events all.0.0 in
    let (victim, f, q, listed) = oldest-Listed l (y ∷ log) all.1 (omega arith) in
    let (v, g, chosen, there) = older_one (y ∷ log) x e victim f listed in
    (v, g, rw (p, q) chosen, there)

-- A decision was made, and the log is as it should be.
abbrev Fine : Limiter → Decision × List Entry → Type 0
Fine l end = (end.0 ≢ Decision.crashed) × IsLog l end.1

module _ (l : Limiter) (c : IsConfigured l) (key : Key) (now : ℕ) where
  opened-Fine :
      (log : List Entry)
      → All (IsEntry l) log
      → length log < l.max_keys
      → Fine l (opened l key now log)
  opened-Fine log all room =
      let (fine, some_left, fits) =
        decide-IsEntry l key.bucket now [] (c.limits_positive key.bucket) (omega arith) in
      (
        fine,
        record {
          entries = All-append (IsEntry l) log _ all ((some_left, fits), tt);
          bounded = omega (
            arith,
            length-append log (record { key = key; events = (decide l key.bucket now []).1 } ∷ []),
          );
        },
      )

  admit_known-Fine :
      (log : List Entry) (found : Option (List ℕ))
      → lookup key log ≡ found
      → IsLog l log
      → Fine l (admit_known l key now log found)
  admit_known-Fine log (some events) h valid =
      let (fine, some_left, fits) =
        decide-IsEntry l key.bucket now (expire l.window now events) (c.limits_positive key.bucket)
          (omega (
            arith,
            length-expire-le l.window now events,
            lookup-IsEntry l key log events valid.entries h,
          )) in
      (
        fine,
        record {
          entries = update-IsEntry l key _ log some_left fits valid.entries;
          bounded = omega (
            arith,
            length-update key (decide l key.bucket now (expire l.window now events)).1 log,
            valid.bounded,
          );
        },
      )
  admit_known-Fine log none h valid = elim (Bool-cases (leb l.max_keys (length log))) [
    | inr room ↦ rw room (opened-Fine log valid.entries (ground (arith, room)))
    | inl full ↦
        let (victim, e, chosen, listed) =
          oldest-Listed l log valid.entries (ground (arith, full, c.keys_positive)) in
        rw (full, chosen)
          (opened-Fine (remove victim log) (remove-IsEntry l victim log valid.entries)
            (omega (arith, length-remove victim log listed, valid.bounded)))
  ]

  -- A configured limiter decides every request: it never runs into an empty deque. And it stays
  -- bounded: no more keys than allowed, and no deque that is empty or longer than its bucket's limit.
  pub admit-IsLog :
      (log : List Entry)
      → IsLog l log
      → let (decision, log') = admit l key now log in (decision ≢ Decision.crashed) × IsLog l log'
  unfolding admit
  admit-IsLog log valid = admit_known-Fine log (lookup key log) refl valid
