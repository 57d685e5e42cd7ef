-- ===== src/RateLimit/Admission.antt =====
-- request_limits.py: what a client is promised.
use evidencedesk.Prelude.{
  ℕ, ◌≤◌, ◌<◌, ◌≡◌, ◌⊎◌, refl, Option, none, some, List, [], ◌∷◌, ◌++◌, arith, Bool, true, false,
  ◌==◌, ◌&&◌, not, is_some, and_true, subst, leb, length, Bool-cases, inl, inr,
}
use evidencedesk.Python.Strings.{same, same_sound}
use evidencedesk.RateLimit.{
  Bucket, bucket_number, Key, Entry, Limiter, Decision, same_key, expire, decide, lookup, update,
  admit, admit_known, retry_after, remove,
}
use evidencedesk.RateLimit.Log.{IsConfigured, same_key_refl, IsLog, oldest-Listed}

-- The deque of a key after a request.
abbrev pub after : Limiter → Key → ℕ → List ℕ → Decision × List ℕ
after l key now events = decide l key.bucket now (expire l.window now events)

lookup-update_self :
    (key : Key) (events old : List ℕ) (log : List Entry)
    → lookup key log ≡ some old
    → lookup key (update key events log) ≡ some events
unfolding lookup update
lookup-update_self key events old [] h = cc
lookup-update_self key events old (x ∷ log) h = elim (Bool-cases (same_key x.key key)) [
  | inl e ↦ rw e (rw e refl)
  | inr e ↦ rw e (rw e (lookup-update_self key events old log (rw (e, lookup) at h)))
]

lookup-append_new :
    (key : Key) (events : List ℕ) (log : List Entry)
    → lookup key log ≡ none
    → lookup key (log ++ record { key = key; events = events } ∷ []) ≡ some events
unfolding lookup
lookup-append_new key events [] h = rw (same_key_refl key)
lookup-append_new key events (x ∷ log) h = elim (Bool-cases (same_key x.key key)) [
  | inl e ↦ cc (rw (e, lookup) at h)
  | inr e ↦ rw e (lookup-append_new key events log (rw (e, lookup) at h))
]

lookup-remove-none :
    (key victim : Key) (log : List Entry)
    → lookup key log ≡ none
    → lookup key (remove victim log) ≡ none
unfolding lookup remove
lookup-remove-none key victim [] h = refl
lookup-remove-none key victim (x ∷ log) h = elim (Bool-cases (same_key x.key key)) [
  | inl e ↦ cc (rw (e, lookup) at h)
  | inr e ↦ elim (Bool-cases (same_key x.key victim)) [
    | inl f ↦ rw f (rw (e, lookup) at h)
    | inr f ↦ rw f (rw e (lookup-remove-none key victim log (rw (e, lookup) at h)))
  ]
]

-- The deque that `_events.get(key, deque())` stands for
abbrev pub deque : Option (List ℕ) → List ℕ
deque none = []
deque (some events) = events

module _ (l : Limiter) (c : IsConfigured l) (key : Key) (now : ℕ) where
  known :
      (log : List Entry) (found : Option (List ℕ))
      → lookup key log ≡ found
      → IsLog l log
      → let (decision, log') = admit_known l key now log found in
        (decision ≡ (after l key now (deque found)).0)
        × (lookup key log' ≡ some (after l key now (deque found)).1)
  known log (some events) h valid = (refl, lookup-update_self key _ events log h)
  known log none h valid = elim (Bool-cases (leb l.max_keys (length log))) [
    | inr room ↦
        rw room
          (unfold expire in (refl, lookup-append_new key (decide l key.bucket now []).1 log h))
    | inl full ↦
        let (victim, e, chosen, listed) =
          oldest-Listed l log valid.entries (ground (arith, full, c.keys_positive)) in
        rw (full, chosen)
          (unfold expire in
            (
              refl,
              lookup-append_new key (decide l key.bucket now []).1 (remove victim log)
                  (lookup-remove-none key victim log h),
            ))
  ]

  -- The decision and the deque that is kept, whether the key was in the log, and whether another had to
  -- make room for it.
  pub admit_own :
      (log : List Entry)
      → IsLog l log
      → let (decision, log') = admit l key now log in
        (decision ≡ (after l key now (deque (lookup key log))).0)
        × (lookup key log' ≡ some (after l key now (deque (lookup key log))).1)
  unfolding admit
  admit_own log valid = known log (lookup key log) refl valid

same_key_apart :
    (x k key : Key) → same_key k key ≡ false → same_key x k ≡ true → same_key x key ≡ false
unfolding same_key
same_key_apart x k key apart e = elim (Bool-cases (same_key x key)) [
  | inr f ↦ f
  | inl f ↦
      let (b, c) =
        and_true (bucket_number x.bucket == bucket_number k.bucket) (same x.client k.client) e in
      let (b', c') =
        and_true (bucket_number x.bucket == bucket_number key.bucket) (same x.client key.client)
          f in
      let buckets : (bucket_number k.bucket == bucket_number key.bucket) ≡ true =
        ground (arith, b, b') in
      let clients : same k.client key.client ≡ true =
        subst (λ t. same t key.client ≡ true) (same_sound x.client k.client c) c' in
      absurd (cc (rw (buckets, clients) at apart))
]

lookup-update_apart :
    (key k : Key) (events : List ℕ) (log : List Entry)
    → same_key k key ≡ false
    → lookup key (update k events log) ≡ lookup key log
unfolding lookup update
lookup-update_apart key k events [] apart = refl
lookup-update_apart key k events (x ∷ log) apart = elim (Bool-cases (same_key x.key k)) [
  | inl e ↦ rw (e, same_key_apart x.key k key apart e) refl
  | inr e ↦ rw e (elim (Bool-cases (same_key x.key key)) [
    | inl f ↦ rw f refl
    | inr f ↦ rw f (lookup-update_apart key k events log apart)
  ])
]

lookup-append_apart :
    (key : Key) (x : Entry) (log : List Entry)
    → same_key x.key key ≡ false
    → lookup key (log ++ x ∷ []) ≡ lookup key log
unfolding lookup
lookup-append_apart key x [] apart = rw apart refl
lookup-append_apart key x (y ∷ log) apart = elim (Bool-cases (same_key y.key key)) [
  | inl e ↦ rw e refl
  | inr e ↦ rw e (lookup-append_apart key x log apart)
]

-- The request is of a key that the log does not have, and the log is full.
abbrev pub evicts : Limiter → Key → List Entry → Bool
evicts l k log = not (is_some (lookup k log)) && leb l.max_keys (length log)

-- A request of another key leaves the deque of this one as it was, unless a key has to make room.
pub admit_apart :
    (l : Limiter) (key k : Key) (now : ℕ) (log : List Entry)
    → same_key k key ≡ false
    → evicts l k log ≡ false
    → lookup key (admit l k now log).1 ≡ lookup key log
unfolding admit
admit_apart l key k now log apart kept = go (lookup k log) kept
  where
    go :
        (found : Option (List ℕ))
        → (not (is_some found) && leb l.max_keys (length log)) ≡ false
        → lookup key (admit_known l k now log found).1 ≡ lookup key log
    go (some events) h = lookup-update_apart key k _ log apart
    go none h = rw h (lookup-append_apart key _ log apart)

pub decide-cases :
    (l : Limiter) (bucket : Bucket) (now : ℕ) (events : List ℕ)
    → 0 < l.limits bucket
    → ((decide l bucket now events ≡ (Decision.admitted, events ++ now ∷ []))
        × (length events < l.limits bucket))
      ⊎ ((e : ℕ) × (rest : List ℕ) × (events ≡ e ∷ rest)
          × (decide l bucket now events ≡ (Decision.limited (retry_after l now e), events))
          × (l.limits bucket ≤ length events))
unfolding decide
decide-cases l bucket now [] positive = inl (ground arith, positive)
decide-cases l bucket now (e ∷ rest) positive =
    elim (Bool-cases (leb (l.limits bucket) (length (e ∷ rest)))) [
      | inl full ↦ inr (e, rest, refl, rw full refl, ground (arith, full))
      | inr room ↦ inl (rw room refl, ground (arith, room))
    ]
