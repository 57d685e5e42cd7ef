-- ===== src/BodyLimit/Promise.antt =====
-- request_limits.py: what the limit on request bodies promises the application and the client.
use evidencedesk.Prelude.{
  ℕ, suc, ◌+◌, ◌≤◌, ◌<◌, ◌≡◌, refl, ap, Bytes, Bool, true, false, Option, none, some, List, [], ◌∷◌,
  ◌||◌, arith, ltb, length, Bool-cases, inl, inr,
}
use evidencedesk.BodyLimit.{
  Received, Sent, App, sending, giving, size_of, run, is_start, limited, Header, declared_length,
  within, handle,
}

-- Once the limit is passed, the application is given no more of the body.
limited_over :
    (max_bytes consumed : ℕ) (started : Bool) (app : App) (ms : List Received)
    → max_bytes < consumed
    → (limited max_bytes consumed started app ms).given ≡ 0
unfolding limited
limited_over max_bytes consumed started App.done ms h = refl
limited_over max_bytes consumed started App.raised ms h = refl
limited_over max_bytes consumed true App.too_large ms h = refl
limited_over max_bytes consumed false App.too_large ms h = refl
limited_over max_bytes consumed started (App.receive k) [] h =
    limited_over max_bytes consumed started (k (some Received.disconnect)) [] h
limited_over max_bytes consumed started (App.receive k) (Received.disconnect ∷ ms) h =
    limited_over max_bytes consumed started (k (some Received.disconnect)) ms h
limited_over max_bytes consumed started (App.receive k) (Received.body b more ∷ ms) h =
    let over : ltb max_bytes (consumed + length b) ≡ true = ground arith in
    rw over (limited_over max_bytes (consumed + length b) started (k none) ms (omega arith))
limited_over max_bytes consumed started (App.send o next) ms h =
    limited_over max_bytes consumed (started || is_start o) next ms h

limited_bound :
    (max_bytes consumed : ℕ) (started : Bool) (app : App) (ms : List Received)
    → consumed ≤ max_bytes
    → consumed + (limited max_bytes consumed started app ms).given ≤ max_bytes
unfolding limited
limited_bound max_bytes consumed started App.done ms h = omega arith
limited_bound max_bytes consumed started App.raised ms h = omega arith
limited_bound max_bytes consumed true App.too_large ms h = omega arith
limited_bound max_bytes consumed false App.too_large ms h = omega arith
limited_bound max_bytes consumed started (App.receive k) [] h =
    limited_bound max_bytes consumed started (k (some Received.disconnect)) [] h
limited_bound max_bytes consumed started (App.receive k) (Received.disconnect ∷ ms) h =
    limited_bound max_bytes consumed started (k (some Received.disconnect)) ms h
limited_bound max_bytes consumed started (App.receive k) (Received.body b more ∷ ms) h =
    elim (Bool-cases (ltb max_bytes (consumed + length b))) [
      | inl e ↦ rw e (
          omega (
            arith,
            h,
            limited_over max_bytes (consumed + length b) started (k none) ms (ground arith),
          ))
      | inr e ↦ rw e (
          omega (
            arith,
            limited_bound max_bytes (consumed + length b) started (k (some (Received.body b more)))
                ms (ground arith),
          ))
    ]
limited_bound max_bytes consumed started (App.send o next) ms h =
    limited_bound max_bytes consumed (started || is_start o) next ms h

-- Whatever the application does and whatever the server sends, the application is given no more
-- bytes of the body than allowed.
pub handle_bound :
    (to_int : Bytes → Option ℕ) (max_bytes : ℕ) (headers : List Header) (app : App)
    (ms : List Received)
    → (handle to_int max_bytes headers app ms).given ≤ max_bytes
unfolding handle
handle_bound to_int max_bytes headers app ms =
    elim (Bool-cases (within max_bytes (declared_length to_int headers))) [
      | inl e ↦ rw e (omega (arith, limited_bound max_bytes 0 false app ms (omega arith)))
      | inr e ↦ rw e (omega arith)
    ]

-- An application that lets `RequestBodyTooLarge` escape only where `receive` raised it
abbrev pub IsHonest : App → Type 0
IsHonest App.done = Unit
IsHonest App.raised = Unit
IsHonest App.too_large = ⊥
IsHonest (App.receive k) = (m : Received) → IsHonest (k (some m))
IsHonest (App.send o next) = IsHonest next

-- The bytes of the body that the server still gives
abbrev pub total : List Received → ℕ
total [] = 0
total (m ∷ ms) = size_of m + total ms

limited-run :
    (max_bytes consumed : ℕ) (started : Bool) (app : App) (ms : List Received)
    → IsHonest app
    → consumed + total ms ≤ max_bytes
    → limited max_bytes consumed started app ms ≡ run app ms
unfolding limited run
limited-run max_bytes consumed started App.done ms honest h = refl
limited-run max_bytes consumed started App.raised ms honest h = refl
limited-run max_bytes consumed started App.too_large ms honest h = absurd honest
limited-run max_bytes consumed started (App.receive k) [] honest h =
    limited-run max_bytes consumed started (k (some Received.disconnect)) []
      (honest Received.disconnect) h
limited-run max_bytes consumed started (App.receive k) (Received.disconnect ∷ ms) honest h =
    limited-run max_bytes consumed started (k (some Received.disconnect)) ms
      (honest Received.disconnect) (omega arith)
limited-run max_bytes consumed started (App.receive k) (Received.body b more ∷ ms) honest h =
    let fits : ltb max_bytes (consumed + length b) ≡ false = ground arith in
    rw fits (
      ap (giving (length b)) (
        limited-run max_bytes (consumed + length b) started (k (some (Received.body b more))) ms
          (honest (Received.body b more)) (omega arith)))
limited-run max_bytes consumed started (App.send o next) ms honest h =
    ap (sending o) (limited-run max_bytes consumed (started || is_start o) next ms honest h)

-- A request whose body fits, and that declares no length beyond the limit, is answered as by the
-- application on its own, if the application does not make up a `RequestBodyTooLarge`.
pub handle-run :
    (to_int : Bytes → Option ℕ) (max_bytes : ℕ) (headers : List Header) (app : App)
    (ms : List Received)
    → IsHonest app
    → total ms ≤ max_bytes
    → within max_bytes (declared_length to_int headers) ≡ true
    → handle to_int max_bytes headers app ms ≡ run app ms
unfolding handle
handle-run to_int max_bytes headers app ms honest fits declared =
    rw declared (limited-run max_bytes 0 false app ms honest (omega arith))

-- The number of responses that a client sees started
abbrev pub starts : List Sent → ℕ
starts [] = 0
starts (Sent.response_start status ∷ rest) = suc (starts rest)
starts (Sent.response_body b ∷ rest) = starts rest

-- An application that starts no response after a response was started
abbrev pub StartsOnce : Bool → App → Type 0
StartsOnce started App.done = Unit
StartsOnce started App.raised = Unit
StartsOnce started App.too_large = Unit
StartsOnce started (App.receive k) = (m : Option Received) → StartsOnce started (k m)
StartsOnce started (App.send (Sent.response_start status) next) =
    (started ≡ false) × StartsOnce true next
StartsOnce started (App.send (Sent.response_body b) next) = StartsOnce started next

abbrev allowed : Bool → ℕ
allowed true = 0
allowed false = 1

starts-limited :
    (max_bytes consumed : ℕ) (started : Bool) (app : App) (ms : List Received)
    → StartsOnce started app
    → starts (limited max_bytes consumed started app ms).sent ≤ allowed started
unfolding limited
starts-limited max_bytes consumed started App.done ms once = omega arith
starts-limited max_bytes consumed started App.raised ms once = omega arith
starts-limited max_bytes consumed true App.too_large ms once = omega arith
starts-limited max_bytes consumed false App.too_large ms once = omega arith
starts-limited max_bytes consumed started (App.receive k) [] once =
    starts-limited max_bytes consumed started (k (some Received.disconnect)) []
      (once (some Received.disconnect))
starts-limited max_bytes consumed started (App.receive k) (Received.disconnect ∷ ms) once =
    starts-limited max_bytes consumed started (k (some Received.disconnect)) ms
      (once (some Received.disconnect))
starts-limited max_bytes consumed started (App.receive k) (Received.body b more ∷ ms) once =
    elim (Bool-cases (ltb max_bytes (consumed + length b))) [
      | inl e ↦
          rw e (starts-limited max_bytes (consumed + length b) started (k none) ms (once none))
      | inr e ↦ rw e (
          starts-limited max_bytes (consumed + length b) started (k (some (Received.body b more)))
            ms (once (some (Received.body b more))))
    ]
starts-limited max_bytes consumed true (App.send (Sent.response_start status) next) ms once = cc
starts-limited max_bytes consumed false (App.send (Sent.response_start status) next) ms once =
    omega (arith, starts-limited max_bytes consumed true next ms once.1)
starts-limited max_bytes consumed true (App.send (Sent.response_body b) next) ms once =
    starts-limited max_bytes consumed true next ms once
starts-limited max_bytes consumed false (App.send (Sent.response_body b) next) ms once =
    starts-limited max_bytes consumed false next ms once

-- The client never sees a second response started, if the application itself starts at most one.
pub starts-handle :
    (to_int : Bytes → Option ℕ) (max_bytes : ℕ) (headers : List Header) (app : App)
    (ms : List Received)
    → StartsOnce false app
    → starts (handle to_int max_bytes headers app ms).sent ≤ 1
unfolding handle
starts-handle to_int max_bytes headers app ms once =
    elim (Bool-cases (within max_bytes (declared_length to_int headers))) [
      | inl e ↦ rw e (starts-limited max_bytes 0 false app ms once)
      | inr e ↦ rw e (omega arith)
    ]
