-- ===== src/Api/Status.antt =====
-- main.py: the counts of `admin_status`.
use evidencedesk.Prelude.{
  ℕ, suc, ◌≡◌, refl, arith, ap, ◌∙◌, Bool, true, false, Option, none, some, List, [], ◌∷◌, ◌==◌,
  ◌&&◌, ◌||◌, not, select, length, if◌then◌else◌, is_some, Bool-cases, inl, inr,
}
use evidencedesk.Db.{Document, DocumentStatus, ProcessingTask, TaskStatus, Desk}
use evidencedesk.Api.Responses.{Response, reply}

abbrev pub status_number : DocumentStatus → ℕ
status_number DocumentStatus.queued = 0
status_number DocumentStatus.processing = 1
status_number DocumentStatus.completed = 2
status_number DocumentStatus.failed = 3
status_number DocumentStatus.deleted = 4

unfoldable pub same_status : DocumentStatus → DocumentStatus → Bool
same_status s t = status_number s == status_number t

-- A group of a status: its number of rows, or a new group
unfoldable pub count_status : DocumentStatus → List (DocumentStatus × ℕ) → List (DocumentStatus × ℕ)
unfolding same_status
count_status s [] = (s, 1) ∷ []
count_status s ((t, n) ∷ rest) =
    let later = count_status s rest in if same_status s t then (t, suc n) ∷ rest else (t, n) ∷ later

-- `group_by(Document.status)` on the documents that are not deleted
unfoldable pub grouped : List Document → List (DocumentStatus × ℕ)
unfolding count_status
grouped [] = []
grouped (d ∷ rest) =
    let others = grouped rest in
    if is_some d.deleted_at then others else count_status d.status others

-- `documents.setdefault(status.value, 0)`
unfoldable pub set_default : DocumentStatus → List (DocumentStatus × ℕ) → List (DocumentStatus × ℕ)
unfolding same_status
set_default s [] = (s, 0) ∷ []
set_default s ((t, n) ∷ rest) =
    let later = set_default s rest in if same_status s t then (t, n) ∷ rest else (t, n) ∷ later

unfoldable pub set_defaults :
    List DocumentStatus → List (DocumentStatus × ℕ) → List (DocumentStatus × ℕ)
unfolding set_default
set_defaults [] counts = counts
set_defaults (s ∷ rest) counts = set_defaults rest (set_default s counts)

abbrev statuses : List DocumentStatus
statuses =
    DocumentStatus.queued ∷ DocumentStatus.processing ∷ DocumentStatus.completed
    ∷ DocumentStatus.failed ∷ DocumentStatus.deleted ∷ []

abbrev pub has_failed : TaskStatus → Bool
has_failed TaskStatus.failed = true
has_failed _ = false

pub record Status : Type 0 where
  pub documents : List (DocumentStatus × ℕ)
  pub failed_tasks : ℕ

-- `admin_status`, apart from the two settings that it repeats
unfoldable pub admin_status : Desk → Response Status
unfolding grouped set_defaults
admin_status desk = reply 200 (record {
  documents = set_defaults statuses (grouped desk.documents);
  failed_tasks = length (select (λ (t : ProcessingTask). has_failed t.status) desk.tasks);
})

-- What a dictionary of counts has for a status
unfoldable pub count_at : DocumentStatus → List (DocumentStatus × ℕ) → Option ℕ
unfolding same_status
count_at s [] = none
count_at s ((t, n) ∷ rest) =
    let later = count_at s rest in if same_status s t then some n else later

abbrev pub is_counted : DocumentStatus → Document → Bool
is_counted s d = not (is_some d.deleted_at) && same_status s d.status

abbrev or_zero : Option ℕ → ℕ
or_zero none = 0
or_zero (some n) = n

abbrev among : DocumentStatus → List DocumentStatus → Bool
among s [] = false
among s (t ∷ rest) = same_status s t || among s rest

moved : (a b c : Bool) → (b || (a || c)) ≡ (a || b || c)
moved true true c = refl
moved true false c = refl
moved false b c = refl

same_number : (a b c : ℕ) → (b == c) ≡ true → (a == b) ≡ (a == c)
same_number a b c e = ground arith

other_number : (a b c : ℕ) → (b == c) ≡ false → (a == c) ≡ true → (a == b) ≡ false
other_number a b c e f = ground arith

module _ (s : DocumentStatus) where
  same_status_on :
      (t u : DocumentStatus) → same_status t u ≡ true → same_status s t ≡ same_status s u
  unfolding same_status
  same_status_on t u e = same_number (status_number s) (status_number t) (status_number u) e

  same_status_off :
      (t u : DocumentStatus)
      → same_status t u ≡ false
      → same_status s u ≡ true
      → same_status s t ≡ false
  unfolding same_status
  same_status_off t u e f = other_number (status_number s) (status_number t) (status_number u) e f

  count_at-count_status :
      (t : DocumentStatus) (counts : List (DocumentStatus × ℕ))
      → or_zero (count_at s (count_status t counts)) ≡ (
          if same_status s t
          then suc (or_zero (count_at s counts))
          else or_zero (count_at s counts))
  unfolding count_at count_status
  count_at-count_status t [] = elim (Bool-cases (same_status s t)) [
    | inl e ↦ rw e refl
    | inr e ↦ rw e refl
  ]
  count_at-count_status t ((u, n) ∷ rest) = elim (Bool-cases (same_status t u)) [
    | inl e ↦ elim (Bool-cases (same_status s u)) [
      | inl f ↦ rw (e, same_status_on t u e, f) refl
      | inr f ↦ rw (e, same_status_on t u e, f) refl
    ]
    | inr e ↦ elim (Bool-cases (same_status s u)) [
      | inl f ↦ rw (e, same_status_off t u e f, f) refl
      | inr f ↦ rw (e, f) (count_at-count_status t rest)
    ]
  ]

  count_at-grouped :
      (documents : List Document)
      → or_zero (count_at s (grouped documents)) ≡ length (select (is_counted s) documents)
  unfolding grouped count_at
  count_at-grouped [] = refl
  count_at-grouped (d ∷ rest) = elim (Bool-cases (is_some d.deleted_at)) [
    | inl e ↦ rw e (count_at-grouped rest)
    | inr e ↦
        rw (e, count_at-count_status d.status (grouped rest), count_at-grouped rest)
          (elim (Bool-cases (same_status s d.status)) [ inl f ↦ rw f refl | inr f ↦ rw f refl ])
  ]

  zero-set_default :
      (t : DocumentStatus) (counts : List (DocumentStatus × ℕ))
      → or_zero (count_at s (set_default t counts)) ≡ or_zero (count_at s counts)
  unfolding count_at set_default
  zero-set_default t [] = elim (Bool-cases (same_status s t)) [
    | inl e ↦ rw e refl
    | inr e ↦ rw e refl
  ]
  zero-set_default t ((u, n) ∷ rest) = elim (Bool-cases (same_status t u)) [
    | inl e ↦ rw e refl
    | inr e ↦ elim (Bool-cases (same_status s u)) [
      | inl f ↦ rw (e, f) refl
      | inr f ↦ rw (e, f) (zero-set_default t rest)
    ]
  ]

  zero-set_defaults :
      (all : List DocumentStatus) (counts : List (DocumentStatus × ℕ))
      → or_zero (count_at s (set_defaults all counts)) ≡ or_zero (count_at s counts)
  unfolding set_defaults
  zero-set_defaults [] counts = refl
  zero-set_defaults (t ∷ rest) counts =
      zero-set_defaults rest (set_default t counts) ∙ zero-set_default t counts

  some-set_default :
      (t : DocumentStatus) (counts : List (DocumentStatus × ℕ))
      → is_some (count_at s (set_default t counts)) ≡ same_status s t || is_some (count_at s counts)
  unfolding count_at set_default
  some-set_default t [] = elim (Bool-cases (same_status s t)) [
    | inl e ↦ rw e refl
    | inr e ↦ rw e refl
  ]
  some-set_default t ((u, n) ∷ rest) = elim (Bool-cases (same_status t u)) [
    | inl e ↦ elim (Bool-cases (same_status s u)) [
      | inl f ↦ rw (e, same_status_on t u e, f) refl
      | inr f ↦ rw (e, same_status_on t u e, f) refl
    ]
    | inr e ↦ elim (Bool-cases (same_status s u)) [
      | inl f ↦ rw (e, same_status_off t u e f, f) refl
      | inr f ↦ rw (e, f) (some-set_default t rest)
    ]
  ]

  some-set_defaults :
      (all : List DocumentStatus) (counts : List (DocumentStatus × ℕ))
      → (among s all || is_some (count_at s counts)) ≡ true
      → is_some (count_at s (set_defaults all counts)) ≡ true
  unfolding set_defaults
  some-set_defaults [] counts h = h
  some-set_defaults (t ∷ rest) counts h = some-set_defaults rest (set_default t counts) (
      ap (λ b. among s rest || b) (some-set_default t counts)
      ∙ moved (same_status s t) (among s rest) (is_some (count_at s counts))
      ∙ h)

every_status : (s : DocumentStatus) → among s statuses ≡ true
unfolding same_status
every_status DocumentStatus.queued = refl
every_status DocumentStatus.processing = refl
every_status DocumentStatus.completed = refl
every_status DocumentStatus.failed = refl
every_status DocumentStatus.deleted = refl

counted : (o : Option ℕ) (n : ℕ) → is_some o ≡ true → or_zero o ≡ n → o ≡ some n
counted none n h e = cc
counted (some m) n h e = ap (λ k. some k) e

-- The status reports, for every status, how many documents have it that are not deleted, zero included.
pub admin_status_counts :
    (s : DocumentStatus) (desk : Desk)
    → (status : Status) × (admin_status desk ≡ reply 200 status)
      × (count_at s status.documents ≡ some (length (select (is_counted s) desk.documents)))
unfolding admin_status
admin_status_counts s desk = (
  _,
  refl,
  counted (count_at s (set_defaults statuses (grouped desk.documents)))
      (length (select (is_counted s) desk.documents))
      (some-set_defaults s statuses (grouped desk.documents) (rw (every_status s) refl))
      (zero-set_defaults s statuses (grouped desk.documents) ∙ count_at-grouped s desk.documents),
)
