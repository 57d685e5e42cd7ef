-- ===== src/Worker/Delivery.antt =====
-- jobs.py under its queue: `process_document` is run again after each `Retry`, at most
-- `max_tries = 3` times (apps/worker/evidencedesk_worker/main.py, `WorkerSettings`).
use evidencedesk.Prelude.{
  ℕ, suc, ◌+◌, ◌≤◌, ◌<◌, ◌≡◌, refl, Option, none, some, List, [], ◌∷◌, arith, length, All,
  Bool-cases, inl, inr,
}
use evidencedesk.Db.{Desk}
use evidencedesk.Worker.Transactions.{JobResult, Begun, begin_processing}
use evidencedesk.Worker.Stages.{Pipeline}
use evidencedesk.Worker.Run.{Schedule, after_begin, process_document}
use evidencedesk.Worker.Interleaving.{IsPolite, IsKept, after_begin-keeps}
use evidencedesk.Worker.Retries.{Retries, NoRetry, RetriesOf, process_document-RetriesOf}
use evidencedesk.Worker.Tries.{
  TriedAtLeast, storage-TriedAtLeast, parse-TriedAtLeast, processing-TriedAtLeast,
  complete-TriedAtLeast, BegunTries, begin-BegunTries,
}

abbrev next : (Desk → Option JobResult × Desk) → JobResult × Desk → Option JobResult × Desk
next again (JobResult.retry defer, desk) = again desk
next again (result, desk) = (some result, desk)

-- One run for each schedule, until a run ends without a `Retry`; `none` if none does.
unfoldable pub deliver : Pipeline → ℕ → ℕ → List Schedule → Desk → Option JobResult × Desk
deliver p document_id task_id [] desk = (none, desk)
deliver p document_id task_id (sc ∷ scs) desk =
    next (deliver p document_id task_id scs) (process_document p sc document_id task_id desk)

-- No session of the schedule lowers the number of attempts.
abbrev pub KeepsTries : ℕ → Schedule → Type 0
KeepsTries task_id sc = (n : ℕ) → IsPolite (TriedAtLeast n task_id) sc

begun_weaken :
    (n document_id task_id now : ℕ) (desk : Desk) (tried : TriedAtLeast n task_id desk)
    (begun : Begun × Desk)
    → BegunTries n document_id task_id now desk tried begun
    → TriedAtLeast n task_id begun.1
begun_weaken n k i now desk tried (Begun.finished r, desk') h = h
begun_weaken n k i now desk tried (Begun.working work, desk') h = λ t e. omega (arith, h.1 t e)

tries_IsKept : (n document_id task_id : ℕ) → IsKept (TriedAtLeast n task_id) document_id task_id
tries_IsKept n k i = record {
  begun = λ now d h. begun_weaken n k i now d h _ (begin-BegunTries n k i now d h);
  storage = λ now d again h. storage-TriedAtLeast n k i now d h again;
  parse = λ now d code h. parse-TriedAtLeast n k i now d h code;
  processing = λ now d again h. processing-TriedAtLeast n k i now d h again;
  completed = λ now d models payload own h. complete-TriedAtLeast n k i now d h models payload;
  counted = λ m d h. h;
}

-- After `n` attempts a run asks for another one only if it is not the third, and counts itself.
abbrev Progress : ℕ → ℕ → JobResult × Desk → Type 0
Progress n task_id (JobResult.retry defer, desk) = (suc n < 3) × TriedAtLeast (suc n) task_id desk
Progress n task_id _ = Unit

module _ (p : Pipeline) (document_id task_id : ℕ) where
  Retries-Progress :
      (n attempt : ℕ) (end : JobResult × Desk)
      → Retries attempt end.0
      → suc n ≤ attempt
      → TriedAtLeast (suc n) task_id end.1
      → Progress n task_id end
  Retries-Progress n attempt (JobResult.retry defer, desk) r more tried = (omega arith, tried)
  Retries-Progress n attempt (JobResult.missing, desk) r more tried = tt
  Retries-Progress n attempt (_, desk) r more tried = tt

  NoRetry-Progress : (n : ℕ) (end : JobResult × Desk) → NoRetry end.0 → Progress n task_id end
  NoRetry-Progress n (JobResult.retry defer, desk) h = absurd h
  NoRetry-Progress n (JobResult.missing, desk) h = tt
  NoRetry-Progress n (_, desk) h = tt

  process_document-Progress :
      (sc : Schedule) (n : ℕ) (desk : Desk)
      → KeepsTries task_id sc
      → TriedAtLeast n task_id desk
      → Progress n task_id (process_document p sc document_id task_id desk)
  unfolding process_document
  process_document-Progress sc n desk polite tried =
      let retries = process_document-RetriesOf p sc document_id task_id desk in
      elim (Bool-cases sc.begin_ok) [
        | inl e ↦ rw e (
            go (begin_processing document_id task_id sc.started desk)
              (rw (process_document, e) at retries)
              (begin-BegunTries n document_id task_id sc.started desk tried))
        | inr e ↦ rw e tt
      ]
    where
      go :
          (begun : Begun × Desk)
          → RetriesOf begun.0 (after_begin p sc document_id task_id begun).0
          → BegunTries n document_id task_id sc.started desk tried begun
          → Progress n task_id (after_begin p sc document_id task_id begun)
      go (Begun.finished r, desk') h b = NoRetry-Progress n _ h
      go (Begun.working work, desk') h b = Retries-Progress n work.attempt _ h b.0 (
          after_begin-keeps (TriedAtLeast (suc n) task_id) p sc (polite (suc n)) document_id task_id
            (tries_IsKept (suc n) document_id task_id) (Begun.working work, desk') b.1)

  next-settles :
      (again : Desk → Option JobResult × Desk) (n : ℕ) (end : JobResult × Desk)
      → Progress n task_id end
      → ((desk : Desk)
          → suc n < 3
          → TriedAtLeast (suc n) task_id desk
          → (r : JobResult) × ((again desk).0 ≡ some r))
      → (r : JobResult) × ((next again end).0 ≡ some r)
  next-settles again n (JobResult.retry defer, desk) h k = k desk h.0 h.1
  next-settles again n (JobResult.missing, desk) h k = (JobResult.missing, refl)
  next-settles again n (r, desk) h k = (r, refl)

  deliver_from :
      (scs : List Schedule) (n : ℕ) (desk : Desk)
      → All (KeepsTries task_id) scs
      → 3 ≤ n + length scs
      → n < 3
      → TriedAtLeast n task_id desk
      → (r : JobResult) × ((deliver p document_id task_id scs desk).0 ≡ some r)
  unfolding deliver
  deliver_from [] n desk polite enough few tried = absurd (omega arith)
  deliver_from (sc ∷ scs) n desk polite enough few tried =
      next-settles (deliver p document_id task_id scs) n
        (process_document p sc document_id task_id desk)
        (process_document-Progress sc n desk polite.0 tried)
        λ desk' few' tried'. deliver_from scs (suc n) desk' polite.1 (omega arith) few' tried'

  -- Three deliveries are enough: within them a run ends without a `Retry`, whatever the desk and
  -- whatever the runs meet, if no other session lowers the number of attempts.
  pub deliver_settles :
      (a b c : Schedule) (desk : Desk)
      → KeepsTries task_id a
      → KeepsTries task_id b
      → KeepsTries task_id c
      → (r : JobResult) × ((deliver p document_id task_id (a ∷ b ∷ c ∷ []) desk).0 ≡ some r)
  deliver_settles a b c desk pa pb pc =
      deliver_from (a ∷ b ∷ c ∷ []) 0 desk (pa, (pb, (pc, tt))) (omega arith) (omega arith)
        (λ t e. omega arith)
