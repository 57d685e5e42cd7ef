-- ===== src/Worker/Locking.antt =====
-- jobs.py: what `_locked_task_and_document` and the tests behind it tell of the two rows.
use evidencedesk.Prelude.{ℕ, ◌≡◌, ◌⊎◌, inl, inr, refl, sym, ◌∙◌, ap, Bool, true, false, some, arith}
use evidencedesk.Db.{Document, ProcessingTask, Desk}
use evidencedesk.Db.Rows.{find_document, find_task, is_deleted, id-find_document, id-find_task}
use evidencedesk.Db.Sound.{IsSound, status_is_deleted}
use evidencedesk.Worker.Transactions.{Locked, locked_task_and_document}

-- The rows that a transaction holds.
pub record IsHeld (task_id document_id : ℕ) (desk : Desk) (gone : Bool) (t : ProcessingTask)
    (d : Document) : Type 0 where
  pub task_row : find_task task_id desk.tasks ≡ some t
  pub document_row : find_document document_id desk.documents ≡ some d
  pub owned : t.document_id ≡ document_id
  pub gone_or_live : is_deleted d ≡ gone

module _ (task_id document_id : ℕ) (desk : Desk) (t : ProcessingTask) (d : Document) where
  pub live-IsHeld :
      locked_task_and_document task_id document_id desk ≡ Locked.live t d
      → IsHeld task_id document_id desk false t d
  unfolding locked_task_and_document
  live-IsHeld h = ground arith

  pub deleted-IsHeld :
      locked_task_and_document task_id document_id desk ≡ Locked.deleted t d
      → IsHeld task_id document_id desk true t d
  unfolding locked_task_and_document
  deleted-IsHeld h = ground arith

  -- The held rows, under the keys that they carry.
  module _ {gone : Bool} (held : IsHeld task_id document_id desk gone t d) where
    pub held_task_id : t.id ≡ task_id
    held_task_id = id-find_task task_id desk.tasks t held.task_row

    pub held_document_id : d.id ≡ document_id
    held_document_id = id-find_document document_id desk.documents d held.document_row

    pub held_task : find_task t.id desk.tasks ≡ some t
    held_task = ap (λ k. find_task k desk.tasks) held_task_id ∙ held.task_row

    pub held_document : find_document d.id desk.documents ≡ some d
    held_document = ap (λ k. find_document k desk.documents) held_document_id ∙ held.document_row

    pub held_owned : t.document_id ≡ d.id
    held_owned = held.owned ∙ sym held_document_id

-- In sound rows either mark of a deleted document is enough.
pub is_deleted-IsSound :
    {task_id document_id : ℕ} {desk : Desk} {gone : Bool} {t : ProcessingTask} {d : Document}
    → IsSound desk
    → IsHeld task_id document_id desk gone t d
    → status_is_deleted d.status ≡ gone
is_deleted-IsSound {document_id = k} {d = d} s held = ground (arith, s.marked k d held.document_row)

-- How a transaction finds its rows, with what that tells of them.
pub Locked-cases :
    (task_id document_id : ℕ) (desk : Desk)
    → (locked_task_and_document task_id document_id desk ≡ Locked.missing)
      ⊎ ((t : ProcessingTask) × (d : Document) × (locked_task_and_document task_id document_id desk
            ≡ Locked.deleted t d)
          × IsHeld task_id document_id desk true t d)
      ⊎ ((t : ProcessingTask) × (d : Document) × (locked_task_and_document task_id document_id desk
            ≡ Locked.live t d)
          × IsHeld task_id document_id desk false t d)
Locked-cases task_id document_id desk = go (locked_task_and_document task_id document_id desk) refl
  where
    go :
        (l : Locked)
        → locked_task_and_document task_id document_id desk ≡ l
        → (locked_task_and_document task_id document_id desk ≡ Locked.missing)
          ⊎ ((t : ProcessingTask) × (d : Document) × (locked_task_and_document task_id document_id
                  desk
                ≡ Locked.deleted t d)
              × IsHeld task_id document_id desk true t d)
          ⊎ ((t : ProcessingTask) × (d : Document) × (locked_task_and_document task_id document_id
                  desk
                ≡ Locked.live t d)
              × IsHeld task_id document_id desk false t d)
    go Locked.missing e = inl e
    go (Locked.deleted t d) e = inr (inl (t, d, e, deleted-IsHeld task_id document_id desk t d e))
    go (Locked.live t d) e = inr (inr (t, d, e, live-IsHeld task_id document_id desk t d e))
