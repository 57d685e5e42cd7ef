-- ===== src/Worker/Derived.antt =====
-- jobs.py: what the stages hand to the last transaction.
use evidencedesk.Prelude.{ℕ, suc, ◌≡◌, refl, Text, List, [], ◌∷◌, map, All}
use evidencedesk.Json.{Json}
use evidencedesk.Db.{Chunk}
use evidencedesk.Processing.{
  Attempt, value, parse_error, exception, ParsedPage, DocumentChunk, ◌>>=◌,
}
use evidencedesk.Worker.Stages.{Pipeline, Built, build, build_all, derive}

abbrev chunk_of : Built → Chunk
chunk_of b = b.chunk

-- What holds of a value that an attempt ends with.
abbrev pub Ensures : {A : Type 0} → (A → Type 0) → Attempt A → Type 0
Ensures P (value a) = P a
Ensures P (parse_error c) = Unit
Ensures P exception = Unit

pub Ensures-bind :
    {A B : Type 0} (P : A → Type 0) (Q : B → Type 0) (m : Attempt A) (f : A → Attempt B)
    → Ensures P m
    → ((a : A) → P a → Ensures Q (f a))
    → Ensures Q (m >>= f)
Ensures-bind P Q (value a) f h k = k a h
Ensures-bind P Q (parse_error c) f h k = tt
Ensures-bind P Q exception f h k = tt

pub Ensures-trivial : {A : Type 0} (m : Attempt A) → Ensures (λ a. Unit {0}) m
Ensures-trivial (value a) = tt
Ensures-trivial (parse_error c) = tt
Ensures-trivial exception = tt

module _ (p : Pipeline) (document_id : ℕ) (document_name : Text) (uuid : ℕ → ℕ) where
  abbrev pub IsOwn : Chunk → Type 0
  IsOwn c = c.document_id ≡ document_id

  build_all-IsOwn :
      (n : ℕ) (cs : List DocumentChunk) (es : List (List ℕ))
      → Ensures
          (λ built. All IsOwn (map chunk_of built))
          (build_all p document_id document_name uuid n cs es)
  unfolding build_all build
  build_all-IsOwn n [] [] = tt
  build_all-IsOwn n [] (e ∷ es) = tt
  build_all-IsOwn n (c ∷ cs) [] = tt
  build_all-IsOwn n (c ∷ cs) (e ∷ es) =
      Ensures-bind _ _ (build_all p document_id document_name uuid (suc n) cs es) _
        (build_all-IsOwn (suc n) cs es) (λ built own. (refl, own))

  pub derive-IsOwn :
      (pages : List ParsedPage)
      → Ensures
          (λ (out : List Chunk × Json). All IsOwn out.0)
          (derive p document_id document_name uuid pages)
  unfolding derive
  derive-IsOwn pages = Ensures-bind _ _ (p.chunk_pages _) _ (Ensures-trivial _) λ parsed _.
      Ensures-bind _ _ (p.embed_many _) _ (Ensures-trivial _) λ embeddings _.
        Ensures-bind _ _ (build_all p document_id document_name uuid 0 parsed embeddings) _
          (build_all-IsOwn 0 parsed embeddings)
          λ built own. Ensures-bind _ _ (p.extract _) _ (Ensures-trivial _) λ payload _. own
