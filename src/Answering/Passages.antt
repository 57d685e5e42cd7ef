-- ===== src/Answering/Passages.antt =====
-- answering.py: the passages that `validate_grounded_answer` finds by their ids and pages.
use evidencedesk.Prelude.{
  ℕ, Text, Bool, true, false, some, List, [], ◌∷◌, ◌&&◌, ◌==◌, ◌≡◌, refl, sym, ap, ◌∙◌, subst,
  arith, All, All-mono, Any, Bool-cases, and_true, or_true, inl, inr,
}
use evidencedesk.Python.Strings.{same, same_sound}
use evidencedesk.Evidence.{EvidenceChunk}
use evidencedesk.Answering.{RankedChunk}
use evidencedesk.Answering.Validate.{every, any, put_chunk, by_id_from, get_chunk, matching}

pub every-All :
    {A : Type 0} (f : A → Bool) (xs : List A) → every f xs ≡ true → All (λ x. f x ≡ true) xs
unfolding every
every-All f [] e = tt
every-All f (x ∷ xs) e = let (h, hs) = and_true (f x) (every f xs) e in (h, every-All f xs hs)

pub any-Any : {A : Type 0} (f : A → Bool) (xs : List A) → any f xs ≡ true → Any (λ x. f x ≡ true) xs
unfolding any
any-Any f [] e = cc
any-Any f (x ∷ xs) e = elim (or_true (f x) (any f xs) e) [
  | inl h ↦ inl h
  | inr h ↦ inr (any-Any f xs h)
]

pub any-All :
    {A : Type 0} (f : A → Bool) (xs : List A) → any f xs ≡ false → All (λ x. f x ≡ false) xs
unfolding any
any-All f [] e = tt
any-All f (x ∷ xs) e = elim (Bool-cases (f x)) [
  | inl h ↦ cc (rw h at e)
  | inr h ↦ (h, any-All f xs (rw h at e))
]

-- The chunk is that of a passage of the list.
abbrev pub Retrieved : List RankedChunk → EvidenceChunk → Type 0
Retrieved ranked chunk = Any (λ (item : RankedChunk). item.chunk ≡ chunk) ranked

put_chunk-All :
    (P : EvidenceChunk → Type 0) (chunk : EvidenceChunk) (chunks : List EvidenceChunk)
    → P chunk
    → All P chunks
    → All P (put_chunk chunk chunks)
unfolding put_chunk
put_chunk-All P chunk [] h hs = (h, tt)
put_chunk-All P chunk (other ∷ rest) h (k, ks) = elim (Bool-cases (chunk.id == other.id)) [
  | inl e ↦ rw e (h, ks)
  | inr e ↦ rw e (k, put_chunk-All P chunk rest h ks)
]

by_id_from-All :
    (P : EvidenceChunk → Type 0) (chunks : List EvidenceChunk) (ranked : List RankedChunk)
    → All P chunks
    → All (λ (item : RankedChunk). P item.chunk) ranked
    → All P (by_id_from chunks ranked)
unfolding by_id_from
by_id_from-All P chunks [] h hs = h
by_id_from-All P chunks (item ∷ rest) h (k, ks) =
    by_id_from-All P (put_chunk item.chunk chunks) rest (put_chunk-All P item.chunk chunks k h) ks

each-Retrieved :
    (ranked : List RankedChunk) → All (λ (item : RankedChunk). Retrieved ranked item.chunk) ranked
each-Retrieved [] = tt
each-Retrieved (item ∷ rest) = (
  inl refl,
  All-mono (λ (i : RankedChunk). Retrieved rest i.chunk)
      (λ (i : RankedChunk). Retrieved (item ∷ rest) i.chunk) rest (λ i h. inr h)
      (each-Retrieved rest),
)

pub by_id_Retrieved : (ranked : List RankedChunk) → All (Retrieved ranked) (by_id_from [] ranked)
by_id_Retrieved ranked = by_id_from-All (Retrieved ranked) [] ranked tt (each-Retrieved ranked)

pub get_chunk-All :
    (P : EvidenceChunk → Type 0) (id : ℕ) (chunks : List EvidenceChunk) (chunk : EvidenceChunk)
    → All P chunks
    → get_chunk id chunks ≡ some chunk
    → P chunk × (id ≡ chunk.id)
unfolding get_chunk
get_chunk-All P id [] chunk h e = cc
get_chunk-All P id (other ∷ rest) chunk (h, hs) e = elim (Bool-cases (id == other.id)) [
  | inl f ↦ found f (rw f at e)
  | inr f ↦ get_chunk-All P id rest chunk hs (rw f at e)
]
  where
    found : (id == other.id) ≡ true → some other ≡ some chunk → P chunk × (id ≡ chunk.id)
    found f e =
        let is_it : other ≡ chunk = cc in
        (subst P is_it h, ground (arith, f) ∙ ap (λ (c : EvidenceChunk). c.id) is_it)

pub matching-All :
    (name : ℕ → Text) (document : Text) (page : ℕ) (P : EvidenceChunk → Type 0)
    (chunks : List EvidenceChunk)
    → All P chunks
    → All
        (λ (c : EvidenceChunk). P c × (document ≡ name c.document_id) × (page ≡ c.page))
        (matching name document page chunks)
unfolding matching
matching-All name document page P [] h = tt
matching-All name document page P (chunk ∷ rest) (h, hs) =
    elim (Bool-cases (same (name chunk.document_id) document && chunk.page == page)) [
      | inl e ↦
          let (f, g) = and_true (same (name chunk.document_id) document) (chunk.page == page) e in
          rw e (
            (h, sym (same_sound (name chunk.document_id) document f), equal g),
            matching-All name document page P rest hs,
          )
      | inr e ↦ rw e (matching-All name document page P rest hs)
    ]
  where
    equal : (chunk.page == page) ≡ true → page ≡ chunk.page
    equal g = ground (arith, g)
