-- ===== src/Retriever/Ingest/Complete.antt =====
-- What the chunks of a PDF hold: every word of its pages, under the source's name and numbered.
use flowxrag.Prelude.{
  ℕ, ◌+◌, ◌<◌, List, [], ◌∷◌, ◌++◌, Option, ◌≡◌, refl, sym, ap, ◌∙◌, subst, arith, map, keep,
  keep-append, length, Bool-cases, inl, inr, is_empty, append-nil,
}
use flowxrag.Text.{Text, concat, concat-append}
use flowxrag.Retriever.Clean.{clean_text}
use flowxrag.Retriever.Clean.Laws.{keep-clean_text}
use flowxrag.Retriever.Chunking.{split_text}
use flowxrag.Retriever.Chunking.Complete.{Embeds, none, Embeds-refl, Embeds-append, Embeds-trans}
use flowxrag.Retriever.Chunking.Whole.{is_word, word-solid, split_text-Embeds}
use flowxrag.Retriever.Ingest.{
  Chunk, Sizes, Parent, extracted, child_texts_of, children_of, parents_of, pages_of,
  chunks_from_reader,
}

abbrev pub contents : List Chunk → List Text
contents = map (λ c. c.content)

-- The word characters of several texts.
abbrev pub words : List Text → Text
words texts = keep is_word (concat texts)

words-append : (xs ys : List Text) → words (xs ++ ys) ≡ words xs ++ words ys
words-append xs ys =
    ap (keep is_word) (concat-append xs ys) ∙ keep-append is_word (concat xs) (concat ys)

contents-append : (xs ys : List Chunk) → contents (xs ++ ys) ≡ contents xs ++ contents ys
contents-append [] ys = refl
contents-append (c ∷ xs) ys = ap (◌∷◌ c.content) (contents-append xs ys)

-- Chunks in a row keep what their parts keep.
Embeds-chunks :
    (a b : Text) (xs ys : List Chunk)
    → Embeds a (words (contents xs))
    → Embeds b (words (contents ys))
    → Embeds (a ++ b) (words (contents (xs ++ ys)))
Embeds-chunks a b xs ys h k =
    subst (Embeds (a ++ b))
      (sym (ap words (contents-append xs ys) ∙ words-append (contents xs) (contents ys)))
      (Embeds-append h k)

-- The chunks carry this source, and are numbered in a row from the number on.
abbrev pub Numbered : Text → ℕ → List Chunk → Type 0
Numbered source_name count [] = Unit
Numbered source_name count (c ∷ chunks) =
    (c.source ≡ source_name) × (c.chunk_index ≡ count) × Numbered source_name (count + 1) chunks

Numbered-append :
    (source_name : Text) (count : ℕ) (xs ys : List Chunk)
    → Numbered source_name count xs
    → Numbered source_name (count + length xs) ys
    → Numbered source_name count (xs ++ ys)
Numbered-append source_name count [] ys h k = subst (λ n. Numbered source_name n ys) (omega arith) k
Numbered-append source_name count (x ∷ xs) ys (p, q, h) k = (
  p,
  q,
  Numbered-append source_name (count + 1) xs ys h
      (subst (λ n. Numbered source_name n ys) (omega arith) k),
)

module _ (sizes : Sizes) (fresh : ℕ → Text) (source_name : Text) where
  contents-children_of :
      (parent : Parent) (i u n : ℕ) (texts : List Text)
      → contents (children_of sizes fresh source_name parent i u n texts) ≡ texts
  unfolding children_of
  contents-children_of parent i u n [] = refl
  contents-children_of parent i u n (t ∷ texts) =
      ap (◌∷◌ t) (contents-children_of parent (i + 1) (u + 1) (n + 1) texts)

  children_of-Numbered :
      (parent : Parent) (i u n : ℕ) (texts : List Text)
      → Numbered source_name n (children_of sizes fresh source_name parent i u n texts)
  unfolding children_of
  children_of-Numbered parent i u n [] = tt
  children_of-Numbered parent i u n (t ∷ texts) =
      (refl, refl, children_of-Numbered parent (i + 1) (u + 1) (n + 1) texts)

  parents_of-Numbered :
      (page i u n : ℕ) (texts : List Text)
      → Numbered source_name n (parents_of sizes fresh source_name page i u n texts).0
  unfolding parents_of
  parents_of-Numbered page i u n [] = tt
  parents_of-Numbered page i u n (t ∷ texts) =
      Numbered-append source_name n _ _
        (children_of-Numbered _ 0 (u + 1) n (child_texts_of sizes fresh source_name t))
        (parents_of-Numbered page (i + 1) _ _ texts)

  pages_of-Numbered :
      (page u n : ℕ) (pages : List (Option Text))
      → Numbered source_name n (pages_of sizes fresh source_name page u n pages).0
  unfolding pages_of
  pages_of-Numbered page u n [] = tt
  pages_of-Numbered page u n (p ∷ pages) =
      Numbered-append source_name n _ _ (parents_of-Numbered page 0 u n _)
        (pages_of-Numbered (page + 1) _ _ pages)

  -- All chunks of a document carry its source name, and `chunk_index` counts them from 0 without
  -- a gap.
  pub chunks_from_reader-Numbered :
      (pages : List (Option Text))
      → Numbered source_name 0 (chunks_from_reader sizes fresh source_name pages)
  unfolding chunks_from_reader
  chunks_from_reader-Numbered pages = pages_of-Numbered 1 0 0 pages

  module _ (parent_h : 0 < sizes.parent_chunk_size) (child_h : 0 < sizes.child_chunk_size) where
    child_texts_of-Embeds :
        (t : Text) → Embeds (keep is_word t) (words (child_texts_of sizes fresh source_name t))
    unfolding child_texts_of
    child_texts_of-Embeds t =
        let texts = split_text t sizes.child_chunk_size sizes.child_chunk_overlap in
        elim (Bool-cases (is_empty texts)) [
          | inl e ↦ rw (e, append-nil t) (Embeds-refl (keep is_word t))
          | inr e ↦ rw e (split_text-Embeds t _ _ child_h)
        ]

    parents_of-Embeds :
        (page i u n : ℕ) (texts : List Text)
        → Embeds
            (words texts)
            (words (contents (parents_of sizes fresh source_name page i u n texts).0))
    unfolding parents_of
    parents_of-Embeds page i u n [] = none
    parents_of-Embeds page i u n (t ∷ texts) =
        let parent : Parent = record {
          page_number = page;
          parent_index = i;
          parent_id = fresh u;
          parent_text = t;
        } in
        let ts = child_texts_of sizes fresh source_name t in
        let children = children_of sizes fresh source_name parent 0 (u + 1) n ts in
        let k = length children in
        let rest = parents_of sizes fresh source_name page (i + 1) (u + 1 + k) (n + k) texts in
        rw (keep-append is_word t (concat texts)) (
          Embeds-chunks (keep is_word t) (words texts) children rest.0
            (subst (λ ts. Embeds (keep is_word t) (words ts))
              (sym (contents-children_of parent 0 (u + 1) n ts)) (child_texts_of-Embeds t))
            (parents_of-Embeds page (i + 1) (u + 1 + k) (n + k) texts))

    page-Embeds :
        (t : Text)
        → Embeds
            (keep is_word t)
            (words (split_text (clean_text t) sizes.parent_chunk_size sizes.parent_chunk_overlap))
    page-Embeds t =
        subst
          (λ w.
            Embeds w (
              words (split_text (clean_text t) sizes.parent_chunk_size sizes.parent_chunk_overlap)))
          (keep-clean_text is_word word-solid t)
          (split_text-Embeds (clean_text t) _ sizes.parent_chunk_overlap parent_h)

    pages_of-Embeds :
        (page u n : ℕ) (pages : List (Option Text))
        → Embeds
            (words (map extracted pages))
            (words (contents (pages_of sizes fresh source_name page u n pages).0))
    unfolding pages_of
    pages_of-Embeds page u n [] = none
    pages_of-Embeds page u n (p ∷ pages) =
        let t = extracted p in
        let texts = split_text (clean_text t) sizes.parent_chunk_size sizes.parent_chunk_overlap in
        let chunks = parents_of sizes fresh source_name page 0 u n texts in
        let m = n + length chunks.0 in
        rw (keep-append is_word t (concat (map extracted pages))) (
          Embeds-chunks (keep is_word t) (words (map extracted pages)) chunks.0
            (pages_of sizes fresh source_name (page + 1) chunks.1 m pages).0
            (Embeds-trans (page-Embeds t) (parents_of-Embeds page 0 u n texts))
            (pages_of-Embeds (page + 1) chunks.1 m pages))

    -- Indexing a document loses no word: the word characters of all its pages stand, in order, in
    -- the contents of its child chunks, if the two chunk sizes are not 0.
    pub chunks_from_reader-Embeds :
        (pages : List (Option Text))
        → Embeds
            (words (map extracted pages))
            (words (contents (chunks_from_reader sizes fresh source_name pages)))
    unfolding chunks_from_reader
    chunks_from_reader-Embeds pages = pages_of-Embeds 1 0 0 pages
