-- ===== src/Tests/Chunking.antt =====
-- Cleaning and splitting of small texts.
use flowxrag.Prelude.{◌+◌, [], ◌∷◌, ◌≡◌, refl, arith, keep, All, map}
use flowxrag.Text.{Text, codes, concat}
use flowxrag.Retriever.Clean.{clean_text}
use flowxrag.Retriever.Clean.Shape.{IsClean, clean_text-IsClean}
use flowxrag.Retriever.Chunking.{hard_split_text, split_text}
use flowxrag.Retriever.Chunking.Segments.{Fits, concat-hard_split_text}
use flowxrag.Retriever.Chunking.Whole.{is_word, split_text-Fits, split_text-Embeds}
use flowxrag.Retriever.Chunking.Complete.{Embeds}
use flowxrag.Retriever.Tokens.{bm25_tokenize, tokenize}
use flowxrag.Tests.Values.{ascii_lower}

abbrev page : Text
page = codes "Retrie-\nval  of\r\n\tparts.\n\n\n\nThe end of it. "

clean_page : clean_text page ≡ codes "Retrieval of\n parts.\n\nThe end of it."
unfolding clean_text
clean_page = refl

-- The scan is from left to right, and a letter belongs to one match only.
clean_twice : clean_text (codes "a-\nb-\nc") ≡ codes "ab-\nc"
unfolding clean_text
clean_twice = refl

split_page :
    split_text (codes "one two three. four") 9 3
    ≡ map codes ("one two" ∷ "two three." ∷ "ee. four" ∷ [])
unfolding split_text
split_page = refl

hard_split_ten : hard_split_text (codes "0123456789") 4 ≡ map codes ("0123" ∷ "4567" ∷ "89" ∷ [])
unfolding hard_split_text
hard_split_ten = refl

technical :
    bm25_tokenize ascii_lower (codes "FAISS-v1.7 is 95% up-")
    ≡ map codes ("faiss-v1.7" ∷ "faiss" ∷ "v1" ∷ "7" ∷ "is" ∷ "95%" ∷ "up" ∷ [])
unfolding bm25_tokenize
technical = refl

phrases : tokenize ascii_lower (codes "向量检索") ≡ map codes ("向量" ∷ "量检" ∷ "检索" ∷ "向量检" ∷ "量检索" ∷ [])
unfolding tokenize
phrases = refl

split_text-Fits_example : All (Fits (12 + (4 + 1))) (split_text page 12 4)
split_text-Fits_example = split_text-Fits page 12 4

split_text-Embeds_example :
    Embeds (keep is_word page) (keep is_word (concat (split_text page 12 4)))
split_text-Embeds_example = split_text-Embeds page 12 4 (omega arith)

concat-hard_split_text_example : concat (hard_split_text page 7) ≡ page
concat-hard_split_text_example = concat-hard_split_text page 7 (omega arith)

clean_text-IsClean_example : IsClean (clean_text page)
clean_text-IsClean_example = clean_text-IsClean page
