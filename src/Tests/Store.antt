-- ===== src/Tests/Store.antt =====
-- A small store of two documents: indexing, replacing, deleting and searching.
use flowxrag.Prelude.{
  ℕ, List, [], ◌∷◌, Option, none, some, true, false, ◌≡◌, refl, arith, map, length,
}
use flowxrag.Text.{Text, codes, decimal, strip}
use flowxrag.Effects.{Result, ok, raise, Yields}
use flowxrag.Graph.{SearchResult}
use flowxrag.Retriever.Ingest.{Chunk, Sizes, extracted, chunks_from_reader}
use flowxrag.Retriever.Ingest.Complete.{
  contents, words, Numbered, chunks_from_reader-Numbered, chunks_from_reader-Embeds,
}
use flowxrag.Retriever.Chunking.Complete.{Embeds}
use flowxrag.Retriever.Bm25.{rebuild}
use flowxrag.Retriever.Chunking.{split_text}
use flowxrag.Retriever.Uploads.{is_hex, safe_from, upload_name, display_source_name}
use flowxrag.Retriever.Uploads.Laws.{display_source_name-upload_name}
use flowxrag.Retriever.Store.{Store, Pages, upsert_pdf, delete_source, others, add_pdf}
use flowxrag.Retriever.Store.Consistency.{upsert, perform, Outcome, IsIdle, perform-Outcome}
use flowxrag.Retriever.Store.Sources.{
  of_source, upsert_pdf-replaces, SameIfReturns, upsert_pdf_retry,
}
use flowxrag.Retriever.Store.Removal.{Leaves, delete_source-Leaves}
use flowxrag.Retriever.Saved.{asdict}
use flowxrag.Retriever.Startup.{load_chunks, start_up}
use flowxrag.Retriever.Startup.Laws.{load_chunks-asdict, Started, start_up-Started}
use flowxrag.Retriever.Rerank.{Label, at, negative, Response, rerank, rescored}
use flowxrag.Retriever.Rerank.Laws.{Top, rerank-Top}
use flowxrag.Retriever.Search.{Settings, search, rrf_fuse}
use flowxrag.Retriever.Search.Sound.{IsFrom, search-Top}
use flowxrag.Retriever.Search.Fusion.{get_score, rank_sum, get_score-rrf_fuse}
use flowxrag.Graph.Grounded.{IsGrounded, over_store, crag_app-IsGrounded}
use flowxrag.Graph.Workflow.{initial_state, crag_app}
use flowxrag.Tests.Values.{services, thousandths, ascii_lower, hit}

abbrev pub sizes : Sizes
sizes = record {
  parent_chunk_size = 40;
  parent_chunk_overlap = 4;
  child_chunk_size = 20;
  child_chunk_overlap = 2;
}

abbrev pub pages : Pages
pages = some (codes "Install the gate-\nway. Then start it.") ∷ none ∷ some (codes "The end.") ∷ []

-- A text's vector is its length, and an identifier its number.
abbrev pub embed : List Text → Result (List ℕ)
embed texts = ok (map (λ (t : Text). length t) texts)

abbrev pub broken : List Text → Result (List ℕ)
broken texts = raise (codes "no connection")

abbrev pub empty_store : Store ℕ ℕ
empty_store = record {
  chunks = [];
  saved = [];
  index = [];
  index_file = [];
  bm25 = rebuild thousandths ascii_lower [];
  uploads = [];
}

abbrev pub guide : Text
guide = codes "guide.pdf"

abbrev filled : Store ℕ ℕ
filled = (add_pdf thousandths ascii_lower sizes embed decimal (ok pages) guide empty_store).1

chunks_of_pages :
    contents (chunks_from_reader sizes decimal guide pages)
    ≡ map codes ("Install the gateway." ∷ "y. Then start it." ∷ "The end." ∷ [])
unfolding chunks_from_reader split_text
chunks_of_pages = refl

chunks_from_reader-Numbered_example :
    Numbered guide 0 (chunks_from_reader sizes decimal guide pages)
chunks_from_reader-Numbered_example = chunks_from_reader-Numbered sizes decimal guide pages

chunks_from_reader-Embeds_example :
    Embeds
      (words (map extracted pages))
      (words (contents (chunks_from_reader sizes decimal guide pages)))
chunks_from_reader-Embeds_example =
    chunks_from_reader-Embeds sizes decimal guide (omega arith) (omega arith) pages

display_source_name-upload_name_example :
    display_source_name
      (upload_name (codes "0123456789abcdef0123456789abcdef") (codes "my guide.pdf"))
    ≡ safe_from false (codes "my guide.pdf")
unfolding is_hex
display_source_name-upload_name_example =
    display_source_name-upload_name (codes "0123456789abcdef0123456789abcdef")
      (codes "my guide.pdf") refl refl

perform-Outcome_example :
    Outcome thousandths ascii_lower sizes ℕ embed
      (IsIdle thousandths ascii_lower sizes ℕ (upsert decimal (ok pages) guide))
      empty_store
      (perform thousandths ascii_lower sizes ℕ embed (upsert decimal (ok pages) guide) empty_store)
perform-Outcome_example =
    perform-Outcome thousandths ascii_lower sizes ℕ embed (upsert decimal (ok pages) guide)
      empty_store refl

upsert_pdf-replaces_example :
    (others guide
        (upsert_pdf thousandths ascii_lower sizes broken decimal (ok pages) guide filled).1.chunks
      ≡ others guide filled.chunks)
    × (of_source guide
          (upsert_pdf thousandths ascii_lower sizes broken decimal (ok pages) guide filled).1.chunks
        ≡ chunks_from_reader sizes decimal guide pages)
upsert_pdf-replaces_example =
    upsert_pdf-replaces thousandths ascii_lower sizes ℕ broken decimal pages guide filled

upsert_pdf_retry_example :
    SameIfReturns thousandths ascii_lower sizes ℕ embed decimal
      (upsert_pdf thousandths ascii_lower sizes embed decimal
        (ok pages)
        guide
        (upsert_pdf thousandths ascii_lower sizes broken decimal (ok []) guide filled).1)
      (upsert_pdf thousandths ascii_lower sizes embed decimal (ok pages) guide filled)
upsert_pdf_retry_example =
    upsert_pdf_retry thousandths ascii_lower sizes ℕ embed broken decimal decimal pages [] guide
      filled

delete_source-Leaves_example :
    Leaves thousandths ascii_lower sizes ℕ
      (strip guide)
      filled
      (delete_source thousandths ascii_lower sizes broken decimal some guide filled)
delete_source-Leaves_example =
    delete_source-Leaves thousandths ascii_lower sizes ℕ broken decimal some guide filled

-- The endpoint ranks the first result, and names one that does not exist.
abbrev post : Text → Text → List Text → ℕ → Result (Response ℕ)
post model query texts n = ok (record {
  status_code = 200;
  text = [];
  body = ok (
      record {
        index = some (at 7);
        document_index = none;
        relevance_score = none;
        score = none;
        rank_score = none;
      }
      ∷ record {
        index = some (at 0);
        document_index = none;
        relevance_score = some (some 900);
        score = none;
        rank_score = none;
      }
      ∷ []);
})

kept_source :
    (r : SearchResult ℕ) (x : Option ℕ)
    → r.source ≡ guide
    → (rescored thousandths post r x).source ≡ guide
unfolding rescored
kept_source r x h = h

rerank-Top_example :
    Top
      (λ (r : SearchResult ℕ). r.source ≡ guide)
      3
      (rerank thousandths post true (codes "a, b") (codes "gateway") (hit ∷ hit ∷ []) 3)
rerank-Top_example =
    rerank-Top thousandths post (λ r. r.source ≡ guide) (λ r x h. kept_source r x h) true
      (codes "a, b") (codes "gateway") (hit ∷ hit ∷ []) 3 (refl, (refl, tt))

abbrev settings : Settings ℕ
settings = record {
  rrf_k = 60;
  vector_weight = 1000;
  bm25_weight = 1000;
  k1 = 1500;
  b = 750;
  bm25_enabled = true;
  overview_boost = true;
  retriever_candidate_k = none;
  bm25_candidate_k = none;
  rerank_enabled = true;
  rerank_model = codes "a, b";
}

abbrev faiss_search : List ℕ → List ℕ → ℕ → Result (List (ℕ × Label))
faiss_search index query k = ok ((900, at 1) ∷ (800, negative) ∷ (700, at 9) ∷ [])

search-Top_example :
    Yields (Top (IsFrom filled.chunks) 5) (
      search thousandths settings ascii_lower embed faiss_search post filled (codes "gateway") 5 80)
search-Top_example =
    search-Top thousandths settings ascii_lower embed faiss_search post filled (codes "gateway") 5
      80

get_score-rrf_fuse_example :
    get_score thousandths settings 4
      (rrf_fuse thousandths settings ((3, 0) ∷ (4, 0) ∷ []) ((4, 0) ∷ []))
    ≡ rank_sum thousandths settings 1000 1 4
        ((4, 0) ∷ [])
        (rank_sum thousandths settings 1000 1 4 ((3, 0) ∷ (4, 0) ∷ []) 0)
get_score-rrf_fuse_example =
    get_score-rrf_fuse thousandths settings 4 ((3, 0) ∷ (4, 0) ∷ []) ((4, 0) ∷ [])

abbrev one_chunk : Chunk
one_chunk = record {
  id = codes "c1";
  content = codes "The end.";
  source = guide;
  page = 3;
  chunk_index = 0;
  parent_id = codes "p1";
  parent_content = codes "The end.";
  parent_index = 0;
  child_index = 0;
  chunking_strategy = codes "parent_child_recursive";
}

load_chunks-asdict_example : load_chunks decimal 0 (map asdict (one_chunk ∷ [])) ≡ one_chunk ∷ []
load_chunks-asdict_example = load_chunks-asdict decimal 0 (one_chunk ∷ []) (
  record { has_id = refl; has_parent = refl; has_parent_content = refl; has_strategy = refl },
  tt,
)

start_up-Started_example :
    Started thousandths ascii_lower sizes ℕ embed decimal true (asdict one_chunk ∷ []) (8 ∷ []) (
      start_up thousandths ascii_lower sizes embed decimal true (asdict one_chunk ∷ []) (8 ∷ []) [])
start_up-Started_example =
    start_up-Started thousandths ascii_lower sizes ℕ embed decimal true (asdict one_chunk ∷ [])
      (8 ∷ []) []

crag_app-IsGrounded_example :
    Yields
      (IsGrounded services settings embed faiss_search post 80 filled)
      (crag_app
        (over_store services settings embed faiss_search post 80 filled)
        (initial_state (codes "总结这份报告") [] [])
        []).0
crag_app-IsGrounded_example =
    crag_app-IsGrounded services settings embed faiss_search post 80 filled
      (initial_state (codes "总结这份报告") [] []) []
