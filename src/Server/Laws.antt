-- ===== src/Server/Laws.antt =====
-- Changes of documents that are delivered again.
use flowxrag.Prelude.{ℕ, List, true, false, Option, some, ◌≡◌, refl, ap}
use flowxrag.Text.{Text, codes, same}
use flowxrag.Float.{Floats}
use flowxrag.Effects.{Result, ok, raise}
use flowxrag.Retriever.Ingest.{Sizes}
use flowxrag.Retriever.Store.{Store, Pages, UpsertReport, upsert_pdf}
use flowxrag.Retriever.Store.Sources.{SameIfReturns, upsert_pdf_retry}
use flowxrag.Server.{Rpc, answered, aborted, DocumentChange, index_document, is_upsert, replaced}

replaced_store : {S : Type 0} (r : Result UpsertReport × S) → (replaced r).1 ≡ r.1
replaced_store (ok report, s) = refl
replaced_store (raise e, s) = refl

module _ (floats : Floats) (lower upper : Text → Text) (sizes : Sizes) (V : Type 0)
    (resolve : Text → Option Text) (read : Text → Option (Result Pages)) where
  -- The first is the second, or both are aborted with the same code.
  abbrev pub Alike : Rpc ℕ × Store V (floats.F) → Rpc ℕ × Store V (floats.F) → Type 0
  Alike r (answered n, s) = r ≡ (answered n, s)
  Alike r (aborted code, s) = (s' : Store V (floats.F)) × (r ≡ (aborted code, s'))

  replaced-Alike :
      (embed : List Text → Result (List V)) (fresh : ℕ → Text)
      (r q : Result UpsertReport × Store V (floats.F))
      → SameIfReturns floats lower sizes V embed fresh r q
      → Alike (replaced r) (replaced q)
  replaced-Alike embed fresh r (ok report, s) h = ap replaced h
  replaced-Alike embed fresh r (raise e, s) h = (h.0, ap replaced h.1)

  index_document_upsert :
      (embed : List Text → Result (List V)) (fresh : ℕ → Text) (change : DocumentChange)
      (pages : Pages) (s : Store V (floats.F))
      → same (upper change.operation) (codes "DELETE") ≡ false
      → is_upsert (upper change.operation) ≡ true
      → read change.file_path ≡ some (ok pages)
      → index_document floats lower upper sizes resolve read embed fresh change s
        ≡ replaced (upsert_pdf floats lower sizes embed fresh (ok pages) change.source s)
  unfolding index_document
  index_document_upsert embed fresh change pages s d u e = rw (d, u, e) refl

  -- A change that inserts or updates a document whose file can be read may be delivered again:
  -- behind an earlier delivery, completed or aborted on the way, it answers the same number and
  -- leaves the same store as it does without that, or is aborted with the same code.
  pub index_document_again :
      (embed embed' : List Text → Result (List V)) (fresh fresh' : ℕ → Text)
      (change : DocumentChange) (pages : Pages) (s : Store V (floats.F))
      → same (upper change.operation) (codes "DELETE") ≡ false
      → is_upsert (upper change.operation) ≡ true
      → read change.file_path ≡ some (ok pages)
      → Alike
          (index_document floats lower upper sizes resolve read embed fresh change
            (index_document floats lower upper sizes resolve read embed' fresh' change s).1)
          (index_document floats lower upper sizes resolve read embed fresh change s)
  index_document_again embed embed' fresh fresh' change pages s d u e =
      rw
        (
          index_document_upsert embed' fresh' change pages s d u e,
          index_document_upsert embed fresh change pages s d u e,
          index_document_upsert embed fresh change pages _ d u e,
          replaced_store (upsert_pdf floats lower sizes embed' fresh' (ok pages) change.source s),
        )
        (replaced-Alike embed fresh _ _ (
          upsert_pdf_retry floats lower sizes V embed embed' fresh fresh' pages pages change.source
            s))
