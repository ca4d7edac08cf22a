-- ===== src/Tests/Server.antt =====
-- A change of a document that is delivered twice, and the bounds of `top_k`.
use flowxrag.Prelude.{ℕ, [], ◌∷◌, some, ◌≡◌, refl, map}
use flowxrag.Text.{codes, decimal}
use flowxrag.Effects.{ok}
use flowxrag.Server.{DocumentChange, index_document, bounded_top_k}
use flowxrag.Server.Laws.{Alike, index_document_again}
use flowxrag.Tests.Values.{thousandths, ascii_lower}
use flowxrag.Tests.Store.{sizes, pages, embed, broken, empty_store, guide}

bounds : map bounded_top_k (0 ∷ 1 ∷ 7 ∷ 50 ∷ []) ≡ 5 ∷ 1 ∷ 7 ∷ 20 ∷ []
bounds = refl

abbrev inserted : DocumentChange
inserted = record {
  operation = codes "INSERT";
  source = guide;
  file_path = codes "/data/guide.pdf";
}

index_document_again_example :
    Alike thousandths ascii_lower
      (λ t. t)
      sizes
      ℕ
      some
      (λ path. some (ok pages))
      (index_document thousandths ascii_lower
        (λ t. t)
        sizes
        some
        (λ path. some (ok pages))
        embed
        decimal
        inserted
        (index_document thousandths ascii_lower
          (λ t. t)
          sizes
          some
          (λ path. some (ok pages))
          broken
          decimal
          inserted
          empty_store).1)
      (index_document thousandths ascii_lower
        (λ t. t)
        sizes
        some
        (λ path. some (ok pages))
        embed
        decimal
        inserted
        empty_store)
index_document_again_example =
    index_document_again thousandths ascii_lower (λ t. t) sizes ℕ some (λ path. some (ok pages))
      embed broken decimal decimal inserted pages empty_store refl refl refl
