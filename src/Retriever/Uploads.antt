-- ===== src/Retriever/Uploads.antt =====
-- The uploaded files of backend/retriever.py: the names they get, and the source that a name
-- stands for.
pub mod Laws
use flowxrag.Prelude.{
  ℕ, List, [], ◌∷◌, ◌++◌, Bool, true, false, not, ◌&&◌, ◌||◌, ◌==◌, leb, if◌then◌else◌, length,
  take, drop, keep, any, is_empty,
}
use flowxrag.Text.{Text, codes, same, ends_with}

-- `[a-zA-Z0-9._\-\u4e00-\u9fff]`
unfoldable pub is_safe : ℕ → Bool
is_safe c =
    leb b'a' c && leb c b'z'
    || (leb b'A' c && leb c b'Z'
        || (leb b'0' c && leb c b'9'
            || (c == b'.' || (c == b'_' || (c == b'-' || leb 0x4e00 c && leb c 0x9fff)))))

-- Each run of other characters becomes one underscore; the flag says that the character before
-- belongs to such a run.
unfoldable pub safe_from : Bool → Text → Text
unfolding is_safe
safe_from inside [] = []
safe_from inside (c ∷ t) =
    let rest = safe_from (not (is_safe c)) t in
    if is_safe c then c ∷ rest else (if inside then rest else b'_' ∷ rest)

-- The name of the file that `save_upload` writes; `hex` is `uuid.uuid4().hex`.
unfoldable pub upload_name : Text → Text → Text
unfolding safe_from
upload_name hex filename = hex ++ b'_' ∷ safe_from false filename

-- `[0-9a-f]`, upper case included
unfoldable pub is_hex : ℕ → Bool
is_hex c = leb b'0' c && leb c b'9' || (leb b'a' c && leb c b'f' || leb b'A' c && leb c b'F')

abbrev pub all : (ℕ → Bool) → Text → Bool
all p [] = true
all p (c ∷ t) = if p c then all p t else false

-- The match of `^[0-9a-f]{32}_` is removed.
unfoldable pub display_source_name : Text → Text
unfolding is_hex
display_source_name name =
    let prefix = take 32 name in
    if length prefix == 32 && (all is_hex prefix && same (take 1 (drop 32 name)) (codes "_"))
    then drop 33 name
    else name

-- `_upload_files_for_source`; `uploads` are the names in the upload directory, in order.
unfoldable pub upload_files_for_source : List Text → Text → List Text
unfolding display_source_name
upload_files_for_source uploads source_name =
    keep
      (λ name.
        ends_with (codes ".pdf") name
        && (same (display_source_name name) source_name || same name source_name))
      uploads
