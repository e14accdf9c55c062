-- ===== src/Paste.antt =====
-- Pasted and dropped files: public/js/shell/paste.js. A file is uploaded, and its path on the server is
-- pasted into the terminal. The uploads of several files run at once and their results keep the order
-- of the files; what the user is told by them is listed in that order, too.
pub mod Caption
pub mod Dropped
mod Examples
use shells.Prelude.{
  ℕ, ◌*◌, Bool, true, false, ◌&&◌, ◌||◌, not, Option, none, some, List, [], ◌∷◌, ◌++◌, Str, codes,
  ◌==◌, str_eq, opt_eqb, if◌then◌else◌, ltb, map, length,
}
use shells.Paste.Caption.{clean_caption}

-- A file; the name of a blob may be missing.
pub record Blob : Type 0 where
  pub name : Option Str
  pub size : ℕ

-- What `_uploadPasteBlob` comes to: it throws, or the server answers with an error or with a path.
pub data Upload : Type 0 where
  threw : Upload
  answered : Bool → Option Str → Upload

pub data Toast : Type 0 where
  too_large : Str → ℕ → Toast
  uploading : Str → ℕ → Toast
  unreadable : Str → Toast
  rejected : Str → Toast
  pasted : Str → Toast
  pasted_many : ℕ → Toast
  attached : Str → Toast

-- What is pasted into the terminal, and what the user is told.
pub record Term : Type 0 where
  pub pastes : List Str
  pub toasts : List Toast

unfoldable pub tell : Term → List Toast → Term
tell t ms = record t { toasts = t.toasts ++ ms }

unfoldable pub paste : Term → Str → Term
paste t text = record t { pastes = t.pastes ++ text ∷ [] }

abbrev pub megabyte : ℕ
megabyte = 1_048_576

-- `blob.name || 'file'`
abbrev pub label : Option Str → Str
label none = codes "file"
label (some name) = if name == [] then codes "file" else name

-- A path that is there and not empty.
abbrev pub truthy : Option Str → Option Str
truthy none = none
truthy (some p) = if p == [] then none else some p

-- The end of `_uploadPasteBlob`, and the `catch` of `_uploadPasteImage`.
unfoldable pub upload_blob : Blob → Upload → Option Str × List Toast
upload_blob b threw = (none, unreadable (label b.name) ∷ [])
upload_blob b (answered ok path) = elim (if ok then truthy path else none) [
  | none ↦ (none, rejected (label b.name) ∷ [])
  | some p ↦ (some p, [])
]

unfoldable pub upload_image : Blob → Upload → Option Str × List Toast
unfolding upload_blob
upload_image b u =
    let (path, told) = upload_blob b u in
    if ltb (10 * megabyte) b.size
    then (none, too_large (label b.name) b.size ∷ [])
    else if ltb megabyte b.size
    then (path, uploading (label b.name) b.size ∷ told)
    else (path, told)

-- `Promise.all` over the files.
unfoldable pub upload_all : List (Blob × Upload) → List (Option Str) × List Toast
unfolding upload_image
upload_all [] = ([], [])
upload_all ((b, u) ∷ rest) =
    let (path, told) = upload_image b u in
    let (paths, more) = upload_all rest in (path ∷ paths, told ++ more)

abbrev pub quote : ℕ
quote = 34

abbrev pub space : ℕ
space = 32

abbrev pub quoted : Str → Str
quoted p = quote ∷ (p ++ quote ∷ [])

-- `uploadResults.filter(Boolean).map((p) => …)`
unfoldable pub uploaded : List (Option Str) → List Str
uploaded [] = []
uploaded (none ∷ rest) = uploaded rest
uploaded (some p ∷ rest) = quoted p ∷ uploaded rest

-- `paths.join(' ')`
unfoldable pub join_spaces : List Str → Str
join_spaces [] = []
join_spaces (p ∷ []) = p
join_spaces (p ∷ (q ∷ ps)) = p ++ space ∷ join_spaces (q ∷ ps)

abbrev pub success : List Str → Toast
success (p ∷ []) = pasted p
success ps = pasted_many (length ps)

-- What both handlers do with the results.
unfoldable pub paste_paths : Term → Str → List Str → Term
unfolding paste tell join_spaces
paste_paths t before [] = t
paste_paths t before (p ∷ ps) =
    tell (paste t (before ++ (join_spaces (p ∷ ps) ++ space ∷ []))) (success (p ∷ ps) ∷ [])

-- `_handleTerminalDrop`
unfoldable pub on_drop : Term → List (Blob × Upload) → Term
unfolding upload_all uploaded paste_paths tell
on_drop t files =
    let (results, told) = upload_all files in paste_paths (tell t told) [] (uploaded results)

abbrev pub is_named : Str → Blob → Bool
is_named caption b = opt_eqb b.name (some caption)

unfoldable pub any_named : Str → List (Blob × Upload) → Bool
any_named caption [] = false
any_named caption ((b, u) ∷ rest) = is_named caption b || any_named caption rest

-- The caption in front of the paths: none where it is the name of a file.
unfoldable pub caption_of : Str → List (Blob × Upload) → Str
unfolding clean_caption any_named
caption_of text files =
    let caption = clean_caption text in if any_named caption files then [] else caption

abbrev pub before_paths : Str → Str
before_paths caption = if caption == [] then [] else caption ++ space ∷ []

-- `_handleTerminalPaste` of files, with the plain text of the clipboard.
unfoldable pub on_paste_files : Term → Str → List (Blob × Upload) → Term
unfolding upload_all uploaded paste_paths tell caption_of
on_paste_files t text files =
    let (results, told) = upload_all files in
    paste_paths (tell t told) (before_paths (caption_of text files)) (uploaded results)

-- The branches of the handler: xterm pastes plain text itself, and a page with images is read by the
-- browser's parser, which is not part of the model.
pub data Branch : Type 0 where
  plain_text : Branch
  rich_text : Branch
  direct_files : Branch

unfoldable pub branch : Bool → Bool → Branch
branch has_files has_html_images =
    if not has_files && not has_html_images
    then plain_text
    else if has_html_images
    then rich_text
    else direct_files
