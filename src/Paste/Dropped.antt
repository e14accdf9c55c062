-- ===== src/Paste/Dropped.antt =====
-- What is pasted into the terminal after files are dropped.
use shells.Prelude.{
  ◌*◌, ◌≡◌, refl, sym, ap, ◌∙◌, true, false, Option, none, some, List, [], ◌∷◌, ◌++◌, Str, str_eq,
  if◌then◌else◌, leb, append-nil, append_assoc, arith,
}
use shells.Paste.{
  Blob, Upload, threw, answered, Term, tell, paste, megabyte, upload_blob, upload_image, upload_all,
  space, quoted, uploaded, join_spaces, paste_paths, on_drop, on_paste_files, before_paths,
  caption_of,
}

-- The path of a file of at most ten megabytes for which the server answers one.
abbrev pub taken : Blob → Upload → Option Str
taken b threw = none
taken b (answered false path) = none
taken b (answered true none) = none
taken b (answered true (some [])) = none
taken b (answered true (some (c ∷ p))) = if leb b.size (10 * megabyte) then some (c ∷ p) else none

abbrev pub or_cons : Option Str → List Str → List Str
or_cons none ps = ps
or_cons (some p) ps = p ∷ ps

abbrev pub accepted : List (Blob × Upload) → List Str
accepted [] = []
accepted ((b, u) ∷ rest) = or_cons (taken b u) (accepted rest)

-- Every path in quotes and with a space behind it.
abbrev pub spaced : List Str → Str
spaced [] = []
spaced (p ∷ ps) = quoted p ++ space ∷ spaced ps

abbrev pub pasted_text : Str → List Str → List Str
pasted_text before [] = []
pasted_text before (p ∷ ps) = (before ++ spaced (p ∷ ps)) ∷ []

abbrev pub map_quoted : List Str → List Str
map_quoted [] = []
map_quoted (p ∷ ps) = quoted p ∷ map_quoted ps

upload_image-taken : (b : Blob) (u : Upload) → (upload_image b u).0 ≡ taken b u
unfolding upload_image upload_blob
upload_image-taken b threw = ground arith
upload_image-taken b (answered false path) = ground arith
upload_image-taken b (answered true none) = ground arith
upload_image-taken b (answered true (some [])) = ground arith
upload_image-taken b (answered true (some (c ∷ p))) = ground arith

uploaded-cons :
    (o : Option Str) (rest : List (Option Str)) (ps : List Str)
    → uploaded rest ≡ map_quoted ps
    → uploaded (o ∷ rest) ≡ map_quoted (or_cons o ps)
unfolding uploaded
uploaded-cons none rest ps h = h
uploaded-cons (some p) rest ps h = ap (quoted p ∷◌) h

uploaded-upload_all :
    (files : List (Blob × Upload)) → uploaded (upload_all files).0 ≡ map_quoted (accepted files)
unfolding upload_all uploaded
uploaded-upload_all [] = refl
uploaded-upload_all ((b, u) ∷ rest) =
    ap (λ o. uploaded (o ∷ (upload_all rest).0)) (upload_image-taken b u)
    ∙ uploaded-cons (taken b u) (upload_all rest).0 (accepted rest) (uploaded-upload_all rest)

join_spaces-spaced :
    (p : Str) (ps : List Str) → join_spaces (map_quoted (p ∷ ps)) ++ space ∷ [] ≡ spaced (p ∷ ps)
unfolding join_spaces
join_spaces-spaced p [] = refl
join_spaces-spaced p (q ∷ ps) =
    append_assoc (quoted p) (space ∷ join_spaces (map_quoted (q ∷ ps))) (space ∷ [])
    ∙ ap (λ t. quoted p ++ space ∷ t) (join_spaces-spaced q ps)

paste_paths-pastes :
    (t : Term) (before : Str) (ps : List Str)
    → (paste_paths t before (map_quoted ps)).pastes ≡ t.pastes ++ pasted_text before ps
unfolding paste_paths paste tell
paste_paths-pastes t before [] = sym (append-nil t.pastes)
paste_paths-pastes t before (p ∷ ps) =
    ap (λ text. t.pastes ++ (before ++ text) ∷ []) (join_spaces-spaced p ps)

-- Files that are dropped, or pasted with a caption in front, are pasted as one text: the paths of the
-- files of at most ten megabytes that the server has taken, in the order of the files, each in quotes
-- and with a space behind it, after the caption; where there is no such file nothing is pasted.
pub on_drop_lem :
    (t : Term) (text : Str) (files : List (Blob × Upload))
    → ((on_drop t files).pastes ≡ t.pastes ++ pasted_text [] (accepted files))
      × ((on_paste_files t text files).pastes
          ≡ t.pastes ++ pasted_text (before_paths (caption_of text files)) (accepted files))
unfolding on_drop on_paste_files tell
on_drop_lem t text files = (paths [], paths (before_paths (caption_of text files)))
  where
    told : Term
    told = tell t (upload_all files).1

    paths :
        (before : Str)
        → (paste_paths told before (uploaded (upload_all files).0)).pastes
          ≡ t.pastes ++ pasted_text before (accepted files)
    paths before =
        ap (λ ps. (paste_paths told before ps).pastes) (uploaded-upload_all files)
        ∙ paste_paths-pastes told before (accepted files)
