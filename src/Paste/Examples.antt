-- ===== src/Paste/Examples.antt =====
-- Three files, of which the second is too large.
use shells.Prelude.{◌≡◌, true, none, some, List, [], ◌∷◌, codes}
use shells.Paste.{
  Blob, Upload, answered, threw, Term, on_drop, on_paste_files, before_paths, caption_of,
}
use shells.Paste.Dropped.{pasted_text, accepted, on_drop_lem}

abbrev small : Blob
small = record { name = some (codes "a.png"); size = 2000 }

abbrev large : Blob
large = record { name = none; size = 20_000_000 }

abbrev files : List (Blob × Upload)
files =
    (small, answered true (some (codes "/tmp/a")))
    ∷ ((large, answered true (some (codes "/tmp/b"))) ∷ ((small, threw) ∷ []))

abbrev terminal : Term
terminal = record { pastes = []; toasts = [] }

on_drop_lem_example :
    ((on_drop terminal files).pastes ≡ codes "\"/tmp/a\" " ∷ [])
    × ((on_paste_files terminal (codes "look") files).pastes
        ≡ pasted_text (before_paths (caption_of (codes "look") files)) (accepted files))
on_drop_lem_example = on_drop_lem terminal (codes "look") files
