-- ===== src/Settings/Examples.antt =====
-- A concrete page.
use shells.Prelude.{◌≡◌, refl, none, [], ◌∷◌, arith}
use shells.Settings.{Fonts, more, get_font_size, set_font_size}
use shells.Settings.Range.{IsSized}

abbrev page : Fonts
page = record { font_size = none; stored = none; terms = 14 ∷ [] }

grown : (set_font_size page (more 30)).terms ≡ 32 ∷ []
unfolding set_font_size
grown = refl

page-IsSized : IsSized page
unfolding get_font_size
page-IsSized = record { least = omega arith; most = omega arith; same = (refl, tt); kept = refl }
