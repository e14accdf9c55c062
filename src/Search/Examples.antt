-- ===== src/Search/Examples.antt =====
-- A search in the first of two sessions, with a regular expression that is none, and one that finds.
use shells.Prelude.{
  refl, Bool, true, false, not, none, some, List, [], ◌∷◌, Str, codes, All, arith, ◌==◌, str_eq,
}
use shells.Search.{
  Searching, SearchState, no_results, object, throws, SearchStep, opens_search, runs, results,
  activates, search_steps,
}
use shells.Search.Found.{IsValidCall, IsPlaced, search_steps_lem}

abbrev is_regex : Str → Bool
is_regex s = not (s == codes "(")

abbrev page : Searching
page = record {
  active_id = some 1;
  with_addon = 1 ∷ (2 ∷ []);
  search_state = none;
  decorations = false;
  shown = none;
  calls = [];
}

abbrev searches : List SearchStep
searches =
    opens_search
    ∷ (runs true (codes "(") false true throws throws
        ∷ (runs true (codes "ls") true false throws (object true)
            ∷ (results 3 (some 1) ∷ (activates (some 2) ∷ []))))

search_steps_lem_example :
    let s' = search_steps is_regex searches page in
    All (IsValidCall is_regex page.with_addon) s'.calls
    × IsPlaced is_regex page.with_addon s'.search_state
search_steps_lem_example =
    search_steps_lem is_regex searches page (refl, refl) (tt, (tt, (tt, (omega arith, (tt, tt)))))

abbrev typed_ls : SearchState
typed_ls = record {
  search_sid = 1;
  query = codes "ls";
  case_sensitive = false;
  regex = false;
  count = 0;
  index = 0;
  last_found = none;
  regex_error = false;
}

abbrev searching : Searching
searching = record page { search_state = some typed_ls; shown = some no_results }
