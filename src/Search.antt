-- ===== src/Search.antt =====
-- The search in the terminal of public/js/shell/search.js. xterm's search addon is a parameter: what a call of
-- it answers, and that it throws, are arguments of the operations.
use shells.Prelude.{
  ℕ, suc, ◌+◌, Bool, true, false, not, ◌&&◌, Option, none, some, List, [], ◌∷◌, ◌++◌, Str, ◌==◌,
  str_eq, nat_eq, opt_eqb, ltb, eqb, if◌then◌else◌,
}
use shells.Sessions.State.{Sid}
pub mod Found
mod Examples

-- `_searchState`. `last_found` is null before the first search.
pub record SearchState : Type 0 where
  pub search_sid : Sid
  pub query : Str
  pub case_sensitive : Bool
  pub regex : Bool
  pub count : ℕ
  pub index : ℕ
  pub last_found : Option Bool
  pub regex_error : Bool

-- What the counter of the search bar says.
pub data CountText : Type 0 where
  blank : CountText
  bad_regex : CountText
  place_of : ℕ → ℕ → CountText
  no_results : CountText

-- A call of the addon of a session; a search has the direction, the query, `caseSensitive`, `regex` and whether
-- decorations are asked for.
pub data AddonCall : Type 0 where
  find : Sid → Bool → Str → Bool → Bool → Bool → AddonCall
  clear_decorations : Sid → AddonCall

-- `with_addon` are the sessions that have a `searchAddon`; `decorations` says whether `_searchDecorations` is
-- set, and the sessions with an addon stay the same; `shown` is the counter, none where there is no search bar.
pub record Searching : Type 0 where
  pub active_id : Option Sid
  pub with_addon : List Sid
  pub search_state : Option SearchState
  pub decorations : Bool
  pub shown : Option CountText
  pub calls : List AddonCall

abbrev pub has_sid : Sid → List Sid → Bool
has_sid sid [] = false
has_sid sid (t ∷ ts) = if sid == t then true else has_sid sid ts

abbrev pub equals_false : Option Bool → Bool
equals_false (some false) = true
equals_false _ = false

-- What `_updateSearchCount` writes.
unfoldable pub count_text : SearchState → CountText
count_text st =
    if st.query == []
    then blank
    else if st.regex_error
    then bad_regex
    else if ltb 0 st.count
    then place_of st.index st.count
    else if equals_false st.last_found
    then no_results
    else blank

-- `_updateSearchCount`, after the state has become `st`.
unfoldable pub update_search_count : SearchState → Searching → Searching
unfolding count_text
update_search_count st s = record s {
  search_state = some st;
  shown = elim s.shown [ none ↦ none | some t ↦ some (count_text st) ];
}

-- `_searchSession`: the session of the search, where it is there and has an addon.
unfoldable pub search_session : Searching → Option Sid
search_session s = elim s.search_state [
  | none ↦ none
  | some st ↦ if has_sid st.search_sid s.with_addon then some st.search_sid else none
]

unfoldable pub clear_on : Option Sid → Searching → Searching
clear_on none s = s
clear_on (some sid) s = record s { calls = s.calls ++ (clear_decorations sid ∷ []) }

-- `_clearSearch`
unfoldable pub clear_search : Searching → Searching
unfolding search_session clear_on
clear_search s = clear_on (search_session s) s

unfoldable pub begin_search : Option SearchState → Sid → Searching → Searching
begin_search (some st) sid s = s
begin_search none sid s =
    if has_sid sid s.with_addon
    then record s {
      search_state = some (record {
        search_sid = sid;
        query = [];
        case_sensitive = false;
        regex = false;
        count = 0;
        index = 0;
        last_found = none;
        regex_error = false;
      });
      decorations = true;
      shown = some blank;
    }
    else s

-- `openSearch`: an open search only gets the focus.
unfoldable pub open_search : Searching → Searching
unfolding begin_search
open_search s = elim s.active_id [ none ↦ s | some sid ↦ begin_search s.search_state sid s ]

-- `closeSearch`
unfoldable pub close_search : Searching → Searching
unfolding clear_search
close_search s = record (clear_search s) { search_state = none; shown = none }

-- What a call of the addon comes to: a Boolean, an object with the field `found`, or an error.
pub data AddonAnswer : Type 0 where
  boolean : Bool → AddonAnswer
  object : Bool → AddonAnswer
  throws : AddonAnswer

-- `!!(res && res.found)`: a Boolean has no field `found`.
unfoldable pub is_found : AddonAnswer → Bool
is_found (boolean b) = false
is_found (object found) = found
is_found throws = false

unfoldable pub call_addon : Bool → Sid → SearchState → Searching → Searching
call_addon forward sid st s = record s {
  calls = s.calls ++ (find sid forward st.query st.case_sensitive st.regex s.decorations ∷ []);
}

-- The call and, where it throws, the second one without decorations.
unfoldable pub find_or_retry :
    Bool → Sid → SearchState → AddonAnswer → AddonAnswer → Searching → Bool × Searching
unfolding call_addon is_found
find_or_retry forward sid st throws second s = (
  is_found second,
  call_addon forward sid st (record (call_addon forward sid st s) { decorations = false }),
)
find_or_retry forward sid st (boolean b) second s =
    (is_found (boolean b), call_addon forward sid st s)
find_or_retry forward sid st (object b) second s =
    (is_found (object b), call_addon forward sid st s)

-- `_runSearch` on the session of the search. `is_regex` says whether `new RegExp` takes a text.
unfoldable pub search_for :
    (Str → Bool) → Bool → Sid → SearchState → AddonAnswer → AddonAnswer → Searching → Searching
unfolding update_search_count clear_on find_or_retry
search_for is_regex forward sid st first second s =
    if st.query == []
    then update_search_count (record st { last_found = some true; regex_error = false })
        (clear_on (some sid) s)
    else if st.regex && not (is_regex st.query)
    then update_search_count (record st { last_found = some false; regex_error = true }) s
    else update_search_count
        (record st {
          last_found = some (find_or_retry forward sid st first second s).0;
          regex_error = false;
        })
        (find_or_retry forward sid st first second s).1

unfoldable pub run_search : (Str → Bool) → Bool → AddonAnswer → AddonAnswer → Searching → Searching
unfolding search_session search_for
run_search is_regex forward first second s = elim s.search_state [
  | none ↦ s
  | some st ↦ elim (search_session s) [
    | none ↦ s
    | some sid ↦ search_for is_regex forward sid st first second s
  ]
]

-- `run` of the search bar: the query and the two buttons are read, and the search begins.
unfoldable pub run_query :
    (Str → Bool) → Bool → Str → Bool → Bool → AddonAnswer → AddonAnswer → Searching → Searching
unfolding run_search
run_query is_regex forward value case_active regex_active first second s = elim s.search_state [
  | none ↦ s
  | some st ↦ run_search is_regex forward first second (record s {
    search_state =
        some (record st { query = value; case_sensitive = case_active; regex = regex_active });
  })
]

-- The listener for `onDidChangeResults`, with `resultCount` and `resultIndex`, none for -1.
unfoldable pub on_results : ℕ → Option ℕ → Searching → Searching
unfolding update_search_count
on_results result_count result_index s = elim s.search_state [
  | none ↦ s
  | some st ↦
      if opt_eqb (some st.search_sid) s.active_id
      then update_search_count
          (record st {
            count = result_count;
            index =
                if eqb result_count 0 then 0 else elim result_index [ none ↦ 0 | some i ↦ i + 1 ];
          })
          s
      else s
]

-- What `setActive` does to an open search of another session.
unfoldable pub leave : Option Sid → Searching → Searching
unfolding close_search
leave id s = elim s.search_state [
  | none ↦ record s { active_id = id }
  | some st ↦
      if opt_eqb (some st.search_sid) id
      then record s { active_id = id }
      else record (close_search s) { active_id = id }
]

pub data SearchStep : Type 0 where
  opens_search : SearchStep
  closes_search : SearchStep
  runs : Bool → Str → Bool → Bool → AddonAnswer → AddonAnswer → SearchStep
  steps_on : Bool → AddonAnswer → AddonAnswer → SearchStep
  results : ℕ → Option ℕ → SearchStep
  activates : Option Sid → SearchStep

unfoldable pub search_step : (Str → Bool) → SearchStep → Searching → Searching
unfolding open_search close_search run_query run_search on_results leave
search_step is_regex opens_search s = open_search s
search_step is_regex closes_search s = close_search s
search_step is_regex (runs forward value c r first second) s =
    run_query is_regex forward value c r first second s
search_step is_regex (steps_on forward first second) s = run_search is_regex forward first second s
search_step is_regex (results n i) s = on_results n i s
search_step is_regex (activates id) s = leave id s

unfoldable pub search_steps : (Str → Bool) → List SearchStep → Searching → Searching
unfolding search_step
search_steps is_regex [] s = s
search_steps is_regex (step ∷ steps) s = search_steps is_regex steps (search_step is_regex step s)
