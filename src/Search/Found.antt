-- ===== src/Search/Found.antt =====
-- What reaches the search addon, and the place that the counter names.
use shells.Prelude.{
  ◌≡◌, refl, ◌≤◌, ◌<◌, ◌+◌, ℕ, Bool, true, false, not, ◌&&◌, Option, none, some, List, [], ◌∷◌,
  ◌++◌, Str, ◌==◌, str_eq, nat_eq, opt_eqb, All, All-snoc, arith, if◌then◌else◌, Bool-cases,
  if-cases, inl, inr, eqb, Option-cases, subst, sym,
}
use shells.Sessions.State.{Sid}
use shells.Search.{
  SearchState, CountText, no_results, AddonCall, find, clear_decorations, Searching, has_sid,
  count_text, update_search_count, search_session, clear_on, clear_search, begin_search,
  open_search, close_search, AddonAnswer, boolean, object, throws, is_found, call_addon,
  find_or_retry, search_for, run_search, run_query, on_results, leave, SearchStep, opens_search,
  closes_search, runs, steps_on, results, activates, search_step, search_steps,
}

-- The index of a result is below their number.
abbrev pub IsResult : SearchStep → Type 0
IsResult (results n (some i)) = i < n
IsResult _ = Unit

module _ (is_regex : Str → Bool) (with_addon : List Sid) where
  -- A search of a session with an addon, for a text that is not empty and, as a regular expression, is one.
  abbrev pub IsValidCall : AddonCall → Type 0
  IsValidCall (find sid forward q c r d) =
      (has_sid sid with_addon ≡ true) × ((q == []) ≡ false) × ((r && not (is_regex q)) ≡ false)
  IsValidCall (clear_decorations sid) = has_sid sid with_addon ≡ true

  abbrev pub IsPlaced : Option SearchState → Type 0
  IsPlaced none = Unit
  IsPlaced (some st) = st.index ≤ st.count

  abbrev Valid : Searching → Type 0
  Valid s = (s.with_addon ≡ with_addon) × All IsValidCall s.calls × IsPlaced s.search_state

  search_session-has :
      (s : Searching) (sid : Sid)
      → s.with_addon ≡ with_addon
      → search_session s ≡ some sid
      → has_sid sid with_addon ≡ true
  unfolding search_session
  search_session-has s sid w e = elim (Option-cases s.search_state) [
    | inl n ↦ ground (arith, n, e)
    | inr (st, n) ↦ elim (Bool-cases (has_sid st.search_sid s.with_addon)) [
      | inl b ↦ ground (arith, n, e, b, w)
      | inr b ↦ ground (arith, n, e, b, w)
    ]
  ]

  clear_on-Valid :
      (o : Option Sid) (s : Searching)
      → ((sid : Sid) → o ≡ some sid → has_sid sid with_addon ≡ true)
      → Valid s
      → Valid (clear_on o s)
  unfolding clear_on
  clear_on-Valid none s g h = h
  clear_on-Valid (some sid) s g (w, v, p) =
      (w, All-snoc IsValidCall s.calls (clear_decorations sid) v (g sid refl), p)

  close_search-Valid : (s : Searching) → Valid s → Valid (close_search s)
  unfolding close_search clear_search
  close_search-Valid s h =
      let (w, v, _) = clear_on-Valid (search_session s) s (λ sid. search_session-has s sid h.0) h in
      (w, v, tt)

  begin_search-Valid :
      (o : Option SearchState) (sid : Sid) (s : Searching) → Valid s → Valid (begin_search o sid s)
  unfolding begin_search
  begin_search-Valid (some st) sid s h = h
  begin_search-Valid none sid s (w, v, p) =
      if-cases Valid (has_sid sid s.with_addon) _ s (λ _. (w, v, omega arith)) (λ _. (w, v, p))

  open_search-Valid : (s : Searching) → Valid s → Valid (open_search s)
  unfolding open_search
  open_search-Valid s h = elim (Option-cases s.active_id) [
    | inl e ↦ simp (open_search, e) h
    | inr (sid, e) ↦ simp (open_search, e) (begin_search-Valid s.search_state sid s h)
  ]

  find_or_retry-Valid :
      (forward : Bool) (sid : Sid) (st : SearchState) (first second : AddonAnswer) (s : Searching)
      → IsValidCall (find sid forward st.query st.case_sensitive st.regex true)
      → (s.with_addon ≡ with_addon) × All IsValidCall s.calls
      → let s' = (find_or_retry forward sid st first second s).1 in
        (s'.with_addon ≡ with_addon) × All IsValidCall s'.calls
  unfolding find_or_retry call_addon
  find_or_retry-Valid forward sid st (boolean b) second s c (w, v) = (
    w,
    All-snoc IsValidCall s.calls
        (find sid forward st.query st.case_sensitive st.regex s.decorations) v c,
  )
  find_or_retry-Valid forward sid st (object b) second s c (w, v) = (
    w,
    All-snoc IsValidCall s.calls
        (find sid forward st.query st.case_sensitive st.regex s.decorations) v c,
  )
  find_or_retry-Valid forward sid st throws second s c (w, v) = (
    w,
    All-snoc IsValidCall
        (s.calls ++ (find sid forward st.query st.case_sensitive st.regex s.decorations ∷ []))
        (find sid forward st.query st.case_sensitive st.regex false)
        (All-snoc IsValidCall s.calls
          (find sid forward st.query st.case_sensitive st.regex s.decorations) v c)
        c,
  )

  search_for-Valid :
      (forward : Bool) (sid : Sid) (st : SearchState) (first second : AddonAnswer) (s : Searching)
      → has_sid sid with_addon ≡ true
      → st.index ≤ st.count
      → Valid s
      → Valid (search_for is_regex forward sid st first second s)
  unfolding search_for update_search_count clear_on
  search_for-Valid forward sid st first second s b l (w, v, p) =
      elim (Bool-cases (st.query == [])) [
        | inl e ↦ rw e (w, All-snoc IsValidCall s.calls (clear_decorations sid) v b, l)
        | inr e ↦ elim (Bool-cases (st.regex && not (is_regex st.query))) [
          | inl f ↦ rw (e, f) (w, v, l)
          | inr f ↦
              rw (e, f)
                (let (x, y) = find_or_retry-Valid forward sid st first second s (b, e, f) (w, v) in
                  (x, y, l))
        ]
      ]

  run_search-Valid :
      (forward : Bool) (first second : AddonAnswer) (s : Searching)
      → Valid s
      → Valid (run_search is_regex forward first second s)
  unfolding run_search
  run_search-Valid forward first second s h = elim (Option-cases s.search_state) [
    | inl e ↦ simp (run_search, e) (h.0, h.1, tt)
    | inr (st, e) ↦ elim (Option-cases (search_session s)) [
      | inl f ↦ simp (run_search, e, f) (h.0, h.1, subst IsPlaced e h.2)
      | inr (sid, f) ↦
          simp (run_search, e, f)
            (search_for-Valid forward sid st first second s (search_session-has s sid h.0 f)
              (subst IsPlaced e h.2) h)
    ]
  ]

  run_query-Valid :
      (forward : Bool) (value : Str) (c r : Bool) (first second : AddonAnswer) (s : Searching)
      → Valid s
      → Valid (run_query is_regex forward value c r first second s)
  unfolding run_query
  run_query-Valid forward value c r first second s h = elim (Option-cases s.search_state) [
    | inl e ↦ simp (run_query, e) (h.0, h.1, tt)
    | inr (st, e) ↦
        simp (run_query, e)
          (run_search-Valid forward first second
            (record s {
              search_state = some (record st { query = value; case_sensitive = c; regex = r });
            })
            (h.0, h.1, subst IsPlaced e h.2))
  ]

  on_results-Valid :
      (n : ℕ) (i : Option ℕ) (s : Searching)
      → IsResult (results n i)
      → Valid s
      → Valid (on_results n i s)
  unfolding on_results update_search_count
  on_results-Valid n i s g h = elim (Option-cases s.search_state) [
    | inl e ↦ simp (on_results, e) (h.0, h.1, tt)
    | inr (st, e) ↦
        simp (on_results, e)
          (if-cases Valid (opt_eqb (some st.search_sid) s.active_id) _ s
            (λ _. (h.0, h.1, placed n i g)) (λ _. h))
  ]
    where
      placed :
          (n : ℕ) (i : Option ℕ)
          → IsResult (results n i)
          → (if eqb n 0 then 0 else elim i [ none ↦ 0 | some i ↦ i + 1 ]) ≤ n
      placed n none g = ground arith
      placed n (some i) g = ground arith

  leave-Valid : (id : Option Sid) (s : Searching) → Valid s → Valid (leave id s)
  unfolding leave
  leave-Valid id s h = elim (Option-cases s.search_state) [
    | inl e ↦ simp (leave, e) (h.0, h.1, tt)
    | inr (st, e) ↦
        simp (leave, e)
          (if-cases Valid (opt_eqb (some st.search_sid) id)
            (record s { active_id = id; search_state = some st })
            (record (close_search s) { active_id = id }) (λ _. (h.0, h.1, subst IsPlaced e h.2))
            (λ _. close_search-Valid s h))
  ]

  search_steps-Valid :
      (steps : List SearchStep) (s : Searching)
      → All IsResult steps
      → Valid s
      → Valid (search_steps is_regex steps s)
  unfolding search_steps search_step
  search_steps-Valid [] s g h = h
  search_steps-Valid (opens_search ∷ steps) s (_, g) h =
      search_steps-Valid steps (open_search s) g (open_search-Valid s h)
  search_steps-Valid (closes_search ∷ steps) s (_, g) h =
      search_steps-Valid steps (close_search s) g (close_search-Valid s h)
  search_steps-Valid (runs forward value c r first second ∷ steps) s (_, g) h =
      search_steps-Valid steps (run_query is_regex forward value c r first second s) g
        (run_query-Valid forward value c r first second s h)
  search_steps-Valid (steps_on forward first second ∷ steps) s (_, g) h =
      search_steps-Valid steps (run_search is_regex forward first second s) g
        (run_search-Valid forward first second s h)
  search_steps-Valid (results n i ∷ steps) s (b, g) h =
      search_steps-Valid steps (on_results n i s) g (on_results-Valid n i s b h)
  search_steps-Valid (activates id ∷ steps) s (_, g) h =
      search_steps-Valid steps (leave id s) g (leave-Valid id s h)

-- No search has begun yet.
abbrev pub IsFresh : Searching → Type 0
IsFresh s = (s.search_state ≡ none) × (s.calls ≡ [])

-- Whatever is done in the search bar and whatever the addon answers: the addon of a session is asked only where
-- there is one, never with an empty text, and never with a text that is no regular expression as one;
-- and the counter's place is at most the number of the results, if the addon's indices are below it.
pub search_steps_lem :
    (is_regex : Str → Bool) (steps : List SearchStep) (s : Searching)
    → IsFresh s
    → All IsResult steps
    → let s' = search_steps is_regex steps s in
      All (IsValidCall is_regex s.with_addon) s'.calls
      × IsPlaced is_regex s.with_addon s'.search_state
search_steps_lem is_regex steps s (e, c) g =
    let (_, v, p) = search_steps-Valid is_regex s.with_addon steps s g (
      refl,
      subst (All (IsValidCall is_regex s.with_addon)) (sym c) tt,
      subst (IsPlaced is_regex s.with_addon) (sym e) tt,
    ) in
    (v, p)

-- An answer of the addon that is the Boolean true is not taken as found: where no results were reported, the
-- counter says that there are none.
pub run_search-boolean :
    (is_regex : Str → Bool) (forward : Bool) (st : SearchState) (text : CountText)
    (second : AddonAnswer) (s : Searching)
    → s.search_state ≡ some st
    → s.shown ≡ some text
    → has_sid st.search_sid s.with_addon ≡ true
    → (st.query == []) ≡ false
    → st.regex ≡ false
    → st.count ≡ 0
    → (run_search is_regex forward (boolean true) second s).shown ≡ some no_results
unfolding run_search search_session search_for update_search_count find_or_retry call_addon is_found
    count_text
run_search-boolean is_regex forward st text second s e t a q r c = ground (arith, e, t, a, q, r, c)
