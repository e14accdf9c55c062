-- ===== src/Dialogs/Prompted.antt =====
-- What a `prompt` resolves to and which suggestion is active.
use shells.Prelude.{
  ℕ, ◌<◌, ◌≡◌, refl, ◌⊎◌, inl, inr, Bool, true, false, not, Option, none, some, List, [], ◌∷◌, Str,
  length, get_elem?, filter, codes, arith, if-cases, if◌then◌else◌, is_some, Option-cases,
}
use shells.Backends.Text.{trim}
use shells.Recents.Paths.{ends_with_slash}
use shells.Dialogs.Keys.{
  KeyName, enter, space_key, escape_key, left, right, up, down, tab, other, KeyDown, esc_handler,
  dispatch,
}
use shells.Dialogs.Dispatched.{dispatch-keeps, esc_handler-keeps}
use shells.Dialogs.Select.{is_empty}
use shells.Dialogs.Prompt.{
  Suggestion, Prompt, update_suggestions, show_suggestions, autocompleted, open_prompt, submit,
  cancel_prompt, submit_suggestion, active_suggestion, press_enter, complete, input_key,
  prompt_press, Input, typed, debounced, focused_input, key_pressed, clicked_suggestion, deleted,
  responded, clicked_ok, clicked_cancel, click_suggestion, prompt_act, prompt_acts, or_zero_index,
}

-- `activeSuggestionIdx` is -1 or the place of a suggestion, where any is shown.
abbrev pub IsActiveIn : Option ℕ → List Suggestion → Type 0
IsActiveIn none xs = Unit
IsActiveIn (some i) xs = (is_empty xs ≡ true) ⊎ (i < length xs)

-- Open without an answer, or closed with one and with the timer of the typing cleared.
abbrev pub IsOver : Prompt → Type 0
IsOver p =
    (p.is_open ≡ true × p.result ≡ none)
    ⊎ (p.is_open ≡ false × is_some p.result ≡ true × p.debounce ≡ false)

abbrev Sound : Prompt → Type 0
Sound p = IsActiveIn p.active_suggestion_idx p.current_suggestions × IsOver p

update_suggestions-Sound : (p : Prompt) → Sound p → Sound (update_suggestions p)
unfolding update_suggestions
update_suggestions-Sound p (a, o) = ground arith

submit-Sound : (p : Prompt) → Sound p → Sound (submit p)
unfolding submit
submit-Sound p (a, o) = ground arith

cancel_prompt-Sound : (p : Prompt) → Sound p → Sound (cancel_prompt p)
unfolding cancel_prompt
cancel_prompt-Sound p (a, o) = ground arith

submit_suggestion-Sound :
    (o : Option Suggestion) (p : Prompt) → Sound p → Sound (submit_suggestion o p)
unfolding submit_suggestion
submit_suggestion-Sound none p h = submit-Sound p h
submit_suggestion-Sound (some s) p h = submit-Sound (record p { value = s.text }) h

press_enter-Sound : (p : Prompt) → Sound p → Sound (press_enter p)
unfolding press_enter
press_enter-Sound p h = elim (Option-cases (active_suggestion p)) [
  | inl e ↦
      rw (press_enter, e)
        (submit_suggestion-Sound
          (if is_empty (trim p.value) then get_elem? p.current_suggestions 0 else none) p h)
  | inr (s, e) ↦ rw (press_enter, e) (submit_suggestion-Sound (some s) p h)
]

complete-Sound : (s : Suggestion) (p : Prompt) → Sound p → Sound (complete s p)
unfolding complete
complete-Sound s p (a, o) =
    if-cases Sound (ends_with_slash s.text)
      (update_suggestions (record p { value = s.text; active_suggestion_idx = none }))
      (record p { value = s.text; current_suggestions = [] })
      (λ _.
        update_suggestions-Sound (record p { value = s.text; active_suggestion_idx = none })
          (tt, o))
      (λ _. (none_shown p.active_suggestion_idx, o))
  where
    none_shown : (i : Option ℕ) → IsActiveIn i []
    none_shown none = tt
    none_shown (some i) = inl refl

input_key-Sound : (k : KeyName) (p : Prompt) → Sound p → Sound (input_key k p)
unfolding input_key
input_key-Sound enter p h = press_enter-Sound p h
input_key-Sound tab p h =
    elim (Option-cases (get_elem? p.current_suggestions (or_zero_index p.active_suggestion_idx))) [
      | inl e ↦ rw (input_key, e) h
      | inr (s, e) ↦ rw (input_key, e) (complete-Sound s p h)
    ]
input_key-Sound down p (a, o) = ground arith
input_key-Sound up p (a, o) = ground arith
input_key-Sound escape_key p (a, o) = ground arith
input_key-Sound space_key p h = h
input_key-Sound left p h = h
input_key-Sound right p h = h
input_key-Sound other p h = h

prompt_press-Sound :
    (focused : Bool) (e : KeyDown) (p : Prompt) → Sound p → Sound (prompt_press focused e p)
unfolding prompt_press
prompt_press-Sound focused e p h =
    dispatch-keeps Sound (λ p. p.is_open) (λ p. if focused then input_key e.key p else p)
      (esc_handler cancel_prompt e) p
      (λ p h.
        if-cases Sound focused (input_key e.key p) p (λ _. input_key-Sound e.key p h) (λ _. h))
      (esc_handler-keeps Sound cancel_prompt e cancel_prompt-Sound) h

click_suggestion-Sound :
    (o : Option Suggestion) (p : Prompt) → Sound p → Sound (click_suggestion o p)
unfolding click_suggestion
click_suggestion-Sound none p h = h
click_suggestion-Sound (some s) p h =
    if-cases Sound s.loading p (submit_suggestion (some s) p) (λ _. h)
      (λ _. submit_suggestion-Sound (some s) p h)

prompt_act-Sound : (a : Input) (p : Prompt) → Sound p → Sound (prompt_act a p)
unfolding prompt_act
prompt_act-Sound (typed v) p (a, o) = ground arith
prompt_act-Sound debounced p (a, o) =
    if-cases Sound p.debounce (update_suggestions (record p { debounce = false })) p
      (λ d. update_suggestions-Sound (record p { debounce = false }) (a, ground arith))
      (λ _. (a, o))
prompt_act-Sound focused_input p (a, o) =
    if-cases Sound p.is_open (update_suggestions (record p { active_suggestion_idx = none })) p
      (λ _. update_suggestions-Sound (record p { active_suggestion_idx = none }) (tt, o))
      (λ _. (a, o))
prompt_act-Sound (key_pressed focused e) p h = prompt_press-Sound focused e p h
prompt_act-Sound (clicked_suggestion i) p h =
    if-cases Sound p.is_open (click_suggestion (get_elem? p.current_suggestions i) p) p
      (λ _. click_suggestion-Sound (get_elem? p.current_suggestions i) p h) (λ _. h)
prompt_act-Sound deleted p h = update_suggestions-Sound p h
prompt_act-Sound (responded i res) p (a, o) = ground arith
prompt_act-Sound clicked_ok p h =
    if-cases Sound p.is_open (submit p) p (λ _. submit-Sound p h) (λ _. h)
prompt_act-Sound clicked_cancel p h =
    if-cases Sound p.is_open (cancel_prompt p) p (λ _. cancel_prompt-Sound p h) (λ _. h)

prompt_acts-Sound : (acts : List Input) (p : Prompt) → Sound p → Sound (prompt_acts acts p)
unfolding prompt_acts
prompt_acts-Sound [] p h = h
prompt_acts-Sound (a ∷ acts) p h = prompt_acts-Sound acts (prompt_act a p) (prompt_act-Sound a p h)

open_prompt-Sound :
    (has_autocomplete : Bool) (value : Str) → Sound (open_prompt has_autocomplete value)
unfolding open_prompt update_suggestions
open_prompt-Sound has_autocomplete value = ground arith

-- Whatever is typed, pressed and clicked in a `prompt`, and in whatever order its queries answer: the active
-- suggestion is one of those that are shown, where there are any, and the prompt is open without an answer,
-- or closed with one and with no pause of the typing left to end.
pub prompt_acts_lem :
    (has_autocomplete : Bool) (value : Str) (acts : List Input)
    → let p = prompt_acts acts (open_prompt has_autocomplete value) in
      IsActiveIn p.active_suggestion_idx p.current_suggestions × IsOver p
prompt_acts_lem has_autocomplete value acts =
    prompt_acts-Sound acts (open_prompt has_autocomplete value)
      (open_prompt-Sound has_autocomplete value)

-- Where suggestions are shown and the user clears the field, Enter resolves the prompt to the text
-- `Loading...`, if it is pressed after the pause of the typing and before the answer.
pub prompt_acts-loading :
    (p : Prompt) (e : KeyDown) (v : Str)
    → p.has_autocomplete ≡ true
    → p.is_open ≡ true
    → p.result ≡ none
    → is_empty p.current_suggestions ≡ false
    → is_empty (trim v) ≡ true
    → e.key ≡ enter
    → (prompt_acts (typed v ∷ (debounced ∷ (key_pressed true e ∷ []))) p).result
      ≡ some (some (codes "Loading..."))
unfolding prompt_acts prompt_act update_suggestions prompt_press dispatch input_key press_enter
    submit_suggestion submit esc_handler
prompt_acts-loading p e v a o r n t k = ground arith

-- Two queries that are answered in the other order leave the suggestions for the text that was typed first.
pub prompt_acts-stale :
    (p : Prompt) (v w : Str) (for_v for_w : List Suggestion)
    → p.has_autocomplete ≡ true
    → p.is_open ≡ true
    → p.queries ≡ []
    → let q =
        prompt_acts
          (typed v
            ∷ (debounced
                ∷ (typed w ∷ (debounced ∷ (responded 1 for_w ∷ (responded 0 for_v ∷ []))))))
          p in
      (q.value ≡ w) × (q.queries ≡ []) × (q.current_suggestions ≡ filter (λ s. not s.loading) for_v)
unfolding prompt_acts prompt_act update_suggestions autocompleted show_suggestions
prompt_acts-stale p v w for_v for_w a o e = ground arith
