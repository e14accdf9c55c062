-- ===== src/Dialogs/Prompt.antt =====
-- `prompt` of `public/js/tui-dialog.js`, with its suggestions. A prompt that is busy, with its input disabled,
-- is left out.
use shells.Prelude.{
  ℕ, zero, suc, ◌+◌, ◌-◌, min, Bool, true, false, not, Option, none, some, List, [], ◌∷◌, Str,
  length, get_elem?, filter, codes, if◌then◌else◌, ltb, ◌++◌, nat_eq,
}
use shells.Backends.Text.{trim}
use shells.Recents.Paths.{ends_with_slash}
use shells.Dialogs.Keys.{KeyName, enter, escape_key, up, down, tab, KeyDown, esc_handler, dispatch}
use shells.Dialogs.Confirm.{resolve_promise}
use shells.Dialogs.Select.{is_empty}

-- A suggestion that is a string has `canDelete` and is not loading.
pub record Suggestion : Type 0 where
  pub text : Str
  pub can_delete : Bool
  pub loading : Bool

-- `activeSuggestionIdx` is none for -1. `queries` are the calls of `opts.autocomplete` that have not
-- answered, the oldest first.
pub record Prompt : Type 0 where
  pub has_autocomplete : Bool
  pub value : Str
  pub current_suggestions : List Suggestion
  pub active_suggestion_idx : Option ℕ
  pub debounce : Bool
  pub queries : List Str
  pub is_open : Bool
  pub result : Option (Option Str)

abbrev pub loading_item : Suggestion
loading_item = record { text = codes "Loading..."; can_delete = false; loading = true }

-- `updateSuggestions` as far as its `await`.
unfoldable pub update_suggestions : Prompt → Prompt
update_suggestions p =
    if p.has_autocomplete
    then record p {
      queries = p.queries ++ (p.value ∷ []);
      current_suggestions = if is_empty p.current_suggestions then [] else loading_item ∷ [];
      active_suggestion_idx =
          if is_empty p.current_suggestions then p.active_suggestion_idx else none;
    }
    else p

-- The rest of it, with what `opts.autocomplete` has answered.
unfoldable pub show_suggestions : List Suggestion → Prompt → Prompt
show_suggestions res p = record p {
  current_suggestions = filter (λ s. not s.loading) res;
  active_suggestion_idx = none;
}

abbrev pub remove_at {ℓ} : {A : Type ℓ} → ℕ → List A → List A
remove_at i [] = []
remove_at zero (x ∷ xs) = xs
remove_at (suc i) (x ∷ xs) = x ∷ remove_at i xs

-- The `i`-th of the open calls of `opts.autocomplete` answers.
unfoldable pub autocompleted : ℕ → List Suggestion → Prompt → Prompt
unfolding show_suggestions
autocompleted i res p =
    if ltb i (length p.queries)
    then show_suggestions res (record p { queries = remove_at i p.queries })
    else p

-- The input takes the focus, whose listener asks first.
unfoldable pub open_prompt : Bool → Str → Prompt
unfolding update_suggestions
open_prompt has_autocomplete value = update_suggestions (
    update_suggestions (record {
      has_autocomplete = has_autocomplete;
      value = value;
      current_suggestions = [];
      active_suggestion_idx = none;
      debounce = false;
      queries = [];
      is_open = true;
      result = none;
    }))

unfoldable pub submit : Prompt → Prompt
submit p = record p {
  debounce = false;
  is_open = false;
  result = resolve_promise (some p.value) p.result;
}

unfoldable pub cancel_prompt : Prompt → Prompt
cancel_prompt p = record p {
  debounce = false;
  is_open = false;
  result = resolve_promise none p.result;
}

unfoldable pub submit_suggestion : Option Suggestion → Prompt → Prompt
unfolding submit
submit_suggestion none p = submit p
submit_suggestion (some s) p = submit (record p { value = s.text })

-- The suggestion at `activeSuggestionIdx`.
abbrev pub active_suggestion : Prompt → Option Suggestion
active_suggestion p = elim p.active_suggestion_idx [
  | none ↦ none
  | some i ↦ get_elem? p.current_suggestions i
]

unfoldable pub press_enter : Prompt → Prompt
unfolding submit_suggestion trim
press_enter p = elim (active_suggestion p) [
  | some s ↦ submit_suggestion (some s) p
  | none ↦
      submit_suggestion
        (if is_empty (trim p.value) then get_elem? p.current_suggestions 0 else none) p
]

abbrev pub next_suggestion : Option ℕ → ℕ → ℕ
next_suggestion none last = min 0 last
next_suggestion (some i) last = min (i + 1) last

abbrev pub previous_suggestion : Option ℕ → Option ℕ
previous_suggestion none = none
previous_suggestion (some zero) = none
previous_suggestion (some (suc i)) = some i

abbrev pub or_zero_index : Option ℕ → ℕ
or_zero_index none = 0
or_zero_index (some i) = i

unfoldable pub complete : Suggestion → Prompt → Prompt
unfolding update_suggestions ends_with_slash
complete s p =
    if ends_with_slash s.text
    then update_suggestions (record p { value = s.text; active_suggestion_idx = none })
    else record p { value = s.text; current_suggestions = [] }

-- The listener for `keydown` of the input.
unfoldable pub input_key : KeyName → Prompt → Prompt
unfolding press_enter complete
input_key enter p = press_enter p
input_key down p = if is_empty p.current_suggestions then p else record p {
  active_suggestion_idx =
      some (next_suggestion p.active_suggestion_idx (length p.current_suggestions - 1));
}
input_key up p =
    if is_empty p.current_suggestions
    then p
    else record p { active_suggestion_idx = previous_suggestion p.active_suggestion_idx }
input_key tab p = elim (get_elem? p.current_suggestions (or_zero_index p.active_suggestion_idx)) [
  | none ↦ p
  | some s ↦ complete s p
]
input_key escape_key p =
    if is_empty p.current_suggestions then p else record p { current_suggestions = [] }
input_key _ p = p

-- A key press, which reaches the input where it has the focus, and then the listener of the document.
unfoldable pub prompt_press : Bool → KeyDown → Prompt → Prompt
unfolding dispatch input_key esc_handler cancel_prompt
prompt_press focused e =
    dispatch (λ p. p.is_open) (λ p. if focused then input_key e.key p else p)
      (esc_handler cancel_prompt e)

-- What reaches a `prompt`.
pub data Input : Type 0 where
  typed : Str → Input
  debounced : Input
  focused_input : Input
  key_pressed : Bool → KeyDown → Input
  clicked_suggestion : ℕ → Input
  deleted : Input
  responded : ℕ → List Suggestion → Input
  clicked_ok : Input
  clicked_cancel : Input

-- A click on a suggestion, which the one that says `Loading...` does not hear.
unfoldable pub click_suggestion : Option Suggestion → Prompt → Prompt
unfolding submit_suggestion
click_suggestion none p = p
click_suggestion (some s) p = if s.loading then p else submit_suggestion (some s) p

-- The input and the buttons leave the page with `_cleanup`, and the timer is cleared.
unfoldable pub prompt_act : Input → Prompt → Prompt
unfolding update_suggestions autocompleted submit cancel_prompt prompt_press click_suggestion
prompt_act (typed v) p =
    if p.is_open then record p { value = v; active_suggestion_idx = none; debounce = true } else p
prompt_act debounced p =
    if p.debounce then update_suggestions (record p { debounce = false }) else p
prompt_act focused_input p =
    if p.is_open then update_suggestions (record p { active_suggestion_idx = none }) else p
prompt_act (key_pressed focused e) p = prompt_press focused e p
prompt_act (clicked_suggestion i) p =
    if p.is_open then click_suggestion (get_elem? p.current_suggestions i) p else p
prompt_act deleted p = update_suggestions p
prompt_act (responded i res) p = autocompleted i res p
prompt_act clicked_ok p = if p.is_open then submit p else p
prompt_act clicked_cancel p = if p.is_open then cancel_prompt p else p

unfoldable pub prompt_acts : List Input → Prompt → Prompt
unfolding prompt_act
prompt_acts [] p = p
prompt_acts (a ∷ acts) p = prompt_acts acts (prompt_act a p)
