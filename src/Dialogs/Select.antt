-- ===== src/Dialogs/Select.antt =====
-- `select` of `public/js/tui-dialog.js`. The callbacks `onSelect` and `onMove`, which no caller gives, are
-- left out.
use shells.Prelude.{
  ℕ, zero, suc, ◌+◌, ◌-◌, ◌%◌, Bool, true, false, ◌&&◌, ◌||◌, Option, none, some, List, [], ◌∷◌,
  ◌++◌, Str, str_eq, opt_eqb, leb, length, get_elem?, filter, if◌then◌else◌,
}
use shells.Backends.Text.{ℤ, pos, negsuc, contains}
use shells.Dialogs.Keys.{
  KeyName, enter, left, right, up, down, tab, KeyDown, is_editable_target, is_enter_or_space,
  is_escape, esc_handler, dispatch,
}
use shells.Dialogs.Confirm.{resolve_promise}

pub record Choosable : Type 0 where
  pub value : Str
  pub title : Str
  pub description : Option Str
  pub always_show : Bool
  pub disabled : Bool

pub record Config : Type 0 where
  pub filter_only : Bool
  pub apply_immediately : Bool
  pub single_column_navigation : Bool

-- `window.innerWidth`, which may change.
pub record Select : Type 0 where
  pub config : Config
  pub inner_width : ℕ
  pub current : Option Str
  pub choices : List Choosable
  pub filtered : List Choosable
  pub active_idx : ℕ
  pub is_open : Bool
  pub result : Option (Option Str)
  pub applied : List Str

-- `String.prototype.toLowerCase` is a parameter.
abbrev pub Lower : Type 0
Lower = Str → Str

unfoldable pub find_value : Option Str → List Choosable → Option ℕ
find_value c [] = none
find_value c (o ∷ os) =
    if opt_eqb (some o.value) c
    then some 0
    else elim (find_value c os) [ none ↦ none | some i ↦ some (suc i) ]

-- `Math.max(0, filtered.findIndex(…))`
abbrev pub max_zero : Option ℕ → ℕ
max_zero none = 0
max_zero (some i) = i

unfoldable pub open_select : Config → ℕ → Option Str → List Choosable → Select
unfolding find_value
open_select config width current choices =
    let shown = if config.filter_only then filter (λ o. o.always_show) choices else choices in
    record {
      config = config;
      inner_width = width;
      current = current;
      choices = choices;
      filtered = shown;
      active_idx = max_zero (find_value current shown);
      is_open = true;
      result = none;
      applied = [];
    }

-- `((idx % n) + n) % n`, where the remainder has the sign of `idx`.
unfoldable pub wrap : ℤ → ℕ → ℕ
wrap (pos a) n = (a % n + n) % n
wrap (negsuc a) n = (n - suc a % n) % n

unfoldable pub sub : ℕ → ℕ → ℤ
sub a zero = pos a
sub zero (suc b) = negsuc b
sub (suc a) (suc b) = sub a b

abbrev pub is_empty {ℓ} : {A : Type ℓ} → List A → Bool
is_empty [] = true
is_empty (_ ∷ _) = false

unfoldable pub set_active_card : ℤ → Select → Select
unfolding wrap
set_active_card idx s =
    if is_empty s.filtered then s else record s { active_idx = wrap idx (length s.filtered) }

unfoldable pub close_select : Select → Select
close_select s = record s { is_open = false; result = resolve_promise none s.result }

unfoldable pub select_value : Str → Select → Select
select_value v s = record s { is_open = false; result = resolve_promise (some v) s.result }

-- A click on a card; the browser does not pass one on to a disabled button.
unfoldable pub click_card : ℕ → Select → Select
unfolding select_value
click_card idx s = elim (get_elem? s.filtered idx) [
  | none ↦ s
  | some o ↦
      if o.disabled
      then s
      else if s.config.apply_immediately
      then record s {
        current = some o.value;
        active_idx = idx;
        applied = s.applied ++ (o.value ∷ []);
      }
      else select_value o.value s
]

unfoldable pub column_count : Select → ℕ
column_count s =
    if s.config.single_column_navigation then 1 else if leb s.inner_width 480 then 1 else 2

unfoldable pub move : KeyName → Select → Select
unfolding set_active_card sub column_count
move right s = set_active_card (pos (s.active_idx + 1)) s
move left s = set_active_card (sub s.active_idx 1) s
move down s = set_active_card (pos (s.active_idx + column_count s)) s
move up s = set_active_card (sub s.active_idx (column_count s)) s
move _ s = s

unfoldable pub select_key_handler : KeyDown → Select → Select
unfolding is_editable_target close_select click_card move
select_key_handler e s =
    if is_editable_target e
    then s
    else if is_escape e.key
    then close_select s
    else if is_enter_or_space e.key
    then click_card s.active_idx s
    else move e.key s

unfoldable pub select_press : KeyDown → Select → Select
unfolding dispatch select_key_handler esc_handler close_select
select_press e = dispatch (λ s. s.is_open) (select_key_handler e) (esc_handler close_select e)

-- The listener of the search field, which is called before those of the document.
unfoldable pub search_key : KeyName → Select → Select
unfolding click_card
search_key tab s = click_card s.active_idx s
search_key enter s = click_card s.active_idx s
search_key _ s = s

abbrev pub matches : Lower → Str → Choosable → Bool
matches lower q o =
    contains (lower o.title) q
    || elim o.description [ none ↦ false | some d ↦ contains (lower d) q ]

-- What `config.onInput` answers: other options and another query.
pub record InputAnswer : Type 0 where
  pub options : Option (List Choosable)
  pub query : Option Str

abbrev pub or_else {ℓ} : {A : Type ℓ} → A → Option A → A
or_else a none = a
or_else a (some b) = b

-- The listener for `input`, after `config.onInput` has answered.
unfoldable pub refilter : Lower → Str → List Choosable → Select → Select
refilter lower q options s =
    let q_lower = lower q in
    record s {
      choices = options;
      filtered =
          filter
            (λ o.
              if s.config.filter_only && is_empty q_lower
              then o.always_show
              else matches lower q_lower o)
            options;
      active_idx = 0;
    }

unfoldable pub answered : Lower → Str → Option InputAnswer → Select → Select
unfolding refilter
answered lower q none s = refilter lower q s.choices s
answered lower q (some a) s = elim a.options [
  | none ↦ refilter lower q s.choices s
  | some os ↦ refilter lower (or_else q a.query) os s
]

-- What reaches an open `select`: a key press elsewhere, one in the search field, a click on a card, on
-- the button `esc` or the overlay, and the answer to a query that was typed.
pub data SelectAction : Type 0 where
  on_page : KeyDown → SelectAction
  in_field : KeyName → SelectAction
  on_card : ℕ → SelectAction
  on_close_button : SelectAction
  on_answer : Str → Option InputAnswer → SelectAction

abbrev pub in_input : KeyName → KeyDown
in_input k = record {
  key = k;
  has_target = true;
  is_input = true;
  is_textarea = false;
  is_content_editable = false;
}

-- A late answer to a query finds the dialog closed, and still filters what it shows no more.
unfoldable pub select_act : Lower → SelectAction → Select → Select
unfolding select_press search_key click_card close_select answered
select_act lower (on_page e) s = select_press e s
select_act lower (in_field k) s =
    if s.is_open then select_press (in_input k) (search_key k s) else s
select_act lower (on_card i) s = if s.is_open then click_card i s else s
select_act lower on_close_button s = if s.is_open then close_select s else s
select_act lower (on_answer q a) s = answered lower q a s

unfoldable pub select_acts : Lower → List SelectAction → Select → Select
unfolding select_act
select_acts lower [] s = s
select_acts lower (a ∷ acts) s = select_acts lower acts (select_act lower a s)
