-- ===== src/Dialogs/Selected.antt =====
-- What the cards of a `select` are in every run.
use shells.Prelude.{
  ℕ, ◌+◌, ◌<◌, ◌≡◌, refl, ◌⊎◌, inl, inr, true, false, Option, none, some, List, [], ◌∷◌, Str,
  length, get_elem?, filter, All, All-snoc, if◌then◌else◌, ◌&&◌, Bool-cases, if-cases, str_eq,
  Option-cases, subst,
}
use shells.Backends.Text.{ℤ, pos}
use shells.Dialogs.Keys.{
  KeyName, enter, space_key, escape_key, left, right, up, down, tab, other, KeyDown, esc_handler,
  is_escape, is_enter_or_space, is_editable_target,
}
use shells.Dialogs.Shown.{wrap-lt, empty-or-pos, positive, get-length, All-get, All-filter, find-lt}
use shells.Dialogs.Dispatched.{esc_handler-keeps, dispatch-keeps}
use shells.Dialogs.Confirm.{resolve_promise}
use shells.Dialogs.Select.{
  Choosable, Config, Select, Lower, open_select, wrap, sub, is_empty, set_active_card, close_select,
  select_value, click_card, column_count, move, select_key_handler, select_press, search_key,
  InputAnswer, refilter, answered, SelectAction, on_page, in_field, on_card, on_close_button,
  on_answer, select_act, select_acts, matches, in_input, or_else,
}

-- The active card is one of the cards, where there are any.
abbrev pub IsInBounds : Select → Type 0
IsInBounds s = (is_empty s.filtered ≡ true) ⊎ (s.active_idx < length s.filtered)

-- The value of a choice with `P` that is not disabled.
abbrev pub IsOffered : (Choosable → Type 0) → Str → Type 0
IsOffered P v = (o : Choosable) × P o × (o.disabled ≡ false) × (v ≡ o.value)

abbrev pub IsResolved : (Choosable → Type 0) → Option (Option Str) → Type 0
IsResolved P none = Unit
IsResolved P (some none) = Unit
IsResolved P (some (some v)) = IsOffered P v

abbrev Inv : (Choosable → Type 0) → Select → Type 0
Inv P s =
    IsInBounds s
    × All P s.choices
    × All P s.filtered
    × IsResolved P s.result
    × All (IsOffered P) s.applied

module _ (P : Choosable → Type 0) where
  resolve_promise-IsResolved :
      (r : Option Str) (result : Option (Option Str))
      → IsResolved P (some r)
      → IsResolved P result
      → IsResolved P (resolve_promise r result)
  resolve_promise-IsResolved r none h g = h
  resolve_promise-IsResolved r (some a) h g = g

  set_active_card-Inv : (i : ℤ) (s : Select) → Inv P s → Inv P (set_active_card i s)
  unfolding set_active_card
  set_active_card-Inv i s (b, c, f, r, a) =
      if-cases (Inv P) (is_empty s.filtered) s
        (record s { active_idx = wrap i (length s.filtered) }) (λ _. (b, c, f, r, a))
        (λ e.
          (inr (wrap-lt i (length s.filtered) (positive (empty-or-pos s.filtered) e)), c, f, r, a))

  close_select-Inv : (s : Select) → Inv P s → Inv P (close_select s)
  unfolding close_select
  close_select-Inv s (b, c, f, r, a) = (b, c, f, resolve_promise-IsResolved none s.result tt r, a)

  click_card-Inv : (i : ℕ) (s : Select) → Inv P s → Inv P (click_card i s)
  unfolding click_card select_value
  click_card-Inv i s (b, c, f, r, a) = elim (Option-cases (get_elem? s.filtered i)) [
    | inl e ↦ rw (click_card, e) (b, c, f, r, a)
    | inr (o, e) ↦ elim (Bool-cases o.disabled) [
      | inl d ↦ rw (click_card, e, d) (b, c, f, r, a)
      | inr d ↦ elim (Bool-cases s.config.apply_immediately) [
        | inl w ↦
            rw (click_card, e, d, w)
              (
                inr (get-length s.filtered i o e),
                c,
                f,
                r,
                All-snoc (IsOffered P) s.applied o.value a
                    (o, All-get P s.filtered i o e f, d, refl),
              )
        | inr w ↦
            rw (click_card, e, d, w)
              (
                b,
                c,
                f,
                resolve_promise-IsResolved (some o.value) s.result
                    (o, All-get P s.filtered i o e f, d, refl) r,
                a,
              )
      ]
    ]
  ]

  move-Inv : (k : KeyName) (s : Select) → Inv P s → Inv P (move k s)
  unfolding move
  move-Inv right s h = set_active_card-Inv (pos (s.active_idx + 1)) s h
  move-Inv left s h = set_active_card-Inv (sub s.active_idx 1) s h
  move-Inv down s h = set_active_card-Inv (pos (s.active_idx + column_count s)) s h
  move-Inv up s h = set_active_card-Inv (sub s.active_idx (column_count s)) s h
  move-Inv enter s h = h
  move-Inv space_key s h = h
  move-Inv escape_key s h = h
  move-Inv tab s h = h
  move-Inv other s h = h

  select_key_handler-Inv : (e : KeyDown) (s : Select) → Inv P s → Inv P (select_key_handler e s)
  unfolding select_key_handler
  select_key_handler-Inv e s h =
      if-cases (Inv P) (is_editable_target e) s _ (λ _. h)
        (λ _.
          if-cases (Inv P) (is_escape e.key) (close_select s) _ (λ _. close_select-Inv s h)
            (λ _.
              if-cases (Inv P) (is_enter_or_space e.key) (click_card s.active_idx s) (move e.key s)
                (λ _. click_card-Inv s.active_idx s h) (λ _. move-Inv e.key s h)))

  select_press-Inv : (e : KeyDown) (s : Select) → Inv P s → Inv P (select_press e s)
  unfolding select_press
  select_press-Inv e s h =
      dispatch-keeps (Inv P) (λ s. s.is_open) (select_key_handler e) (esc_handler close_select e) s
        (select_key_handler-Inv e) (esc_handler-keeps (Inv P) close_select e close_select-Inv) h

  search_key-Inv : (k : KeyName) (s : Select) → Inv P s → Inv P (search_key k s)
  unfolding search_key
  search_key-Inv tab s h = click_card-Inv s.active_idx s h
  search_key-Inv enter s h = click_card-Inv s.active_idx s h
  search_key-Inv space_key s h = h
  search_key-Inv escape_key s h = h
  search_key-Inv left s h = h
  search_key-Inv right s h = h
  search_key-Inv up s h = h
  search_key-Inv down s h = h
  search_key-Inv other s h = h

  refilter-Inv :
      (lower : Lower) (q : Str) (os : List Choosable) (s : Select)
      → All P os
      → Inv P s
      → Inv P (refilter lower q os s)
  unfolding refilter
  refilter-Inv lower q os s g (b, c, f, r, a) = (
    empty-or-pos (
        filter
          (λ o.
            if s.config.filter_only && is_empty (lower q)
            then o.always_show
            else matches lower (lower q) o)
          os),
    g,
    All-filter P
        (λ o.
          if s.config.filter_only && is_empty (lower q)
          then o.always_show
          else matches lower (lower q) o)
        os g,
    r,
    a,
  )

abbrev AllOptions : (Choosable → Type 0) → Option (List Choosable) → Type 0
AllOptions P none = Unit
AllOptions P (some os) = All P os

-- The options that an answer brings have `P`.
abbrev pub IsBringing : (Choosable → Type 0) → SelectAction → Type 0
IsBringing P (on_answer q (some a)) = AllOptions P a.options
IsBringing P _ = Unit

module _ (P : Choosable → Type 0) where
  answered-Inv :
      (lower : Lower) (q : Str) (a : Option InputAnswer) (s : Select)
      → IsBringing P (on_answer q a)
      → Inv P s
      → Inv P (answered lower q a s)
  unfolding answered
  answered-Inv lower q none s g h = refilter-Inv P lower q s.choices s h.1 h
  answered-Inv lower q (some a) s g h = by_options a.options refl
    where
      by_options :
          (o : Option (List Choosable)) → a.options ≡ o → Inv P (answered lower q (some a) s)
      by_options none e = rw (answered, e) (refilter-Inv P lower q s.choices s h.1 h)
      by_options (some os) e =
          rw (answered, e)
            (refilter-Inv P lower (or_else q a.query) os s (subst (AllOptions P) e g) h)

  select_act-Inv :
      (lower : Lower) (a : SelectAction) (s : Select)
      → IsBringing P a
      → Inv P s
      → Inv P (select_act lower a s)
  unfolding select_act
  select_act-Inv lower (on_page e) s g h = select_press-Inv P e s h
  select_act-Inv lower (in_field k) s g h =
      if-cases (Inv P) s.is_open (select_press (in_input k) (search_key k s)) s
        (λ _. select_press-Inv P (in_input k) (search_key k s) (search_key-Inv P k s h)) (λ _. h)
  select_act-Inv lower (on_card i) s g h =
      if-cases (Inv P) s.is_open (click_card i s) s (λ _. click_card-Inv P i s h) (λ _. h)
  select_act-Inv lower on_close_button s g h =
      if-cases (Inv P) s.is_open (close_select s) s (λ _. close_select-Inv P s h) (λ _. h)
  select_act-Inv lower (on_answer q a) s g h = answered-Inv lower q a s g h

  select_acts-Inv :
      (lower : Lower) (acts : List SelectAction) (s : Select)
      → All (IsBringing P) acts
      → Inv P s
      → Inv P (select_acts lower acts s)
  unfolding select_acts
  select_acts-Inv lower [] s g h = h
  select_acts-Inv lower (a ∷ acts) s (g, gs) h =
      select_acts-Inv lower acts (select_act lower a s) gs (select_act-Inv lower a s g h)

open_select-Inv :
    (P : Choosable → Type 0) (config : Config) (width : ℕ) (current : Option Str)
    (choices : List Choosable)
    → All P choices
    → Inv P (open_select config width current choices)
unfolding open_select
open_select-Inv P config width current choices h = (
  find-lt current (if config.filter_only then filter (λ o. o.always_show) choices else choices),
  h,
  if-cases (All P) config.filter_only (filter (λ o. o.always_show) choices) choices
      (λ _. All-filter P (λ o. o.always_show) choices h) (λ _. h),
  tt,
  tt,
)

-- Whatever is pressed, clicked and typed in a `select`, and whatever its queries answer: the active card is
-- one of the cards that are shown, where there are any, and what it resolves to or applies is the value of
-- an option that was offered and is not disabled, or null.
pub select_acts_lem :
    (lower : Lower) (config : Config) (width : ℕ) (current : Option Str) (choices : List Choosable)
    (acts : List SelectAction) (P : Choosable → Type 0)
    → All P choices
    → All (IsBringing P) acts
    → let s = select_acts lower acts (open_select config width current choices) in
      IsInBounds s × IsResolved P s.result × All (IsOffered P) s.applied
select_acts_lem lower config width current choices acts P h g =
    let (b, _, _, r, a) =
      select_acts-Inv P lower acts (open_select config width current choices) g
        (open_select-Inv P config width current choices h) in
    (b, r, a)
