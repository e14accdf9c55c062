-- ===== src/Dialogs/Examples.antt =====
-- A page with a confirm below an alert, three layouts to select from, and a prompt with two suggestions.
use shells.Prelude.{
  ◌≡◌, refl, inl, inr, true, false, none, some, List, [], ◌∷◌, Str, codes, All, In,
}
use shells.Backends.Text.{trim}
use shells.Dialogs.Keys.{KeyName, enter, down, KeyDown}
use shells.Dialogs.Confirm.{open_alert, open_confirm}
use shells.Dialogs.Select.{Choosable, Config, Select, open_select, on_page, select_acts}
use shells.Dialogs.Prompt.{
  Suggestion, Prompt, open_prompt, typed, debounced, key_pressed, responded, prompt_acts,
}
use shells.Dialogs.Page.{Dialog, of_alert, of_confirm, of_select}
use shells.Dialogs.Selected.{IsInBounds, IsResolved, IsOffered, select_acts_lem}
use shells.Dialogs.Prompted.{IsActiveIn, IsOver, prompt_acts_lem, prompt_acts-loading}

abbrev on_button : KeyName → KeyDown
on_button k = record {
  key = k;
  has_target = true;
  is_input = false;
  is_textarea = false;
  is_content_editable = false;
}

abbrev layout : Str → Choosable
layout v = record {
  value = v;
  title = v;
  description = none;
  always_show = false;
  disabled = false;
}

abbrev layouts : List Choosable
layouts = layout (codes "grid") ∷ (layout (codes "stack") ∷ (layout (codes "master") ∷ []))

abbrev layout_config : Config
layout_config = record {
  filter_only = false;
  apply_immediately = true;
  single_column_navigation = false;
}

abbrev layout_select : Select
layout_select = open_select layout_config 1024 (some (codes "stack")) layouts

abbrev page : List Dialog
page = of_confirm open_confirm ∷ (of_select layout_select ∷ (of_alert open_alert ∷ []))

abbrev asking : Prompt
asking =
    prompt_acts
      (responded 0 []
        ∷ (responded 0 (
              record { text = codes "htop"; can_delete = true; loading = false }
              ∷ (record { text = codes "vim"; can_delete = true; loading = false } ∷ []))
            ∷ []))
      (open_prompt true [])

select_acts_lem_example :
    let s =
      select_acts
        (λ t. t)
        (on_page (on_button down) ∷ (on_page (on_button enter) ∷ []))
        layout_select in
    IsInBounds s
    × IsResolved (λ o. In o layouts) s.result
    × All (IsOffered (λ o. In o layouts)) s.applied
select_acts_lem_example =
    select_acts_lem (λ t. t) layout_config 1024 (some (codes "stack")) layouts
      (on_page (on_button down) ∷ (on_page (on_button enter) ∷ [])) (λ o. In o layouts)
      (inl refl, (inr (inl refl), (inr (inr (inl refl)), tt))) (tt, (tt, tt))

prompt_acts_lem_example :
    let p =
      prompt_acts (typed (codes "v") ∷ (debounced ∷ (responded 0 [] ∷ []))) (open_prompt true []) in
    IsActiveIn p.active_suggestion_idx p.current_suggestions × IsOver p
prompt_acts_lem_example =
    prompt_acts_lem true [] (typed (codes "v") ∷ (debounced ∷ (responded 0 [] ∷ [])))

prompt_acts-loading_example :
    (prompt_acts (typed [] ∷ (debounced ∷ (key_pressed true (on_button enter) ∷ []))) asking).result
    ≡ some (some (codes "Loading..."))
unfolding prompt_acts open_prompt trim
prompt_acts-loading_example =
    prompt_acts-loading asking (on_button enter) [] refl refl refl refl refl refl

abbrev for_v : List Suggestion
for_v = record { text = codes "vim"; can_delete = true; loading = false } ∷ []
