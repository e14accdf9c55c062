-- ===== src/Backends/Complete.antt =====
-- The suggestions for folders and commands in `public/js/shell/backends.js`. `toLowerCase` is a parameter; the
-- badges of the suggestions are left out.
use shells.Prelude.{
  Bool, true, false, not, ◌&&◌, ◌||◌, Option, none, some, List, [], ◌∷◌, ◌++◌, Str, ◌==◌, str_eq,
  map, filter, if◌then◌else◌,
}
use shells.JsMap.{JsMap}
use shells.JsMap
use shells.Recents.Paths.{root, split, join, starts_with_slash}
use shells.Backends.Text.{starts_with, contains}
use shells.Dialogs.Prompt.{Suggestion}

-- What `_splitPath` returns.
pub record SplitPath : Type 0 where
  pub base : Str
  pub filter_text : Str
  pub prefix : Str

-- `parts.pop()` and the parts that are left.
unfoldable pub pop_part : List Str → Str × List Str
pop_part [] = ([], [])
pop_part (p ∷ []) = (p, [])
pop_part (p ∷ (q ∷ ps)) = let (last, rest) = pop_part (q ∷ ps) in (last, p ∷ rest)

unfoldable pub split_path : (Str → Str) → Str → Str → SplitPath
unfolding pop_part split join starts_with_slash
split_path lower val home =
    let (last, parts) = pop_part (split val) in
    let sub = join parts in
    if starts_with_slash val
    then record {
      base = if sub == [] then root else sub;
      filter_text = lower last;
      prefix = if sub == [] || sub == root then root else sub ++ root;
    }
    else record {
      base = if sub == [] then home else home ++ (root ++ sub);
      filter_text = lower last;
      prefix = if sub == [] then [] else sub ++ root;
    }

abbrev pub suggest : Bool → Str → Suggestion
suggest can_delete text = record { text = text; can_delete = can_delete; loading = false }

unfoldable pub has_text : Str → List Suggestion → Bool
has_text t [] = false
has_text t (s ∷ ss) = s.text == t || has_text t ss

-- Every text that is not suggested yet, at the end.
unfoldable pub push_new : Bool → List Str → List Suggestion → List Suggestion
unfolding has_text
push_new can_delete [] acc = acc
push_new can_delete (t ∷ ts) acc =
    push_new can_delete ts (if has_text t acc then acc else acc ++ (suggest can_delete t ∷ []))

-- The folders that begin with what is typed.
unfoldable pub folder_suggestions : (Str → Str) → SplitPath → List Str → List Suggestion
folder_suggestions lower p folders =
    map (λ f. suggest false (p.prefix ++ (f ++ root)))
      (filter (λ f. starts_with (lower f) p.filter_text) folders)

-- The recent paths in which the typed text stands, behind the folders.
unfoldable pub with_recent : (Str → Str) → Str → List Str → List Suggestion → List Suggestion
unfolding push_new
with_recent lower val recent acc =
    push_new true (filter (λ r. not (r == val) && contains (lower r) (lower val)) recent) acc

-- The local completion; `ls` are the folders that `loadPath` gives, none where it fails.
unfoldable pub local_autocomplete :
    (Str → Str) → Str → Str → Option (List Str) → List Str → List Suggestion
unfolding with_recent folder_suggestions split_path
local_autocomplete lower home val ls recent =
    if val == []
    then map (suggest true) recent
    else with_recent lower val recent (elim ls [
      | none ↦ []
      | some folders ↦ folder_suggestions lower (split_path lower val home) folders
    ])

-- The request for a folder of a remote host: an error, a refusal, or its folders.
pub data LsAnswer : Type 0 where
  ls_threw : LsAnswer
  ls_refused : LsAnswer
  ls_folders : List Str → LsAnswer

-- The folders of `base`, from the cache or the server; none ends the completion.
unfoldable pub ssh_folders :
    Str
    → Bool
    → LsAnswer
    → Option (List Str)
    → JsMap Str (List Str)
    → Option (List Str) × JsMap Str (List Str)
ssh_folders base logged_in answer (some folders) cache = (some folders, cache)
ssh_folders base false answer none cache = (none, cache)
ssh_folders base true ls_threw none cache = (none, cache)
ssh_folders base true ls_refused none cache = (some [], JsMap.set cache base [])
ssh_folders base true (ls_folders fs) none cache = (some fs, JsMap.set cache base fs)

-- `_sshLsAutocomplete`, for a backend with a connection.
unfoldable pub ssh_ls_autocomplete :
    (Str → Str)
    → Str
    → Bool
    → LsAnswer
    → JsMap Str (List Str)
    → List Str
    → List Suggestion × JsMap Str (List Str)
unfolding ssh_folders with_recent folder_suggestions split_path
ssh_ls_autocomplete lower val logged_in answer cache recent =
    let p = split_path lower val [] in
    let (found, cache') = ssh_folders p.base logged_in answer (JsMap.get cache p.base) cache in
    if starts_with_slash val
    then elim found [
      | none ↦ ([], cache')
      | some folders ↦ (with_recent lower val recent (folder_suggestions lower p folders), cache')
    ]
    else ([], cache)

-- The completion of a folder on a remote host: nothing typed offers the recent paths, or else the home folder.
unfoldable pub ssh_autocomplete :
    (Str → Str)
    → Str
    → Str
    → Bool
    → LsAnswer
    → JsMap Str (List Str)
    → List Str
    → List Suggestion × JsMap Str (List Str)
unfolding ssh_ls_autocomplete
ssh_autocomplete lower home val logged_in answer cache [] =
    ssh_ls_autocomplete lower (if val == [] then home ++ root else val) logged_in answer cache []
ssh_autocomplete lower home val logged_in answer cache (r ∷ recent) =
    if val == []
    then (map (suggest true) (r ∷ recent), cache)
    else ssh_ls_autocomplete lower val logged_in answer cache (r ∷ recent)

-- The matches of the server, none where the request fails or is refused.
abbrev pub push_matches : Option (List Str) → List Suggestion → List Suggestion
push_matches none acc = acc
push_matches (some matches) acc = push_new false matches acc

-- `commandAutocomplete`; the texts that are suggested are the set `seen`.
unfoldable pub command_autocomplete :
    (Str → Str) → List Str → Option (List Str) → Str → List Suggestion
unfolding push_new
command_autocomplete lower recent answer val =
    if val == []
    then push_new true recent []
    else push_matches answer
        (push_new true (filter (λ c. starts_with (lower c) (lower val)) recent) [])
