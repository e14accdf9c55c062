-- ===== src/Backends/Launch.antt =====
-- What the dialogs for the folder and the command lead to.
use shells.Prelude.{
  suc, zero, ℕ, ◌≡◌, ◌≢◌, refl, ap, ◌∙◌, ◌⊎◌, inl, inr, Option, none, some, List, [], ◌∷◌, ◌++◌,
  Str, codes, str_eq, nat_eq, In, subst, filter, take, arith,
}
use shells.JsMap
use shells.Sessions.State.{Sid, Size}
use shells.Sessions.Frame.{set_active-same}
use shells.Sessions.Lifecycle.{mount}
use shells.Sessions.Restored.{keys-mount_new}
use shells.Recents.State.{
  Recents, save_recent_path, remove_recent_path, to_front, saved_path, is_other,
}
use shells.Recents.Commands.{save_recent_command, put_commands, fetch_recent_commands}
use shells.Recents.Normal.{folder}
use shells.Recents.Saved.{folder-saved_path}
use shells.Recents.Unique.{In-filter}
use shells.Recents.Keeping.{In-remove_recent_path, save_recent_path_paths}
use shells.Backends.Choose.{Backend}
use shells.Backends.Create.{
  final_path, final_command, session_title, Answer, created, refused, or_first, create, save_path,
  remove_path, save_command, fetch_commands, folder_not_accessible, on_error, Shelf, settle,
  with_command, Answers, with_folder,
}

-- The user answers both dialogs.
abbrev pub answers : Str → Option (List Str) → Str → Answer → Answers
answers cwd commands cmd answer = record {
  cwd = some cwd;
  commands = commands;
  cmd = some cmd;
  answer = answer;
}

-- A session that the server creates under a new id stands last among the sessions and is active, on
-- every backend: the path from the dialogs returns its id, and tells the user nothing.
pub with_folder-created :
    (s : Shelf) (backend : Option Backend) (recent : List Str) (home cwd cmd : Str)
    (commands : Option (List Str)) (id : Sid) (at : Option Str) (now : ℕ) (dims : Size)
    → (In id (JsMap.keys s.app.sessions) → ⊥)
    → let r =
        with_folder s backend recent home (answers cwd commands cmd (created id at)) now dims in
      (JsMap.keys r.0.app.sessions ≡ JsMap.keys s.app.sessions ++ id ∷ [])
      × (r.0.app.active_id ≡ some id)
      × (r.0.alerts ≡ s.alerts)
      × (r.1 ≡ some id)
unfolding with_folder with_command settle create
with_folder-created s backend recent home cwd cmd commands id at now dims new =
    let title = session_title backend (final_command cmd) at in
    let b = record s.app { master_id = or_first s.app.master_id id } in
    let same = set_active-same (mount b id title now dims) (some id) in
    (same.0.keys ∙ keys-mount_new b id title now dims new, same.1, refl, refl)

-- Neither the commands that are fetched nor one that is saved change the paths.
save_command-paths :
    (r : Recents) (command : Option Str) → (save_command r none command).paths ≡ r.paths
unfolding save_command save_recent_command put_commands
save_command-paths r none = refl
save_command-paths r (some c) = ground arith

fetch_commands-paths :
    (r : Recents) (list : Option (List Str)) → (fetch_commands r none list).paths ≡ r.paths
unfolding fetch_commands fetch_recent_commands
fetch_commands-paths r none = refl
fetch_commands-paths r (some list) = refl

In-take : (n : ℕ) (xs : List Str) (q : Str) → In q (take n xs) → In q xs
In-take zero xs q h = absurd h
In-take (suc n) [] q h = absurd h
In-take (suc n) (x ∷ xs) q (inl e) = inl e
In-take (suc n) (x ∷ xs) q (inr h) = inr (In-take n xs q h)

-- A saved path adds paths of its own folder only.
In-save_recent_path :
    (r : Recents) (p q : Str)
    → p ≢ []
    → In q (save_recent_path r p).paths
    → (folder q ≡ folder p) ⊎ In q r.paths
unfolding to_front
In-save_recent_path r p q ne h =
    let shown = subst (In q) (save_recent_path_paths r p ne) h in
    let keep = is_other (saved_path p) in
    elim (In-take 10 (saved_path p ∷ filter keep r.paths) q shown) [
      | inl e ↦ inl (ap folder e ∙ folder-saved_path p)
      | inr i ↦ inr (In-filter keep r.paths q i).0
    ]

-- Where the server says that the folder of a local session is not usable, the path from the dialogs
-- opens no session and leaves the client as it is, tells the user so, and keeps no recent path of that
-- folder: those left were there before and are of other folders.
pub with_folder-unusable :
    (s : Shelf) (recent : List Str) (home cwd cmd : Str) (commands : Option (List Str)) (now : ℕ)
    (dims : Size)
    → final_path recent home cwd ≢ []
    → let r =
        with_folder s none recent home
          (answers cwd commands cmd (refused (some (codes "cwd_unusable"))))
          now
          dims in
      (r.1 ≡ none)
      × (r.0.app ≡ s.app)
      × (r.0.alerts ≡ s.alerts ++ folder_not_accessible (final_path recent home cwd) ∷ [])
      × ((q : Str)
          → In q r.0.recents.paths
          → In q s.recents.paths × (folder q ≢ folder (final_path recent home cwd)))
unfolding with_folder with_command settle create on_error remove_path save_path
with_folder-unusable s recent home cwd cmd commands now dims ne =
    let final = final_path recent home cwd in
    let saved = save_recent_path s.recents final in
    let fetched = fetch_commands saved none commands in
    let kept = save_command fetched none (final_command cmd) in
    (
      refl,
      refl,
      refl,
      λ q h.
          others q final saved kept ne
            (save_command-paths fetched (final_command cmd) ∙ fetch_commands-paths saved commands)
            (λ i. In-save_recent_path s.recents final q ne i) h,
    )
  where
    others :
        (q final : Str) (saved kept : Recents)
        → final ≢ []
        → kept.paths ≡ saved.paths
        → (In q saved.paths → (folder q ≡ folder final) ⊎ In q s.recents.paths)
        → In q (remove_recent_path kept final).paths
        → In q s.recents.paths × (folder q ≢ folder final)
    others q final saved kept ne same back h =
        let (i, other) = (In-remove_recent_path kept final q ne).0 h in
        elim (back (subst (In q) same i)) [ inl e ↦ absurd (other e) | inr j ↦ (j, other) ]
