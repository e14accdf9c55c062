-- ===== src/Recents/Keeping.antt =====
-- What the recent lists hold after an entry is saved or removed.
use shells.Prelude.{
  ◌≤◌, ◌≡◌, ◌≢◌, ◌↔◌, refl, sym, ap, ◌∙◌, ℕ, not, some, List, [], map, filter, subst, suc, Bool,
  length, get_elem?, Str, ◌==◌, false, true, nat_eq, str_eq, In, AllDistinct,
}
use shells.JsMap
use shells.JsMap.{JsMap}
use shells.JsMap.Laws.{beq_ne, beq_refl, get-set_self}
use shells.Recents.Paths.{ends_with_slash, normalize_path}
use shells.Recents.Normal.{folder}
use shells.Recents.Saved.{ends-saved_path, folder-saved_path, is_other_ne}
use shells.Recents.Unique.{In-filter, filter-In, to_front-AllDistinct, length-to_front}
use shells.Recents.State.{
  Recents, to_front, saved_path, is_other, save_recent_path, is_elsewhere, remove_recent_path,
  differs, save_ssh_recent_path, fetch_ssh_recent_paths, put_ssh_paths, or_empty, paths_key,
}
use shells.Recents.Commands.{save_recent_command, put_commands, has_space}

-- Every name, as the code compares them, stands once, and the list is within its bound.
abbrev pub IsRecent : (Str → Str) → ℕ → List Str → Type 0
IsRecent name cap list = (length list ≤ cap) × AllDistinct (map name list)

pub save_recent_path_paths :
    (r : Recents) (p : Str)
    → p ≢ []
    → (save_recent_path r p).paths ≡ to_front (is_other (saved_path p)) 10 (saved_path p) r.paths
unfolding save_recent_path
save_recent_path_paths r p ne = rw (beq_ne p [] ne)

first-to_front :
    (keep : Str → Bool) (n : ℕ) (x : Str) (xs : List Str)
    → get_elem? (to_front keep (suc n) x xs) 0 ≡ some x
unfolding to_front
first-to_front keep n x xs = refl

-- Where no two recent folders are the same one, `_saveRecentPath` of a path that is not empty puts
-- it in front, with a slash at its end and as a name of the same folder, no two are the same
-- afterwards, and at most ten are left.
pub save_recent_path_lem :
    (r : Recents) (p : Str)
    → p ≢ []
    → AllDistinct (map folder r.paths)
    → (s : Str) × (get_elem? (save_recent_path r p).paths 0 ≡ some s)
      × (folder s ≡ folder p)
      × (ends_with_slash s ≡ true)
      × IsRecent folder 10 (save_recent_path r p).paths
save_recent_path_lem r p ne d =
    let s = saved_path p in
    let keep = is_other s in
    subst
      (λ list.
        (t : Str) × (get_elem? list 0 ≡ some t)
        × (folder t ≡ folder p)
        × (ends_with_slash t ≡ true)
        × IsRecent folder 10 list)
      (sym (save_recent_path_paths r p ne))
      (
        s,
        first-to_front keep 9 s r.paths,
        folder-saved_path p,
        ends-saved_path p,
        (
          length-to_front keep 10 s r.paths,
          to_front-AllDistinct folder keep 10 s r.paths (is_other_ne p) d,
        ),
      )

elsewhere_ne : (path p : Str) → is_elsewhere path p ≡ true → folder p ≢ folder path
unfolding is_elsewhere
elsewhere_ne path p h e = cc (h, ap (λ t. t == folder path) e, beq_refl (folder path))

ne_elsewhere : (path p : Str) → folder p ≢ folder path → is_elsewhere path p ≡ true
unfolding is_elsewhere
ne_elsewhere path p ne = ap not (beq_ne (folder p) (folder path) ne)

remove_recent_path_paths :
    (r : Recents) (path : Str)
    → path ≢ []
    → (remove_recent_path r path).paths ≡ filter (is_elsewhere path) r.paths
unfolding remove_recent_path
remove_recent_path_paths r path ne = rw (beq_ne path [] ne)

-- `_removeRecentPath` of a path that is not empty leaves exactly the recent paths of other folders.
pub In-remove_recent_path :
    (r : Recents) (path q : Str)
    → path ≢ []
    → In q (remove_recent_path r path).paths ↔ (In q r.paths × (folder q ≢ folder path))
In-remove_recent_path r path q ne =
    let keep = is_elsewhere path in
    subst (λ list. In q list ↔ (In q r.paths × (folder q ≢ folder path)))
      (sym (remove_recent_path_paths r path ne))
      (
        (λ h. let (i, e) = In-filter keep r.paths q h in (i, elsewhere_ne path q e)),
        (λ h. filter-In keep r.paths q h.0 (ne_elsewhere path q h.1)),
      )

differs_ne : (cmd c : Str) → differs cmd c ≡ true → c ≢ cmd
unfolding differs
differs_ne cmd c h e = cc (h, ap (λ t. t == cmd) e, beq_refl cmd)

-- The command itself is what `_saveRecentCommand` compares.
abbrev pub itself : Str → Str
itself c = c

-- Where no recent command stands twice, `_saveRecentCommand` of one that is not empty and holds no
-- white space puts it in front, none stands twice afterwards, and at most twenty are left.
pub save_recent_command_lem :
    (r : Recents) (cmd : Str)
    → cmd ≢ []
    → has_space cmd ≡ false
    → AllDistinct (map itself r.commands)
    → (get_elem? (save_recent_command r cmd).commands 0 ≡ some cmd)
      × IsRecent itself 20 (save_recent_command r cmd).commands
unfolding save_recent_command put_commands to_front
save_recent_command_lem r cmd ne word d =
    rw (beq_ne cmd [] ne, word)
      (
        refl,
        (
          length-to_front (differs cmd) 20 cmd r.commands,
          to_front-AllDistinct itself (differs cmd) 20 cmd r.commands (differs_ne cmd) d,
        ),
      )

-- The page after a reload: what it kept is gone, and what it stored stays.
abbrev pub reload : Recents → Recents
reload r = record r { paths = []; commands = []; backends = []; ssh_paths = []; ssh_commands = [] }

fetch_put :
    (r : Recents) (key : Str) (list : List Str)
    → JsMap.get (fetch_ssh_recent_paths (reload (put_ssh_paths r key list)) key).ssh_paths key
      ≡ JsMap.get (put_ssh_paths r key list).ssh_paths key
unfolding fetch_ssh_recent_paths put_ssh_paths
fetch_put r key list =
    get-set_self [] key _
    ∙ ap (λ o. some (or_empty o)) (get-set_self r.stored (paths_key key) list)
    ∙ sym (get-set_self r.ssh_paths key list)

save_ssh_recent_path_put :
    (r : Recents) (key p : Str)
    → p ≢ []
    → (list : List Str) × (save_ssh_recent_path r key p ≡ put_ssh_paths r key list)
unfolding save_ssh_recent_path
save_ssh_recent_path_put r key p ne =
    let norm = normalize_path p true in
    let list = or_empty (JsMap.get r.ssh_paths key) in
    (to_front (is_elsewhere norm) 10 norm list, rw (beq_ne p [] ne))

-- After a path that is not empty is saved for an SSH backend and the page is loaded again,
-- `_fetchSshRecentPaths` gives the list that was saved.
pub fetch-save_ssh_recent_path :
    (r : Recents) (key p : Str)
    → p ≢ []
    → JsMap.get (fetch_ssh_recent_paths (reload (save_ssh_recent_path r key p)) key).ssh_paths key
      ≡ JsMap.get (save_ssh_recent_path r key p).ssh_paths key
fetch-save_ssh_recent_path r key p ne =
    let (list, e) = save_ssh_recent_path_put r key p ne in rw e (fetch_put r key list)
