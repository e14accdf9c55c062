-- ===== src/Backends/Create.antt =====
-- The end of `promptCreate` and `create` of `public/js/shell/backends.js`: from the answers of the last
-- two dialogs to a session, or to an error that takes the folder or the command off its recent list.
use shells.Prelude.{
  ℕ, not, Option, none, some, List, [], ◌∷◌, ◌++◌, Str, codes, ◌==◌, str_eq, nat_eq, if◌then◌else◌,
  filter, get_last?,
}
use shells.Sessions.State.{Sid, Size, App}
use shells.Sessions.Active.{set_active}
use shells.Sessions.Lifecycle.{mount}
use shells.Recents.Paths.{split, root, starts_with_slash}
use shells.Recents.State.{
  Recents, save_recent_path, remove_recent_path, save_ssh_recent_path, remove_ssh_recent_path,
}
use shells.Recents.Commands.{
  fetch_recent_commands, fetch_ssh_recent_commands, save_recent_command, remove_recent_command,
  save_ssh_recent_command, remove_ssh_recent_command,
}
use shells.Backends.Text.{trim, starts_with}
use shells.Backends.Address.{at_sign}
use shells.Backends.Choose.{Backend}

abbrev pub default_path : List Str → Str → Str
default_path [] home = home
default_path (p ∷ ps) home = p

-- The text of the dialog without its first character.
abbrev pub tail : Str → Str
tail [] = []
tail (c ∷ s) = s

-- `final`, from the answer of the dialog.
unfoldable pub final_path : List Str → Str → Str → Str
unfolding trim starts_with starts_with_slash
final_path recent home cwd =
    let t = trim cwd in
    if t == []
    then default_path recent home
    else if starts_with_slash t
    then t
    else if starts_with t (codes "~/")
    then home ++ tail t
    else home ++ root ++ t

-- `cmd.trim() || null`
unfoldable pub final_command : Str → Option Str
unfolding trim
final_command cmd = if trim cmd == [] then none else some (trim cmd)

-- `cwd.split('/').filter(Boolean).pop() || '/'`
unfoldable pub folder_name : Option Str → Str
unfolding split
folder_name none = root
folder_name (some cwd) = elim (get_last? (filter (λ part. not (part == [])) (split cwd))) [
  | none ↦ root
  | some part ↦ part
]

abbrev pub arrow : Str
arrow = codes " > "

-- `backend.hostname || backend.host`
unfoldable pub host_name : Backend → Str
host_name b = elim b.hostname [
  | none ↦ b.address.host
  | some h ↦ if h == [] then b.address.host else h
]

unfoldable pub session_title : Option Backend → Option Str → Option Str → Option Str
unfolding folder_name host_name
session_title none none cwd = none
session_title none (some command) cwd = some (folder_name cwd ++ arrow ++ command)
session_title (some b) none cwd =
    some (b.address.user ++ at_sign ∷ (host_name b ++ arrow ++ folder_name cwd))
session_title (some b) (some command) cwd =
    some (b.address.user ++ at_sign ∷ (host_name b ++ arrow ++ folder_name cwd ++ arrow ++ command))

-- The answer to the request for a session; its error has a code or none.
pub data Answer : Type 0 where
  created : Sid → Option Str → Answer
  refused : Option Str → Answer

-- What `create` returns, or the code of the error that it throws.
pub data Launched : Type 0 where
  opened : Sid → Launched
  failed : Str → Launched

abbrev pub error_code : Option Str → Str
error_code none = codes "create_failed"
error_code (some code) = code

abbrev pub or_first : Option Sid → Sid → Option Sid
or_first none id = some id
or_first (some master) id = some master

unfoldable pub create : App → Option Str → Option Backend → Answer → ℕ → Size → App × Launched
unfolding session_title mount set_active
create a command backend (refused code) now dims = (a, failed (error_code code))
create a command backend (created id cwd) now dims =
    let b = record a { master_id = or_first a.master_id id } in
    (set_active (mount b id (session_title backend command cwd) now dims) (some id), opened id)

-- The lists of the backend, or those of the server.
unfoldable pub save_path : Recents → Option Backend → Str → Recents
save_path r none p = save_recent_path r p
save_path r (some b) p = save_ssh_recent_path r b.connection_id p

unfoldable pub remove_path : Recents → Option Backend → Str → Recents
remove_path r none p = remove_recent_path r p
remove_path r (some b) p = remove_ssh_recent_path r b.connection_id p

unfoldable pub save_command : Recents → Option Backend → Option Str → Recents
save_command r backend none = r
save_command r none (some c) = save_recent_command r c
save_command r (some b) (some c) = save_ssh_recent_command r b.connection_id c

unfoldable pub remove_command : Recents → Option Backend → Option Str → Recents
remove_command r backend none = r
remove_command r none (some c) = remove_recent_command r c
remove_command r (some b) (some c) = remove_ssh_recent_command r b.connection_id c

-- `list` is the server's answer for its own commands.
unfoldable pub fetch_commands : Recents → Option Backend → Option (List Str) → Recents
fetch_commands r none list = fetch_recent_commands r list
fetch_commands r (some b) list = fetch_ssh_recent_commands r b.connection_id

-- What the user is told.
pub data Alert : Type 0 where
  folder_not_accessible : Str → Alert
  command_not_found : Option Str → Alert
  could_not_start : Alert

-- The `catch` around `create`.
unfoldable pub on_error : Recents → Option Backend → Str → Option Str → Str → Recents × Alert
unfolding remove_path remove_command
on_error r backend final command code =
    if code == codes "cwd_unusable"
    then (remove_path r backend final, folder_not_accessible final)
    else if code == codes "command_not_found"
    then (remove_command r backend command, command_not_found command)
    else (r, could_not_start)

-- The client, its recent lists and the alerts.
pub record Shelf : Type 0 where
  pub app : App
  pub recents : Recents
  pub alerts : List Alert

unfoldable pub settle :
    Shelf → Option Backend → Str → Option Str → App × Launched → Shelf × Option Sid
unfolding on_error
settle s backend final command (a, opened id) = (record s { app = a }, some id)
settle s backend final command (a, failed code) =
    let (r, alert) = on_error s.recents backend final command code in
    (record { app = a; recents = r; alerts = s.alerts ++ alert ∷ [] }, none)

-- After the dialog for the command, which is none where it is closed.
unfoldable pub with_command :
    Shelf → Option Backend → Str → Option Str → Answer → ℕ → Size → Shelf × Option Sid
unfolding settle create save_command final_command
with_command s backend final none answer now dims = (s, none)
with_command s backend final (some cmd) answer now dims =
    let command = final_command cmd in
    settle (record s { recents = save_command s.recents backend command }) backend final command
      (create s.app command backend answer now dims)

-- What the two dialogs answer, none where one is closed, and the server's answers.
pub record Answers : Type 0 where
  pub cwd : Option Str
  pub commands : Option (List Str)
  pub cmd : Option Str
  pub answer : Answer

-- From the dialog for the folder on, with the recent paths and the home folder that it offers.
unfoldable pub with_folder :
    Shelf → Option Backend → List Str → Str → Answers → ℕ → Size → Shelf × Option Sid
unfolding with_command save_path final_path fetch_commands
with_folder s backend recent home ans now dims = elim ans.cwd [
  | none ↦ (s, none)
  | some cwd ↦
      let final = final_path recent home cwd in
      let r = fetch_commands (save_path s.recents backend final) backend ans.commands in
      with_command (record s { recents = r }) backend final ans.cmd ans.answer now dims
]
