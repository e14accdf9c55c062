-- ===== src/Recents/Commands.antt =====
-- The recent commands of `public/js/shell/recents.js`, of the server and of each SSH backend.
use shells.Prelude.{
  ℕ, Bool, false, ◌&&◌, ◌||◌, Option, none, some, List, [], ◌∷◌, ◌++◌, leb, eqb, if◌then◌else◌,
  filter, Str, ◌==◌, str_eq,
}
use shells.JsMap
use shells.JsMap.{JsMap}
use shells.Recents.State.{
  Recents, post_commands, or_empty, to_front, differs, max_commands, commands_key,
}

-- The regular expression `\s` on a UTF-16 code unit.
unfoldable pub is_space : ℕ → Bool
is_space c =
    leb 9 c && leb c 13
    || eqb c 32
    || eqb c 160
    || eqb c 5760
    || leb 8192 c && leb c 8202
    || eqb c 8232
    || eqb c 8233
    || eqb c 8239
    || eqb c 8287
    || eqb c 12288
    || eqb c 65279

unfoldable pub has_space : Str → Bool
unfolding is_space
has_space [] = false
has_space (c ∷ s) = is_space c || has_space s

unfoldable pub fetch_recent_commands : Recents → Option (List Str) → Recents
fetch_recent_commands r none = r
fetch_recent_commands r (some list) = record r { commands = list }

unfoldable pub put_commands : Recents → List Str → Recents
put_commands r list = record r { commands = list; posts = r.posts ++ post_commands list ∷ [] }

unfoldable pub save_recent_command : Recents → Str → Recents
unfolding has_space put_commands to_front differs
save_recent_command r cmd =
    if cmd == [] || has_space cmd
    then r
    else put_commands r (to_front (differs cmd) max_commands cmd r.commands)

unfoldable pub remove_recent_command : Recents → Str → Recents
unfolding put_commands differs
remove_recent_command r cmd =
    if cmd == [] then r else put_commands r (filter (differs cmd) r.commands)

unfoldable pub fetch_ssh_recent_commands : Recents → Str → Recents
unfolding JsMap.get JsMap.set
fetch_ssh_recent_commands r key = record r {
  ssh_commands = JsMap.set r.ssh_commands key (or_empty (JsMap.get r.stored (commands_key key)));
}

unfoldable pub put_ssh_commands : Recents → Str → List Str → Recents
unfolding JsMap.set
put_ssh_commands r key list = record r {
  ssh_commands = JsMap.set r.ssh_commands key list;
  stored = JsMap.set r.stored (commands_key key) list;
}

unfoldable pub save_ssh_recent_command : Recents → Str → Str → Recents
unfolding put_ssh_commands to_front differs JsMap.get
save_ssh_recent_command r key cmd =
    if cmd == []
    then r
    else let list = or_empty (JsMap.get r.ssh_commands key) in
      put_ssh_commands r key (to_front (differs cmd) max_commands cmd list)

unfoldable pub remove_ssh_recent_command : Recents → Str → Str → Recents
unfolding put_ssh_commands differs JsMap.get
remove_ssh_recent_command r key cmd =
    if cmd == []
    then r
    else put_ssh_commands r key (filter (differs cmd) (or_empty (JsMap.get r.ssh_commands key)))
