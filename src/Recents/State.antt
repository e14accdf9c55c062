-- ===== src/Recents/State.antt =====
-- The recent lists of `public/js/shell/recents.js`: what the page keeps, what it stores in the
-- browser and what it posts to the server.
use shells.Prelude.{
  ℕ, Bool, true, false, ◌&&◌, not, Option, none, some, List, [], ◌∷◌, ◌++◌, if◌then◌else◌, map,
  filter, take, Str, codes, ◌==◌, nat_eq, str_eq,
}
use shells.JsMap
use shells.JsMap.{JsMap}
use shells.Recents.Paths.{root, pop, ends_with_slash, normalize_path}

-- A request to the server's API: the whole list is sent.
pub data Post : Type 0 where
  post_paths : List Str → Post
  post_commands : List Str → Post

-- `stored` is the browser's storage of lists; `last_backend` is the one string of an old release.
pub record Recents : Type 0 where
  pub paths : List Str
  pub commands : List Str
  pub backends : List Str
  pub ssh_paths : JsMap Str (List Str)
  pub ssh_commands : JsMap Str (List Str)
  pub stored : JsMap Str (List Str)
  pub last_backend : Option Str
  pub posts : List Post

-- `x || []`
abbrev pub or_empty : Option (List Str) → List Str
or_empty none = []
or_empty (some list) = list

-- `list.unshift(x)` and `list.slice(0, cap)`, after the entries that fail the test are dropped.
unfoldable pub to_front : (Str → Bool) → ℕ → Str → List Str → List Str
to_front keep cap x list = take cap (x ∷ filter keep list)

abbrev pub max_paths : ℕ
max_paths = 10

abbrev pub max_commands : ℕ
max_commands = 20

-- The answer of the server is none where it is an error or not an array.
unfoldable pub fetch_recent_paths : Recents → Option (List Str) → Recents
unfolding normalize_path
fetch_recent_paths r none = r
fetch_recent_paths r (some list) = record r { paths = map (λ p. normalize_path p true) list }

-- The path as it is saved: with a slash at the end.
unfoldable pub saved_path : Str → Str
unfolding normalize_path ends_with_slash
saved_path p =
    let normalized = normalize_path p true in
    if ends_with_slash normalized then normalized else normalized ++ root

-- The test of the filter.
unfoldable pub is_other : Str → Str → Bool
unfolding normalize_path pop
is_other normalized rp =
    not (normalize_path rp false == normalized) && not (normalize_path rp false == pop normalized)

unfoldable pub save_recent_path : Recents → Str → Recents
unfolding saved_path is_other to_front
save_recent_path r p =
    if p == []
    then r
    else let list = to_front (is_other (saved_path p)) max_paths (saved_path p) r.paths in
      record r { paths = list; posts = r.posts ++ post_paths list ∷ [] }

-- The test of the filters that compare normal forms.
unfoldable pub is_elsewhere : Str → Str → Bool
unfolding normalize_path
is_elsewhere path p = not (normalize_path p false == normalize_path path false)

unfoldable pub remove_recent_path : Recents → Str → Recents
unfolding is_elsewhere
remove_recent_path r path =
    if path == []
    then r
    else let list = filter (is_elsewhere path) r.paths in
      record r { paths = list; posts = r.posts ++ post_paths list ∷ [] }

abbrev pub paths_key : Str → Str
paths_key key = codes "shells-ssh-paths-" ++ key

abbrev pub commands_key : Str → Str
commands_key key = codes "shells-ssh-cmds-" ++ key

-- `key` is the `_backendKey` of the backend.
unfoldable pub fetch_ssh_recent_paths : Recents → Str → Recents
unfolding JsMap.get JsMap.set
fetch_ssh_recent_paths r key = record r {
  ssh_paths = JsMap.set r.ssh_paths key (or_empty (JsMap.get r.stored (paths_key key)));
}

unfoldable pub put_ssh_paths : Recents → Str → List Str → Recents
unfolding JsMap.set
put_ssh_paths r key list = record r {
  ssh_paths = JsMap.set r.ssh_paths key list;
  stored = JsMap.set r.stored (paths_key key) list;
}

unfoldable pub save_ssh_recent_path : Recents → Str → Str → Recents
unfolding put_ssh_paths to_front is_elsewhere JsMap.get normalize_path
save_ssh_recent_path r key p =
    if p == []
    then r
    else let norm = normalize_path p true in
      let list = or_empty (JsMap.get r.ssh_paths key) in
      put_ssh_paths r key (to_front (is_elsewhere norm) max_paths norm list)

unfoldable pub remove_ssh_recent_path : Recents → Str → Str → Recents
unfolding put_ssh_paths is_elsewhere JsMap.get
remove_ssh_recent_path r key p =
    if p == []
    then r
    else put_ssh_paths r key (filter (is_elsewhere p) (or_empty (JsMap.get r.ssh_paths key)))

abbrev pub backends_key : Str
backends_key = codes "shells-recent-backends"

abbrev pub migrated_label : Str → Str
migrated_label old = if old == codes "Local" then codes "localhost" else old

-- With no list stored, the label of the old release becomes the list.
unfoldable pub migrate_backend : Recents → Option Str → Recents
unfolding JsMap.set
migrate_backend r none = r
migrate_backend r (some old) = if old == [] then r else record r {
  backends = migrated_label old ∷ [];
  last_backend = none;
  stored = JsMap.set r.stored backends_key (migrated_label old ∷ []);
}

unfoldable pub fetch_recent_backends : Recents → Recents
unfolding migrate_backend JsMap.get
fetch_recent_backends r = elim (JsMap.get r.stored backends_key) [
  | some list ↦ record r { backends = list }
  | none ↦ migrate_backend r r.last_backend
]

-- `x => x !== label`
unfoldable pub differs : Str → Str → Bool
differs label b = not (b == label)

unfoldable pub put_backends : Recents → List Str → Recents
unfolding JsMap.set
put_backends r list = record r { backends = list; stored = JsMap.set r.stored backends_key list }

unfoldable pub save_recent_backend : Recents → Str → Recents
unfolding put_backends to_front differs
save_recent_backend r label = put_backends r (to_front (differs label) max_paths label r.backends)

unfoldable pub remove_recent_backend : Recents → Str → Recents
unfolding put_backends differs
remove_recent_backend r label = put_backends r (filter (differs label) r.backends)
