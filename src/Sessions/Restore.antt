-- ===== src/Sessions/Restore.antt =====
-- `restore` of public/js/shell-sessions.js: what a page does when it is loaded.
use shells.Prelude.{
  ℕ, Bool, true, false, Option, none, some, List, [], ◌∷◌, Str, nat_eq, str_eq, if◌then◌else◌, leb,
  get_last?, zero, suc,
}
use shells.JsMap
use shells.JsMap.{JsMap}
use shells.Sessions.State.{Sid, Size, App}
use shells.Sessions.Active.{index_of, set_active}
use shells.Sessions.Lifecycle.{Listed, mount_all, ids, sync, prompt_if_empty}

-- What the local storage holds when the page is loaded.
pub record Disk : Type 0 where
  pub layout : Option Str
  pub master : Option Sid
  pub active : Option Sid
  pub order : Option (List Sid)

-- The comparison of the sort, `compare(a, b) <= 0`: ids that the order names come first, in its order.
unfoldable pub before : Option ℕ → Option ℕ → Bool
before none none = true
before none (some j) = false
before (some i) none = true
before (some i) (some j) = leb i j

-- A stable sort: an entry goes before the first that it is not behind.
unfoldable pub insert_by : List Sid → Listed → List Listed → List Listed
unfolding before index_of
insert_by order l [] = l ∷ []
insert_by order l (k ∷ ks) =
    if before (index_of order l.id) (index_of order k.id)
    then l ∷ (k ∷ ks)
    else k ∷ insert_by order l ks

unfoldable pub sort_by : List Sid → List Listed → List Listed
unfolding insert_by
sort_by order [] = []
sort_by order (l ∷ ls) = insert_by order l (sort_by order ls)

abbrev pub sorted : Option (List Sid) → List Listed → List Listed
sorted none list = list
sorted (some order) list = sort_by order list

-- A saved id that is in the list, else the last id of the list.
unfoldable pub choose : Option Sid → List Listed → Option Sid
unfolding JsMap.includes
choose none list = get_last? (ids list)
choose (some id) list = if JsMap.includes (ids list) id then some id else get_last? (ids list)

-- From the sorting on, for a list that is not empty.
unfoldable pub restore_list : App → Disk → List Listed → ℕ → Size → App
unfolding sort_by choose mount_all set_active
restore_list a disk list now dims =
    let all = sorted disk.order list in
    let b = mount_all (record a { pending_claim_sids = ids all }) all now dims in
    set_active (record b { master_id = choose disk.master all }) (choose disk.active all)

-- `this.sessions.clear()` and the saved layout.
unfoldable pub begin : App → Disk → App
begin a disk = record a {
  sessions = [];
  layout_mode = elim disk.layout [ none ↦ a.layout_mode | some layout ↦ layout ];
}

-- Whether one of the first three attempts to connect succeeds.
unfoldable pub connects : ℕ → List Bool → Bool
connects zero tries = false
connects (suc n) [] = false
connects (suc n) (true ∷ tries) = true
connects (suc n) (false ∷ tries) = connects n tries

-- The answer to the request for the list: none where it fails.
unfoldable pub with_list : App → Disk → Option (List Listed) → ℕ → Size → App
unfolding restore_list prompt_if_empty
with_list a disk none now dims = prompt_if_empty a
with_list a disk (some []) now dims = record a { prompts = suc a.prompts }
with_list a disk (some (l ∷ ls)) now dims = restore_list a disk (l ∷ ls) now dims

-- `restore`. The login of `getWs` has run `sync` with the list that came with it before it is over.
unfoldable pub restore :
    App → Disk → List Bool → List Listed → Option (List Listed) → ℕ → Size → App
unfolding begin connects with_list sync prompt_if_empty
restore a disk tries logged answer now dims =
    if connects 3 tries
    then with_list (sync (begin a disk) logged now dims) disk answer now dims
    else prompt_if_empty (begin a disk)
