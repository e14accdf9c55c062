-- ===== src/Backends/Remove.antt =====
-- `onDelete` of the dialog for the backend, in `promptCreate` of `public/js/shell/backends.js`: a
-- connection is removed from the server and then from the page.
use shells.Prelude.{
  ℕ, suc, Bool, false, ◌&&◌, not, Option, none, some, List, [], ◌∷◌, ◌++◌, Str, ◌==◌, str_eq,
  if◌then◌else◌, filter,
}
use shells.JsMap
use shells.JsMap.{JsMap}
use shells.Recents.State.{Recents, remove_recent_backend, paths_key, commands_key}
use shells.Backends.Address.{conn_label}
use shells.Backends.Choose.{Conn, one_less}

-- What the user is told at the end.
pub data Toast : Type 0 where
  network_error : Toast
  key_may_remain : Str → Toast
  connection_removed : Toast
  removal_failed : Toast

-- `deleting` is `_isDeletingConn`.
pub record Bench : Type 0 where
  pub conns : List Conn
  pub recents : Recents
  pub deleting : List Str
  pub open_status : ℕ
  pub toasts : List Toast

-- The answer to the request.
pub record Removal : Type 0 where
  pub ok : Bool
  pub removed : Bool
  pub remote_key_removed : Option Bool

unfoldable pub find_label : List Conn → Str → Option Conn
unfolding conn_label
find_label [] val = none
find_label (c ∷ cs) val = if conn_label c.address == val then some c else find_label cs val

-- What the confirmation lists.
pub data Item : Type 0 where
  remote_public_key : Item
  server_keys : Item
  recent_lists : Item

unfoldable pub items : Conn → List Item
items conn =
    (if conn.has_our_key then remote_public_key ∷ [] else []) ++ server_keys ∷ (recent_lists ∷ [])

unfoldable pub lock_conn : Bench → Option Conn → Option (Bench × Conn)
unfolding JsMap.includes
lock_conn b none = none
lock_conn b (some conn) =
    if JsMap.includes b.deleting conn.id
    then none
    else some (record b { deleting = b.deleting ++ conn.id ∷ [] }, conn)

-- Up to the confirmation: none where nothing is to be done.
unfoldable pub begin_removal : Bench → Str → Option (Bench × Conn)
unfolding lock_conn find_label
begin_removal b val = lock_conn b (find_label b.conns val)

abbrev pub is_not : Str → Conn → Bool
is_not id c = not (c.id == id)

-- The recent lists without those of the connection.
unfoldable pub forget_conn : Recents → Conn → Recents
unfolding remove_recent_backend JsMap.delete
forget_conn r conn =
    let s = remove_recent_backend r (conn_label conn.address) in
    record s {
      stored = JsMap.delete (JsMap.delete s.stored (paths_key conn.id)) (commands_key conn.id);
      ssh_paths = JsMap.delete s.ssh_paths conn.id;
      ssh_commands = JsMap.delete s.ssh_commands conn.id;
    }

unfoldable pub drop_conn : Bench → Conn → Bench
unfolding forget_conn
drop_conn b conn = record b {
  conns = filter (is_not conn.id) b.conns;
  recents = forget_conn b.recents conn;
}

unfoldable pub toast : Bench → Toast → Bench
toast b t = record b { toasts = b.toasts ++ t ∷ [] }

abbrev pub open_status_box : Bench → Bench
open_status_box b = record b { open_status = suc b.open_status }

abbrev pub close_status_box : Bench → Bench
close_status_box b = record b { open_status = one_less b.open_status }

-- `data.remoteKeyRemoved === false`
abbrev pub is_false : Option Bool → Bool
is_false none = false
is_false (some b) = not b

unfoldable pub removed_toast : Conn → Removal → Toast
unfolding conn_label
removed_toast conn r =
    if conn.has_our_key && is_false r.remote_key_removed
    then key_may_remain (conn_label conn.address)
    else connection_removed

-- The answer, none where the request throws.
unfoldable pub on_removal : Bench → Conn → Option Removal → Bench
unfolding drop_conn toast removed_toast
on_removal b conn none = close_status_box (toast b network_error)
on_removal b conn (some r) =
    if r.ok && r.removed
    then toast (close_status_box (drop_conn b conn)) (removed_toast conn r)
    else toast (close_status_box b) removal_failed

-- The `finally` of the whole handler.
unfoldable pub unlock_conn : Bench → Conn → Bench
unlock_conn b conn = record b { deleting = filter (λ id. not (id == conn.id)) b.deleting }

-- From the confirmation on.
unfoldable pub finish_removal : Bench → Conn → Bool → Option Removal → Bench
unfolding on_removal unlock_conn
finish_removal b conn confirmed res =
    unlock_conn (if confirmed then on_removal (open_status_box b) conn res else b) conn

unfoldable pub finish_locked : Bench → Option (Bench × Conn) → Bool → Option Removal → Bench
unfolding finish_removal
finish_locked b none confirmed res = b
finish_locked b (some (locked, conn)) confirmed res = finish_removal locked conn confirmed res

-- `onDelete`, where nothing else happens in between.
unfoldable pub on_delete : Bench → Str → Bool → Option Removal → Bench
unfolding begin_removal finish_locked
on_delete b val confirmed res = finish_locked b (begin_removal b val) confirmed res
