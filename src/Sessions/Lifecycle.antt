-- ===== src/Sessions/Lifecycle.antt =====
-- Sessions come and go: `mount`, `destroy` and `sync` of public/js/shell-sessions.js. The requests to
-- the server are taken to be answered: what runs after the last `await` of each is one step.
use shells.Prelude.{
  ℕ, Bool, false, not, ◌&&◌, Option, none, some, List, [], ◌∷◌, Str, nat_eq, if◌then◌else◌, ◌==◌,
  opt_eqb, filter, get_last?, suc,
}
use shells.JsMap
use shells.JsMap.{JsMap}
use shells.Sessions.State.{Sid, Session, one, Size, attach, detach, App, send, save_state}
use shells.Sessions.Active.{set_active}
use shells.Sessions.Roles.{handle_pty_size}

-- The session object that `mount` stores at its end.
abbrev pub mounted : Option Str → Session
mounted t = record {
  title = t;
  scale = one;
  mounting = false;
  is_asleep = false;
  remotely_closed = false;
  bell_latched = false;
  fullscreen = false;
}

-- `if (this._pendingPtySize?.has(id)) …`
unfoldable pub take_pending : App → Sid → ℕ → Size → App
unfolding handle_pty_size JsMap.get JsMap.delete
take_pending a id now dims = elim (JsMap.get a.pending_pty_size id) [
  | none ↦ a
  | some p ↦
      handle_pty_size (record a { pending_pty_size = JsMap.delete a.pending_pty_size id }) id p.size
        p.is_active now dims
]

unfoldable pub mount : App → Sid → Option Str → ℕ → Size → App
unfolding take_pending send JsMap.has JsMap.set
mount a id t now dims =
    if JsMap.has a.sessions id
    then a
    else send
        (take_pending (record a { sessions = JsMap.set a.sessions id (mounted t) }) id now dims)
        (attach id false)

-- Everything that is kept under the id, after the `detach`.
unfoldable pub forget : App → Sid → App
unfolding JsMap.delete
forget a id = record a {
  sessions = JsMap.delete a.sessions id;
  pty_sizes = JsMap.delete a.pty_sizes id;
  is_active_client = JsMap.delete a.is_active_client id;
  pending_claim_sids = filter (λ j. not (j == id)) a.pending_claim_sids;
  last_claim_active = JsMap.delete a.last_claim_active id;
}

-- The last id of the map, null for the empty one.
abbrev pub last_sid : App → Option Sid
last_sid a = get_last? (JsMap.keys a.sessions)

unfoldable pub reassign_master : App → Sid → App
reassign_master a id =
    if opt_eqb a.master_id (some id) then record a { master_id = last_sid a } else a

unfoldable pub reassign_active : App → Sid → App
unfolding set_active
reassign_active a id = if opt_eqb a.active_id (some id) then set_active a (last_sid a) else a

-- `promptCreate` opens a dialog, whose answer is another step.
unfoldable pub prompt_if_empty : App → App
prompt_if_empty a = elim a.sessions [ [] ↦ record a { prompts = suc a.prompts } | _ ∷ _ ↦ a ]

unfoldable pub destroy : App → Sid → App
unfolding send forget reassign_master reassign_active save_state prompt_if_empty JsMap.has
destroy a id =
    if JsMap.has a.sessions id
    then prompt_if_empty
        (save_state (reassign_active (reassign_master (forget (send a (detach id)) id) id) id))
    else a

-- An entry of the server's list.
pub record Listed : Type 0 where
  pub id : Sid
  pub title : Option Str

unfoldable pub mount_all : App → List Listed → ℕ → Size → App
unfolding mount
mount_all a [] now dims = a
mount_all a (l ∷ ls) now dims = mount_all (mount a l.id l.title now dims) ls now dims

abbrev pub ids : List Listed → List Sid
ids [] = []
ids (l ∷ ls) = l.id ∷ ids ls

-- `s && !s.mounting`
unfoldable pub is_settled : App → Sid → Bool
unfolding JsMap.get
is_settled a id = elim (JsMap.get a.sessions id) [ none ↦ false | some s ↦ not s.mounting ]

-- The loop over the local ids, which are read before it. The code starts every destroy before it waits for
-- one; here each has ended before the next begins.
unfoldable pub drop_missing : App → List Sid → List Sid → App
unfolding destroy is_settled JsMap.includes
drop_missing a server [] = a
drop_missing a server (id ∷ rest) =
    drop_missing (if not (JsMap.includes server id) && is_settled a id then destroy a id else a)
      server rest

unfoldable pub sync : App → List Listed → ℕ → Size → App
unfolding mount_all drop_missing prompt_if_empty
sync a list now dims =
    let b = mount_all a list now dims in
    prompt_if_empty (drop_missing b (ids list) (JsMap.keys b.sessions))
