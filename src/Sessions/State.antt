-- ===== src/Sessions/State.antt =====
-- The state that the session core of public/js/shell-sessions.js keeps, with the tile classes that it
-- reads back, and the calls that change one field or send one message. Session ids are only compared:
-- a number stands for each.
use shells.Prelude.{
  ℕ, Bool, false, Option, none, some, List, [], ◌∷◌, ◌++◌, nat_eq, Str, if◌then◌else◌, length,
}
use shells.JsMap
use shells.JsMap.{JsMap}

abbrev pub Sid : Type 0
Sid = ℕ

-- A scale factor, which the source keeps as a floating-point number, as an exact quotient.
pub record Ratio : Type 0 where
  pub num : ℕ
  pub den : ℕ

abbrev pub one : Ratio
one = record { num = 1; den = 1 }

-- No title stands for the default one, `shell #id`.
pub record Session : Type 0 where
  pub title : Option Str
  pub scale : Ratio  -- `_scaleFactor`; 1.0 goes with cleared styles
  pub mounting : Bool
  pub is_asleep : Bool
  pub remotely_closed : Bool
  pub bell_latched : Bool
  pub fullscreen : Bool  -- a class of the tile

pub record Size : Type 0 where
  pub cols : ℕ
  pub rows : ℕ

-- What goes to the server through `sendWs`.
pub data Msg : Type 0 where
  pause resume detach : Sid → Msg
  attach : Sid → Bool → Msg  -- the Boolean is `resume`
  input : Sid → Str → Msg  -- type 'data'
  title : Sid → Option Str → Msg
  resize available_size claim_active : Sid → Size → Msg
  lock_all : Msg

-- What `saveState` writes to the local storage.
pub record Saved : Type 0 where
  pub active_id : Option Sid
  pub master_id : Option Sid
  pub layout_mode : Str
  pub session_order : List Sid

pub record PtySize : Type 0 where
  pub size : Size
  pub is_active : Bool

pub record App : Type 0 where
  pub sessions : JsMap Sid Session
  pub active_id : Option Sid
  pub master_id : Option Sid
  pub layout_mode : Str
  pub search_sid : Option Sid  -- the session of `_searchState`, while a search bar is open
  pub pty_sizes : JsMap Sid Size
  pub is_active_client : JsMap Sid Bool
  pub pending_pty_size : JsMap Sid PtySize
  pub pending_claim_sids : List Sid
  pub last_claim_active : JsMap Sid ℕ
  pub saved : Saved
  pub ready : Bool  -- the socket is open and `_wsReady` is set
  pub mobile : Bool  -- `isMobile()`
  pub sent : List Msg  -- in the order of sending
  pub prompts : ℕ  -- how often `promptCreate` was called

-- `sendWs`: the Boolean of the source is `ready`. Nothing is sent unless the client is authenticated.
unfoldable pub send : App → Msg → App
send a m = if a.ready then record a { sent = a.sent ++ m ∷ [] } else a

unfoldable pub save_state : App → App
save_state a = record a {
  saved = record {
    active_id = a.active_id;
    master_id = a.master_id;
    layout_mode = a.layout_mode;
    session_order = JsMap.keys a.sessions;
  };
}

-- `id ? this.sessions.get(id) : null`
unfoldable pub get_opt : JsMap Sid Session → Option Sid → Option Session
get_opt m none = none
get_opt m (some id) = JsMap.get m id

abbrev pub get_session : App → Option Sid → Option Session
get_session a id = get_opt a.sessions id

abbrev pub is_fullscreen : Option Session → Bool
is_fullscreen none = false
is_fullscreen (some s) = s.fullscreen

abbrev pub set_fullscreen : Bool → Session → Session
set_fullscreen b s = record s { fullscreen = b }

abbrev pub size : App → ℕ
size a = length a.sessions
