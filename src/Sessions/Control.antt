-- ===== src/Sessions/Control.antt =====
-- The control messages of the server after the login: the end of `onMessage` in `getWs` of
-- public/js/shell-sessions.js.
use shells.Prelude.{
  ℕ, Bool, true, Option, none, some, List, [], ◌∷◌, ◌++◌, Str, nat_eq, if◌then◌else◌, ltb,
}
use shells.JsMap
use shells.JsMap.{JsMap}
use shells.Sessions.State.{Sid, Session, Size, App}
use shells.Sessions.Roles.{handle_pty_size}
use shells.Sessions.Lifecycle.{mount}

-- A message, by its type; any other type is ignored where its session is there.
pub data Control : Type 0 where
  created : Sid → Option Str → Control
  lock_all : Control
  pty_size : Sid → Size → Bool → Control
  reset : Sid → Control
  activity : Sid → ℕ → Control
  exit : Sid → ℕ → Control
  gone : Sid → Control
  error : Sid → Str → Control

-- What is done to the terminal of a session, or to the page.
pub data Effect : Type 0 where
  term_reset : Sid → Effect
  noted_output : Sid → Effect
  show_exit : Sid → ℕ → Effect
  show_gone : Sid → Effect
  write_error : Sid → Str → Effect
  lock_page : Effect

-- The client, and the effects in their order.
pub record View : Type 0 where
  pub app : App
  pub effects : List Effect

unfoldable pub put : View → Effect → View
put v e = record v { effects = v.effects ++ e ∷ [] }

abbrev pub close_remotely : Session → Session
close_remotely s = record s { remotely_closed = true }

unfoldable pub mark_gone : View → Sid → View
unfolding put JsMap.modify
mark_gone v sid =
    put
      (record v {
        app = record v.app { sessions = JsMap.modify v.app.sessions sid close_remotely };
      })
      (show_gone sid)

-- The branches on a session that is there.
unfoldable pub on_session : View → Session → Control → ℕ → Size → View
unfolding put mark_gone handle_pty_size
on_session v s (pty_size sid size active) now dims = record v {
  app = handle_pty_size v.app sid size active now dims;
}
on_session v s (reset sid) now dims = put v (term_reset sid)
on_session v s (activity sid bytes) now dims = if ltb 0 bytes then put v (noted_output sid) else v
on_session v s (exit sid code) now dims =
    if s.remotely_closed then v else put v (show_exit sid code)
on_session v s (gone sid) now dims = if s.remotely_closed then v else mark_gone v sid
on_session v s (error sid text) now dims = put v (write_error sid text)
on_session v s (created sid title) now dims = v
on_session v s lock_all now dims = v

unfoldable pub if_there : View → Option Session → Control → ℕ → Size → View
unfolding on_session
if_there v none m now dims = v
if_there v (some s) m now dims = on_session v s m now dims

-- The session that a message is about, for those that need it.
abbrev pub sid_of : Control → Option Sid
sid_of (created sid title) = none
sid_of lock_all = none
sid_of (pty_size sid size active) = some sid
sid_of (reset sid) = some sid
sid_of (activity sid bytes) = some sid
sid_of (exit sid code) = some sid
sid_of (gone sid) = some sid
sid_of (error sid text) = some sid

unfoldable pub on_sid : View → Option Sid → Control → ℕ → Size → View
unfolding if_there JsMap.get
on_sid v none m now dims = v
on_sid v (some sid) m now dims = if_there v (JsMap.get v.app.sessions sid) m now dims

unfoldable pub on_control : View → Control → ℕ → Size → View
unfolding on_sid mount put
on_control v (created sid title) now dims = record v { app = mount v.app sid title now dims }
on_control v lock_all now dims = put v lock_page
on_control v m now dims = on_sid v (sid_of m) m now dims
