-- ===== src/Sessions/Controlled.antt =====
-- What the control messages make of the sessions.
use shells.Prelude.{
  ℕ, ◌≡◌, refl, sym, ◌⊎◌, inl, inr, ◌↔◌, Option, none, some, List, [], ◌∷◌, ◌++◌, Str, nat_eq, ltb,
  In, AllDistinct, subst, if-cases,
}
use shells.JsMap
use shells.JsMap.{JsMap}
use shells.JsMap.Laws.{keys-modify}
use shells.Sessions.State.{Sid, Session, Size}
use shells.Sessions.Kept.{handle_pty_size-Kept}
use shells.Sessions.Mounting.{mount-Mounted}
use shells.Sessions.Control.{
  Control, created, lock_all, pty_size, reset, activity, exit, gone, error, View, noted_output,
  show_exit, put, mark_gone, on_session, if_there, on_sid, on_control,
}

-- The messages one after the other, at the times and sizes that they meet.
unfoldable pub on_controls : View → List (Control × (ℕ × Size)) → View
unfolding on_control
on_controls v [] = v
on_controls v ((m, (now, dims)) ∷ ms) = on_controls (on_control v m now dims) ms

-- The ids that the server says it has created.
abbrev pub created_by : Control → List Sid
created_by (created sid title) = sid ∷ []
created_by _ = []

abbrev pub created_ids : List (Control × (ℕ × Size)) → List Sid
created_ids [] = []
created_ids ((m, at) ∷ ms) = created_by m ++ created_ids ms

abbrev keys_of : View → List Sid
keys_of v = JsMap.keys v.app.sessions

keys_of-on_session :
    (v : View) (s : Session) (m : Control) (now : ℕ) (dims : Size)
    → keys_of (on_session v s m now dims) ≡ keys_of v
unfolding on_session put mark_gone
keys_of-on_session v s (pty_size sid size active) now dims =
    (handle_pty_size-Kept v.app sid size active now dims).keys
keys_of-on_session v s (reset sid) now dims = refl
keys_of-on_session v s (activity sid bytes) now dims =
    if-cases (λ w. keys_of w ≡ keys_of v) (ltb 0 bytes) (put v (noted_output sid)) v (λ e. refl)
      (λ e. refl)
keys_of-on_session v s (exit sid code) now dims =
    if-cases (λ w. keys_of w ≡ keys_of v) s.remotely_closed v (put v (show_exit sid code))
      (λ e. refl) (λ e. refl)
keys_of-on_session v s (gone sid) now dims =
    if-cases (λ w. keys_of w ≡ keys_of v) s.remotely_closed v (mark_gone v sid) (λ e. refl)
      (λ e. keys-modify v.app.sessions sid _)
keys_of-on_session v s (error sid text) now dims = refl
keys_of-on_session v s (created sid title) now dims = refl
keys_of-on_session v s lock_all now dims = refl

keys_of-on_sid :
    (v : View) (o : Option Sid) (m : Control) (now : ℕ) (dims : Size)
    → keys_of (on_sid v o m now dims) ≡ keys_of v
unfolding on_sid
keys_of-on_sid v none m now dims = refl
keys_of-on_sid v (some sid) m now dims = there (JsMap.get v.app.sessions sid)
  where
    there : (o : Option Session) → keys_of (if_there v o m now dims) ≡ keys_of v
    there none = refl
    there (some s) = keys_of-on_session v s m now dims

-- What messages make of the keys: exactly the created ids come to them, and none stands twice.
abbrev Grown : View → View → List Sid → Type 0
Grown v w new =
    (AllDistinct (keys_of v) → AllDistinct (keys_of w))
    × ((sid : Sid) → In sid (keys_of w) ↔ (In sid (keys_of v) ⊎ In sid new))

none_new : {A : Type 0} → A ↔ (A ⊎ ⊥)
none_new = (inl, elim [ inl a ↦ a | inr e ↦ absurd e ])

kept-Grown : (v w : View) → keys_of w ≡ keys_of v → Grown v w []
kept-Grown v w e = (
  λ d. subst AllDistinct (sym e) d,
  λ sid. subst (λ ks. In sid ks ↔ (In sid (keys_of v) ⊎ ⊥)) (sym e) none_new,
)

In-append : (sid : Sid) (xs ys : List Sid) → In sid (xs ++ ys) ↔ (In sid xs ⊎ In sid ys)
In-append sid [] ys = (inr, elim [ inl e ↦ absurd e | inr i ↦ i ])
In-append sid (x ∷ xs) ys = (there (In-append sid xs ys).0, back (In-append sid xs ys).1)
  where
    there :
        (In sid (xs ++ ys) → In sid xs ⊎ In sid ys)
        → In sid (x ∷ (xs ++ ys))
        → In sid (x ∷ xs) ⊎ In sid ys
    there f (inl e) = inl (inl e)
    there f (inr i) = elim (f i) [ inl p ↦ inl (inr p) | inr q ↦ inr q ]

    back :
        (In sid xs ⊎ In sid ys → In sid (xs ++ ys))
        → In sid (x ∷ xs) ⊎ In sid ys
        → In sid (x ∷ (xs ++ ys))
    back f (inl (inl e)) = inl e
    back f (inl (inr p)) = inr (f (inl p))
    back f (inr q) = inr (f (inr q))

iff_trans : {P Q R S X Y : Type 0} → S ↔ (X ⊎ Y) → Q ↔ (R ⊎ X) → P ↔ (Q ⊎ Y) → P ↔ (R ⊎ S)
iff_trans {P = P} {R = R} {S = S} (a, b) (c, d) (e, f) = (there, back)
  where
    there : P → R ⊎ S
    there p = elim (e p) [
      | inl q ↦ elim (c q) [ inl r ↦ inl r | inr x ↦ inr (b (inl x)) ]
      | inr y ↦ inr (b (inr y))
    ]

    back : R ⊎ S → P
    back (inl r) = f (inl (d (inl r)))
    back (inr s) = elim (a s) [ inl x ↦ f (inl (d (inr x))) | inr y ↦ f (inr y) ]

Grown-trans : (u v w : View) (xs ys : List Sid) → Grown u v xs → Grown v w ys → Grown u w (xs ++ ys)
Grown-trans u v w xs ys (d, g) (e, h) =
    (λ k. e (d k), λ sid. iff_trans (In-append sid xs ys) (g sid) (h sid))

single : {P Q R : Type 0} → P ↔ (Q ⊎ R) → P ↔ (Q ⊎ (R ⊎ ⊥))
single {P = P} {Q = Q} {R = R} (f, g) = (there, back)
  where
    there : P → Q ⊎ (R ⊎ ⊥)
    there p = elim (f p) [ inl q ↦ inl q | inr r ↦ inr (inl r) ]

    back : Q ⊎ (R ⊎ ⊥) → P
    back (inl q) = g (inl q)
    back (inr (inl r)) = g (inr r)
    back (inr (inr e)) = absurd e

mounted-Grown :
    (v : View) (sid : Sid) (title : Option Str) (now : ℕ) (dims : Size)
    → Grown v (on_control v (created sid title) now dims) (sid ∷ [])
unfolding on_control
mounted-Grown v sid title now dims =
    let m = mount-Mounted v.app sid title now dims in (m.distinct, λ id. single (m.keys id))

message :
    (v : View) (o : Option Sid) (m : Control) (now : ℕ) (dims : Size)
    → Grown v (on_sid v o m now dims) []
message v o m now dims = kept-Grown v (on_sid v o m now dims) (keys_of-on_sid v o m now dims)

on_control-Grown :
    (v : View) (m : Control) (now : ℕ) (dims : Size)
    → Grown v (on_control v m now dims) (created_by m)
unfolding on_control put
on_control-Grown v (created sid title) now dims = mounted-Grown v sid title now dims
on_control-Grown v lock_all now dims = kept-Grown v (on_control v lock_all now dims) refl
on_control-Grown v (pty_size sid size active) now dims =
    message v (some sid) (pty_size sid size active) now dims
on_control-Grown v (reset sid) now dims = message v (some sid) (reset sid) now dims
on_control-Grown v (activity sid bytes) now dims =
    message v (some sid) (activity sid bytes) now dims
on_control-Grown v (exit sid code) now dims = message v (some sid) (exit sid code) now dims
on_control-Grown v (gone sid) now dims = message v (some sid) (gone sid) now dims
on_control-Grown v (error sid text) now dims = message v (some sid) (error sid text) now dims

-- After any sequence of control messages the client has exactly the sessions that it had and those that
-- the server has said it created, and where no id stood twice none does: `exit` and `gone` leave the
-- session in the list, and a session that is created again is not mounted again.
pub on_controls_lem :
    (v : View) (ms : List (Control × (ℕ × Size)))
    → (AllDistinct (JsMap.keys v.app.sessions)
        → AllDistinct (JsMap.keys (on_controls v ms).app.sessions))
      × ((sid : Sid)
          → In sid (JsMap.keys (on_controls v ms).app.sessions)
            ↔ (In sid (JsMap.keys v.app.sessions) ⊎ In sid (created_ids ms)))
unfolding on_controls
on_controls_lem v [] = kept-Grown v v refl
on_controls_lem v ((m, (now, dims)) ∷ ms) =
    let w = on_control v m now dims in
    Grown-trans v w (on_controls w ms) (created_by m) (created_ids ms)
      (on_control-Grown v m now dims) (on_controls_lem w ms)
