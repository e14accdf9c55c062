-- ===== src/Sessions/Races.antt =====
-- Three orders of events that leave the client in a wrong state.
use mathlib.Core.Option
use shells.Prelude.{
  ℕ, ◌+◌, ◌-◌, suc, ◌<◌, ◌≡◌, refl, sym, ap, ◌∙◌, ◌≢◌, true, false, not, Option, none, some, List,
  [], ◌∷◌, arith, nat_eq, In, AllDistinct, subst, if◌then◌else◌, is_some, inl,
}
use shells.JsMap
use shells.JsMap.{JsMap}
use shells.JsMap.Laws.{
  get-set_self, get-modify_self, get-modify_ne, has_iff, has-get, In-get, beq_ne,
  delete-AllDistinct,
}
use shells.Sessions.State.{
  Sid, Session, Size, App, get_opt, get_session, is_fullscreen, set_fullscreen,
}
use shells.Sessions.Roles.{
  is_client, has_term, claim_gap_ms, get_or, send_claim, become_client, claim_active_if_needed,
}
use shells.Sessions.Active.{sleeps, fullscreen_sid, set_active, slide_cleanup}
use shells.Sessions.Frame.{set_active-same}
use shells.Sessions.Settled.{IsSettled}
use shells.Sessions.Lifecycle.{mount_all, is_settled, drop_missing, prompt_if_empty, sync, destroy}
use shells.Sessions.Destroy.{destroy_lem, destroy-IsSettled}
use shells.Sessions.Sleep.{set_active-IsSleepRight}
use shells.Sessions.Fullscreen.{InFullscreen, has_keys, set_active-InFullscreen}

claim_near :
    (a : App) (id : Sid) (now : ℕ) (dims : Size)
    → has_term a id ≡ true
    → is_client a id ≡ false
    → now - get_or (JsMap.get a.last_claim_active id) 0 < claim_gap_ms
    → (claim_active_if_needed a id now dims ≡ become_client a id)
      × ((become_client a id).sent ≡ a.sent)
unfolding claim_active_if_needed send_claim become_client
claim_near a id now dims t c near = ground arith

become_client-is_client : (a : App) (id : Sid) → is_client (become_client a id) id ≡ true
unfolding become_client is_client
become_client-is_client a id = rw (get-set_self a.is_active_client id true)

claim_client :
    (a : App) (id : Sid) (now : ℕ) (dims : Size)
    → is_client a id ≡ true
    → claim_active_if_needed a id now dims ≡ a
unfolding claim_active_if_needed
claim_client a id now dims c = ground arith

-- A claim within the gap after another one takes the role here and sends nothing, and no later claim
-- sends anything either, at any time: the server is never told, although the client has marked itself
-- active. This holds for a session that is there and in which another device is active.
pub throttled_claim :
    (a : App) (id : Sid) (now later : ℕ) (dims dims' : Size)
    → has_term a id ≡ true
    → is_client a id ≡ false
    → now - get_or (JsMap.get a.last_claim_active id) 0 < claim_gap_ms
    → let b = claim_active_if_needed a id now dims in
      (is_client b id ≡ true) × (b.sent ≡ a.sent) × (claim_active_if_needed b id later dims' ≡ b)
throttled_claim a id now later dims dims' t c near =
    let (e, quiet) = claim_near a id now dims t c near in
    let client = become_client-is_client a id in
    rw e (client, quiet, claim_client (become_client a id) id later dims' client)

some_of : (o : Option Session) → is_fullscreen o ≡ true → is_some o ≡ true
some_of none h = cc
some_of (some s) h = refl

is_fullscreen_off :
    (o : Option Session) → is_fullscreen (Option.map (set_fullscreen false) o) ≡ false
is_fullscreen_off none = refl
is_fullscreen_off (some s) = refl

slide_cleanup-off :
    (a : App) (id : Sid) → is_fullscreen (JsMap.get (slide_cleanup a id).sessions id) ≡ false
unfolding slide_cleanup
slide_cleanup-off a id = rw (get-modify_self a.sessions id) (is_fullscreen_off _)

slide_cleanup-rest :
    (a : App) (id : Sid)
    → ((slide_cleanup a id).active_id ≡ a.active_id)
      × ((sid : Sid)
          → id ≢ sid
          → JsMap.get (slide_cleanup a id).sessions sid ≡ JsMap.get a.sessions sid)
unfolding slide_cleanup
slide_cleanup-rest a id = (refl, λ sid h. get-modify_ne a.sessions id sid _ h)

-- Two switches in full screen, from `x` to `y` and back before the first slide has ended. The end of
-- that slide takes the tile of `x`, which is the active one again, out of full screen, while `y` is
-- still put to sleep: the active session is not in full screen, and another one sleeps.
pub slide_race :
    (a : App) (x y : Sid)
    → x ≢ y
    → a.active_id ≡ some x
    → is_fullscreen (JsMap.get a.sessions x) ≡ true
    → JsMap.has a.sessions y ≡ true
    → let b = slide_cleanup (set_active (set_active a (some y)) (some x)) x in
      (b.active_id ≡ some x)
      × (is_fullscreen (JsMap.get b.sessions x) ≡ false)
      × ((s : Session) × (JsMap.get b.sessions y ≡ some s) × (s.is_asleep ≡ true))
unfolding get_opt
slide_race a x y ne ax fx hy = (
  (slide_cleanup-rest c x).0 ∙ (set_active-same b (some x)).1,
  slide_cleanup-off c x,
  (s, (slide_cleanup-rest c x).1 y ne ∙ gs, asleep),
)
  where
    b : App
    b = set_active a (some y)

    c : App
    c = set_active b (some x)

    in_b : is_fullscreen (get_session b b.active_id) ≡ true
    in_b = rw ((set_active-same a (some y)).1) (set_active-InFullscreen a y (rw ax fx) hy)

    keys_c : JsMap.keys c.sessions ≡ JsMap.keys a.sessions
    keys_c = (set_active-same b (some x)).0.keys ∙ (set_active-same a (some y)).0.keys

    has_x : JsMap.has a.sessions x ≡ true
    has_x = has-get a.sessions x ∙ some_of (JsMap.get a.sessions x) fx

    in_c : InFullscreen c x
    in_c =
        set_active-InFullscreen b x in_b
          (has_keys a.sessions b.sessions x (set_active-same a (some y)).0.keys has_x)

    found : (t : Session) × (JsMap.get c.sessions y ≡ some t)
    found = In-get c.sessions y (subst (In y) (sym keys_c) ((has_iff a.sessions y).0 hy))

    s : Session
    s = found.0

    gs : JsMap.get c.sessions y ≡ some s
    gs = found.1

    on : fullscreen_sid c ≡ some x
    on = rw ((set_active-same b (some x)).1) (rw in_c)

    asleep : s.is_asleep ≡ true
    asleep =
        set_active-IsSleepRight b (some x) y s gs
        ∙ ap (λ o. sleeps o y) on
        ∙ ap not (beq_ne y x (λ e. ne (sym e)))

keys-delete_head :
    (m : JsMap Sid Session) (id : Sid) (rest : List Sid)
    → JsMap.keys m ≡ id ∷ rest
    → JsMap.keys (JsMap.delete m id) ≡ rest
unfolding JsMap.delete
keys-delete_head [] id rest h = cc
keys-delete_head ((j, s) ∷ m) id rest h = ground arith

settled_has :
    (a : App) (id : Sid) (rest : List Sid)
    → IsSettled a.sessions
    → JsMap.keys a.sessions ≡ id ∷ rest
    → (JsMap.has a.sessions id ≡ true) × (is_settled a id ≡ true)
unfolding is_settled
settled_has a id rest k e =
    let here = subst (In id) (sym e) (inl refl) in
    let (s, g) = In-get a.sessions id here in
    ((has_iff a.sessions id).1 here, (rw (g, is_settled, k id s g)))

drop_step :
    (a : App) (id : Sid) (rest : List Sid)
    → is_settled a id ≡ true
    → drop_missing a [] (id ∷ rest) ≡ drop_missing (destroy a id) [] rest
unfolding drop_missing JsMap.includes
drop_step a id rest h = ap (λ c. drop_missing (if c then destroy a id else a) [] rest) h

-- The second loop of `sync` against an empty list: the last `destroy` asks for a new shell.
drop_all :
    (a : App) (id : Sid) (rest : List Sid)
    → JsMap.keys a.sessions ≡ id ∷ rest
    → AllDistinct (JsMap.keys a.sessions)
    → IsSettled a.sessions
    → let b = drop_missing a [] (id ∷ rest) in
      (b.prompts ≡ suc a.prompts) × (JsMap.keys b.sessions ≡ [])
unfolding drop_missing
drop_all a id [] e d k =
    let (h, settled) = settled_has a id [] k e in
    let w = destroy_lem a id h in
    let ks = w.keys ∙ keys-delete_head a.sessions id [] e in
    rw (drop_step a id [] settled) (w.prompts ∙ (rw ks), ks)
drop_all a id (id' ∷ rest) e d k =
    let (h, settled) = settled_has a id (id' ∷ rest) k e in
    let w = destroy_lem a id h in
    let ks = w.keys ∙ keys-delete_head a.sessions id (id' ∷ rest) e in
    let r =
      drop_all (destroy a id) id' rest ks
        (subst AllDistinct (sym w.keys) (delete-AllDistinct a.sessions id d))
        (destroy-IsSettled a id h d k) in
    rw (drop_step a id (id' ∷ rest) settled) (r.0 ∙ ap suc (w.prompts ∙ (rw ks)), r.1)

prompt_when_empty :
    (a : App) (m : JsMap Sid Session)
    → a.sessions ≡ m
    → JsMap.keys a.sessions ≡ []
    → (prompt_if_empty a).prompts ≡ suc a.prompts
unfolding prompt_if_empty
prompt_when_empty a [] h e = ground arith
prompt_when_empty a ((j, s) ∷ m) h e = absurd (ground arith)

-- When the server has lost all sessions, `sync` opens the dialog for a new shell twice: in the last
-- `destroy`, and then once more itself. This holds where some session was there before, no id twice
-- and none still being built.
pub sync_prompts :
    (a : App) (id : Sid) (rest : List Sid) (now : ℕ) (dims : Size)
    → JsMap.keys a.sessions ≡ id ∷ rest
    → AllDistinct (JsMap.keys a.sessions)
    → IsSettled a.sessions
    → (sync a [] now dims).prompts ≡ a.prompts + 2
unfolding sync mount_all
sync_prompts a id rest now dims e d k =
    let b = drop_missing a [] (JsMap.keys a.sessions) in
    let (p, none_left) = rw (← e) at (drop_all a id rest e d k) in
    prompt_when_empty b b.sessions refl none_left ∙ omega (arith, p)
