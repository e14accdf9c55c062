-- ===== src/Sessions/Restored.antt =====
-- What a page has after `restore`: the sessions in the order of the list, and the roles.
use shells.Prelude.{
  ℕ, ◌+◌, arith, ◌≡◌, refl, sym, ap, ◌∙◌, ◌⊎◌, inl, inr, Bool, true, false, Option, some, none,
  List, [], ◌∷◌, ◌++◌, Str, nat_eq, In, In-snoc, AllDistinct, Bool-cases, subst, if◌then◌else◌,
  append-nil, append_assoc, suc,
}
use shells.JsMap
use shells.JsMap.{JsMap}
use shells.JsMap.Laws.{keys-set_new, includes_iff, has_iff}
use shells.Sessions.State.{Sid, Session, Size, attach, App, send}
use shells.Sessions.Frame.{set_active-same}
use shells.Sessions.Lifecycle.{
  mounted, take_pending, mount, Listed, mount_all, ids, drop_missing, sync, prompt_if_empty,
}
use shells.Sessions.Kept.{Kept, Kept-trans, send-Kept, take_pending-Kept}
use shells.Sessions.Choice.{In-sorted, IsChosen, choose-IsChosen}
use shells.Sessions.Restore.{
  Disk, sorted, choose, restore_list, begin, connects, with_list, restore,
}

pub keys-mount_new :
    (a : App) (id : Sid) (t : Option Str) (now : ℕ) (dims : Size)
    → (In id (JsMap.keys a.sessions) → ⊥)
    → JsMap.keys (mount a id t now dims).sessions ≡ JsMap.keys a.sessions ++ id ∷ []
unfolding mount
keys-mount_new a id t now dims h =
    rw absent (kept.keys ∙ keys-set_new a.sessions id (mounted t) absent)
  where
    absent : JsMap.has a.sessions id ≡ false
    absent = elim (Bool-cases (JsMap.has a.sessions id)) [
      | inl e ↦ absurd (h ((has_iff a.sessions id).0 e))
      | inr e ↦ e
    ]

    b : App
    b = take_pending (record a { sessions = JsMap.set a.sessions id (mounted t) }) id now dims

    kept :
        Kept
          (record a { sessions = JsMap.set a.sessions id (mounted t) })
          (send b (attach id false))
    kept =
        Kept-trans (record a { sessions = JsMap.set a.sessions id (mounted t) }) b
          (send b (attach id false))
          (take_pending-Kept (record a { sessions = JsMap.set a.sessions id (mounted t) }) id now
            dims)
          (send-Kept b (attach id false))

mount_present :
    (a : App) (id : Sid) (t : Option Str) (now : ℕ) (dims : Size)
    → In id (JsMap.keys a.sessions)
    → mount a id t now dims ≡ a
unfolding mount
mount_present a id t now dims h = rw ((has_iff a.sessions id).1 h)

mount_all_present :
    (a : App) (list : List Listed) (now : ℕ) (dims : Size)
    → ((x : Sid) → In x (ids list) → In x (JsMap.keys a.sessions))
    → mount_all a list now dims ≡ a
unfolding mount_all
mount_all_present a [] now dims h = refl
mount_all_present a (l ∷ ls) now dims h =
    ap (λ b. mount_all b ls now dims) (mount_present a l.id l.title now dims (h l.id (inl refl)))
    ∙ mount_all_present a ls now dims (λ x i. h x (inr i))

keys-mount_all :
    (a : App) (list : List Listed) (now : ℕ) (dims : Size)
    → AllDistinct (ids list)
    → ((x : Sid) → In x (ids list) → In x (JsMap.keys a.sessions) → ⊥)
    → JsMap.keys (mount_all a list now dims).sessions ≡ JsMap.keys a.sessions ++ ids list
unfolding mount_all
keys-mount_all a [] now dims d h = sym (append-nil (JsMap.keys a.sessions))
keys-mount_all a (l ∷ ls) now dims (new, d) h =
    let ks = keys-mount_new a l.id l.title now dims (h l.id (inl refl)) in
    keys-mount_all (mount a l.id l.title now dims) ls now dims d (fresh ks)
    ∙ (ap (λ k. k ++ ids ls) ks ∙ append_assoc (JsMap.keys a.sessions) (l.id ∷ []) (ids ls))
  where
    fresh :
        {ks : List Sid}
        → ks ≡ JsMap.keys a.sessions ++ l.id ∷ []
        → (x : Sid) → In x (ids ls)
        → In x ks
        → ⊥
    fresh e x i j = elim ((In-snoc (JsMap.keys a.sessions) l.id x).0 (subst (In x) e j)) [
      | inl p ↦ h x (inr i) p
      | inr p ↦ new (subst (λ y. In y (ids ls)) p i)
    ]

drop_missing_present :
    (a : App) (server rest : List Sid)
    → ((x : Sid) → In x rest → In x server)
    → drop_missing a server rest ≡ a
unfolding drop_missing
drop_missing_present a server [] h = refl
drop_missing_present a server (id ∷ rest) h =
    rw ((includes_iff server id).1 (h id (inl refl)))
      (drop_missing_present a server rest (λ x i. h x (inr i)))

prompt_if_present : (a : App) → ((JsMap.keys a.sessions ≡ []) → ⊥) → prompt_if_empty a ≡ a
unfolding prompt_if_empty
prompt_if_present a h = go a.sessions h
  where
    go :
        (m : JsMap Sid Session)
        → ((JsMap.keys m ≡ []) → ⊥)
        → elim m [ [] ↦ record a { prompts = suc a.prompts } | _ ∷ _ ↦ a ] ≡ a
    go [] n = absurd (n refl)
    go ((j, w) ∷ m) n = refl

-- `sync` with no session before it mounts the list as it stands.
keys-sync_fresh :
    (a : App) (l : Listed) (ls : List Listed) (now : ℕ) (dims : Size)
    → AllDistinct (ids (l ∷ ls))
    → JsMap.keys a.sessions ≡ []
    → JsMap.keys (sync a (l ∷ ls) now dims).sessions ≡ ids (l ∷ ls)
unfolding sync
keys-sync_fresh a l ls now dims d e =
    let m = mount_all a (l ∷ ls) now dims in
    ap (λ b. JsMap.keys b.sessions) (ap prompt_if_empty dropped ∙ prompt_if_present m filled) ∙ ks
  where
    ks : JsMap.keys (mount_all a (l ∷ ls) now dims).sessions ≡ ids (l ∷ ls)
    ks =
        keys-mount_all a (l ∷ ls) now dims d (λ x i p. subst (In x) e p)
        ∙ ap (λ k. k ++ ids (l ∷ ls)) e

    dropped :
        drop_missing
          (mount_all a (l ∷ ls) now dims)
          (ids (l ∷ ls))
          (JsMap.keys (mount_all a (l ∷ ls) now dims).sessions)
        ≡ mount_all a (l ∷ ls) now dims
    dropped =
        drop_missing_present (mount_all a (l ∷ ls) now dims) (ids (l ∷ ls))
          (JsMap.keys (mount_all a (l ∷ ls) now dims).sessions) (λ x i. subst (In x) ks i)

    filled : (JsMap.keys (mount_all a (l ∷ ls) now dims).sessions ≡ []) → ⊥
    filled n = cc (sym ks ∙ n)

-- The keys and the active session after the list has come.
keys-restore_list :
    (a : App) (disk : Disk) (list : List Listed) (now : ℕ) (dims : Size)
    → JsMap.keys a.sessions ≡ ids list
    → (JsMap.keys (restore_list a disk list now dims).sessions ≡ ids list)
      × ((restore_list a disk list now dims).active_id
          ≡ choose disk.active (sorted disk.order list))
unfolding restore_list
keys-restore_list a disk list now dims e =
    let all = sorted disk.order list in
    let b = mount_all (record a { pending_claim_sids = ids all }) all now dims in
    let same =
      set_active-same (record b { master_id = choose disk.master all }) (choose disk.active all) in
    (same.0.keys ∙ ap (λ c. JsMap.keys c.sessions) mounted_all ∙ e, same.1)
  where
    mounted_all :
        mount_all
          (record a { pending_claim_sids = ids (sorted disk.order list) })
          (sorted disk.order list)
          now
          dims
        ≡ record a { pending_claim_sids = ids (sorted disk.order list) }
    mounted_all =
        mount_all_present (record a { pending_claim_sids = ids (sorted disk.order list) })
          (sorted disk.order list) now dims
          (λ x i. subst (In x) (sym e) (In-sorted disk.order list x i))

-- A page that connects and gets the list of its login again has the sessions in the order of that list, whatever order is saved; the saved active session is active again where it is in the list, and the last session in the saved order where it is not.
pub restore_lem :
    (a : App) (disk : Disk) (tries : List Bool) (l : Listed) (ls : List Listed) (now : ℕ)
    (dims : Size)
    → connects 3 tries ≡ true
    → AllDistinct (ids (l ∷ ls))
    → let b = restore a disk tries (l ∷ ls) (some (l ∷ ls)) now dims in
      (JsMap.keys b.sessions ≡ ids (l ∷ ls)) × IsChosen disk.active disk.order (l ∷ ls) b.active_id
unfolding restore with_list
restore_lem a disk tries l ls now dims h d =
    let kept =
      keys-restore_list (sync (begin a disk) (l ∷ ls) now dims) disk (l ∷ ls) now dims
        (keys-sync_fresh (begin a disk) l ls now dims d refl) in
    rw h (
      kept.0,
      subst (IsChosen disk.active disk.order (l ∷ ls)) (sym kept.1)
          (choose-IsChosen disk.active disk.order (l ∷ ls)),
    )

-- A page that finds no session keeps none: three failed attempts leave one dialog to create a session asked for, and a connection two, one from `sync` and one from `restore`, where the list is empty and where its request fails.
pub restore-prompts :
    (a : App) (disk : Disk) (tries : List Bool) (answer : Option (List Listed)) (now : ℕ)
    (dims : Size)
    → (answer ≡ none) ⊎ (answer ≡ some [])
    → restore a disk tries [] answer now dims ≡ record (begin a disk) {
      prompts = if connects 3 tries then 2 + a.prompts else 1 + a.prompts;
    }
unfolding restore with_list sync mount_all drop_missing prompt_if_empty begin
restore-prompts a disk tries answer now dims (inl e) = elim (Bool-cases (connects 3 tries)) [
  | inl c ↦ rw (e, c) (ap (λ n. record (begin a disk) { prompts = n }) (omega arith))
  | inr c ↦ rw (e, c) (ap (λ n. record (begin a disk) { prompts = n }) (omega arith))
]
restore-prompts a disk tries answer now dims (inr e) = elim (Bool-cases (connects 3 tries)) [
  | inl c ↦ rw (e, c) (ap (λ n. record (begin a disk) { prompts = n }) (omega arith))
  | inr c ↦ rw (e, c) (ap (λ n. record (begin a disk) { prompts = n }) (omega arith))
]
