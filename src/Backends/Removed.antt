-- ===== src/Backends/Removed.antt =====
-- What `onDelete` of `public/js/shell/backends.js` leaves.
use shells.Prelude.{
  ◌≡◌, refl, ap, ◌∙◌, ◌⊎◌, inl, inr, Bool, true, false, ◌&&◌, not, Option, none, some, List, [],
  ◌∷◌, ◌++◌, Str, ◌==◌, str_eq, filter, In, Bool-cases, arith, str_eqb_iff,
}
use shells.JsMap
use shells.JsMap.Laws.{beq_refl}
use shells.Recents.State.{Recents, differs, put_backends, remove_recent_backend}
use shells.Recents.Unique.{In-filter}
use shells.Backends.Address.{conn_label}
use shells.Backends.Choose.{Conn}
use shells.Backends.Remove.{
  Bench, Removal, find_label, lock_conn, begin_removal, is_not, forget_conn, drop_conn, toast,
  close_status_box, removed_toast, open_status_box, on_removal, unlock_conn, finish_removal,
  finish_locked, on_delete,
}

-- The id that was locked is unlocked again, and the others stay locked.
unlocked :
    (ids : List Str) (id : Str)
    → JsMap.includes ids id ≡ false
    → filter (λ j. not (j == id)) (ids ++ id ∷ []) ≡ ids
unfolding JsMap.includes
unlocked [] id h = rw (beq_refl id) refl
unlocked (j ∷ ids) id h = elim (Bool-cases (j == id)) [
  | inl e ↦ absurd (ground arith)
  | inr e ↦ rw e (ap (j ∷◌) (unlocked ids id (rw e at h)))
]

-- The connection is gone from the page, and its label from the recent backends.
pub record Gone (b r : Bench) (conn : Conn) : Type 0 where
  pub conns : r.conns ≡ filter (is_not conn.id) b.conns
  pub label : In (conn_label conn.address) r.recents.backends → ⊥

-- All is as it was, or the connection is gone where the user and the server have agreed.
abbrev pub Result : Bench → Bench → Conn → Bool → Option Removal → Type 0
Result b r conn confirmed res =
    ((r.conns ≡ b.conns) × (r.recents ≡ b.recents))
    ⊎ ((confirmed ≡ true)
        × ((answer : Removal) × (res ≡ some answer) × (answer.ok ≡ true) × (answer.removed ≡ true))
        × Gone b r conn)

not_In-forget_conn :
    (r : Recents) (conn : Conn) → In (conn_label conn.address) (forget_conn r conn).backends → ⊥
unfolding forget_conn remove_recent_backend put_backends differs
not_In-forget_conn r conn h =
    let label = conn_label conn.address in
    let (i, e) = In-filter (differs label) r.backends label h in cc (e, ap not (beq_refl label))

-- The end of the handler, after the lock.
record Finished (b r : Bench) (conn : Conn) (confirmed : Bool) (res : Option Removal) : Type 0 where
  pub boxes : r.open_status ≡ b.open_status
  pub deleting : r.deleting ≡ filter (λ id. not (id == conn.id)) b.deleting
  pub result : Result b r conn confirmed res

finish_removal-Finished :
    (b : Bench) (conn : Conn) (confirmed : Bool) (res : Option Removal)
    → Finished b (finish_removal b conn confirmed res) conn confirmed res
unfolding finish_removal unlock_conn on_removal toast
finish_removal-Finished b conn false res = record {
  boxes = refl;
  deleting = refl;
  result = inl (refl, refl);
}
finish_removal-Finished b conn true none = record {
  boxes = refl;
  deleting = refl;
  result = inl (refl, refl);
}
finish_removal-Finished b conn true (some a) = elim (Bool-cases (a.ok && a.removed)) [
  | inl e ↦ rw e (agreed e)
  | inr e ↦ rw e (record { boxes = refl; deleting = refl; result = inl (refl, refl) })
]
  where
    agreed :
        a.ok && a.removed ≡ true
        → Finished b
            (unlock_conn
              (toast (close_status_box (drop_conn (open_status_box b) conn)) (removed_toast conn a))
              conn)
            conn
            true
            (some a)
    agreed e = record {
      boxes = refl;
      deleting = refl;
      result = inr (
        refl,
        (a, refl, ground arith, ground arith),
        record { conns = refl; label = not_In-forget_conn b.recents conn },
      );
    }

find_label-label :
    (cs : List Conn) (val : Str) (conn : Conn)
    → find_label cs val ≡ some conn
    → conn_label conn.address ≡ val
unfolding find_label
find_label-label [] val conn e = cc
find_label-label (c ∷ cs) val conn e = elim (Bool-cases (conn_label c.address == val)) [
  | inl f ↦ same c conn (rw f at e) ((str_eqb_iff (conn_label c.address) val).0 f)
  | inr f ↦ find_label-label cs val conn (rw f at e)
]
  where
    same : (u v : Conn) → some u ≡ some v → conn_label u.address ≡ val → conn_label v.address ≡ val
    same u v p q = cc

-- Whatever the user and the server answer, `onDelete` of an entry of the dialog leaves as many status
-- boxes open and the same connections locked as before; and either the connections and the recent lists
-- are as they were, or the user has confirmed, the server has removed the connection, and exactly the
-- connections with its id are gone, and its label from the recent backends.
pub on_delete_lem :
    (b : Bench) (val : Str) (confirmed : Bool) (res : Option Removal)
    → ((on_delete b val confirmed res).open_status ≡ b.open_status)
      × ((on_delete b val confirmed res).deleting ≡ b.deleting)
      × ((((on_delete b val confirmed res).conns ≡ b.conns)
            × ((on_delete b val confirmed res).recents ≡ b.recents))
          ⊎ ((conn : Conn) × (conn_label conn.address ≡ val)
              × (confirmed ≡ true)
              × ((answer : Removal) × (res ≡ some answer)
                  × (answer.ok ≡ true)
                  × (answer.removed ≡ true))
              × Gone b (on_delete b val confirmed res) conn))
unfolding on_delete begin_removal lock_conn finish_locked
on_delete_lem b val confirmed res = found (find_label b.conns val) (find_label-label b.conns val)
  where
    End : Bench → Type 0
    End r =
        (r.open_status ≡ b.open_status)
        × (r.deleting ≡ b.deleting)
        × (((r.conns ≡ b.conns) × (r.recents ≡ b.recents))
            ⊎ ((conn : Conn) × (conn_label conn.address ≡ val)
                × (confirmed ≡ true)
                × ((answer : Removal) × (res ≡ some answer)
                    × (answer.ok ≡ true)
                    × (answer.removed ≡ true))
                × Gone b r conn))

    ended :
        (conn : Conn) (r : Bench)
        → conn_label conn.address ≡ val
        → JsMap.includes b.deleting conn.id ≡ false
        → Finished (record b { deleting = b.deleting ++ conn.id ∷ [] }) r conn confirmed res
        → End r
    ended conn r same free f = (
      f.boxes,
      f.deleting ∙ unlocked b.deleting conn.id free,
      elim f.result [
        | inl q ↦ inl q
        | inr (agreed, answer, gone) ↦
            inr (conn, same, agreed, answer, record { conns = gone.conns; label = gone.label })
      ],
    )

    found :
        (o : Option Conn)
        → ((conn : Conn) → o ≡ some conn → conn_label conn.address ≡ val)
        → End (finish_locked b (lock_conn b o) confirmed res)
    found none h = (refl, refl, inl (refl, refl))
    found (some conn) h = elim (Bool-cases (JsMap.includes b.deleting conn.id)) [
      | inl e ↦ rw e (refl, refl, inl (refl, refl))
      | inr e ↦
          let locked = record b { deleting = b.deleting ++ conn.id ∷ [] } in
          rw e (
            ended conn (finish_removal locked conn confirmed res) (h conn refl) e
              (finish_removal-Finished locked conn confirmed res))
    ]
