-- ===== src/Backends/Chosen.antt =====
-- How the choice of a backend ends, whatever the server and the user answer.
use shells.Prelude.{
  ℕ, ◌≡◌, refl, sym, ◌⊎◌, inl, inr, Bool, ◌&&◌, Option, none, some, List, [], ◌∷◌, ◌++◌, Str, codes,
  ◌==◌, str_eq, nat_eq, if◌then◌else◌, In, if-cases, Bool-cases,
}
use shells.Backends.Text.{contains}
use shells.Backends.Address.{Address}
use shells.Backends.Choose.{
  Conn, Notice, request_failed, setup_failed, not_available, unreachable_host, Desk, Probe, Setup,
  Attempt, Choice, local, remote, given_up, waiting, address_eqb, find_address, find_id, backend_of,
  open_box, tell, add_conn, hint_of, installed, is_given, install, after, setup_loop, probed,
  take_ready, on_answer, after_probe, choose_known, choose_address,
}

-- The connections are those before, or one of the address has been added and the list posted.
abbrev pub IsExtended : List Conn → List (List Conn) → Address → Desk → Type 0
IsExtended cs ps addr e =
    ((e.conns ≡ cs) × (e.posted ≡ ps))
    ⊎ ((conn : Conn) × (conn.address ≡ addr)
        × (e.conns ≡ cs ++ conn ∷ [])
        × (e.posted ≡ ps ++ e.conns ∷ []))

-- A remote backend has the address and is a stored connection; without one nothing is stored.
abbrev pub Outcome : List Conn → List (List Conn) → Address → Desk → Choice → Type 0
Outcome cs ps addr e (remote b) =
    (b.address ≡ addr)
    × ((conn : Conn) × In conn e.conns × (conn.id ≡ b.connection_id))
    × IsExtended cs ps addr e
Outcome cs ps addr e local = (e.conns ≡ cs) × (e.posted ≡ ps)
Outcome cs ps addr e given_up = (e.conns ≡ cs) × (e.posted ≡ ps)
Outcome cs ps addr e waiting = (e.conns ≡ cs) × (e.posted ≡ ps)

-- And `n` status boxes are open.
abbrev pub Ends : List Conn → List (List Conn) → ℕ → Address → Desk × Choice → Type 0
Ends cs ps n addr r = (r.0.open_status ≡ n) × Outcome cs ps addr r.0 r.1

In-last : (cs : List Conn) (c : Conn) → In c (cs ++ c ∷ [])
In-last [] c = inl refl
In-last (d ∷ cs) c = inr (In-last cs c)

added-Ends :
    (d : Desk) (addr : Address) (conn : Conn)
    → conn.address ≡ addr
    → Ends d.conns d.posted d.open_status addr (add_conn d conn, remote (backend_of addr conn))
unfolding add_conn backend_of
added-Ends d addr conn e =
    (refl, (refl, (conn, In-last d.conns conn, refl), inr (conn, e, refl, refl)))

found-Ends :
    (d : Desk) (addr : Address) (conn : Conn)
    → In conn d.conns
    → Ends d.conns d.posted d.open_status addr (d, remote (backend_of addr conn))
unfolding backend_of
found-Ends d addr conn i = (refl, (refl, (conn, i, refl), inl (refl, refl)))

told-Ends :
    (d : Desk) (addr : Address) (n : Notice)
    → Ends d.conns d.posted d.open_status addr (tell d n, given_up)
unfolding tell
told-Ends d addr n = (refl, (refl, refl))

install-Ends :
    (d : Desk) (addr : Address) (setup : Option Setup) (rest : Desk × Choice) (retry : Bool)
    → Ends d.conns d.posted d.open_status addr rest
    → Ends d.conns d.posted d.open_status addr (install (open_box d) addr setup rest retry)
unfolding install
install-Ends d addr none rest retry h = told-Ends d addr request_failed
install-Ends d addr (some s) rest retry h =
    if-cases (Ends d.conns d.posted d.open_status addr) s.ok
      (add_conn d (installed addr s), remote (backend_of addr (installed addr s)))
      (if retry then rest else (tell d (setup_failed (hint_of s.code)), given_up))
      (λ e. added-Ends d addr (installed addr s) refl)
      (λ e.
        if-cases (Ends d.conns d.posted d.open_status addr) retry rest
          (tell d (setup_failed (hint_of s.code)), given_up) (λ f. h)
          (λ f. told-Ends d addr (setup_failed (hint_of s.code))))

after-same :
    (d : Desk) (addr : Address) (setup : Option Setup) (r : Desk × Choice)
    → Ends
        (after (open_box d) setup).conns
        (after (open_box d) setup).posted
        (after (open_box d) setup).open_status
        addr
        r
    → Ends d.conns d.posted d.open_status addr r
unfolding after tell
after-same d addr none r h = h
after-same d addr (some s) r h = h

setup_loop-Ends :
    (d : Desk) (addr : Address) (ts : List Attempt)
    → Ends d.conns d.posted d.open_status addr (setup_loop d addr ts)
unfolding setup_loop
setup_loop-Ends d addr [] = (refl, (refl, refl))
setup_loop-Ends d addr (t ∷ ts) =
    let rest = setup_loop (after (open_box d) t.setup) addr ts in
    let h = after-same d addr t.setup rest (setup_loop-Ends (after (open_box d) t.setup) addr ts) in
    if-cases (Ends d.conns d.posted d.open_status addr) (is_given t.password)
      (install (open_box d) addr t.setup rest t.retry) (d, given_up)
      (λ e. install-Ends d addr t.setup rest t.retry h) (λ e. (refl, (refl, refl)))

some_inj : {u v : Conn} → some u ≡ some v → u ≡ v
some_inj e = cc

find_address-In :
    (cs : List Conn) (addr : Address) (conn : Conn) → find_address cs addr ≡ some conn → In conn cs
unfolding find_address
find_address-In [] addr conn e = cc
find_address-In (c ∷ cs) addr conn e = elim (Bool-cases (address_eqb c.address addr)) [
  | inl f ↦ inl (some_inj (sym (rw f at e)))
  | inr f ↦ inr (find_address-In cs addr conn (rw f at e))
]

find_id-In : (cs : List Conn) (id : Str) (conn : Conn) → find_id cs id ≡ some conn → In conn cs
unfolding find_id
find_id-In [] id conn e = cc
find_id-In (c ∷ cs) id conn e = elim (Bool-cases (c.id == id)) [
  | inl f ↦ inl (some_inj (sym (rw f at e)))
  | inr f ↦ inr (find_id-In cs id conn (rw f at e))
]

take_ready-Ends :
    (d : Desk) (addr : Address) (p : Probe) (found : Option Conn)
    → ((conn : Conn) → found ≡ some conn → In conn d.conns)
    → Ends d.conns d.posted d.open_status addr (take_ready d addr p found)
unfolding take_ready
take_ready-Ends d addr p none h = added-Ends d addr (probed addr p) refl
take_ready-Ends d addr p (some conn) h = found-Ends d addr conn (h conn refl)

on_answer-Ends :
    (d : Desk) (addr : Address) (p : Probe) (ts : List Attempt)
    → Ends d.conns d.posted d.open_status addr (on_answer d addr p ts)
unfolding on_answer
on_answer-Ends d addr p ts =
    let E = Ends d.conns d.posted d.open_status addr in
    let loop = setup_loop d addr ts in
    let ready = take_ready d addr p (find_id d.conns p.id) in
    let last = if p.unreachable then (tell d (unreachable_host addr), given_up) else loop in
    let next = if p.ok && p.key_ready then ready else last in
    if-cases E (contains p.error (codes "not available")) (tell d not_available, given_up) next
      (λ _. told-Ends d addr not_available)
      (λ _.
        if-cases E (p.ok && p.key_ready) ready last
          (λ _. take_ready-Ends d addr p (find_id d.conns p.id) (find_id-In d.conns p.id))
          (λ _.
            if-cases E p.unreachable (tell d (unreachable_host addr), given_up) loop
              (λ _. told-Ends d addr (unreachable_host addr)) (λ _. setup_loop-Ends d addr ts)))

after_probe-Ends :
    (d : Desk) (addr : Address) (probe : Option Probe) (ts : List Attempt)
    → Ends d.conns d.posted d.open_status addr (after_probe (open_box d) addr probe ts)
unfolding after_probe
after_probe-Ends d addr none ts = told-Ends d addr request_failed
after_probe-Ends d addr (some p) ts = on_answer-Ends d addr p ts

-- Whatever the probe and the turns of the password loop answer, errors included, the choice of a
-- backend for an address leaves as many status boxes open as before; a remote backend has the address
-- and is a stored connection, which was there before or has been added and posted; and where the
-- choice is given up or waits for a password, the connections are those before and nothing is posted.
pub choose_address-Ends :
    (d : Desk) (addr : Address) (probe : Option Probe) (ts : List Attempt)
    → Ends d.conns d.posted d.open_status addr (choose_address d (some addr) probe ts)
unfolding choose_address choose_known
choose_address-Ends d addr probe ts =
    known (find_address d.conns addr) (find_address-In d.conns addr)
  where
    known :
        (found : Option Conn)
        → ((conn : Conn) → found ≡ some conn → In conn d.conns)
        → Ends d.conns d.posted d.open_status addr (choose_known d addr found probe ts)
    known none h = after_probe-Ends d addr probe ts
    known (some conn) h = found-Ends d addr conn (h conn refl)
