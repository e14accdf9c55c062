-- ===== src/Backends/Choose.antt =====
-- The choice of a backend in `promptCreate` of `public/js/shell/backends.js`: from the text that the
-- user typed to a connection, by way of the probe and of the installation of a key.
use shells.Prelude.{
  ℕ, zero, suc, Bool, true, false, ◌&&◌, not, Option, none, some, List, [], ◌∷◌, ◌++◌, Str, codes,
  ◌==◌, str_eq, nat_eq, if◌then◌else◌,
}
use shells.Backends.Text.{ℤ, pos, negsuc, contains}
use shells.Backends.Address.{Address, parse_ssh_input}

abbrev pub int_eqb : ℤ → ℤ → Bool
int_eqb (pos m) (pos n) = m == n
int_eqb (negsuc m) (negsuc n) = m == n
int_eqb _ _ = false

-- A stored connection.
pub record Conn : Type 0 where
  pub id : Str
  pub address : Address
  pub has_our_key : Bool
  pub hostname : Option Str

pub record Backend : Type 0 where
  pub connection_id : Str
  pub address : Address
  pub hostname : Option Str

-- The hint in the text about a failed installation.
pub data Hint : Type 0 where
  password_incorrect : Hint
  timed_out : Hint
  key_rejected : Hint
  check_all : Hint

-- What the user is told.
pub data Notice : Type 0 where
  not_available : Notice
  unreachable_host : Address → Notice
  setup_failed : Hint → Notice
  request_failed : Notice

-- The connections, the lists posted, the status boxes that are open, and what the user was told.
pub record Desk : Type 0 where
  pub conns : List Conn
  pub posted : List (List Conn)
  pub open_status : ℕ
  pub notices : List Notice

-- The answer to `/api/ssh-probe`; the fields of its data.
pub record Probe : Type 0 where
  pub ok : Bool
  pub error : Str
  pub key_ready : Bool
  pub unreachable : Bool
  pub id : Str
  pub has_our_key : Bool
  pub hostname : Option Str

-- The answer to `/api/ssh-setup`.
pub record Setup : Type 0 where
  pub ok : Bool
  pub code : Str
  pub id : Str
  pub hostname : Option Str

-- One turn of the loop: the password, none where the dialog is closed, the answer, none where the
-- request throws, and whether the user tries again.
pub record Attempt : Type 0 where
  pub password : Option Str
  pub setup : Option Setup
  pub retry : Bool

-- How the choice ends. It is `waiting` while the dialog for a password has not been answered.
pub data Choice : Type 0 where
  local : Choice
  remote : Backend → Choice
  given_up : Choice
  waiting : Choice

abbrev pub address_eqb : Address → Address → Bool
address_eqb a b = a.host == b.host && a.user == b.user && int_eqb a.port b.port

-- `find` by the host, the user and the port, and by the id.
unfoldable pub find_address : List Conn → Address → Option Conn
find_address [] addr = none
find_address (c ∷ cs) addr = if address_eqb c.address addr then some c else find_address cs addr

unfoldable pub find_id : List Conn → Str → Option Conn
find_id [] id = none
find_id (c ∷ cs) id = if c.id == id then some c else find_id cs id

unfoldable pub backend_of : Address → Conn → Backend
backend_of addr conn = record { connection_id = conn.id; address = addr; hostname = conn.hostname }

abbrev pub open_box : Desk → Desk
open_box d = record d { open_status = suc d.open_status }

abbrev pub one_less : ℕ → ℕ
one_less zero = zero
one_less (suc n) = n

abbrev pub close_box : Desk → Desk
close_box d = record d { open_status = one_less d.open_status }

unfoldable pub tell : Desk → Notice → Desk
tell d n = record d { notices = d.notices ++ n ∷ [] }

-- `push` and `_saveSshConnections`, which swallows its errors.
unfoldable pub add_conn : Desk → Conn → Desk
add_conn d conn = record d {
  conns = d.conns ++ conn ∷ [];
  posted = d.posted ++ (d.conns ++ conn ∷ []) ∷ [];
}

unfoldable pub hint_of : Str → Hint
hint_of code =
    if code == codes "max_attempts"
    then password_incorrect
    else if code == codes "timeout"
    then timed_out
    else if code == codes "install_failed"
    then key_rejected
    else check_all

abbrev pub installed : Address → Setup → Conn
installed addr s = record { id = s.id; address = addr; has_our_key = true; hostname = s.hostname }

abbrev pub is_given : Option Str → Bool
is_given none = false
is_given (some password) = not (password == [])

-- The turn after the password, with the rest of the loop, which a retry goes on with. The status box
-- is closed after the request, by the `catch` where it throws.
unfoldable pub install : Desk → Address → Option Setup → Desk × Choice → Bool → Desk × Choice
unfolding tell add_conn backend_of hint_of
install d addr none rest retry = (tell (close_box d) request_failed, given_up)
install d addr (some s) rest retry =
    if s.ok
    then (add_conn (close_box d) (installed addr s), remote (backend_of addr (installed addr s)))
    else if retry
    then rest
    else (tell (close_box d) (setup_failed (hint_of s.code)), given_up)

-- What a failed turn leaves the next one with.
unfoldable pub after : Desk → Option Setup → Desk
unfolding tell hint_of
after d none = close_box d
after d (some s) = tell (close_box d) (setup_failed (hint_of s.code))

-- The loop `while (!setupOk)`.
unfoldable pub setup_loop : Desk → Address → List Attempt → Desk × Choice
unfolding install after
setup_loop d addr [] = (d, waiting)
setup_loop d addr (t ∷ ts) =
    let rest = setup_loop (after (open_box d) t.setup) addr ts in
    if is_given t.password then install (open_box d) addr t.setup rest t.retry else (d, given_up)

abbrev pub probed : Address → Probe → Conn
probed addr p = record {
  id = p.id;
  address = addr;
  has_our_key = p.has_our_key;
  hostname = p.hostname;
}

-- The host lets the key of the server in: the connection that has its id, or a new one.
unfoldable pub take_ready : Desk → Address → Probe → Option Conn → Desk × Choice
unfolding add_conn backend_of
take_ready d addr p (some conn) = (d, remote (backend_of addr conn))
take_ready d addr p none = (add_conn d (probed addr p), remote (backend_of addr (probed addr p)))

-- The answer to the probe.
unfoldable pub on_answer : Desk → Address → Probe → List Attempt → Desk × Choice
unfolding tell contains take_ready find_id setup_loop
on_answer d addr p ts =
    let loop = setup_loop d addr ts in
    if contains p.error (codes "not available")
    then (tell d not_available, given_up)
    else if p.ok && p.key_ready
    then take_ready d addr p (find_id d.conns p.id)
    else if p.unreachable
    then (tell d (unreachable_host addr), given_up)
    else loop

-- After the probe; none where its request throws.
unfoldable pub after_probe : Desk → Address → Option Probe → List Attempt → Desk × Choice
unfolding on_answer tell
after_probe d addr none ts = (tell (close_box d) request_failed, given_up)
after_probe d addr (some p) ts = on_answer (close_box d) addr p ts

unfoldable pub choose_known :
    Desk → Address → Option Conn → Option Probe → List Attempt → Desk × Choice
unfolding backend_of after_probe
choose_known d addr (some conn) probe ts = (d, remote (backend_of addr conn))
choose_known d addr none probe ts = after_probe (open_box d) addr probe ts

unfoldable pub choose_address : Desk → Option Address → Option Probe → List Attempt → Desk × Choice
unfolding choose_known find_address
choose_address d none probe ts = (d, local)
choose_address d (some addr) probe ts = choose_known d addr (find_address d.conns addr) probe ts

-- From the text of the dialog.
unfoldable pub choose_backend : Desk → Str → Option Probe → List Attempt → Desk × Choice
unfolding choose_address parse_ssh_input
choose_backend d input probe ts = choose_address d (parse_ssh_input input) probe ts
