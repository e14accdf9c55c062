-- ===== src/Backends/Examples.antt =====
-- Two stored connections, and the answers of a server.
use shells.Prelude.{
  ◌≡◌, ◌≢◌, refl, ◌⊎◌, true, false, Option, none, some, List, [], ◌∷◌, codes, arith, Str, In,
  AllDistinct, ◌↔◌, str_eq,
}
use shells.Sessions.State.{Size, App}
use shells.Recents.State.{Recents}
use shells.Recents.Commands.{is_space}
use shells.Backends.Complete.{command_autocomplete}
use shells.Backends.Completed.{texts, wanted, matched, command_autocomplete_lem}
use shells.Backends.Text.{pos, trim, starts_with}
use shells.Backends.Address.{Address, conn_label, parse_ssh_input}
use shells.Backends.Labels.{parse-conn_label}
use shells.Backends.Choose.{Conn, Desk, Probe, Attempt, choose_address}
use shells.Backends.Chosen.{Ends, choose_address-Ends}
use shells.Backends.Create.{Shelf, Answers, created, refused, final_path}
use shells.Backends.Launch.{answers}
use shells.Backends.Remove.{Bench, Removal, on_delete}
use shells.Backends.Removed.{Gone, on_delete_lem}

abbrev home_server : Address
home_server = record { user = codes "ann"; host = codes "pi.local"; port = pos 2222 }

parse-conn_label_example : parse_ssh_input (conn_label home_server) ≡ some home_server
unfolding is_space
parse-conn_label_example =
    parse-conn_label home_server refl refl (ground arith) (ground arith) (λ e. cc)

abbrev stored : Conn
stored = record { id = codes "k1"; address = home_server; has_our_key = true; hostname = none }

abbrev desk : Desk
desk = record { conns = stored ∷ []; posted = []; open_status = 0; notices = [] }

abbrev other_server : Address
other_server = record { user = codes "bob"; host = codes "box"; port = pos 22 }

abbrev no_key : Probe
no_key = record {
  ok = true;
  error = [];
  key_ready = false;
  unreachable = false;
  id = [];
  has_our_key = false;
  hostname = none;
}

abbrev wrong : Attempt
wrong = record {
  password = some (codes "a");
  setup = some (record { ok = false; code = codes "max_attempts"; id = []; hostname = none });
  retry = true;
}

abbrev right : Attempt
right = record {
  password = some (codes "b");
  setup = some (record { ok = true; code = []; id = codes "k2"; hostname = none });
  retry = false;
}

choose_address-Ends_example :
    Ends
      (stored ∷ [])
      []
      0
      other_server
      (choose_address desk (some other_server) (some no_key) (wrong ∷ right ∷ []))
choose_address-Ends_example =
    choose_address-Ends desk other_server (some no_key) (wrong ∷ right ∷ [])

abbrev page : App
page = record {
  sessions = [];
  active_id = none;
  master_id = none;
  layout_mode = codes "auto";
  search_sid = none;
  pty_sizes = [];
  is_active_client = [];
  pending_pty_size = [];
  pending_claim_sids = [];
  last_claim_active = [];
  saved = record {
    active_id = none;
    master_id = none;
    layout_mode = codes "auto";
    session_order = [];
  };
  ready = true;
  mobile = false;
  sent = [];
  prompts = 0;
}

abbrev lists : Recents
lists = record {
  paths = codes "/srv/" ∷ [];
  commands = codes "vim" ∷ [];
  backends = codes "ann@pi.local:2222" ∷ (codes "localhost" ∷ []);
  ssh_paths = [];
  ssh_commands = [];
  stored = [];
  last_backend = none;
  posts = [];
}

abbrev shelf : Shelf
shelf = record { app = page; recents = lists; alerts = [] }

abbrev size : Size
size = record { cols = 80; rows = 24 }

abbrev typed : Answers
typed = answers (codes " work ") none (codes "htop") (created 7 none)

final : final_path (codes "/srv/" ∷ []) (codes "/home") (codes " work ") ≡ codes "/home/work"
unfolding final_path trim is_space
final = refl

final_ne : final_path (codes "/srv/" ∷ []) (codes "/home") (codes " work ") ≢ []
final_ne e = cc (e, final)

abbrev unusable : Answers
unusable = answers (codes " work ") none (codes "htop") (refused (some (codes "cwd_unusable")))

abbrev bench : Bench
bench = record { conns = stored ∷ []; recents = lists; deleting = []; open_status = 0; toasts = [] }

abbrev done : Option Removal
done = some (record { ok = true; removed = true; remote_key_removed = some false })

on_delete_lem_example :
    ((on_delete bench (codes "ann@pi.local:2222") true done).open_status ≡ 0)
    × ((on_delete bench (codes "ann@pi.local:2222") true done).deleting ≡ [])
    × ((((on_delete bench (codes "ann@pi.local:2222") true done).conns ≡ stored ∷ [])
          × ((on_delete bench (codes "ann@pi.local:2222") true done).recents ≡ lists))
        ⊎ ((conn : Conn) × (conn_label conn.address ≡ codes "ann@pi.local:2222")
            × (true ≡ true)
            × ((answer : Removal) × (done ≡ some answer)
                × (answer.ok ≡ true)
                × (answer.removed ≡ true))
            × Gone bench (on_delete bench (codes "ann@pi.local:2222") true done) conn))
on_delete_lem_example = on_delete_lem bench (codes "ann@pi.local:2222") true done

abbrev used_commands : List Str
used_commands = codes "htop" ∷ (codes "vim" ∷ (codes "htop" ∷ []))

abbrev found_commands : Option (List Str)
found_commands = some (codes "hexdump" ∷ (codes "htop" ∷ []))

two_commands :
    texts (command_autocomplete (λ s. s) used_commands found_commands (codes "h"))
    ≡ codes "htop" ∷ (codes "hexdump" ∷ [])
unfolding command_autocomplete starts_with
two_commands = refl

command_autocomplete_lem_example :
    AllDistinct (texts (command_autocomplete (λ s. s) used_commands found_commands (codes "h")))
    × (In
          (codes "vim")
          (texts (command_autocomplete (λ s. s) used_commands found_commands (codes "h")))
        ↔ (In (codes "vim") (wanted (λ s. s) used_commands (codes "h"))
            ⊎ In (codes "vim") (matched found_commands (codes "h"))))
command_autocomplete_lem_example =
    command_autocomplete_lem (λ s. s) used_commands found_commands (codes "h") (codes "vim")
