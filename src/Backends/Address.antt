-- ===== src/Backends/Address.antt =====
-- `_parseSSHInput` and `_connLabel` of `public/js/shell/backends.js`.
use shells.Prelude.{
  ℕ, zero, Bool, false, ◌||◌, Option, none, some, [], ◌∷◌, ◌++◌, Str, ◌==◌, str_eq, nat_eq,
  if◌then◌else◌,
}
use shells.Backends.Text.{ℤ, pos, negsuc, trim, split_last, parse_int, print}

abbrev pub at_sign : ℕ
at_sign = 64

abbrev pub colon : ℕ
colon = 58

pub record Address : Type 0 where
  pub user : Str
  pub host : Str
  pub port : ℤ

-- `parseInt(…) || 22`
unfoldable pub or_default : Option ℤ → ℤ
or_default none = pos 22
or_default (some (pos zero)) = pos 22
or_default (some p) = p

-- The host and the port of what stands behind the last `@`.
unfoldable pub host_port : Str → Option (Str × Str) → Str × ℤ
unfolding or_default parse_int
host_port s none = (s, pos 22)
host_port s (some (host, port)) = (host, or_default (parse_int port))

unfoldable pub address_of : Option (Str × Str) → Option Address
unfolding host_port split_last
address_of none = none
address_of (some (user, rest)) =
    let hp = host_port rest (split_last colon rest) in
    if user == [] || hp.0 == []
    then none
    else some (record { user = user; host = hp.0; port = hp.1 })

-- The empty text has no `@`.
unfoldable pub parse_ssh_input : Str → Option Address
unfolding address_of trim split_last
parse_ssh_input input = address_of (split_last at_sign (trim input))

unfoldable pub is_default : ℤ → Bool
is_default (pos n) = n == 22
is_default (negsuc n) = false

unfoldable pub port_label : ℤ → Str
unfolding is_default print
port_label p = if is_default p then [] else colon ∷ print p

unfoldable pub conn_label : Address → Str
unfolding port_label
conn_label c = c.user ++ at_sign ∷ (c.host ++ port_label c.port)
