-- ===== src/Backends/Labels.antt =====
-- The label of a connection is an address that reads back as the connection, unless its host has a colon.
use shells.Prelude.{
  ℕ, zero, suc, ◌<◌, ◌≡◌, ◌≢◌, refl, sym, ap, ◌∙◌, Bool, true, false, ◌||◌, Option, none, some, [],
  ◌∷◌, ◌++◌, Str, ◌==◌, nat_eq, str_eq, if◌then◌else◌, All, arith, Bool-cases, inl, inr, subst,
  append-nil, length, length-append,
}
use shells.Recents.Commands.{is_space}
use shells.Connection.Handshake.{all_space}
use shells.Backends.Text.{
  ℤ, pos, negsuc, trim_start, trim_end, trim, split_more, split_last, parse_int, print,
}
use shells.Backends.Address.{
  Address, at_sign, colon, or_default, host_port, address_of, parse_ssh_input, is_default,
  port_label, conn_label,
}
use shells.Backends.Printed.{parse_int-print, print-shape, IsOfNumber}

-- A text without the character.
abbrev pub Lacks : ℕ → Str → Type 0
Lacks c [] = Unit
Lacks c (d ∷ s) = ((d == c) ≡ false) × Lacks c s

split_last-Lacks : (c : ℕ) (t : Str) → Lacks c t → split_last c t ≡ none
unfolding split_last split_more
split_last-Lacks c [] h = refl
split_last-Lacks c (d ∷ t) (n, h) = rw (split_last-Lacks c t h, n) refl

split_last-found : (c : ℕ) (u t : Str) → Lacks c t → split_last c (u ++ c ∷ t) ≡ some (u, t)
unfolding split_last split_more
split_last-found c [] t h = rw (split_last-Lacks c t h) (ground arith)
split_last-found c (d ∷ u) t h = rw (split_last-found c u t h) refl

Lacks-append : (c : ℕ) (s t : Str) → Lacks c s → Lacks c t → Lacks c (s ++ t)
Lacks-append c [] t g h = h
Lacks-append c (d ∷ s) t (n, g) h = (n, Lacks-append c s t g h)

Lacks-number : (c : ℕ) (s : Str) → 57 < c → All IsOfNumber s → Lacks c s
Lacks-number c [] k h = tt
Lacks-number c (d ∷ s) k ((a, b), h) = (ground arith, Lacks-number c s k h)

-- The first character is not white space, and neither is the last.
abbrev pub Starts : Str → Type 0
Starts [] = ⊥
Starts (c ∷ s) = is_space c ≡ false

abbrev pub Ends : Str → Type 0
Ends [] = ⊥
Ends (c ∷ []) = is_space c ≡ false
Ends (c ∷ (d ∷ s)) = Ends (d ∷ s)

Ends-append : (s t : Str) → Ends t → Ends (s ++ t)
Ends-append [] t h = h
Ends-append (c ∷ []) [] h = absurd h
Ends-append (c ∷ []) (d ∷ t) h = h
Ends-append (c ∷ (d ∷ s)) t h = Ends-append (d ∷ s) t h

Ends-number : (c : ℕ) (s : Str) → All IsOfNumber (c ∷ s) → Ends (c ∷ s)
unfolding is_space
Ends-number c [] ((a, b), h) = ground arith
Ends-number c (d ∷ s) (a, h) = Ends-number d s h

all_space-Ends : (s : Str) → Ends s → all_space s ≡ false
unfolding all_space
all_space-Ends [] h = absurd h
all_space-Ends (c ∷ []) h = rw h refl
all_space-Ends (c ∷ (d ∷ s)) h = ground (arith, all_space-Ends (d ∷ s) h)

trim_end-Ends : (s : Str) → Ends s → trim_end s ≡ s
unfolding trim_end
trim_end-Ends [] h = absurd h
trim_end-Ends (c ∷ []) h = rw (all_space-Ends (c ∷ []) h) refl
trim_end-Ends (c ∷ (d ∷ s)) h =
    rw (all_space-Ends (c ∷ (d ∷ s)) h) (ap (c ∷◌) (trim_end-Ends (d ∷ s) h))

pub trim-clean : (c : ℕ) (s : Str) → is_space c ≡ false → Ends (c ∷ s) → trim (c ∷ s) ≡ c ∷ s
unfolding trim trim_start
trim-clean c s h k = rw h (trim_end-Ends (c ∷ s) k)

-- What a label splits into at its last `@`, where the user does not start with white space.
parse-label :
    (user rest : Str)
    → Starts user
    → Ends rest
    → Lacks at_sign rest
    → parse_ssh_input (user ++ at_sign ∷ rest) ≡ address_of (some (user, rest))
unfolding parse_ssh_input
parse-label [] rest h k l = absurd h
parse-label (c ∷ user) rest h k l =
    ap (λ s. address_of (split_last at_sign s))
      (trim-clean c (user ++ at_sign ∷ rest) h
        (Ends-append (c ∷ user) (at_sign ∷ rest) (ends_more rest k)))
    ∙ ap address_of (split_last-found at_sign (c ∷ user) rest l)
  where
    ends_more : (s : Str) → Ends s → Ends (at_sign ∷ s)
    ends_more [] e = absurd e
    ends_more (d ∷ s) e = e

or_default-print : (p : ℤ) → p ≢ pos 0 → or_default (some p) ≡ p
unfolding or_default
or_default-print (pos zero) h = absurd (h refl)
or_default-print (pos (suc n)) h = refl
or_default-print (negsuc n) h = refl

port_label-default : (p : ℤ) → is_default p ≡ true → p ≡ pos 22
unfolding is_default
port_label-default (pos n) h = ap pos (ground arith)
port_label-default (negsuc n) h = absurd (ground arith)

-- What is behind the `@` of a label reads back as the host and the port.
host_port-label :
    (host : Str) (p : ℤ)
    → Lacks colon host
    → p ≢ pos 0
    → host_port (host ++ port_label p) (split_last colon (host ++ port_label p)) ≡ (host, p)
unfolding host_port port_label
host_port-label host p l n = elim (Bool-cases (is_default p)) [
  | inl e ↦
      rw (e, append-nil host, split_last-Lacks colon host l)
        (ap (λ q. (host, q)) (sym (port_label-default p e)))
  | inr e ↦
      let (d, s, shape, numeric) = print-shape p in
      let number =
        split_last-found colon host (print p)
          (subst (Lacks colon) (sym shape) (Lacks-number colon (d ∷ s) (omega arith) numeric)) in
      rw (e, number, parse_int-print p) (ap (λ q. (host, q)) (or_default-print p n))
]

Ends-label : (host : Str) (p : ℤ) → Ends host → Ends (host ++ port_label p)
unfolding port_label
Ends-label host p h = elim (Bool-cases (is_default p)) [
  | inl e ↦ rw (e, append-nil host) h
  | inr e ↦
      let (d, s, shape, numeric) = print-shape p in
      rw (e, shape) (Ends-append host (colon ∷ (d ∷ s)) (Ends-number d s numeric))
]

Lacks-label : (host : Str) (p : ℤ) → Lacks at_sign host → Lacks at_sign (host ++ port_label p)
unfolding port_label
Lacks-label host p h = elim (Bool-cases (is_default p)) [
  | inl e ↦ rw (e, append-nil host) h
  | inr e ↦
      let (d, s, shape, numeric) = print-shape p in
      rw (e, shape)
        (Lacks-append at_sign host (colon ∷ (d ∷ s)) h
          (refl, Lacks-number at_sign (d ∷ s) (omega arith) numeric))
]

not_empty : (s : Str) → Starts s → (s == []) ≡ false
not_empty [] h = absurd h
not_empty (c ∷ s) h = refl

not_empty_end : (s : Str) → Ends s → (s == []) ≡ false
not_empty_end [] h = absurd h
not_empty_end (c ∷ s) h = refl

-- The label of a connection reads back as its user, host and port: where the user does not start with
-- white space, the host does not end with it and has neither `@` nor a colon, neither is empty, and
-- the port is not zero.
pub parse-conn_label :
    (c : Address)
    → Starts c.user
    → Ends c.host
    → Lacks at_sign c.host
    → Lacks colon c.host
    → c.port ≢ pos 0
    → parse_ssh_input (conn_label c) ≡ some c
unfolding conn_label address_of
parse-conn_label c starts ends no_at no_colon n =
    parse-label c.user (c.host ++ port_label c.port) starts (Ends-label c.host c.port ends)
      (Lacks-label c.host c.port no_at)
    ∙ rw
        (
          host_port-label c.host c.port no_colon n,
          not_empty c.user starts,
          not_empty_end c.host ends,
        )
        refl

shorter : (h t : Str) → h ≢ h ++ colon ∷ t
shorter h t e = omega (arith, ap length e, length-append h (colon ∷ t))

-- An address that is read has the host it is read with.
host_read :
    (b : Bool) (user full host : Str) (p : ℤ)
    → if◌then◌else◌ {A = Option Address} b none
        (some (record { user = user; host = host; port = p }))
      ≡ some (record { user = user; host = full; port = pos 22 })
    → host ≡ full
host_read true user full host p e = cc
host_read false user full host p e = ap (host_of host) e
  where
    host_of : Str → Option Address → Str
    host_of h none = h
    host_of h (some a) = a.host

-- The label of a connection to the default port of a host with a colon, such as an IPv6 address, does
-- not read back as the connection: the text behind the last colon is taken for a port.
pub parse-conn_label-colon :
    (user host rest : Str)
    → Starts user
    → Ends (host ++ colon ∷ rest)
    → Lacks at_sign (host ++ colon ∷ rest)
    → Lacks colon rest
    → parse_ssh_input
        (conn_label (record { user = user; host = host ++ colon ∷ rest; port = pos 22 }))
      ≢ some (record { user = user; host = host ++ colon ∷ rest; port = pos 22 })
unfolding conn_label port_label is_default address_of host_port
parse-conn_label-colon user host rest starts ends no_at no_colon e =
    let found = split_last-found colon host rest no_colon in
    let same = append-nil (host ++ colon ∷ rest) in
    let read = parse-label user (host ++ colon ∷ rest) starts ends no_at in
    shorter host rest (
      host_read (user == [] || host == []) user (host ++ colon ∷ rest) host
        (or_default (parse_int rest))
        (sym (ap (host_port_read user) found)
          ∙ (sym read ∙ (ap (λ s. parse_ssh_input (user ++ at_sign ∷ s)) (sym same) ∙ e))))
  where
    host_port_read : Str → Option (Str × Str) → Option Address
    host_port_read u split =
        let hp = host_port (host ++ colon ∷ rest) split in
        if u == [] || hp.0 == [] then none else some (record { user = u; host = hp.0; port = hp.1 })
