-- ===== src/Badges.antt =====
-- The badges of sessions and backends in public/js/shell-sessions.js. `toUpperCase` is a parameter.
use shells.Prelude.{
  ℕ, zero, suc, ◌+◌, ◌-◌, ◌*◌, ◌%◌, ◌^◌, Bool, true, false, not, ◌&&◌, ◌||◌, Option, none, some,
  List, [], ◌∷◌, ◌++◌, Str, codes, ◌==◌, str_eq, nat_eq, leb, ltb, length, filter, drop, get_last?,
  if◌then◌else◌,
}
use shells.Recents.Paths.{normalize_path, split}
use shells.Backends.Text.{ℤ, pos, negsuc, print, trim, starts_with}
use shells.Backends.Address.{port_label}
use shells.Dialogs.Select.{sub, is_empty}
pub mod Hues
pub mod Titles
mod Examples

pub record Badge : Type 0 where
  pub badge_text : Str
  pub color : Str

-- `c + x - h` on numbers that are exact.
abbrev pub minus : ℤ → ℤ → ℤ
minus (pos a) (pos b) = sub a b
minus (pos a) (negsuc b) = pos (a + b + 1)
minus (negsuc a) (pos b) = negsuc (a + b)
minus (negsuc a) (negsuc b) = sub b a

abbrev pub plus : ℕ → ℤ → ℤ
plus c (pos a) = pos (c + a)
plus c (negsuc a) = sub c (suc a)

-- The lower 32 bits of a number, and the number that they stand for.
unfoldable pub low_bits : ℤ → ℕ
low_bits (pos a) = a % 2 ^ 32
low_bits (negsuc a) = (2 ^ 32 - 1) - a % 2 ^ 32

unfoldable pub to_signed : ℕ → ℤ
to_signed m = if ltb m (2 ^ 31) then pos m else negsuc (2 ^ 32 - 1 - m)

-- `hash << 5`
unfoldable pub shift_left_5 : ℤ → ℤ
unfolding low_bits to_signed
shift_left_5 h = to_signed ((low_bits h * 32) % 2 ^ 32)

unfoldable pub hash_from : ℤ → Str → ℤ
unfolding shift_left_5
hash_from h [] = h
hash_from h (c ∷ s) = hash_from (plus c (minus (shift_left_5 h) h)) s

-- `Math.abs(x)`
abbrev pub magnitude : ℤ → ℕ
magnitude (pos a) = a
magnitude (negsuc a) = suc a

-- `_hashHue`: the remainder has the sign of the hash.
unfoldable pub hash_hue : Str → ℕ
unfolding hash_from
hash_hue s = magnitude (hash_from (pos 0) s) % 360

unfoldable pub hue_color : Str → Str
unfolding hash_hue
hue_color s = codes "hsl(" ++ (print (pos (hash_hue s)) ++ codes ", 70%, 70%)")

abbrev pub or_text : Str → Option Str → Str
or_text t none = t
or_text t (some s) = s

abbrev pub last_char : Str → Str
last_char [] = []
last_char (c ∷ []) = c ∷ []
last_char (c ∷ (d ∷ s)) = last_char (d ∷ s)

-- The first and the last character, of a name of one character twice.
unfoldable pub ends_of : Str → Str
ends_of [] = []
ends_of (c ∷ []) = c ∷ (c ∷ [])
ends_of (c ∷ (d ∷ s)) = c ∷ last_char (d ∷ s)

-- The last part of a path, `ROOT` where there is none.
unfoldable pub last_part : Str → Str
last_part p = or_text (codes "ROOT") (get_last? (filter (λ part. not (is_empty part)) (split p)))

-- `_getBadgeInfo`; a path that is missing is the empty one.
unfoldable pub get_badge_info : (Str → Str) → Str → Badge
unfolding last_part ends_of hue_color
get_badge_info upper path =
    if path == []
    then record { badge_text = codes "??"; color = codes "#888" }
    else let p = normalize_path path false in
      record {
        badge_text =
            if last_part p == codes "ROOT" then codes "RO" else upper (ends_of (last_part p));
        color = hue_color p;
      }

-- A connection as the badges take it: without a user the label says `undefined`.
pub record BadgeConn : Type 0 where
  pub user : Option Str
  pub hostname : Str
  pub host : Str
  pub port : ℤ

abbrev pub onto_head : ℕ → List Str → List Str
onto_head c [] = (c ∷ []) ∷ []
onto_head c (p ∷ ps) = (c ∷ p) ∷ ps

-- `s.split(d)` for a text `d` of one character.
unfoldable pub split_on : ℕ → Str → List Str
split_on d [] = [] ∷ []
split_on d (c ∷ s) = if c == d then [] ∷ split_on d s else onto_head c (split_on d s)

abbrev pub head_or_empty : List Str → Str
head_or_empty [] = []
head_or_empty (s ∷ ss) = s

abbrev pub is_digit : ℕ → Bool
is_digit c = leb 48 c && leb c 57

abbrev pub all_digits : Str → Bool
all_digits [] = true
all_digits (c ∷ s) = is_digit c && all_digits s

abbrev pub are_numbers : List Str → Bool
are_numbers [] = true
are_numbers (s ∷ ss) = not (is_empty s) && all_digits s && are_numbers ss

-- `/^\d+(\.\d+){3}$/.test(host)`, on the parts between the dots.
unfoldable pub is_ip : List Str → Bool
is_ip segments = length segments == 4 && are_numbers segments

unfoldable pub badge_label : BadgeConn → Str
badge_label c = or_text (codes "undefined") c.user ++ 64 ∷ (c.host ++ port_label c.port)

-- The part of a host that the badge shows: the last number of an address, else the first name.
unfoldable pub host_part : Str → Str
unfolding split_on is_ip
host_part host =
    let segments = split_on 46 host in
    if is_ip segments then or_text [] (get_last? segments) else head_or_empty segments

-- `_getBackendBadge`, of a connection that is there.
unfoldable pub get_backend_badge : (Str → Str) → BadgeConn → Badge
unfolding host_part split_on ends_of hue_color badge_label
get_backend_badge upper conn =
    let raw = if is_empty conn.hostname then conn.host else conn.hostname in
    let part = host_part (head_or_empty (split_on 58 raw)) in
    record {
      badge_text = if is_empty part then codes "??" else upper (ends_of part);
      color = hue_color (badge_label conn);
    }

abbrev pub is_letter : ℕ → Bool
is_letter c = (leb 97 c && leb c 122) || (leb 65 c && leb c 90)

-- `[a-zA-Z0-9.-]` and `[a-zA-Z0-9_.-]`
unfoldable pub is_host_char : ℕ → Bool
is_host_char c = is_letter c || is_digit c || c == 46 || c == 45

unfoldable pub is_user_char : ℕ → Bool
unfolding is_host_char
is_user_char c = is_host_char c || c == 95

unfoldable pub take_host : Str → Str
unfolding is_host_char
take_host [] = []
take_host (c ∷ s) = if is_host_char c then c ∷ take_host s else []

-- `body.match(/([a-zA-Z0-9_.-]+)@([a-zA-Z0-9.-]+)/)`; `acc` are the user's characters before the rest.
unfoldable pub match_remote : Str → Str → Option (Str × Str)
unfolding is_user_char take_host
match_remote acc [] = none
match_remote acc (c ∷ s) =
    let longer = match_remote (acc ++ (c ∷ [])) s in
    let later = match_remote [] s in
    if is_user_char c
    then longer
    else if c == 64 && not (is_empty acc) && not (is_empty (take_host s))
    then some (acc, take_host s)
    else later

unfoldable pub all_host_chars : Str → Bool
unfolding is_host_char
all_host_chars [] = true
all_host_chars (c ∷ s) = is_host_char c && all_host_chars s

unfoldable pub title_body : Str → Str
title_body title = if starts_with title (codes "ssh: ") then drop 5 title else title

unfoldable pub badge_of_match : (Str → Str) → Str → Option (Str × Str) → Option Badge
unfolding get_backend_badge all_host_chars
badge_of_match upper body (some (user, host)) = some (
    get_backend_badge upper
      (record { user = some user; hostname = []; host = host; port = pos 22 }))
badge_of_match upper body none =
    let host = trim body in
    if not (is_empty host) && all_host_chars host
    then some (
        get_backend_badge upper (record { user = none; hostname = []; host = host; port = pos 22 }))
    else none

-- `_getRemoteBadgeFromTitle`
unfoldable pub get_remote_badge_from_title : (Str → Str) → Str → Option Badge
unfolding badge_of_match title_body match_remote
get_remote_badge_from_title upper title =
    if title == []
    then none
    else badge_of_match upper (title_body title) (match_remote [] (title_body title))
