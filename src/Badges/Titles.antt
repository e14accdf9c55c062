-- ===== src/Badges/Titles.antt =====
-- The titles that the server gives to remote sessions lead back to their connection.
use shells.Prelude.{
  ℕ, ◌≡◌, refl, ap, sym, ◌∙◌, true, false, Option, none, some, [], ◌∷◌, ◌++◌, Str, codes, nat_eq,
  All, append_assoc, append-nil, arith,
}
use shells.Recents.Commands.{is_space}
use shells.Backends.Text.{pos, starts_with}
use shells.Backends.Labels.{trim-clean, Ends}
use shells.Dialogs.Select.{is_empty}
use shells.Badges.{
  get_backend_badge, is_host_char, is_user_char, take_host, match_remote, all_host_chars,
  title_body, badge_of_match, get_remote_badge_from_title,
}

abbrev pub IsHostText : Str → Type 0
IsHostText s = All (λ c. is_host_char c ≡ true) s

abbrev pub IsUserText : Str → Type 0
IsUserText s = All (λ c. is_user_char c ≡ true) s

host-user : (c : ℕ) → is_host_char c ≡ true → is_user_char c ≡ true
unfolding is_user_char
host-user c h = rw h refl

at_sign-user : is_user_char 64 ≡ false
unfolding is_user_char is_host_char
at_sign-user = refl

host-space : (c : ℕ) → is_host_char c ≡ true → is_space c ≡ false
unfolding is_host_char is_space
host-space c h = ground arith

take_host-all : (s : Str) → IsHostText s → take_host s ≡ s
unfolding take_host
take_host-all [] h = refl
take_host-all (c ∷ s) (e, h) = rw e (ap (c ∷◌) (take_host-all s h))

match-run :
    (acc user rest : Str)
    → IsUserText user
    → match_remote acc (user ++ rest) ≡ match_remote (acc ++ user) rest
unfolding match_remote
match-run acc [] rest h = ap (λ a. match_remote a rest) (sym (append-nil acc))
match-run acc (c ∷ user) rest (e, h) = rw e (
    match-run (acc ++ (c ∷ [])) user rest h
    ∙ ap (λ a. match_remote a rest) (append_assoc acc (c ∷ []) user))

match-found :
    (u : ℕ) (user : Str) (h : ℕ) (host : Str)
    → IsUserText (u ∷ user)
    → IsHostText (h ∷ host)
    → match_remote [] ((u ∷ user) ++ 64 ∷ (h ∷ host)) ≡ some (u ∷ user, h ∷ host)
unfolding match_remote
match-found u user h host p q =
    match-run [] (u ∷ user) (64 ∷ (h ∷ host)) p ∙ found (take_host-all (h ∷ host) q)
  where
    found :
        take_host (h ∷ host) ≡ h ∷ host
        → match_remote (u ∷ user) (64 ∷ (h ∷ host)) ≡ some (u ∷ user, h ∷ host)
    found e = rw (match_remote, at_sign-user, e) refl

host-IsUserText : (s : Str) → IsHostText s → IsUserText s
host-IsUserText [] h = tt
host-IsUserText (c ∷ s) (e, h) = (host-user c e, host-IsUserText s h)

match-none : (host : Str) → IsHostText host → match_remote [] host ≡ none
unfolding match_remote
match-none host h =
    ap (match_remote []) (sym (append-nil host)) ∙ match-run [] host [] (host-IsUserText host h)

all_host_chars-IsHostText : (s : Str) → IsHostText s → all_host_chars s ≡ true
unfolding all_host_chars
all_host_chars-IsHostText [] h = refl
all_host_chars-IsHostText (c ∷ s) (e, h) = rw e (all_host_chars-IsHostText s h)

host-Ends : (c : ℕ) (s : Str) → IsHostText (c ∷ s) → Ends (c ∷ s)
host-Ends c [] (e, h) = host-space c e
host-Ends c (d ∷ s) (e, h) = host-Ends d s h

title_body-prefix : (t : Str) → title_body (codes "ssh: " ++ t) ≡ t
unfolding title_body starts_with
title_body-prefix t = refl

-- `ssh: user@host`, or `ssh: host`.
abbrev pub remote_title : Option Str → Str → Str
remote_title none host = codes "ssh: " ++ host
remote_title (some user) host = codes "ssh: " ++ (user ++ 64 ∷ host)

abbrev pub IsUser : Option Str → Type 0
IsUser none = Unit
IsUser (some user) = (is_empty user ≡ false) × IsUserText user

badge-title :
    (upper : Str → Str) (t : Str)
    → get_remote_badge_from_title upper (codes "ssh: " ++ t)
      ≡ badge_of_match upper t (match_remote [] t)
unfolding get_remote_badge_from_title
badge-title upper t = ap (λ b. badge_of_match upper b (match_remote [] b)) (title_body-prefix t)

-- The badge that is made of a title of the server is that of the connection with the title's user and host
-- and the port 22, of a title without a user that of the connection without one.
pub get_remote_badge_from_title_lem :
    (upper : Str → Str) (user : Option Str) (host : Str)
    → IsUser user
    → is_empty host ≡ false
    → IsHostText host
    → get_remote_badge_from_title upper (remote_title user host)
      ≡ some (
          get_backend_badge upper
            (record { user = user; hostname = []; host = host; port = pos 22 }))
unfolding badge_of_match
get_remote_badge_from_title_lem upper user [] p e q = cc
get_remote_badge_from_title_lem upper none (h ∷ host) p e q =
    badge-title upper (h ∷ host)
    ∙ ap (badge_of_match upper (h ∷ host)) (match-none (h ∷ host) q)
    ∙ rw
        (
          trim-clean h host (host-space h q.0) (host-Ends h host q),
          all_host_chars-IsHostText (h ∷ host) q,
        )
        refl
get_remote_badge_from_title_lem upper (some []) (h ∷ host) p e q = cc
get_remote_badge_from_title_lem upper (some (u ∷ user)) (h ∷ host) p e q =
    badge-title upper ((u ∷ user) ++ 64 ∷ (h ∷ host))
    ∙ ap (badge_of_match upper ((u ∷ user) ++ 64 ∷ (h ∷ host))) (match-found u user h host p.1 q)
