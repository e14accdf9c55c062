-- ===== src/Recents/Examples.antt =====
-- Concrete recent lists.
use shells.Prelude.{
  ◌≡◌, ◌≢◌, refl, subst, sym, none, some, true, false, List, [], ◌∷◌, Str, codes, In, AllDistinct,
  map, inl, inr, get_elem?, nat_eq, str_eq,
}
use shells.Recents.Paths.{normalize_path, ends_with_slash}
use shells.Recents.Normal.{folder}
use shells.Recents.State.{Recents, save_recent_path}
use shells.Recents.Commands.{has_space}
use shells.Recents.Keeping.{IsRecent, itself, save_recent_path_lem}

abbrev start : Recents
start = record {
  paths = codes "/srv/" ∷ codes "/home/me/" ∷ [];
  commands = codes "vim" ∷ codes "htop" ∷ [];
  backends = [];
  ssh_paths = [];
  ssh_commands = [];
  stored = [];
  last_backend = none;
  posts = [];
}

abbrev dotted : Str
dotted = codes "/home/./you/../me"

dotted_ne : dotted ≢ []
dotted_ne e = cc e

normalized : normalize_path (codes "/home/./you/../me//") true ≡ codes "/home/me/"
unfolding normalize_path
normalized = refl

saved : (save_recent_path start dotted).paths ≡ codes "/home/me/" ∷ codes "/srv/" ∷ []
unfolding save_recent_path
saved = refl

abbrev folders : List Str
folders = codes "/srv" ∷ codes "/home/me" ∷ []

start_folders : map folder start.paths ≡ folders
unfolding normalize_path
start_folders = refl

start-AllDistinct : AllDistinct (map folder start.paths)
start-AllDistinct = subst AllDistinct (sym start_folders) (no_srv, ((λ i. i), tt))
  where
    no_srv : In (codes "/srv") (codes "/home/me" ∷ []) → ⊥
    no_srv (inl e) = cc e
    no_srv (inr i) = i

save_recent_path_lem_example :
    (s : Str) × (get_elem? (save_recent_path start dotted).paths 0 ≡ some s)
    × (folder s ≡ folder dotted)
    × (ends_with_slash s ≡ true)
    × IsRecent folder 10 (save_recent_path start dotted).paths
save_recent_path_lem_example = save_recent_path_lem start dotted dotted_ne start-AllDistinct

htop_word : has_space (codes "htop") ≡ false
unfolding has_space
htop_word = refl

commands-AllDistinct : AllDistinct (map itself start.commands)
commands-AllDistinct = (no_vim, ((λ i. i), tt))
  where
    no_vim : In (codes "vim") (codes "htop" ∷ []) → ⊥
    no_vim (inl e) = cc e
    no_vim (inr i) = i
