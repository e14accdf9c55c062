-- ===== src/Recents/Paths.antt =====
-- `_normalizePath` of `public/js/shell/recents.js`, on strings of UTF-16 code units.
use shells.Prelude.{
  ℕ, Bool, false, ◌&&◌, ◌||◌, not, some, List, [], ◌∷◌, ◌++◌, ltb, if◌then◌else◌, length, get_last?,
  Str, ◌==◌, nat_eq, str_eq, opt_eqb,
}

abbrev pub slash : ℕ
slash = 47

abbrev pub root : Str
root = slash ∷ []

-- The folders `.` and `..`.
abbrev pub here : Str
here = 46 ∷ []

abbrev pub parent : Str
parent = 46 ∷ 46 ∷ []

-- A character in front of the parts of a split string.
unfoldable pub onto_first : ℕ → List Str → List Str
onto_first c [] = (c ∷ []) ∷ []
onto_first c (p ∷ ps) = (c ∷ p) ∷ ps

-- `s.split('/')`
unfoldable pub split : Str → List Str
unfolding onto_first
split [] = [] ∷ []
split (c ∷ s) = if c == slash then [] ∷ split s else onto_first c (split s)

-- `parts.join('/')`
unfoldable pub join : List Str → Str
join [] = []
join (p ∷ []) = p
join (p ∷ (q ∷ ps)) = p ++ slash ∷ join (q ∷ ps)

-- `stack.pop()`, which does nothing to an empty array.
unfoldable pub pop {ℓ} : {A : Type ℓ} → List A → List A
pop [] = []
pop (x ∷ []) = []
pop (x ∷ (y ∷ ys)) = x ∷ pop (y ∷ ys)

-- The test of the loop: a part that names a folder of its own.
unfoldable pub is_named : Str → Bool
is_named part = not (part == here) && not (part == [])

unfoldable pub step : List Str → Str → List Str
unfolding pop is_named
step stack part =
    if part == parent then pop stack else if is_named part then stack ++ part ∷ [] else stack

unfoldable pub resolve : List Str → List Str → List Str
unfolding step
resolve stack [] = stack
resolve stack (part ∷ parts) = resolve (step stack part) parts

unfoldable pub starts_with_slash : Str → Bool
starts_with_slash [] = false
starts_with_slash (c ∷ s) = c == slash

unfoldable pub ends_with_slash : Str → Bool
ends_with_slash s = opt_eqb (get_last? s) (some slash)

-- `res` of `_normalizePath`.
unfoldable pub resolved : Str → Str
unfolding starts_with_slash resolve split join
resolved path = (if starts_with_slash path then root else []) ++ join (resolve [] (split path))

-- A null path is the empty one here: both are `/`.
unfoldable pub normalize_path : Str → Bool → Str
unfolding resolved ends_with_slash
normalize_path path keep =
    let had_trailing = keep && ends_with_slash path && ltb 1 (length path) in
    let res = resolved path in
    if path == [] || path == root
    then root
    else if had_trailing && ltb 1 (length res)
    then res ++ root
    else if res == []
    then root
    else res
