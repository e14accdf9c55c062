-- ===== src/Recents/Normal.antt =====
-- `_normalizePath` gives the same name to a folder that it has named before.
use shells.Prelude.{
  ◌≡◌, ◌≢◌, refl, sym, ap, ◌∙◌, inl, inr, ℕ, Bool, true, false, ◌&&◌, ◌||◌, List, [], ◌∷◌, ◌++◌,
  arith, if◌then◌else◌, length, Str, ◌==◌, nat_eq, str_eq, All, Bool-cases, append-nil,
  append_assoc, ◌⊎◌, ltb,
}
use shells.JsMap.Laws.{beq→eq, beq_ne}
use shells.Recents.Paths.{
  slash, root, parent, onto_first, split, join, pop, is_named, step, resolve, starts_with_slash,
  ends_with_slash, resolved, normalize_path,
}

-- No character of the part is a slash.
abbrev pub IsPart : Str → Type 0
IsPart p = All (λ c. (c == slash) ≡ false) p

-- A part that stays on the stack: the name of a folder, in which no slash stands.
abbrev pub IsFolder : Str → Type 0
IsFolder p = (is_named p ≡ true) × ((p == parent) ≡ false) × IsPart p

split_part : (p : Str) → IsPart p → split p ≡ p ∷ []
unfolding split onto_first
split_part [] h = refl
split_part (c ∷ p) (e, h) = rw (e, split_part p h)

split-slash : (p s : Str) → IsPart p → split (p ++ slash ∷ s) ≡ p ∷ split s
unfolding split onto_first
split-slash [] s h = refl
split-slash (c ∷ p) s (e, h) = rw (e, split-slash p s h)

pub split-join :
    (p : Str) (ps : List Str) → IsPart p → All IsPart ps → split (join (p ∷ ps)) ≡ p ∷ ps
unfolding join
split-join p [] h hs = split_part p h
split-join p (q ∷ ps) h (k, hs) = split-slash p (join (q ∷ ps)) h ∙ ap (p ∷◌) (split-join q ps k hs)

onto_first-All :
    (c : ℕ) (ps : List Str) → (c == slash) ≡ false → All IsPart ps → All IsPart (onto_first c ps)
unfolding onto_first
onto_first-All c [] e h = ((e, tt), tt)
onto_first-All c (p ∷ ps) e (h, hs) = ((e, h), hs)

split-All : (s : Str) → All IsPart (split s)
unfolding split
split-All [] = (tt, tt)
split-All (c ∷ s) = elim (Bool-cases (c == slash)) [
  | inl e ↦ rw e (tt, split-All s)
  | inr e ↦ rw e (onto_first-All c (split s) e (split-All s))
]

pub All-append {ℓ κ} :
    {A : Type ℓ} (P : A → Type κ) (xs ys : List A) → All P xs → All P ys → All P (xs ++ ys)
All-append P [] ys h k = k
All-append P (x ∷ xs) ys (p, h) k = (p, All-append P xs ys h k)

pop-All {ℓ κ} : {A : Type ℓ} (P : A → Type κ) (xs : List A) → All P xs → All P (pop xs)
unfolding pop
pop-All P [] h = tt
pop-All P (x ∷ []) h = tt
pop-All P (x ∷ (y ∷ ys)) (p, h) = (p, pop-All P (y ∷ ys) h)

step-All : (st : List Str) (p : Str) → All IsFolder st → IsPart p → All IsFolder (step st p)
unfolding step
step-All st p h k = elim (Bool-cases (p == parent)) [
  | inl e ↦ rw e (pop-All IsFolder st h)
  | inr e ↦ elim (Bool-cases (is_named p)) [
    | inl n ↦ rw (e, n) (All-append IsFolder st (p ∷ []) h ((n, e, k), tt))
    | inr n ↦ rw (e, n) h
  ]
]

resolve-All : (st ps : List Str) → All IsFolder st → All IsPart ps → All IsFolder (resolve st ps)
unfolding resolve
resolve-All st [] h hs = h
resolve-All st (p ∷ ps) h (k, hs) = resolve-All (step st p) ps (step-All st p h k) hs

-- The folders that `_normalizePath` keeps of a path.
abbrev pub folders : Str → List Str
folders s = resolve [] (split s)

resolve-folders : (st ps : List Str) → All IsFolder ps → resolve st ps ≡ st ++ ps
unfolding resolve step
resolve-folders st [] h = sym (append-nil st)
resolve-folders st (p ∷ ps) ((n, e, k), h) =
    rw (e, n) (resolve-folders (st ++ p ∷ []) ps h ∙ append_assoc st (p ∷ []) ps)

pub All-IsPart : (ps : List Str) → All IsFolder ps → All IsPart ps
All-IsPart [] h = tt
All-IsPart (p ∷ ps) ((n, e, k), h) = (k, All-IsPart ps h)

folders-join : (ps : List Str) → All IsFolder ps → folders (join ps) ≡ ps
unfolding join split resolve step is_named
folders-join [] h = refl
folders-join (p ∷ ps) (q, h) =
    ap (resolve []) (split-join p ps q.2 (All-IsPart ps h)) ∙ resolve-folders [] (p ∷ ps) (q, h)

pub folders-All : (s : Str) → All IsFolder (folders s)
folders-All s = resolve-All [] (split s) tt (split-All s)

folders_root : (s : Str) → folders (slash ∷ s) ≡ folders s
unfolding split resolve step is_named
folders_root s = refl

starts-join : (ps : List Str) → All IsFolder ps → starts_with_slash (join ps) ≡ false
unfolding starts_with_slash join is_named
starts-join [] h = refl
starts-join ([] ∷ ps) ((n, e, k), h) = cc n
starts-join ((c ∷ p) ∷ []) ((n, e, k), h) = k.0
starts-join ((c ∷ p) ∷ (q ∷ ps)) ((n, e, k), h) = k.0

-- What `resolved` leaves, it leaves as it is.
resolved-resolved : (s : Str) → resolved (resolved s) ≡ resolved s
unfolding resolved starts_with_slash
resolved-resolved s = elim (Bool-cases (starts_with_slash s)) [
  | inl e ↦ rw e (
      ap (λ ps. root ++ join ps)
        (folders_root (join (folders s)) ∙ folders-join (folders s) (folders-All s)))
  | inr e ↦
      rw (e, starts-join (folders s) (folders-All s))
        (ap join (folders-join (folders s) (folders-All s)))
]

split-cons : (s : Str) → (p : Str) × ((ps : List Str) × (split s ≡ p ∷ ps))
unfolding split onto_first
split-cons [] = ([], ([], refl))
split-cons (c ∷ s) = elim (Bool-cases (c == slash)) [
  | inl e ↦ ([], (split s, rw e))
  | inr e ↦ (c ∷ (split-cons s).0, ((split-cons s).1.0, rw (e, (split-cons s).1.1)))
]

onto_first-append :
    (c : ℕ) (s : Str) (qs : List Str) → onto_first c (split s ++ qs) ≡ onto_first c (split s) ++ qs
unfolding onto_first
onto_first-append c s qs = rw ((split-cons s).1.1)

split-append_root : (s : Str) → split (s ++ root) ≡ split s ++ [] ∷ []
unfolding split onto_first
split-append_root [] = refl
split-append_root (c ∷ s) = elim (Bool-cases (c == slash)) [
  | inl e ↦ rw e (ap ([] ∷◌) (split-append_root s))
  | inr e ↦ rw e (ap (onto_first c) (split-append_root s) ∙ onto_first-append c s ([] ∷ []))
]

resolve-append : (st ps qs : List Str) → resolve st (ps ++ qs) ≡ resolve (resolve st ps) qs
unfolding resolve
resolve-append st [] qs = refl
resolve-append st (p ∷ ps) qs = resolve-append (step st p) ps qs

folders-append_root : (s : Str) → folders (s ++ root) ≡ folders s
unfolding resolve step is_named
folders-append_root s =
    ap (resolve []) (split-append_root s) ∙ resolve-append [] (split s) ([] ∷ [])

resolved-append_root : (s : Str) → s ≢ [] → resolved (s ++ root) ≡ resolved s
unfolding resolved starts_with_slash
resolved-append_root [] h = absurd (h refl)
resolved-append_root (c ∷ s) h =
    ap (λ ps. (if c == slash then root else []) ++ join ps) (folders-append_root (c ∷ s))

unfoldable pub or_root : Str → Str
or_root res = if res == [] then root else res

pub normalize_plain : (s : Str) → normalize_path s false ≡ or_root (resolved s)
unfolding normalize_path or_root
normalize_plain s = elim (Bool-cases (s == [])) [
  | inl e ↦ rw (beq→eq s [] e) plain_empty
  | inr e ↦ elim (Bool-cases (s == root)) [
    | inl f ↦ rw (beq→eq s root f) plain_root
    | inr f ↦ rw (e, f)
  ]
]
  where
    plain_empty : normalize_path [] false ≡ or_root (resolved [])
    plain_empty = refl

    plain_root : normalize_path root false ≡ or_root (resolved root)
    plain_root = refl

slashed : Str → Bool → Bool
slashed p keep = (keep && ends_with_slash p && ltb 1 (length p)) && ltb 1 (length (resolved p))

slashed_long : (p : Str) (keep : Bool) → slashed p keep ≡ true → ltb 1 (length (resolved p)) ≡ true
unfolding slashed
slashed_long p keep h = ground arith

-- With a slash kept at the end or without it, the name is that of the folder.
normalize_cases :
    (p : Str) (keep : Bool)
    → (normalize_path p keep ≡ or_root (resolved p))
      ⊎ ((normalize_path p keep ≡ resolved p ++ root) × (resolved p ≢ []))
unfolding normalize_path or_root slashed
normalize_cases p keep = elim (Bool-cases (p == [] || p == root)) [
  | inl e ↦ inl (rw e (rw e at (normalize_plain p)))
  | inr e ↦ elim (Bool-cases (slashed p keep)) [
    | inl t ↦ inr (rw (e, t), long (resolved p) (slashed_long p keep t))
    | inr t ↦ inl (rw (e, t))
  ]
]
  where
    long : (r : Str) → ltb 1 (length r) ≡ true → r ≢ []
    long [] h = cc h
    long (c ∷ r) h = λ e. cc e

abbrev pub folder : Str → Str
folder p = normalize_path p false

pub folder-folder : (p : Str) → folder (folder p) ≡ folder p
unfolding or_root resolved
folder-folder p = elim (Bool-cases (resolved p == [])) [
  | inl q ↦
      let at_root = normalize_plain p ∙ (rw q) in
      ap folder at_root ∙ normalize_plain root ∙ plain_root ∙ sym at_root
  | inr q ↦
      let named = normalize_plain p ∙ (rw q) in
      ap folder named
      ∙ normalize_plain (resolved p)
      ∙ ap or_root (resolved-resolved p)
      ∙ sym (normalize_plain p)
]
  where
    plain_root : or_root (resolved root) ≡ root
    plain_root = refl

-- `_normalizePath` names the folder that it has named, with a slash kept at the end or without.
pub normalize_path_again : (p : Str) (keep : Bool) → folder (normalize_path p keep) ≡ folder p
unfolding or_root
normalize_path_again p keep = elim (normalize_cases p keep) [
  | inl e ↦ ap folder (e ∙ sym (normalize_plain p)) ∙ folder-folder p
  | inr (e, ne) ↦ rw e (
      normalize_plain (resolved p ++ root)
      ∙ ap or_root (resolved-append_root (resolved p) ne ∙ resolved-resolved p)
      ∙ sym (normalize_plain p))
]

or_root_ne : (res : Str) → or_root res ≢ []
unfolding or_root
or_root_ne [] = λ e. cc e
or_root_ne (c ∷ res) = λ e. cc e

pub folder_ne : (p : Str) → folder p ≢ []
folder_ne p h = or_root_ne (resolved p) (sym (normalize_plain p) ∙ h)

-- A slash at the end does not change the folder.
pub folder-append_root : (s : Str) → s ≢ [] → folder (s ++ root) ≡ folder s
folder-append_root s ne =
    normalize_plain (s ++ root) ∙ ap or_root (resolved-append_root s ne) ∙ sym (normalize_plain s)

pub normalize_path-folder :
    (p : Str) (keep : Bool)
    → (normalize_path p keep ≡ folder p) ⊎ (normalize_path p keep ≡ folder p ++ root)
unfolding or_root
normalize_path-folder p keep = elim (normalize_cases p keep) [
  | inl e ↦ inl (e ∙ sym (normalize_plain p))
  | inr (e, ne) ↦
      inr (e ∙ ap (λ s. s ++ root) (sym (normalize_plain p ∙ (rw (beq_ne (resolved p) [] ne)))))
]
