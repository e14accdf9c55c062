-- ===== src/Recents/Dots.antt =====
-- No path that `_normalizePath` has been through keeps `.` or `..`.
use shells.Prelude.{
  ◌≢◌, sym, inl, inr, List, [], ◌∷◌, Str, ◌==◌, nat_eq, str_eq, All, Bool-cases, subst, false,
}
use shells.Recents.Paths.{
  slash, here, parent, split, join, is_named, starts_with_slash, resolved, normalize_path,
}
use shells.Recents.Normal.{
  IsFolder, folders, split-join, All-IsPart, folders-All, or_root, normalize_plain,
}

-- Neither `.` nor `..` stands in the path.
abbrev pub NoDots : Str → Type 0
NoDots s = All (λ part. (part ≢ here) × (part ≢ parent)) (split s)

named_ne : (p : Str) → IsFolder p → (p ≢ here) × (p ≢ parent)
unfolding is_named
named_ne p (n, e, k) = (λ q. cc (n, q), λ q. cc (e, q))

folders-NoDots : (ps : List Str) → All IsFolder ps → NoDots (join ps)
unfolding split join
folders-NoDots [] h = ((λ e. cc e, λ e. cc e), tt)
folders-NoDots (p ∷ ps) (q, h) = rw (split-join p ps q.2 (All-IsPart ps h)) (all (p ∷ ps) (q, h))
  where
    all : (qs : List Str) → All IsFolder qs → All (λ part. (part ≢ here) × (part ≢ parent)) qs
    all [] h = tt
    all (q ∷ qs) (k, h) = (named_ne q k, all qs h)

root_onto-NoDots : (s : Str) → NoDots s → NoDots (slash ∷ s)
unfolding split
root_onto-NoDots s h = ((λ e. cc e, λ e. cc e), h)

resolved-NoDots : (p : Str) → NoDots (resolved p)
unfolding resolved
resolved-NoDots p = elim (Bool-cases (starts_with_slash p)) [
  | inl e ↦ rw e (root_onto-NoDots (join (folders p)) (folders-NoDots (folders p) (folders-All p)))
  | inr e ↦ rw e (folders-NoDots (folders p) (folders-All p))
]

-- Whatever the path, neither `.` nor `..` is left as a part of its normal form.
pub normalize_path-NoDots : (p : Str) → NoDots (normalize_path p false)
unfolding or_root split
normalize_path-NoDots p =
    subst NoDots (sym (normalize_plain p)) (elim (Bool-cases (resolved p == [])) [
      | inl e ↦ rw e ((λ q. cc q, λ q. cc q), ((λ q. cc q, λ q. cc q), tt))
      | inr e ↦ rw e (resolved-NoDots p)
    ])
