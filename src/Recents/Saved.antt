-- ===== src/Recents/Saved.antt =====
-- What `_saveRecentPath` saves, and what it takes for the same folder.
use shells.Prelude.{
  ◌≡◌, ◌≢◌, refl, ap, ◌∙◌, inl, inr, ◌⊎◌, Bool, true, not, some, [], ◌∷◌, ◌++◌, get_last?, Str,
  ◌==◌, nat_eq, str_eq, Bool-cases, ◌&&◌, arith,
}
use shells.JsMap.Laws.{beq_refl}
use shells.Recents.Paths.{root, pop, ends_with_slash, normalize_path}
use shells.Recents.Normal.{
  folder, folder_ne, folder-folder, folder-append_root, normalize_path-folder,
}
use shells.Recents.State.{saved_path, is_other}

get_last?-append_root : (s : Str) → get_last? (s ++ root) ≡ some 47
get_last?-append_root [] = refl
get_last?-append_root (c ∷ []) = refl
get_last?-append_root (c ∷ (d ∷ s)) = get_last?-append_root (d ∷ s)

ends-append_root : (s : Str) → ends_with_slash (s ++ root) ≡ true
unfolding ends_with_slash
ends-append_root s = rw (get_last?-append_root s)

pop-append_root : (s : Str) → pop (s ++ root) ≡ s
unfolding pop
pop-append_root [] = refl
pop-append_root (c ∷ []) = refl
pop-append_root (c ∷ (d ∷ s)) = ap (c ∷◌) (pop-append_root (d ∷ s))

-- The saved path is the folder's normal form, with a slash at its end.
saved_path_cases :
    (p : Str)
    → ((saved_path p ≡ folder p) × (ends_with_slash (saved_path p) ≡ true))
      ⊎ (saved_path p ≡ folder p ++ root)
unfolding saved_path
saved_path_cases p = elim (Bool-cases (ends_with_slash (normalize_path p true))) [
  | inl e ↦ elim (normalize_path-folder p true) [ inl q ↦ inl (rw e (q, e)) | inr q ↦ inr (rw e q) ]
  | inr e ↦ elim (normalize_path-folder p true) [
    | inl q ↦ inr (rw e (ap (λ s. s ++ root) q))
    | inr q ↦ absurd (cc (e, ap ends_with_slash q, ends-append_root (folder p)))
  ]
]

pub ends-saved_path : (p : Str) → ends_with_slash (saved_path p) ≡ true
ends-saved_path p = elim (saved_path_cases p) [
  | inl (q, e) ↦ e
  | inr q ↦ ap ends_with_slash q ∙ ends-append_root (folder p)
]

pub folder-saved_path : (p : Str) → folder (saved_path p) ≡ folder p
folder-saved_path p = elim (saved_path_cases p) [
  | inl (q, e) ↦ ap folder q ∙ folder-folder p
  | inr q ↦ ap folder q ∙ folder-append_root (folder p) (folder_ne p) ∙ folder-folder p
]

-- An entry that the filter keeps names another folder than the saved one.
pub is_other_ne :
    (p rp : Str) → is_other (saved_path p) rp ≡ true → folder rp ≢ folder (saved_path p)
unfolding is_other
is_other_ne p rp h e = elim (saved_path_cases p) [
  | inl (q, k) ↦ first (folder rp == saved_path p) _ (same (saved_path p) q) h
  | inr q ↦
      second _ (folder rp == pop (saved_path p))
        (same (pop (saved_path p)) (ap pop q ∙ pop-append_root (folder p))) h
]
  where
    same : (s : Str) → s ≡ folder p → (folder rp == s) ≡ true
    same s q = rw (q, e, folder-saved_path p) (beq_refl (folder p))

    first : (a b : Bool) → a ≡ true → (not a && not b) ≡ true → ⊥
    first a b ea h = ground arith

    second : (a b : Bool) → b ≡ true → (not a && not b) ≡ true → ⊥
    second a b ea h = ground arith
