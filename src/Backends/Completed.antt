-- ===== src/Backends/Completed.antt =====
-- What the suggestions for a command are.
use shells.Prelude.{
  ◌≡◌, refl, ap, ◌⊎◌, ◌↔◌, inl, inr, Bool, true, false, ◌||◌, Option, none, some, List, [], ◌∷◌,
  ◌++◌, Str, ◌==◌, str_eq, filter, In, In-snoc, AllDistinct, AllDistinct-snoc, subst, if◌then◌else◌,
  Bool-cases, if-cases, str_eqb_iff, sym, ◌∙◌,
}
use shells.Backends.Text.{starts_with}
use shells.Dialogs.Prompt.{Suggestion}
use shells.Backends.Complete.{suggest, has_text, push_new, command_autocomplete}

abbrev pub texts : List Suggestion → List Str
texts [] = []
texts (s ∷ ss) = s.text ∷ texts ss

has_text_iff : (t : Str) (ss : List Suggestion) → (has_text t ss ≡ true) ↔ In t (texts ss)
unfolding has_text
has_text_iff t [] = ((λ e. cc), (λ i. absurd i))
has_text_iff t (s ∷ ss) = (
  λ e. elim (Bool-cases (s.text == t)) [
    | inl f ↦ inl (sym ((str_eqb_iff s.text t).0 f))
    | inr f ↦ inr ((has_text_iff t ss).0 (sym (ap (λ b. b || has_text t ss) f) ∙ e))
  ],
  λ i. back (has_text_iff t ss).1 i,
)
  where
    either : (b : Bool) → (b || true) ≡ true
    either true = refl
    either false = refl

    back :
        (In t (texts ss) → has_text t ss ≡ true)
        → In t (texts (s ∷ ss))
        → has_text t (s ∷ ss) ≡ true
    back f (inl e) = rw (has_text, (str_eqb_iff s.text t).1 (sym e)) refl
    back f (inr i) = rw (has_text, f i) (either (s.text == t))

texts-snoc :
    (ss : List Suggestion) (s : Suggestion) → texts (ss ++ s ∷ []) ≡ texts ss ++ s.text ∷ []
texts-snoc [] s = refl
texts-snoc (x ∷ ss) s = ap (x.text ∷◌) (texts-snoc ss s)

push_new-AllDistinct :
    (b : Bool) (ts : List Str) (acc : List Suggestion)
    → AllDistinct (texts acc)
    → AllDistinct (texts (push_new b ts acc))
unfolding push_new
push_new-AllDistinct b [] acc d = d
push_new-AllDistinct b (t ∷ ts) acc d =
    push_new-AllDistinct b ts (if has_text t acc then acc else acc ++ suggest b t ∷ []) (
      if-cases (λ l. AllDistinct (texts l)) (has_text t acc) acc (acc ++ suggest b t ∷ []) (λ _. d)
        (λ e.
          subst AllDistinct (sym (texts-snoc acc (suggest b t)))
            (AllDistinct-snoc (texts acc) t (λ i. true_false ((has_text_iff t acc).1 i) e) d)))
  where
    true_false : {c : Bool} → c ≡ true → c ≡ false → ⊥
    true_false p q = cc

-- One text more.
push_one-In :
    (b : Bool) (t u : Str) (acc : List Suggestion)
    → In u (texts (if has_text t acc then acc else acc ++ suggest b t ∷ []))
      ↔ (In u (texts acc) ⊎ (u ≡ t))
push_one-In b t u acc =
    if-cases (λ l. In u (texts l) ↔ (In u (texts acc) ⊎ (u ≡ t))) (has_text t acc) acc
      (acc ++ suggest b t ∷ []) (λ e. (inl, there e))
      (λ _.
        subst (λ l. In u l ↔ (In u (texts acc) ⊎ (u ≡ t))) (sym (texts-snoc acc (suggest b t)))
          (In-snoc (texts acc) t u))
  where
    there : has_text t acc ≡ true → In u (texts acc) ⊎ (u ≡ t) → In u (texts acc)
    there e (inl i) = i
    there e (inr f) = subst (λ v. In v (texts acc)) (sym f) ((has_text_iff t acc).0 e)

push_new-In :
    (b : Bool) (ts : List Str) (u : Str) (acc : List Suggestion)
    → In u (texts (push_new b ts acc)) ↔ (In u (texts acc) ⊎ In u ts)
unfolding push_new
push_new-In b [] u acc = (inl, there)
  where
    there : In u (texts acc) ⊎ In u [] → In u (texts acc)
    there (inl i) = i
    there (inr i) = absurd i
push_new-In b (t ∷ ts) u acc =
    let next = if has_text t acc then acc else acc ++ suggest b t ∷ [] in
    let (f, g) = push_new-In b ts u next in
    let (h, k) = push_one-In b t u acc in (λ i. there h (f i), λ i. g (back k i))
  where
    there :
        (In u (texts (if has_text t acc then acc else acc ++ suggest b t ∷ []))
          → In u (texts acc) ⊎ (u ≡ t))
        → In u (texts (if has_text t acc then acc else acc ++ suggest b t ∷ [])) ⊎ In u ts
        → In u (texts acc) ⊎ In u (t ∷ ts)
    there h (inr i) = inr (inr i)
    there h (inl i) = elim (h i) [ inl j ↦ inl j | inr e ↦ inr (inl e) ]

    back :
        (In u (texts acc) ⊎ (u ≡ t)
          → In u (texts (if has_text t acc then acc else acc ++ suggest b t ∷ [])))
        → In u (texts acc) ⊎ In u (t ∷ ts)
        → In u (texts (if has_text t acc then acc else acc ++ suggest b t ∷ [])) ⊎ In u ts
    back k (inl i) = inl (k (inl i))
    back k (inr (inl e)) = inl (k (inr e))
    back k (inr (inr i)) = inr i

-- What `commandAutocomplete` may suggest: the recent commands that begin with what is typed, and the matches.
abbrev pub wanted : (Str → Str) → List Str → Str → List Str
wanted lower recent val =
    if val == [] then recent else filter (λ c. starts_with (lower c) (lower val)) recent

abbrev pub matched : Option (List Str) → Str → List Str
matched none val = []
matched (some ms) val = if val == [] then [] else ms

-- From no suggestion on.
push_new-only :
    (b : Bool) (ts : List Str)
    → AllDistinct (texts (push_new b ts []))
      × ((u : Str) → In u (texts (push_new b ts [])) ↔ In u ts)
push_new-only b ts = (
  push_new-AllDistinct b ts [] tt,
  λ u. ((λ i. only ((push_new-In b ts u []).0 i)), (λ i. (push_new-In b ts u []).1 (inr i))),
)
  where
    only : {X : Type 0} → ⊥ ⊎ X → X
    only (inl e) = absurd e
    only (inr x) = x

or_empty_list : {X Y : Type 0} → X ↔ Y → X ↔ (Y ⊎ ⊥)
or_empty_list {X} {Y} (f, g) = ((λ x. inl (f x)), back)
  where
    back : Y ⊎ ⊥ → X
    back (inl y) = g y
    back (inr e) = absurd e

-- The suggestions for a command are the recent commands that begin with what is typed, all of them where nothing
-- is, and the matches of the server where something is typed; each of them once.
pub command_autocomplete_lem :
    (lower : Str → Str) (recent : List Str) (answer : Option (List Str)) (val c : Str)
    → AllDistinct (texts (command_autocomplete lower recent answer val))
      × (In c (texts (command_autocomplete lower recent answer val))
          ↔ (In c (wanted lower recent val) ⊎ In c (matched answer val)))
unfolding command_autocomplete
command_autocomplete_lem lower recent none [] c =
    let (d, i) = push_new-only true recent in (d, or_empty_list (i c))
command_autocomplete_lem lower recent (some ms) [] c =
    let (d, i) = push_new-only true recent in (d, or_empty_list (i c))
command_autocomplete_lem lower recent none (v ∷ val) c =
    let (d, i) = push_new-only true (wanted lower recent (v ∷ val)) in (d, or_empty_list (i c))
command_autocomplete_lem lower recent (some ms) (v ∷ val) c =
    let first = push_new true (wanted lower recent (v ∷ val)) [] in
    let (d, i) = push_new-only true (wanted lower recent (v ∷ val)) in
    let (f, g) = push_new-In false ms c first in
    (push_new-AllDistinct false ms first d, (λ j. either (i c).0 (f j), λ j. g (either (i c).1 j)))
  where
    either : {X Y Z : Type 0} → (X → Y) → X ⊎ Z → Y ⊎ Z
    either f (inl x) = inl (f x)
    either f (inr z) = inr z
