-- ===== src/Touch/Gesture.antt =====
-- A gesture of two fingers does at most one thing, and never switches the shell.
use shells.Prelude.{
  zero, if-cases, append_assoc, append-nil, suc, sym, ltb, ◌≡◌, refl, ap, ◌∙◌, ℕ, Bool, true, false,
  ◌||◌, not, List, [], ◌∷◌, ◌++◌, arith, if◌then◌else◌, Str, Bool-cases, inl, inr, ◌⊎◌,
}
use shells.Touch.{
  Point, Tracker, TouchEvent, touch_start, touch_move, touch_end, touch_cancel, Action, send_key,
  do_swipe2, swipe1, swipe_key, is_swipe2, on_touch_move, finish, on_touch_end, step, sum_of,
  doubled, released, tab, escape,
}

-- The actions of a sequence of events, and the tracker after it.
unfoldable pub run : Tracker → List TouchEvent → Tracker × List Action
unfolding step
run t [] = (t, [])
run t (e ∷ es) = ((run (step t e).0 es).0, (step t e).1 ++ (run (step t e).0 es).1)

-- What happens while two fingers are down: moves, and the lift of one finger while another is down.
abbrev pub IsDuring : List TouchEvent → Type 0
IsDuring [] = Unit
IsDuring (touch_move ps excluded ∷ es) = IsDuring es
IsDuring (touch_end (p ∷ []) (suc left) selecting excluded ∷ es) = IsDuring es
IsDuring (_ ∷ es) = ⊥

-- What a part of the gesture from `t` to `u` leaves to the rest, with the actions `acts`.
abbrev IsPart : Tracker → Tracker → List Action → Type 0
IsPart t u acts =
    (u.multi_touch ≡ true)
    × ((acts ≡ []) × (u.two_finger_fired ≡ t.two_finger_fired)
        ⊎ ((key : Str) × (acts ≡ send_key key ∷ [])
            × (t.two_finger_fired ≡ false)
            × (u.two_finger_fired ≡ true)))

idle-IsPart : (t : Tracker) → t.multi_touch ≡ true → IsPart t t []
idle-IsPart t m = (m, inl (refl, refl))

append-IsPart :
    (t u v : Tracker) (xs ys : List Action) → IsPart t u xs → IsPart u v ys → IsPart t v (xs ++ ys)
append-IsPart t u v xs ys (m, inl (e, f)) (n, inl (g, h)) = (n, inl (rw (e, g), h ∙ f))
append-IsPart t u v xs ys (m, inl (e, f)) (n, inr (key, g, h, k)) =
    (n, inr (key, rw (e, g), sym f ∙ h, k))
append-IsPart t u v xs ys (m, inr (key, e, f, g)) (n, inl (h, k)) =
    (n, inr (key, rw (e, h), f, k ∙ g))
append-IsPart t u v xs ys (m, inr (key, e, f, g)) (n, inr (key', h, k, l)) = absurd (cc (g, k))

do_swipe2-IsPart :
    (t : Tracker) (to : Point)
    → t.multi_touch ≡ true
    → IsPart t (do_swipe2 t to).0 (do_swipe2 t to).1
unfolding do_swipe2 swipe_key
do_swipe2-IsPart t to m = elim (Bool-cases t.two_finger_fired) [
  | inl e ↦ (ground arith, inl (ground arith, ground arith))
  | inr e ↦ elim (Bool-cases (is_swipe2 t.start2 to)) [
    | inl f ↦ (
      ground arith,
      inr (if ltb t.start2.x to.x then tab else escape, ground arith, e, ground arith),
    )
    | inr f ↦ (ground arith, inl (ground arith, ground arith))
  ]
]

on_touch_move-IsPart :
    (t : Tracker) (ps : List Point) (excluded : Bool)
    → t.multi_touch ≡ true
    → IsPart t (on_touch_move t ps excluded).0 (on_touch_move t ps excluded).1
unfolding on_touch_move
on_touch_move-IsPart t [] excluded m = idle-IsPart t m
on_touch_move-IsPart t (p ∷ []) excluded m = idle-IsPart t m
on_touch_move-IsPart t (p ∷ (q ∷ [])) excluded m =
    if-cases (λ (r : Tracker × List Action). IsPart t r.0 r.1) (not t.multi_touch || excluded)
      (t, []) (do_swipe2 t (sum_of p q)) (λ _. idle-IsPart t m)
      (λ _. do_swipe2-IsPart t (sum_of p q) m)
on_touch_move-IsPart t (p ∷ (q ∷ (r ∷ rs))) excluded m = idle-IsPart t m

partial_end-IsPart :
    (t : Tracker) (p : Point) (left : ℕ) (selecting excluded : Bool)
    → t.multi_touch ≡ true
    → IsPart t
        (on_touch_end t (p ∷ []) (suc left) selecting excluded).0
        (on_touch_end t (p ∷ []) (suc left) selecting excluded).1
unfolding on_touch_end finish
partial_end-IsPart t p left selecting excluded m =
    if-cases (λ (r : Tracker × List Action). IsPart t r.0 r.1) (selecting || excluded) (t, [])
      (finish t (p ∷ []) (suc left)) (λ _. idle-IsPart t m)
      (λ _.
        if-cases (λ (r : Tracker × List Action). IsPart t r.0 r.1) (ltb 0 (suc left)) (t, [])
          (if t.multi_touch then (released t, (do_swipe2 t (doubled p)).1) else (t, swipe1 t p))
          (λ _. idle-IsPart t m) (λ e. absurd (ground arith)))

run-IsPart :
    (t : Tracker) (es : List TouchEvent)
    → t.multi_touch ≡ true
    → IsDuring es
    → IsPart t (run t es).0 (run t es).1
unfolding run step
run-IsPart t [] m d = idle-IsPart t m
run-IsPart t (touch_move ps excluded ∷ es) m d =
    let h = on_touch_move-IsPart t ps excluded m in
    let u = (on_touch_move t ps excluded).0 in
    append-IsPart t u (run u es).0 _ (run u es).1 h (run-IsPart u es h.0 d)
run-IsPart t (touch_end (p ∷ []) (suc left) selecting excluded ∷ es) m d =
    let h = partial_end-IsPart t p left selecting excluded m in
    let u = (on_touch_end t (p ∷ []) (suc left) selecting excluded).0 in
    append-IsPart t u (run u es).0 _ (run u es).1 h (run-IsPart u es h.0 d)
run-IsPart t (touch_start ps ∷ es) m d = elim d [ ]
run-IsPart t (touch_end [] left selecting excluded ∷ es) m d = elim d [ ]
run-IsPart t (touch_end (p ∷ []) zero selecting excluded ∷ es) m d = elim d [ ]
run-IsPart t (touch_end (p ∷ (q ∷ ps)) left selecting excluded ∷ es) m d = elim d [ ]
run-IsPart t (touch_cancel ∷ es) m d = elim d [ ]

-- The last lift sends a key only where none was sent.
abbrev IsLast : Bool → List Action → Type 0
IsLast fired acts = (acts ≡ []) ⊎ ((key : Str) × (acts ≡ send_key key ∷ []) × (fired ≡ false))

part-IsLast :
    (t u : Tracker) (acts : List Action) → IsPart t u acts → IsLast t.two_finger_fired acts
part-IsLast t u acts (m, inl (e, f)) = inl e
part-IsLast t u acts (m, inr (key, e, f, g)) = inr (key, e, f)

finish-IsLast :
    (t : Tracker) (changed : List Point) (left : ℕ)
    → t.multi_touch ≡ true
    → IsLast t.two_finger_fired (finish t changed left).1
unfolding finish
finish-IsLast t [] left m = inl refl
finish-IsLast t (p ∷ []) left m =
    if-cases (λ (r : Tracker × List Action). IsLast t.two_finger_fired r.1) (ltb 0 left) (t, [])
      (if t.multi_touch then (released t, (do_swipe2 t (doubled p)).1) else (t, swipe1 t p))
      (λ _. inl refl)
      (λ _.
        if-cases (λ (r : Tracker × List Action). IsLast t.two_finger_fired r.1) t.multi_touch
          (released t, (do_swipe2 t (doubled p)).1) (t, swipe1 t p)
          (λ _.
            part-IsLast t (do_swipe2 t (doubled p)).0 (do_swipe2 t (doubled p)).1
              (do_swipe2-IsPart t (doubled p) m))
          (λ e. absurd (cc (m, e))))
finish-IsLast t (p ∷ (q ∷ [])) left m =
    if-cases (λ (r : Tracker × List Action). IsLast t.two_finger_fired r.1) t.multi_touch
      (released t, (do_swipe2 t (sum_of p q)).1) (released t, [])
      (λ _.
        part-IsLast t (do_swipe2 t (sum_of p q)).0 (do_swipe2 t (sum_of p q)).1
          (do_swipe2-IsPart t (sum_of p q) m))
      (λ e. inl refl)
finish-IsLast t (p ∷ (q ∷ (r ∷ rs))) left m = inl refl

on_touch_end-IsLast :
    (t : Tracker) (changed : List Point) (left : ℕ) (selecting excluded : Bool)
    → t.multi_touch ≡ true
    → IsLast t.two_finger_fired (on_touch_end t changed left selecting excluded).1
unfolding on_touch_end
on_touch_end-IsLast t changed left selecting excluded m =
    if-cases (λ (r : Tracker × List Action). IsLast t.two_finger_fired r.1) (selecting || excluded)
      (t, []) (finish t changed left) (λ _. inl refl) (λ _. finish-IsLast t changed left m)

join_parts :
    (t u : Tracker) (xs ys : List Action)
    → IsPart t u xs
    → IsLast u.two_finger_fired ys
    → (xs ++ ys ≡ []) ⊎ ((key : Str) × (xs ++ ys ≡ send_key key ∷ []))
join_parts t u xs ys (m, inl (e, f)) (inl g) = inl (rw (e, g))
join_parts t u xs ys (m, inl (e, f)) (inr (key, g, h)) = inr (key, rw (e, g))
join_parts t u xs ys (m, inr (key, e, f, g)) (inl h) = inr (key, rw (e, h))
join_parts t u xs ys (m, inr (key, e, f, g)) (inr (key', h, k)) = absurd (cc (g, k))

run-append :
    (t : Tracker) (xs ys : List TouchEvent)
    → (run t (xs ++ ys)).1 ≡ (run t xs).1 ++ (run (run t xs).0 ys).1
unfolding run
run-append t [] ys = refl
run-append t (x ∷ xs) ys =
    ap (λ acts. (step t x).1 ++ acts) (run-append (step t x).0 xs ys)
    ∙ sym (append_assoc (step t x).1 _ _)

-- From the moment at which two fingers are down, whatever moves and partial lifts follow, and with
-- whatever lift the gesture ends, it does nothing or sends a single key: it never switches the shell.
pub run_lem :
    (t : Tracker) (es : List TouchEvent) (changed : List Point) (left : ℕ)
    (selecting excluded : Bool)
    → t.multi_touch ≡ true
    → IsDuring es
    → ((run t (es ++ touch_end changed left selecting excluded ∷ [])).1 ≡ [])
      ⊎ ((key : Str) × ((run t (es ++ touch_end changed left selecting excluded ∷ [])).1
            ≡ send_key key ∷ []))
unfolding run step
run_lem t es changed left selecting excluded m d =
    let u = (run t es).0 in
    let last = on_touch_end u changed left selecting excluded in
    let part = run-IsPart t es m d in
    rw (run-append t es (touch_end changed left selecting excluded ∷ []), append-nil)
      (join_parts t u (run t es).1 last.1 part
        (on_touch_end-IsLast u changed left selecting excluded part.0))
