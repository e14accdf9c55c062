-- ===== src/Dialogs/Cards.antt =====
-- The arrow keys on the cards of a `select`.
use shells.Prelude.{
  ℕ, zero, suc, ◌+◌, ◌-◌, ◌%◌, ◌≤◌, ◌<◌, ◌≡◌, refl, ap, ◌∙◌, ◌⊎◌, true, false, length, arith,
}
use native.Mathlib.Nat.{mod-eq_of_lt, mod-eq-sub-mod, add-mod_right, mod-mod, mod_self}
use native.Mathlib.Decide.{dec_lt}
use shells.Backends.Text.{ℤ, pos, negsuc}
use shells.Dialogs.Keys.{
  KeyName, enter, space_key, escape_key, left, right, up, down, tab, other, KeyDown, esc_handler,
  is_escape, is_enter_or_space, is_editable_target,
}
use shells.Dialogs.Dispatched.{dispatch-first, esc_handler-other}
use shells.Dialogs.Select.{
  Select, wrap, sub, is_empty, set_active_card, column_count, move, select_key_handler,
  select_press, close_select,
}

wrap-pos : (x n : ℕ) → wrap (pos x) n ≡ x % n
unfolding wrap
wrap-pos x n = add-mod_right (x % n) n ∙ mod-mod x n

mod-once : {x n : ℕ} → n ≤ x → x < n + n → x % n ≡ x - n
mod-once {x} {n} h l = mod-eq-sub-mod h ∙ mod-eq_of_lt (omega arith)

sub-pos : (a b : ℕ) → b ≤ a → sub a b ≡ pos (a - b)
unfolding sub
sub-pos a zero h = ap pos (omega arith)
sub-pos zero (suc b) h = absurd (omega arith)
sub-pos (suc a) (suc b) h = sub-pos a b (omega arith) ∙ ap pos (omega arith)

sub-neg : (a b : ℕ) → a < b → sub a b ≡ negsuc (b - a - 1)
unfolding sub
sub-neg a zero h = absurd (omega arith)
sub-neg zero (suc b) h = ap negsuc (omega arith)
sub-neg (suc a) (suc b) h = sub-neg a b (omega arith) ∙ ap negsuc (omega arith)

wrap-neg : (n a m : ℕ) → a < n → suc m + a ≡ n → wrap (negsuc m) n ≡ a
unfolding wrap
wrap-neg n zero m h e =
    ap (λ k. (n - k % n) % n) {y = n} (omega arith)
    ∙ ap (λ k. (n - k) % n) (mod_self n)
    ∙ ap (λ k. k % n) {y = n} (omega arith)
    ∙ mod_self n
wrap-neg n (suc a) m h e =
    rw (mod-eq_of_lt {n = suc m} {m = n} (omega arith))
      (ap (λ x. x % n) (omega arith) ∙ mod-eq_of_lt h)

-- `c` on and `c` back.
wrap-back : (n a c : ℕ) → a < n → c ≤ n → wrap (sub ((a + c) % n) c) n ≡ a
wrap-back n a c h k = elim (dec_lt (a + c) n) [
  | yes l ↦
      rw (mod-eq_of_lt l, sub-pos (a + c) c (omega arith))
        (wrap-pos (a + c - c) n ∙ ap (λ x. x % n) (omega arith) ∙ mod-eq_of_lt h)
  | no l ↦
      rw
        (
          mod-once {x = a + c} {n = n} (omega arith) (omega arith),
          sub-neg (a + c - n) c (omega arith),
        )
        (wrap-neg n a (c - (a + c - n) - 1) h (omega arith))
]

-- `c` back and `c` on.
wrap-forth : (n a c : ℕ) → a < n → c ≤ n → (wrap (sub a c) n + c) % n ≡ a
wrap-forth n a c h k = elim (dec_lt a c) [
  | no l ↦
      rw
        (
          sub-pos a c (omega arith),
          wrap-pos (a - c) n,
          mod-eq_of_lt {n = a - c} {m = n} (omega arith),
        )
        (ap (λ x. x % n) (omega arith) ∙ mod-eq_of_lt h)
  | yes l ↦
      rw (sub-neg a c l, wrap-neg n (n - (c - a)) (c - a - 1) (omega arith) (omega arith))
        (mod-once {x = n - (c - a) + c} {n = n} (omega arith) (omega arith) ∙ omega arith)
]

column_count-le : (s : Select) → (column_count s ≡ 1) ⊎ (column_count s ≡ 2)
unfolding column_count
column_count-le s = ground arith

-- The arrow that goes the other way.
abbrev pub IsOpposite : KeyName → KeyName → Type 0
IsOpposite left k = k ≡ right
IsOpposite right k = k ≡ left
IsOpposite up k = k ≡ down
IsOpposite down k = k ≡ up
IsOpposite _ k = ⊥

set_active_card-full :
    (i : ℤ) (s : Select)
    → is_empty s.filtered ≡ false
    → set_active_card i s ≡ record s { active_idx = wrap i (length s.filtered) }
unfolding set_active_card
set_active_card-full i s e = rw e refl

-- The state in which the `i`-th card is active.
abbrev at_card : Select → ℕ → Select
at_card s i = record s { active_idx = i }

module _ (s : Select) (c : ℕ) (e : is_empty s.filtered ≡ false)
    (h : s.active_idx < length s.filtered) (k : c ≤ length s.filtered) where
  forward-back :
      set_active_card
        (sub (wrap (pos (s.active_idx + c)) (length s.filtered)) c)
        (at_card s (wrap (pos (s.active_idx + c)) (length s.filtered)))
      ≡ s
  forward-back =
      set_active_card-full (sub (wrap (pos (s.active_idx + c)) (length s.filtered)) c)
        (at_card s (wrap (pos (s.active_idx + c)) (length s.filtered))) e
      ∙ ap (at_card s) (
          ap (λ x. wrap (sub x c) (length s.filtered))
            (wrap-pos (s.active_idx + c) (length s.filtered))
          ∙ wrap-back (length s.filtered) s.active_idx c h k)

  back-forward :
      set_active_card
        (pos (wrap (sub s.active_idx c) (length s.filtered) + c))
        (at_card s (wrap (sub s.active_idx c) (length s.filtered)))
      ≡ s
  back-forward =
      set_active_card-full (pos (wrap (sub s.active_idx c) (length s.filtered) + c))
        (at_card s (wrap (sub s.active_idx c) (length s.filtered))) e
      ∙ ap (at_card s) (
          wrap-pos (wrap (sub s.active_idx c) (length s.filtered) + c) (length s.filtered)
          ∙ wrap-forth (length s.filtered) s.active_idx c h k)

move-back :
    (k k' : KeyName) (s : Select)
    → is_empty s.filtered ≡ false
    → s.active_idx < length s.filtered
    → column_count s ≤ length s.filtered
    → IsOpposite k k'
    → move k' (move k s) ≡ s
unfolding move column_count
move-back right k' s e h c o =
    rw (o, set_active_card-full (pos (s.active_idx + 1)) s e)
      (forward-back s 1 e h (omega (arith, h)))
move-back left k' s e h c o =
    rw (o, set_active_card-full (sub s.active_idx 1) s e) (back-forward s 1 e h (omega (arith, h)))
move-back down k' s e h c o =
    rw (o, set_active_card-full (pos (s.active_idx + column_count s)) s e)
      (forward-back s (column_count s) e h c)
move-back up k' s e h c o =
    rw (o, set_active_card-full (sub s.active_idx (column_count s)) s e)
      (back-forward s (column_count s) e h c)
move-back enter k' s e h c o = absurd o
move-back space_key k' s e h c o = absurd o
move-back escape_key k' s e h c o = absurd o
move-back tab k' s e h c o = absurd o
move-back other k' s e h c o = absurd o

IsOpposite-plain :
    (k k' : KeyName)
    → IsOpposite k k'
    → (is_escape k ≡ false) × (is_enter_or_space k ≡ false) × IsOpposite k' k
IsOpposite-plain left k' o = (refl, refl, rw o refl)
IsOpposite-plain right k' o = (refl, refl, rw o refl)
IsOpposite-plain up k' o = (refl, refl, rw o refl)
IsOpposite-plain down k' o = (refl, refl, rw o refl)
IsOpposite-plain enter k' o = absurd o
IsOpposite-plain space_key k' o = absurd o
IsOpposite-plain escape_key k' o = absurd o
IsOpposite-plain tab k' o = absurd o
IsOpposite-plain other k' o = absurd o

-- An arrow key outside the text fields, on a `select` that is open, moves and does nothing else.
select_press-arrow :
    (k k' : KeyName) (e : KeyDown) (s : Select)
    → IsOpposite k k'
    → e.key ≡ k
    → is_editable_target e ≡ false
    → s.is_open ≡ true
    → select_press e s ≡ move k s
unfolding select_press select_key_handler
select_press-arrow k k' e s o q t w =
    let (x, y, _) = IsOpposite-plain k k' o in
    dispatch-first (λ s. s.is_open) (select_key_handler e) (esc_handler close_select e) s w
      (esc_handler-other close_select e (select_key_handler e s) (rw q x))
    ∙ rw (t, q, x, y) refl

is_open-move : (k k' : KeyName) (s : Select) → IsOpposite k k' → (move k s).is_open ≡ s.is_open
unfolding move set_active_card
is_open-move left k' s o = ground arith
is_open-move right k' s o = ground arith
is_open-move up k' s o = ground arith
is_open-move down k' s o = ground arith
is_open-move enter k' s o = refl
is_open-move space_key k' s o = refl
is_open-move escape_key k' s o = refl
is_open-move tab k' s o = refl
is_open-move other k' s o = refl

-- On the cards of an open `select`, of which there are at least as many as columns, an arrow key and then
-- the opposite one, both outside the text fields, lead back to the state before, also round an end of
-- the list.
pub select_press-back :
    (k k' : KeyName) (e e' : KeyDown) (s : Select)
    → IsOpposite k k'
    → e.key ≡ k
    → e'.key ≡ k'
    → is_editable_target e ≡ false
    → is_editable_target e' ≡ false
    → s.is_open ≡ true
    → is_empty s.filtered ≡ false
    → s.active_idx < length s.filtered
    → column_count s ≤ length s.filtered
    → select_press e' (select_press e s) ≡ s
select_press-back k k' e e' s o q q' t t' w n h c =
    let (_, _, p) = IsOpposite-plain k k' o in
    ap (select_press e') (select_press-arrow k k' e s o q t w)
    ∙ select_press-arrow k' k e' (move k s) p q' t' (is_open-move k k' s o ∙ w)
    ∙ move-back k k' s n h c o
