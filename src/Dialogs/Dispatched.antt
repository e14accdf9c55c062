-- ===== src/Dialogs/Dispatched.antt =====
-- What the two listeners of a dialog come to together.
use shells.Prelude.{◌≡◌, refl, inl, inr, Bool, true, false, Bool-cases, if-cases, if◌then◌else◌}
use shells.Dialogs.Keys.{KeyDown, is_escape, esc_handler, dispatch}

-- Where the second listener leaves alone what the first has made, the first decides.
pub dispatch-first {ℓ} :
    {D : Type ℓ} (is_open : D → Bool) (first second : D → D) (d : D)
    → is_open d ≡ true
    → second (first d) ≡ first d
    → dispatch is_open first second d ≡ first d
unfolding dispatch
dispatch-first is_open first second d o e =
    rw (o, e) (elim (Bool-cases (is_open (first d))) [ inl i ↦ rw i refl | inr i ↦ rw i refl ])

pub esc_handler-other {ℓ} :
    {D : Type ℓ} (close_fn : D → D) (e : KeyDown) (d : D)
    → is_escape e.key ≡ false
    → esc_handler close_fn e d ≡ d
unfolding esc_handler
esc_handler-other close_fn e d k = rw k refl

module _ {ℓ κ} {D : Type ℓ} (Q : D → Type κ) where
  pub esc_handler-keeps :
      (close_fn : D → D) (e : KeyDown)
      → ((d : D) → Q d → Q (close_fn d))
      → (d : D) → Q d
      → Q (esc_handler close_fn e d)
  unfolding esc_handler
  esc_handler-keeps close_fn e h d q =
      if-cases Q (is_escape e.key) (close_fn d) d (λ _. h d q) (λ _. q)

  pub dispatch-keeps :
      (is_open : D → Bool) (first second : D → D) (d : D)
      → ((d : D) → Q d → Q (first d))
      → ((d : D) → Q d → Q (second d))
      → Q d
      → Q (dispatch is_open first second d)
  unfolding dispatch
  dispatch-keeps is_open first second d f g q =
      if-cases Q (is_open d) (if is_open (first d) then second (first d) else first d) d
        (λ _.
          if-cases Q (is_open (first d)) (second (first d)) (first d) (λ _. g (first d) (f d q))
            (λ _. f d q))
        (λ _. q)
