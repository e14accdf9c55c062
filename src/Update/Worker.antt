-- ===== src/Update/Worker.antt =====
-- The page reloads for a new service worker at most once, and not against the user.
use shells.Prelude.{
  ℕ, zero, suc, subst, sym, ◌≤◌, ◌≡◌, refl, Bool, false, ◌||◌, List, [], ◌∷◌, if◌then◌else◌, arith,
}
use shells.Update.{
  Page, fresh, Event, update_ready, answer, stashed, controller_change, release_worker,
  apply_update, show_update_bar, on_update_ready, on_answer, stash_over, on_stashed,
  on_controller_change, update_step,
}

unfoldable pub run : Page → List Event → Page
unfolding update_step
run p [] = p
run p (e ∷ es) = run (update_step p e) es

-- An update that finds the command bar empty, or that the user wants.
abbrev pub consents : Event → Bool
consents (update_ready empty) = empty
consents (answer ok) = ok
consents stashed = false
consents controller_change = false

abbrev pub any_consents : List Event → Bool
any_consents [] = false
any_consents (e ∷ es) = consents e || any_consents es

-- The reloads are counted by `reloading`.
IsOnce : Page → Type 0
IsOnce p = p.reloads ≡ (if p.reloading then 1 else 0)

stash_over-IsOnce : (p : Page) (n : ℕ) → IsOnce p → IsOnce (stash_over p n)
unfolding IsOnce stash_over release_worker
stash_over-IsOnce p zero h = h
stash_over-IsOnce p (suc n) h = h

update_step-IsOnce : (p : Page) (e : Event) → IsOnce p → IsOnce (update_step p e)
unfolding IsOnce update_step on_update_ready apply_update show_update_bar on_answer on_stashed
    on_controller_change
update_step-IsOnce p (update_ready empty) h = ground arith
update_step-IsOnce p (answer ok) h = ground arith
update_step-IsOnce p stashed h = stash_over-IsOnce p p.stashing h
update_step-IsOnce p controller_change h = ground arith

run-IsOnce : (p : Page) (es : List Event) → IsOnce p → IsOnce (run p es)
unfolding run
run-IsOnce p [] h = h
run-IsOnce p (e ∷ es) h = run-IsOnce (update_step p e) es (update_step-IsOnce p e h)

-- Nothing is on its way to a reload.
record IsIdle (p : Page) : Type 0 where
  pub requested : p.update_requested ≡ false
  pub stashing : p.stashing ≡ 0
  pub reloads : p.reloads ≡ 0

update_step-IsIdle :
    (p : Page) (e : Event) → consents e ≡ false → IsIdle p → IsIdle (update_step p e)
unfolding update_step on_update_ready apply_update show_update_bar on_answer on_stashed stash_over
    on_controller_change
update_step-IsIdle p (update_ready empty) c h = record {
  requested = ground arith;
  stashing = ground arith;
  reloads = ground arith;
}
update_step-IsIdle p (answer ok) c h = record {
  requested = ground arith;
  stashing = ground arith;
  reloads = ground arith;
}
update_step-IsIdle p stashed c h = subst (λ n. IsIdle (stash_over p n)) (sym h.stashing) h
update_step-IsIdle p controller_change c h = record {
  requested = ground arith;
  stashing = ground arith;
  reloads = ground arith;
}

run-IsIdle : (p : Page) (es : List Event) → any_consents es ≡ false → IsIdle p → IsIdle (run p es)
unfolding run
run-IsIdle p [] c h = h
run-IsIdle p (e ∷ es) c h =
    run-IsIdle (update_step p e) es (ground arith) (update_step-IsIdle p e (ground arith) h)

-- Whatever happens to a fresh page, it reloads at most once for new workers, and not at all where no
-- update found the command bar empty and the user has accepted none.
pub reloads-run :
    (es : List Event)
    → ((run fresh es).reloads ≤ 1) × (any_consents es ≡ false → (run fresh es).reloads ≡ 0)
unfolding IsOnce
reloads-run es =
    let once = run-IsOnce fresh es refl in
    (
      ground arith,
      λ c.
          (run-IsIdle fresh es c
            (record { requested = refl; stashing = refl; reloads = refl })).reloads,
    )
