-- ===== src/UpdateCheck/Good.antt =====
-- A check offers nothing but good releases, and asks for no update.
use shells.Prelude.{
  ◌≡◌, refl, ◌≤◌, ◌+◌, ◌-◌, ℕ, suc, Bool, true, false, Option, none, some, List, [], ◌∷◌, ◌++◌, All,
  All-snoc, arith, ltb, if-cases, Option-cases, inl, inr, subst,
}
use shells.UpdateCheck.{
  Info, CheckAnswer, failed, no_data, info_data, UpdateModal, offer, alarm, UpdateNotice,
  modal_opened, checked_recently, check_failed, up_to_date, check_request, second_confirm,
  updating_status, status_closed, update_request, restarting, update_failed, Updater, note,
  show_modal, on_info, on_check_answer, ask_server, check_for_updates, manual_check,
}

-- The server has said that the release is there and that nothing is wrong with it.
abbrev pub IsGood : Info → Type 0
IsGood info = (info.has_error ≡ false) × (info.update_available ≡ true)

abbrev pub IsGoodModal : UpdateModal → Type 0
IsGoodModal (offer info) = IsGood info
IsGoodModal alarm = Unit

abbrev pub IsGoodNotice : UpdateNotice → Type 0
IsGoodNotice (modal_opened m) = IsGoodModal m
IsGoodNotice _ = Unit

abbrev pub IsGoodPending : Option Info → Type 0
IsGoodPending none = Unit
IsGoodPending (some info) = IsGood info

abbrev pub IsGoodOpen : Option UpdateModal → Type 0
IsGoodOpen none = Unit
IsGoodOpen (some m) = IsGoodModal m

abbrev pub requests : List UpdateNotice → ℕ
requests [] = 0
requests (update_request ∷ ns) = suc (requests ns)
requests (_ ∷ ns) = requests ns

pub requests-snoc :
    (ns : List UpdateNotice) (n : UpdateNotice)
    → requests (ns ++ (n ∷ [])) ≡ requests ns + requests (n ∷ [])
requests-snoc [] n = omega arith
requests-snoc (update_request ∷ ns) n = omega (arith, requests-snoc ns n)
requests-snoc (modal_opened m ∷ ns) n = requests-snoc ns n
requests-snoc (checked_recently ∷ ns) n = requests-snoc ns n
requests-snoc (check_failed ∷ ns) n = requests-snoc ns n
requests-snoc (up_to_date ∷ ns) n = requests-snoc ns n
requests-snoc (check_request b ∷ ns) n = requests-snoc ns n
requests-snoc (second_confirm k ∷ ns) n = requests-snoc ns n
requests-snoc (updating_status ∷ ns) n = requests-snoc ns n
requests-snoc (status_closed ∷ ns) n = requests-snoc ns n
requests-snoc (restarting v ∷ ns) n = requests-snoc ns n
requests-snoc (update_failed e ∷ ns) n = requests-snoc ns n

-- At most `k` requests so far, and nothing but good offers.
abbrev pub Good : ℕ → Updater → Type 0
Good k u =
    IsGoodPending u.pending_update
    × IsGoodOpen u.modal
    × All IsGoodNotice u.notices
    × (requests u.notices ≤ k)

pub note-Good :
    (k : ℕ) (n : UpdateNotice) (u : Updater)
    → requests (n ∷ []) ≡ 0
    → IsGoodNotice n
    → Good k u
    → Good k (note n u)
note-Good k n u e g (p, m, h, r) =
    (p, m, All-snoc IsGoodNotice u.notices n h g, omega (arith, requests-snoc u.notices n, r, e))

pub show_modal-Good :
    (k : ℕ) (m : UpdateModal) (u : Updater) → IsGoodModal m → Good k u → Good k (show_modal m u)
unfolding show_modal
show_modal-Good k m u g (p, o, h, r) = elim (Option-cases u.modal) [
  | inl e ↦
      simp (show_modal, e)
        (
          p,
          g,
          All-snoc IsGoodNotice u.notices (modal_opened m) h g,
          omega (arith, requests-snoc u.notices (modal_opened m), r),
        )
  | inr (x, e) ↦ simp (show_modal, e) (p, subst IsGoodOpen e o, h, r)
]

on_info-Good :
    (k : ℕ) (manual : Bool) (info : Info) (u : Updater) → Good k u → Good k (on_info manual info u)
unfolding on_info
on_info-Good k manual info u h =
    if-cases (Good k) info.has_error _ _
      (λ _.
        if-cases (Good k) info.verification_failed (show_modal alarm u) _
          (λ _. show_modal-Good k alarm u tt h)
          (λ _.
            if-cases (Good k) manual (note check_failed u) u
              (λ _. note-Good k check_failed u refl tt h) (λ _. h)))
      (λ e.
        if-cases (Good k) info.update_available
          (show_modal (offer info) (record u { pending_update = some info })) _
          (λ a.
            show_modal-Good k (offer info) (record u { pending_update = some info }) (e, a)
              ((e, a), h.1, h.2, h.3))
          (λ _.
            if-cases (Good k) manual (note up_to_date (record u { pending_update = none })) u
              (λ _.
                note-Good k up_to_date (record u { pending_update = none }) refl tt
                  (tt, h.1, h.2, h.3))
              (λ _. h)))

ask_server-Good :
    (k : ℕ) (manual : Bool) (answer : CheckAnswer) (u : Updater)
    → Good k u
    → Good k (ask_server manual answer u)
unfolding ask_server on_check_answer
ask_server-Good k manual answer u h =
    on_answer answer (note-Good k (check_request manual) u refl tt h)
  where
    on_answer :
        (a : CheckAnswer) → Good k (note (check_request manual) u) → Good k (ask_server manual a u)
    on_answer (info_data info) g = on_info-Good k manual info (note (check_request manual) u) g
    on_answer failed g =
        if-cases (Good k) manual _ _
          (λ _. note-Good k check_failed (note (check_request manual) u) refl tt g) (λ _. g)
    on_answer no_data g =
        if-cases (Good k) manual _ _
          (λ _. note-Good k check_failed (note (check_request manual) u) refl tt g) (λ _. g)

manual_check-Good :
    (k : ℕ) (o : Option Info) (now : ℕ) (answer : CheckAnswer) (u : Updater)
    → IsGoodPending o
    → Good k u
    → Good k (manual_check o now answer u)
unfolding manual_check
manual_check-Good k (some info) now answer u g h = show_modal-Good k (offer info) u g h
manual_check-Good k none now answer u g h =
    if-cases (Good k) (ltb (now - u.stored_last) 120_000) (note checked_recently u)
      (ask_server true answer (record u { stored_last = now }))
      (λ _. note-Good k checked_recently u refl tt h)
      (λ _. ask_server-Good k true answer (record u { stored_last = now }) h)

pub check_for_updates-Good :
    (k : ℕ) (manual : Bool) (now : ℕ) (answer : CheckAnswer) (u : Updater)
    → Good k u
    → Good k (check_for_updates manual now answer u)
unfolding check_for_updates
check_for_updates-Good k false now answer u h =
    if-cases (Good k) u.opted_out u (ask_server false answer u) (λ _. h)
      (λ _. ask_server-Good k false answer u h)
check_for_updates-Good k true now answer u h =
    manual_check-Good k u.pending_update now answer u h.0 h
