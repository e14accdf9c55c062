-- ===== src/Settings/Range.antt =====
-- The font size stays in its range, and the storage holds it.
use shells.Prelude.{
  ◌≡◌, ◌≤◌, refl, ◌∙◌, ℕ, Bool, true, false, ◌||◌, none, some, List, [], ◌∷◌, arith, leb, eqb,
  eqb_iff, ◌-◌, if◌then◌else◌, All, map, Bool-cases, inl, inr,
}
use shells.Settings.{
  Fonts, Delta, more, less, read_size, get_font_size, shifted, clamp, set_font_size, key_zero,
  zoom_of, font_zoom_delta,
}

-- The page after a reload has the terminals' sizes of its own.
abbrev pub reload : Fonts → Fonts
reload f = record { font_size = none; stored = f.stored; terms = [] }

-- The size is from 8 to 32, every terminal has it, and a reload finds it again.
pub record IsSized (f : Fonts) : Type 0 where
  pub least : 8 ≤ get_font_size f
  pub most : get_font_size f ≤ 32
  pub same : All (λ s. s ≡ get_font_size f) f.terms
  pub kept : get_font_size (reload f) ≡ get_font_size f

clamp-range : (n : ℕ) → (8 ≤ clamp n) × (clamp n ≤ 32)
unfolding clamp
clamp-range n = (omega arith, omega arith)

All-same : (n : ℕ) (xs : List ℕ) → All (λ s. s ≡ n) (map (λ _. n) xs)
All-same n [] = tt
All-same n (x ∷ xs) = (refl, All-same n xs)

read-range : (n : ℕ) → 8 ≤ n → n ≤ 32 → read_size (some n) ≡ n
unfolding read_size
read-range n h k = ground arith

changed-IsSized :
    (n : ℕ) (xs : List ℕ)
    → 8 ≤ n
    → n ≤ 32
    → IsSized (record { font_size = some n; stored = some n; terms = map (λ _. n) xs })
unfolding get_font_size
changed-IsSized n xs h k = record {
  least = h;
  most = k;
  same = All-same n xs;
  kept = read-range n h k;
}

cached-IsSized : (f : Fonts) → IsSized f → IsSized (record f { font_size = some (get_font_size f) })
unfolding get_font_size
cached-IsSized f h = record { least = h.least; most = h.most; same = h.same; kept = h.kept }

-- `setFontSize` of any difference keeps the size from 8 to 32, every terminal at that size, and the
-- size that a reload of the page finds the same, where they were so before.
pub set_font_size-IsSized : (f : Fonts) (d : Delta) → IsSized f → IsSized (set_font_size f d)
unfolding set_font_size
set_font_size-IsSized f d h =
    let next = clamp (shifted (get_font_size f) d) in
    elim (Bool-cases (eqb next (get_font_size f))) [
      | inl e ↦ rw e (cached-IsSized f h)
      | inr e ↦ rw e (
          changed-IsSized next f.terms (clamp-range (shifted (get_font_size f) d)).0
            (clamp-range (shifted (get_font_size f) d)).1)
    ]

-- The size after a change, cached or new.
get-set_font_size :
    (f : Fonts) (d : Delta)
    → get_font_size (set_font_size f d) ≡ clamp (shifted (get_font_size f) d)
unfolding get_font_size set_font_size
get-set_font_size f d =
    let next = clamp (shifted (get_font_size f) d) in
    elim (Bool-cases (eqb next (get_font_size f))) [
      | inl e ↦ rw e (omega (arith, (eqb_iff next (get_font_size f)).0 e))
      | inr e ↦ rw e
    ]

zero_delta :
    (size : ℕ)
    → clamp (shifted size (if leb size 14 then more (14 - size) else less (size - 14))) ≡ 14
unfolding clamp shifted
zero_delta size = elim (Bool-cases (leb size 14)) [
  | inl e ↦ rw e (ground arith)
  | inr e ↦ rw e (ground arith)
]

zero_key :
    (f : Fonts) (ctrl meta : Bool)
    → (ctrl || meta) ≡ true
    → font_zoom_delta f ctrl meta false key_zero
      ≡ some (
          if leb (get_font_size f) 14
          then more (14 - get_font_size f)
          else less (get_font_size f - 14))
unfolding font_zoom_delta zoom_of
zero_key f ctrl meta h = rw h

-- The key 0 with Ctrl or the meta key, and without Alt, gives a difference that sets the size to 14,
-- from every size.
pub font_zoom_delta-reset :
    (f : Fonts) (ctrl meta : Bool)
    → (ctrl || meta) ≡ true
    → (d : Delta) × (font_zoom_delta f ctrl meta false key_zero ≡ some d)
      × (get_font_size (set_font_size f d) ≡ 14)
font_zoom_delta-reset f ctrl meta h =
    let size = get_font_size f in
    let d = if leb size 14 then more (14 - size) else less (size - 14) in
    (d, zero_key f ctrl meta h, get-set_font_size f d ∙ zero_delta size)
