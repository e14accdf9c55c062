-- ===== src/Switcher/Captured.antt =====
-- A captured preview shows every character of the terminal in the shade of its cell.
use shells.Prelude.{
  ℕ, ◌≡◌, ◌≢◌, refl, sym, ap, ◌∙◌, inl, inr, Bool, true, false, Option, none, some, List, [], ◌∷◌,
  ◌++◌, Str, ◌==◌, str_eq, nat_eq, opt_eqb, append-nil, append_assoc, All, All-snoc, Bool-cases,
  arith, str_eqb_iff,
}
use shells.Switcher.{
  Css, get_color_css, Format, Cell, Segment, Capture, plain, bool_eqb, format_eqb, flush, chars_of,
  on_cell, capture_cells, capture_line,
}

-- How a character is shown: the colours of the style sheet, and whether it is bold.
abbrev pub Shade : Type 0
Shade = Option Css × Option Css × Bool

-- The shade of a cell: `getColorCSS` of its colours.
abbrev pub shade : Format → Shade
shade f = (get_color_css f.fg, get_color_css f.bg, f.bold)

abbrev pub segment_shade : Segment → Shade
segment_shade s = (s.fg, s.bg, s.bold)

-- A text, every character with the shade.
abbrev pub paint : Shade → Str → List (ℕ × Shade)
paint f [] = []
paint f (c ∷ s) = (c, f) ∷ paint f s

abbrev pub paint_segments : List Segment → List (ℕ × Shade)
paint_segments [] = []
paint_segments (s ∷ ss) = paint (segment_shade s) s.text ++ paint_segments ss

-- The cells of a line. A missing one is a space in the shade before it.
abbrev pub paint_cells : Format → List (Option Cell) → List (ℕ × Shade)
paint_cells f [] = []
paint_cells f (none ∷ cs) = (32, shade f) ∷ paint_cells f cs
paint_cells f (some c ∷ cs) = paint (shade c.format) (chars_of c.chars) ++ paint_cells c.format cs

-- A segment has a text.
abbrev pub IsFilled : Segment → Type 0
IsFilled s = s.text ≢ []

paint-append : (f : Shade) (s t : Str) → paint f (s ++ t) ≡ paint f s ++ paint f t
paint-append f [] t = refl
paint-append f (c ∷ s) t = ap ((c, f) ∷◌) (paint-append f s t)

paint_segments-snoc :
    (ss : List Segment) (s : Segment)
    → paint_segments (ss ++ s ∷ []) ≡ paint_segments ss ++ paint (segment_shade s) s.text
paint_segments-snoc [] s = append-nil (paint (segment_shade s) s.text)
paint_segments-snoc (r ∷ ss) s =
    ap (λ x. paint (segment_shade r) r.text ++ x) (paint_segments-snoc ss s)
    ∙ sym (
        append_assoc (paint (segment_shade r) r.text) (paint_segments ss)
          (paint (segment_shade s) s.text))

abbrev segment : Capture → Segment
segment s = record {
  text = s.current;
  fg = get_color_css s.last.fg;
  bg = get_color_css s.last.bg;
  bold = s.last.bold;
}

paint-flush :
    (s : Capture)
    → paint_segments (flush s) ≡ paint_segments s.segments ++ paint (shade s.last) s.current
unfolding flush
paint-flush s = elim (Bool-cases (s.current == [])) [
  | inl e ↦ rw (e, (str_eqb_iff s.current []).0 e) (sym (append-nil (paint_segments s.segments)))
  | inr e ↦ rw e (paint_segments-snoc s.segments (segment s))
]

opt_eqb→eq : (o p : Option ℕ) → opt_eqb o p ≡ true → o ≡ p
opt_eqb→eq none none e = refl
opt_eqb→eq (some m) (some n) e = ap some (ground arith)
opt_eqb→eq none (some n) e = cc
opt_eqb→eq (some m) none e = cc

bool_eqb→eq : (a b : Bool) → bool_eqb a b ≡ true → a ≡ b
bool_eqb→eq true b e = sym e
bool_eqb→eq false b e = ground arith

format_eqb→eq : (f g : Format) → format_eqb f g ≡ true → f ≡ g
format_eqb→eq f g e =
    same (opt_eqb→eq f.fg g.fg (ground arith)) (opt_eqb→eq f.bg g.bg (ground arith))
      (bool_eqb→eq f.bold g.bold (ground arith))
  where
    same : f.fg ≡ g.fg → f.bg ≡ g.bg → f.bold ≡ g.bold → f ≡ g
    same p q r = cc

-- More of the current text is more of what is painted.
paint_more :
    (ps : List (ℕ × Shade)) (f : Shade) (s t : Str) (qs : List (ℕ × Shade))
    → (ps ++ paint f (s ++ t)) ++ qs ≡ (ps ++ paint f s) ++ (paint f t ++ qs)
paint_more ps f s t qs =
    ap (λ x. (ps ++ x) ++ qs) (paint-append f s t)
    ∙ (ap (λ x. x ++ qs) (sym (append_assoc ps (paint f s) (paint f t)))
        ∙ append_assoc (ps ++ paint f s) (paint f t) qs)

paint-on_cell :
    (s : Capture) (c : Option Cell) (cs : List (Option Cell))
    → (paint_segments (on_cell s c).segments
          ++ paint (shade (on_cell s c).last) (on_cell s c).current)
        ++ paint_cells (on_cell s c).last cs
      ≡ (paint_segments s.segments ++ paint (shade s.last) s.current) ++ paint_cells s.last (c ∷ cs)
unfolding on_cell
paint-on_cell s none cs =
    paint_more (paint_segments s.segments) (shade s.last) s.current (32 ∷ [])
      (paint_cells s.last cs)
paint-on_cell s (some c) cs = elim (Bool-cases (format_eqb c.format s.last)) [
  | inl e ↦ rw e (
      paint_more (paint_segments s.segments) (shade s.last) s.current (chars_of c.chars)
        (paint_cells s.last cs)
      ∙ ap
          (λ f.
            (paint_segments s.segments ++ paint (shade s.last) s.current)
            ++ (paint (shade f) (chars_of c.chars) ++ paint_cells f cs))
          (sym (format_eqb→eq c.format s.last e)))
  | inr e ↦ rw e (
      ap (λ x. (x ++ paint (shade c.format) (chars_of c.chars)) ++ paint_cells c.format cs)
        (paint-flush s)
      ∙ append_assoc (paint_segments s.segments ++ paint (shade s.last) s.current)
          (paint (shade c.format) (chars_of c.chars)) (paint_cells c.format cs))
]

paint-capture_cells :
    (s : Capture) (cs : List (Option Cell))
    → paint_segments (capture_cells s cs)
      ≡ (paint_segments s.segments ++ paint (shade s.last) s.current) ++ paint_cells s.last cs
unfolding capture_cells
paint-capture_cells s [] =
    paint-flush s ∙ sym (append-nil (paint_segments s.segments ++ paint (shade s.last) s.current))
paint-capture_cells s (c ∷ cs) = paint-capture_cells (on_cell s c) cs ∙ paint-on_cell s c cs

flush-All : (s : Capture) → All IsFilled s.segments → All IsFilled (flush s)
unfolding flush
flush-All s h = elim (Bool-cases (s.current == [])) [
  | inl e ↦ rw e h
  | inr e ↦
      rw e
        (All-snoc IsFilled s.segments (segment s) h (λ p. cc (e, (str_eqb_iff s.current []).1 p)))
]

on_cell-All :
    (s : Capture) (c : Option Cell) → All IsFilled s.segments → All IsFilled (on_cell s c).segments
unfolding on_cell
on_cell-All s none h = h
on_cell-All s (some c) h = elim (Bool-cases (format_eqb c.format s.last)) [
  | inl e ↦ rw e h
  | inr e ↦ rw e (flush-All s h)
]

capture_cells-All :
    (s : Capture) (cs : List (Option Cell))
    → All IsFilled s.segments
    → All IsFilled (capture_cells s cs)
unfolding capture_cells
capture_cells-All s [] h = flush-All s h
capture_cells-All s (c ∷ cs) h = capture_cells-All (on_cell s c) cs (on_cell-All s c h)

-- The segments of a captured line show the characters of its cells in order, each in the colours that
-- `getColorCSS` gives for its cell and as bold as the cell, a missing cell as a space in the shade
-- before it; and no segment is empty.
pub capture_line_lem :
    (cells : List (Option Cell))
    → (paint_segments (capture_line cells) ≡ paint_cells plain cells)
      × All IsFilled (capture_line cells)
unfolding capture_line
capture_line_lem cells =
    let start : Capture = record { segments = []; current = []; last = plain } in
    (paint-capture_cells start cells, capture_cells-All start cells tt)
