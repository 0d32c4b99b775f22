-- ===== src/Picker/Viewport.antt =====
-- The cursor and the viewport of the file picker (pkg/multiFilePicker/multi-file-picker.go).
use lan_file_share.Common.{
  ℕ, ◌+◌, ◌-◌, ◌<◌, ◌≤◌, ◌/◌, ◌^◌, ◌≡◌, refl, sym, ◌∙◌, subst, arith, false, [], length,
  if◌then◌else◌, leb, ltb, String, Option-cases, lt_or_ge, ◌⊎◌, inl, inr,
}
use lan_file_share.Common.Int.{
  pos, negsuc, sub_ℕ, add64, sub64, wrap64, ◌-ℤ◌, ltb_ℤ, add64_exact, sub64_exact,
}
use lan_file_share.Picker.{
  Picker, visible_items, halved, at_most, not_negative, clipped, below, move_up, move_down,
  move_page_down, move_page_up, Directories, update, update_browse, toggle, confirm_browse,
  key_pressed, page_down, toggle_select, confirm, panics, shows, browse,
}

sub64_small : (a b : ℕ) → a < 2 ^ 63 → b < 2 ^ 63 → sub64 (pos a) (pos b) ≡ sub_ℕ a b
unfolding sub64 ◌-ℤ◌ wrap64
sub64_small a b h k = ground arith

visible_of :
    (h k : ℕ)
    → h < 2 ^ 62
    → (k ≡ 8) ⊎ (k ≡ 9)
    → let visible = halved (sub64 (pos h) (pos k)) in
      let answer = if ltb_ℤ visible (pos 1) then pos 8 else visible in
      (v : ℕ) × (answer ≡ pos v) × (0 < v) × (v < 2 ^ 62)
visible_of h k small header = elim (lt_or_ge h k) [
  | inl less ↦ (
    8,
    rw (sub64_small h k (omega (arith, small)) (omega (arith, small, less))) (ground (arith, less)),
    omega arith,
    omega arith,
  )
  | inr enough ↦ (
    if ltb ((h - k) / 2) 1 then 8 else (h - k) / 2,
    rw (sub64_exact h k enough (omega (arith, small))) (ground arith),
    ground arith,
    ground (arith, small),
  )
]

-- The cursor is on an item that is in the viewport.
pub record IsInView (m : Picker) : Type 0 where
  pub c : ℕ
  pub o : ℕ
  pub at : m.cursor ≡ pos c
  pub from : m.offset ≡ pos o
  pub inside : c < length m.items
  pub top : o ≤ c
  pub bottom : (v : ℕ) → visible_items m ≡ pos v → c < o + v

page_down_cursor :
    (n c v : ℕ)
    → 0 < n
    → n < 2 ^ 62
    → c < n
    → v < 2 ^ 62
    → at_most (pos n) (add64 (pos c) (pos v)) ≡ pos (if leb n (c + v) then n - 1 else c + v)
page_down_cursor n c v some_items few inside narrow =
    rw
      (
        add64_exact c v (omega (arith, few, inside, narrow)),
        sub64_exact n 1 (omega (arith, some_items)) (omega (arith, few)),
      )
      (ground arith)

page_down_offset :
    (n o v : ℕ)
    → n < 2 ^ 62
    → o < n
    → v < 2 ^ 62
    → clipped (pos n) (pos v) (add64 (pos o) (pos v))
      ≡ pos (if leb (o + v + v) n then o + v else n - v)
page_down_offset n o v few inside narrow =
    rw
      (
        add64_exact o v (omega (arith, few, inside, narrow)),
        sub64_small n v (omega (arith, few)) (omega (arith, narrow)),
      )
      (ground arith)

below_same : (v c o : ℕ) → o + v < 2 ^ 63 → c < o + v → below (pos v) (pos c) (pos o) ≡ pos o
below_same v c o small inside = rw (add64_exact o v small) (ground (arith, inside))

page_up : (a v : ℕ) → a < 2 ^ 62 → v < 2 ^ 62 → not_negative (sub64 (pos a) (pos v)) ≡ pos (a - v)
page_up a v small narrow =
    rw (sub64_small a v (omega (arith, small)) (omega (arith, narrow))) (ground arith)

module _ (m : Picker) (v : ℕ) (shown : visible_items m ≡ pos v) (wide : 0 < v) (narrow : v < 2 ^ 62)
    (few : length m.items < 2 ^ 62) (w : IsInView m) where
  bottom_at : w.c < w.o + v
  bottom_at = w.bottom v shown

  same_visible : (u : ℕ) → visible_items m ≡ pos u → u ≡ v
  same_visible u e = ground (arith, e, shown)

  placed :
      (c o : ℕ) (m' : Picker)
      → m' ≡ record m { cursor = pos c; offset = pos o }
      → c < length m.items
      → o ≤ c
      → c < o + v
      → IsInView m'
  unfolding visible_items
  placed c o m' e inside top bottom = subst IsInView (sym e) (record {
    c = c;
    o = o;
    at = refl;
    from = refl;
    inside = inside;
    top = top;
    bottom = λ u e'. ground (arith, bottom, same_visible u e');
  })

  move_page_down-IsInView : IsInView (move_page_down m)
  unfolding move_page_down
  move_page_down-IsInView =
      let n = length m.items in
      let c' = if leb n (w.c + v) then n - 1 else w.c + v in
      let o' = if leb (w.o + v + v) n then w.o + v else n - v in
      let in_view : c' < o' + v = ground (arith, w.inside, w.top, wide, bottom_at) in
      placed c' o' (move_page_down m)
        (rw
          (
            move_page_down,
            shown,
            w.at,
            w.from,
            page_down_cursor n w.c v (omega (arith, w.inside)) few w.inside narrow,
            page_down_offset n w.o v few (omega (arith, w.inside, w.top)) narrow,
            below_same v c' o' (ground (arith, few, narrow)) in_view,
          )
          refl)
        (ground (arith, w.inside)) (ground (arith, w.inside, w.top, wide, bottom_at)) in_view

  move_page_up-IsInView : IsInView (move_page_up m)
  unfolding move_page_up
  move_page_up-IsInView =
      placed (w.c - v) (w.o - v) (move_page_up m)
        (rw
          (
            move_page_up,
            shown,
            w.at,
            w.from,
            page_up w.c v (omega (arith, few, w.inside)) narrow,
            page_up w.o v (omega (arith, few, w.inside, w.top)) narrow,
          )
          (ground (arith, w.top)))
        (omega (arith, w.inside)) (omega (arith, w.top)) (omega (arith, w.top, bottom_at))

  move_up-IsInView : IsInView (move_up m)
  unfolding move_up
  move_up-IsInView = elim (lt_or_ge 0 w.c) [
    | inr top ↦ subst IsInView (rw (move_up, w.at) (ground (arith, top))) w
    | inl later ↦
        placed (w.c - 1) (if ltb (w.c - 1) w.o then w.o - 1 else w.o) (move_up m)
          (elim (lt_or_ge (w.c - 1) w.o) [
            | inl over ↦
                rw
                  (
                    move_up,
                    w.at,
                    w.from,
                    sub64_exact w.c 1 (omega (arith, later)) (omega (arith, few, w.inside)),
                    sub64_exact w.o 1 (omega (arith, over)) (omega (arith, few, w.inside, w.top)),
                  )
                  (ground (arith, later, over))
            | inr under ↦
                rw
                  (
                    move_up,
                    w.at,
                    w.from,
                    sub64_exact w.c 1 (omega (arith, later)) (omega (arith, few, w.inside)),
                  )
                  (ground (arith, later, under, w.from))
          ])
          (omega (arith, w.inside)) (ground (arith, w.top, later))
          (ground (arith, w.top, bottom_at, later, wide))
  ]

  move_down-IsInView : IsInView (move_down m)
  unfolding move_down
  move_down-IsInView = elim (lt_or_ge (w.c + 1) (length m.items)) [
    | inr last ↦
        subst IsInView
          (rw
            (
              move_down,
              w.at,
              sub64_exact (length m.items) 1 (omega (arith, w.inside)) (omega (arith, few)),
            )
            (ground (arith, last)))
          w
    | inl earlier ↦
        placed (w.c + 1) (if leb (w.o + v) (w.c + 1) then w.o + 1 else w.o) (move_down m)
          (elim (lt_or_ge (w.c + 1) (w.o + v)) [
            | inl under ↦
                rw
                  (
                    move_down,
                    shown,
                    w.at,
                    w.from,
                    sub64_exact (length m.items) 1 (omega (arith, w.inside)) (omega (arith, few)),
                    add64_exact w.c 1 (omega (arith, few, w.inside)),
                    add64_exact w.o v (omega (arith, few, w.inside, w.top, narrow)),
                  )
                  (ground (arith, earlier, under, w.from))
            | inr over ↦
                rw
                  (
                    move_down,
                    shown,
                    w.at,
                    w.from,
                    sub64_exact (length m.items) 1 (omega (arith, w.inside)) (omega (arith, few)),
                    add64_exact w.c 1 (omega (arith, few, w.inside)),
                    add64_exact w.o v (omega (arith, few, w.inside, w.top, narrow)),
                    add64_exact w.o 1 (omega (arith, few, w.inside, w.top)),
                  )
                  (ground (arith, earlier, over))
          ])
          (omega (arith, earlier)) (ground (arith, w.top)) (ground (arith, w.top, bottom_at, wide))
  ]

visible_bounds :
    (m : Picker) (h : ℕ)
    → m.height ≡ pos h
    → h < 2 ^ 62
    → (v : ℕ) × (visible_items m ≡ pos v) × (0 < v) × (v < 2 ^ 62)
unfolding visible_items
visible_bounds m h tall small = elim (Option-cases m.input_err) [
  | inl fine ↦ rw (visible_items, tall, fine) (visible_of h 8 small (inl refl))
  | inr (e, failed) ↦ rw (visible_items, tall, failed) (visible_of h 9 small (inr refl))
]

-- While the height of the window is the same, each of the keys that move the cursor by an item or a page
-- leaves it on an item of the listing that is in the viewport, if it was on one before.
pub moves-IsInView :
    (m : Picker) (h : ℕ)
    → m.height ≡ pos h
    → h < 2 ^ 62
    → length m.items < 2 ^ 62
    → IsInView m
    → IsInView (move_up m)
      × IsInView (move_down m)
      × IsInView (move_page_up m)
      × IsInView (move_page_down m)
moves-IsInView m h tall small few w =
    let (v, shown, wide, narrow) = visible_bounds m h tall small in
    (
      move_up-IsInView m v shown wide narrow few w,
      move_down-IsInView m v shown wide narrow few w,
      move_page_up-IsInView m v shown wide narrow few w,
      move_page_down-IsInView m v shown wide narrow few w,
    )

page_down_before :
    (m : Picker) (v : ℕ)
    → visible_items m ≡ pos v
    → 0 < v
    → v < 2 ^ 62
    → m.items ≡ []
    → m.cursor ≡ pos 0
    → (move_page_down m).cursor ≡ negsuc 0
unfolding move_page_down sub64 ◌-ℤ◌ wrap64
page_down_before m v shown wide narrow empty start =
    rw (move_page_down, shown, empty, start, add64_exact 0 v (omega (arith, narrow)))
      (ground (arith, wide))

page_down_keeps :
    (m : Picker)
    → ((move_page_down m).quitting ≡ m.quitting)
      × ((move_page_down m).mode ≡ m.mode)
      × ((move_page_down m).selected ≡ m.selected)
unfolding move_page_down
page_down_keeps m = (refl, refl, refl)

press_browsing :
    (dirs : Directories) (m : Picker) (text : String)
    → m.quitting ≡ false
    → m.mode ≡ browse
    → (update dirs m text (key_pressed page_down) ≡ shows (move_page_down m))
      × (update dirs m text (key_pressed toggle_select) ≡ toggle m)
      × (update dirs m text (key_pressed confirm) ≡ confirm_browse dirs m)
unfolding update update_browse
press_browsing dirs m text on browsing =
    (ground (arith, on, browsing), ground (arith, on, browsing), ground (arith, on, browsing))

toggle_before : (m : Picker) → m.cursor ≡ negsuc 0 → toggle m ≡ panics
unfolding toggle
toggle_before m before = ground (arith, before)

confirm_before :
    (dirs : Directories) (m : Picker)
    → m.selected ≡ []
    → m.cursor ≡ negsuc 0
    → confirm_browse dirs m ≡ panics
unfolding confirm_browse
confirm_before dirs m unselected before = ground (arith, unselected, before)

-- In an empty directory a page down puts the cursor before the first item, and then both the key that
-- selects an item and, with nothing selected, the key that opens one panic with an index out of range.
pub page_down_empty :
    (dirs : Directories) (m : Picker) (h : ℕ) (text : String)
    → m.height ≡ pos h
    → h < 2 ^ 62
    → m.items ≡ []
    → m.cursor ≡ pos 0
    → m.quitting ≡ false
    → m.mode ≡ browse
    → m.selected ≡ []
    → (m' : Picker) × (update dirs m text (key_pressed page_down) ≡ shows m')
      × (update dirs m' text (key_pressed toggle_select) ≡ panics)
      × (update dirs m' text (key_pressed confirm) ≡ panics)
page_down_empty dirs m h text tall small empty start on browsing unselected =
    let (v, shown, wide, narrow) = visible_bounds m h tall small in
    let before : (move_page_down m).cursor ≡ negsuc 0 =
      page_down_before m v shown wide narrow empty start in
    let same = page_down_keeps m in
    let on' = same.0 ∙ on in
    let browsing' = same.1 ∙ browsing in
    (
      move_page_down m,
      (press_browsing dirs m text on browsing).0,
      (press_browsing dirs (move_page_down m) text on' browsing').1
          ∙ toggle_before (move_page_down m) before,
      (press_browsing dirs (move_page_down m) text on' browsing').2
          ∙ confirm_before dirs (move_page_down m) (same.2 ∙ unselected) before,
    )
