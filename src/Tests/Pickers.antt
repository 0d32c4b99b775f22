-- ===== src/Tests/Pickers.antt =====
-- Keys pressed in the file picker.
use lan_file_share.Common.{◌≡◌, refl, arith, true, false, String, none, List, [], ◌∷◌}
use lan_file_share.Common.Int.{pos, sub64, wrap64, ◌-ℤ◌}
use lan_file_share.Errors.{ok}
use lan_file_share.Picker.{
  Picker, DisplayItem, Directories, update, visible_items, move_up, move_down, move_page_down,
  move_page_up, key_pressed, page_down, toggle_select, confirm, shows, panics, browse,
}
use lan_file_share.Picker.Viewport.{IsInView, moves-IsInView, page_down_empty}

abbrev item : String → DisplayItem
item s = record { name = s; path = s; is_dir = true }

-- A window of 12 lines, which shows two items.
abbrev picker : List DisplayItem → Picker
picker items = record {
  path = "/d";
  last_path = "/d";
  items = items;
  selected = [];
  cursor = pos 0;
  quitting = false;
  mode = browse;
  input_err = none;
  height = pos 12;
  offset = pos 0;
}

abbrev three : Picker
three = picker (item "a" ∷ item "b" ∷ item "c" ∷ [])

two_visible : visible_items three ≡ pos 2
unfolding visible_items sub64 wrap64 ◌-ℤ◌
two_visible = refl

three-IsInView : IsInView three
three-IsInView = record {
  c = 0;
  o = 0;
  at = refl;
  from = refl;
  inside = omega arith;
  top = omega arith;
  bottom = λ v e. ground (arith, e, two_visible);
}

moves-IsInView_example :
    IsInView (move_up three)
    × IsInView (move_down three)
    × IsInView (move_page_up three)
    × IsInView (move_page_down three)
moves-IsInView_example = moves-IsInView three 12 refl (omega arith) (omega arith) three-IsInView

abbrev no_directories : Directories
no_directories = record { load = λ last path. ok []; absolute = λ last path. path }

page_down_empty_example :
    (m' : Picker) × (update no_directories (picker []) "" (key_pressed page_down) ≡ shows m')
    × (update no_directories m' "" (key_pressed toggle_select) ≡ panics)
    × (update no_directories m' "" (key_pressed confirm) ≡ panics)
page_down_empty_example =
    page_down_empty no_directories (picker []) 12 "" refl (omega arith) refl refl refl refl refl
