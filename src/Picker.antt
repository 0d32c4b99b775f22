-- ===== src/Picker.antt =====
-- Model of pkg/multiFilePicker/multi-file-picker.go: what the keys do with the listing, the cursor, the
-- viewport and the selection. Of an item are left out the texts that are only shown.
pub mod Viewport
use lan_file_share.Common.{
  ℕ, suc, ◌-◌, ◌/◌, Bool, true, false, String, Option, none, some, List, [], ◌∷◌, length, get_elem?,
  ◌==◌, string_eq, if◌then◌else◌,
}
use lan_file_share.Common.Int.{ℤ, pos, negsuc, sub_ℕ, add64, sub64, leb_ℤ, ltb_ℤ}
use lan_file_share.Common.Sets.{has, add, remove}
use lan_file_share.Errors.{Error, Result, ok, err}

pub data Mode : Type 0 where
  browse input : Mode

-- displayItem
pub record DisplayItem : Type 0 where
  pub name : String
  pub path : String
  pub is_dir : Bool

-- Model; an empty `path` is that no directory was loaded.
pub record Picker : Type 0 where
  pub path : String
  pub last_path : String
  pub items : List DisplayItem
  pub selected : List String
  pub cursor : ℤ
  pub quitting : Bool
  pub mode : Mode
  pub input_err : Option Error
  pub height : ℤ
  pub offset : ℤ

-- The keys of the key map, which are all different.
pub data Key : Type 0 where
  up down page_up page_down toggle_select toggle_input confirm quit other_key : Key

-- What Update is called with.
pub data Message : Type 0 where
  window_size : ℤ → Message
  key_pressed : Key → Message

-- The model after Update, the paths whose nodes are sent as the selected files, or the panic of an index
-- out of range.
pub data Updated : Type 0 where
  shows : Picker → Updated
  chooses : Picker → List String → Updated
  panics : Updated

-- The directories, by the last path and a path: the sorted items or the error that loadDirectory notes, and
-- filepath.Abs of a path that could be loaded.
pub record Directories : Type 0 where
  pub load : String → String → Result (List DisplayItem)
  pub absolute : String → String → String

abbrev halved : ℤ → ℤ
halved (pos n) = pos (n / 2)
halved (negsuc n) = sub_ℕ 0 (suc n / 2)

abbrev header_height : Option Error → ℤ
header_height none = pos 8
header_height (some e) = pos 9

-- visibleItems
unfoldable pub visible_items : Picker → ℤ
visible_items m =
    let visible = halved (sub64 m.height (header_height m.input_err)) in
    if ltb_ℤ visible (pos 1) then pos 8 else visible

abbrev item_count : Picker → ℤ
item_count m = pos (length m.items)

abbrev scroll_up : Picker → Picker
scroll_up m = if ltb_ℤ m.cursor m.offset then record m { offset = sub64 m.offset (pos 1) } else m

unfoldable pub move_up : Picker → Picker
move_up m =
    if ltb_ℤ (pos 0) m.cursor then scroll_up (record m { cursor = sub64 m.cursor (pos 1) }) else m

abbrev scroll_down : ℤ → Picker → Picker
scroll_down visible m =
    if leb_ℤ (add64 m.offset visible) m.cursor
    then record m { offset = add64 m.offset (pos 1) }
    else m

unfoldable pub move_down : Picker → Picker
move_down m =
    if ltb_ℤ m.cursor (sub64 (item_count m) (pos 1))
    then scroll_down (visible_items m) (record m { cursor = add64 m.cursor (pos 1) })
    else m

abbrev at_most : ℤ → ℤ → ℤ
at_most bound a = if leb_ℤ bound a then sub64 bound (pos 1) else a

abbrev not_negative : ℤ → ℤ
not_negative a = if ltb_ℤ a (pos 0) then pos 0 else a

-- The offset of a page down before the cursor is looked at.
abbrev clipped : ℤ → ℤ → ℤ → ℤ
clipped count visible offset =
    if ltb_ℤ (sub64 count visible) offset then not_negative (sub64 count visible) else offset

abbrev below : ℤ → ℤ → ℤ → ℤ
below visible cursor offset =
    if leb_ℤ (add64 offset visible) cursor then add64 (sub64 cursor visible) (pos 1) else offset

unfoldable pub move_page_down : Picker → Picker
move_page_down m =
    let visible = visible_items m in
    let cursor = at_most (item_count m) (add64 m.cursor visible) in
    record m {
      cursor = cursor;
      offset = below visible cursor (clipped (item_count m) visible (add64 m.offset visible));
    }

abbrev above : ℤ → ℤ → ℤ
above cursor offset = if ltb_ℤ cursor offset then cursor else offset

unfoldable pub move_page_up : Picker → Picker
move_page_up m =
    let visible = visible_items m in
    let cursor = not_negative (sub64 m.cursor visible) in
    record m { cursor = cursor; offset = above cursor (not_negative (sub64 m.offset visible)) }

-- m.items[m.cursor], or `none` for an index out of range.
abbrev item_at : List DisplayItem → ℤ → Option DisplayItem
item_at items (pos i) = get_elem? items i
item_at items (negsuc i) = none

abbrev toggled : Picker → Option DisplayItem → Updated
toggled m none = panics
toggled m (some item) =
    if has m.selected item.path
    then shows (record m { selected = remove item.path m.selected })
    else shows (record m { selected = add item.path m.selected })

unfoldable pub toggle : Picker → Updated
toggle m = if ltb_ℤ m.cursor (item_count m) then toggled m (item_at m.items m.cursor) else shows m

-- What both kinds of loading leave.
abbrev with_directory : Picker → String → List DisplayItem → Picker
with_directory m path items = record m {
  path = path;
  last_path = path;
  items = items;
  cursor = pos 0;
  offset = pos 0;
  input_err = none;
}

abbrev open_item : Directories → Picker → Option DisplayItem → Updated
open_item dirs m none = panics
open_item dirs m (some item) =
    if item.is_dir
    then elim (dirs.load m.last_path item.path) [
      | err e ↦ shows (record m { input_err = some e })
      | ok items ↦ shows (with_directory m item.path items)
    ]
    else shows m

unfoldable pub confirm_browse : Directories → Picker → Updated
confirm_browse dirs m = elim m.selected [
  | path ∷ paths ↦ chooses m (path ∷ paths)
  | [] ↦
      if ltb_ℤ m.cursor (item_count m) then open_item dirs m (item_at m.items m.cursor) else shows m
]

-- updateBrowse
unfoldable pub update_browse : Directories → Picker → Key → Updated
unfolding move_up move_down move_page_down move_page_up toggle confirm_browse
update_browse dirs m toggle_input = shows (record m { mode = input })
update_browse dirs m up = shows (move_up m)
update_browse dirs m down = shows (move_down m)
update_browse dirs m page_down = shows (move_page_down m)
update_browse dirs m page_up = shows (move_page_up m)
update_browse dirs m toggle_select = toggle m
update_browse dirs m confirm = confirm_browse dirs m
update_browse dirs m quit = shows m
update_browse dirs m other_key = shows m

-- updateInput with the text of the input field.
unfoldable pub update_input : Directories → Picker → String → Key → Updated
update_input dirs m text confirm = elim (dirs.load m.last_path text) [
  | err e ↦ shows (record m { input_err = some e })
  | ok items ↦
      shows (record (with_directory m (dirs.absolute m.last_path text) items) { mode = browse })
]
update_input dirs m text key = shows m

unfoldable pub quit_key : Picker → Picker
quit_key m = elim m.mode [
  | input ↦
      if m.path == ""
      then record m { quitting = true }
      else record m { mode = browse; input_err = none }
  | browse ↦ record m { quitting = true }
]

abbrev press : Directories → Picker → String → Key → Updated
press dirs m text quit = shows (quit_key m)
press dirs m text key = elim m.mode [
  | browse ↦ update_browse dirs m key
  | input ↦ update_input dirs m text key
]

-- Update with a text in the input field.
unfoldable pub update : Directories → Picker → String → Message → Updated
unfolding update_browse update_input quit_key
update dirs m text (window_size h) = if m.quitting then shows m else shows (record m { height = h })
update dirs m text (key_pressed key) = if m.quitting then shows m else press dirs m text key
