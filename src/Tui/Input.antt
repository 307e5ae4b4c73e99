-- ===== src/Tui/Input.antt =====
-- The keys and the mouse of crates/rustmail-tui/src/app.rs.
use rustmail.Prelude.{
  List, ℕ, ◌+◌, ◌-◌, min, Bool, true, false, not, ◌&&◌, ◌||◌, none, some, [], ◌∷◌, ◌++◌, length,
  is_empty, ltb, ◌==◌, if◌then◌else◌,
}
use rustmail.Prelude.Text.{Text, codes}
use rustmail.Tui.Types.{
  KeyCode, char, up, down, left, right, enter, tab, back_tab, esc, backspace, KeyEvent, Mode,
  normal, search, raw_view, confirm, help, Focus, list, preview, PreviewTab, text, headers, raw,
}
use rustmail.Tui.App.{
  App, delete_all_messages, spawn, select_message, select_next, select_prev, fetch_messages,
  same_option,
}
use rustmail.Tui.Preview.{
  load_if, toggle_read, toggle_star, delete_selected, show_raw, ensure_raw_loaded,
}

abbrev pub show_mode : Mode → App → App
show_mode m a = record a { mode = m }

abbrev pub look_at : Focus → App → App
look_at f a = record a { focus = f }

abbrev pub quit : App → App
quit a = record a { running = false }

-- The list from another offset.
unfoldable pub turn_to : ℕ → App → App
unfolding fetch_messages
turn_to offset a = fetch_messages (record a { offset = offset; view_changed = true })

unfoldable pub next_page : App → App
unfolding turn_to
next_page a = if ltb (a.offset + a.page_size) a.total then turn_to (a.offset + a.page_size) a else a

unfoldable pub prev_page : App → App
unfolding turn_to
prev_page a = if ltb 0 a.offset then turn_to (a.offset - a.page_size) a else a

-- `saturating_add` on a `u16`
abbrev pub saturating_add : ℕ → ℕ → ℕ
saturating_add n m = min (n + m) 65535

unfoldable pub move_next : App → App
unfolding load_if select_next
move_next a = load_if (select_next a)

unfoldable pub move_prev : App → App
unfolding load_if select_prev
move_prev a = load_if (select_prev a)

unfoldable pub move_to : ℕ → App → App
unfolding load_if select_message
move_to idx a = load_if (select_message idx a)

abbrev pub start_search : App → App
start_search a = record a { mode = search; search_input = a.search_query }

abbrev pub ask_delete_all : App → App
ask_delete_all a = record a { mode = confirm; confirm_action = some (codes "delete_all") }

unfoldable pub move_last : App → App
unfolding move_to
move_last a = move_to (length a.messages - 1) a

unfoldable pub move_first : App → App
unfolding move_to
move_first a = move_to 0 a

-- A match on the character of a key.
abbrev pub press : List (ℕ × (App → App)) → ℕ → App → App
press [] c a = a
press ((k, f) ∷ keys) c a = let rest = press keys c a in if c == k then f a else rest

abbrev pub list_keys : List (ℕ × (App → App))
list_keys =
    ((b'q', quit)
      ∷ (b'j', move_next)
      ∷ (b'k', move_prev)
      ∷ (b'g', move_first)
      ∷ (b'G', move_last)
      ∷ (b'l', look_at preview)
      ∷ (b'/', start_search)
      ∷ (b'r', toggle_read)
      ∷ (b's', toggle_star)
      ∷ (b'd', delete_selected)
      ∷ (b'D', ask_delete_all)
      ∷ (b'R', show_raw)
      ∷ (b']', next_page)
      ∷ (b'[', prev_page)
      ∷ (b'?', show_mode help)
      ∷ [])

unfoldable pub handle_list_char : ℕ → App → App
unfolding move_next move_prev move_first move_last toggle_read toggle_star delete_selected show_raw
    next_page prev_page
handle_list_char = press list_keys

unfoldable pub handle_list_key : KeyCode → App → App
unfolding handle_list_char
handle_list_key (char c) a = handle_list_char c a
handle_list_key down a = move_next a
handle_list_key up a = move_prev a
handle_list_key enter a = look_at preview a
handle_list_key right a = look_at preview a
handle_list_key tab a = look_at preview a
handle_list_key _ a = a

abbrev pub scroll_preview_down : ℕ → App → App
scroll_preview_down n a = record a { preview_scroll = saturating_add a.preview_scroll n }

abbrev pub scroll_preview_up : ℕ → App → App
scroll_preview_up n a = record a { preview_scroll = a.preview_scroll - n }

abbrev pub switch_preview_tab : PreviewTab → App → App
switch_preview_tab t a = record a { preview_tab = t; preview_scroll = 0 }

unfoldable pub open_raw_tab : App → App
unfolding ensure_raw_loaded
open_raw_tab a = ensure_raw_loaded (switch_preview_tab raw a)

abbrev pub preview_keys : List (ℕ × (App → App))
preview_keys =
    ((b'q', quit)
      ∷ (b'h', look_at list)
      ∷ (b'j', scroll_preview_down 1)
      ∷ (b'k', scroll_preview_up 1)
      ∷ (b'1', switch_preview_tab text)
      ∷ (b'2', switch_preview_tab headers)
      ∷ (b'3', open_raw_tab)
      ∷ (b'r', toggle_read)
      ∷ (b's', toggle_star)
      ∷ (b'd', delete_selected)
      ∷ (b'R', show_raw)
      ∷ [])

unfoldable pub handle_preview_char : ℕ → App → App
unfolding open_raw_tab toggle_read toggle_star delete_selected show_raw
handle_preview_char = press preview_keys

unfoldable pub handle_preview_key : KeyCode → App → App
unfolding handle_preview_char
handle_preview_key (char c) a = handle_preview_char c a
handle_preview_key esc a = look_at list a
handle_preview_key left a = look_at list a
handle_preview_key tab a = look_at list a
handle_preview_key back_tab a = look_at list a
handle_preview_key down a = scroll_preview_down 1 a
handle_preview_key up a = scroll_preview_up 1 a
handle_preview_key _ a = a

-- The list of another query, from its start.
unfoldable pub search_for : Text → App → App
unfolding fetch_messages
search_for query a =
    fetch_messages
      (record a { search_query = query; mode = normal; offset = 0; view_changed = true })

-- `String::pop`
abbrev pub pop : Text → Text
pop [] = []
pop (c ∷ []) = []
pop (c ∷ d ∷ s) = c ∷ pop (d ∷ s)

unfoldable pub handle_search_key : KeyCode → App → App
unfolding search_for
handle_search_key enter a = search_for a.search_input a
handle_search_key esc a =
    if is_empty a.search_input && not (is_empty a.search_query)
    then search_for [] a
    else show_mode normal a
handle_search_key backspace a = record a { search_input = pop a.search_input }
handle_search_key (char c) a = record a { search_input = a.search_input ++ c ∷ [] }
handle_search_key _ a = a

abbrev pub close_raw : App → App
close_raw a = record a { mode = normal; raw_content = none; raw_notice = none; raw_scroll = 0 }

abbrev pub scroll_raw_down : App → App
scroll_raw_down a = record a { raw_scroll = saturating_add a.raw_scroll 1 }

abbrev pub scroll_raw_up : App → App
scroll_raw_up a = record a { raw_scroll = a.raw_scroll - 1 }

abbrev pub raw_view_keys : List (ℕ × (App → App))
raw_view_keys = (b'q', close_raw) ∷ (b'j', scroll_raw_down) ∷ (b'k', scroll_raw_up) ∷ []

unfoldable pub handle_raw_view_key : KeyCode → App → App
handle_raw_view_key (char c) a = press raw_view_keys c a
handle_raw_view_key esc a = close_raw a
handle_raw_view_key down a = scroll_raw_down a
handle_raw_view_key up a = scroll_raw_up a
handle_raw_view_key _ a = a

unfoldable pub delete_all : App → App
unfolding spawn
delete_all a = spawn delete_all_messages a

abbrev pub close_confirm : App → App
close_confirm a = record a { mode = normal; confirm_action = none }

abbrev pub is_yes : KeyCode → Bool
is_yes (char c) = c == b'y' || c == b'Y'
is_yes _ = false

unfoldable pub confirmed : App → App
unfolding delete_all same_option
confirmed a = if same_option a.confirm_action (some (codes "delete_all")) then delete_all a else a

unfoldable pub handle_confirm_key : KeyCode → App → App
unfolding confirmed
handle_confirm_key k a = if is_yes k then close_confirm (confirmed a) else close_confirm a

unfoldable pub handle_help_key : KeyCode → App → App
handle_help_key (char c) a = if c == b'q' || c == b'?' then show_mode normal a else a
handle_help_key esc a = show_mode normal a
handle_help_key enter a = show_mode normal a
handle_help_key _ a = a

unfoldable pub handle_normal_key : Focus → KeyCode → App → App
unfolding handle_list_key handle_preview_key
handle_normal_key list k a = handle_list_key k a
handle_normal_key preview k a = handle_preview_key k a

unfoldable pub handle_mode_key : Mode → KeyCode → App → App
unfolding handle_search_key handle_raw_view_key handle_confirm_key handle_help_key handle_normal_key
handle_mode_key search k a = handle_search_key k a
handle_mode_key raw_view k a = handle_raw_view_key k a
handle_mode_key confirm k a = handle_confirm_key k a
handle_mode_key help k a = handle_help_key k a
handle_mode_key normal k a = handle_normal_key a.focus k a

abbrev pub is_char : ℕ → KeyCode → Bool
is_char c (char d) = d == c
is_char c _ = false

unfoldable pub handle_key : KeyEvent → App → App
unfolding handle_mode_key
handle_key k a =
    if is_char b'c' k.code && k.control then quit a else handle_mode_key a.mode k.code a
