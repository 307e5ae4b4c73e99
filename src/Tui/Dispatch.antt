-- ===== src/Tui/Dispatch.antt =====
-- `dispatch` of crates/rustmail-tui/src/app.rs, with the mouse and the clock.
use rustmail.Prelude.{
  ℕ, ◌+◌, ◌-◌, ◌/◌, ◌%◌, ◌^◌, Bool, true, not, ◌&&◌, ◌||◌, Option, none, some, List, [], ◌∷◌, ◌++◌,
  min, leb, ltb, if◌then◌else◌,
}
use rustmail.Prelude.Text.{Text}
use rustmail.Tui.Types.{
  WsEvent, Event, key, mouse, resize, tick, ws_overflow, ws_message, ws_status, messages_fetched,
  preview_loaded, raw_loaded, patched, deleted, all_deleted, MouseEventKind, left_down, scroll_down,
  scroll_up, other, MouseEvent, list, preview, PreviewTab, text, headers, raw,
}
use rustmail.Tui.App.{App, connect_websocket, Rect, new, spawn, fetch_messages}
use rustmail.Tui.Preview.{handle_preview_loaded, handle_raw_loaded}
use rustmail.Tui.Live.{
  handle_ws_message, handle_ws_overflow, handle_ws_status, handle_messages_fetched, handle_patched,
  handle_deleted, handle_all_deleted,
}
use rustmail.Tui.Input.{
  handle_key, look_at, switch_preview_tab, open_raw_tab, move_to, move_next, move_prev,
  scroll_preview_down, scroll_preview_up,
}

-- What the client calls: serde's parser of `WsEvent`, and `Rect::contains` of a column and a row.
pub record External : Type 0 where
  pub parse : Text → Option WsEvent
  pub contains : Rect → ℕ → ℕ → Bool

unfoldable pub open_tab : PreviewTab → App → App
unfolding open_raw_tab
open_tab raw a = open_raw_tab a
open_tab t a = switch_preview_tab t a

-- The loop over the tabs, up to the first one hit.
unfoldable pub click_tab : ℕ → List (PreviewTab × (ℕ × ℕ)) → App → App
unfolding open_tab
click_tab abs_x [] a = a
click_tab abs_x ((t, (start, end)) ∷ tabs) a =
    let rest = click_tab abs_x tabs a in
    let here = open_tab t a in
    if leb ((a.tab_area.x + start) % 2 ^ 16) abs_x && ltb abs_x ((a.tab_area.x + end) % 2 ^ 16)
    then here
    else rest

abbrev pub tabs_with : List (ℕ × ℕ) → List (PreviewTab × (ℕ × ℕ))
tabs_with (p ∷ q ∷ r ∷ ranges) = (text, p) ∷ (headers, q) ∷ (raw, r) ∷ []
tabs_with _ = []

-- A click on a row, two lines to a message.
unfoldable pub click_row : ℕ → App → App
unfolding move_to
click_row row a = move_to (a.list_offset + (row - a.list_table_area.y) / 2) (look_at list a)

abbrev pub age_error : Option Text → App → App
age_error none a = a
age_error (some e) a =
    let ticks = (a.error_ticks + 1) % 2 ^ 16 in
    if leb 50 ticks
    then record a { error = none; error_ticks = 0 }
    else record a { error_ticks = ticks }

abbrev pub spin : App → App
spin a =
    if a.loading || a.preview_loading
    then record a { spinner_frame = (a.spinner_frame + 1) % 10 }
    else a

unfoldable pub on_tick : App → App
on_tick a = spin (age_error a.error a)

-- `STALE_VIEW_REFETCH_INTERVAL`, against the time of the last fetch.
abbrev pub throttle_elapsed : Option ℕ → ℕ → Bool
throttle_elapsed none now = true
throttle_elapsed (some at) now = leb 2000 (now - at)

unfoldable pub refetch_if_stale : App → App
unfolding fetch_messages
refetch_if_stale a =
    if a.view_stale && not a.loading && throttle_elapsed a.last_fetch_at a.now
    then fetch_messages a
    else a

unfoldable pub start : Text → App
unfolding new spawn fetch_messages
start base_url = fetch_messages (spawn connect_websocket (new base_url))

-- What `ui::render` and its widgets write into the state: where things were drawn, how far the list
-- is scrolled, and how far the preview may be.
pub record Frame : Type 0 where
  pub list_area : Rect
  pub list_table_area : Rect
  pub preview_area : Rect
  pub tab_area : Rect
  pub tab_ranges : List (ℕ × ℕ)
  pub list_offset : ℕ
  pub max_scroll : ℕ

abbrev pub draw_frame : Frame → App → App
draw_frame f a = record a {
  list_area = f.list_area;
  list_table_area = f.list_table_area;
  preview_area = f.preview_area;
  tab_area = f.tab_area;
  tab_ranges = f.tab_ranges;
  list_offset = f.list_offset;
  preview_scroll = min a.preview_scroll f.max_scroll;
}

pub data Step : Type 0 where
  handled : Event → Step
  wait : (elapsed : ℕ) (ended : List (Option Text)) → Step
  draw : Frame → Step

module _ (x : External) where
  unfoldable pub click : ℕ → ℕ → App → App
  unfolding click_tab click_row
  click column row a =
      if x.contains a.tab_area column row
      then look_at preview (click_tab column (tabs_with a.tab_ranges) a)
      else if x.contains a.list_table_area column row
      then click_row row a
      else if x.contains a.list_area column row
      then look_at list a
      else if x.contains a.preview_area column row
      then look_at preview a
      else a

  -- The wheel, over the list or over the preview.
  abbrev pub wheel : (App → App) → (App → App) → MouseEvent → App → App
  wheel in_list in_preview e a =
      if x.contains a.list_area e.column e.row
      then in_list a
      else if x.contains a.preview_area e.column e.row
      then in_preview a
      else a

  unfoldable pub handle_mouse : MouseEventKind → MouseEvent → App → App
  unfolding click move_next move_prev
  handle_mouse left_down e a = click e.column e.row a
  handle_mouse scroll_down e a = wheel move_next (scroll_preview_down 3) e a
  handle_mouse scroll_up e a = wheel move_prev (scroll_preview_up 3) e a
  handle_mouse other e a = a

  unfoldable pub dispatch : Event → App → App
  unfolding handle_key handle_mouse on_tick refetch_if_stale handle_ws_message handle_ws_overflow
      handle_ws_status handle_messages_fetched handle_preview_loaded handle_raw_loaded
      handle_patched handle_deleted handle_all_deleted
  dispatch (key k) a = handle_key k a
  dispatch (mouse e) a = handle_mouse e.kind e a
  dispatch resize a = a
  dispatch tick a = refetch_if_stale (on_tick a)
  dispatch (ws_message msg) a = handle_ws_message x.parse msg a
  dispatch (ws_status connected) a = handle_ws_status connected a
  dispatch ws_overflow a = handle_ws_overflow a
  dispatch (messages_fetched generation result) a = handle_messages_fetched generation result a
  dispatch (preview_loaded request id was_unread result) a =
      handle_preview_loaded request id was_unread result a
  dispatch (raw_loaded target request id size result) a =
      handle_raw_loaded target request id size result a
  dispatch (patched id is_read is_starred result) a = handle_patched id is_read is_starred result a
  dispatch (deleted id result) a = handle_deleted id result a
  dispatch (all_deleted result) a = handle_all_deleted result a

  -- What happens in `event_loop`, in any order: an event is handled; time passes, in which tasks
  -- end; and a frame is drawn.
  unfoldable pub step : Step → App → App
  unfolding dispatch
  step (handled e) a = dispatch e a
  step (wait elapsed ended) a = record a { now = a.now + elapsed; finished = a.finished ++ ended }
  step (draw f) a = draw_frame f a

  -- `event_loop`: it stops at the event that ends the program.
  unfoldable pub run_events : List Step → App → App
  unfolding step
  run_events [] a = a
  run_events (s ∷ ss) a = let next = run_events ss (step s a) in if a.running then next else a
