-- ===== src/Tui/App.antt =====
-- The state `App` of crates/rustmail-tui/src/app.rs, and the methods that its handlers share.
-- What a method spawns is a `Request` at the end of `spawned`; the event that the request's task sends
-- back is an input of the model. `now` is the clock, in milliseconds; `finished` are the tasks that
-- `JoinSet` has not joined yet, with the message of those that panicked.
use rustmail.Prelude.{
  ℕ, ◌+◌, ◌-◌, min, Bool, true, false, not, ◌&&◌, Option, none, some, List, [], ◌∷◌, ◌++◌, map,
  length, get_elem?, is_empty, ltb, ◌==◌, if◌then◌else◌,
}
use rustmail.Prelude.Text.{Text, codes, same}
use rustmail.Tui.Types.{
  MessageSummary, Message, PendingDeltas, no_deltas, RawTarget, Mode, normal, Focus, list,
  PreviewTab, text, next_u64,
}
use rustmail.Tui.Selection.{SelectionAnchor, resolve_selection}

-- What a spawned task does.
pub data Request : Type 0 where
  connect_websocket : Request
  list_messages : Option Text → ℕ → ℕ → ℕ → Request
  get_message : ℕ → Text → Bool → Request
  get_raw_message : RawTarget → ℕ → Text → ℕ → ℕ → Request
  update_message : Text → Option Bool → Option Bool → Request
  delete_message : Text → Request
  delete_all_messages : Request

-- What the text of `raw_truncation_notice` is formatted from.
pub record RawNotice : Type 0 where
  pub shown : ℕ
  pub whole : ℕ
  pub export_url : Text

-- What was last set of a `ScrollbarState`.
pub record Scrollbar : Type 0 where
  pub content_length : ℕ
  pub position : ℕ

pub record Rect : Type 0 where
  pub x : ℕ
  pub y : ℕ
  pub width : ℕ
  pub height : ℕ

pub record App : Type 0 where
  pub running : Bool
  pub mode : Mode
  pub focus : Focus
  pub base_url : Text
  pub spawned : List Request
  pub finished : List (Option Text)
  pub now : ℕ
  pub fetch_generation : ℕ
  pub last_request_id : ℕ
  pub pending_deltas : PendingDeltas
  pub messages : List MessageSummary
  pub total : ℕ
  pub selected : ℕ
  pub offset : ℕ
  pub page_size : ℕ
  pub list_selected : Option ℕ
  pub list_offset : ℕ
  pub list_scrollbar_state : Scrollbar
  pub preview : Option Message
  pub preview_scroll : ℕ
  pub preview_loading : Bool
  pub preview_tab : PreviewTab
  pub preview_raw : Option Text
  pub preview_raw_notice : Option RawNotice
  pub last_preview_id : Option Text
  pub pending_preview : Option ℕ
  pub raw_content : Option Text
  pub raw_notice : Option RawNotice
  pub raw_scroll : ℕ
  pub pending_raw : Option (RawTarget × ℕ)
  pub search_query : Text
  pub search_input : Text
  pub confirm_action : Option Text
  pub error : Option Text
  pub error_ticks : ℕ
  pub loading : Bool
  pub view_stale : Bool
  pub view_changed : Bool
  pub last_fetch_at : Option ℕ
  pub ws_connected : Bool
  pub ws_ever_connected : Bool
  pub spinner_frame : ℕ
  pub list_area : Rect
  pub list_table_area : Rect
  pub preview_area : Rect
  pub tab_area : Rect
  pub tab_ranges : List (ℕ × ℕ)

abbrev no_area : Rect
no_area = record { x = 0; y = 0; width = 0; height = 0 }

unfoldable pub new : Text → App
new base_url = record {
  running = true;
  mode = normal;
  focus = list;
  base_url = base_url;
  spawned = [];
  finished = [];
  now = 0;
  fetch_generation = 0;
  last_request_id = 0;
  pending_deltas = no_deltas;
  messages = [];
  total = 0;
  selected = 0;
  offset = 0;
  page_size = 50;
  list_selected = some 0;
  list_offset = 0;
  list_scrollbar_state = record { content_length = 0; position = 0 };
  preview = none;
  preview_scroll = 0;
  preview_loading = false;
  preview_tab = text;
  preview_raw = none;
  preview_raw_notice = none;
  last_preview_id = none;
  pending_preview = none;
  raw_content = none;
  raw_notice = none;
  raw_scroll = 0;
  pending_raw = none;
  search_query = [];
  search_input = [];
  confirm_action = none;
  error = none;
  error_ticks = 0;
  loading = false;
  view_stale = false;
  view_changed = false;
  last_fetch_at = none;
  ws_connected = false;
  ws_ever_connected = false;
  spinner_frame = 0;
  list_area = no_area;
  list_table_area = no_area;
  preview_area = no_area;
  tab_area = no_area;
  tab_ranges = (0, 0) ∷ (0, 0) ∷ (0, 0) ∷ [];
}

unfoldable pub set_error : Text → App → App
set_error msg a = record a { error = some msg; error_ticks = 0 }

-- The loop of `reap_finished_tasks`, over the tasks that it joins.
unfoldable pub reap : List (Option Text) → App → App
unfolding set_error
reap [] a = record a { finished = [] }
reap (none ∷ ts) a = reap ts a
reap (some e ∷ ts) a = reap ts (set_error (codes "Background task failed: " ++ e) a)

-- `spawn_owned` and `spawn_and_send`
unfoldable pub spawn : Request → App → App
unfolding reap
spawn r a = let b = reap a.finished a in record b { spawned = b.spawned ++ r ∷ [] }

abbrev pub selected_message : App → Option MessageSummary
selected_message a = get_elem? a.messages a.selected

abbrev pub id_of : Option MessageSummary → Option Text
id_of none = none
id_of (some m) = some m.id

abbrev pub selected_id : App → Option Text
selected_id a = id_of (selected_message a)

unfoldable pub same_option : Option Text → Option Text → Bool
same_option (some s) (some t) = same s t
same_option none none = true
same_option _ _ = false

unfoldable pub is_selected : Text → App → Bool
unfolding same_option
is_selected id a = same_option (selected_id a) (some id)

unfoldable pub preview_matches_selection : App → Bool
unfolding same_option
preview_matches_selection a = same_option a.last_preview_id (selected_id a)

unfoldable pub sync_list_state : App → App
sync_list_state a = record a {
  list_selected = some a.selected;
  list_scrollbar_state = record { content_length = length a.messages; position = a.selected };
}

unfoldable pub select_message : ℕ → App → Bool × App
unfolding sync_list_state
select_message idx a =
    if ltb idx (length a.messages) && not (idx == a.selected)
    then (true, sync_list_state (record a { selected = idx }))
    else (false, a)

unfoldable pub select_next : App → Bool × App
unfolding select_message
select_next a =
    if is_empty a.messages
    then (false, a)
    else select_message (min (a.selected + 1) (length a.messages - 1)) a

unfoldable pub select_prev : App → Bool × App
unfolding select_message
select_prev a = if is_empty a.messages then (false, a) else select_message (a.selected - 1) a

abbrev pub capture_selection : App → SelectionAnchor
capture_selection a = record { ids = map (λ m. m.id) a.messages; index = a.selected }

abbrev ids_of_option : Option Text → List Text
ids_of_option none = []
ids_of_option (some id) = id ∷ []

abbrev pub capture_selected_only : App → SelectionAnchor
capture_selected_only a = record { ids = ids_of_option (selected_id a); index = 0 }

-- The new state, and whether the cursor rests on another message.
unfoldable pub reanchor_selection : SelectionAnchor → App → Bool × App
unfolding sync_list_state resolve_selection same_option
reanchor_selection anchor a =
    let b =
      sync_list_state
        (record a { selected = resolve_selection anchor.ids anchor.index a.messages }) in
    (not (same_option (selected_id b) (get_elem? anchor.ids anchor.index)), b)

abbrev pub fetching : App → App
fetching a = record a {
  loading = true;
  last_fetch_at = some a.now;
  fetch_generation = next_u64 a.fetch_generation;
}

abbrev pub list_request : App → Request
list_request a =
    list_messages (if is_empty a.search_query then none else some a.search_query) a.page_size
      a.offset a.fetch_generation

unfoldable pub fetch_messages : App → App
unfolding spawn
fetch_messages a = spawn (list_request (fetching a)) (fetching a)
