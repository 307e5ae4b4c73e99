-- ===== src/Tui/Preview.antt =====
-- The methods of `App` in crates/rustmail-tui/src/app.rs about the message shown: its preview, its
-- source, its flags.
use rustmail.Prelude.{
  ℕ, Bool, true, false, not, ◌&&◌, ◌||◌, Option, none, some, ◌++◌, ◌==◌, ltb, if◌then◌else◌,
}
use rustmail.Prelude.Text.{Text, codes}
use rustmail.Tui.Types.{
  next_u64, MessageSummary, Message, RawTarget, preview, full_view, Fetched, got, failed, text,
  raw_view, raw_preview_limit_bytes,
}
use rustmail.Tui.Selection.{SelectionAnchor}
use rustmail.Tui.App.{
  App, get_message, get_raw_message, update_message, delete_message, RawNotice, set_error, spawn,
  selected_message, is_selected, same_option, reanchor_selection,
}

abbrev pub no_preview : App → App
no_preview a = record a {
  preview = none;
  last_preview_id = none;
  pending_preview = none;
  preview_raw = none;
  preview_raw_notice = none;
  pending_raw = none;
}

abbrev pub awaiting_preview : App → App
awaiting_preview a = record a {
  last_request_id = next_u64 a.last_request_id;
  preview_loading = true;
  preview_scroll = 0;
  preview_raw = none;
  preview_raw_notice = none;
  preview_tab = text;
  pending_preview = some (next_u64 a.last_request_id);
  pending_raw = none;
}

-- A preview that is not shown yet: `load_preview` from the second test on.
unfoldable pub request_preview : MessageSummary → App → App
unfolding spawn
request_preview m a =
    spawn (get_message (next_u64 a.last_request_id) m.id (not m.is_read)) (awaiting_preview a)

unfoldable pub load_preview_of : Option MessageSummary → App → App
unfolding same_option request_preview
load_preview_of none a = no_preview a
load_preview_of (some m) a =
    if same_option a.last_preview_id (some m.id)
    then record a { pending_preview = none; preview_loading = false }
    else request_preview m a

unfoldable pub load_preview : App → App
unfolding load_preview_of
load_preview a = load_preview_of (selected_message a) a

unfoldable pub retarget_preview : App → App
unfolding load_preview
retarget_preview a = load_preview (no_preview a)

unfoldable pub retarget_if : Bool × App → App
unfolding retarget_preview
retarget_if (moved, a) = if moved && not a.loading then retarget_preview a else a

unfoldable pub restore_selection : SelectionAnchor → App → App
unfolding retarget_if reanchor_selection
restore_selection anchor a = retarget_if (reanchor_selection anchor a)

-- What `if self.select_…() { self.load_preview() }` leads to.
unfoldable pub load_if : Bool × App → App
unfolding load_preview
load_if (moved, a) = if moved then load_preview a else a

abbrev pub awaits : Option ℕ → ℕ → Bool
awaits none request = false
awaits (some r) request = r == request

-- The match on the answer, for the message that is still selected.
unfoldable pub show_preview : Text → Bool → Fetched Message → App → App
unfolding spawn set_error
show_preview id was_unread (got detail) a =
    let b = record a { last_preview_id = some id; preview = some detail } in
    if was_unread then spawn (update_message id (some true) none) b else b
show_preview id was_unread (failed e) a = set_error (codes "Failed to load message: " ++ e) a

unfoldable pub handle_preview_loaded : ℕ → Text → Bool → Fetched Message → App → App
unfolding is_selected show_preview
handle_preview_loaded request id was_unread result a =
    if not (awaits a.pending_preview request) || not (is_selected id a)
    then a
    else show_preview id was_unread result
        (record a { pending_preview = none; preview_loading = false })

abbrev pub on_selected : (MessageSummary → App → App) → Option MessageSummary → App → App
on_selected f none a = a
on_selected f (some m) a = f m a

unfoldable pub flip_read : MessageSummary → App → App
unfolding spawn
flip_read m = spawn (update_message m.id (some (not m.is_read)) none)

unfoldable pub toggle_read : App → App
unfolding flip_read
toggle_read a = on_selected flip_read (selected_message a) a

unfoldable pub flip_star : MessageSummary → App → App
unfolding spawn
flip_star m = spawn (update_message m.id none (some (not m.is_starred)))

unfoldable pub toggle_star : App → App
unfolding flip_star
toggle_star a = on_selected flip_star (selected_message a) a

unfoldable pub delete_it : MessageSummary → App → App
unfolding spawn
delete_it m = spawn (delete_message m.id)

unfoldable pub delete_selected : App → App
unfolding delete_it
delete_selected a = on_selected delete_it (selected_message a) a

abbrev pub awaiting_raw : RawTarget → App → App
awaiting_raw target a = record a {
  last_request_id = next_u64 a.last_request_id;
  pending_raw = some (target, next_u64 a.last_request_id);
}

unfoldable pub request_raw : RawTarget → MessageSummary → App → App
unfolding spawn
request_raw target m a =
    spawn (get_raw_message target (next_u64 a.last_request_id) m.id m.size raw_preview_limit_bytes)
      (awaiting_raw target a)

unfoldable pub show_raw : App → App
unfolding request_raw
show_raw a = on_selected (request_raw full_view) (selected_message a) a

unfoldable pub ensure_raw : Option Text → App → App
unfolding request_raw
ensure_raw (some raw) a = a
ensure_raw none a = on_selected (request_raw preview) (selected_message a) a

unfoldable pub ensure_raw_loaded : App → App
unfolding ensure_raw
ensure_raw_loaded a = ensure_raw a.preview_raw a

abbrev pub same_target : RawTarget → RawTarget → Bool
same_target preview preview = true
same_target full_view full_view = true
same_target _ _ = false

abbrev pub awaits_raw : Option (RawTarget × ℕ) → RawTarget → ℕ → Bool
awaits_raw none target request = false
awaits_raw (some (t, r)) target request = same_target t target && r == request

abbrev pub export_url : Text → Text → Text
export_url base_url id = base_url ++ codes "/api/v1/messages/" ++ id ++ codes "/export"

unfoldable pub raw_truncation_notice : ℕ → Text → Option RawNotice
raw_truncation_notice size url =
    if ltb raw_preview_limit_bytes size
    then some (record { shown = raw_preview_limit_bytes; whole = size; export_url = url })
    else none

unfoldable pub show_source : RawTarget → Text → ℕ → Fetched Text → App → App
unfolding raw_truncation_notice set_error
show_source full_view id size (got raw) a = record a {
  raw_content = some raw;
  raw_notice = raw_truncation_notice size (export_url a.base_url id);
  raw_scroll = 0;
  mode = raw_view;
}
show_source preview id size (got raw) a = record a {
  preview_raw = some raw;
  preview_raw_notice = raw_truncation_notice size (export_url a.base_url id);
}
show_source full_view id size (failed e) a = set_error (codes "Failed to load raw message: " ++ e) a
show_source preview id size (failed e) a = set_error (codes "Failed to load raw: " ++ e) a

unfoldable pub handle_raw_loaded : RawTarget → ℕ → Text → ℕ → Fetched Text → App → App
unfolding is_selected show_source
handle_raw_loaded target request id size result a =
    let for_another_message = same_target target preview && not (is_selected id a) in
    if not (awaits_raw a.pending_raw target request) || for_another_message
    then a
    else show_source target id size result (record a { pending_raw = none })
