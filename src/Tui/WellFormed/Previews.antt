-- ===== src/Tui/WellFormed/Previews.antt =====
-- The preview, the source and the flags of a message keep a well-formed `App` so.
use rustmail.Prelude.{ℕ, refl, sym, Bool, false, Option, none, some}
use rustmail.Prelude.Text.{Text}
use rustmail.Tui.Types.{
  MessageSummary, Fetched, got, failed, Message, RawTarget, preview, full_view,
}
use rustmail.Tui.App.{App, selected_message}
use rustmail.Tui.Preview.{
  awaiting_raw, show_preview, handle_preview_loaded, toggle_read, toggle_star, flip_read, flip_star,
  delete_it, delete_selected, request_raw, show_raw, ensure_raw, ensure_raw_loaded, on_selected,
  show_source, handle_raw_loaded,
}
use rustmail.Tui.WellFormed.{WellFormed, if-Keeps}
use rustmail.Tui.WellFormed.Steps.{
  set_error-WellFormed, true-ne-false, spawn-WellFormed, await-WellFormed,
}

pub shown-WellFormed :
    (id : Text) (m : Message) (a : App)
    → WellFormed a
    → WellFormed (record a { last_preview_id = some id; preview = some m })
shown-WellFormed id m a h = record {
  base = record {
    paged = h.base.paged;
    capped = h.base.capped;
    idle = h.base.idle;
    awaited = h.base.awaited;
    shown = refl;
    viewed = h.base.viewed;
    asked = h.base.asked;
    ticks = h.base.ticks;
    frame = h.base.frame;
  };
  pointed = h.pointed;
}

pub show_preview-WellFormed :
    (id : Text) (unread : Bool) (r : Fetched Message) (a : App)
    → WellFormed a
    → WellFormed (show_preview id unread r a)
unfolding show_preview
show_preview-WellFormed id unread (got m) a h =
    if-Keeps WellFormed unread _ _ (λ e. spawn-WellFormed _ _ (shown-WellFormed id m a h))
      (λ e. shown-WellFormed id m a h)
show_preview-WellFormed id unread (failed e) a h = set_error-WellFormed _ a h

pub handle_preview_loaded-WellFormed :
    (request : ℕ) (id : Text) (unread : Bool) (r : Fetched Message) (a : App)
    → WellFormed a
    → WellFormed (handle_preview_loaded request id unread r a)
unfolding handle_preview_loaded
handle_preview_loaded-WellFormed request id unread r a h =
    if-Keeps WellFormed _ _ _ (λ e. h)
      (λ e. show_preview-WellFormed id unread r _ (await-WellFormed false none a (λ e. refl) h))

pub on_selected-WellFormed :
    (f : MessageSummary → App → App) (o : Option MessageSummary) (a : App)
    → ((m : MessageSummary) → WellFormed (f m a))
    → WellFormed a
    → WellFormed (on_selected f o a)
on_selected-WellFormed f none a h k = k
on_selected-WellFormed f (some m) a h k = h m

pub toggle_read-WellFormed : (a : App) → WellFormed a → WellFormed (toggle_read a)
unfolding toggle_read flip_read
toggle_read-WellFormed a h =
    on_selected-WellFormed flip_read (selected_message a) a (λ m. spawn-WellFormed _ a h) h

pub toggle_star-WellFormed : (a : App) → WellFormed a → WellFormed (toggle_star a)
unfolding toggle_star flip_star
toggle_star-WellFormed a h =
    on_selected-WellFormed flip_star (selected_message a) a (λ m. spawn-WellFormed _ a h) h

pub delete_selected-WellFormed : (a : App) → WellFormed a → WellFormed (delete_selected a)
unfolding delete_selected delete_it
delete_selected-WellFormed a h =
    on_selected-WellFormed delete_it (selected_message a) a (λ m. spawn-WellFormed _ a h) h

pub request_raw-WellFormed :
    (t : RawTarget) (m : MessageSummary) (a : App) → WellFormed a → WellFormed (request_raw t m a)
unfolding request_raw
request_raw-WellFormed t m a h =
    spawn-WellFormed _ (awaiting_raw t a) (record { base = h.base; pointed = h.pointed })

pub show_raw-WellFormed : (a : App) → WellFormed a → WellFormed (show_raw a)
unfolding show_raw
show_raw-WellFormed a h =
    on_selected-WellFormed (request_raw full_view) (selected_message a) a
      (λ m. request_raw-WellFormed full_view m a h) h

pub ensure_raw-WellFormed : (o : Option Text) (a : App) → WellFormed a → WellFormed (ensure_raw o a)
unfolding ensure_raw
ensure_raw-WellFormed (some raw) a h = h
ensure_raw-WellFormed none a h =
    on_selected-WellFormed (request_raw preview) (selected_message a) a
      (λ m. request_raw-WellFormed preview m a h) h

pub ensure_raw_loaded-WellFormed : (a : App) → WellFormed a → WellFormed (ensure_raw_loaded a)
unfolding ensure_raw_loaded
ensure_raw_loaded-WellFormed a h = ensure_raw-WellFormed a.preview_raw a h

pub show_source-WellFormed :
    (t : RawTarget) (id : Text) (size : ℕ) (r : Fetched Text) (a : App)
    → WellFormed a
    → WellFormed (show_source t id size r a)
unfolding show_source
show_source-WellFormed full_view id size (got raw) a h = record {
  base = record {
    paged = h.base.paged;
    capped = h.base.capped;
    idle = h.base.idle;
    awaited = h.base.awaited;
    shown = h.base.shown;
    viewed = refl;
    asked = λ e. absurd (true-ne-false (sym e));
    ticks = h.base.ticks;
    frame = h.base.frame;
  };
  pointed = h.pointed;
}
show_source-WellFormed preview id size (got raw) a h = record { base = h.base; pointed = h.pointed }
show_source-WellFormed full_view id size (failed e) a h = set_error-WellFormed _ a h
show_source-WellFormed preview id size (failed e) a h = set_error-WellFormed _ a h

pub handle_raw_loaded-WellFormed :
    (t : RawTarget) (request : ℕ) (id : Text) (size : ℕ) (r : Fetched Text) (a : App)
    → WellFormed a
    → WellFormed (handle_raw_loaded t request id size r a)
unfolding handle_raw_loaded
handle_raw_loaded-WellFormed t request id size r a h =
    if-Keeps WellFormed _ _ _ (λ e. h)
      (λ e.
        show_source-WellFormed t id size r (record a { pending_raw = none })
          (record { base = h.base; pointed = h.pointed }))
