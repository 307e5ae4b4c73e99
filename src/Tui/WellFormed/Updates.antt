-- ===== src/Tui/WellFormed/Updates.antt =====
-- The live updates keep a well-formed `App` so.
use rustmail.Prelude.{
  ℕ, zero, suc, ◌+◌, ◌-◌, ◌≤◌, ◌≡◌, refl, ap, Bool, true, not, ◌&&◌, ◌||◌, Option, none, some, List,
  [], ◌∷◌, length, length-append, is_empty, leb, ◌==◌, if◌then◌else◌, Bool-cases, inl, inr, arith,
}
use rustmail.Prelude.Text.{Text, same}
use rustmail.Tui.Types.{
  MessageSummary, ListResponse, WsEvent, message_new, message_delete, message_read, message_starred,
  message_tags, messages_clear, PendingDeltas, record_delta, pending_delta_capacity, Fetched, got,
  failed,
}
use rustmail.Tui.App.{App, capture_selection, capture_selected_only}
use rustmail.Tui.Live.{
  is_listed, put_first, remove_first, retain_other, with_status, no_error, snapshot, idle,
  update_first, updated, apply_update, insert_arrival, apply_event, remember, on_parsed,
  handle_ws_message, handle_ws_overflow, handle_ws_status, replay_delta, replay_from, replay_deltas,
  settle, land, handle_messages_fetched, handle_patched, handle_deleted, handle_all_deleted, is_new,
}
use rustmail.Tui.WellFormed.{Base, WellFormed, if-Keeps}
use rustmail.Tui.WellFormed.Steps.{
  set_error-WellFormed, restore_selection-WellFormed, reanchor_selection-WellFormed,
  retarget_preview-WellFormed, fetch_messages-WellFormed,
}

pub length-update_first :
    (id : Text) (f : MessageSummary → MessageSummary) (ms : List MessageSummary)
    → length (update_first id f ms) ≡ length ms
unfolding update_first
length-update_first id f [] = refl
length-update_first id f (m ∷ ms) = elim (Bool-cases (same m.id id)) [
  | inl here ↦ rw here refl
  | inr on ↦ rw on (ap suc (length-update_first id f ms))
]

length-updated : (e : WsEvent) (ms : List MessageSummary) → length (updated e ms) ≡ length ms
unfolding updated
length-updated (message_read id v) ms = length-update_first id _ ms
length-updated (message_starred id v) ms = length-update_first id _ ms
length-updated (message_tags id v) ms = length-update_first id _ ms
length-updated (message_new m) ms = refl
length-updated (message_delete id) ms = refl
length-updated messages_clear ms = refl

-- A list of the same length in place of the old one.
replaced-WellFormed :
    (a : App) (ms : List MessageSummary)
    → length ms ≡ length a.messages
    → WellFormed a
    → WellFormed (record a { messages = ms })
replaced-WellFormed a ms e h = record {
  base = h.base;
  pointed = record {
    within = rw e h.pointed.within;
    listed = h.pointed.listed;
    barred = rw e h.pointed.barred;
  };
}

apply_update-WellFormed : (e : WsEvent) (a : App) → WellFormed a → WellFormed (apply_update e a)
unfolding apply_update
apply_update-WellFormed e a h = replaced-WellFormed a _ (length-updated e a.messages) h

insert_arrival-WellFormed :
    (m : MessageSummary) (a : App) → WellFormed a → WellFormed (insert_arrival m a)
unfolding insert_arrival
insert_arrival-WellFormed m a h =
    if-Keeps WellFormed (a.offset == 0) _ _
      (λ e.
        restore_selection-WellFormed (capture_selection a) (put_first m a)
          (record { base = h.base }))
      (λ e. h)

apply_event-WellFormed : (e : WsEvent) (a : App) → WellFormed a → WellFormed (apply_event e a)
unfolding apply_event
apply_event-WellFormed (message_new m) a h =
    if-Keeps WellFormed (is_listed m.id a) _ _ (λ e. h)
      (λ e.
        if-Keeps WellFormed (not (is_empty a.search_query)) _ _
          (λ e. record { base = h.base; pointed = h.pointed })
          (λ e.
            insert_arrival-WellFormed m (record a { total = a.total + 1 })
              (record { base = h.base; pointed = h.pointed })))
apply_event-WellFormed (message_delete id) a h =
    if-Keeps WellFormed (is_listed id a) _ _
      (λ e.
        restore_selection-WellFormed (capture_selection a)
          (record a { messages = remove_first id a.messages; total = a.total - 1 })
          (record { base = h.base }))
      (λ e.
        if-Keeps WellFormed (is_empty a.search_query) _ _
          (λ e. record { base = h.base; pointed = h.pointed })
          (λ e. record { base = h.base; pointed = h.pointed }))
apply_event-WellFormed messages_clear a h =
    restore_selection-WellFormed (capture_selection a) (record a { messages = []; total = 0 })
      (record { base = h.base })
apply_event-WellFormed (message_read id v) a h = apply_update-WellFormed (message_read id v) a h
apply_event-WellFormed (message_starred id v) a h =
    apply_update-WellFormed (message_starred id v) a h
apply_event-WellFormed (message_tags id v) a h = apply_update-WellFormed (message_tags id v) a h

record_delta-le :
    (e : WsEvent) (p : PendingDeltas)
    → length p.events ≤ pending_delta_capacity
    → length (record_delta e p).events ≤ pending_delta_capacity
unfolding record_delta
record_delta-le e p h = elim (Bool-cases p.overflowed) [
  | inl over ↦ rw over h
  | inr room ↦ rw room (elim (Bool-cases (leb pending_delta_capacity (length p.events))) [
    | inl full ↦ rw full (omega arith)
    | inr free ↦ rw free (ground (arith, length-append p.events (e ∷ [])))
  ])
]

-- Other deltas to come, while a list is fetched.
deltas-WellFormed :
    (p : PendingDeltas) (a : App)
    → length p.events ≤ pending_delta_capacity
    → a.loading ≡ true
    → WellFormed a
    → WellFormed (record a { pending_deltas = p })
deltas-WellFormed d a k e h = record {
  base = record {
    paged = h.base.paged;
    capped = k;
    idle = λ f. cc;
    awaited = h.base.awaited;
    shown = h.base.shown;
    viewed = h.base.viewed;
    asked = h.base.asked;
    ticks = h.base.ticks;
    frame = h.base.frame;
  };
  pointed = h.pointed;
}

remember-WellFormed : (e : WsEvent) (a : App) → WellFormed a → WellFormed (remember e a)
unfolding remember
remember-WellFormed e a h =
    if-Keeps WellFormed a.loading _ _
      (λ busy. deltas-WellFormed _ a (record_delta-le e a.pending_deltas h.base.capped) busy h)
      (λ idle. h)

on_parsed-WellFormed : (o : Option WsEvent) (a : App) → WellFormed a → WellFormed (on_parsed o a)
unfolding on_parsed
on_parsed-WellFormed none a h = h
on_parsed-WellFormed (some e) a h = apply_event-WellFormed e _ (remember-WellFormed e a h)

pub handle_ws_message-WellFormed :
    (parse : Text → Option WsEvent) (msg : Text) (a : App)
    → WellFormed a
    → WellFormed (handle_ws_message parse msg a)
unfolding handle_ws_message
handle_ws_message-WellFormed parse msg a h = on_parsed-WellFormed (parse msg) a h

pub handle_ws_overflow-WellFormed : (a : App) → WellFormed a → WellFormed (handle_ws_overflow a)
unfolding handle_ws_overflow
handle_ws_overflow-WellFormed a h =
    if-Keeps WellFormed a.loading _ _
      (λ busy.
        deltas-WellFormed _ (record a { view_stale = true }) h.base.capped busy
          (record { base = h.base; pointed = h.pointed }))
      (λ idle. record { base = h.base; pointed = h.pointed })

pub handle_ws_status-WellFormed :
    (c : Bool) (a : App) → WellFormed a → WellFormed (handle_ws_status c a)
unfolding handle_ws_status
handle_ws_status-WellFormed c a h =
    if-Keeps WellFormed (c && not a.ws_connected && a.ws_ever_connected) _ _
      (λ e.
        fetch_messages-WellFormed (with_status c a) (record { base = h.base; pointed = h.pointed }))
      (λ e. record { base = h.base; pointed = h.pointed })

replay_delta-Base : (e : WsEvent) (a : App) → Base a → Base (replay_delta e a)
unfolding replay_delta apply_update
replay_delta-Base (message_new m) a h =
    if-Keeps Base (is_listed m.id a) _ _ (λ e. h)
      (λ e.
        if-Keeps Base (not (is_empty a.search_query) || not (a.offset == 0)) _ _
          (λ e. record { base = h.base }) (λ e. record { base = h.base }))
replay_delta-Base (message_delete id) a h =
    if-Keeps Base (is_listed id a) _ _ (λ e. record { base = h.base })
      (λ e. record { base = h.base })
replay_delta-Base messages_clear a h = record { base = h.base }
replay_delta-Base (message_read id v) a h = record { base = h.base }
replay_delta-Base (message_starred id v) a h = record { base = h.base }
replay_delta-Base (message_tags id v) a h = record { base = h.base }

replay_from-Base :
    (count : ℕ) (es : List WsEvent) (a : App) → Base a → Base (replay_from count es a)
unfolding replay_from
replay_from-Base count [] a h = h
replay_from-Base zero (e ∷ es) a h = replay_from-Base zero es _ (replay_delta-Base e a h)
replay_from-Base (suc count) (e ∷ es) a h =
    replay_from-Base count es _
      (if-Keeps Base (is_new e) _ _ (λ q. h) (λ q. replay_delta-Base e a h))

settle-WellFormed : (r : Bool × App) → WellFormed r.1 → WellFormed (settle r)
unfolding settle
settle-WellFormed (moved, a) h =
    if-Keeps WellFormed _ _ _ (λ e. retarget_preview-WellFormed a h) (λ e. h)

-- No error is shown any more.
cleared-Base : (a : App) → Base a → Base (no_error a)
cleared-Base a h = record {
  base = record {
    paged = h.base.paged;
    capped = h.base.capped;
    idle = h.base.idle;
    awaited = h.base.awaited;
    shown = h.base.shown;
    viewed = h.base.viewed;
    asked = h.base.asked;
    ticks = omega arith;
    frame = h.base.frame;
  };
}

land-WellFormed :
    (d : PendingDeltas) (changed : Bool) (r : Fetched ListResponse) (a : App)
    → WellFormed a
    → WellFormed (land d changed r a)
unfolding land replay_deltas
land-WellFormed d changed (got resp) a h = settle-WellFormed _ (
    reanchor_selection-WellFormed (if changed then capture_selected_only a else capture_selection a)
      (no_error (replay_deltas d.events (snapshot d resp a)))
      (cleared-Base _ (replay_from-Base _ d.events (snapshot d resp a) (record { base = h.base }))))
land-WellFormed d changed (failed e) a h = set_error-WellFormed _ a h

idle-WellFormed : (a : App) → WellFormed a → WellFormed (idle a)
idle-WellFormed a h = record {
  base = record {
    paged = h.base.paged;
    capped = omega arith;
    idle = λ e. refl;
    awaited = h.base.awaited;
    shown = h.base.shown;
    viewed = h.base.viewed;
    asked = h.base.asked;
    ticks = h.base.ticks;
    frame = h.base.frame;
  };
  pointed = h.pointed;
}

pub handle_messages_fetched-WellFormed :
    (generation : ℕ) (r : Fetched ListResponse) (a : App)
    → WellFormed a
    → WellFormed (handle_messages_fetched generation r a)
unfolding handle_messages_fetched
handle_messages_fetched-WellFormed generation r a h =
    if-Keeps WellFormed _ _ _ (λ e. h)
      (λ e. land-WellFormed a.pending_deltas a.view_changed r (idle a) (idle-WellFormed a h))

pub handle_patched-WellFormed :
    (id : Text) (r s : Option Bool) (o : Fetched (Unit {0})) (a : App)
    → WellFormed a
    → WellFormed (handle_patched id r s o a)
unfolding handle_patched
handle_patched-WellFormed id r s (failed e) a h = h
handle_patched-WellFormed id r s (got u) a h =
    replaced-WellFormed a _ (length-update_first id _ a.messages) h

pub handle_deleted-WellFormed :
    (id : Text) (o : Fetched (Unit {0})) (a : App)
    → WellFormed a
    → WellFormed (handle_deleted id o a)
unfolding handle_deleted
handle_deleted-WellFormed id (failed e) a h = h
handle_deleted-WellFormed id (got u) a h =
    restore_selection-WellFormed (capture_selection a)
      (record a { messages = retain_other id a.messages }) (record { base = h.base })

pub handle_all_deleted-WellFormed :
    (o : Fetched (Unit {0})) (a : App) → WellFormed a → WellFormed (handle_all_deleted o a)
unfolding handle_all_deleted
handle_all_deleted-WellFormed (failed e) a h = h
handle_all_deleted-WellFormed (got u) a h =
    restore_selection-WellFormed (capture_selection a) (record a { messages = [] })
      (record { base = h.base })
