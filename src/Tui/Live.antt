-- ===== src/Tui/Live.antt =====
-- The live updates of crates/rustmail-tui/src/app.rs: `handle_ws_message`, `replay_deltas`, the flags of
-- a message, and what a landed list does.
use rustmail.Prelude.{
  ℕ, zero, suc, ◌+◌, ◌-◌, Bool, true, false, not, ◌&&◌, ◌||◌, Option, none, some, List, [], ◌∷◌,
  ◌++◌, take, is_empty, leb, ◌==◌, if◌then◌else◌,
}
use rustmail.Prelude.Text.{Text, codes, same}
use rustmail.Tui.Types.{
  MessageSummary, ListResponse, WsEvent, message_new, message_delete, message_read, message_starred,
  message_tags, messages_clear, PendingDeltas, no_deltas, record_delta, Fetched, got, failed,
}
use rustmail.Tui.Selection.{is_listed_in}
use rustmail.Tui.App.{
  App, set_error, capture_selection, capture_selected_only, reanchor_selection,
  preview_matches_selection, fetch_messages,
}
use rustmail.Tui.Preview.{restore_selection, retarget_preview}

abbrev pub is_listed : Text → App → Bool
is_listed id a = is_listed_in a.messages id

-- `iter_mut().find(|m| m.id == id)`, and what is done to the message found.
unfoldable pub update_first :
    Text → (MessageSummary → MessageSummary) → List MessageSummary → List MessageSummary
update_first id f [] = []
update_first id f (m ∷ ms) =
    let rest = update_first id f ms in if same m.id id then f m ∷ ms else m ∷ rest

-- `position`, and `remove` at it.
unfoldable pub remove_first : Text → List MessageSummary → List MessageSummary
remove_first id [] = []
remove_first id (m ∷ ms) = let rest = remove_first id ms in if same m.id id then ms else m ∷ rest

-- `retain(|m| m.id != id)`
unfoldable pub retain_other : Text → List MessageSummary → List MessageSummary
retain_other id [] = []
retain_other id (m ∷ ms) = let rest = retain_other id ms in if same m.id id then rest else m ∷ rest

-- What an update changes of the list.
unfoldable pub updated : WsEvent → List MessageSummary → List MessageSummary
unfolding update_first
updated (message_read id v) ms = update_first id (λ m. record m { is_read = v }) ms
updated (message_starred id v) ms = update_first id (λ m. record m { is_starred = v }) ms
updated (message_tags id v) ms = update_first id (λ m. record m { tags = v }) ms
updated (message_new m) ms = ms
updated (message_delete id) ms = ms
updated messages_clear ms = ms

unfoldable pub apply_update : WsEvent → App → App
unfolding updated
apply_update e a = record a { messages = updated e a.messages }

-- `insert(0, summary)` and `truncate(page_size)`
abbrev pub put_first : MessageSummary → App → App
put_first m a = record a { messages = take a.page_size (m ∷ a.messages) }

-- An arrival that is counted: on the first page it goes on top.
unfoldable pub insert_arrival : MessageSummary → App → App
unfolding restore_selection
insert_arrival m a =
    if a.offset == 0 then restore_selection (capture_selection a) (put_first m a) else a

-- The match of `handle_ws_message` on the event.
unfoldable pub apply_event : WsEvent → App → App
unfolding restore_selection insert_arrival remove_first apply_update
apply_event (message_new m) a =
    if is_listed m.id a
    then a
    else if not (is_empty a.search_query)
    then record a { view_stale = true }
    else insert_arrival m (record a { total = a.total + 1 })
apply_event (message_delete id) a =
    if is_listed id a
    then restore_selection (capture_selection a)
        (record a { messages = remove_first id a.messages; total = a.total - 1 })
    else if is_empty a.search_query
    then record a { total = a.total - 1 }
    else record a { view_stale = true }
apply_event messages_clear a =
    restore_selection (capture_selection a) (record a { messages = []; total = 0 })
apply_event (message_read id v) a = apply_update (message_read id v) a
apply_event (message_starred id v) a = apply_update (message_starred id v) a
apply_event (message_tags id v) a = apply_update (message_tags id v) a

unfoldable pub remember : WsEvent → App → App
unfolding record_delta
remember e a =
    if a.loading then record a { pending_deltas = record_delta e a.pending_deltas } else a

unfoldable pub on_parsed : Option WsEvent → App → App
unfolding remember apply_event
on_parsed none a = a
on_parsed (some e) a = apply_event e (remember e a)

-- `parse` is `serde_json::from_str::<WsEvent>`.
unfoldable pub handle_ws_message : (Text → Option WsEvent) → Text → App → App
unfolding on_parsed
handle_ws_message parse msg a = on_parsed (parse msg) a

unfoldable pub handle_ws_overflow : App → App
handle_ws_overflow a =
    let b = record a { view_stale = true } in
    if b.loading
    then record b { pending_deltas = record b.pending_deltas { overflowed = true } }
    else b

abbrev pub with_status : Bool → App → App
with_status connected a = record a {
  ws_connected = connected;
  ws_ever_connected = a.ws_ever_connected || connected;
}

unfoldable pub handle_ws_status : Bool → App → App
unfolding fetch_messages
handle_ws_status connected a =
    let reconnected = connected && not a.ws_connected && a.ws_ever_connected in
    if reconnected then fetch_messages (with_status connected a) else with_status connected a

unfoldable pub replay_delta : WsEvent → App → App
unfolding remove_first apply_update
replay_delta (message_new m) a =
    if is_listed m.id a
    then a
    else if not (is_empty a.search_query) || not (a.offset == 0)
    then record a { view_stale = true }
    else put_first m (record a { total = a.total + 1 })
replay_delta (message_delete id) a =
    if is_listed id a
    then record a { messages = remove_first id a.messages; total = a.total - 1 }
    else record a { view_stale = true }
replay_delta messages_clear a = record a { messages = []; total = 0 }
replay_delta (message_read id v) a = apply_update (message_read id v) a
replay_delta (message_starred id v) a = apply_update (message_starred id v) a
replay_delta (message_tags id v) a = apply_update (message_tags id v) a

abbrev pub is_new : WsEvent → Bool
is_new (message_new m) = true
is_new _ = false

abbrev pub is_listed_arrival : List MessageSummary → WsEvent → Bool
is_listed_arrival ms (message_new m) = is_listed_in ms m.id
is_listed_arrival ms _ = false

-- How many deltas there are up to the last arrival that the page lists: `listed_through` plus one.
unfoldable pub listed_count : List MessageSummary → List WsEvent → ℕ
listed_count ms [] = 0
listed_count ms (e ∷ es) =
    let rest = listed_count ms es in
    if leb 1 rest then suc rest else if is_listed_arrival ms e then 1 else 0

-- The loop, where `count` more deltas stand up to that arrival.
unfoldable pub replay_from : ℕ → List WsEvent → App → App
unfolding replay_delta
replay_from count [] a = a
replay_from zero (e ∷ es) a = replay_from zero es (replay_delta e a)
replay_from (suc count) (e ∷ es) a = replay_from count es (if is_new e then a else replay_delta e a)

unfoldable pub replay_deltas : List WsEvent → App → App
unfolding replay_from listed_count
replay_deltas deltas a = replay_from (listed_count a.messages deltas) deltas a

unfoldable pub settle : Bool × App → App
unfolding retarget_preview preview_matches_selection
settle (moved, a) = if moved || not (preview_matches_selection a) then retarget_preview a else a

-- The list of an answer, with the deltas that came meanwhile.
abbrev pub snapshot : PendingDeltas → ListResponse → App → App
snapshot pending resp a = record a {
  messages = resp.messages;
  total = resp.total;
  view_stale = pending.overflowed;
}

abbrev pub no_error : App → App
no_error a = record a { error = none; error_ticks = 0 }

-- The answer to the latest fetch; `pending` and `changed` are what was taken out of the state.
unfoldable pub land : PendingDeltas → Bool → Fetched ListResponse → App → App
unfolding settle reanchor_selection replay_deltas set_error
land pending changed (got resp) a = settle (
    reanchor_selection (if changed then capture_selected_only a else capture_selection a)
      (no_error (replay_deltas pending.events (snapshot pending resp a))))
land pending changed (failed e) a = set_error (codes "Failed to fetch messages: " ++ e) a

abbrev pub idle : App → App
idle a = record a { loading = false; pending_deltas = no_deltas; view_changed = false }

unfoldable pub handle_messages_fetched : ℕ → Fetched ListResponse → App → App
unfolding land
handle_messages_fetched generation result a =
    if not (generation == a.fetch_generation)
    then a
    else land a.pending_deltas a.view_changed result (idle a)

abbrev pub set_read : Option Bool → MessageSummary → MessageSummary
set_read none m = m
set_read (some v) m = record m { is_read = v }

abbrev pub set_starred : Option Bool → MessageSummary → MessageSummary
set_starred none m = m
set_starred (some v) m = record m { is_starred = v }

unfoldable pub handle_patched : Text → Option Bool → Option Bool → Fetched (Unit {0}) → App → App
unfolding update_first
handle_patched id is_read is_starred (failed e) a = a
handle_patched id is_read is_starred (got u) a = record a {
  messages = update_first id (λ m. set_starred is_starred (set_read is_read m)) a.messages;
}

unfoldable pub handle_deleted : Text → Fetched (Unit {0}) → App → App
unfolding restore_selection retain_other
handle_deleted id (failed e) a = a
handle_deleted id (got u) a =
    restore_selection (capture_selection a) (record a { messages = retain_other id a.messages })

unfoldable pub handle_all_deleted : Fetched (Unit {0}) → App → App
unfolding restore_selection
handle_all_deleted (failed e) a = a
handle_all_deleted (got u) a = restore_selection (capture_selection a) (record a { messages = [] })
