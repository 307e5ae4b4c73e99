-- ===== src/Tui/Tests.antt =====
-- Runs of the client's model, and the instances of its theorems.
use rustmail.Prelude.{
  ◌⊎◌, arith, ◌-◌, ◌≤◌, ◌≡◌, refl, true, false, Option, none, some, List, [], ◌∷◌, ◌++◌, length,
}
use rustmail.Prelude.Text.{Text, codes, same}
use rustmail.Tui.Types.{
  MessageSummary, ListResponse, key, tick, ws_message, ws_overflow, messages_fetched, all_deleted,
  got, char, message_new, message_delete, messages_clear, WsEvent,
}
use rustmail.Tui.Selection.{resolve_selection, position_of}
use rustmail.Tui.Selection.Follows.{
  id_at, resolve_selection-le, resolve_selection-follows, resolve_selection-above,
}
use rustmail.Tui.App.{App, Rect, new, fetch_messages, spawn, reap}
use rustmail.Tui.Live.{handle_messages_fetched, replay_deltas, listed_count}
use rustmail.Tui.Replay.{First, view, live, replay_deltas-live}
use rustmail.Tui.Fetches.{handle_messages_fetched-fetch_messages}
use rustmail.Tui.Pump.{
  Choice, frame, room, ended, forwarded, dropped, marked, done, pump_ws_frames, Settles,
  pump_ws_frames-Settles,
}
use rustmail.Tui.Dispatch.{External, dispatch, Frame, Step, handled, wait, draw, run_events, start}
use rustmail.Tui.WellFormed.{WellFormed}
use rustmail.Tui.WellFormed.Runs.{is_due, run_events-WellFormed}

abbrev mail : Text → MessageSummary
mail id = record {
  id = id;
  sender = codes "a";
  recipients = [];
  subject = none;
  size = 1;
  has_attachments = false;
  is_read = false;
  is_starred = false;
  tags = [];
  created_at = [];
}

-- Every frame announces the message that it names, and every click hits the first area tried.
abbrev client : External
client = record { parse = λ t. some (message_new (mail t)); contains = λ r column row. true }

abbrev page : ListResponse
page = record { messages = mail (codes "two") ∷ mail (codes "one") ∷ []; total = 2 }

abbrev rect : Rect
rect = record { x = 0; y = 0; width = 80; height = 24 }

abbrev drawn : Frame
drawn = record {
  list_area = rect;
  list_table_area = rect;
  preview_area = rect;
  tab_area = rect;
  tab_ranges = [];
  list_offset = 0;
  max_scroll = 0;
}

abbrev session : List Step
session =
    handled (ws_message (codes "three"))
    ∷ handled (messages_fetched 1 (got page))
    ∷ draw drawn
    ∷ handled (key (record { code = char b'j'; control = false }))
    ∷ handled ws_overflow
    ∷ wait 2000 (none ∷ some (codes "panicked") ∷ [])
    ∷ handled tick
    ∷ handled (ws_message (codes "four"))
    ∷ handled (all_deleted (got tt))
    ∷ []

-- The tick fetches the stale list again, and says which task has panicked.
tick_refetches : (run_events client session (start (codes "http://localhost"))).fetch_generation ≡ 2
unfolding run_events start fetch_messages spawn reap new same position_of
tick_refetches = refl

run_events-WellFormed_example :
    WellFormed (run_events client session (start (codes "http://localhost")))
    × (is_due (dispatch client tick (run_events client session (start (codes "http://localhost"))))
        ≡ false)
run_events-WellFormed_example = run_events-WellFormed client (codes "http://localhost") session

resolve_selection-le_example :
    resolve_selection (codes "a" ∷ codes "b" ∷ []) 1 (mail (codes "c") ∷ [])
    ≤ length (mail (codes "c") ∷ []) - 1
resolve_selection-le_example =
    resolve_selection-le (codes "a" ∷ codes "b" ∷ []) 1 (mail (codes "c") ∷ [])

-- The list `a b c d` with the cursor on `b`, of which `d` and a new `e` are left.
resolve_selection-follows_example :
    id_at (mail (codes "e") ∷ mail (codes "d") ∷ []) (
      resolve_selection
        ((codes "a" ∷ []) ++ ((codes "b" ∷ codes "c" ∷ []) ++ codes "d" ∷ []))
        1
        (mail (codes "e") ∷ mail (codes "d") ∷ []))
    ≡ some (codes "d")
unfolding same
resolve_selection-follows_example =
    resolve_selection-follows (codes "a" ∷ []) (codes "b" ∷ codes "c" ∷ []) (codes "d") []
      (mail (codes "e") ∷ mail (codes "d") ∷ []) (refl, (refl, tt)) refl

resolve_selection-above_example :
    id_at (mail (codes "e") ∷ mail (codes "a") ∷ []) (
      resolve_selection
        (([] ++ codes "a" ∷ codes "b" ∷ []) ++ codes "c" ∷ [])
        2
        (mail (codes "e") ∷ mail (codes "a") ∷ []))
    ≡ some (codes "a")
unfolding same
resolve_selection-above_example =
    resolve_selection-above [] (codes "a") (codes "b" ∷ []) (codes "c" ∷ [])
      (mail (codes "e") ∷ mail (codes "a") ∷ []) (refl, tt) (refl, tt) refl

-- A client whose list request is out, on the first page.
abbrev waiting : App
waiting = start (codes "http://localhost")

abbrev arrivals : List WsEvent
arrivals = message_new (mail (codes "three")) ∷ message_delete (codes "three") ∷ messages_clear ∷ []

First-waiting : First (view waiting)
unfolding start fetch_messages spawn reap new
First-waiting = (refl, refl)

listed-none : listed_count waiting.messages arrivals ≡ 0
unfolding listed_count start fetch_messages spawn reap new
listed-none = refl

replay_deltas-live_example :
    ((replay_deltas arrivals waiting).view_stale ≡ true)
    ⊎ (view (replay_deltas arrivals waiting) ≡ view (live arrivals waiting))
replay_deltas-live_example =
    replay_deltas-live arrivals waiting waiting First-waiting refl listed-none

handle_messages_fetched-fetch_messages_example :
    handle_messages_fetched 0 (got page) (fetch_messages (new (codes "u")))
    ≡ fetch_messages (new (codes "u"))
unfolding new
handle_messages_fetched-fetch_messages_example =
    handle_messages_fetched-fetch_messages 0 (got page) (new (codes "u")) (omega arith)
      (omega arith)

-- Two updates, of which one is lost.
abbrev incoming : List (Option Text)
incoming = some (codes "three") ∷ none ∷ []

-- A frame that fits, two that do not, room, and the end.
abbrev frames : List Choice
frames =
    frame (codes "a") true true
    ∷ frame (codes "b") false false
    ∷ frame (codes "c") true true
    ∷ room
    ∷ frame (codes "d") true true
    ∷ ended true
    ∷ []

frames-pumped : pump_ws_frames frames false ≡ (
  forwarded (codes "a")
      ∷ dropped (codes "b")
      ∷ dropped (codes "c")
      ∷ marked
      ∷ forwarded (codes "d")
      ∷ [],
  done,
)
unfolding pump_ws_frames
frames-pumped = refl

pump_ws_frames-Settles_example : Settles false (pump_ws_frames frames false)
pump_ws_frames-Settles_example = pump_ws_frames-Settles frames false
