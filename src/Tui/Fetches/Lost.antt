-- ===== src/Tui/Fetches/Lost.antt =====
-- No update that comes while a list is fetched is lost unnoticed.
use rustmail.Prelude.{ℕ, ◌≡◌, ◌⊎◌, Bool, true, false, Option, none, some, List, [], ◌∷◌, ◌++◌}
use rustmail.Prelude.Text.{Text}
use rustmail.Tui.Types.{ListResponse, got, WsEvent, PendingDeltas, record_delta}
use rustmail.Tui.App.{App}
use rustmail.Tui.Live.{handle_ws_message, handle_ws_overflow, land, idle}
use rustmail.Tui.Replay.{Stale}
use rustmail.Tui.Fetches.{Flight, flight}

-- What an update is remembered in.
record Carried : Type 0 where
  loading : Bool
  fetch_generation : ℕ
  pending_deltas : PendingDeltas

abbrev carry : Flight → Carried
carry f = record {
  loading = f.loading;
  fetch_generation = f.fetch_generation;
  pending_deltas = f.pending_deltas;
}

abbrev carried : App → Carried
carried a = carry (flight a)

module _ (parse : Text → Option WsEvent) where
  -- A message of the WebSocket, or the marker that some were lost.
  abbrev pub receive : Option Text → App → App
  receive (some msg) a = handle_ws_message parse msg a
  receive none a = handle_ws_overflow a

  abbrev pub receive_all : List (Option Text) → App → App
  receive_all [] a = a
  receive_all (u ∷ us) a = receive_all us (receive u a)

  abbrev parsed_before : Option WsEvent → List WsEvent → List WsEvent
  parsed_before none es = es
  parsed_before (some e) es = e ∷ es

  -- The updates that were received, and whether there is no marker among them.
  abbrev pub updates : List (Option Text) → List WsEvent
  updates [] = []
  updates (none ∷ us) = updates us
  updates (some msg ∷ us) = parsed_before (parse msg) (updates us)

  abbrev pub is_complete : List (Option Text) → Bool
  is_complete [] = true
  is_complete (none ∷ us) = false
  is_complete (some msg ∷ us) = is_complete us

  abbrev note_parsed : Option WsEvent → PendingDeltas → PendingDeltas
  note_parsed none p = p
  note_parsed (some e) p = record_delta e p

  abbrev note : Option Text → PendingDeltas → PendingDeltas
  note none p = record p { overflowed = true }
  note (some msg) p = note_parsed (parse msg) p

  abbrev note_all : List (Option Text) → PendingDeltas → PendingDeltas
  note_all [] p = p
  note_all (u ∷ us) p = note_all us (note u p)

  abbrev pub with_events : List WsEvent → PendingDeltas
  with_events es = record { events = es; overflowed = false }

  abbrev Remembered : List (Option Text) → List WsEvent → PendingDeltas → Type 0
  Remembered us es p =
      (p.overflowed ≡ true) ⊎ ((p ≡ with_events (es ++ updates us)) × (is_complete us ≡ true))

  -- What comes of the answer to a list request: a page that is marked stale, or a page on which
  -- every update since `es` is replayed, none of them lost.
  abbrev pub StaleOrReplayed :
      List WsEvent → List (Option Text) → ListResponse → (before after : App) → Type 0
  StaleOrReplayed es us resp b landed =
      Stale landed
      ⊎ ((landed ≡ land (with_events (es ++ updates us)) b.view_changed (got resp) (idle b))
          × (is_complete us ≡ true))
