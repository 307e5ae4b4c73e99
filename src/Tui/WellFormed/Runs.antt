-- ===== src/Tui/WellFormed/Runs.antt =====
-- An `App` is well-formed after any events.
use rustmail.Prelude.{
  ℕ, ◌+◌, ◌-◌, ◌/◌, ◌%◌, ◌^◌, ◌<◌, ◌≡◌, refl, sym, ap, ◌∙◌, Bool, true, false, not, ◌++◌, ◌&&◌,
  ◌||◌, Option, none, some, List, [], ◌∷◌, leb, ltb, if◌then◌else◌, arith,
}
use rustmail.Prelude.Text.{Text, codes}
use rustmail.Tui.Types.{
  Event, key, mouse, resize, tick, ws_overflow, ws_message, ws_status, messages_fetched,
  preview_loaded, raw_loaded, patched, deleted, all_deleted, MouseEventKind, left_down, scroll_down,
  scroll_up, other, MouseEvent, PreviewTab, text, headers, raw, list,
}
use rustmail.Tui.App.{set_error, reap, fetching, App, connect_websocket, new, spawn, fetch_messages}
use rustmail.Tui.Input.{look_at, move_next, move_prev, scroll_preview_down, scroll_preview_up}
use rustmail.Tui.Dispatch.{
  External, open_tab, click_tab, tabs_with, click_row, click, wheel, handle_mouse, age_error, spin,
  on_tick, throttle_elapsed, refetch_if_stale, dispatch, Step, handled, wait, draw, step,
  run_events, start,
}
use rustmail.Tui.WellFormed.{WellFormed, if-Keeps}
use rustmail.Tui.WellFormed.Steps.{spawn-WellFormed, fetch_messages-WellFormed}
use rustmail.Tui.WellFormed.Previews.{
  handle_preview_loaded-WellFormed, handle_raw_loaded-WellFormed,
}
use rustmail.Tui.WellFormed.Updates.{
  handle_ws_message-WellFormed, handle_ws_overflow-WellFormed, handle_ws_status-WellFormed,
  handle_messages_fetched-WellFormed, handle_patched-WellFormed, handle_deleted-WellFormed,
  handle_all_deleted-WellFormed,
}
use rustmail.Tui.WellFormed.Moves.{move_next-WellFormed, move_prev-WellFormed, move_to-WellFormed}
use rustmail.Tui.WellFormed.Inputs.{handle_key-WellFormed, open_raw_tab-WellFormed}

open_tab-WellFormed : (t : PreviewTab) (a : App) → WellFormed a → WellFormed (open_tab t a)
unfolding open_tab
open_tab-WellFormed raw a h = open_raw_tab-WellFormed a h
open_tab-WellFormed text a h = record { base = h.base; pointed = h.pointed }
open_tab-WellFormed headers a h = record { base = h.base; pointed = h.pointed }

click_tab-WellFormed :
    (x : ℕ) (tabs : List (PreviewTab × (ℕ × ℕ))) (a : App)
    → WellFormed a
    → WellFormed (click_tab x tabs a)
unfolding click_tab
click_tab-WellFormed x [] a h = h
click_tab-WellFormed x ((t, (start, end)) ∷ tabs) a h =
    if-Keeps WellFormed
      (leb ((a.tab_area.x + start) % 2 ^ 16) x && ltb x ((a.tab_area.x + end) % 2 ^ 16))
      (open_tab t a) (click_tab x tabs a) (λ e. open_tab-WellFormed t a h)
      (λ e. click_tab-WellFormed x tabs a h)

click_row-WellFormed : (row : ℕ) (a : App) → WellFormed a → WellFormed (click_row row a)
unfolding click_row
click_row-WellFormed row a h =
    move_to-WellFormed (a.list_offset + (row - a.list_table_area.y) / 2) (look_at list a)
      (record { base = h.base; pointed = h.pointed })

frame-lt : (n : ℕ) → (n + 1) % 10 < 10
frame-lt n = omega arith

spin-WellFormed : (a : App) → WellFormed a → WellFormed (spin a)
spin-WellFormed a h =
    if-Keeps WellFormed (a.loading || a.preview_loading)
      (record a { spinner_frame = (a.spinner_frame + 1) % 10 }) a
      (λ e. record {
        base = record {
          paged = h.base.paged;
          capped = h.base.capped;
          idle = h.base.idle;
          awaited = h.base.awaited;
          shown = h.base.shown;
          viewed = h.base.viewed;
          asked = h.base.asked;
          ticks = h.base.ticks;
          frame = frame-lt a.spinner_frame;
        };
        pointed = h.pointed;
      })
      (λ e. h)

ticked-WellFormed :
    (error : Option Text) (n : ℕ) (a : App)
    → n < 50
    → WellFormed a
    → WellFormed (record a { error = error; error_ticks = n })
ticked-WellFormed error n a lt h = record {
  base = record {
    paged = h.base.paged;
    capped = h.base.capped;
    idle = h.base.idle;
    awaited = h.base.awaited;
    shown = h.base.shown;
    viewed = h.base.viewed;
    asked = h.base.asked;
    ticks = lt;
    frame = h.base.frame;
  };
  pointed = h.pointed;
}

age_error-WellFormed : (e : Option Text) (a : App) → WellFormed a → WellFormed (age_error e a)
age_error-WellFormed none a h = h
age_error-WellFormed (some e) a h =
    let n = (a.error_ticks + 1) % 2 ^ 16 in
    if-Keeps WellFormed (leb 50 n) (record a { error = none; error_ticks = 0 })
      (record a { error_ticks = n }) (λ e. ticked-WellFormed none 0 a (omega arith) h)
      (λ e.
        let k = ticked-WellFormed a.error n a (ground (arith, leb)) h in
        record { base = k.base; pointed = k.pointed })

-- The last request is two seconds old.
abbrev waited : Option ℕ → ℕ → Bool
waited none now = true
waited (some at) now = leb (at + 2000) now

-- A list that is to be fetched again.
abbrev pub is_due : App → Bool
is_due a = a.view_stale && not a.loading && waited a.last_fetch_at a.now

waited-same : (o : Option ℕ) (now : ℕ) → throttle_elapsed o now ≡ waited o now
waited-same none now = refl
waited-same (some at) now = ground (arith, leb)

loading-reap : (ts : List (Option Text)) (a : App) → (reap ts a).loading ≡ a.loading
unfolding reap set_error
loading-reap [] a = refl
loading-reap (none ∷ ts) a = loading-reap ts a
loading-reap (some e ∷ ts) a = loading-reap ts (set_error (codes "Background task failed: " ++ e) a)

loading-fetch_messages : (a : App) → (fetch_messages a).loading ≡ true
unfolding fetch_messages spawn
loading-fetch_messages a = loading-reap a.finished (fetching a)

never_while_loading : (a c : Bool) (b : Bool) → b ≡ true → (a && not b && c) ≡ false
never_while_loading a c b h = ground arith

is_due-refetch_if_stale : (a : App) → is_due (refetch_if_stale a) ≡ false
unfolding refetch_if_stale
is_due-refetch_if_stale a =
    if-Keeps (λ b. is_due b ≡ false)
      (a.view_stale && not a.loading && throttle_elapsed a.last_fetch_at a.now) _ _
      (λ e. never_while_loading _ _ _ (loading-fetch_messages a))
      (λ e.
        ap (λ b. a.view_stale && not a.loading && b) (sym (waited-same a.last_fetch_at a.now)) ∙ e)

module _ (x : External) where
  click-WellFormed : (column row : ℕ) (a : App) → WellFormed a → WellFormed (click x column row a)
  unfolding click
  click-WellFormed column row a h =
      if-Keeps WellFormed (x.contains a.tab_area column row) _ _
        (λ e.
          let k = click_tab-WellFormed column (tabs_with a.tab_ranges) a h in
          record { base = k.base; pointed = k.pointed })
        (λ e.
          if-Keeps WellFormed (x.contains a.list_table_area column row) _ _
            (λ e. click_row-WellFormed row a h)
            (λ e.
              if-Keeps WellFormed (x.contains a.list_area column row) _ _
                (λ e. record { base = h.base; pointed = h.pointed })
                (λ e.
                  if-Keeps WellFormed (x.contains a.preview_area column row) _ _
                    (λ e. record { base = h.base; pointed = h.pointed }) (λ e. h))))

  wheel-WellFormed :
      (f g : App → App) (e : MouseEvent) (a : App)
      → WellFormed (f a)
      → WellFormed (g a)
      → WellFormed a
      → WellFormed (wheel x f g e a)
  wheel-WellFormed f g e a hf hg h =
      if-Keeps WellFormed (x.contains a.list_area e.column e.row) (f a)
        (if x.contains a.preview_area e.column e.row then g a else a) (λ q. hf)
        (λ q.
          if-Keeps WellFormed (x.contains a.preview_area e.column e.row) (g a) a (λ q. hg) (λ q. h))

  handle_mouse-WellFormed :
      (k : MouseEventKind) (e : MouseEvent) (a : App)
      → WellFormed a
      → WellFormed (handle_mouse x k e a)
  unfolding handle_mouse
  handle_mouse-WellFormed left_down e a h = click-WellFormed e.column e.row a h
  handle_mouse-WellFormed scroll_down e a h =
      wheel-WellFormed move_next (scroll_preview_down 3) e a (move_next-WellFormed a h)
        (record { base = h.base; pointed = h.pointed }) h
  handle_mouse-WellFormed scroll_up e a h =
      wheel-WellFormed move_prev (scroll_preview_up 3) e a (move_prev-WellFormed a h)
        (record { base = h.base; pointed = h.pointed }) h
  handle_mouse-WellFormed other e a h = h

  on_tick-WellFormed : (a : App) → WellFormed a → WellFormed (on_tick a)
  unfolding on_tick
  on_tick-WellFormed a h = spin-WellFormed (age_error a.error a) (age_error-WellFormed a.error a h)

  refetch_if_stale-WellFormed : (a : App) → WellFormed a → WellFormed (refetch_if_stale a)
  unfolding refetch_if_stale
  refetch_if_stale-WellFormed a h =
      if-Keeps WellFormed _ (fetch_messages a) a (λ e. fetch_messages-WellFormed a h) (λ e. h)

  -- Every event keeps a well-formed state well-formed: the cursor stays on a row, the remembered deltas
  -- stay within their bound and are gone when no list is fetched, and the modes, the previews and the
  -- counters agree as `WellFormed` says.
  pub dispatch-WellFormed : (e : Event) (a : App) → WellFormed a → WellFormed (dispatch x e a)
  unfolding dispatch
  dispatch-WellFormed (key k) a h = handle_key-WellFormed k a h
  dispatch-WellFormed (mouse e) a h = handle_mouse-WellFormed e.kind e a h
  dispatch-WellFormed resize a h = h
  dispatch-WellFormed tick a h = refetch_if_stale-WellFormed (on_tick a) (on_tick-WellFormed a h)
  dispatch-WellFormed (ws_message msg) a h = handle_ws_message-WellFormed x.parse msg a h
  dispatch-WellFormed (ws_status c) a h = handle_ws_status-WellFormed c a h
  dispatch-WellFormed ws_overflow a h = handle_ws_overflow-WellFormed a h
  dispatch-WellFormed (messages_fetched g r) a h = handle_messages_fetched-WellFormed g r a h
  dispatch-WellFormed (preview_loaded q id u r) a h = handle_preview_loaded-WellFormed q id u r a h
  dispatch-WellFormed (raw_loaded t q id n r) a h = handle_raw_loaded-WellFormed t q id n r a h
  dispatch-WellFormed (patched id r s o) a h = handle_patched-WellFormed id r s o a h
  dispatch-WellFormed (deleted id o) a h = handle_deleted-WellFormed id o a h
  dispatch-WellFormed (all_deleted o) a h = handle_all_deleted-WellFormed o a h

  step-WellFormed : (s : Step) (a : App) → WellFormed a → WellFormed (step x s a)
  unfolding step
  step-WellFormed (handled e) a h = dispatch-WellFormed e a h
  step-WellFormed (wait elapsed ended) a h = record { base = h.base; pointed = h.pointed }
  step-WellFormed (draw f) a h = record { base = h.base; pointed = h.pointed }

  run_events-Keeps : (ss : List Step) (a : App) → WellFormed a → WellFormed (run_events x ss a)
  unfolding run_events
  run_events-Keeps [] a h = h
  run_events-Keeps (s ∷ ss) a h =
      if-Keeps WellFormed a.running (run_events x ss (step x s a)) a
        (λ q. run_events-Keeps ss (step x s a) (step-WellFormed s a h)) (λ q. h)

  new-WellFormed : (url : Text) → WellFormed (new url)
  unfolding new
  new-WellFormed url = record {
    base = record {
      paged = (refl, refl);
      capped = omega arith;
      idle = λ e. refl;
      awaited = λ e. refl;
      shown = refl;
      viewed = refl;
      asked = λ e. cc;
      ticks = omega arith;
      frame = omega arith;
    };
    pointed = record { within = omega arith; listed = refl; barred = refl };
  }

  start-WellFormed : (url : Text) → WellFormed (start url)
  unfolding start
  start-WellFormed url =
      fetch_messages-WellFormed (spawn connect_websocket (new url))
        (spawn-WellFormed connect_websocket (new url) (new-WellFormed url))

  -- From the start on, the state is well-formed after any sequence of events, in any order: keys, clicks,
  -- ticks, live updates and the answers to requests, late or lost; whatever time passes and whichever
  -- tasks end or panic between two of them, and wherever frames are drawn. And a tick that comes then
  -- leaves no list stale for which no request is out and none was made in the last two seconds.
  pub run_events-WellFormed :
      (url : Text) (ss : List Step)
      → WellFormed (run_events x ss (start url))
        × (is_due (dispatch x tick (run_events x ss (start url))) ≡ false)
  unfolding dispatch
  run_events-WellFormed url ss = (
    run_events-Keeps ss _ (start-WellFormed url),
    is_due-refetch_if_stale (on_tick (run_events x ss (start url))),
  )
