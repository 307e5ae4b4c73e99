-- ===== src/Tui/Fetches.antt =====
-- The answers to list requests in crates/rustmail-tui/src/app.rs: which of them land, and what a lost
-- update leaves behind.
pub mod Lost
use rustmail.Prelude.{
  ℕ, zero, suc, ◌+◌, ◌≤◌, ◌<◌, ◌^◌, ◌≡◌, refl, ap, ◌∙◌, Bool, true, false, not, ◌&&◌, ◌||◌, Option,
  none, some, List, [], ◌∷◌, ◌++◌, ◌==◌, if◌then◌else◌, arith,
}
use rustmail.Prelude.Text.{Text, codes}
use rustmail.Tui.Types.{
  MessageSummary, ListResponse, Fetched, got, WsEvent, PendingDeltas, next_u64,
}
use rustmail.Tui.Selection.{SelectionAnchor}
use rustmail.Tui.App.{
  App, Request, get_message, set_error, reap, spawn, selected_message, same_option,
  reanchor_selection, sync_list_state, capture_selection, capture_selected_only, fetching,
  fetch_messages, preview_matches_selection,
}
use rustmail.Tui.Preview.{
  no_preview, awaiting_preview, request_preview, load_preview_of, load_preview, retarget_preview,
  retarget_if, restore_selection,
}
use rustmail.Tui.Live.{
  replay_deltas, replay_delta, replay_from, is_new, snapshot, no_error, settle, land, idle,
  handle_messages_fetched, handle_ws_overflow,
}
use rustmail.Tui.Replay.{Stale, replay_delta-Stale, if-true, if-false}
use rustmail.Tui.WellFormed.{if-Keeps}

fetch_generation-reap :
    (ts : List (Option Text)) (a : App) → (reap ts a).fetch_generation ≡ a.fetch_generation
unfolding reap set_error
fetch_generation-reap [] a = refl
fetch_generation-reap (none ∷ ts) a = fetch_generation-reap ts a
fetch_generation-reap (some e ∷ ts) a =
    fetch_generation-reap ts (set_error (codes "Background task failed: " ++ e) a)

fetch_generation-fetch_messages :
    (a : App) → (fetch_messages a).fetch_generation ≡ next_u64 a.fetch_generation
unfolding fetch_messages spawn
fetch_generation-fetch_messages a = fetch_generation-reap (fetching a).finished (fetching a)

earlier-ne : (g n m : ℕ) → g ≤ n → n + 1 < 2 ^ 64 → m ≡ next_u64 n → (g == m) ≡ false
earlier-ne g n m le lt e = ground (arith, e)

-- Once a newer list request is out, an answer to any earlier one changes nothing, while the count of
-- requests is below 2^64.
pub handle_messages_fetched-fetch_messages :
    (g : ℕ) (r : Fetched ListResponse) (a : App)
    → g ≤ a.fetch_generation
    → a.fetch_generation + 1 < 2 ^ 64
    → handle_messages_fetched g r (fetch_messages a) ≡ fetch_messages a
unfolding handle_messages_fetched
handle_messages_fetched-fetch_messages g r a le lt =
    if-true (not (g == (fetch_messages a).fetch_generation)) _ _
      (ap not (earlier-ne g a.fetch_generation _ le lt (fetch_generation-fetch_messages a)))

-- What a list request and its answer go by.
pub record Flight : Type 0 where
  pub view_stale : Bool
  pub loading : Bool
  pub fetch_generation : ℕ
  pub pending_deltas : PendingDeltas

abbrev pub flight : App → Flight
flight a = record {
  view_stale = a.view_stale;
  loading = a.loading;
  fetch_generation = a.fetch_generation;
  pending_deltas = a.pending_deltas;
}

abbrev FliesAs : App → App → Type 0
FliesAs a b = flight b ≡ flight a

flight-reap : (ts : List (Option Text)) (a : App) → flight (reap ts a) ≡ flight a
unfolding reap set_error
flight-reap [] a = refl
flight-reap (none ∷ ts) a = flight-reap ts a
flight-reap (some e ∷ ts) a = flight-reap ts (set_error (codes "Background task failed: " ++ e) a)

flight-spawn : (r : Request) (a : App) → flight (spawn r a) ≡ flight a
unfolding spawn
flight-spawn r a = flight-reap a.finished a

flight-load_preview_of :
    (o : Option MessageSummary) (a : App) → flight (load_preview_of o a) ≡ flight a
unfolding load_preview_of request_preview
flight-load_preview_of none a = refl
flight-load_preview_of (some m) a =
    if-Keeps (FliesAs a) (same_option a.last_preview_id (some m.id)) _ _ (λ e. refl)
      (λ e.
        flight-spawn (get_message (next_u64 a.last_request_id) m.id (not m.is_read))
          (awaiting_preview a))

flight-retarget_preview : (a : App) → flight (retarget_preview a) ≡ flight a
unfolding retarget_preview load_preview
flight-retarget_preview a = flight-load_preview_of (selected_message (no_preview a)) (no_preview a)

pub flight-restore_selection :
    (anchor : SelectionAnchor) (a : App) → flight (restore_selection anchor a) ≡ flight a
unfolding restore_selection retarget_if reanchor_selection sync_list_state
flight-restore_selection anchor a =
    let (moved, b) = reanchor_selection anchor a in
    if-Keeps (FliesAs a) (moved && not b.loading) _ b (λ e. flight-retarget_preview b) (λ e. refl)

settle-Stale : (r : Bool × App) → Stale r.1 → Stale (settle r)
unfolding settle
settle-Stale (moved, a) h =
    if-Keeps Stale (moved || not (preview_matches_selection a)) _ _
      (λ e. ap (λ (f : Flight). f.view_stale) (flight-retarget_preview a) ∙ h) (λ e. h)

replay_all-Stale : (n : ℕ) (es : List WsEvent) (a : App) → Stale a → Stale (replay_from n es a)
unfolding replay_from
replay_all-Stale n [] a h = h
replay_all-Stale zero (e ∷ es) a h =
    replay_all-Stale zero es (replay_delta e a) (replay_delta-Stale e a h)
replay_all-Stale (suc n) (e ∷ es) a h =
    replay_all-Stale n es (if is_new e then a else replay_delta e a)
      (if-Keeps Stale (is_new e) _ _ (λ q. h) (λ q. replay_delta-Stale e a h))

land-Stale :
    (d : PendingDeltas) (changed : Bool) (resp : ListResponse) (a : App)
    → d.overflowed ≡ true
    → Stale (land d changed (got resp) a)
unfolding land replay_deltas reanchor_selection sync_list_state
land-Stale d changed resp a e =
    settle-Stale
      (reanchor_selection (if changed then capture_selected_only a else capture_selection a)
        (no_error (replay_deltas d.events (snapshot d resp a))))
      (replay_all-Stale _ d.events (snapshot d resp a) e)

pub same-eq : (g n : ℕ) → n ≡ g → (g == n) ≡ true
same-eq g n e = ground (arith, e)

pub landed-Stale :
    (g : ℕ) (resp : ListResponse) (a : App)
    → a.fetch_generation ≡ g
    → a.pending_deltas.overflowed ≡ true
    → Stale (handle_messages_fetched g (got resp) a)
unfolding handle_messages_fetched
landed-Stale g resp a e over =
    ap (λ (b : App). b.view_stale)
      (if-false (not (g == a.fetch_generation)) _ _ (ap not (same-eq g a.fetch_generation e)))
    ∙ land-Stale a.pending_deltas a.view_changed resp (idle a) over
