-- ===== src/Tui/Replay.antt =====
-- What the live updates make of the first page without a search, and that the replay of
-- crates/rustmail-tui/src/app.rs agrees with it.
use mathlib.Core.Path.{subst}
use rustmail.Prelude.{
  ℕ, ◌+◌, ◌-◌, ◌≡◌, refl, sym, ap, ◌∙◌, ◌⊎◌, inl, inr, Bool, true, false, not, ◌&&◌, ◌||◌, Option,
  none, some, List, [], ◌∷◌, ◌++◌, take, is_empty, ◌==◌, if◌then◌else◌,
}
use rustmail.Prelude.Text.{Text, codes}
use rustmail.Tui.Types.{
  MessageSummary, WsEvent, message_new, message_delete, message_read, message_starred, message_tags,
  messages_clear, next_u64,
}
use rustmail.Tui.Selection.{SelectionAnchor, is_listed_in}
use rustmail.Tui.App.{
  App, Request, get_message, set_error, reap, spawn, selected_message, same_option, sync_list_state,
  reanchor_selection, capture_selection,
}
use rustmail.Tui.Preview.{
  no_preview, awaiting_preview, request_preview, load_preview_of, load_preview, retarget_preview,
  retarget_if, restore_selection,
}
use rustmail.Tui.Live.{
  is_listed, updated, apply_update, put_first, remove_first, insert_arrival, apply_event,
  replay_delta, replay_from, replay_deltas, listed_count,
}
use rustmail.Tui.WellFormed.{if-Keeps}

-- The list as the user sees it, and what it was asked for.
pub record View : Type 0 where
  pub messages : List MessageSummary
  pub total : ℕ
  pub search_query : Text
  pub offset : ℕ
  pub page_size : ℕ

abbrev pub view : App → View
view a = record {
  messages = a.messages;
  total = a.total;
  search_query = a.search_query;
  offset = a.offset;
  page_size = a.page_size;
}

-- The first page, without a search.
abbrev pub First : View → Type 0
First v = (v.search_query ≡ []) × (v.offset ≡ 0)

-- What an update means there: an arrival goes on top of the page, a deletion takes a message off it, and
-- each counts.
abbrev pub step : WsEvent → View → View
step (message_new m) v =
    if is_listed_in v.messages m.id
    then v
    else record v { messages = take v.page_size (m ∷ v.messages); total = v.total + 1 }
step (message_delete id) v =
    if is_listed_in v.messages id
    then record v { messages = remove_first id v.messages; total = v.total - 1 }
    else record v { total = v.total - 1 }
step messages_clear v = record v { messages = []; total = 0 }
step (message_read id b) v = record v { messages = updated (message_read id b) v.messages }
step (message_starred id b) v = record v { messages = updated (message_starred id b) v.messages }
step (message_tags id tags) v = record v { messages = updated (message_tags id tags) v.messages }

abbrev pub steps : List WsEvent → View → View
steps [] v = v
steps (e ∷ es) v = steps es (step e v)

-- The updates handled as they come.
abbrev pub live : List WsEvent → App → App
live [] a = a
live (e ∷ es) a = live es (apply_event e a)

abbrev Looks : View → App → Type 0
Looks v a = view a ≡ v

view-reap : (ts : List (Option Text)) (a : App) → view (reap ts a) ≡ view a
unfolding reap set_error
view-reap [] a = refl
view-reap (none ∷ ts) a = view-reap ts a
view-reap (some e ∷ ts) a = view-reap ts (set_error (codes "Background task failed: " ++ e) a)

view-spawn : (r : Request) (a : App) → view (spawn r a) ≡ view a
unfolding spawn
view-spawn r a = view-reap a.finished a

view-load_preview_of : (o : Option MessageSummary) (a : App) → view (load_preview_of o a) ≡ view a
unfolding load_preview_of request_preview
view-load_preview_of none a = refl
view-load_preview_of (some m) a =
    if-Keeps (Looks (view a)) (same_option a.last_preview_id (some m.id)) _ _ (λ e. refl)
      (λ e.
        view-spawn (get_message (next_u64 a.last_request_id) m.id (not m.is_read))
          (awaiting_preview a))

view-retarget_preview : (a : App) → view (retarget_preview a) ≡ view a
unfolding retarget_preview load_preview
view-retarget_preview a = view-load_preview_of (selected_message (no_preview a)) (no_preview a)

view-retarget_if : (r : Bool × App) → view (retarget_if r) ≡ view r.1
unfolding retarget_if
view-retarget_if (moved, a) =
    if-Keeps (Looks (view a)) (moved && not a.loading) _ _ (λ e. view-retarget_preview a)
      (λ e. refl)

view-restore_selection : (s : SelectionAnchor) (a : App) → view (restore_selection s a) ≡ view a
unfolding restore_selection reanchor_selection sync_list_state
view-restore_selection s a = view-retarget_if (reanchor_selection s a)

pub if-true : {A : Type 0} (b : Bool) (x y : A) → b ≡ true → (if b then x else y) ≡ x
if-true b x y e = rw e refl

pub if-false : {A : Type 0} (b : Bool) (x y : A) → b ≡ false → (if b then x else y) ≡ y
if-false b x y e = rw e refl

empty-query : (q : Text) → q ≡ [] → is_empty q ≡ true
empty-query q e = rw e refl

no-search : (q : Text) → q ≡ [] → not (is_empty q) ≡ false
no-search q e = rw e refl

at-top : (o : ℕ) → o ≡ 0 → (o == 0) ≡ true
at-top o e = rw e refl

both-false : (b c : Bool) → b ≡ false → c ≡ true → (b || not c) ≡ false
both-false b c e f = rw (e, f) refl

view-insert_arrival :
    (m : MessageSummary) (a : App) → a.offset ≡ 0 → view (insert_arrival m a) ≡ view (put_first m a)
unfolding insert_arrival
view-insert_arrival m a e =
    ap view (if-true (a.offset == 0) _ _ (at-top a.offset e))
    ∙ view-restore_selection (capture_selection a) (put_first m a)

-- A test on both sides.
view-if :
    (b : Bool) (x y : App) (v w : View)
    → (b ≡ true → view x ≡ v)
    → (b ≡ false → view y ≡ w)
    → view (if b then x else y) ≡ (if b then v else w)
view-if true x y v w h k = h refl
view-if false x y v w h k = k refl

view-apply_event :
    (e : WsEvent) (a : App) → First (view a) → view (apply_event e a) ≡ step e (view a)
unfolding apply_event apply_update
view-apply_event (message_new m) a (q, o) =
    view-if (is_listed m.id a) _ _ _ _ (λ e. refl)
      (λ e.
        ap view (if-false (not (is_empty a.search_query)) _ _ (no-search a.search_query q))
        ∙ view-insert_arrival m (record a { total = a.total + 1 }) o)
view-apply_event (message_delete id) a (q, o) =
    view-if (is_listed id a) _ _ _ _
      (λ e.
        view-restore_selection (capture_selection a)
          (record a { messages = remove_first id a.messages; total = a.total - 1 }))
      (λ e. ap view (if-true (is_empty a.search_query) _ _ (empty-query a.search_query q)))
view-apply_event messages_clear a f =
    view-restore_selection (capture_selection a) (record a { messages = []; total = 0 })
view-apply_event (message_read id b) a f = refl
view-apply_event (message_starred id b) a f = refl
view-apply_event (message_tags id tags) a f = refl

if-First : (b : Bool) (v w : View) → First v → First w → First (if b then v else w)
if-First true v w f g = f
if-First false v w f g = g

step-First : (e : WsEvent) (v : View) → First v → First (step e v)
step-First (message_new m) v f = if-First (is_listed_in v.messages m.id) _ _ f f
step-First (message_delete id) v f = if-First (is_listed_in v.messages id) _ _ f f
step-First messages_clear v f = f
step-First (message_read id b) v f = f
step-First (message_starred id b) v f = f
step-First (message_tags id tags) v f = f

First-same : {v w : View} → v ≡ w → First w → First v
First-same e f = subst (λ v. First v) (sym e) f

-- Updates handled one after another leave the list that their steps describe.
view-live : (es : List WsEvent) (a : App) → First (view a) → view (live es a) ≡ steps es (view a)
view-live [] a f = refl
view-live (e ∷ es) a f =
    view-live es (apply_event e a) (First-same (view-apply_event e a f) (step-First e (view a) f))
    ∙ ap (steps es) (view-apply_event e a f)

-- What a replayed update leaves: the step, or a page marked stale.
abbrev Replayed : View → App → Type 0
Replayed v a = (a.view_stale ≡ true) ⊎ (view a ≡ v)

Replayed-same : {v w : View} (a : App) → v ≡ w → Replayed v a → Replayed w a
Replayed-same a e h = subst (λ v. Replayed v a) e h

Replayed-if :
    (b : Bool) (x y : App) (v w : View)
    → (b ≡ true → Replayed v x)
    → (b ≡ false → Replayed w y)
    → Replayed (if b then v else w) (if b then x else y)
Replayed-if true x y v w h k = h refl
Replayed-if false x y v w h k = k refl

replay_delta-Replayed :
    (e : WsEvent) (a : App) → First (view a) → Replayed (step e (view a)) (replay_delta e a)
unfolding replay_delta apply_update
replay_delta-Replayed (message_new m) a (q, o) =
    Replayed-if (is_listed m.id a) _ _ _ _ (λ e. inr refl)
      (λ e. inr (
        ap view (
          if-false (not (is_empty a.search_query) || not (a.offset == 0)) _ _ (
            both-false (not (is_empty a.search_query)) (a.offset == 0) (no-search a.search_query q)
              (at-top a.offset o)))))
replay_delta-Replayed (message_delete id) a f =
    Replayed-if (is_listed id a) _ _ _ _ (λ e. inr refl) (λ e. inl refl)
replay_delta-Replayed messages_clear a f = inr refl
replay_delta-Replayed (message_read id b) a f = inr refl
replay_delta-Replayed (message_starred id b) a f = inr refl
replay_delta-Replayed (message_tags id tags) a f = inr refl

abbrev pub Stale : App → Type 0
Stale a = a.view_stale ≡ true

pub replay_delta-Stale : (e : WsEvent) (a : App) → Stale a → Stale (replay_delta e a)
unfolding replay_delta apply_update
replay_delta-Stale (message_new m) a h =
    if-Keeps Stale (is_listed m.id a) _ _ (λ e. h) (λ e. if-Keeps Stale _ _ _ (λ q. refl) (λ q. h))
replay_delta-Stale (message_delete id) a h =
    if-Keeps Stale (is_listed id a) _ _ (λ e. h) (λ e. refl)
replay_delta-Stale messages_clear a h = h
replay_delta-Stale (message_read id b) a h = h
replay_delta-Stale (message_starred id b) a h = h
replay_delta-Stale (message_tags id tags) a h = h

replay_from-Stale : (es : List WsEvent) (a : App) → Stale a → Stale (replay_from 0 es a)
unfolding replay_from
replay_from-Stale [] a h = h
replay_from-Stale (e ∷ es) a h = replay_from-Stale es (replay_delta e a) (replay_delta-Stale e a h)

replay_from-Replayed :
    (es : List WsEvent) (a : App)
    → First (view a)
    → Replayed (steps es (view a)) (replay_from 0 es a)
unfolding replay_from
replay_from-Replayed [] a f = inr refl
replay_from-Replayed (e ∷ es) a f = elim (replay_delta-Replayed e a f) [
  | inl stale ↦ inl (replay_from-Stale es (replay_delta e a) stale)
  | inr same ↦
      Replayed-same (replay_from 0 es (replay_delta e a)) (ap (steps es) same)
        (replay_from-Replayed es (replay_delta e a) (First-same same (step-First e (view a) f)))
]

-- On the first page without a search, replaying updates onto a snapshot that holds none of their
-- arrivals leaves exactly the list and the total that handling them as they come leaves, from the same
-- list, or marks the page stale.
pub replay_deltas-live :
    (es : List WsEvent) (a b : App)
    → First (view a)
    → view b ≡ view a
    → listed_count b.messages es ≡ 0
    → ((replay_deltas es b).view_stale ≡ true) ⊎ (view (replay_deltas es b) ≡ view (live es a))
unfolding replay_deltas
replay_deltas-live es a b f e none_listed =
    subst (λ n. Replayed (view (live es a)) (replay_from n es b)) (sym none_listed)
      (Replayed-same (replay_from 0 es b) (ap (steps es) e ∙ sym (view-live es a f))
        (replay_from-Replayed es b (First-same e f)))
