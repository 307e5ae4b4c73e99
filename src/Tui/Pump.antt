-- ===== src/Tui/Pump.antt =====
-- `pump_ws_frames` of crates/rustmail-tui/src/app.rs: the frames of the WebSocket against a bounded queue.
-- Each choice is what one round of its `select!` comes to, with how its sends to the queue end.
use mathlib.Core.Path.{subst}
use rustmail.Prelude.{◌≡◌, refl, sym, Bool, true, false, List, [], ◌∷◌, ◌++◌}
use rustmail.Prelude.Text.{Text}

-- A permit of the queue or its end, awaited only under a debt; a frame, with whether it and then the
-- marker fit into the queue; and the end of the socket, with whether the last send is received.
pub data Choice : Type 0 where
  room queue_closed : Choice
  frame : Text → Bool → Bool → Choice
  ended : Bool → Choice

-- What happens to frames, and the markers `WsOverflow` that are queued.
pub data Outcome : Type 0 where
  forwarded dropped : Text → Outcome
  marked : Outcome

-- The loop goes on, with its `overflow_owed`; it is done; or nobody receives any more.
pub data Next : Type 0 where
  go_on : Bool → Next
  done nobody : Next

unfoldable pub pump_step : Choice → Bool → List Outcome × Next
pump_step room true = (marked ∷ [], go_on false)
pump_step room false = ([], go_on false)
pump_step queue_closed true = ([], nobody)
pump_step queue_closed false = ([], go_on false)
pump_step (frame t fits marker_fits) true = (dropped t ∷ [], go_on true)
pump_step (frame t true marker_fits) false = (forwarded t ∷ [], go_on false)
pump_step (frame t false true) false = (dropped t ∷ marked ∷ [], go_on false)
pump_step (frame t false false) false = (dropped t ∷ [], go_on true)
pump_step (ended received) false = ([], done)
pump_step (ended true) true = (marked ∷ [], done)
pump_step (ended false) true = ([], nobody)

abbrev pub prefixed : List Outcome → List Outcome × Next → List Outcome × Next
prefixed l (m, n) = (l ++ m, n)

unfoldable pub after_step : (Bool → List Outcome × Next) → List Outcome × Next → List Outcome × Next
after_step loop (l, go_on owed) = prefixed l (loop owed)
after_step loop (l, done) = (l, done)
after_step loop (l, nobody) = (l, nobody)

unfoldable pub pump_ws_frames : List Choice → Bool → List Outcome × Next
unfolding after_step pump_step
pump_ws_frames [] owed = ([], go_on owed)
pump_ws_frames (c ∷ cs) owed = after_step (pump_ws_frames cs) (pump_step c owed)

-- A drop leaves a debt, a marker pays it, and no frame is forwarded under one.
abbrev pub Owes : Bool → List Outcome → Bool → Type 0
Owes b [] c = b ≡ c
Owes b (dropped t ∷ l) c = Owes true l c
Owes b (marked ∷ l) c = Owes false l c
Owes b (forwarded t ∷ l) c = (b ≡ false) × Owes b l c

-- What the end of the loop says of the debt: what it holds while it goes on, none when it is done.
abbrev pub Settles : Bool → List Outcome × Next → Type 0
Settles b (l, go_on owed) = Owes b l owed
Settles b (l, done) = Owes b l false
Settles b (l, nobody) = Unit

Owes-append : (b c d : Bool) (l m : List Outcome) → Owes b l c → Owes c m d → Owes b (l ++ m) d
Owes-append b c d [] m h k = subst (λ x. Owes x m d) (sym h) k
Owes-append b c d (dropped t ∷ l) m h k = Owes-append true c d l m h k
Owes-append b c d (marked ∷ l) m h k = Owes-append false c d l m h k
Owes-append b c d (forwarded t ∷ l) m (e, h) k = (e, Owes-append b c d l m h k)

pump_step-Settles : (c : Choice) (b : Bool) → Settles b (pump_step c b)
unfolding pump_step
pump_step-Settles room true = refl
pump_step-Settles room false = refl
pump_step-Settles queue_closed true = tt
pump_step-Settles queue_closed false = refl
pump_step-Settles (frame t fits marker_fits) true = refl
pump_step-Settles (frame t true marker_fits) false = (refl, refl)
pump_step-Settles (frame t false true) false = refl
pump_step-Settles (frame t false false) false = refl
pump_step-Settles (ended received) false = refl
pump_step-Settles (ended true) true = refl
pump_step-Settles (ended false) true = tt

prefixed-Settles :
    (b c : Bool) (l : List Outcome) (r : List Outcome × Next)
    → Owes b l c
    → Settles c r
    → Settles b (prefixed l r)
prefixed-Settles b c l (m, go_on owed) h k = Owes-append b c owed l m h k
prefixed-Settles b c l (m, done) h k = Owes-append b c false l m h k
prefixed-Settles b c l (m, nobody) h k = tt

after_step-Settles :
    (loop : Bool → List Outcome × Next) (b : Bool) (r : List Outcome × Next)
    → ((c : Bool) → Settles c (loop c))
    → Settles b r
    → Settles b (after_step loop r)
unfolding after_step
after_step-Settles loop b (l, go_on owed) ih h = prefixed-Settles b owed l (loop owed) h (ih owed)
after_step-Settles loop b (l, done) ih h = h
after_step-Settles loop b (l, nobody) ih h = tt

-- However frames, permits and the end of the socket come, the pump owes a marker exactly after a frame that
-- was dropped and not yet marked, forwards no frame while it owes one, and is done only when it
-- owes none.
pub pump_ws_frames-Settles :
    (cs : List Choice) (owed : Bool) → Settles owed (pump_ws_frames cs owed)
unfolding pump_ws_frames
pump_ws_frames-Settles [] owed = refl
pump_ws_frames-Settles (c ∷ cs) owed =
    after_step-Settles (pump_ws_frames cs) owed (pump_step c owed) (pump_ws_frames-Settles cs)
      (pump_step-Settles c owed)
