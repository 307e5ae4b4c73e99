-- ===== src/Smtp/Handle/Log.antt =====
-- A session's log: which messages were handed over, and how they were answered.
use rustmail.Prelude.{ℕ, ◌≤◌, ◌≡◌, refl, List, [], ◌∷◌, ◌++◌, length}
use rustmail.Smtp.Session.{
  ReceivedMessage, Verdict, Entry, Reply, replied, handed, stored, rejected, channel_closed,
  dropped, unanswered, accepted, local_error, max_recipients, answer,
}

-- A handed-over message has 1 to 100 recipients, and at most `cap` bytes.
abbrev pub Fitting : ℕ → Entry → Type 0
Fitting cap (replied r) = Unit
Fitting cap (handed m v) =
    (1 ≤ length m.recipients) × (length m.recipients ≤ max_recipients) × (length m.raw ≤ cap)

-- The reply that a verdict asks for: `250 OK` for a stored message, and else `451`.
abbrev pub Owed : Verdict → Reply → Type 0
Owed stored r = r ≡ accepted
Owed _ r = r ≡ local_error

answer-Owed : (v : Verdict) → Owed v (answer v)
answer-Owed stored = refl
answer-Owed rejected = refl
answer-Owed channel_closed = refl
answer-Owed dropped = refl
answer-Owed unanswered = refl

-- What stands behind a handed-over message: the reply that its verdict asks for, or nothing, where
-- `Last` allows that.
abbrev Follows : (Verdict → Type 0) → Verdict → List Entry → Type 0
Follows Last v [] = Last v
Follows Last v (replied r ∷ l) = Owed v r
Follows Last v (handed m u ∷ l) = ⊥

abbrev pub AnsweredUpTo : (Verdict → Type 0) → List Entry → Type 0
AnsweredUpTo Last [] = Unit
AnsweredUpTo Last (replied r ∷ l) = AnsweredUpTo Last l
AnsweredUpTo Last (handed m v ∷ l) = Follows Last v l × AnsweredUpTo Last l

-- Every message is answered by its verdict, but for one at the end whose reply could not be written.
abbrev pub Answered : List Entry → Type 0
Answered = AnsweredUpTo (λ v. Unit)

abbrev pub Settled : List Entry → Type 0
Settled = AnsweredUpTo (λ v. ⊥)

abbrev pub Waiting : Verdict → List Entry → Type 0
Waiting u = AnsweredUpTo (λ v. v ≡ u)

pub Settled-replied : (l : List Entry) (r : Reply) → Settled l → Settled (l ++ replied r ∷ [])
Settled-replied [] r h = tt
Settled-replied (replied q ∷ l) r h = Settled-replied l r h
Settled-replied (handed m v ∷ []) r h = absurd h.0
Settled-replied (handed m v ∷ replied q ∷ l) r h = (h.0, Settled-replied l r h.1)
Settled-replied (handed m v ∷ handed n u ∷ l) r h = absurd h.0

pub Settled-handed :
    (l : List Entry) (m : ReceivedMessage) (v : Verdict)
    → Settled l
    → Waiting v (l ++ handed m v ∷ [])
Settled-handed [] m v h = (refl, tt)
Settled-handed (replied q ∷ l) m v h = Settled-handed l m v h
Settled-handed (handed n u ∷ []) m v h = absurd h.0
Settled-handed (handed n u ∷ replied q ∷ l) m v h = (h.0, Settled-handed l m v h.1)
Settled-handed (handed n u ∷ handed k w ∷ l) m v h = absurd h.0

pub Waiting-answered :
    (l : List Entry) (v : Verdict) → Waiting v l → Settled (l ++ replied (answer v) ∷ [])
Waiting-answered [] v h = tt
Waiting-answered (replied q ∷ l) v h = Waiting-answered l v h
Waiting-answered (handed m u ∷ []) v h = (rw h.0 (answer-Owed v), tt)
Waiting-answered (handed m u ∷ replied q ∷ l) v h = (h.0, Waiting-answered l v h.1)
Waiting-answered (handed m u ∷ handed n x ∷ l) v h = absurd h.0

pub Answered-Waiting : (l : List Entry) (v : Verdict) → Waiting v l → Answered l
Answered-Waiting [] v h = tt
Answered-Waiting (replied q ∷ l) v h = Answered-Waiting l v h
Answered-Waiting (handed m u ∷ []) v h = (tt, tt)
Answered-Waiting (handed m u ∷ replied q ∷ l) v h = (h.0, Answered-Waiting l v h.1)
Answered-Waiting (handed m u ∷ handed n x ∷ l) v h = absurd h.0

pub Answered-Settled : (l : List Entry) → Settled l → Answered l
Answered-Settled [] h = tt
Answered-Settled (replied q ∷ l) h = Answered-Settled l h
Answered-Settled (handed m u ∷ []) h = absurd h.0
Answered-Settled (handed m u ∷ replied q ∷ l) h = (h.0, Answered-Settled l h.1)
Answered-Settled (handed m u ∷ handed n x ∷ l) h = absurd h.0
