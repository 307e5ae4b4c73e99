-- ===== src/Server/Batch/Ledger.antt =====
-- What a batch leaves behind: the log of what the consumer did against the store's rows.
use mathlib.Core.List.{append_assoc, append-nil, Perm}
use rustmail.Prelude.{
  ◌≡◌, refl, sym, ap, ◌∙◌, inl, inr, true, false, Option, none, some, List, [], ◌∷◌, ◌++◌, All,
  Bool-cases, if◌then◌else◌,
}
use rustmail.Server.Transactions.{Delivery}
use rustmail.Server.Batch.{
  Inserted, inserted, failed, Store, DeliveryOutcome, stored, rejected, Event, answered, skipped,
  announced, batch_failed, World, Run, say, Item, answer_all, announce_all, messages, Stored, also,
  after_insert, try_one, store_one_by_one,
}

abbrev at_hand {ℓ} : {A : Type ℓ} → Option A → List A
at_hand none = []
at_hand (some a) = a ∷ []

module _ (store : Store) where
  open store use {State, Prepared, Summary, prepare, insert_batch, insert_prepared, rows}

  module _ (w : World store) where
    -- The deliveries that a log behind `before` deals with: those it answers, and those it passes
    -- over that were abandoned at that point.
    abbrev pub dealt : (before : List (Event store)) → List (Event store) → List Delivery
    dealt before [] = []
    dealt before (answered d o ∷ es) = d ∷ dealt (before ++ answered d o ∷ []) es
    dealt before (skipped d ∷ es) =
        let rest = dealt (before ++ skipped d ∷ []) es in
        if w.abandoned before d then d ∷ rest else rest
    dealt before (announced s ∷ es) = dealt (before ++ announced s ∷ []) es
    dealt before (batch_failed ∷ es) = dealt (before ++ batch_failed ∷ []) es

    dealt-cons :
        (before : List (Event store)) (e : Event store) (a b : List (Event store))
        → dealt (before ++ e ∷ []) (a ++ b)
          ≡ dealt (before ++ e ∷ []) a ++ dealt ((before ++ e ∷ []) ++ a) b
        → dealt (before ++ e ∷ []) (a ++ b)
          ≡ dealt (before ++ e ∷ []) a ++ dealt (before ++ (e ∷ a)) b
    dealt-cons before e a b h =
        h ∙ ap (λ l. dealt (before ++ e ∷ []) a ++ dealt l b) (append_assoc before (e ∷ []) a)

    pub dealt-append :
        (before a b : List (Event store))
        → dealt before (a ++ b) ≡ dealt before a ++ dealt (before ++ a) b
    dealt-append before [] b = rw append-nil refl
    dealt-append before (answered d o ∷ a) b =
        ap (◌∷◌ d)
          (dealt-cons before (answered d o) a b (dealt-append (before ++ answered d o ∷ []) a b))
    dealt-append before (skipped d ∷ a) b =
        let later =
          dealt-cons before (skipped d) a b (dealt-append (before ++ skipped d ∷ []) a b) in
        elim (Bool-cases (w.abandoned before d)) [
          | inl gone ↦ rw gone (ap (◌∷◌ d) later)
          | inr here ↦ rw here later
        ]
    dealt-append before (announced s ∷ a) b =
        dealt-cons before (announced s) a b (dealt-append (before ++ announced s ∷ []) a b)
    dealt-append before (batch_failed ∷ a) b =
        dealt-cons before batch_failed a b (dealt-append (before ++ batch_failed ∷ []) a b)

  -- The messages that the log calls stored, and its announcements.
  abbrev pub accepted : List (Event store) → List Prepared
  accepted [] = []
  accepted (answered d stored ∷ es) = at_hand (prepare d.message) ++ accepted es
  accepted (answered d rejected ∷ es) = accepted es
  accepted (skipped d ∷ es) = accepted es
  accepted (announced s ∷ es) = accepted es
  accepted (batch_failed ∷ es) = accepted es

  abbrev pub announcements : List (Event store) → List Summary
  announcements [] = []
  announcements (answered d o ∷ es) = announcements es
  announcements (skipped d ∷ es) = announcements es
  announcements (announced s ∷ es) = s ∷ announcements es
  announcements (batch_failed ∷ es) = announcements es

  pub accepted-append : (a b : List (Event store)) → accepted (a ++ b) ≡ accepted a ++ accepted b
  accepted-append [] b = refl
  accepted-append (answered d stored ∷ a) b = rw (accepted-append a b, append_assoc)
  accepted-append (answered d rejected ∷ a) b = accepted-append a b
  accepted-append (skipped d ∷ a) b = accepted-append a b
  accepted-append (announced s ∷ a) b = accepted-append a b
  accepted-append (batch_failed ∷ a) b = accepted-append a b

  pub announcements-append :
      (a b : List (Event store)) → announcements (a ++ b) ≡ announcements a ++ announcements b
  announcements-append [] b = refl
  announcements-append (answered d o ∷ a) b = announcements-append a b
  announcements-append (skipped d ∷ a) b = announcements-append a b
  announcements-append (announced s ∷ a) b = ap (◌∷◌ s) (announcements-append a b)
  announcements-append (batch_failed ∷ a) b = announcements-append a b

  abbrev pub deliveries : List (Item store) → List Delivery
  deliveries [] = []
  deliveries ((d, m) ∷ items) = d ∷ deliveries items

  -- The parsed messages are those of their deliveries.
  abbrev pub IsParsed : Item store → Type 0
  IsParsed (d, m) = prepare d.message ≡ some m

  pub dealt-answer_all :
      (w : World store) (before : List (Event store)) (o : DeliveryOutcome)
      (items : List (Item store))
      → dealt w before (answer_all store o items) ≡ deliveries items
  dealt-answer_all w before o [] = refl
  dealt-answer_all w before o ((d, m) ∷ items) =
      ap (◌∷◌ d) (dealt-answer_all w (before ++ answered d o ∷ []) o items)

  pub announcements-answer_all :
      (o : DeliveryOutcome) (items : List (Item store))
      → announcements (answer_all store o items) ≡ []
  announcements-answer_all o [] = refl
  announcements-answer_all o ((d, m) ∷ items) = announcements-answer_all o items

  accepted-reject : (items : List (Item store)) → accepted (answer_all store rejected items) ≡ []
  accepted-reject [] = refl
  accepted-reject ((d, m) ∷ items) = accepted-reject items

  pub accepted-store :
      (items : List (Item store))
      → All IsParsed items
      → accepted (answer_all store stored items) ≡ messages store items
  accepted-store [] h = refl
  accepted-store ((d, m) ∷ items) (p, h) = rw (p, accepted-store items h)

  pub dealt-announce_all :
      (w : World store) (before : List (Event store)) (ss : List Summary)
      → dealt w before (announce_all store ss) ≡ []
  dealt-announce_all w before [] = refl
  dealt-announce_all w before (s ∷ ss) = dealt-announce_all w (before ++ announced s ∷ []) ss

  pub accepted-announce_all : (ss : List Summary) → accepted (announce_all store ss) ≡ []
  accepted-announce_all [] = refl
  accepted-announce_all (s ∷ ss) = accepted-announce_all ss

  pub announcements-announce_all : (ss : List Summary) → announcements (announce_all store ss) ≡ ss
  announcements-announce_all [] = refl
  announcements-announce_all (s ∷ ss) = ap (◌∷◌ s) (announcements-announce_all ss)

  -- The store holds what it held and what the log calls stored; the log and what is pending make up
  -- the deliveries; and the announcements are `told`.
  pub record Ledger (w : World store) (base : List Prepared) (all pending : List Delivery)
      (told : List Summary) (r : Run store) : Type 0 where
    pub persisted : rows r.state ≡ base ++ accepted r.log
    pub accounted : Perm (dealt w [] r.log ++ pending) all
    pub told_of : announcements r.log ≡ told

  module _ (w : World store) (base : List Prepared) (all : List Delivery) where
    abbrev pub Kept : List Delivery → List Summary → Stored store → Type 0
    Kept rest told (r, ss) = Ledger w base all rest (told ++ ss) r

    -- Events that store nothing, said of the deliveries that come first.
    pub say-Ledger :
        (ds rest : List Delivery) (told : List Summary) (r : Run store) (es : List (Event store))
        → Ledger w base all (ds ++ rest) told r
        → dealt w r.log es ≡ ds
        → accepted es ≡ []
        → announcements es ≡ []
        → Ledger w base all rest told (say store es r)
    say-Ledger ds rest told r es h d a n = record {
      persisted =
          h.persisted ∙ ap (◌++◌ base) (sym (accepted-append r.log es ∙ rw (a, append-nil)));
      accounted = rw (dealt-append w [] r.log es, d, append_assoc) h.accounted;
      told_of = announcements-append r.log es ∙ rw (n, append-nil) h.told_of;
    }

    pub reject_all-Ledger :
        (items : List (Item store)) (rest : List Delivery) (told : List Summary) (r : Run store)
        → Ledger w base all (deliveries items ++ rest) told r
        → Kept rest told (say store (answer_all store rejected items) r, [])
    reject_all-Ledger items rest told r h = rw append-nil (
        say-Ledger (deliveries items) rest told r (answer_all store rejected items) h
          (dealt-answer_all w r.log rejected items) (accepted-reject items)
          (announcements-answer_all rejected items))

    -- A message that went in: its row, its answer and its announcement.
    stored-Ledger :
        (d : Delivery) (m : Prepared) (rest : List Delivery) (told : List Summary) (r : Run store)
        (s : Summary) (t : State)
        → Ledger w base all (d ∷ rest) told r
        → prepare d.message ≡ some m
        → rows t ≡ rows r.state ++ m ∷ []
        → Ledger w base all rest
            (told ++ s ∷ [])
            (record { state = t; log = r.log ++ answered d stored ∷ announced s ∷ [] })
    stored-Ledger d m rest told r s t h p e = record {
      persisted = rw (e, h.persisted, accepted-append r.log _, p, append_assoc);
      accounted = rw (dealt-append w [] r.log _, append_assoc) h.accounted;
      told_of = rw (announcements-append r.log _, h.told_of);
    }

    abbrev pub Loop : (Run store → Stored store) → List Delivery → List Delivery → Type 0
    Loop loop before rest =
        (told : List Summary) (r : Run store)
        → Ledger w base all (before ++ rest) told r
        → Kept rest told (loop r)

    also-Ledger :
        (rest : List Delivery) (told : List Summary) (s : Summary) (r : Stored store)
        → Kept rest (told ++ s ∷ []) r
        → Kept rest told (also store s r)
    also-Ledger rest told s (r, ss) h = rw append_assoc at h

    pub state-Ledger :
        (pending : List Delivery) (told : List Summary) (r : Run store) (t : State)
        → Ledger w base all pending told r
        → rows t ≡ rows r.state
        → Ledger w base all pending told (record r { state = t })
    state-Ledger pending told r t h e = record {
      persisted = e ∙ h.persisted;
      accounted = h.accounted;
      told_of = h.told_of;
    }

    after_insert-Ledger :
        (loop : Run store → Stored store) (r : Run store) (d : Delivery) (m : Prepared)
        (items : List (Item store)) (rest : List Delivery) (told : List Summary)
        (result : Inserted Summary × State)
        → Loop loop (deliveries items) rest
        → Ledger w base all (d ∷ (deliveries items ++ rest)) told r
        → prepare d.message ≡ some m
        → insert_prepared r.state m ≡ result
        → Kept rest told (after_insert store loop r (d, m) items result)
    unfolding after_insert
    after_insert-Ledger loop r d m items rest told (inserted s, t) ih h p e =
        also-Ledger rest told s _ (
          ih (told ++ s ∷ []) _ (
            stored-Ledger d m (deliveries items ++ rest) told r s t h p
              (store.one_inserted r.state t m s e)))
    after_insert-Ledger loop r d m items rest told (failed true, t) ih h p e =
        reject_all-Ledger ((d, m) ∷ items) rest told (record r { state = t })
          (state-Ledger _ told r t h (store.one_failed r.state t m true e))
    after_insert-Ledger loop r d m items rest told (failed false, t) ih h p e = ih told _ (
        say-Ledger (d ∷ []) (deliveries items ++ rest) told (record r { state = t })
          (answered d rejected ∷ [])
          (state-Ledger _ told r t h (store.one_failed r.state t m false e)) refl refl refl)

    try_one-Ledger :
        (loop : Run store → Stored store) (r : Run store) (d : Delivery) (m : Prepared)
        (items : List (Item store)) (rest : List Delivery) (told : List Summary)
        → Loop loop (deliveries items) rest
        → Ledger w base all (d ∷ (deliveries items ++ rest)) told r
        → prepare d.message ≡ some m
        → Kept rest told (try_one store w loop r (d, m) items)
    unfolding try_one
    try_one-Ledger loop r d m items rest told ih h p = elim (Bool-cases (w.abandoned r.log d)) [
      | inl gone ↦ rw gone (
          ih told _ (
            say-Ledger (d ∷ []) (deliveries items ++ rest) told r (skipped d ∷ []) h (rw gone refl)
              refl refl))
      | inr here ↦ rw here (elim (Bool-cases (w.late r.log)) [
        | inl late ↦ rw late (reject_all-Ledger ((d, m) ∷ items) rest told r h)
        | inr early ↦
            rw early (
              after_insert-Ledger loop r d m items rest told (insert_prepared r.state m) ih h p
                refl)
      ])
    ]

    pub store_one_by_one-Ledger :
        (items : List (Item store)) (rest : List Delivery) (told : List Summary) (r : Run store)
        → All IsParsed items
        → Ledger w base all (deliveries items ++ rest) told r
        → Kept rest told (store_one_by_one store w items r)
    unfolding store_one_by_one
    store_one_by_one-Ledger [] rest told r p h = rw append-nil h
    store_one_by_one-Ledger ((d, m) ∷ items) rest told r (p, ps) h =
        try_one-Ledger (store_one_by_one store w items) r d m items rest told
          (λ told' r' h'. store_one_by_one-Ledger items rest told' r' ps h') h p
