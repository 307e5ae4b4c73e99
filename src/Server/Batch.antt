-- ===== src/Server/Batch.antt =====
-- `store_and_announce`, `store_group`, `store_one_by_one` and `reject_rest` of
-- crates/rustmail-server/src/main.rs, over an interface to the store.
-- `process_batch` is `store_and_announce` with the broadcast for `announce`; `store_batch` announces
-- to nobody.
pub mod Ledger
pub mod Outcome
use rustmail.Prelude.{
  ◌≡◌, Bool, true, false, ◌||◌, Option, none, some, List, [], ◌∷◌, ◌++◌, length, ◌==◌,
  if◌then◌else◌,
}
use rustmail.Smtp.Session.{ReceivedMessage}
use rustmail.Server.Transactions.{Delivery, transactions}

-- `Ok` with what was stored, or `Err` with `is_store_wide` of the error.
pub data Inserted {ℓ} (A : Type ℓ) : Type ℓ where
  inserted : A → Inserted A
  failed : Bool → Inserted A

-- The repository as this code relies on it: a batch is stored whole and in order, or not at all.
pub record Store : Type 1 where
  pub State : Type 0
  pub Prepared : Type 0
  pub Summary : Type 0
  pub prepare : ReceivedMessage → Option Prepared
  pub insert_batch : State → List Prepared → Inserted (List Summary) × State
  pub insert_prepared : State → Prepared → Inserted Summary × State
  pub rows : State → List Prepared
  pub batch_inserted :
      (s t : State) (ms : List Prepared) (summaries : List Summary)
      → insert_batch s ms ≡ (inserted summaries, t)
      → rows t ≡ rows s ++ ms
  pub batch_failed :
      (s t : State) (ms : List Prepared) (wide : Bool)
      → insert_batch s ms ≡ (failed wide, t)
      → rows t ≡ rows s
  pub one_inserted :
      (s t : State) (m : Prepared) (summary : Summary)
      → insert_prepared s m ≡ (inserted summary, t)
      → rows t ≡ rows s ++ m ∷ []
  pub one_failed :
      (s t : State) (m : Prepared) (wide : Bool)
      → insert_prepared s m ≡ (failed wide, t)
      → rows t ≡ rows s

pub data DeliveryOutcome : Type 0 where
  stored rejected : DeliveryOutcome

module _ (store : Store) where
  open store use {State, Prepared, Summary, prepare, insert_batch, insert_prepared}

  -- What the consumer does that others see, the deliveries that it passes over, and the batches that
  -- were not stored.
  pub data Event : Type 0 where
    answered : Delivery → DeliveryOutcome → Event
    skipped : Delivery → Event
    announced : Summary → Event
    batch_failed : Event

  -- `is_abandoned` of an acknowledgement, and whether the deadline has passed, may change with each
  -- of these; the code asks for no delivery twice between two of them.
  pub record World : Type 0 where
    pub abandoned : List Event → Delivery → Bool
    pub late : List Event → Bool

  pub record Run : Type 0 where
    pub state : State
    pub log : List Event

  abbrev pub say : List Event → Run → Run
  say es r = record r { log = r.log ++ es }

  abbrev pub Item : Type 0
  Item = Delivery × Prepared

  abbrev pub answer_all : DeliveryOutcome → List Item → List Event
  answer_all o [] = []
  answer_all o ((d, m) ∷ items) = answered d o ∷ answer_all o items

  abbrev pub announce_all : List Summary → List Event
  announce_all [] = []
  announce_all (s ∷ ss) = announced s ∷ announce_all ss

  abbrev pub messages : List Item → List Prepared
  messages [] = []
  messages ((d, m) ∷ items) = m ∷ messages items

  abbrev pub Stored : Type 0
  Stored = Run × List Summary

  abbrev pub also : Summary → Stored → Stored
  also s (r, ss) = (r, s ∷ ss)

  -- `reject_rest`, for the message at hand too.
  abbrev pub reject_all : Run → List Item → Stored
  reject_all r items = (say (answer_all rejected items) r, [])

  -- What one insert leads to; `loop` goes on with the items behind it.
  unfoldable pub after_insert :
      (Run → Stored) → Run → Item → List Item → Inserted Summary × State → Stored
  after_insert loop r (d, m) items (inserted s, t) =
      also s (loop (record { state = t; log = r.log ++ answered d stored ∷ announced s ∷ [] }))
  after_insert loop r (d, m) items (failed true, t) =
      reject_all (record r { state = t }) ((d, m) ∷ items)
  after_insert loop r (d, m) items (failed false, t) =
      loop (record { state = t; log = r.log ++ answered d rejected ∷ [] })

  module _ (w : World) where
    -- One round of the loop.
    unfoldable pub try_one : (Run → Stored) → Run → Item → List Item → Stored
    unfolding after_insert
    try_one loop r (d, m) items =
        if w.abandoned r.log d
        then loop (say (skipped d ∷ []) r)
        else if w.late r.log
        then reject_all r ((d, m) ∷ items)
        else after_insert loop r (d, m) items (insert_prepared r.state m)

    unfoldable pub store_one_by_one : List Item → Run → Stored
    unfolding try_one
    store_one_by_one [] r = (r, [])
    store_one_by_one (item ∷ items) r = try_one (store_one_by_one items) r item items

    -- The first loop of `store_group`: what is left of the group, parsed.
    abbrev pub with_item : Item → Run × List Item → Run × List Item
    with_item i (r, items) = (r, i ∷ items)

    unfoldable pub prepare_one :
        (Run → Run × List Item) → Run → Delivery → Option Prepared → Run × List Item
    prepare_one loop r d (some m) = with_item (d, m) (loop r)
    prepare_one loop r d none = loop (say (answered d rejected ∷ []) r)

    unfoldable pub prepare_all : List Delivery → Run → Run × List Item
    unfolding prepare_one
    prepare_all [] r = (r, [])
    prepare_all (d ∷ ds) r =
        let skip = prepare_all ds (say (skipped d ∷ []) r) in
        let go_on = prepare_one (prepare_all ds) r d (prepare d.message) in
        if w.abandoned r.log d then skip else go_on

    -- The match on `insert_batch`.
    unfoldable pub after_batch : List Item → Run → Inserted (List Summary) × State → Stored
    unfolding store_one_by_one
    after_batch items r (inserted ss, t) =
        (record { state = t; log = (r.log ++ answer_all stored items) ++ announce_all ss }, ss)
    after_batch items r (failed wide, t) =
        let r' : Run = record { state = t; log = r.log ++ batch_failed ∷ [] } in
        if length items == 1 || wide then reject_all r' items else store_one_by_one items r'

    unfoldable pub store_items : Run × List Item → Stored
    unfolding after_batch
    store_items (r, []) = (r, [])
    store_items (r, i ∷ items) =
        after_batch (i ∷ items) r (insert_batch r.state (messages (i ∷ items)))

    unfoldable pub store_group : List Delivery → Run → Stored
    unfolding store_items prepare_all
    store_group ds r = store_items (prepare_all ds r)

    abbrev pub extended : List Summary → Stored → Stored
    extended ss (r, more) = (r, ss ++ more)

    unfoldable pub store_groups : List (List Delivery) → Run → Stored
    unfolding store_group
    store_groups [] r = (r, [])
    store_groups (g ∷ gs) r = let (r', ss) = store_group g r in extended ss (store_groups gs r')

    unfoldable pub store_and_announce : List Delivery → Run → Stored
    unfolding store_groups transactions
    store_and_announce ds r = store_groups (transactions ds) r
