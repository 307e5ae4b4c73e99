-- ===== src/Server/Batch/Outcome.antt =====
-- The whole batch: `store_group` and `store_and_announce` keep the ledger.
use mathlib.Core.List.{append_assoc, append-nil, Perm, perm_middle, perm-append_left_iff, flatten}
use mathlib.Core.List.Perm
use rustmail.Prelude.{
  ◌≡◌, refl, sym, ◌∙◌, inl, inr, ◌||◌, Option, none, some, List, [], ◌∷◌, ◌++◌, All, length, ◌==◌,
  Bool-cases,
}
use rustmail.Server.Transactions.{Delivery, transactions, flatten-transactions}
use rustmail.Server.Batch.{
  Inserted, inserted, failed, Store, stored, rejected, answered, skipped, batch_failed, World, Run,
  Item, answer_all, announce_all, messages, Stored, with_item, extended, prepare_one, prepare_all,
  after_batch, store_items, store_group, store_groups, store_and_announce,
}
use rustmail.Server.Batch.Ledger.{
  dealt, accepted, announcements, accepted-append, dealt-append, announcements-append, deliveries,
  IsParsed, dealt-answer_all, announcements-answer_all, accepted-store, dealt-announce_all,
  accepted-announce_all, announcements-announce_all, Ledger, Kept, say-Ledger, reject_all-Ledger,
  state-Ledger, store_one_by_one-Ledger,
}

module _ (store : Store) (base : List store.Prepared) (whole : List Delivery)
    (w : World store) where
  open store use {State, Prepared, Summary, prepare, insert_batch, rows}

  abbrev Books : List Delivery → List Summary → Run store → Type 0
  Books = Ledger store w base whole

  abbrev Done : List Delivery → List Summary → Stored store → Type 0
  Done = Kept store w base whole

  Books-Perm :
      (a b : List Delivery) (told : List Summary) (r : Run store)
      → Perm b a
      → Books a told r
      → Books b told r
  Books-Perm a b told r p h = record {
    persisted = h.persisted;
    accounted = Perm.trans ((perm-append_left_iff (dealt store w [] r.log)).1 p) h.accounted;
    told_of = h.told_of;
  }

  -- The first loop leaves the parsed messages pending, in order.
  abbrev Prepares : List Delivery → List Summary → Run store × List (Item store) → Type 0
  Prepares rest told (r, items) =
      Books (deliveries store items ++ rest) told r × All (IsParsed store) items

  with_item-Prepares :
      (d : Delivery) (m : Prepared) (rest : List Delivery) (told : List Summary)
      (r : Run store × List (Item store))
      → prepare d.message ≡ some m
      → Prepares (d ∷ rest) told r
      → Prepares rest told (with_item store w (d, m) r)
  with_item-Prepares d m rest told (r, items) p (h, ps) =
      (Books-Perm _ _ told r (Perm.symm (perm_middle (deliveries store items) rest)) h, (p, ps))

  prepare_one-Prepares :
      (loop : Run store → Run store × List (Item store)) (d : Delivery) (ds rest : List Delivery)
      (told : List Summary) (r : Run store) (o : Option Prepared)
      → ((rest' : List Delivery) (r' : Run store)
          → Books (ds ++ rest') told r'
          → Prepares rest' told (loop r'))
      → Books (d ∷ (ds ++ rest)) told r
      → prepare d.message ≡ o
      → Prepares rest told (prepare_one store w loop r d o)
  unfolding prepare_one
  prepare_one-Prepares loop d ds rest told r (some m) ih h e =
      with_item-Prepares d m rest told _ e
        (ih (d ∷ rest) r (Books-Perm _ _ told r (perm_middle ds rest) h))
  prepare_one-Prepares loop d ds rest told r none ih h e = ih rest _ (
      say-Ledger store w base whole (d ∷ []) (ds ++ rest) told r (answered d rejected ∷ []) h refl
        refl refl)

  prepare_all-Prepares :
      (ds rest : List Delivery) (told : List Summary) (r : Run store)
      → Books (ds ++ rest) told r
      → Prepares rest told (prepare_all store w ds r)
  unfolding prepare_all
  prepare_all-Prepares [] rest told r h = (h, tt)
  prepare_all-Prepares (d ∷ ds) rest told r h = elim (Bool-cases (w.abandoned r.log d)) [
    | inl gone ↦ rw gone (
        prepare_all-Prepares ds rest told _ (
          say-Ledger store w base whole (d ∷ []) (ds ++ rest) told r (skipped d ∷ []) h
            (rw gone refl) refl refl))
    | inr here ↦ rw here (
        prepare_one-Prepares (prepare_all store w ds) d ds rest told r (prepare d.message)
          (λ rest' r' h'. prepare_all-Prepares ds rest' told r' h') h refl)
  ]

  batch-Books :
      (items : List (Item store)) (rest : List Delivery) (told ss : List Summary) (r : Run store)
      (t : State)
      → Books (deliveries store items ++ rest) told r
      → All (IsParsed store) items
      → rows t ≡ rows r.state ++ messages store items
      → Books rest (told ++ ss) (record {
        state = t;
        log = (r.log ++ answer_all store stored items) ++ announce_all store ss;
      })
  batch-Books items rest told ss r t h ps e =
      let answers = answer_all store stored items in
      record {
        persisted = rw (
          e,
          h.persisted,
          accepted-append store (r.log ++ answers) _,
          accepted-append store r.log answers,
          accepted-store store items ps,
          accepted-announce_all store ss,
          append-nil,
          append_assoc,
        );
        accounted =
            rw
              (
                dealt-append store w [] (r.log ++ answers) _,
                dealt-append store w [] r.log answers,
                dealt-answer_all store w r.log stored items,
                dealt-announce_all store w (r.log ++ answers) ss,
                append-nil,
                append_assoc,
              )
              h.accounted;
        told_of = rw (
          announcements-append store (r.log ++ answers) _,
          announcements-append store r.log answers,
          announcements-answer_all store stored items,
          announcements-announce_all store ss,
          append-nil,
          h.told_of,
        );
      }

  after_batch-Done :
      (items : List (Item store)) (rest : List Delivery) (told : List Summary) (r : Run store)
      (result : Inserted (List Summary) × State)
      → Books (deliveries store items ++ rest) told r
      → All (IsParsed store) items
      → insert_batch r.state (messages store items) ≡ result
      → Done rest told (after_batch store w items r result)
  unfolding after_batch
  after_batch-Done items rest told r (inserted ss, t) h ps e =
      batch-Books items rest told ss r t h ps
        (store.batch_inserted r.state t (messages store items) ss e)
  after_batch-Done items rest told r (failed wide, t) h ps e =
      let h' =
        state-Ledger store w base whole _ told r t h
          (store.batch_failed r.state t (messages store items) wide e) in
      let r' : Run store = record { state = t; log = r.log ++ batch_failed ∷ [] } in
      let told_h =
        say-Ledger store w base whole [] (deliveries store items ++ rest) told
          (record r { state = t }) (batch_failed ∷ []) h' refl refl refl in
      elim (Bool-cases (length items == 1 || wide)) [
        | inl alone ↦ rw alone (reject_all-Ledger store w base whole items rest told r' told_h)
        | inr more ↦
            rw more (store_one_by_one-Ledger store w base whole items rest told r' ps told_h)
      ]

  store_items-Done :
      (rest : List Delivery) (told : List Summary) (r : Run store × List (Item store))
      → Prepares rest told r
      → Done rest told (store_items store w r)
  unfolding store_items
  store_items-Done rest told (r, []) (h, ps) = rw append-nil h
  store_items-Done rest told (r, i ∷ items) (h, ps) =
      after_batch-Done (i ∷ items) rest told r _ h ps refl

  store_group-Done :
      (ds rest : List Delivery) (told : List Summary) (r : Run store)
      → Books (ds ++ rest) told r
      → Done rest told (store_group store w ds r)
  unfolding store_group
  store_group-Done ds rest told r h =
      store_items-Done rest told (prepare_all store w ds r) (prepare_all-Prepares ds rest told r h)

  extended-Done :
      (told ss : List Summary) (r : Stored store)
      → Done [] (told ++ ss) r
      → Done [] told (extended store w ss r)
  extended-Done told ss (r, more) h = rw append_assoc at h

  store_groups-Done :
      (gs : List (List Delivery)) (told : List Summary) (r : Run store)
      → Books (flatten gs) told r
      → Done [] told (store_groups store w gs r)
  unfolding store_groups flatten
  store_groups-Done [] told r h = rw append-nil h
  store_groups-Done (g ∷ gs) told r h =
      let done = store_group-Done g (flatten gs) told r h in
      let (r', ss) = store_group store w g r in
      extended-Done told ss (store_groups store w gs r') (store_groups-Done gs (told ++ ss) r' done)

  store_and_announce-Done :
      (ds : List Delivery) (s : State)
      → (Perm ds whole)
      → base ≡ rows s
      → Done [] [] (store_and_announce store w ds (record { state = s; log = [] }))
  unfolding store_and_announce
  store_and_announce-Done ds s p e = store_groups-Done (transactions ds) [] _ (record {
    persisted = sym (append-nil base ∙ e);
    accounted = rw (flatten-transactions ds) p;
    told_of = refl;
  })

module _ (store : Store) (w : World store) (ds : List Delivery) (s : store.State) where
  -- The run of a batch from the state `s`, and the summaries that it returns.
  abbrev pub outcome : Stored store
  outcome = store_and_announce store w ds (record { state = s; log = [] })

  ledger : Done store (store.rows s) ds w [] [] outcome
  ledger = store_and_announce-Done store (store.rows s) ds w ds s (Perm.refl ds) refl

  -- After a batch, the store holds what it held before, and behind it, in the order of the answers, the
  -- parsed messages of exactly the deliveries that were answered `Stored`: no message is answered
  -- `Stored` without its row, and no row is added without that answer.
  pub persisted-store_and_announce :
      store.rows outcome.0.state ≡ store.rows s ++ accepted store outcome.0.log
  persisted-store_and_announce = ledger.persisted

  -- Every delivery of a batch is dealt with exactly once: answered, or passed over when it was
  -- abandoned.
  pub dealt-store_and_announce : Perm (dealt store w [] outcome.0.log) ds
  dealt-store_and_announce = rw append-nil at ledger.accounted

  -- A batch announces exactly the summaries that it returns, in their order.
  pub announcements-store_and_announce : announcements store outcome.0.log ≡ outcome.1
  announcements-store_and_announce = ledger.told_of
