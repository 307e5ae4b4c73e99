-- ===== src/Storage/Insert/Batch.antt =====
-- `insert_batch` and `insert_prepared` add whole messages, in order, or nothing.
use mathlib.Core.List.{append_assoc, append-nil, map-append}
use mathlib.Core.Path.{subst}
use rustmail.Prelude.{
  ℕ, zero, suc, ◌≡◌, ◌≤◌, refl, sym, ap, ◌∙◌, Option, none, some, List, [], ◌∷◌, ◌++◌, map, length,
  drop, arith, else_some, length-drop, take-drop,
}
use rustmail.Storage.Schema.{PreparedMessage, MessageSummary, IndexRow, Db}
use rustmail.Storage.Exec.{World, Conn, ◌>>=◌, ◌>>◌}
use rustmail.Storage.Exec.Holds.{Post, Effect, Post-map, bind-Post, statement-Holds, write-Effect}
use rustmail.Storage.Insert.{
  insert_rows_in, Stored, index_row, index_rows, indexed, index_chunk, chunks, index_in, index_each,
  insert_each, insert_all_in, insert_batch, insert_prepared, only, zip, fts_rows_per_statement,
}
use rustmail.Storage.Insert.Items.{
  Item, item_summary, add_rows, add_all_rows, numbers, Fit, messages_of, add_all-rows, Added,
}
use rustmail.Storage.Insert.Adds.{RowsIn, insert_rows_in-Post}

-- The rows of several messages.
record RowsInAll (ms : List PreparedMessage) (d : Db) (ss : List Stored) (d' : Db) : Type 0 where
  items : List Item
  fit : Fit items d
  sources : messages_of items ≡ ms
  answers : map (λ s. s.1) ss ≡ map item_summary items
  places : map (λ s. s.0) ss ≡ numbers items d
  result : d' ≡ add_all_rows items d

RowsInAll-cons :
    (m : PreparedMessage) (ms : List PreparedMessage) (d d1 d' : Db) (s : Stored) (ss : List Stored)
    → RowsIn m d s d1
    → RowsInAll ms d1 ss d'
    → RowsInAll (m ∷ ms) d (s ∷ ss) d'
RowsInAll-cons m ms d d1 d' s ss one more =
    let more' = subst (λ d1. RowsInAll ms d1 ss d') one.result more in
    record {
      items = one.item ∷ more'.items;
      fit = (one.fits, more'.fit);
      sources = rw (one.source, more'.sources) refl;
      answers = rw (one.answer, more'.answers) refl;
      places = rw (one.answer, more'.places) refl;
      result = more'.result;
    }

module _ (w : World) where
  insert_each-Post :
      (ms : List PreparedMessage) (c : Conn)
      → Post (λ ss c'. RowsInAll ms c.db ss c'.db) (insert_each w ms c)
  unfolding insert_each
  insert_each-Post [] c = record {
    items = [];
    fit = tt;
    sources = refl;
    answers = refl;
    places = refl;
    result = refl;
  }
  insert_each-Post (m ∷ ms) c =
      bind-Post (λ s c1. RowsIn m c.db s c1.db) (λ ss c'. RowsInAll (m ∷ ms) c.db ss c'.db)
        (insert_rows_in w m) _ c (insert_rows_in-Post w m c)
        (λ s c1 one.
          bind-Post (λ ss c2. RowsInAll ms c1.db ss c2.db)
            (λ ss c'. RowsInAll (m ∷ ms) c.db ss c'.db) (insert_each w ms) _ c1
            (insert_each-Post ms c1)
            (λ ss c2 more. RowsInAll-cons m ms c.db c1.db c2.db s ss one more))

index_rows-all :
    (rows : List (ℕ × PreparedMessage)) (table t : List IndexRow)
    → index_rows rows table ≡ some t
    → t ≡ table ++ map index_row rows
unfolding index_rows
index_rows-all [] table t e = rw append-nil cc
index_rows-all (r ∷ rows) table t e =
    index_rows-all rows (table ++ index_row r ∷ []) t (else_some _ _ t e)
    ∙ append_assoc table (index_row r ∷ []) (map index_row rows)

abbrev indexed_with : List IndexRow → Db → Db
indexed_with t d = record d { index = t }

indexed-Post :
    (o : Option (List IndexRow)) (rows : List (ℕ × PreparedMessage)) (c : Conn)
    → ((t : List IndexRow) → o ≡ some t → t ≡ c.db.index ++ map index_row rows)
    → Post
        (λ u c'. c'.db ≡ indexed_with (c.db.index ++ map index_row rows) c.db)
        ((indexed o c.db).0, record { db = (indexed o c.db).1; moment = suc c.moment })
indexed-Post none rows c h = tt
indexed-Post (some t) rows c h = ap (λ (t : List IndexRow). indexed_with t c.db) (h t refl)

abbrev flat {ℓ} : {A : Type ℓ} → List (List A) → List A
flat [] = []
flat (xs ∷ xss) = xs ++ flat xss

-- The chunks hold every element, in order.
flat-chunks {ℓ} :
    {A : Type ℓ} (fuel size : ℕ) (xs : List A)
    → length xs ≤ fuel
    → flat (chunks fuel (suc size) xs) ≡ xs
unfolding chunks
flat-chunks zero size [] h = refl
flat-chunks zero size (x ∷ xs) h = absurd (omega arith)
flat-chunks (suc fuel) size [] h = refl
flat-chunks (suc fuel) size (x ∷ xs) h =
    rw (flat-chunks fuel size (drop size xs) (omega (arith, length-drop size xs)))
      (ap (◌∷◌ x) (take-drop size xs))

length-zip :
    (items : List Item) (d : Db) → length (zip (numbers items d) (messages_of items)) ≡ length items
length-zip [] d = refl
length-zip (i ∷ items) d = ap suc (length-zip items (add_rows i d))

length-sources : (items : List Item) → length (messages_of items) ≡ length items
length-sources [] = refl
length-sources (i ∷ items) = ap suc (length-sources items)

length-summaries : (items : List Item) → length (map item_summary items) ≡ length items
length-summaries [] = refl
length-summaries (i ∷ items) = ap suc (length-summaries items)

index-add_all_rows : (items : List Item) (d : Db) → (add_all_rows items d).index ≡ d.index
index-add_all_rows [] d = refl
index-add_all_rows (i ∷ items) d = index-add_all_rows items (add_rows i d)

module _ (w : World) where
  index_in-Post :
      (rows : List (ℕ × PreparedMessage)) (c : Conn)
      → Post
          (λ u c'. c'.db ≡ indexed_with (c.db.index ++ map index_row rows) c.db)
          (index_in w rows c)
  unfolding index_in index_chunk
  index_in-Post rows c =
      statement-Holds w _ (λ e c. Unit) (index_chunk rows) c (λ code. tt)
        (indexed-Post (index_rows rows c.db.index) rows c (index_rows-all rows c.db.index))

  two_indexed :
      (rows : List (ℕ × PreparedMessage)) (cs : List (List (ℕ × PreparedMessage))) (d d1 d2 : Db)
      → d1 ≡ indexed_with (d.index ++ map index_row rows) d
      → d2 ≡ indexed_with (d1.index ++ map index_row (flat cs)) d1
      → d2 ≡ indexed_with (d.index ++ map index_row (rows ++ flat cs)) d
  two_indexed rows cs d d1 d2 e1 e2 =
      e2
      ∙ ap (λ (d1 : Db). indexed_with (d1.index ++ map index_row (flat cs)) d1) e1
      ∙ ap (λ (t : List IndexRow). indexed_with t d)
          (append_assoc d.index (map index_row rows) (map index_row (flat cs))
            ∙ ap (λ (t : List IndexRow). d.index ++ t) (sym (map-append index_row rows (flat cs))))

  index_each-Post :
      (cs : List (List (ℕ × PreparedMessage))) (c : Conn)
      → Post
          (λ u c'. c'.db ≡ indexed_with (c.db.index ++ map index_row (flat cs)) c.db)
          (index_each w cs c)
  unfolding index_each ◌>>◌
  index_each-Post [] c = rw append-nil refl
  index_each-Post (rows ∷ cs) c =
      bind-Post (λ u c1. c1.db ≡ indexed_with (c.db.index ++ map index_row rows) c.db)
        (λ u c'. c'.db ≡ indexed_with (c.db.index ++ map index_row (flat (rows ∷ cs))) c.db)
        (index_in w rows) (λ u. index_each w cs) c (index_in-Post rows c)
        (λ u c1 e1.
          Post-map (λ u c2. c2.db ≡ indexed_with (c1.db.index ++ map index_row (flat cs)) c1.db)
            (λ u c2. c2.db ≡ indexed_with (c.db.index ++ map index_row (flat (rows ∷ cs))) c.db)
            (index_each w cs c1) (λ u c2 e2. two_indexed rows cs c.db c1.db c2.db e1 e2)
            (index_each-Post cs c1))

  all_in :
      (ms : List PreparedMessage) (d d1 d2 : Db) (ss : List Stored)
      → RowsInAll ms d ss d1
      → d2
        ≡ indexed_with
            (d1.index
              ++ map index_row
                  (flat (chunks (length ms) fts_rows_per_statement (zip (map (λ s. s.0) ss) ms))))
            d1
      → Added d ms (map (λ s. s.1) ss) d2
  all_in ms d d1 d2 ss h e =
      let sources = messages_of h.items in
      let whole =
        flat-chunks (length sources) 999 (zip (numbers h.items d) sources)
          (omega (arith, length-zip h.items d, length-sources h.items)) in
      record {
        items = h.items;
        fit = h.fit;
        sources = h.sources;
        answers = h.answers;
        result =
            e
            ∙ rw (h.result, h.places, ← h.sources, whole, index-add_all_rows h.items d)
                (add_all-rows h.items d);
      }

  insert_all_in-Post :
      (ms : List PreparedMessage) (c : Conn)
      → Post (λ ss c'. Added c.db ms ss c'.db) (insert_all_in w ms c)
  unfolding insert_all_in ◌>>◌
  insert_all_in-Post ms c =
      bind-Post (λ ss c1. RowsInAll ms c.db ss c1.db) (λ ss c'. Added c.db ms ss c'.db)
        (insert_each w ms) _ c (insert_each-Post w ms c)
        (λ ss c1 h.
          let cs = chunks (length ms) fts_rows_per_statement (zip (map (λ s. s.0) ss) ms) in
          bind-Post (λ u c2. c2.db ≡ indexed_with (c1.db.index ++ map index_row (flat cs)) c1.db)
            (λ ss c'. Added c.db ms ss c'.db) (index_each w cs) _ c1 (index_each-Post cs c1)
            (λ u c2 e. all_in ms c.db c1.db c2.db ss h e))

  -- A batch is added whole and in order, with its summaries in order, or the database is as it was.
  pub insert_batch-Effect :
      (ms : List PreparedMessage) → Effect (λ d ss d'. Added d ms ss d') (insert_batch w ms)
  unfolding insert_batch
  insert_batch-Effect ms =
      write-Effect w (λ d ss d'. Added d ms ss d') (insert_all_in w ms) (insert_all_in-Post ms)

  only-Post :
      (d : Db) (m : PreparedMessage) (ss : List MessageSummary) (c : Conn)
      → Added d (m ∷ []) ss c.db
      → Post (λ s c'. Added d (m ∷ []) (s ∷ []) c'.db) (only w ss c)
  only-Post d m [] c h = tt
  only-Post d m (s ∷ []) c h = h
  only-Post d m (s ∷ t ∷ ss) c h = absurd (
      omega (
        arith,
        ap length h.answers,
        ap length h.sources,
        length-sources h.items,
        length-summaries h.items,
      ))

  pub insert_prepared-Effect :
      (m : PreparedMessage) → Effect (λ d s d'. Added d (m ∷ []) (s ∷ []) d') (insert_prepared w m)
  unfolding insert_prepared
  insert_prepared-Effect m =
      write-Effect w (λ d s d'. Added d (m ∷ []) (s ∷ []) d') (insert_all_in w (m ∷ []) >>= only w)
        (λ c.
          bind-Post (λ ss c1. Added c.db (m ∷ []) ss c1.db)
            (λ s c'. Added c.db (m ∷ []) (s ∷ []) c'.db) (insert_all_in w (m ∷ [])) (only w) c
            (insert_all_in-Post (m ∷ []) c) (λ ss c1 h. only-Post c.db m ss c1 h))
