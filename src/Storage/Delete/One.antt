-- ===== src/Storage/Delete/One.antt =====
-- `delete` removes one message with all that belongs to it, or says that there is none.
use mathlib.Core.Path.{subst}
use rustmail.Prelude.Text.{Text, same-true, same_comm}
use rustmail.Prelude.{
  ◌⊎◌, ℕ, suc, ◌≡◌, ◌≤◌, refl, ap, ◌∙◌, Bool, true, false, not, List, [], ◌∷◌, length, any, All,
  All-map, keep, without, first, has, keep-All, keep-none, Bool-cases, inl, inr, is_empty, arith,
  if◌then◌else◌,
}
use rustmail.Storage.Schema.{MessageRow, IndexRow, Db}
use rustmail.Storage.Error.{StorageError, not_found, database, SqlxError}
use rustmail.Storage.Exec.{World, Conn, pure, raise, ◌>>◌}
use rustmail.Storage.Exec.Holds.{Holds, pass-Holds, EndsWith, transaction-EndsWith}
use rustmail.Storage.Delete.{
  remove_messages, remove_index, ids_of, has_id, is_at, seq_of, delete_in, delete,
}
use rustmail.Storage.Delete.Purge.{purge, gone}
use rustmail.Storage.Delete.Oldest.{length-seqs}
use rustmail.Storage.Delete.Effects.{two_deletes}
use rustmail.Storage.WellFormed.{WellFormed, DistinctIds}

-- At most one message has an identifier.
keep-has_id : (id : Text) (ms : List MessageRow) → DistinctIds ms → length (keep (has_id id) ms) ≤ 1
keep-has_id id [] h = omega arith
keep-has_id id (m ∷ ms) (new, h) = elim (Bool-cases (has_id id m)) [
  | inl e ↦
      rw
        (
          e,
          keep-none (has_id id) ms (
              subst (λ i. All (λ (r : MessageRow). has_id i r ≡ false) ms)
                (same-true m.summary.id id e)
                (All-map (λ (r : MessageRow) n. same_comm r.summary.id m.summary.id ∙ n) ms new)),
        )
        (omega arith)
  | inr e ↦ rw e (keep-has_id id ms h)
]

is_at-has : (ks : List ℕ) (n : ℕ) → length ks ≤ 1 → is_at (first ks) n ≡ has n ks
is_at-has [] n h = refl
is_at-has (k ∷ []) n h = ground arith
is_at-has (k ∷ j ∷ ks) n h = absurd (omega arith)

any-keep :
    (p : MessageRow → Bool) (ms : List MessageRow) → any p ms ≡ not (is_empty (ids_of (keep p ms)))
any-keep p [] = refl
any-keep p (m ∷ ms) = elim (Bool-cases (p m)) [ inl e ↦ rw e refl | inr e ↦ rw e (any-keep p ms) ]

module _ (w : World) (id : Text) where
  abbrev pub Deleted : Db → Unit {0} → Db → Type 0
  Deleted d u d' = (any (has_id id) d.messages ≡ true) × (d' ≡ purge (has_id id) d)

  -- Why nothing was deleted: no message has the identifier, or the database failed.
  abbrev pub Missing : Db → StorageError → Type 0
  Missing d e =
      ((e ≡ not_found id) × (any (has_id id) d.messages ≡ false))
      ⊎ ((x : SqlxError) × (e ≡ database x))

  index_agrees :
      (d : Db)
      → WellFormed d
      → without (λ i. is_at (seq_of id d) i.rowid) d.index
        ≡ without (λ i. has i.rowid (gone (has_id id) d)) d.index
  index_agrees d wf = keep-All _ _ d.index (each d.index)
    where
      each :
          (index : List IndexRow)
          → All
              (λ (i : IndexRow).
                not (is_at (seq_of id d) i.rowid) ≡ not (has i.rowid (gone (has_id id) d)))
              index
      each [] = tt
      each (i ∷ index) = (
        ap not (
            is_at-has (gone (has_id id) d) i.rowid (
              omega (
                arith,
                length-seqs (keep (has_id id) d.messages),
                keep-has_id id d.messages wf.ids,
              ))),
        each index,
      )

  delete_in-Holds :
      (c : Conn)
      → WellFormed c.db
      → Holds (λ u c'. Deleted c.db u c'.db) (λ e c'. Missing c.db e) (delete_in w id c)
  unfolding delete_in ◌>>◌
  delete_in-Holds c wf =
      let ids = ids_of (keep (has_id id) c.db.messages) in
      let decided = any-keep (has_id id) c.db.messages in
      pass-Holds w (λ d. tt) (λ d. remove_index (λ i. is_at (seq_of id d) i.rowid) d)
        (λ u c'. Deleted c.db u c'.db) (λ e c'. Missing c.db e) _ c (λ error. inr (error, refl))
        (pass-Holds w (λ d. ids_of (keep (has_id id) d.messages)) (remove_messages (has_id id))
          (λ u c'. Deleted c.db u c'.db) (λ e c'. Missing c.db e)
          (λ ids. if is_empty ids then raise (not_found id) else pure tt) _
          (λ error. inr (error, refl))
          (elim (Bool-cases (is_empty ids)) [
            | inl e ↦ rw e (inl (refl, decided ∙ ap not e))
            | inr e ↦ rw e (
              decided ∙ ap not e,
              (two_deletes (λ i. is_at (seq_of id c.db) i.rowid) (has_id id) c.db
                  (index_agrees c.db wf)).result,
            )
          ]))

  -- Whether a message has the identifier decides the answer, and the message goes whole.
  pub delete-EndsWith :
      (c : Conn) → WellFormed c.db → EndsWith w Deleted (Missing c.db) c.db (delete w id c)
  unfolding delete
  delete-EndsWith c wf =
      transaction-EndsWith w Deleted (Missing c.db) (delete_in w id) (λ error. inr (error, refl)) c
        (delete_in-Holds (record { db = c.db; moment = suc c.moment }) wf)
