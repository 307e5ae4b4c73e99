-- ===== src/Storage/Delete/Effects.antt =====
-- What each deletion leaves behind: the tables without the messages it is about, or as they were.
use rustmail.Prelude.Text.{Text}
use rustmail.Prelude.{
  ℕ, suc, ◌≡◌, refl, ap, Bool, true, false, not, List, [], ◌∷◌, length, any, or_false, All, All-map,
  keep, without, has, keep-all, keep-none, Bool-cases, inl, inr, if◌then◌else◌,
}
use rustmail.Storage.Schema.{MessageRow, IndexRow, Db, seqs}
use rustmail.Storage.Exec.{World, Conn, pure, ◌>>◌, statement, transaction}
use rustmail.Storage.Exec.Holds.{
  Post, Effect, transaction-Effect, retry_on_lock-Effect, write-Effect, last-Post, pass-Post,
  pass-Holds,
}
use rustmail.Storage.Delete.{
  remove_messages, remove_index, ids_of, delete_where, is_older, delete_all_in, delete_all,
  delete_older_in, delete_older_than_once, delete_older_than,
}
use rustmail.Storage.Delete.Purge.{purge, gone}

-- Exactly the messages that pass `p` are gone, with what belonged to them, and their identifiers
-- are the answer.
pub record Purged (p : MessageRow → Bool) (d : Db) (ids : List Text) (d' : Db) : Type 0 where
  pub answer : ids ≡ ids_of (keep p d.messages)
  pub result : d' ≡ purge p d

every-true : {A : Type 0} (xs : List A) → All (λ x. true ≡ true) xs
every-true [] = tt
every-true (x ∷ xs) = (refl, every-true xs)

every-false : {A : Type 0} (xs : List A) → All (λ x. false ≡ false) xs
every-false [] = tt
every-false (x ∷ xs) = (refl, every-false xs)

length-ids_of : (ms : List MessageRow) → length (ids_of ms) ≡ length ms
length-ids_of [] = refl
length-ids_of (m ∷ ms) = ap suc (length-ids_of ms)

pub without-nothing :
    {A : Type 0} (key : A → ℕ) (ks : List ℕ) (xs : List A)
    → ks ≡ []
    → without (λ x. has (key x) ks) xs ≡ xs
without-nothing key ks xs e = rw e (keep-all (λ x. true) xs (every-true xs))

pub Purged-none :
    (p : MessageRow → Bool) (d : Db)
    → All (λ (m : MessageRow). p m ≡ false) d.messages
    → Purged p d [] d
Purged-none p d h =
    let none_kept = keep-none p d.messages h in
    let none_gone = ap seqs none_kept in
    record {
      answer = rw none_kept refl;
      result =
          rw
            (
              keep-all (λ m. not (p m)) d.messages (All-map (λ m e. ap not e) d.messages h),
              without-nothing (λ c. c.seq) (gone p d) d.contents none_gone,
              without-nothing (λ a. a.message_seq) (gone p d) d.attachments none_gone,
              without-nothing (λ i. i.rowid) (gone p d) d.index none_gone,
              without-nothing (λ t. t.message_seq) (gone p d) d.tags none_gone,
            )
            refl;
    }

pub any-All :
    (p : MessageRow → Bool) (ms : List MessageRow) → any p ms ≡ false → All (λ m. p m ≡ false) ms
any-All p [] h = tt
any-All p (m ∷ ms) h = let (here, later) = or_false (p m) _ h in (here, any-All p ms later)

-- The statement on the index and the one on the messages, where they take the same messages.
pub two_deletes :
    (q : IndexRow → Bool) (p : MessageRow → Bool) (d : Db)
    → without q d.index ≡ without (λ i. has i.rowid (gone p d)) d.index
    → Purged p d (ids_of (keep p d.messages)) (remove_messages p (remove_index q d))
two_deletes q p d e = record {
  answer = refl;
  result = ap (λ (t : List IndexRow). record (remove_messages p d) { index = t }) e;
}

module _ (w : World) where
  module _ (before : Text → Text → Bool) (cutoff : Text) where
    abbrev older : MessageRow → Bool
    older = is_older w before cutoff

    older_in-Post :
        (c : Conn)
        → Post (λ ids c'. Purged older c.db ids c'.db) (delete_older_in w before cutoff c)
    unfolding delete_older_in ◌>>◌
    older_in-Post c =
        pass-Post w (λ d. tt) (λ d. remove_index (λ i. has i.rowid (gone older d)) d)
          (λ ids c'. Purged older c.db ids c'.db) (λ u. statement w (delete_where older)) c
          (last-Post w (λ d. ids_of (keep older d.messages)) (remove_messages older)
            (λ ids c'. Purged older c.db ids c'.db) _
            (two_deletes (λ i. has i.rowid (gone older c.db)) older c.db refl))

    older_once-Effect :
        Effect (λ d ids d'. Purged older d ids d') (delete_older_than_once w before cutoff)
    unfolding delete_older_than_once
    older_once-Effect c =
        pass-Holds w (λ d. any older d.messages) (λ d. d) (λ ids c'. Purged older c.db ids c'.db)
          (λ e c'. c'.db ≡ c.db)
          (λ has_match.
            if has_match then transaction w (delete_older_in w before cutoff) else pure [])
          c (λ error. refl)
          (elim (Bool-cases (any older c.db.messages)) [
            | inl some_old ↦ rw some_old (
                transaction-Effect w (λ d ids d'. Purged older d ids d')
                  (delete_older_in w before cutoff) older_in-Post
                  (record { db = c.db; moment = suc c.moment }))
            | inr none_old ↦
                rw none_old (Purged-none older c.db (any-All older c.db.messages none_old))
          ])

    -- Exactly the messages older than the cutoff go, or nothing.
    pub delete_older_than-Effect :
        Effect (λ d ids d'. Purged older d ids d') (delete_older_than w before cutoff)
    unfolding delete_older_than
    delete_older_than-Effect =
        retry_on_lock-Effect w (λ d ids d'. Purged older d ids d')
          (delete_older_than_once w before cutoff) older_once-Effect

  abbrev emptied : Db
  emptied = record { messages = []; contents = []; attachments = []; index = []; tags = [] }

  delete_all_in-Post :
      (c : Conn) → Post (λ n c'. (n ≡ length c.db.messages) × (c'.db ≡ emptied)) (delete_all_in w c)
  unfolding delete_all_in ◌>>◌
  delete_all_in-Post c =
      let Q = λ (n : ℕ) (c' : Conn). (n ≡ length c.db.messages) × (c'.db ≡ emptied) in
      pass-Post w (λ d. tt) (λ d. record d { index = [] }) Q _ c
        (pass-Post w (λ d. tt) (λ d. record d { contents = [] }) Q _ _
          (pass-Post w (λ d. tt) (λ d. record d { attachments = [] }) Q _ _
            (pass-Post w (λ d. tt) (λ d. record d { tags = [] }) Q _ _
              (pass-Post w (λ d. ids_of (keep (λ m. true) d.messages)) (remove_messages (λ m. true))
                Q (λ ids. pure (length ids)) _
                (rw
                  (
                    keep-all (λ m. true) c.db.messages (every-true c.db.messages),
                    keep-none (λ m. false) c.db.messages (every-false c.db.messages),
                  )
                  (length-ids_of c.db.messages, refl))))))

  -- Every row of every table goes, or nothing, and the answer is the number of messages.
  pub delete_all-Effect : Effect (λ d n d'. (n ≡ length d.messages) × (d' ≡ emptied)) (delete_all w)
  unfolding delete_all
  delete_all-Effect =
      write-Effect w (λ d n d'. (n ≡ length d.messages) × (d' ≡ emptied)) (delete_all_in w)
        delete_all_in-Post
