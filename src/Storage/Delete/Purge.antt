-- ===== src/Storage/Delete/Purge.antt =====
-- Messages deleted with everything that belongs to them: the tables stay well formed, and every
-- other message keeps what it was stored with.
use mathlib.Core.Path.{subst}
use rustmail.Prelude.Text.{same}
use rustmail.Prelude.{
  ℕ, ◌≡◌, refl, sym, ap, ◌∙◌, Bool, true, false, not, List, [], ◌∷◌, map, All, All-map, All-keep,
  All-kept, Ascending, keep, without, has, has-keep, has-filter, keep-All, keep-keep,
  keep-Ascending, map-keep, Bool-cases, inl, inr, ◌==◌, ==_iff,
}
use rustmail.Storage.Schema.{MessageRow, ContentRow, AttachmentRow, IndexRow, TagRow, Db, seqs}
use rustmail.Storage.Insert.Contents.{message_at, stored_messages}
use rustmail.Storage.Delete.{remove_messages}
use rustmail.Storage.WellFormed.{
  WellFormed, DistinctIds, IsListed, Entry, index_entry, message_entry,
}

abbrev pub gone : (MessageRow → Bool) → Db → List ℕ
gone p d = seqs (keep p d.messages)

abbrev pub purge : (MessageRow → Bool) → Db → Db
purge p d = record (remove_messages p d) { index = without (λ i. has i.rowid (gone p d)) d.index }

abbrev stays : (MessageRow → Bool) → Db → ℕ → Bool
stays p d n = not (has n (gone p d))

keep-DistinctIds :
    (p : MessageRow → Bool) (ms : List MessageRow) → DistinctIds ms → DistinctIds (keep p ms)
keep-DistinctIds p [] h = tt
keep-DistinctIds p (m ∷ ms) (new, h) = elim (Bool-cases (p m)) [
  | inl e ↦ rw e (
    All-keep (λ (r : MessageRow). same m.summary.id r.summary.id ≡ false) p ms new,
    keep-DistinctIds p ms h,
  )
  | inr e ↦ rw e (keep-DistinctIds p ms h)
]

module _ (p : MessageRow → Bool) (d : Db) (wf : WellFormed d) where
  stays-messages : keep (λ m. stays p d m.seq) d.messages ≡ without p d.messages
  stays-messages =
      keep-All (λ m. stays p d m.seq) (λ m. not (p m)) d.messages
        (All-map (λ m e. ap not e) d.messages
          (has-keep (λ (m : MessageRow). m.seq) p d.messages wf.ascending))

  -- The keys of the messages that stay are those that are not gone.
  stays-seqs : keep (stays p d) (seqs d.messages) ≡ seqs (without p d.messages)
  stays-seqs =
      sym (map-keep (λ (m : MessageRow). m.seq) (stays p d) d.messages) ∙ ap seqs stays-messages

  purge-keys :
      {A : Type 0} (key : A → ℕ) (xs : List A)
      → map key xs ≡ seqs d.messages
      → map key (keep (λ x. stays p d (key x)) xs) ≡ seqs (without p d.messages)
  purge-keys key xs e = map-keep key (stays p d) xs ∙ ap (keep (stays p d)) e ∙ stays-seqs

  purge-entries :
      map index_entry (keep (λ i. stays p d i.rowid) d.index)
      ≡ map message_entry (without p d.messages)
  purge-entries =
      map-keep index_entry (λ e. stays p d e.seq) d.index
      ∙ ap (keep (λ (e : Entry). stays p d e.seq)) wf.entries
      ∙ sym (map-keep message_entry (λ e. stays p d e.seq) d.messages)
      ∙ ap (map message_entry) stays-messages

  stays-IsListed :
      (n : ℕ) → stays p d n ≡ true → IsListed d.messages n → IsListed (without p d.messages) n
  stays-IsListed n s h =
      subst (λ ks. has n ks ≡ true) stays-seqs (has-filter n (stays p d) (seqs d.messages) h s)

  pub purge-WellFormed : WellFormed (purge p d)
  purge-WellFormed = record {
    ascending =
        subst Ascending stays-seqs (keep-Ascending (stays p d) (seqs d.messages) wf.ascending);
    ids = keep-DistinctIds (λ m. not (p m)) d.messages wf.ids;
    contents = purge-keys (λ c. c.seq) d.contents wf.contents;
    index = purge-keys (λ i. i.rowid) d.index wf.index;
    entries = purge-entries;
    attachments =
        All-kept (λ (a : AttachmentRow). IsListed d.messages a.message_seq)
          (λ (a : AttachmentRow). IsListed (without p d.messages) a.message_seq) _ d.attachments
          (λ a. stays-IsListed a.message_seq) wf.attachments;
    tags =
        All-kept (λ (t : TagRow). IsListed d.messages t.message_seq)
          (λ (t : TagRow). IsListed (without p d.messages) t.message_seq) _ d.tags
          (λ t. stays-IsListed t.message_seq) wf.tags;
  }

same_key :
    {A : Type 0} (key : A → ℕ) (n : ℕ) (q : ℕ → Bool) (xs : List A)
    → q n ≡ true
    → keep (λ x. key x == n) (keep (λ x. q (key x)) xs) ≡ keep (λ x. key x == n) xs
same_key key n q xs h =
    keep-keep (λ x. key x == n) (λ x. q (key x)) xs
      (λ x e. subst (λ k. q k ≡ true) (sym ((==_iff (key x) n).0 e)) h)

message_at-purge :
    (p : MessageRow → Bool) (d : Db) (m : MessageRow)
    → stays p d m.seq ≡ true
    → message_at (purge p d) m ≡ message_at d m
message_at-purge p d m h =
    rw
      (
        same_key (λ (i : IndexRow). i.rowid) m.seq (stays p d) d.index h,
        same_key (λ (c : ContentRow). c.seq) m.seq (stays p d) d.contents h,
        same_key (λ (a : AttachmentRow). a.message_seq) m.seq (stays p d) d.attachments h,
      )
      refl

map-purge :
    (p : MessageRow → Bool) (d : Db) (ms : List MessageRow)
    → All (λ (m : MessageRow). stays p d m.seq ≡ true) ms
    → map (message_at (purge p d)) ms ≡ map (message_at d) ms
map-purge p d [] h = refl
map-purge p d (m ∷ ms) (s, h) = rw (message_at-purge p d m s, map-purge p d ms h) refl

pub stored_messages-purge :
    (p : MessageRow → Bool) (d : Db)
    → WellFormed d
    → stored_messages (purge p d) ≡ map (message_at d) (without p d.messages)
stored_messages-purge p d wf = map-purge p d (without p d.messages) (
    All-kept (λ (m : MessageRow). has m.seq (gone p d) ≡ p m) _ (λ m. not (p m)) d.messages
      (λ m s e. rw e s) (has-keep (λ (m : MessageRow). m.seq) p d.messages wf.ascending))
