-- ===== src/Storage/Update/Keeps.antt =====
-- An update touches only the message it names, and leaves the tables well formed.
use rustmail.Prelude.Text.{Text, same}
use rustmail.Prelude.{
  ℕ, ◌≡◌, refl, sym, ◌∙◌, Bool, true, false, not, ◌&&◌, ◌==◌, List, [], ◌∷◌, map, any, All,
  All-append, All-key, All-keep, Ascending, has, keep, keep-none, Bool-cases, inl, inr,
}
use mathlib.Core.Path.{subst}
use rustmail.Storage.Schema.{MessageRow, AttachmentRow, TagRow, Db, seqs}
use rustmail.Storage.Update.{
  Changes, coalesce, set_where, add_tag, add_tags, retag, retag_all, updated,
}
use rustmail.Storage.WellFormed.{WellFormed, DistinctIds, IsListed, message_entry, listed_self}

module _ (p : MessageRow → Bool) (u : Changes) where
  set_where-seq : (m : MessageRow) → (set_where p u m).seq ≡ m.seq
  set_where-seq m = elim (Bool-cases (p m)) [ inl e ↦ rw e refl | inr e ↦ rw e refl ]

  set_where-id : (m : MessageRow) → (set_where p u m).summary.id ≡ m.summary.id
  set_where-id m = elim (Bool-cases (p m)) [ inl e ↦ rw e refl | inr e ↦ rw e refl ]

  set_where-entry : (m : MessageRow) → message_entry (set_where p u m) ≡ message_entry m
  set_where-entry m = elim (Bool-cases (p m)) [ inl e ↦ rw e refl | inr e ↦ rw e refl ]

  entries-set :
      (ms : List MessageRow) → map message_entry (map (set_where p u) ms) ≡ map message_entry ms
  entries-set [] = refl
  entries-set (m ∷ ms) = rw (set_where-entry m, entries-set ms) refl

  seqs-set : (ms : List MessageRow) → seqs (map (set_where p u) ms) ≡ seqs ms
  seqs-set [] = refl
  seqs-set (m ∷ ms) = rw (set_where-seq m, seqs-set ms) refl

  other-set :
      (m : MessageRow) (ms : List MessageRow)
      → All (λ (r : MessageRow). same m.summary.id r.summary.id ≡ false) ms
      → All
          (λ (r : MessageRow). same (set_where p u m).summary.id r.summary.id ≡ false)
          (map (set_where p u) ms)
  other-set m [] h = tt
  other-set m (r ∷ ms) (n, h) = (rw (set_where-id m, set_where-id r) n, other-set m ms h)

  DistinctIds-set : (ms : List MessageRow) → DistinctIds ms → DistinctIds (map (set_where p u) ms)
  DistinctIds-set [] h = tt
  DistinctIds-set (m ∷ ms) (new, h) = (other-set m ms new, DistinctIds-set ms h)

  set-none :
      (ms : List MessageRow)
      → All (λ (m : MessageRow). p m ≡ false) ms
      → map (set_where p u) ms ≡ ms
  set-none [] h = refl
  set-none (m ∷ ms) (n, h) = rw (n, set-none ms h) refl

-- Every row belongs to a listed message.
abbrev AllListed : List MessageRow → List TagRow → Type 0
AllListed ms rows = All (λ (t : TagRow). IsListed ms t.message_seq) rows

module _ (ms : List MessageRow) where
  add_tag-AllListed :
      (n : ℕ) (tag : Text) (rows : List TagRow)
      → IsListed ms n
      → AllListed ms rows
      → AllListed ms (add_tag n tag rows)
  add_tag-AllListed n tag rows l h =
      elim (Bool-cases (any (λ (r : TagRow). same r.tag tag && r.message_seq == n) rows)) [
        | inl e ↦ rw e h
        | inr e ↦ rw e (All-append (λ (t : TagRow). IsListed ms t.message_seq) rows _ h (l, tt))
      ]

  add_tags-AllListed :
      (n : ℕ) (tags : List Text) (rows : List TagRow)
      → IsListed ms n
      → AllListed ms rows
      → AllListed ms (add_tags n tags rows)
  add_tags-AllListed n [] rows l h = h
  add_tags-AllListed n (tag ∷ tags) rows l h =
      add_tags-AllListed n tags (add_tag n tag rows) l (add_tag-AllListed n tag rows l h)

  module _ (json_each : Text → List Text) (u : Changes) where
    retag-AllListed :
        (new : Text) (m : MessageRow) (rows : List TagRow)
        → IsListed ms m.seq
        → AllListed ms rows
        → AllListed ms (retag json_each new m rows)
    unfolding retag
    retag-AllListed new m rows l h = elim (Bool-cases (same new m.summary.tags)) [
      | inl e ↦ rw e h
      | inr e ↦ rw e (
          add_tags-AllListed m.seq (json_each new) _ l (
            All-keep (λ (t : TagRow). IsListed ms t.message_seq)
              (λ (r : TagRow). not (r.message_seq == m.seq)) rows h))
    ]

    retag_all-AllListed :
        (rs : List MessageRow) (rows : List TagRow)
        → All (λ (r : MessageRow). IsListed ms r.seq) rs
        → AllListed ms rows
        → AllListed ms (retag_all json_each u rs rows)
    unfolding retag_all
    retag_all-AllListed [] rows l h = h
    retag_all-AllListed (r ∷ rs) rows (l, ls) h =
        retag_all-AllListed rs _ ls (retag-AllListed (coalesce u.tags r.summary.tags) r rows l h)

module _ (json_each : Text → List Text) (p : MessageRow → Bool) (u : Changes) (d : Db) where
  pub updated-WellFormed : WellFormed d → WellFormed (updated json_each p u d)
  unfolding updated
  updated-WellFormed wf =
      let keys = sym (seqs-set p u d.messages) in
      let listed =
        All-key (λ (m : MessageRow). m.seq) (λ k. has k (seqs d.messages) ≡ true) d.messages
          (listed_self (seqs d.messages) (seqs d.messages) (λ k e. e)) in
      record {
        ascending = subst Ascending keys wf.ascending;
        ids = DistinctIds-set p u d.messages wf.ids;
        contents = wf.contents ∙ keys;
        index = wf.index ∙ keys;
        entries = wf.entries ∙ sym (entries-set p u d.messages);
        attachments =
            subst (λ ks. All (λ (a : AttachmentRow). has a.message_seq ks ≡ true) d.attachments)
              keys wf.attachments;
        tags =
            subst
              (λ ks.
                All (λ (t : TagRow). has t.message_seq ks ≡ true)
                  (retag_all json_each u (keep p d.messages) d.tags))
              keys
              (retag_all-AllListed d.messages json_each u (keep p d.messages) d.tags
                (All-keep (λ (m : MessageRow). IsListed d.messages m.seq) p d.messages listed)
                wf.tags);
      }

  -- Where no message is named, nothing changes.
  pub updated-none : All (λ (m : MessageRow). p m ≡ false) d.messages → updated json_each p u d ≡ d
  unfolding updated retag_all
  updated-none h = rw (set-none p u d.messages h, keep-none p d.messages h) refl
