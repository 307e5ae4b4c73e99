-- ===== src/Server/Retention/Accounts.antt =====
-- A sweep announces exactly the messages that are gone.
use mathlib.Core.List.{Perm, perm_middle, append_assoc, map-append}
use mathlib.Core.List.Perm
use mathlib.Core.Path.{subst}
use rustmail.Prelude.Text.{Text}
use rustmail.Prelude.{
  ℕ, zero, suc, ◌≡◌, sym, ap, ◌∙◌, Bool, ◌&&◌, ◌==◌, List, [], ◌∷◌, ◌++◌, map, keep, without, take,
  drop, take-drop, Bool-cases, inl, inr, ℤ, pos, negsuc,
}
use rustmail.Storage.Schema.{MessageRow, Db}
use rustmail.Storage.Exec.{Result, ok, err, World, Conn}
use rustmail.Storage.Exec.Holds.{Ends}
use rustmail.Storage.Delete.{ids_of, is_older, delete_older_than, trim_to_max}
use rustmail.Storage.Delete.Leaves.{
  Leaves, oldest, newest, delete_older_than-Leaves, trim_to_max-Leaves,
}
use rustmail.Storage.WellFormed.{WellFormed}
use rustmail.Api.Changes.{WsEvent, message_delete}
use rustmail.Server.Retention.{Sweep, swept, is_zero, purge_old, trim, run_retention_tick}

-- The messages in a table, as the deletions that would announce them.
abbrev pub deletions : List MessageRow → List WsEvent
deletions ms = map message_delete (ids_of ms)

-- What was there is what is announced as deleted and what is left.
pub record Accounts (d : Db) (s : Sweep) : Type 0 where
  pub well_formed : WellFormed s.conn.db
  pub accounted : Perm (deletions d.messages) (s.events ++ deletions s.conn.db.messages)

Accounts-nothing : (c : Conn) → WellFormed c.db → Accounts c.db (record { events = []; conn = c })
Accounts-nothing c wf = record { well_formed = wf; accounted = Perm.refl _ }

swept-Accounts :
    (goes stays : Db → List MessageRow) (d : Db) (r : Result (List Text) × Conn)
    → WellFormed d
    → Perm (deletions d.messages) (deletions (goes d) ++ deletions (stays d))
    → Ends (λ d ids d'. Leaves (goes d) (stays d) d ids d') d r
    → Accounts d (swept r)
swept-Accounts goes stays d (ok ids, c) wf p h = record {
  well_formed = h.well_formed;
  accounted = rw (h.answer, h.messages) p;
}
swept-Accounts goes stays d (err e, c) wf p h = record {
  well_formed = subst WellFormed (sym h) wf;
  accounted = rw h (Perm.refl _);
}

keep-Perm :
    (p : MessageRow → Bool) (ms : List MessageRow)
    → Perm (deletions ms) (deletions (keep p ms) ++ deletions (without p ms))
keep-Perm p [] = Perm.refl _
keep-Perm p (m ∷ ms) = elim (Bool-cases (p m)) [
  | inl e ↦ rw e (Perm.cons (message_delete m.summary.id) (keep-Perm p ms))
  | inr e ↦ rw e (
      Perm.trans (Perm.cons (message_delete m.summary.id) (keep-Perm p ms))
        (Perm.symm (perm_middle (deletions (keep p ms)) (deletions (without p ms)))))
]

take-Perm :
    (n : ℕ) (ms : List MessageRow)
    → Perm (deletions ms) (deletions (take n ms) ++ deletions (drop n ms))
take-Perm n ms = subst (Perm (deletions ms)) same_list (Perm.refl _)
  where
    same_list : deletions ms ≡ deletions (take n ms) ++ deletions (drop n ms)
    same_list =
        ap deletions (sym (take-drop n ms))
        ∙ ap (map message_delete)
            (map-append (λ (m : MessageRow). m.summary.id) (take n ms) (drop n ms))
        ∙ map-append message_delete (ids_of (take n ms)) (ids_of (drop n ms))

and_then-Accounts :
    (d : Db) (s : Sweep) (f : Conn → Sweep)
    → Accounts d s
    → ((c : Conn) → WellFormed c.db → Accounts c.db (f c))
    → Accounts d (record { events = s.events ++ (f s.conn).events; conn = (f s.conn).conn })
and_then-Accounts d s f h go =
    let later = go s.conn h.well_formed in
    record {
      well_formed = later.well_formed;
      accounted =
          rw (append_assoc s.events (f s.conn).events _)
            (Perm.trans h.accounted (keep_prefix s.events later.accounted));
    }
  where
    keep_prefix :
        (es : List WsEvent) {xs ys : List WsEvent} → Perm xs ys → Perm (es ++ xs) (es ++ ys)
    keep_prefix [] p = p
    keep_prefix (e ∷ es) p = Perm.cons e (keep_prefix es p)

module _ (w : World) (before : Text → Text → Bool) (cutoff : ℕ → Text) where
  purge_old-Accounts :
      (hours : ℕ) (c : Conn) → WellFormed c.db → Accounts c.db (purge_old w before cutoff hours c)
  unfolding purge_old
  purge_old-Accounts zero c wf = Accounts-nothing c wf
  purge_old-Accounts (suc hours) c wf =
      swept-Accounts (λ d. keep (is_older w before (cutoff (suc hours))) d.messages)
        (λ d. without (is_older w before (cutoff (suc hours))) d.messages) c.db
        (delete_older_than w before (cutoff (suc hours)) c) wf
        (keep-Perm (is_older w before (cutoff (suc hours))) c.db.messages)
        (delete_older_than-Leaves w before (cutoff (suc hours)) c wf)

  trim-Accounts :
      (most : ℤ) (c : Conn) → WellFormed c.db → Accounts c.db (trim w before cutoff most c)
  unfolding trim
  trim-Accounts (pos zero) c wf = Accounts-nothing c wf
  trim-Accounts (negsuc n) c wf = Accounts-nothing c wf
  trim-Accounts (pos (suc most)) c wf =
      swept-Accounts (oldest (pos (suc most))) (newest (pos (suc most))) c.db
        (trim_to_max w (pos (suc most)) c) wf (take-Perm _ c.db.messages)
        (trim_to_max-Leaves w (pos (suc most)) c wf)

  -- A retention sweep of well-formed tables, whether its statements fail or not, broadcasts the
  -- deletion of exactly the messages that it removed, each once, and leaves the tables well formed:
  -- the messages that were there are those announced as deleted and those that are left.
  pub run_retention_tick-Accounts :
      (retention_hours : ℕ) (max_messages : ℤ) (c : Conn)
      → WellFormed c.db
      → Accounts c.db (run_retention_tick w before cutoff retention_hours max_messages c)
  unfolding run_retention_tick
  run_retention_tick-Accounts hours most c wf = elim (Bool-cases (hours == 0 && is_zero most)) [
    | inl off ↦ rw off (Accounts-nothing c wf)
    | inr on ↦ rw on (
        and_then-Accounts c.db (purge_old w before cutoff hours c) (trim w before cutoff most)
          (purge_old-Accounts hours c wf) (trim-Accounts most))
  ]
