-- ===== src/Server/Transactions.antt =====
-- `transactions` of crates/rustmail-server/src/main.rs, and `Delivery` of
-- crates/rustmail-smtp/src/message.rs.
use mathlib.Core.List.{flatten, append_assoc, append-nil}
use rustmail.Prelude.{
  ℕ, ◌+◌, ◌*◌, ◌≤◌, ◌≡◌, refl, sym, ap, ◌∙◌, ◌⊎◌, inl, inr, false, List, [], ◌∷◌, ◌++◌, length,
  is_empty, All, All-append, leb, Bool-cases, arith, if◌then◌else◌,
}
use rustmail.Smtp.Session.{ReceivedMessage}

-- `ack` names the channel that the verdict travels back on.
pub record Delivery : Type 0 where
  pub message : ReceivedMessage
  pub ack : ℕ

abbrev pub size : Delivery → ℕ
size d = length d.message.raw

abbrev pub max_batch_bytes : ℕ
max_batch_bytes = 4 * 1024 * 1024

-- The groups so far: the last one, empty if there is none, with its bytes, and those before it.
pub record Groups : Type 0 where
  pub closed : List (List Delivery)
  pub last : List Delivery
  pub bytes : ℕ

abbrev close : List (List Delivery) → List Delivery → List (List Delivery)
close closed [] = closed
close closed (x ∷ last) = closed ++ (x ∷ last) ∷ []

abbrev pub all_groups : Groups → List (List Delivery)
all_groups g = close g.closed g.last

-- The match on `groups.last_mut()`: the last group takes the message if it has room.
unfoldable pub place_at : List (List Delivery) → List Delivery → ℕ → Delivery → Groups
place_at closed [] bytes d = record { closed = closed; last = d ∷ []; bytes = size d }
place_at closed (x ∷ last) bytes d =
    if leb (bytes + size d) max_batch_bytes
    then record { closed = closed; last = (x ∷ last) ++ d ∷ []; bytes = bytes + size d }
    else record { closed = closed ++ (x ∷ last) ∷ []; last = d ∷ []; bytes = size d }

unfoldable pub place : Groups → Delivery → Groups
unfolding place_at
place g d = place_at g.closed g.last g.bytes d

unfoldable pub place_all : Groups → List Delivery → Groups
unfolding place
place_all g [] = g
place_all g (d ∷ ds) = place_all (place g d) ds

unfoldable pub transactions : List Delivery → List (List Delivery)
unfolding place_all
transactions ds = all_groups (place_all (record { closed = []; last = []; bytes = 0 }) ds)

abbrev pub total : List Delivery → ℕ
total [] = 0
total (d ∷ ds) = size d + total ds

total-snoc : (ds : List Delivery) (d : Delivery) → total (ds ++ d ∷ []) ≡ total ds + size d
total-snoc [] d = omega arith
total-snoc (x ∷ ds) d = omega (arith, total-snoc ds d)

flatten-snoc :
    (gs : List (List Delivery)) (g : List Delivery) → flatten (gs ++ g ∷ []) ≡ flatten gs ++ g
unfolding flatten
flatten-snoc [] g = append-nil g
flatten-snoc (x ∷ gs) g = ap (◌++◌ x) (flatten-snoc gs g) ∙ sym (append_assoc x (flatten gs) g)

-- A transaction: not empty, and one message or no more bytes than the cap.
abbrev pub Bounded : List Delivery → Type 0
Bounded g = (is_empty g ≡ false) × ((length g ≡ 1) ⊎ (total g ≤ max_batch_bytes))

record Inv (g : Groups) : Type 0 where
  before : All Bounded g.closed
  counted : g.bytes ≡ total g.last
  current : (g.last ≡ []) ⊎ Bounded g.last

close-Bounded :
    (closed : List (List Delivery)) (last : List Delivery)
    → All Bounded closed
    → (last ≡ []) ⊎ Bounded last
    → All Bounded (close closed last)
close-Bounded closed [] h k = h
close-Bounded closed (x ∷ last) h (inl e) = cc
close-Bounded closed (x ∷ last) h (inr b) = All-append Bounded closed _ h (b, tt)

single-Bounded : (d : Delivery) → Bounded (d ∷ [])
single-Bounded d = (refl, inl refl)

place_at-Inv :
    (closed : List (List Delivery)) (last : List Delivery) (bytes : ℕ) (d : Delivery)
    → All Bounded closed
    → bytes ≡ total last
    → (last ≡ []) ⊎ Bounded last
    → Inv (place_at closed last bytes d)
unfolding place_at
place_at-Inv closed [] bytes d h e k = record {
  before = h;
  counted = omega arith;
  current = inr (single-Bounded d);
}
place_at-Inv closed (x ∷ last) bytes d h e k =
    elim (Bool-cases (leb (bytes + size d) max_batch_bytes)) [
      | inl fits ↦ rw fits (record {
        before = h;
        counted = omega (arith, total-snoc (x ∷ last) d);
        current = inr (refl, inr (ground (arith, total-snoc (x ∷ last) d)));
      })
      | inr over ↦ rw over (record {
        before = close-Bounded closed (x ∷ last) h k;
        counted = omega arith;
        current = inr (single-Bounded d);
      })
    ]

place_all-Inv : (g : Groups) (ds : List Delivery) → Inv g → Inv (place_all g ds)
unfolding place_all
place_all-Inv g [] v = v
place_all-Inv g (d ∷ ds) v =
    place_all-Inv (place g d) ds
      (unfold place in place_at-Inv g.closed g.last g.bytes d v.before v.counted v.current)

flatten-close :
    (closed : List (List Delivery)) (last : List Delivery)
    → flatten (close closed last) ≡ flatten closed ++ last
flatten-close closed [] = sym (append-nil (flatten closed))
flatten-close closed (x ∷ last) = flatten-snoc closed (x ∷ last)

flatten-place_at :
    (closed : List (List Delivery)) (last : List Delivery) (bytes : ℕ) (d : Delivery)
    → flatten (all_groups (place_at closed last bytes d)) ≡ (flatten closed ++ last) ++ d ∷ []
unfolding place_at
flatten-place_at closed [] bytes d = rw (flatten-snoc, append-nil)
flatten-place_at closed (x ∷ last) bytes d =
    elim (Bool-cases (leb (bytes + size d) max_batch_bytes)) [
      | inl fits ↦ rw fits (simp (flatten-snoc, append_assoc))
      | inr over ↦ rw over (
          flatten-snoc (closed ++ (x ∷ last) ∷ []) (d ∷ [])
          ∙ ap (λ l. l ++ d ∷ []) (flatten-snoc closed (x ∷ last)))
    ]

flatten-place_all :
    (g : Groups) (ds : List Delivery)
    → flatten (all_groups (place_all g ds)) ≡ flatten (all_groups g) ++ ds
unfolding place_all
flatten-place_all g [] = sym (append-nil _)
flatten-place_all g (d ∷ ds) =
    flatten-place_all (place g d) ds
    ∙ (ap (λ l. l ++ ds)
          (unfold place in
            flatten-place_at g.closed g.last g.bytes d
            ∙ ap (λ l. l ++ d ∷ []) (sym (flatten-close g.closed g.last)))
        ∙ append_assoc (flatten (all_groups g)) (d ∷ []) ds)

-- The groups hold exactly the messages of the batch, each once, in their order of arrival.
pub flatten-transactions : (ds : List Delivery) → flatten (transactions ds) ≡ ds
unfolding transactions flatten
flatten-transactions ds = flatten-place_all _ ds

-- Each group is one transaction: it holds a message, and no more than 4 MiB unless it is a message by
-- itself.
pub transactions-Bounded : (ds : List Delivery) → All Bounded (transactions ds)
unfolding transactions
transactions-Bounded ds =
    let v =
      place_all-Inv (record { closed = []; last = []; bytes = 0 }) ds
        (record { before = tt; counted = refl; current = inl refl }) in
    close-Bounded _ _ v.before v.current
