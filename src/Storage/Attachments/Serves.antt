-- ===== src/Storage/Attachments/Serves.antt =====
-- A part that was stored is served with the contents that the parser gave it.
use mathlib.Core.Path.{subst}
use mathlib.Core.Option.{some-injective}
use rustmail.Prelude.Text.{Text, same-true}
use rustmail.Prelude.{
  ℕ, ◌+◌, ◌-◌, ◌^◌, ◌≡◌, ◌≢◌, ◌<◌, ◌≤◌, refl, ap, true, ◌==◌, Option, none, some, length, leb,
  leb→le, lt→ltb, Bool-cases, else_some, inl, inr, pos, arith,
}
use rustmail.Storage.Schema.{
  TransferEncoding, identity, quoted_printable, base64, Locator, MessageRow, ContentRow,
}
use rustmail.Storage.Exec.{ok}
use rustmail.Storage.Content.{Zstd, known, decompress}
use rustmail.Storage.Locator.{
  Decoders, decode, MessagePart, part_contents, get_range, body_range, decodes_to_contents, locate,
  PartType, text, html, multipart, binary, inline_binary, message, is_some_same, at_range, in_range,
  ordered, span,
}
use rustmail.Storage.Insert.{attachment_row}
use rustmail.Storage.Insert.Contents.{from_code-code}
use rustmail.Storage.Attachments.{
  Attachment, JoinedRow, joined_row, slice, into_attachment, stored_part, stored_as,
}

-- The compression library gives back what it compressed, and its frames declare their size.
pub record Lossless (z : Zstd) : Type 0 where
  pub declares_size :
      (raw frame : Text) → z.compress raw ≡ some frame → z.frame_size frame ≡ known (length raw)
  pub gives_back :
      (raw frame : Text)
      → z.compress raw ≡ some frame
      → z.bulk_decompress frame (length raw) ≡ some raw

decompress-compress :
    (z : Zstd) (l : Lossless z) (raw frame id : Text)
    → z.compress raw ≡ some frame
    → decompress z frame (pos (length raw)) id ≡ ok raw
unfolding decompress
decompress-compress z l raw frame id e =
    rw
      (
        l.declares_size raw frame e,
        same_number (length raw),
        l.gives_back raw frame e,
        same_number (length raw),
      )
      refl
  where
    same_number : (n : ℕ) → (n == n) ≡ true
    same_number n = ground arith

-- What a locator was checked to give.
record Located (ds : Decoders) (raw : Text) (part : MessagePart) (l : Locator) : Type 0 where
  body : Text
  in_source : slice raw (some l.offset) (some l.len) ≡ some body
  serves : decode ds l.encoding body ≡ some (part_contents part)

checked-decodes :
    (ds : Decoders) (e : TransferEncoding) (body contents : Text)
    → e ≢ base64
    → decodes_to_contents ds e body contents ≡ true
    → decode ds e body ≡ some contents
unfolding decodes_to_contents decode
checked-decodes ds identity body contents ne h = ap some (same-true body contents h)
checked-decodes ds quoted_printable body contents ne h = go (ds.quoted_printable_decode body) h
  where
    go : (o : Option Text) → is_some_same o contents ≡ true → o ≡ some contents
    go none h = cc
    go (some t) h = ap some (same-true t contents h)
checked-decodes ds base64 body contents ne h = absurd (ne refl)

ordered-le : (p q : ℕ × ℕ) → ordered p ≡ some q → q.0 ≤ q.1
ordered-le (a, b) q e = elim (Bool-cases (leb a b)) [
  | inl le ↦
      let e' = rw le at e in
      let same_pair = some-injective (a, b) q e' in
      subst (λ (q : ℕ × ℕ). q.0 ≤ q.1) same_pair (leb→le a b le)
  | inr gt ↦ let e' = rw gt at e in cc
]

span-le :
    (b : PartType) (e : TransferEncoding) (outer q : ℕ × ℕ) → span b e outer ≡ some q → q.0 ≤ q.1
span-le (message none) identity outer q h = cc
span-le (message (some root)) identity outer q h = ordered-le root q h
span-le (message none) quoted_printable outer q h = ordered-le outer q h
span-le (message none) base64 outer q h = ordered-le outer q h
span-le (message (some root)) quoted_printable outer q h = ordered-le outer q h
span-le (message (some root)) base64 outer q h = ordered-le outer q h
span-le text e outer q h = ordered-le outer q h
span-le html e outer q h = ordered-le outer q h
span-le multipart e outer q h = ordered-le outer q h
span-le binary e outer q h = ordered-le outer q h
span-le inline_binary e outer q h = ordered-le outer q h

slice-get_range :
    (raw body : Text) (start stop : ℕ)
    → length raw < 2 ^ 64
    → start ≤ stop
    → get_range raw start stop ≡ some body
    → slice raw (some start) (some (stop - start)) ≡ some body
unfolding get_range
slice-get_range raw body start stop small le e = elim (Bool-cases (leb stop (length raw))) [
  | inl inside ↦
      let e' = rw inside at e in
      rw
        (
          sum start stop le,
          lt→ltb stop (2 ^ 64) (omega (arith, small, leb→le stop (length raw) inside)),
          inside,
        )
        e'
  | inr outside ↦ let e' = rw outside at e in cc
]
  where
    sum : (a b : ℕ) → a ≤ b → a + (b - a) ≡ b
    sum a b le = omega arith

module _ (ds : Decoders) (raw : Text) (part : MessagePart) (small : length raw < 2 ^ 64)
    (ne : part.encoding ≢ base64) where
  at_range-Located :
      (start stop : ℕ) (o : Option Text) (l : Locator)
      → start ≤ stop
      → get_range raw start stop ≡ o
      → at_range ds part (start, stop) o ≡ some l
      → Located ds raw part l
  at_range-Located start stop none l le e h = cc
  at_range-Located start stop (some body) l le e h =
      elim (Bool-cases (decodes_to_contents ds part.encoding body (part_contents part))) [
        | inl yes_decodes ↦
            let h' = rw yes_decodes at h in
            subst (Located ds raw part) (some-injective _ l h') record {
              body = body;
              in_source = slice-get_range raw body start stop small le e;
              serves = checked-decodes ds part.encoding body (part_contents part) ne yes_decodes;
            }
        | inr no_decodes ↦ let h' = rw no_decodes at h in cc
      ]

  in_range-Located :
      (r : Option (ℕ × ℕ)) (l : Locator)
      → body_range part ≡ r
      → in_range ds raw part r ≡ some l
      → Located ds raw part l
  unfolding body_range
  in_range-Located none l e h = cc
  in_range-Located (some (start, stop)) l e h =
      at_range-Located start stop (get_range raw start stop) l
        (span-le part.body part.encoding (part.offset_body, part.offset_end) (start, stop) e) refl h

  locate-Located : (l : Locator) → locate ds raw part ≡ some l → Located ds raw part l
  unfolding locate
  locate-Located l h = in_range-Located (body_range part) l refl (else_some _ _ l h)

-- The attachment that a part is served as.
abbrev pub served : Text → MessageRow → MessagePart → Attachment
served id m part = record {
  id = id;
  message_id = m.summary.id;
  filename = part.attachment_name;
  content_type = part.content_type;
  content_id = part.content_id;
  size = some (pos (length (part_contents part)));
  content = part_contents part;
}

module _ (z : Zstd) (ds : Decoders) (lossless : Lossless z) where
  -- The row of a part that is stored in either way.
  abbrev row_of : Text → ℕ → MessagePart → Option Locator → MessageRow → ContentRow → JoinedRow
  row_of id n part o m c =
      joined_row
        (attachment_row id n record {
          filename = part.attachment_name;
          content_type = part.content_type;
          content_id = part.content_id;
          size = length (part_contents part);
          storage = stored_as ds (part_contents part) o;
        })
        m c

  by_locator :
      (raw : Text) (part : MessagePart) (id : Text) (n : ℕ) (m : MessageRow) (c : ContentRow)
      (o : Option Locator)
      → ((l : Locator) → o ≡ some l → Located ds raw part l)
      → z.compress raw ≡ some c.raw
      → m.summary.size ≡ pos (length raw)
      → into_attachment z ds (row_of id n part o m c) ≡ ok (served id m part)
  unfolding into_attachment
  by_locator raw part id n m c none h e e_size = refl
  by_locator raw part id n m c (some l) h e e_size =
      let at = h l refl in
      rw
        (
          e_size,
          decompress-compress z lossless raw c.raw m.summary.id e,
          from_code-code l.encoding,
          at.in_source,
          at.serves,
          same_number (length (part_contents part)),
        )
        refl
    where
      same_number : (n : ℕ) → (n == n) ≡ true
      same_number n = ground arith

  -- What was stored of a part is served whole.
  pub into_attachment-stored_part :
      (raw : Text) (part : MessagePart) (id : Text) (n : ℕ) (m : MessageRow) (c : ContentRow)
      → length raw < 2 ^ 64
      → part.encoding ≢ base64
      → z.compress raw ≡ some c.raw
      → m.summary.size ≡ pos (length raw)
      → into_attachment z ds (joined_row (attachment_row id n (stored_part ds raw part)) m c)
        ≡ ok (served id m part)
  unfolding stored_part
  into_attachment-stored_part raw part id n m c small ne e e_size =
      by_locator raw part id n m c (locate ds raw part) (locate-Located ds raw part small ne) e
        e_size
