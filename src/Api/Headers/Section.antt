-- ===== src/Api/Headers/Section.antt =====
-- A source is read far enough to hold its whole header section.
use rustmail.Prelude.Text.{Text, starts_with}
use rustmail.Prelude.{
  ℕ, suc, ◌≡◌, ◌≤◌, ◌<◌, refl, sym, ap, ◌∙◌, Bool, true, false, ◌||◌, some, [], ◌∷◌, ◌++◌, length,
  length-take, take, drop, take-drop, take-all, first, ltb, ltb→lt, min, Bool-cases, inl, inr, ℤ,
  pos, arith, if◌then◌else◌,
}
use rustmail.Storage.Error.{StorageError, database, SqlxError}
use rustmail.Storage.Exec.{ok, World, Conn}
use rustmail.Storage.Exec.Holds.{Holds, bind-Holds, statement-Holds}
use rustmail.Storage.Delete.{read}
use rustmail.Storage.Locator.{Decoders}
use rustmail.Storage.Content.{Zstd, decompress, decompress_prefix}
use rustmail.Storage.Attachments.{
  frames_of, get_raw, get_raw_prefix, decompressed, decompressed_prefix,
}
use rustmail.Api.Headers.{
  header_section_prefix_bytes, crlf_twice, lf_twice, has_window, ends_header_section,
  unless_complete, read_header_section,
}

-- The source up to its first empty line, which may end as on the wire or in a newline alone.
unfoldable pub header_section : Text → Text
unfolding starts_with
header_section [] = []
header_section (b ∷ raw) =
    let rest = header_section raw in
    if starts_with crlf_twice (b ∷ raw)
    then crlf_twice
    else if starts_with lf_twice (b ∷ raw)
    then lf_twice
    else b ∷ rest

-- A prefix that holds an empty line says how it starts.
starts-crlf :
    (p q : Text)
    → ends_header_section p ≡ true
    → starts_with crlf_twice (p ++ q) ≡ starts_with crlf_twice p
unfolding ends_header_section
starts-crlf [] q h = absurd (ground arith)
starts-crlf (a ∷ []) q h = absurd (ground arith)
starts-crlf (a ∷ b ∷ []) q h = ground arith
starts-crlf (a ∷ b ∷ c ∷ []) q h = ground arith
starts-crlf (a ∷ b ∷ c ∷ d ∷ p) q h = refl

starts-lf :
    (p q : Text)
    → ends_header_section p ≡ true
    → starts_with lf_twice (p ++ q) ≡ starts_with lf_twice p
unfolding ends_header_section
starts-lf [] q h = absurd (ground arith)
starts-lf (a ∷ []) q h = absurd (ground arith)
starts-lf (a ∷ b ∷ p) q h = refl

or_later :
    (a b c d : Bool) → a ≡ false → c ≡ false → ((a || b) || (c || d)) ≡ true → (b || d) ≡ true
or_later a b c d e f h = ground arith

ends-later :
    (b : ℕ) (p : Text)
    → ends_header_section (b ∷ p) ≡ true
    → starts_with crlf_twice (b ∷ p) ≡ false
    → starts_with lf_twice (b ∷ p) ≡ false
    → ends_header_section p ≡ true
unfolding ends_header_section
ends-later b p h crlf lf =
    or_later (starts_with crlf_twice (b ∷ p)) (has_window crlf_twice p)
      (starts_with lf_twice (b ∷ p)) (has_window lf_twice p) crlf lf h

ends-nil : ends_header_section [] ≡ false
unfolding ends_header_section
ends-nil = refl

header_section-append :
    (p q : Text) → ends_header_section p ≡ true → header_section (p ++ q) ≡ header_section p
unfolding header_section
header_section-append [] q h = absurd (ground (arith, sym ends-nil ∙ h))
header_section-append (b ∷ p) q h = elim (Bool-cases (starts_with crlf_twice (b ∷ p))) [
  | inl crlf ↦ rw (starts-crlf (b ∷ p) q h, crlf) refl
  | inr no_crlf ↦ elim (Bool-cases (starts_with lf_twice (b ∷ p))) [
    | inl lf ↦ rw (starts-crlf (b ∷ p) q h, no_crlf, starts-lf (b ∷ p) q h, lf) refl
    | inr no_lf ↦
        rw
          (
            starts-crlf (b ∷ p) q h,
            no_crlf,
            starts-lf (b ∷ p) q h,
            no_lf,
            header_section-append p q (ends-later b p h no_crlf no_lf),
          )
          refl
  ]
]

-- What the prefix shows, or else the whole source.
module _ (z : Zstd) (ds : Decoders) (w : World) where
  -- The compression library gives the start of a frame that holds `raw`.
  abbrev pub Streams : Text → Text → Type 0
  Streams frame raw = (n : ℕ) → z.stream_decompress frame n ≡ some (take n raw)

  abbrev FromSqlite : StorageError → Conn → Type 0
  FromSqlite e c = (x : SqlxError) × (e ≡ database x)

  abbrev SameSection : Text → Text → Conn → Type 0
  SameSection raw raw' c = header_section raw' ≡ header_section raw

  whole :
      (id frame raw : Text) (size : ℤ) (c : Conn)
      → first (frames_of z ds w id c.db) ≡ some (frame, size)
      → decompress z frame size id ≡ ok raw
      → Holds (SameSection raw) FromSqlite (get_raw z ds w id c)
  unfolding get_raw
  whole id frame raw size c e d =
      bind-Holds (SameSection raw) FromSqlite (read w (λ d. first (frames_of z ds w id d)))
        (decompressed z ds w id) c
        (statement-Holds w
          (λ o c'. Holds (SameSection raw) FromSqlite (decompressed z ds w id o c')) FromSqlite
          (λ d. (ok (first (frames_of z ds w id d)), d)) c (λ x. (x, refl)) (rw (e, d) refl))

  complete-section :
      (raw : Text)
      → (ltb (length (take header_section_prefix_bytes raw)) header_section_prefix_bytes
          || ends_header_section (take header_section_prefix_bytes raw))
        ≡ true
      → header_section (take header_section_prefix_bytes raw) ≡ header_section raw
  complete-section raw h =
      let most = header_section_prefix_bytes in
      let prefix = take most raw in
      elim (Bool-cases (ends_header_section prefix)) [
        | inl e ↦
            sym (header_section-append prefix (drop most raw) e)
            ∙ ap header_section (take-drop most raw)
        | inr e ↦ ap header_section (
            take-all most raw (
              all_of_it most (length raw) (length prefix) (length-take most raw)
                (ltb→lt (length prefix) most (or_left _ _ e h))))
      ]
    where
      all_of_it : (m n k : ℕ) → k ≡ min m n → k < m → n ≤ m
      all_of_it m n k e h = omega arith

      or_left : (a b : Bool) → b ≡ false → (a || b) ≡ true → a ≡ true
      or_left a b e h = ground arith

  unless_complete-Holds :
      (id frame raw : Text) (size : ℤ) (c : Conn)
      → first (frames_of z ds w id c.db) ≡ some (frame, size)
      → decompress z frame size id ≡ ok raw
      → Holds
          (SameSection raw)
          FromSqlite
          (unless_complete z ds w id (take header_section_prefix_bytes raw) c)
  unless_complete-Holds id frame raw size c e d =
      let prefix = take header_section_prefix_bytes raw in
      elim (Bool-cases
        (ltb (length prefix) header_section_prefix_bytes || ends_header_section prefix)) [
          | inl complete ↦ rw complete (complete-section raw complete)
          | inr cut ↦ rw cut (whole id frame raw size c e d)
        ]

  -- For a stored message whose frame holds `raw`, `read_header_section` gives a text with the header
  -- section of `raw`, be it cut from the prefix or from the whole source, or fails with an error of
  -- SQLite.
  pub read_header_section-header_section :
      (id frame raw : Text) (size : ℤ) (c : Conn)
      → first (frames_of z ds w id c.db) ≡ some (frame, size)
      → decompress z frame size id ≡ ok raw
      → Streams frame raw
      → Holds
          (λ raw' c'. header_section raw' ≡ header_section raw)
          (λ e c'. (x : SqlxError) × (e ≡ database x))
          (read_header_section z ds w id c)
  unfolding read_header_section get_raw_prefix decompress_prefix
  read_header_section-header_section id frame raw size c e d streams =
      bind-Holds (SameSection raw) FromSqlite
        (get_raw_prefix z ds w id (pos header_section_prefix_bytes)) (unless_complete z ds w id) c
        (bind-Holds
          (λ prefix c'. Holds (SameSection raw) FromSqlite (unless_complete z ds w id prefix c'))
          FromSqlite (read w (λ d. first (frames_of z ds w id d)))
          (decompressed_prefix z ds w id (pos header_section_prefix_bytes)) c
          (statement-Holds w
            (λ o c'.
              Holds
                (λ prefix c'.
                  Holds (SameSection raw) FromSqlite (unless_complete z ds w id prefix c'))
                FromSqlite (decompressed_prefix z ds w id (pos header_section_prefix_bytes) o c'))
            FromSqlite (λ d. (ok (first (frames_of z ds w id d)), d)) c (λ x. (x, refl))
            (rw (e, streams header_section_prefix_bytes)
              (unless_complete-Holds id frame raw size (record { db = c.db; moment = suc c.moment })
                e d))))
