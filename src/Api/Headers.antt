-- ===== src/Api/Headers.antt =====
-- The header section of a message's source in crates/rustmail-api/src/handlers.rs: how much of the source
-- is read to see all of it, and how a header's value is unfolded.
pub mod Section
use rustmail.Prelude.Text.{Text, codes, starts_with, trim}
use rustmail.Prelude.{
  ℕ, Bool, true, false, not, ◌||◌, ◌==◌, ◌*◌, List, [], ◌∷◌, ◌++◌, length, is_empty, ltb, keep, map,
  pos, if◌then◌else◌,
}
use rustmail.Storage.Exec.{World, Exec, pure, ◌>>=◌}
use rustmail.Storage.Content.{Zstd}
use rustmail.Storage.Locator.{Decoders}
use rustmail.Storage.Attachments.{get_raw, get_raw_prefix}

abbrev pub header_section_prefix_bytes : ℕ
header_section_prefix_bytes = 64 * 1024

abbrev pub crlf_twice : Text
crlf_twice = 13 ∷ 10 ∷ 13 ∷ 10 ∷ []

abbrev pub lf_twice : Text
lf_twice = 10 ∷ 10 ∷ []

-- `raw.windows(pattern.len()).any(|w| w == pattern)`, for a pattern of some bytes.
unfoldable pub has_window : Text → Text → Bool
unfolding starts_with
has_window pattern [] = false
has_window pattern (b ∷ raw) = starts_with pattern (b ∷ raw) || has_window pattern raw

unfoldable pub ends_header_section : Text → Bool
unfolding has_window
ends_header_section raw = has_window crlf_twice raw || has_window lf_twice raw

module _ (z : Zstd) (ds : Decoders) (w : World) where
  abbrev pub unless_complete : Text → Text → Exec Text
  unless_complete id prefix =
      if ltb (length prefix) header_section_prefix_bytes || ends_header_section prefix
      then pure prefix
      else get_raw z ds w id

  unfoldable pub read_header_section : Text → Exec Text
  unfolding ◌>>=◌ get_raw get_raw_prefix ends_header_section
  read_header_section id =
      get_raw_prefix z ds w id (pos header_section_prefix_bytes) >>= unless_complete id
