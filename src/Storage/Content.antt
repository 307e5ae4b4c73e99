-- ===== src/Storage/Content.antt =====
-- crates/rustmail-storage/src/content.rs: a message's raw source as a compressed frame, over the
-- compression library.
use rustmail.Prelude.Text.{Text}
use rustmail.Prelude.{ℕ, Option, none, some, length, ℤ, pos, negsuc, ◌==◌, if◌then◌else◌}
use rustmail.Storage.Error.{
  content_corrupt, negative_size, no_content_size, unreadable_header, undecodable, declares,
  wrong_length,
}
use rustmail.Storage.Exec.{Result, ok, err}

-- What a frame's header says of the size of its contents.
pub data FrameSize : Type 0 where
  known : ℕ → FrameSize
  unknown unreadable : FrameSize

pub record Zstd : Type 0 where
  pub compress : Text → Option Text
  pub frame_size : Text → FrameSize
  -- into a buffer of the given capacity
  pub bulk_decompress : Text → ℕ → Option Text
  -- at most so many bytes from the start
  pub stream_decompress : Text → ℕ → Option Text

module _ (z : Zstd) where
  abbrev of_capacity : ℕ → Text → Option Text → Result Text
  of_capacity capacity id none = err (content_corrupt id undecodable)
  of_capacity capacity id (some raw) =
      if length raw == capacity
      then ok raw
      else err (content_corrupt id (wrong_length (length raw)))

  abbrev with_declared : ℕ → Text → Text → FrameSize → Result Text
  with_declared capacity frame id (known declared) =
      if declared == capacity
      then of_capacity capacity id (z.bulk_decompress frame capacity)
      else err (content_corrupt id (declares declared))
  with_declared capacity frame id unknown = err (content_corrupt id no_content_size)
  with_declared capacity frame id unreadable = err (content_corrupt id unreadable_header)

  unfoldable pub decompress : Text → ℤ → Text → Result Text
  decompress frame (negsuc n) id = err (content_corrupt id negative_size)
  decompress frame (pos capacity) id = with_declared capacity frame id (z.frame_size frame)

  abbrev prefix_of : Text → Option Text → Result Text
  prefix_of id none = err (content_corrupt id undecodable)
  prefix_of id (some prefix) = ok prefix

  unfoldable pub decompress_prefix : Text → ℕ → Text → Result Text
  decompress_prefix frame max_bytes id = prefix_of id (z.stream_decompress frame max_bytes)
