-- ===== src/Storage/Locator.antt =====
-- crates/rustmail-storage/src/locator.rs: where an attachment's contents sit in the raw message.
pub mod Predicts
use rustmail.Prelude.Text.{Text, same}
use rustmail.Prelude.{
  ℕ, zero, suc, ◌+◌, ◌-◌, ◌%◌, ◌^◌, Bool, true, false, not, ◌&&◌, ◌||◌, ◌==◌, Option, none, some,
  List, [], ◌∷◌, length, take, drop, leb, ltb, ℤ, pos, negsuc, if◌then◌else◌,
}
use rustmail.Storage.Schema.{TransferEncoding, identity, quoted_printable, base64, Locator}

unfoldable pub code : TransferEncoding → ℤ
code identity = pos 0
code quoted_printable = pos 1
code base64 = pos 2

unfoldable pub from_code : ℤ → Option TransferEncoding
from_code (pos zero) = some identity
from_code (pos (suc zero)) = some quoted_printable
from_code (pos (suc (suc zero))) = some base64
from_code _ = none

-- The decoders of the MIME library.
pub record Decoders : Type 0 where
  pub quoted_printable_decode : Text → Option Text
  pub base64_decode : Text → Option Text

unfoldable pub decode : Decoders → TransferEncoding → Text → Option Text
decode ds identity body = some body
decode ds quoted_printable body = ds.quoted_printable_decode body
decode ds base64 body = ds.base64_decode body

-- What the parser says of a part's body; a nested message with what its root part spans, if it has
-- parts.
pub data PartType : Type 0 where
  text html multipart binary inline_binary : PartType
  message : Option (ℕ × ℕ) → PartType

-- `contents` is what the parser's own method returns.
pub record MessagePart : Type 0 where
  pub body : PartType
  pub contents : Text
  pub attachment_name : Option Text
  pub content_type : Option Text
  pub content_id : Option Text
  pub is_encoding_problem : Bool
  pub encoding : TransferEncoding
  pub offset_body : ℕ
  pub offset_end : ℕ

-- Of prepared.rs: a nested message with no parts counts as empty.
abbrev contents_of : PartType → Text → Text
contents_of (message none) contents = []
contents_of _ contents = contents

unfoldable pub part_contents : MessagePart → Text
part_contents part = contents_of part.body part.contents

abbrev pub is_binary_or_message : PartType → Bool
is_binary_or_message binary = true
is_binary_or_message inline_binary = true
is_binary_or_message (message root) = true
is_binary_or_message _ = false

abbrev pub ordered : ℕ × ℕ → Option (ℕ × ℕ)
ordered (start, stop) = if leb start stop then some (start, stop) else none

abbrev pub span : PartType → TransferEncoding → ℕ × ℕ → Option (ℕ × ℕ)
span (message none) identity outer = none
span (message (some root)) identity outer = ordered root
span body encoding outer = ordered outer

unfoldable pub body_range : MessagePart → Option (ℕ × ℕ)
body_range part = span part.body part.encoding (part.offset_body, part.offset_end)

-- `raw.get(start..end)` of a range in order.
unfoldable pub get_range : Text → ℕ → ℕ → Option Text
get_range raw start stop =
    if leb stop (length raw) then some (take (stop - start) (drop start raw)) else none

unfoldable pub is_base64_char : ℕ → Bool
is_base64_char c =
    (leb b'A' c && leb c b'Z')
    || (leb b'a' c && leb c b'z')
    || (leb b'0' c && leb c b'9')
    || c == b'+'
    || c == b'/'

-- What `=` flushes.
abbrev pub flushed : ℕ → ℕ
flushed pending = if pending == 1 || pending == 2 then 1 else if pending == 3 then 2 else 0

unfoldable pub predicted_from : Text → ℕ → ℕ → Option ℕ
unfolding is_base64_char
predicted_from [] decoded pending = some decoded
predicted_from (c ∷ body) decoded pending =
    let pending' = (pending + 1) % 4 in
    let counted = predicted_from body (if pending' == 0 then decoded + 3 else decoded) pending' in
    let padded = predicted_from body (decoded + flushed pending) 0 in
    let skipped = predicted_from body decoded pending in
    if is_base64_char c
    then counted
    else if c == b'='
    then padded
    else if c == b' ' || c == b'\t' || c == b'\r' || c == b'\n'
    then skipped
    else none

unfoldable pub predicted_base64_len : Text → Option ℕ
unfolding predicted_from
predicted_base64_len body = predicted_from body 0 0

abbrev pub is_some_same : Option Text → Text → Bool
is_some_same none t = false
is_some_same (some s) t = same s t

abbrev is_some_eq : Option ℕ → ℕ → Bool
is_some_eq none n = false
is_some_eq (some m) n = m == n

module _ (ds : Decoders) where
  unfoldable pub decodes_to_contents : TransferEncoding → Text → Text → Bool
  unfolding predicted_base64_len
  decodes_to_contents identity body contents = same body contents
  decodes_to_contents quoted_printable body contents =
      is_some_same (ds.quoted_printable_decode body) contents
  decodes_to_contents base64 body contents =
      is_some_eq (predicted_base64_len body) (length contents)

  abbrev pub at_range : MessagePart → ℕ × ℕ → Option Text → Option Locator
  at_range part (start, stop) none = none
  at_range part (start, stop) (some body) =
      if decodes_to_contents part.encoding body (part_contents part)
      then some (record { offset = start; len = stop - start; encoding = part.encoding })
      else none

  abbrev pub in_range : Text → MessagePart → Option (ℕ × ℕ) → Option Locator
  in_range raw part none = none
  in_range raw part (some (start, stop)) = at_range part (start, stop) (get_range raw start stop)

  abbrev pub is_some {ℓ} : {A : Type ℓ} → Option A → Bool
  is_some none = false
  is_some (some a) = true

  unfoldable pub locate : Text → MessagePart → Option Locator
  unfolding decodes_to_contents part_contents get_range body_range
  locate raw part =
      if not (is_binary_or_message part.body)
        || not (is_some part.content_type)
        || part.is_encoding_problem
      then none
      else in_range raw part (body_range part)
