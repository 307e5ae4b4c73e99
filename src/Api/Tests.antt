-- ===== src/Api/Tests.antt =====
-- Runs of the model of the API, and the instances of its theorems.
use rustmail.Prelude.{Bool, ◌∷◌, ◌++◌, if◌then◌else◌, none, ◌≡◌, refl, true, false, some, []}
use rustmail.Prelude.Text.{Text, codes, same}
use rustmail.Prelude.Text
use rustmail.Prelude.{List, ◌≤◌, length, pos, arith}
use rustmail.Storage.Read.{summaries, passes}
use rustmail.Storage.Read.Pages.{listing}
use rustmail.Storage.Delete.One.{Deleted, Missing}
use rustmail.Prelude.{first}
use rustmail.Storage.Error.{database, SqlxError}
use rustmail.Storage.Exec.{ok}
use rustmail.Storage.Exec.Holds.{Holds}
use rustmail.Storage.Content.{decompress}
use rustmail.Storage.Attachments.{frames_of}
use rustmail.Api.Asserts.{AssertParams, holds, assert_count}
use rustmail.Api.Headers.{crlf_twice, read_header_section}
use rustmail.Api.Headers.Section.{header_section, read_header_section-header_section}
use rustmail.Storage.Tests.{plain, no_decoders, quiet, two, two-WellFormed, is_letter, finds}
use rustmail.Api.Messages.{
  answered, ListParams, no_params, refused, bad_request, not_an_integer, parse,
}
use rustmail.Api.Messages.Walk.{walk, walk-listing}
use rustmail.Api.Changes.{message_delete, UpdateBody, delete_message, sanitize_filename}
use rustmail.Api.Changes.Broadcasts.{ToldBy, FromStorage, delete_message-ToldBy}
use rustmail.Api.Responses.{change_response, into_response}
use rustmail.Api.Responses.Says.{Says, delete_message-Says}
use rustmail.Api.Origin.{http, https, Origin, valid, from_str, split_scheme, origin_allowed}
use rustmail.Api.Host.{Headers, host_allowed}
use rustmail.Api.Host.Names.{host_allowed-port}
use rustmail.Api.Origin.Address.{origin_allowed-same_host}

abbrev page : Text
page = codes "http://Box:8025"

abbrev box : Origin
box = record { scheme = http; authority = codes "box:8025" }

page-box : from_str page ≡ valid box
unfolding from_str
page-box = refl

-- A default port is dropped, and a page from elsewhere is refused.
default_port :
    from_str (codes " HTTPS://[::1]:443")
    ≡ valid (record { scheme = https; authority = codes "[::1]" })
unfolding from_str
default_port = refl

elsewhere : origin_allowed (some page) (some (codes "Box:80")) [] ≡ false
unfolding origin_allowed
elsewhere = refl

page-split : split_scheme (Text.trim page) ≡ some (codes "http", codes "Box:8025")
unfolding split_scheme Text.trim
page-split = refl

address-trim : Text.trim (codes "Box:8025") ≡ codes "Box:8025"
unfolding Text.trim
address-trim = refl

origin_allowed-same_host_example : origin_allowed (some page) (some (codes "Box:8025")) [] ≡ true
origin_allowed-same_host_example =
    origin_allowed-same_host page (codes "http") (codes "Box:8025") box [] page-split address-trim
      page-box

-- A request to `box`, with and without a port, where `box` is configured.
abbrev to_host : Text → Headers
to_host value name = if same name (codes "host") then some (some value) else none

abbrev no_ip : Text → Bool
no_ip s = false

host_allowed-port_example :
    host_allowed no_ip (to_host (codes "Box" ++ b':' ∷ codes "80")) (codes "box" ∷ []) []
    ≡ host_allowed no_ip (to_host (codes "Box")) (codes "box" ∷ []) []
unfolding same Text.trim
host_allowed-port_example =
    host_allowed-port no_ip (codes "box" ∷ []) [] (to_host (codes "Box"))
      (to_host (codes "Box" ++ b':' ∷ codes "80")) (codes "Box") (codes "80") refl refl
      (refl, (refl, refl)) refl refl

box-answered : host_allowed no_ip (to_host (codes "Box:80")) (codes "box" ∷ []) [] ≡ true
unfolding host_allowed same
box-answered = refl

abbrev all_messages : ListParams
all_messages = record no_params { limit = some (pos 1) }

two_listed : length (listing all_messages.filter two.db) ≤ 2
unfolding passes
two_listed = omega arith

-- Pages of one message each.
walk-listing_example :
    walk is_letter finds quiet all_messages 3 none two
    ≡ summaries (listing all_messages.filter two.db)
walk-listing_example =
    walk-listing is_letter finds quiet all_messages two 2 (λ n. refl) two-WellFormed two_listed

bad_limit :
    parse ((codes "limit", codes "ten") ∷ [])
    ≡ refused (bad_request (not_an_integer (codes "limit")))
unfolding parse
bad_limit = refl

delete_message-ToldBy_example :
    ToldBy
      (Deleted quiet (7 ∷ []) two.db tt)
      (FromStorage (Missing quiet (7 ∷ []) two.db))
      (message_delete (7 ∷ []) ∷ [])
      two.db
      (delete_message quiet (7 ∷ []) two)
delete_message-ToldBy_example = delete_message-ToldBy quiet (7 ∷ []) two two-WellFormed

abbrev no_tags : Text → List Text
no_tags s = []

abbrev no_json : List Text → Text
no_json tags = codes "[]"

abbrev star : UpdateBody
star = record { is_read = none; is_starred = some true; tags = some (codes "new" ∷ []) }

safe_name : sanitize_filename (codes "a b/c.txt") ≡ codes "a_b_c.txt"
unfolding sanitize_filename
safe_name = refl

delete_message-Says_example :
    Says
      (Deleted quiet (9 ∷ []) two.db tt)
      (message_delete (9 ∷ []) ∷ [])
      (9 ∷ [])
      two.db
      (delete_message quiet (9 ∷ []) two)
delete_message-Says_example = delete_message-Says quiet (9 ∷ []) two two-WellFormed

nothing_to_delete : (change_response (delete_message quiet (9 ∷ []) two).answer).status ≡ 404
unfolding delete_message into_response same
nothing_to_delete = refl

abbrev source : Text
source = codes "raw"

source_stored : first (frames_of plain no_decoders quiet (7 ∷ []) two.db) ≡ some (source, pos 3)
unfolding same
source_stored = refl

source_decompressed : decompress plain source (pos 3) (7 ∷ []) ≡ ok source
unfolding decompress
source_decompressed = refl

read_header_section-header_section_example :
    Holds
      (λ raw' c'. header_section raw' ≡ header_section source)
      (λ e c'. (x : SqlxError) × (e ≡ database x))
      (read_header_section plain no_decoders quiet (7 ∷ []) two)
read_header_section-header_section_example =
    read_header_section-header_section plain no_decoders quiet (7 ∷ []) source source (pos 3) two
      source_stored source_decompressed (λ n. refl)

-- The body is left out, whichever way the empty line ends.
section_crlf : header_section (97 ∷ crlf_twice ++ 98 ∷ 10 ∷ 10 ∷ []) ≡ 97 ∷ crlf_twice
unfolding header_section
section_crlf = refl

-- Without bounds at least one message has to match.
abbrev any_message : AssertParams
any_message = record {
  min = none;
  max = none;
  subject = some (codes "S");
  sender = none;
  recipient = none;
}

two_match : (assert_count Text.to_ascii_lowercase quiet any_message two).0 ≡ answered (holds 2)
unfolding assert_count
two_match = refl
