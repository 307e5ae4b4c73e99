-- ===== src/Api/Asserts.antt =====
-- `assert_count` of crates/rustmail-api/src/handlers.rs: whether as many messages match as a test expects.
use rustmail.Prelude.Text.{Text}
use rustmail.Prelude.{
  ℕ, ◌^◌, ◌-◌, ◌&&◌, Bool, Option, none, some, true, leb, ℤ, pos, negsuc, leb_int, if◌then◌else◌,
}
use rustmail.Storage.Exec.{Result, ok, err, World, Conn}
use rustmail.Storage.Like.{count_matching}
use rustmail.Api.Messages.{storage, Answer, answered, refused}

pub record AssertParams : Type 0 where
  pub min : Option ℤ
  pub max : Option ℤ
  pub subject : Option Text
  pub sender : Option Text
  pub recipient : Option Text

-- The two responses, 200 and 417.
pub data Assertion : Type 0 where
  holds : (count : ℕ) → Assertion
  expectation_failed : (count : ℕ) (expected_min expected_max : ℤ) → Assertion

abbrev unwrap_or : ℤ → Option ℤ → ℤ
unwrap_or default none = default
unwrap_or default (some n) = n

abbrev i64_max : ℤ
i64_max = pos (2 ^ 63 - 1)

abbrev at_most : ℤ → ℕ → Bool
at_most (pos m) n = leb m n
at_most (negsuc m) n = true

abbrev assertion : (min max : ℤ) → ℕ → Assertion
assertion min max count =
    if at_most min count && leb_int count max then holds count else expectation_failed count min max

abbrev counted : AssertParams → Result ℕ × Conn → Answer Assertion × Conn
counted p (ok count, c) =
    (answered (assertion (unwrap_or (pos 1) p.min) (unwrap_or i64_max p.max) count), c)
counted p (err e, c) = (refused (storage e), c)

module _ (to_lowercase : Text → Text) (w : World) where
  unfoldable pub assert_count : AssertParams → Conn → Answer Assertion × Conn
  unfolding count_matching
  assert_count p c = counted p (count_matching to_lowercase w p.subject p.sender p.recipient c)
