-- ===== src/Utils/RetryAfter.antt =====
-- utils/helpers.go: ParseRetryAfterHeader. A duration is the bit pattern of an int64.
use meow_cli.Common.{ℕ, ◌*◌, ◌%◌, ◌<◌, ◌≡◌, List, [], ◌∷◌, Option, none, some, arith}
use meow_cli.Common.Text.{Text, bytes}
use meow_cli.Common.Table.{Table, lookup}
use meow_cli.Common.Strings.{trim_space}
use meow_cli.Common.Numerals.{ℤ, pos, negsuc, atoi, itoa_int, atoi-itoa_int}
use meow_cli.Scheduling.Backoff.{Duration}

-- The seconds as a time.Duration, where they are positive.
abbrev seconds_of : Option ℤ → Duration
seconds_of none = 0
seconds_of (some (pos n)) = (n * 1_000_000_000) % 18_446_744_073_709_551_616
seconds_of (some (negsuc n)) = 0

abbrev first_value : Option (List Text) → Text
first_value none = []
first_value (some []) = []
first_value (some (v ∷ vs)) = v

-- An empty text has no number.
unfoldable pub parse_retry_after_header : Table (List Text) → Duration
unfolding lookup trim_space atoi
parse_retry_after_header headers =
    seconds_of (atoi (trim_space (first_value (lookup (bytes "Retry-After") headers))))

-- A header with the digits of a number, and perhaps spaces around them, is that many seconds, if they
-- are less than the longest time.Duration.
pub parse_retry_after_header_lem :
    (headers : Table (List Text)) (n : ℕ)
    → n * 1_000_000_000 < 9_223_372_036_854_775_808
    → trim_space (first_value (lookup (bytes "Retry-After") headers)) ≡ itoa_int (pos n)
    → parse_retry_after_header headers ≡ n * 1_000_000_000
unfolding parse_retry_after_header
parse_retry_after_header_lem headers n h e =
    rw e (rw (atoi-itoa_int (pos n) (omega arith)) (omega arith))
