-- ===== src/LeaseTtl.antt =====
-- src/lease_ttl.rs: the length of a lease, from the text of ANIMUS_QUEUE_LEASE_TTL_SECS.
use Prim.Native.Char.{Char, code}
use Prim.Native.String.{[], ◌∷◌}
use animus_queue_default.Common.{
  ℕ, ◌+◌, ◌*◌, ◌-◌, ◌≤◌, String, Bool, ◌&&◌, Option, none, some, arith, leb, ltb, eqb, unwrap_or,
  and_then, trim, if◌then◌else◌,
}

abbrev pub default_lease_ttl_secs : ℕ
default_lease_ttl_secs = 1800

abbrev pub max_lease_ttl_secs : ℕ
max_lease_ttl_secs = 7 * 24 * 60 * 60

-- An `i64`: a number, or a negative one by its size.
pub data Signed : Type 0 where
  positive negative : ℕ → Signed

is_digit : Char → Bool
is_digit c = leb b'0' (code c) && leb (code c) b'9'

-- The number that digits write behind those that are read as `value`.
unfoldable pub read_digits : ℕ → String → Option ℕ
unfolding is_digit
read_digits value [] = some value
read_digits value (c ∷ digits) =
    let rest = read_digits (value * 10 + (code c - b'0')) digits in
    if is_digit c then rest else none

-- One digit at least.
read_number : String → Option ℕ
unfolding read_digits
read_number [] = none
read_number (c ∷ digits) = read_digits 0 (c ∷ digits)

fits_positive : ℕ → Option Signed
fits_positive n = if ltb n 0x8000000000000000 then some (positive n) else none

fits_negative : ℕ → Option Signed
fits_negative n = if leb n 0x8000000000000000 then some (negative n) else none

-- `str::parse::<i64>`: a sign or none, then digits; a number out of range is an error.
unfoldable pub parse_i64 : String → Option Signed
unfolding read_number fits_positive fits_negative
parse_i64 [] = none
parse_i64 (c ∷ digits) =
    if eqb (code c) b'+'
    then and_then (read_number digits) fits_positive
    else if eqb (code c) b'-'
    then and_then (read_number digits) fits_negative
    else and_then (read_number (c ∷ digits)) fits_positive

in_range : Signed → Option ℕ
in_range (positive secs) = if leb 1 secs && leb secs max_lease_ttl_secs then some secs else none
in_range (negative secs) = none

unfoldable pub parse_lease_ttl : Option String → ℕ
unfolding parse_i64 in_range trim
parse_lease_ttl raw =
    unwrap_or (and_then (and_then raw (λ value. parse_i64 (trim value))) in_range)
      default_lease_ttl_secs

in_range-bounds :
    (parsed : Option Signed)
    → let secs = unwrap_or (and_then parsed in_range) default_lease_ttl_secs in
      (1 ≤ secs) × (secs ≤ max_lease_ttl_secs)
unfolding in_range
in_range-bounds none = (omega arith, omega arith)
in_range-bounds (some (negative secs)) = (omega arith, omega arith)
in_range-bounds (some (positive secs)) = ground arith

-- Whatever the variable holds, if it is set at all, a lease lasts from one second to seven days.
pub parse_lease_ttl-bounds :
    (raw : Option String) → (1 ≤ parse_lease_ttl raw) × (parse_lease_ttl raw ≤ max_lease_ttl_secs)
unfolding parse_lease_ttl
parse_lease_ttl-bounds raw = in_range-bounds (and_then raw (λ value. parse_i64 (trim value)))
