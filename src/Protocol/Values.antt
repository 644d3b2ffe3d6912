-- ===== src/Protocol/Values.antt =====
-- values.py: `MinorAmount`, `Sequence` and `Digest`, each checked where it is constructed. An
-- instance is its plain value; the range and the form are what construction guarantees.
use agentic_negotiators_sbx.Prelude.{
  Bool, Result, Text, [], all_of, err, false, if◌then◌else◌, leb, length, map, nat_eq, ok, suc,
  text_eq, true, zero, ℕ, ◌%◌, ◌&&◌, ◌*◌, ◌+◌, ◌-◌, ◌/◌, ◌==◌, ◌^◌, ◌||◌, ◌∷◌,
}
use agentic_negotiators_sbx.Prelude.Int.{negsuc, pos, ℤ}

-- `ProtocolValueError`, by what was wrong.
pub data ProtocolValueError : Type 0 where
  outside_uint256 outside_uint64 not_minor_amount not_digest : ProtocolValueError

abbrev pub uint256_max : ℕ
uint256_max = 2 ^ 256 - 1

abbrev pub uint64_max : ℕ
uint64_max = 2 ^ 64 - 1

-- `MinorAmount.__new__` on an integer.
unfoldable pub minor_amount : ℤ → Result ProtocolValueError ℕ
minor_amount (negsuc n) = err outside_uint256
minor_amount (pos n) = if leb n uint256_max then ok n else err outside_uint256

-- `Sequence.__new__` on an integer.
unfoldable pub sequence : ℤ → Result ProtocolValueError ℕ
sequence (negsuc n) = err outside_uint64
sequence (pos n) = if leb n uint64_max then ok n else err outside_uint64

abbrev pub is_digit : ℕ → Bool
is_digit c = leb b'0' c && leb c b'9'

-- `MINOR_AMOUNT_PATTERN`: `0`, or a digit from 1 to 9 and at most 77 more digits.
unfoldable pub is_minor_amount : Text → Bool
is_minor_amount [] = false
is_minor_amount (c ∷ []) = is_digit c
is_minor_amount (c ∷ (d ∷ ds)) =
    leb b'1' c && leb c b'9' && all_of is_digit (d ∷ ds) && leb (length (d ∷ ds)) 77

-- `int(text)` of a text of digits, after the value of the digits before it.
unfoldable pub read_from : ℕ → Text → ℕ
read_from acc [] = acc
read_from acc (c ∷ cs) = read_from (acc * 10 + (c - b'0')) cs

-- `MinorAmount.parse`
unfoldable pub parse : Text → Result ProtocolValueError ℕ
unfolding is_minor_amount read_from minor_amount
parse text =
    if is_minor_amount text then minor_amount (pos (read_from 0 text)) else err not_minor_amount

-- The decimal digits of a number, in front of `out`. A number has fewer digits than its value, so
-- the value is fuel enough.
unfoldable pub emit : ℕ → ℕ → Text → Text
emit zero n out = out
emit (suc fuel) n out = elim (n == 0) [
  | true ↦ out
  | false ↦ emit fuel (n / 10) ((b'0' + n % 10) ∷ out)
]

-- `str(int(self))`: `MinorAmount.to_json` and `MinorAmount.__str__`.
unfoldable pub to_json : ℕ → Text
unfolding emit
to_json n = if n == 0 then b'0' ∷ [] else emit n n []

abbrev pub is_hex : ℕ → Bool
is_hex c = is_digit c || (leb b'a' c && leb c b'f') || (leb b'A' c && leb c b'F')

-- `str.lower` on a hexadecimal digit.
abbrev pub lower : ℕ → ℕ
lower c = if leb b'A' c && leb c b'Z' then c + 32 else c

-- `DIGEST_PATTERN`
unfoldable pub is_digest : Text → Bool
is_digest [] = false
is_digest (a ∷ []) = false
is_digest (a ∷ (b ∷ cs)) = a == b'0' && b == b'x' && all_of is_hex cs && length cs == 64

-- `Digest.__new__` on a text; its canonical form is lowercase.
unfoldable pub digest : Text → Result ProtocolValueError Text
unfolding is_digest
digest text = if is_digest text then ok (map lower text) else err not_digest
