-- ===== src/VariableLengthSize.antt =====
-- source/io/core/VariableLengthSize.h and .cpp: a size of up to 56 bits in 1 to 8 bytes, seven bits
-- to a byte and the highest first. Both words of the object are 64 bits wide; a shift to the left is
-- cut to that width.
pub mod Wire
pub mod Decoder
pub mod Flags
pub mod Decode
pub mod Encode
pub mod Memory
pub mod RoundTrip
pub mod Laws
mod Tests
use tarm_io.Prelude.{
  ℤ, pos, negsuc, ℕ, zero, suc, ◌+◌, ◌-◌, ◌*◌, ◌/◌, ◌%◌, ◌^◌, bit_and, bit_or, Bool, true, false,
  not, ◌&&◌, Option, none, some, List, [], ◌∷◌, ltb, leb, ◌==◌, if◌then◌else◌,
}

abbrev pub u64 : ℕ → ℕ
u64 n = n % 2 ^ 64

abbrev pub max_value : ℕ
max_value = (2 ^ 64 - 1) / 2 ^ 8

abbrev pub invalid_value : ℕ
invalid_value = 2 ^ 64 - 1

abbrev pub is_complete_mask : ℕ
is_complete_mask = 2 ^ 63

abbrev pub is_fail_mask : ℕ
is_fail_mask = 2 ^ 62

pub record VariableLengthSize : Type 0 where
  pub encoded_value : ℕ
  pub decoded_value : ℕ

-- The constructor for decoding, and the state that `reset` restores.
abbrev pub empty : VariableLengthSize
empty = record { encoded_value = 0; decoded_value = 0 }

unfoldable pub reset : VariableLengthSize → VariableLengthSize
reset s = record s { encoded_value = 0; decoded_value = 0 }

-- The conversion of a word to `bool`.
abbrev pub is_nonzero : ℕ → Bool
is_nonzero n = not (n == 0)

unfoldable pub is_complete : VariableLengthSize → Bool
is_complete s = is_nonzero (bit_and s.decoded_value is_complete_mask)

unfoldable pub fail : VariableLengthSize → Bool
fail s = is_nonzero (bit_and s.decoded_value is_fail_mask)

pub set_is_complete : VariableLengthSize → VariableLengthSize
set_is_complete s = record s { decoded_value = bit_or s.decoded_value is_complete_mask }

pub set_is_fail : VariableLengthSize → VariableLengthSize
set_is_fail s = record s { decoded_value = bit_or s.decoded_value is_fail_mask }

unfoldable pub value : VariableLengthSize → ℕ
unfolding is_complete
value s = if is_complete s then bit_and s.decoded_value 0xFFFFFFFFFFFFFF else invalid_value

-- The `switch` on the marker bits.
unfoldable pub bytes_count : VariableLengthSize → ℕ
unfolding is_complete
bytes_count s =
    let markers = bit_and 0x8080808080808080 s.encoded_value in
    if markers == 0
    then (if is_complete s then 1 else 0)
    else if markers == 0x80
    then 2
    else if markers == 0x8080
    then 3
    else if markers == 0x808080
    then 4
    else if markers == 0x80808080
    then 5
    else if markers == 0x8080808080
    then 6
    else if markers == 0x808080808080
    then 7
    else if markers == 0x80808080808080
    then 8
    else 0

-- The memory of the encoded word on a little-endian machine, lowest address first.
pub memory : ℕ → ℕ → List ℕ
memory zero w = []
memory (suc k) w = (w % 256) ∷ memory k (w / 256)

unfoldable pub bytes : VariableLengthSize → List ℕ
unfolding memory
bytes s = memory 8 s.encoded_value

-- `do { … } while (current_v)` of `encode_impl`, a round for each unit of fuel.
pub encode_loop : ℕ → ℕ → ℕ → ℕ → ℕ
encode_loop zero v current encoded = encoded
encode_loop (suc fuel) v current encoded =
    let chunk = bit_and current 0x7F in
    let encoded' =
      if not (current == v)
      then bit_or (u64 (encoded * 2 ^ 8)) (bit_or chunk 0x80)
      else bit_or encoded chunk in
    let more = encode_loop fuel v (current / 2 ^ 7) encoded' in
    if is_nonzero (current / 2 ^ 7) then more else encoded'

-- Ten rounds take seven bits each, and a word has 64.
pub encode_impl : VariableLengthSize → ℕ → VariableLengthSize
unfolding encode_loop
encode_impl s v =
    if is_nonzero (bit_and v (2 ^ 64 - 1 - 0x7F))
    then record s { encoded_value = encode_loop 10 v v s.encoded_value }
    else record s { encoded_value = v }

-- The constructors from unsigned types, all of which widen to 64 bits.
unfoldable pub of_unsigned : ℕ → VariableLengthSize
unfolding encode_impl
of_unsigned v =
    if leb v max_value
    then encode_impl (record empty { decoded_value = bit_or v is_complete_mask }) v
    else empty

-- The constructors from signed types: `value >= 0 && value <= MAX_VALUE`.
unfoldable pub of_signed : ℤ → VariableLengthSize
unfolding encode_impl
of_signed (pos v) =
    if leb v max_value
    then encode_impl (record empty { decoded_value = bit_or v is_complete_mask }) v
    else empty
of_signed (negsuc n) = empty

-- Bits 56 to 59 of the decoded word count the bytes while it is read.
pub count_field : ℕ → ℕ
count_field w = bit_and w 0x0F00000000000000 / 2 ^ 56

-- What `add_byte` does with a byte that it takes.
pub shift_in : VariableLengthSize → ℕ → VariableLengthSize
unfolding count_field set_is_complete
shift_in s b =
    let count = count_field s.decoded_value in
    let shifted = bit_and (u64 (s.decoded_value * 2 ^ 7)) (2 ^ 64 - 1 - is_complete_mask) in
    let taken : VariableLengthSize = record {
      encoded_value = bit_or (s.encoded_value / 2 ^ 8) (b * 2 ^ 56);
      decoded_value = bit_or (bit_or shifted ((count + 1) * 2 ^ 56)) (bit_and b 0x7F);
    } in
    if is_nonzero (bit_and b 0x80)
    then taken
    else let final = set_is_complete taken in
      record final { encoded_value = final.encoded_value / 2 ^ (8 * (8 - count - 1)) }

unfoldable pub add_byte : VariableLengthSize → ℕ → VariableLengthSize × Bool
unfolding is_complete fail count_field set_is_fail shift_in
add_byte s b =
    if is_complete s
    then (s, false)
    else if fail s
    then (s, false)
    else if (count_field s.decoded_value == 7) && is_nonzero (bit_and b 0x80)
    then (set_is_fail s, false)
    else (shift_in s b, true)

-- The `while` loop of `add_bytes`: it stops at the first byte that is not taken.
pub add_bytes_loop : VariableLengthSize → List ℕ → ℕ → VariableLengthSize × ℕ
add_bytes_loop s [] counter = (s, counter)
add_bytes_loop s (b ∷ bs) counter =
    let rest = add_bytes_loop (add_byte s b).0 bs (counter + 1) in
    if (add_byte s b).1 then rest else ((add_byte s b).0, counter)

-- `none` is the null pointer; a buffer comes with its `count` bytes.
unfoldable pub add_bytes : VariableLengthSize → Option (List ℕ) → VariableLengthSize × ℕ
unfolding add_bytes_loop
add_bytes s none = (s, 0)
add_bytes s (some bs) = add_bytes_loop s bs 0
