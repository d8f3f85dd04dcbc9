-- ===== src/Message.antt =====
-- source/io/net/GenericMessageOrientedClientBase.h: messages over a stream client. Each message goes
-- out as its size (VariableLengthSize) and its bytes, and the receiver puts messages together from
-- chunks that are cut anywhere. A callback is the list of events that it is called with; the client
-- below is the list of byte strings that it is given to send. `std::size_t` has 64 bits.
pub mod Phase
pub mod Run
pub mod Represents
pub mod Copy
pub mod Copied
pub mod Rounds
pub mod Headers
pub mod Receive
pub mod Frames
pub mod Overrun
mod Tests
use tarm_io.Prelude.{
  ℕ, zero, suc, ◌+◌, ◌-◌, ◌*◌, ◌%◌, ◌^◌, Bool, true, false, not, ◌&&◌, Option, none, some, List, [],
  ◌∷◌, ◌++◌, length, take, drop, ltb, leb, ◌==◌, if◌then◌else◌,
}
use tarm_io.VariableLengthSize.{
  VariableLengthSize, empty, u64, reset, add_bytes, value, is_complete, fail, of_unsigned, bytes,
  bytes_count,
}

-- 2 * 1024 * 1024
abbrev pub default_max_size : ℕ
default_max_size = 2 * 1024 * 1024

-- The errors that this class itself reports; `transport` is one that the client below reports.
pub data Error : Type 0 where
  invalid_argument message_too_long protocol_error : Error
  transport : ℕ → Error

-- A call of the receive callback: a message, or an error with the size that comes with it.
pub data Event : Type 0 where
  received : List ℕ → Event
  refused : ℕ → Error → Event

pub record Client : Type 0 where
  pub max_message_size : ℕ
  pub current_message_offset : ℕ
  pub current_message_size : VariableLengthSize
  pub buffer : List ℕ

abbrev pub zeros : ℕ → List ℕ
zeros zero = []
zeros (suc n) = 0 ∷ zeros n

-- A new client, and its buffer of `max_message_size` bytes.
pub init : ℕ → Client
init max = record {
  max_message_size = max;
  current_message_offset = 0;
  current_message_size = empty;
  buffer = zeros max;
}

pub current_message_too_large : Client → Bool
current_message_too_large c =
    is_complete c.current_message_size && ltb c.max_message_size (value c.current_message_size)

-- `fault` is a write outside the buffer; `stuck` is no outcome of the code, the loop ran out of fuel.
pub data Outcome (A : Type 0) : Type 0 where
  ok : A → Outcome A
  fault stuck : Outcome A

abbrev pub splice : List ℕ → ℕ → List ℕ → List ℕ
splice buffer offset bs = take offset buffer ++ (bs ++ drop (offset + length bs) buffer)

pub memcpy : List ℕ → ℕ → List ℕ → Outcome (List ℕ)
memcpy buffer offset bs =
    if leb (offset + length bs) (length buffer) then ok (splice buffer offset bs) else fault

-- Calls are made only if there is a callback.
abbrev pub notify : Bool → Event → List Event
notify listening e = if listening then e ∷ [] else []

abbrev pub notify_if : Bool → Bool → Event → List Event
notify_if test listening e = if test then notify listening e else []

-- The first half of a round: bytes that belong to a size. Returns what is left of the chunk.
pub size_step : Bool → Client → List ℕ → Client × List Event × List ℕ
size_step listening c chunk =
    if is_complete c.current_message_size
    then (c, [], chunk)
    else let r = add_bytes c.current_message_size (some chunk) in
      let c' : Client = record c { current_message_size = r.0 } in
      (
        c',
        notify_if (current_message_too_large c') listening (refused (value r.0) message_too_long)
            ++ notify_if (fail r.0) listening (refused 0 protocol_error),
        drop r.1 chunk,
      )

abbrev pub sub_u64 : ℕ → ℕ → ℕ
sub_u64 a b = (a + 2 ^ 64 - b) % 2 ^ 64

pub size_to_copy : Client → List ℕ → ℕ
size_to_copy c chunk =
    let room = sub_u64 (value c.current_message_size) c.current_message_offset in
    if ltb room (length chunk) then room else length chunk

-- The end of a round, once `n` bytes are in `buffer`.
pub end_step : Bool → Client → ℕ → List ℕ → Client × List Event
end_step listening c n buffer =
    let offset = u64 (c.current_message_offset + n) in
    if offset == value c.current_message_size
    then (
      record c {
        current_message_offset = 0;
        current_message_size = reset c.current_message_size;
        buffer = buffer;
      },
      notify_if (not (current_message_too_large c)) listening
          (received (take (value c.current_message_size) buffer)),
    )
    else (record c { current_message_offset = offset; buffer = buffer }, [])

-- The second half of a round: bytes that belong to a message.
pub copy_bytes : Client → ℕ → List ℕ → Outcome (List ℕ)
copy_bytes c n chunk =
    if not (current_message_too_large c)
    then memcpy c.buffer c.current_message_offset (take n chunk)
    else ok c.buffer

pub end_round :
    Bool → Client → ℕ → List ℕ → Outcome (List ℕ) → Outcome (Client × List Event × List ℕ)
end_round listening c n chunk (ok buffer) =
    let r = end_step listening c n buffer in ok (r.0, r.1, drop n chunk)
end_round listening c n chunk fault = fault
end_round listening c n chunk stuck = stuck

pub copy_step : Bool → Client → List ℕ → Outcome (Client × List Event × List ℕ)
copy_step listening c chunk =
    let n = size_to_copy c chunk in end_round listening c n chunk (copy_bytes c n chunk)

abbrev pub after : List Event → Outcome (Client × List Event) → Outcome (Client × List Event)
after es (ok (c, fs)) = ok (c, es ++ fs)
after es fault = fault
after es stuck = stuck

-- `while (bytes_left)`, a round for each unit of fuel. A round ends the loop when a size took the
-- whole chunk, and otherwise goes on to the bytes of a message.
pub next_round :
    (Client → List ℕ → Outcome (Client × List Event))
    → Outcome (Client × List Event × List ℕ)
    → Outcome (Client × List Event)
next_round again (ok (c, es, left)) = after es (again c left)
next_round again fault = fault
next_round again stuck = stuck

pub message_half :
    (Client → List ℕ → Outcome (Client × List Event))
    → Bool
    → Client × List Event × List ℕ
    → Outcome (Client × List Event)
message_half again listening (c, es, []) = ok (c, es)
message_half again listening (c, es, (b ∷ left)) =
    after es (next_round again (copy_step listening c (b ∷ left)))

pub receive_loop : ℕ → Bool → Client → List ℕ → Outcome (Client × List Event)
unfolding next_round message_half
receive_loop fuel listening c [] = ok (c, [])
receive_loop zero listening c (b ∷ bs) = stuck
receive_loop (suc fuel) listening c (b ∷ bs) =
    message_half (λ c' left. receive_loop fuel listening c' left) listening
      (size_step listening c (b ∷ bs))

-- A round takes a byte, or ends a message of size 0 before the next one takes some.
pub on_data_receive : Bool → Client → List ℕ → Option Error → Outcome (Client × List Event)
on_data_receive listening c chunk (some e) = ok (c, notify listening (refused 0 e))
on_data_receive listening c chunk none = receive_loop (2 * length chunk + 1) listening c chunk

-- What `send_data` gives to the client below, and how it calls its callback at once.
pub record Sent : Type 0 where
  pub to_client : List (List ℕ)
  pub answers : List Error
  pub resume : Bool

pub do_send_size : Client → Bool → ℕ → Sent
do_send_size c has_callback size =
    if size == 0
    then record {
      to_client = [];
      answers = if has_callback then invalid_argument ∷ [] else [];
      resume = false;
    }
    else if ltb c.max_message_size size
    then record {
      to_client = [];
      answers = if has_callback then message_too_long ∷ [] else [];
      resume = false;
    }
    else let vs = of_unsigned size in
      record { to_client = take (bytes_count vs) (bytes vs) ∷ []; answers = []; resume = true }

pub send_data_impl : Client → Bool → List ℕ → Sent
send_data_impl c has_callback message =
    let sized = do_send_size c has_callback (length message) in
    if sized.resume then record sized { to_client = sized.to_client ++ message ∷ [] } else sized
