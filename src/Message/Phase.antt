-- ===== src/Message/Phase.antt =====
-- The receiver as a machine that takes one byte at a time. A header is kept last byte first, and so
-- is the part of the message that has come in. A message of size 0 waits for the byte behind it.
use tarm_io.Prelude.{ℕ, suc, List, [], ◌∷◌, ◌++◌, length, ltb, leb, ◌==◌, reverse, if◌then◌else◌}
use tarm_io.VariableLengthSize.Wire.{groups}
use tarm_io.Message.{Event, received, refused, message_too_long, protocol_error}

pub data Phase : Type 0 where
  sizing broken : List ℕ → Phase
  filling : List ℕ → List ℕ → Phase
  skipping : List ℕ → ℕ → Phase

-- A complete header starts a message, which is refused if it is too large.
abbrev pub start : ℕ → List ℕ → Phase × List Event
start max header =
    if ltb max (groups header)
    then (skipping header 0, refused (groups header) message_too_long ∷ [])
    else (filling header [], [])

abbrev pub take_size : ℕ → List ℕ → ℕ → Phase × List Event
take_size max bs b =
    if leb 128 b
    then (if length bs == 7
        then (broken bs, refused 0 protocol_error ∷ [])
        else (sizing (b ∷ bs), []))
    else start max (b ∷ bs)

unfoldable pub byte : ℕ → Phase → ℕ → Phase × List Event
byte max (sizing bs) b = take_size max bs b
byte max (broken bs) b = (broken bs, [])
byte max (filling header got) b =
    if groups header == 0
    then ((take_size max [] b).0, received [] ∷ (take_size max [] b).1)
    else if suc (length got) == groups header
    then (sizing [], received (reverse (b ∷ got)) ∷ [])
    else (filling header (b ∷ got), [])
byte max (skipping header n) b =
    if suc n == groups header then (sizing [], []) else (skipping header (suc n), [])

unfoldable pub run : ℕ → Phase → List ℕ → Phase × List Event
run max p [] = (p, [])
run max p (b ∷ bs) = let rest = run max (byte max p b).0 bs in (rest.0, (byte max p b).1 ++ rest.1)
