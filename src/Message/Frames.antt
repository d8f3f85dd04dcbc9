-- ===== src/Message/Frames.antt =====
-- Chunks and messages: it does not matter how the stream is cut, and what a sender sends arrives.
use mathlib.Core.List.{append-nil, append_assoc, reverse-cons, reverse-reverse}
use tarm_io.Prelude.{
  ℕ, ◌%◌, ◌/◌, ◌≤◌, ◌<◌, ◌≡◌, refl, ◌∙◌, arith, true, false, List, [], ◌∷◌, ◌++◌, length, reverse,
  map, ◌⊎◌, inl, inr, All, length-reverse, none, if◌then◌else◌, ltb, ◌==◌, le→ltb, lt→ltb,
}
use tarm_io.VariableLengthSize.{max_value}
use tarm_io.VariableLengthSize.Wire.{IsByte, groups}
use tarm_io.VariableLengthSize.Encode.{header, front, groups-header, header-IsTaken}
use tarm_io.VariableLengthSize.RoundTrip.{wire, wire-of_unsigned, All-reverse-IsMarked}
use tarm_io.Message.{
  Client, invalid_argument, message_too_long, Event, received, Outcome, ok, fault, stuck, init,
  on_data_receive, after, do_send_size, send_data_impl,
}
use tarm_io.Message.Phase.{Phase, sizing, broken, filling, skipping, run}
use tarm_io.Message.Run.{run-append, run-filled, run-header_accepted, run-broken}
use tarm_io.Message.Represents.{Represents, IsLive, init-Represents}
use tarm_io.Message.Copied.{run-nil}
use tarm_io.Message.Receive.{on_data_receive-run}

abbrev pub then_receive :
    Outcome (Client × List Event)
    → (Client → Outcome (Client × List Event))
    → Outcome (Client × List Event)
then_receive (ok (c, es)) k = after es (k c)
then_receive fault k = fault
then_receive stuck k = stuck

-- A call of `on_data_receive` for each chunk, as the client below makes them.
unfoldable pub receive_all : Client → List (List ℕ) → Outcome (Client × List Event)
receive_all c [] = ok (c, [])
receive_all c (chunk ∷ chunks) =
    then_receive (on_data_receive true c chunk none) (λ c'. receive_all c' chunks)

abbrev pub joined : List (List ℕ) → List ℕ
joined [] = []
joined (chunk ∷ chunks) = chunk ++ joined chunks

IsLive-front :
    (max : ℕ) (p : Phase) (xs ys : List ℕ)
    → IsLive (run max p (xs ++ ys)).0
    → IsLive (run max p xs).0
IsLive-front max p xs ys live = stays (run max p xs).0 (rw (run-append max p xs ys) at live)
  where
    stays : (q : Phase) → IsLive (run max q ys).0 → IsLive q
    stays (sizing bs) h = tt
    stays (filling header got) h = tt
    stays (skipping header n) h = tt
    stays (broken bs) h = rw (run-broken max bs ys) at h

receive_all-cons :
    (c : Client) (chunk : List ℕ) (chunks : List (List ℕ)) (c1 c2 : Client) (es fs : List Event)
    → on_data_receive true c chunk none ≡ ok (c1, es)
    → receive_all c1 chunks ≡ ok (c2, fs)
    → receive_all c (chunk ∷ chunks) ≡ ok (c2, es ++ fs)
unfolding receive_all
receive_all-cons c chunk chunks c1 c2 es fs e f = rw (e, f) refl

-- However a stream is cut into chunks, the receiver makes the calls that it would make for the whole
-- stream in one chunk: those of the one-byte machine. It ends in an object that stands for the phase
-- of the machine, and never writes outside its buffer. The stream holds no header that is refused.
pub receive_all-joined :
    (max : ℕ) (p : Phase) (c : Client) (chunks : List (List ℕ))
    → All (All IsByte) chunks
    → Represents max c p
    → IsLive (run max p (joined chunks)).0
    → (c' : Client) × (receive_all c chunks ≡ ok (c', (run max p (joined chunks)).1))
      × Represents max c' (run max p (joined chunks)).0
receive_all-joined max p c [] bytes r live =
    unfold receive_all in (c, rw (run-nil max p) refl, rw (run-nil max p) r)
receive_all-joined max p c (chunk ∷ chunks) bytes r live =
    let split = run-append max p chunk (joined chunks) in
    let (c1, out, r1) =
      on_data_receive-run max p c chunk bytes.0 r (IsLive-front max p chunk (joined chunks) live) in
    let (c2, outs, r2) =
      receive_all-joined max (run max p chunk).0 c1 chunks bytes.1 r1 (rw split at live) in
    (c2, receive_all-cons c chunk chunks c1 c2 _ _ out outs ∙ rw split refl, rw split r2)

-- The bytes that a sender gives to the client below for a list of messages.
abbrev pub sent : Client → List (List ℕ) → List ℕ
sent c [] = []
sent c (m ∷ ms) = joined (send_data_impl c true m).to_client ++ sent c ms

abbrev pub IsMessage : ℕ → List ℕ → Type 0
IsMessage max m = All IsByte m × (0 < length m) × (length m ≤ max)

-- A message whose size is accepted goes out as its size and its bytes, and nothing is answered at once.
send_data_impl_accepted :
    (c : Client) (m : List ℕ)
    → 0 < length m
    → length m ≤ c.max_message_size
    → send_data_impl c true m
      ≡ record { to_client = wire (length m) ∷ m ∷ []; answers = []; resume = true }
unfolding send_data_impl do_send_size
send_data_impl_accepted c m h hm =
    let filled : (length m == 0) ≡ false = ground arith in
    rw (filled, le→ltb c.max_message_size (length m) hm) refl

-- A message that is empty or too large is not sent at all, and the sender is told why.
pub send_data_impl_refused :
    (c : Client) (m : List ℕ)
    → (length m ≡ 0) ⊎ (c.max_message_size < length m)
    → ((send_data_impl c true m).to_client ≡ [])
      × ((send_data_impl c true m).answers
          ≡ (if length m == 0 then invalid_argument else message_too_long) ∷ [])
unfolding send_data_impl do_send_size
send_data_impl_refused c m (inl e) = rw e (refl, refl)
send_data_impl_refused c m (inr h) =
    let filled : (length m == 0) ≡ false = ground arith in
    rw (filled, lt→ltb c.max_message_size (length m) h) (refl, refl)

-- The header of an accepted size.
run-wire :
    (max v : ℕ) (rest : List ℕ)
    → v ≤ max_value
    → v ≤ max
    → run max (sizing []) (wire v ++ rest) ≡ run max (filling (header v) []) rest
run-wire max v rest hv hm =
    let taken = header-IsTaken v in
    let fr = front 7 (v / 128) in
    let small : ltb max (groups (header v)) ≡ false = rw (groups-header v hv) (le→ltb max v hm) in
    let back : reverse (reverse fr) ≡ fr = reverse-reverse fr in
    rw ((wire-of_unsigned v hv).1, reverse-cons (v % 128) fr, append_assoc)
      (run-header_accepted max [] (reverse fr) (v % 128) rest
          (All-reverse-IsMarked fr [] taken.2 tt) (omega (arith, length-reverse fr)) taken.0
          (rw back small)
        ∙ rw back refl)

-- A frame, whatever comes behind it.
run-frame :
    (max s : ℕ) (m rest : List ℕ)
    → s ≤ max_value
    → 0 < length m
    → length m ≤ s
    → s ≤ max
    → run max (sizing []) (wire (length m) ++ (m ++ rest))
      ≡ ((run max (sizing []) rest).0, received m ∷ (run max (sizing []) rest).1)
run-frame max s m rest h h0 hs hm =
    let hv : length m ≤ max_value = omega arith in
    run-wire max (length m) (m ++ rest) hv (omega arith)
    ∙ run-append max (filling (header (length m)) []) m rest
    ∙ rw
        (
          run-filled max (header (length m)) [] m h0 (omega (arith, groups-header (length m) hv)),
          reverse-reverse m,
        )
        refl

run-sent :
    (max : ℕ) (c : Client) (ms : List (List ℕ))
    → c.max_message_size ≤ max
    → c.max_message_size ≤ max_value
    → All (IsMessage c.max_message_size) ms
    → run max (sizing []) (sent c ms) ≡ (sizing [], map received ms)
run-sent max c [] hm hv h = run-nil max (sizing [])
run-sent max c (m ∷ ms) hm hv ((bytes, m0, small), hs) =
    let ih = run-sent max c ms hm hv hs in
    rw (send_data_impl_accepted c m m0 small, append-nil m, append_assoc)
      (run-frame max c.max_message_size m (sent c ms) hv m0 small hm ∙ rw ih refl)

-- What a sender sends arrives: messages of 1 up to the sender's `max_message_size` bytes, where that
-- is at most the receiver's and fits in 8 bytes of size, reach the receive callback of a new
-- client one by one, whole, in order and with nothing between them, however the stream is cut. The
-- receiver is then ready for the next message.
pub receive_all-sent :
    (max : ℕ) (c : Client) (ms : List (List ℕ)) (chunks : List (List ℕ))
    → c.max_message_size ≤ max
    → c.max_message_size ≤ max_value
    → All (IsMessage c.max_message_size) ms
    → All (All IsByte) chunks
    → joined chunks ≡ sent c ms
    → (c' : Client) × (receive_all (init max) chunks ≡ ok (c', map received ms))
      × Represents max c' (sizing [])
receive_all-sent max c ms chunks hm hv h bytes e =
    let whole : run max (sizing []) (joined chunks) ≡ (sizing [], map received ms) =
      rw e (run-sent max c ms hm hv h) in
    let live : IsLive (run max (sizing []) (joined chunks)).0 = rw whole tt in
    let (c', out, r) =
      receive_all-joined max (sizing []) (init max) chunks bytes (init-Represents max) live in
    (c', out ∙ rw whole refl, rw whole at r)
