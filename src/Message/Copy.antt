-- ===== src/Message/Copy.antt =====
-- `copy_step`, the half of a round of `on_data_receive` that copies bytes of a message.
use tarm_io.Prelude.{
  ℕ, ◌+◌, ◌-◌, ◌^◌, ◌≤◌, ◌<◌, ◌≡◌, refl, ◌∙◌, arith, true, false, List, [], ◌∷◌, length, take, drop,
  length-take, take_all, drop_all, if◌then◌else◌, ltb,
}
use tarm_io.VariableLengthSize.{empty, value, reset}
use tarm_io.VariableLengthSize.Wire.{groups}
use tarm_io.VariableLengthSize.Decoder.{done, IsTaken}
use tarm_io.VariableLengthSize.Flags.{groups-lt_word}
use tarm_io.Message.{
  Client, received, ok, splice, memcpy, size_to_copy, end_step, copy_step, copy_bytes, end_round,
  current_message_too_large, sub_u64,
}

pub groups-lt_done : (header : List ℕ) → IsTaken (done header) → groups header < 2 ^ 56
groups-lt_done [] h = absurd h
groups-lt_done (b ∷ bs) h = groups-lt_word (b ∷ bs) (omega arith)

-- No wrap: the offset is within the message.
size_to_copy_lem :
    (c : Client) (chunk : List ℕ) (size : ℕ)
    → value c.current_message_size ≡ size
    → size < 2 ^ 56
    → c.current_message_offset ≤ size
    → size_to_copy c chunk ≡ (
        if ltb (size - c.current_message_offset) (length chunk)
        then size - c.current_message_offset
        else length chunk)
unfolding size_to_copy
size_to_copy_lem c chunk size e h ho =
    let room : sub_u64 size c.current_message_offset ≡ size - c.current_message_offset =
      omega arith in
    rw (e, room) refl

-- The two ways that a round ends.
end_step_more :
    (c : Client) (n size : ℕ) (buffer : List ℕ)
    → value c.current_message_size ≡ size
    → size < 2 ^ 56
    → c.current_message_offset + n < size
    → end_step true c n buffer
      ≡ (record c { current_message_offset = c.current_message_offset + n; buffer = buffer }, [])
unfolding end_step
end_step_more c n size buffer e h hn = ground arith

end_step_done :
    (c : Client) (n size : ℕ) (buffer : List ℕ)
    → value c.current_message_size ≡ size
    → size < 2 ^ 56
    → c.current_message_offset + n ≡ size
    → end_step true c n buffer ≡ (
      record c { current_message_offset = 0; current_message_size = empty; buffer = buffer },
      if current_message_too_large c then [] else received (take size buffer) ∷ [],
    )
unfolding end_step reset
end_step_done c n size buffer e h hn = ground arith

pub memcpy_within :
    (buffer : List ℕ) (offset : ℕ) (bs : List ℕ)
    → offset + length bs ≤ length buffer
    → memcpy buffer offset bs ≡ ok (splice buffer offset bs)
unfolding memcpy
memcpy_within buffer offset bs h = ground arith

copy_step_small :
    (c : Client) (chunk : List ℕ) (n : ℕ)
    → current_message_too_large c ≡ false
    → size_to_copy c chunk ≡ n
    → c.current_message_offset + length (take n chunk) ≤ length c.buffer
    → copy_step true c chunk ≡ (
        let r = end_step true c n (splice c.buffer c.current_message_offset (take n chunk)) in
        ok (r.0, r.1, drop n chunk))
unfolding copy_step copy_bytes end_round
copy_step_small c chunk n small e h = rw (e, small, memcpy_within _ _ _ h) refl

copy_step_large :
    (c : Client) (chunk : List ℕ) (n : ℕ)
    → current_message_too_large c ≡ true
    → size_to_copy c chunk ≡ n
    → copy_step true c chunk ≡ (let r = end_step true c n c.buffer in ok (r.0, r.1, drop n chunk))
unfolding copy_step copy_bytes end_round
copy_step_large c chunk n large e = rw (e, large) refl

-- The four outcomes of a round on a chunk: the message is kept or skipped, and goes on or ends.
module _ (c : Client) (chunk : List ℕ) (o size : ℕ) (has_size : value c.current_message_size ≡ size)
    (bound : size < 2 ^ 56) (at : c.current_message_offset ≡ o) where
  whole_chunk : o + length chunk < size → size_to_copy c chunk ≡ length chunk
  whole_chunk h = size_to_copy_lem c chunk size has_size bound (omega arith) ∙ ground arith

  rest_of_message : (n : ℕ) → o + n ≡ size → n ≤ length chunk → size_to_copy c chunk ≡ n
  rest_of_message n e h = size_to_copy_lem c chunk size has_size bound (omega arith) ∙ ground arith

  pub keeps_going :
      current_message_too_large c ≡ false
      → o + length chunk < size
      → o + length chunk ≤ length c.buffer
      → copy_step true c chunk
        ≡ ok (
          record c { current_message_offset = o + length chunk; buffer = splice c.buffer o chunk },
          [],
          [],
        )
  keeps_going small h fits =
      copy_step_small c chunk (length chunk) small (whole_chunk h)
        (rw (take_all chunk) (omega arith))
      ∙ rw
          (
            take_all chunk,
            drop_all chunk,
            end_step_more c (length chunk) size (splice c.buffer c.current_message_offset chunk)
                has_size bound (omega arith),
            at,
          )
          refl

  pub keeps_and_ends :
      (n : ℕ)
      → current_message_too_large c ≡ false
      → o + n ≡ size
      → n ≤ length chunk
      → o + n ≤ length c.buffer
      → copy_step true c chunk
        ≡ ok (
          record c {
            current_message_offset = 0;
            current_message_size = empty;
            buffer = splice c.buffer o (take n chunk);
          },
          received (take size (splice c.buffer o (take n chunk))) ∷ [],
          drop n chunk,
        )
  keeps_and_ends n small e h fits =
      copy_step_small c chunk n small (rest_of_message n e h) (omega (arith, length-take n chunk h))
      ∙ rw
          (
            end_step_done c n size (splice c.buffer c.current_message_offset (take n chunk))
                has_size bound (omega arith),
            small,
            at,
          )
          refl

  pub skips_on :
      current_message_too_large c ≡ true
      → o + length chunk < size
      → copy_step true c chunk ≡ ok (record c { current_message_offset = o + length chunk }, [], [])
  skips_on large h =
      copy_step_large c chunk (length chunk) large (whole_chunk h)
      ∙ rw
          (
            drop_all chunk,
            end_step_more c (length chunk) size c.buffer has_size bound (omega arith),
            at,
          )
          refl

  pub skips_and_ends :
      (n : ℕ)
      → current_message_too_large c ≡ true
      → o + n ≡ size
      → n ≤ length chunk
      → copy_step true c chunk
        ≡ ok (
          record c { current_message_offset = 0; current_message_size = empty },
          [],
          drop n chunk,
        )
  skips_and_ends n large e h =
      copy_step_large c chunk n large (rest_of_message n e h)
      ∙ rw (end_step_done c n size c.buffer has_size bound (omega arith), large) refl
