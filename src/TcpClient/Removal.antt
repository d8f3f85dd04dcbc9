-- ===== src/TcpClient/Removal.antt =====
-- Closing and removing a client twice, source/io/net/TcpClient.cpp.
use tarm_io.Prelude.{
  arith, ℕ, suc, ◌+◌, ◌-◌, ◌≡◌, refl, ap, ◌∙◌, Bool, true, false, not, ◌&&◌, none, some, List, [],
  ◌∷◌, if-true, if-false,
}
use tarm_io.StatusCode.{StatusCode, ok}
use tarm_io.TcpClient.{
  Client, Event, called_close, removes, logs, call_if, is_ok, end_stream, close, remove_if_ready,
  schedule_removal, shutdown_ended, on_shutdown, on_close,
}
use tarm_io.TcpClient.Mild.{close_calls}

abbrev pub leaves : Client → Client
leaves s = s

-- How often the client had itself removed.
abbrev pub removals : List Event → ℕ
removals [] = 0
removals (removes ∷ es) = suc (removals es)
removals (e ∷ es) = removals es

close_open :
    (s : Client) → s.stream ≡ true → close s ≡ (end_stream (record s { is_open = false }), false)
unfolding close
close_open s e = if-true _ _ e

close_again : (s : Client) → s.stream ≡ false → close s ≡ (record s { is_open = false }, true)
unfolding close
close_again s e = if-false _ _ e

remove_open :
    (s : Client)
    → s.stream ≡ true
    → schedule_removal s ≡ end_stream (record s { want_delete_object = true; is_open = false })
unfolding schedule_removal
remove_open s e = ap remove_if_ready (close_open (record s { want_delete_object = true }) e)

remove_closed :
    (s : Client)
    → s.stream ≡ false
    → schedule_removal s ≡ logs removes (record s { want_delete_object = true; is_open = false })
unfolding schedule_removal
remove_closed s e = ap remove_if_ready (close_again (record s { want_delete_object = true }) e)

told_stream : (b : Bool) (e : Event) (s : Client) → (call_if b e leaves s).stream ≡ s.stream
told_stream true e s = refl
told_stream false e s = refl

told_removals :
    (b : Bool) (c : StatusCode) (s : Client)
    → removals (call_if b (called_close c) leaves s).log ≡ removals s.log
told_removals true c s = refl
told_removals false c s = refl

told_closing : (b : Bool) (e : Event) (s : Client) → (call_if b e leaves s).closing ≡ s.closing
told_closing true e s = refl
told_closing false e s = refl

-- A handle of a client without a stream is closed.
on_close-removals :
    (s : Client)
    → s.stream ≡ false
    → s.want_delete_object ≡ true
    → (removals (on_close leaves s).log ≡ suc (removals s.log))
      × ((on_close leaves s).closing ≡ s.closing - 1)
unfolding on_close
on_close-removals s e w =
    let s' : Client = record s { closing = s.closing - 1 } in
    let u : Client = call_if s.close_callback (called_close ok) leaves s' in
    let v : Client = record u { destination_endpoint = none } in
    let q =
      if-true _ _ w ∙ remove_closed v (told_stream s.close_callback (called_close ok) s' ∙ e) in
    (
      ap (λ (x : Client). removals x.log) q ∙ ap suc (told_removals s.close_callback ok s'),
      ap (λ (x : Client). x.closing) q ∙ told_closing s.close_callback (called_close ok) s',
    )

-- A client with a stream, whose callbacks do nothing to it: the removal has the handle closed, waits for
-- that and is then done once, with no handle of the client being closed any more that was not before. If the client is
-- closed first, then it is done twice, at once, while its handle is being closed, and when that is closed.
pub schedule_removal-removals :
    (s : Client)
    → s.stream ≡ true
    → (removals (schedule_removal s).log ≡ removals s.log)
      × ((schedule_removal s).closing ≡ 1 + s.closing)
      × (removals (on_close leaves (schedule_removal s)).log ≡ 1 + removals s.log)
      × ((on_close leaves (schedule_removal s)).closing ≡ s.closing)
      × (removals (schedule_removal (close s).0).log ≡ 1 + removals s.log)
      × ((schedule_removal (close s).0).closing ≡ 1 + s.closing)
      × (removals (on_close leaves (schedule_removal (close s).0)).log ≡ 2 + removals s.log)
      × ((on_close leaves (schedule_removal (close s).0)).closing ≡ s.closing)
schedule_removal-removals s e =
    let waits : Client = end_stream (record s { want_delete_object = true; is_open = false }) in
    let closed : Client = end_stream (record s { is_open = false }) in
    let gone : Client =
      logs removes (record closed { want_delete_object = true; is_open = false }) in
    let removed : schedule_removal (close s).0 ≡ gone =
      ap (λ (r : Client × Bool). schedule_removal r.0) (close_open s e)
      ∙ remove_closed closed refl in
    let once = on_close-removals waits refl refl in
    let twice = on_close-removals gone refl refl in
    (
      ap (λ (x : Client). removals x.log) (remove_open s e),
      ap (λ (x : Client). x.closing) (remove_open s e) ∙ omega arith,
      ap (λ (x : Client). removals (on_close leaves x).log) (remove_open s e)
          ∙ once.0
          ∙ omega arith,
      ap (λ (x : Client). (on_close leaves x).closing) (remove_open s e) ∙ once.1 ∙ omega arith,
      ap (λ (x : Client). removals x.log) removed ∙ omega arith,
      ap (λ (x : Client). x.closing) removed ∙ omega arith,
      ap (λ (x : Client). removals (on_close leaves x).log) removed ∙ twice.0 ∙ omega arith,
      ap (λ (x : Client). (on_close leaves x).closing) removed ∙ twice.1 ∙ omega arith,
    )

-- A client with a stream, a close callback and no removal wanted, whose shutdown ends with a failing status,
-- where callbacks do nothing to the client. If the client was closed meanwhile, then the end of the shutdown asks
-- libuv about a null pointer. If it was not closed, then the close callback is called twice, with the status of
-- the shutdown and when the handle is closed.
pub on_shutdown-close :
    (status : StatusCode) (s : Client)
    → s.stream ≡ true
    → s.close_callback ≡ true
    → s.want_delete_object ≡ false
    → is_ok status ≡ false
    → (on_shutdown leaves status (close s).0 ≡ none)
      × (let t : Client =
            end_stream (record s { is_open = false; log = called_close status ∷ s.log }) in
          (on_shutdown leaves status s ≡ some t)
          × (close_calls (on_close leaves t).log ≡ 2 + close_calls s.log))
unfolding on_shutdown shutdown_ended on_close
on_shutdown-close status s e c w o = (
  ap (λ (r : Client × Bool). on_shutdown leaves status r.0) (close_open s e) ∙ null,
  (
    fails,
    ap (λ (x : Client). close_calls x.log) (if-false _ _ w)
        ∙ ap (λ (x : Client). close_calls x.log) (if-true _ _ c)
        ∙ omega arith,
  ),
)
  where
    closed : Client
    closed = end_stream (record s { is_open = false })

    tells : Bool
    tells = s.close_callback && not (is_ok status)

    null : on_shutdown leaves status closed ≡ none
    null = if-false _ _ (told_stream tells (called_close status) closed)

    fails :
        on_shutdown leaves status s
        ≡ some (end_stream (record s { is_open = false; log = called_close status ∷ s.log }))
    fails =
        ap (λ (x : Client). shutdown_ended leaves (record x { is_open = false }))
          (if-true _ _ (ap (λ x. x && not (is_ok status)) c ∙ ap not o))
        ∙ if-true _ _ e
