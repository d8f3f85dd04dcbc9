-- ===== src/Tls/Late.antt =====
-- source/io/net/detail/OpenSslClientImplBase.h: data that arrives while the handshake is finishing, and a
-- send without a callback.
use mathlib.Core.Option.{none-ne-some}
use tarm_io.Prelude.{
  List, [], ◌∷◌, ◌++◌, ℕ, ◌≡◌, ◌↔◌, refl, sym, ◌∙◌, ap, Bool, true, false, not, none, some, if-true,
  if-false, if◌then◌else◌, ◌==◌, ℤ,
}
use tarm_io.Tls.{
  asks_send, succeeds, finish_sent, after_handshake, read_from_ssl_and_send, read_from_ssl,
  finishing, is_finishing, Client, is_open, is_positive, Reads, Outcome, do_handshake,
  finish_and_read, finish_handshake, on_finish_sent, on_data_receive, send_data_impl,
}

-- A client whose handshake succeeds has a last send for its peer, and data arrives while that send is under
-- way. The data changes nothing in the client; it is only put into the memory BIO. When the send has ended, the client
-- reports that the handshake is complete, and it reads exactly if something was pending when the handshake
-- succeeded: otherwise the data that came later waits until more arrives.
pub on_finish_sent-on_data_receive :
    (calls : Client → Client) (w w' : ℕ) (read_pending b : Bool) (n : ℤ) (o : Outcome)
    (r r' r'' : Reads) (s : Client)
    → (w == 0) ≡ false
    → is_positive n ≡ true
    → is_finishing s.handshake_state ≡ false
    → s.finishes ≡ []
    → let t : Client = do_handshake calls succeeds w read_pending r s in
      let u : Client = on_data_receive calls n o w' b r' t in
      let v : Client =
        finish_handshake calls
          (record s { handshake_state = finishing; finishes = []; log = asks_send w ∷ s.log }) in
      (u ≡ t)
      × (on_finish_sent calls false r'' u ≡ (if read_pending then read_from_ssl calls r'' v else v))
unfolding on_finish_sent finish_sent on_data_receive do_handshake after_handshake
    read_from_ssl_and_send finish_and_read
on_finish_sent-on_data_receive calls w w' p b n o r r' r'' s e q f k =
    let sent : Client = record s {
      handshake_state = finishing;
      finishes = p ∷ [];
      log = asks_send w ∷ s.log;
    } in
    let start : do_handshake calls succeeds w p r s ≡ sent =
      if-false _ _ f
      ∙ if-false _ _ e
      ∙ if-false _ _ e
      ∙ ap
          (λ (bs : List Bool). record s {
            handshake_state = finishing;
            finishes = bs ++ p ∷ [];
            log = asks_send w ∷ s.log;
          })
          k in
    let stays : on_data_receive calls n o w' b r' sent ≡ sent = if-true _ _ q in
    (
      ap (on_data_receive calls n o w' b r') start ∙ stays ∙ sym start,
      ap (λ (x : Client). on_finish_sent calls false r'' (on_data_receive calls n o w' b r' x))
            start
          ∙ ap (on_finish_sent calls false r'') stays,
    )

has_result-if :
    (o c w z : Bool) (x y y' t : Client)
    → (if not o
        then if c then some x else none
        else if not w
        then some y
        else if z
        then some y'
        else some t)
      ≡ none
    → (o ≡ false) × (c ≡ false)
has_result-if false false w z x y y' t e = (refl, refl)
has_result-if false true w z x y y' t e = absurd (none-ne-some _ (sym e))
has_result-if true c false z x y y' t e = absurd (none-ne-some _ (sym e))
has_result-if true c true true x y y' t e = absurd (none-ne-some _ (sym e))
has_result-if true c true false x y y' t e = absurd (none-ne-some _ (sym e))

-- A send has no result, since it calls a null callback, exactly where the client is not open and the
-- user gave no callback.
pub send_data_impl-is_open :
    (callback written : Bool) (n : ℕ) (s : Client)
    → (send_data_impl callback written n s ≡ none) ↔ ((is_open s ≡ false) × (callback ≡ false))
unfolding send_data_impl
send_data_impl-is_open callback written n s = (
  has_result-if (is_open s) callback written (n == 0) _ _ _ _,
  λ p. if-true _ _ (ap not p.0) ∙ if-false _ _ p.1,
)
