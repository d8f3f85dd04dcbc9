-- ===== src/TcpServer/Ending.antt =====
-- The end of source/io/net/TcpServer.cpp with its clients.
use mathlib.Core.Path.{subst}
use tarm_io.Prelude.{
  ℕ, ◌⊎◌, ◌≡◌, refl, sym, ap, ◌∙◌, inl, inr, Bool, true, false, not, ◌&&◌, some, List, [], ◌∷◌, map,
  All, if-true, if-false, ◌==◌, arith, if◌then◌else◌,
}
use tarm_io.StatusCode.{ok}
use tarm_io.TcpServer.{
  Server, Conn, Phase, running, shutting_down, closing, null, ending, is_listening, Event,
  called_closed, posts_end, call_if, close_conn, close_impl, close, lookup, erase, is_called,
  on_conn_close_of, on_conn_close, on_close_of, on_close,
}

abbrev pub leaves : Server → Server
leaves s = s

abbrev pub is_closing : Phase → Bool
is_closing running = false
is_closing shutting_down = false
is_closing closing = true

-- libuv closes the handles of these clients, one after the other, as long as it was asked to.
unfoldable pub on_conn_closes : List Conn → Server → Server
on_conn_closes [] s = s
on_conn_closes (c ∷ cs) s =
    let rest = on_conn_closes cs (on_conn_close leaves c.id s) in
    if is_closing c.phase then rest else s

-- The reports of these clients, in front of a log.
abbrev pub reported : List Conn → List Event → List Event
reported [] es = es
reported (c ∷ cs) es = reported cs (if c.close_callback then called_closed c.id ok ∷ es else es)

abbrev pub is_nil : List Conn → Bool
is_nil [] = true
is_nil (c ∷ cs) = false

same_id : (i : ℕ) → (i == i) ≡ true
same_id i = ground arith

told :
    (b r : Bool) (e : Event) (s : Server)
    → r ≡ true
    → call_if (b && r) e leaves s ≡ record s { log = if b then e ∷ s.log else s.log }
told true r e s h = if-true _ _ h
told false r e s h = refl

on_conn_close_first :
    (c : Conn) (cs : List Conn) (l : List Event) (s : Server)
    → s.close_connection_callback ≡ true
    → on_conn_close leaves c.id (record s { conns = c ∷ cs; log = l })
      ≡ record s { conns = cs; log = if c.close_callback then called_closed c.id ok ∷ l else l }
unfolding on_conn_close on_conn_close_of
on_conn_close_first c cs l s h =
    let s' : Server = record s { conns = c ∷ cs; log = l } in
    ap (λ o. on_conn_close_of leaves o c.id s') (if-true (some c) (lookup c.id cs) (same_id c.id))
    ∙ ap (λ ds. call_if (is_called s' c) (called_closed c.id ok) leaves (record s' { conns = ds }))
        (if-true cs (c ∷ erase c.id cs) (same_id c.id))
    ∙ told c.close_callback s.close_connection_callback (called_closed c.id ok)
        (record s { conns = cs; log = l }) h

on_conn_closes-All :
    (cs : List Conn) (l : List Event) (s : Server)
    → All (λ c. (c.is_open ≡ false) × (c.phase ≡ closing)) cs
    → s.close_connection_callback ≡ true
    → on_conn_closes cs (record s { conns = cs; log = l })
      ≡ record s { conns = []; log = reported cs l }
unfolding on_conn_closes
on_conn_closes-All [] l s a h = refl
on_conn_closes-All (c ∷ cs) l s a h =
    if-true _ _ (ap is_closing a.0.1)
    ∙ ap (on_conn_closes cs) (on_conn_close_first c cs l s h)
    ∙ on_conn_closes-All cs (if c.close_callback then called_closed c.id ok ∷ l else l) s a.1 h

close_conn-phase :
    (c : Conn)
    → (c.is_open ≡ true) ⊎ ((c.is_open ≡ false) × (c.phase ≡ closing))
    → ((close_conn c).is_open ≡ false) × ((close_conn c).phase ≡ closing)
unfolding close_conn
close_conn-phase c (inl x) =
    let q = if-false _ _ (ap not x) in
    (ap (λ (d : Conn). d.is_open) q, ap (λ (d : Conn). d.phase) q)
close_conn-phase c (inr x) =
    let q = if-true _ _ (ap not x.0) in
    (ap (λ (d : Conn). d.is_open) q ∙ x.0, ap (λ (d : Conn). d.phase) q ∙ x.1)

All-closed :
    (cs : List Conn)
    → All (λ c. (c.is_open ≡ true) ⊎ ((c.is_open ≡ false) × (c.phase ≡ closing))) cs
    → All (λ c. (c.is_open ≡ false) × (c.phase ≡ closing)) (map close_conn cs)
All-closed [] a = tt
All-closed (c ∷ cs) a = (close_conn-phase c a.0, All-closed cs a.1)

-- The server while its clients are being closed.
abbrev pub while_closing : Server → Server
while_closing s = record s {
  handle = ending;
  is_open = false;
  end_server_callback = true;
  conns = map close_conn s.conns;
}

close_listening : (s : Server) → is_listening s.handle ≡ true → close true s ≡ while_closing s
unfolding close close_impl
close_listening s h = ap (λ (t : Server). record t { is_open = false }) (if-true _ _ h)

on_close_waits :
    (cs : List Conn) (s : Server)
    → s.handle ≡ ending
    → (on_close_of cs s).handle ≡ (if is_nil cs then null else ending)
unfolding on_close_of
on_close_waits [] s h = refl
on_close_waits (c ∷ cs) s h = h

-- A listening server of which each client is open or has its handle being closed, so that none is being shut down, is closed with a
-- callback: it has libuv close the handle of each client that is open. While there is a client the server
-- keeps its handle. When libuv has closed the handles that it was asked to close, in turn, each client that had not reported is
-- reported once, none is left, and the server then gives up its handle and posts the call of the callback. This is
-- where there is a callback for closed clients, which does nothing to the server.
pub close-on_close :
    (s : Server)
    → is_listening s.handle ≡ true
    → s.close_connection_callback ≡ true
    → All (λ c. (c.is_open ≡ true) ⊎ ((c.is_open ≡ false) × (c.phase ≡ closing))) s.conns
    → let t = close true s in
      let u = on_conn_closes t.conns t in
      All (λ c. (c.is_open ≡ false) × (c.phase ≡ closing)) t.conns
      × ((on_close t).handle ≡ (if is_nil t.conns then null else ending))
      × (u.log ≡ reported t.conns s.log)
      × (u.conns ≡ [])
      × ((on_close u).handle ≡ null)
      × ((on_close u).log ≡ posts_end ∷ u.log)
unfolding on_close on_close_of
close-on_close s h c a =
    subst
      (λ (t : Server).
        All (λ d. (d.is_open ≡ false) × (d.phase ≡ closing)) t.conns
        × ((on_close t).handle ≡ (if is_nil t.conns then null else ending))
        × ((on_conn_closes t.conns t).log ≡ reported t.conns s.log)
        × ((on_conn_closes t.conns t).conns ≡ [])
        × ((on_close (on_conn_closes t.conns t)).handle ≡ null)
        × ((on_close (on_conn_closes t.conns t)).log ≡ posts_end ∷ (on_conn_closes t.conns t).log))
      (sym (close_listening s h))
      (
        All-closed s.conns a,
        on_close_waits (map close_conn s.conns) (while_closing s) refl,
        ap (λ (u : Server). u.log) closes,
        ap (λ (u : Server). u.conns) closes,
        ap (λ (u : Server). (on_close u).handle) closes,
        ap (λ (u : Server). (on_close u).log) closes
            ∙ ap (λ (u : Server). posts_end ∷ u.log) (sym closes),
      )
  where
    closes :
        on_conn_closes (map close_conn s.conns) (while_closing s)
        ≡ record (while_closing s) { conns = []; log = reported (map close_conn s.conns) s.log }
    closes =
        on_conn_closes-All (map close_conn s.conns) s.log (while_closing s) (All-closed s.conns a) c
