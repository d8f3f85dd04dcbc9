-- ===== src/UdpServer/Laws.antt =====
-- What the operations of source/io/net/UdpServer.cpp keep.
use mathlib.Core.Bool.{false≢true}
use mathlib.Core.Path.{subst}
use tarm_io.Prelude.{
  ℕ, ◌≡◌, refl, sym, ap, ◌∙◌, Bool, true, false, not, Bool-cases, Option, some, List, [], ◌==◌,
  if-true, if-false, ◌⊎◌, inl, inr, ℤ,
}
use tarm_io.StatusCode.{StatusCode}
use tarm_io.UdpServer.{
  fresh, Handle, fresh, ready, closing, Peer, Server, Event, init, ids, is_ok, is_open, init_handle,
  ensure_handle_inited, bind, start_receive, start_receive_with_timeout, on_expired, close,
  close_with_removal, on_close_with_removal, close_peer, forget_peer, on_data_received, on_close,
  leaves,
}
use tarm_io.UdpServer.Peers.{
  Agrees, IsValid, forgets, on_expired-IsValid, close_peer-IsValid, on_data_received-IsValid,
}

-- What depends on the peers and the backlog alone.
module _ (P : List Peer → List ℕ → Option (List ℕ) → Type 0) where
  abbrev Of : Server → Type 0
  Of s = P s.peers s.inactive_peers s.peers_backlog

  init_handle_keeps : (k : Handle) (s : Server) (c : StatusCode) → Of s → Of (init_handle k s c).0
  unfolding init_handle
  init_handle_keeps ready s c h = h
  init_handle_keeps closing s c h = h
  init_handle_keeps fresh s c h = elim (Bool-cases (is_ok c)) [
    | inl x ↦ subst (λ (r : Server × StatusCode). Of r.0) (sym (if-true _ _ x)) h
    | inr x ↦ subst (λ (r : Server × StatusCode). Of r.0) (sym (if-false _ _ x)) h
  ]

  bind_keeps : (s : Server) (d : Bool) (ci cb : StatusCode) → Of s → Of (bind s d ci cb).0
  unfolding bind ensure_handle_inited
  bind_keeps s false ci cb h = h
  bind_keeps s true ci cb h =
      let inited = init_handle_keeps s.handle s ci h in
      elim (Bool-cases (is_ok (init_handle s.handle s ci).1)) [
        | inl x ↦ subst (λ (r : Server × StatusCode). Of r.0) (sym (if-true _ _ x)) inited
        | inr x ↦ subst (λ (r : Server × StatusCode). Of r.0) (sym (if-false _ _ x)) inited
      ]

  start_receive_keeps :
      (s : Server) (d : Bool) (ci cb cr : StatusCode) → Of s → Of (start_receive s d ci cb cr).0
  unfolding start_receive
  start_receive_keeps s d ci cb cr h =
      let bound = bind_keeps s d ci cb h in
      elim (Bool-cases (is_ok (bind s d ci cb).1)) [
        | inr x ↦ subst (λ (r : Server × StatusCode). Of r.0) (sym (if-true _ _ (ap not x))) bound
        | inl x ↦ elim (Bool-cases (is_ok cr)) [
          | inl y ↦
              subst (λ (r : Server × StatusCode). Of r.0)
                (sym (if-false _ _ (ap not x) ∙ if-true _ _ y)) bound
          | inr y ↦
              subst (λ (r : Server × StatusCode). Of r.0)
                (sym (if-false _ _ (ap not x) ∙ if-false _ _ y)) bound
        ]
      ]

start_with_timeout-IsValid :
    (s : Server) (timeout : ℕ) (n d : Bool) (ci cb cr : StatusCode)
    → (s.connection_in_progress ≡ true) ⊎ (s.peers ≡ [])
    → IsValid s
    → IsValid (start_receive_with_timeout s timeout n d ci cb cr).0
unfolding start_receive_with_timeout
start_with_timeout-IsValid s timeout n d ci cb cr g h = elim (Bool-cases (timeout == 0)) [
  | inl x ↦ subst (λ (r : Server × StatusCode). IsValid r.0) (sym (if-true _ _ x)) h
  | inr x ↦ elim (Bool-cases s.connection_in_progress) [
    | inl y ↦
        subst (λ (r : Server × StatusCode). IsValid r.0) (sym (if-false _ _ x ∙ if-true _ _ y)) h
    | inr y ↦
        subst (λ (r : Server × StatusCode). IsValid r.0) (sym (if-false _ _ x ∙ if-false _ _ y))
          (start_receive_keeps (λ ps is b. Agrees (ids ps) is b)
            (record s { new_peer_callback = n; peers_backlog = some [] }) d ci cb cr
            (started (no_peers g y)))
  ]
]
  where
    no_peers :
        (s.connection_in_progress ≡ true) ⊎ (s.peers ≡ [])
        → s.connection_in_progress ≡ false
        → s.peers ≡ []
    no_peers (inl e) y = absurd (false≢true (sym y ∙ e))
    no_peers (inr e) y = e

    started : s.peers ≡ [] → Agrees (ids s.peers) s.inactive_peers (some [])
    started e =
        subst (λ ps. Agrees (ids ps) s.inactive_peers (some [])) (sym e) (refl, tt, (λ i m. refl))

close-IsValid : (s : Server) (b : Bool) → IsValid s → IsValid (close s b)
unfolding close
close-IsValid s b h = elim (Bool-cases (is_open s.handle)) [
  | inl x ↦ subst IsValid (sym (if-true _ _ x)) h
  | inr x ↦ subst IsValid (sym (if-false _ _ x)) h
]

close_with_removal-IsValid : (s : Server) → IsValid s → IsValid (close_with_removal s).0
unfolding close_with_removal
close_with_removal-IsValid s h = elim (Bool-cases (is_open s.handle)) [
  | inl x ↦ subst (λ (r : Server × Bool). IsValid r.0) (sym (if-true _ _ x)) h
  | inr x ↦ subst (λ (r : Server × Bool). IsValid r.0) (sym (if-false _ _ x)) refl
]

on_close-IsValid : (calls : Server → Server) (s : Server) → IsValid s → IsValid (on_close calls s).0
unfolding on_close
on_close-IsValid calls s h = elim (Bool-cases s.close_callback) [
  | inl x ↦ subst (λ (r : Server × List Event). IsValid r.0) (sym (if-true _ _ x)) refl
  | inr x ↦ subst (λ (r : Server × List Event). IsValid r.0) (sym (if-false _ _ x)) h
]

-- An operation of the server, in any order, where no callback but that of the close does anything to it; a start with a timeout finds no peers of an earlier one.
pub data Step : Server → Server → Type 0 where
  starts : (s : Server) (d : Bool) (ci cb cr : StatusCode) → Step s (start_receive s d ci cb cr).0
  starts_with_timeout :
      (s : Server) (timeout : ℕ) (n d : Bool) (ci cb cr : StatusCode)
      → (s.connection_in_progress ≡ true) ⊎ (s.peers ≡ [])
      → Step s (start_receive_with_timeout s timeout n d ci cb cr).0
  receives : (s : Server) (n : ℤ) (a : Option ℕ) (now : ℕ) → Step s (on_data_received s n a now).0
  expires : (s : Server) (i : ℕ) → Step s (on_expired leaves s i).0
  closes_peer : (s : Server) (i : ℕ) → Step s (close_peer s i)
  forgets_peer : (s : Server) (i : ℕ) → Step s (forget_peer s i)
  closes : (s : Server) (b : Bool) → Step s (close s b)
  closes_with_removal : (s : Server) → Step s (close_with_removal s).0
  closed_with_removal : (s : Server) → Step s (on_close_with_removal s).0
  closed : (calls : Server → Server) (s : Server) → Step s (on_close calls s).0

step-IsValid : (s t : Server) → Step s t → IsValid s → IsValid t
unfolding forget_peer on_close_with_removal
step-IsValid _ _ (starts s d ci cb cr) h =
    start_receive_keeps (λ ps is b. Agrees (ids ps) is b) s d ci cb cr h
step-IsValid _ _ (starts_with_timeout s o n d ci cb cr g) h =
    start_with_timeout-IsValid s o n d ci cb cr g h
step-IsValid _ _ (receives s n a now) h = on_data_received-IsValid s n a now h
step-IsValid _ _ (expires s i) h = on_expired-IsValid s i h
step-IsValid _ _ (closes_peer s i) h = close_peer-IsValid s i h
step-IsValid _ _ (forgets_peer s i) h = forgets i (ids s.peers) s.inactive_peers s.peers_backlog h
step-IsValid _ _ (closes s b) h = close-IsValid s b h
step-IsValid _ _ (closes_with_removal s) h = close_with_removal-IsValid s h
step-IsValid _ _ (closed_with_removal s) h =
    close_with_removal-IsValid (record s { handle = fresh }) h
step-IsValid _ _ (closed calls s) h = on_close-IsValid calls s h

pub data Steps : Server → Server → Type 0 where
  stop : (s : Server) → Steps s s
  go : (s t u : Server) → Step s t → Steps t u → Steps s u

Steps-IsValid_from : (s t : Server) → Steps s t → IsValid s → IsValid t
Steps-IsValid_from _ _ (stop s) h = h
Steps-IsValid_from _ _ (go s t u x xs) h = Steps-IsValid_from t u xs (step-IsValid s t x h)

-- Whatever the operations, the packets, the expiries and libuv's results, and in any order, where the user
-- calls the server only between them, and in the close callback as well: each peer of a server that tracks peers is in its backlog once
-- and nothing else is, no peer is inactive, and a server that tracks none has none. No start with a timeout finds
-- peers of an earlier one. What the callbacks for packets, new peers and timeouts do to the server while they run is left out.
pub Steps-IsValid : (s : Server) → Steps init s → IsValid s
Steps-IsValid s xs = Steps-IsValid_from init s xs refl

-- A server that is closed without a callback keeps its peers, and a start with a timeout that is not
-- 0 then has a new backlog that is without them.
pub on_close_without_callback :
    (calls : Server → Server) (s : Server) (timeout : ℕ) (n d : Bool) (ci cb cr : StatusCode)
    → s.close_callback ≡ false
    → (timeout == 0) ≡ false
    → let c = (on_close calls s).0 in
      (c.peers ≡ s.peers)
      × ((start_receive_with_timeout c timeout n d ci cb cr).0.peers ≡ s.peers)
      × ((start_receive_with_timeout c timeout n d ci cb cr).0.peers_backlog ≡ some [])
unfolding on_close start_receive_with_timeout
on_close_without_callback calls s timeout n d ci cb cr h t =
    let stays = if-false _ _ h in
    let kept : (on_close calls s).0.peers ≡ s.peers =
      ap (λ (r : Server × List Event). r.0.peers) stays in
    let idle : (on_close calls s).0.connection_in_progress ≡ false =
      ap (λ (r : Server × List Event). r.0.connection_in_progress) stays in
    let begun = if-false _ _ t ∙ if-false _ _ idle in
    let started =
      start_receive_keeps (λ ps is b. (ps ≡ s.peers) × (b ≡ some []))
        (record (on_close calls s).0 { new_peer_callback = n; peers_backlog = some [] }) d ci cb cr
        (kept, refl) in
    (
      kept,
      ap (λ (r : Server × StatusCode). r.0.peers) begun ∙ started.0,
      ap (λ (r : Server × StatusCode). r.0.peers_backlog) begun ∙ started.1,
    )
