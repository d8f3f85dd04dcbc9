-- ===== src/UdpServer/Silent.antt =====
-- What a packet of a peer that was closed does to source/io/net/UdpServer.cpp.
use tarm_io.Prelude.{
  ℕ, ◌≡◌, refl, sym, ap, ◌∙◌, arith, true, false, Bool-cases, Option, some, List, [], ◌==◌, if-true,
  if-false, ◌⊎◌, inl, inr, pos, none, ◌∷◌, if◌then◌else◌,
}
use tarm_io.UdpServer.{
  Server, has, ids, close_peer, receive_tracked, on_data_received, is_some, in_backlog, erase,
  receive_packet, data_received,
}

same_id : (i : ℕ) → (i == i) ≡ true
same_id i = ground arith

close_peer_inactive : (s : Server) (i : ℕ) → has i (close_peer s i).inactive_peers ≡ true
close_peer_inactive s i = inactive (Bool-cases (has i s.inactive_peers))
  where
    inactive :
        (has i s.inactive_peers ≡ true) ⊎ (has i s.inactive_peers ≡ false)
        → has i (close_peer s i).inactive_peers ≡ true
    inactive (inl x) =
        unfold close_peer in ap (λ (t : Server). has i t.inactive_peers) (if-true _ _ x) ∙ x
    inactive (inr x) =
        unfold close_peer in
        elim (Bool-cases (has i (ids s.peers))) [
          | inl e ↦
              ap (λ (t : Server). has i t.inactive_peers) (if-false _ _ x ∙ if-true _ _ e)
              ∙ if-true _ _ (same_id i)
          | inr e ↦
              ap (λ (t : Server). has i t.inactive_peers) (if-false _ _ x ∙ if-false _ _ e)
              ∙ if-true _ _ (same_id i)
        ]

close_peer_keeps :
    (s : Server) (i : ℕ)
    → ((close_peer s i).receive_callback ≡ s.receive_callback)
      × (is_some (close_peer s i).peers_backlog ≡ is_some s.peers_backlog)
unfolding close_peer
close_peer_keeps s i = elim (Bool-cases (has i s.inactive_peers)) [
  | inl x ↦
      let q = if-true _ _ x in
      (ap (λ (t : Server). t.receive_callback) q, ap (λ (t : Server). is_some t.peers_backlog) q)
  | inr x ↦ elim (Bool-cases (has i (ids s.peers))) [
    | inl y ↦
        let q = if-false _ _ x ∙ if-true _ _ y in
        (
          ap (λ (t : Server). t.receive_callback) q,
          ap (λ (t : Server). is_some t.peers_backlog) q ∙ mapped s.peers_backlog,
        )
    | inr y ↦
        let q = if-false _ _ x ∙ if-false _ _ y in
        (ap (λ (t : Server). t.receive_callback) q, ap (λ (t : Server). is_some t.peers_backlog) q)
  ]
]
  where
    mapped : (b : Option (List ℕ)) → is_some (in_backlog (erase i) b) ≡ is_some b
    mapped none = refl
    mapped (some is) = refl

-- A packet with data of a peer that was just closed, for a server with a receive callback, changes nothing.
-- It reaches no callback if the server tracks its peers, and is given to the receive callback if it does not.
pub close_peer-on_data_received :
    (s : Server) (i size now : ℕ)
    → s.receive_callback ≡ true
    → (size == 0) ≡ false
    → on_data_received (close_peer s i) (pos size) (some i) now
      ≡ (close_peer s i, if is_some s.peers_backlog then [] else data_received i size ∷ [])
unfolding on_data_received receive_packet receive_tracked
close_peer-on_data_received s i size now c z =
    let keeps = close_peer_keeps s i in
    if-true _ _ (keeps.0 ∙ c) ∙ if-false _ _ z ∙ elim (Bool-cases (is_some s.peers_backlog)) [
      | inl x ↦
          if-true _ _ (keeps.1 ∙ x)
          ∙ if-true _ _ (close_peer_inactive s i)
          ∙ ap (λ es. (close_peer s i, es)) (sym (if-true _ _ x))
      | inr x ↦ if-false _ _ (keeps.1 ∙ x) ∙ ap (λ es. (close_peer s i, es)) (sym (if-false _ _ x))
    ]
