-- ===== src/UdpServer/Peers.antt =====
-- The peers of source/io/net/UdpServer.cpp and their backlog: packets, expiries and closed peers.
use mathlib.Core.Bool.{false≢true}
use mathlib.Core.Path.{subst}
use tarm_io.Prelude.{
  ℕ, ◌≡◌, sym, ap, ◌∙◌, arith, true, false, Bool-cases, Option, none, some, List, [], ◌∷◌, ◌++◌,
  ◌==◌, if-true, if-false, inl, inr, ℤ, pos, negsuc,
}
use tarm_io.UdpServer.{
  Peer, Server, Event, has, erase, ids, erase_peer, in_backlog, is_some, leaves, release_item,
  on_expired, close_peer, receive_tracked, receive_packet, on_data_received,
}
use tarm_io.UdpServer.Ids.{
  IsUnique, ids-set_last_packet_time, ids-erase_peer, ids-append, has-append, has-erase,
  has-erase_self, erase-IsUnique, append-IsUnique, erase_absent, erase-has,
}

-- The parts of a server that the operations on peers change.
abbrev pub Agrees : List ℕ → List ℕ → Option (List ℕ) → Type 0
Agrees is inactive none = (is ≡ [])
Agrees is inactive (some js) =
    (js ≡ is) × IsUnique is × ((i : ℕ) → has i inactive ≡ true → has i is ≡ false)

-- A server that tracks peers has each of them in its backlog, and no peer is inactive; a server that
-- does not track peers has none.
abbrev pub IsValid : Server → Type 0
IsValid s = Agrees (ids s.peers) s.inactive_peers s.peers_backlog

erase-Agrees :
    (i : ℕ) (is inactive : List ℕ) (b : Option (List ℕ))
    → Agrees is inactive b
    → Agrees (erase i is) inactive (in_backlog (erase i) b)
erase-Agrees i is inactive none h = ap (erase i) h
erase-Agrees i is inactive (some js) (e, u, d) =
    (ap (erase i) e, erase-IsUnique i is u, (λ k m. has-erase k i is (d k m)))

inactive-Agrees :
    (i : ℕ) (is inactive : List ℕ) (b : Option (List ℕ))
    → has i is ≡ false
    → Agrees is inactive b
    → Agrees is (i ∷ inactive) b
inactive-Agrees i is inactive none n h = h
inactive-Agrees i is inactive (some js) n (e, u, d) = (e, u, apart)
  where
    apart : (k : ℕ) → has k (i ∷ inactive) ≡ true → has k is ≡ false
    apart k m = elim (Bool-cases (k == i)) [
      | inl x ↦ let same : i ≡ k = ground arith in ap (λ y. has y is) (sym same) ∙ n
      | inr x ↦ d k (sym (if-false _ _ x) ∙ m)
    ]

IsUnique-ids : (is inactive : List ℕ) (b : Option (List ℕ)) → Agrees is inactive b → IsUnique is
IsUnique-ids is inactive none h = subst IsUnique (sym h) tt
IsUnique-ids is inactive (some js) (e, u, d) = u

absent-Agrees :
    (i : ℕ) (is inactive : List ℕ) (b : Option (List ℕ))
    → has i is ≡ false
    → Agrees is inactive b
    → Agrees is inactive (in_backlog (erase i) b)
absent-Agrees i is inactive b n h =
    subst (λ l. Agrees l inactive (in_backlog (erase i) b)) (erase_absent i is n)
      (erase-Agrees i is inactive b h)

erased_peers :
    (i : ℕ) (ps : List Peer) (inactive : List ℕ) (b : Option (List ℕ))
    → Agrees (erase i (ids ps)) inactive b
    → Agrees (ids (erase_peer i ps)) inactive b
erased_peers i ps inactive b h = subst (λ l. Agrees l inactive b) (sym (ids-erase_peer i ps)) h

pub on_expired-IsValid : (s : Server) (i : ℕ) → IsValid s → IsValid (on_expired leaves s i).0
unfolding on_expired
on_expired-IsValid s i h = elim (Bool-cases (has i (ids s.peers))) [
  | inl e ↦
      subst (λ (r : Server × List Event). IsValid (release_item i r).0)
        (sym (if-true _ _ e ∙ if-true _ _ e))
        (erased_peers i s.peers s.inactive_peers (in_backlog (erase i) s.peers_backlog)
          (erase-Agrees i (ids s.peers) s.inactive_peers s.peers_backlog h))
  | inr e ↦
      subst (λ (r : Server × List Event). IsValid (release_item i r).0) (sym (if-false _ _ e))
        (absent-Agrees i (ids s.peers) s.inactive_peers s.peers_backlog e h)
]

pub close_peer-IsValid : (s : Server) (i : ℕ) → IsValid s → IsValid (close_peer s i)
unfolding close_peer
close_peer-IsValid s i h = elim (Bool-cases (has i s.inactive_peers)) [
  | inl x ↦ subst IsValid (sym (if-true _ _ x)) h
  | inr x ↦ elim (Bool-cases (has i (ids s.peers))) [
    | inl e ↦
        let gone =
          has-erase_self i (ids s.peers)
            (IsUnique-ids (ids s.peers) s.inactive_peers s.peers_backlog h) in
        subst IsValid (sym (if-false _ _ x ∙ if-true _ _ e)) (
          erased_peers i s.peers (i ∷ s.inactive_peers) (in_backlog (erase i) s.peers_backlog) (
            inactive-Agrees i (erase i (ids s.peers)) s.inactive_peers
              (in_backlog (erase i) s.peers_backlog) gone
              (erase-Agrees i (ids s.peers) s.inactive_peers s.peers_backlog h)))
    | inr e ↦
        subst IsValid (sym (if-false _ _ x ∙ if-false _ _ e))
          (inactive-Agrees i (ids s.peers) s.inactive_peers s.peers_backlog e h)
  ]
]

pub forgets :
    (i : ℕ) (is inactive : List ℕ) (b : Option (List ℕ))
    → Agrees is inactive b
    → Agrees is (erase i inactive) b
forgets i is inactive none h = h
forgets i is inactive (some js) (e, u, d) = (e, u, (λ k m. d k (erase-has k i inactive m)))

grows :
    (i : ℕ) (is inactive : List ℕ) (b : Option (List ℕ))
    → is_some b ≡ true
    → has i inactive ≡ false
    → has i is ≡ false
    → Agrees is inactive b
    → Agrees (is ++ i ∷ []) inactive (in_backlog (λ js. js ++ i ∷ []) b)
grows i is inactive none t n m h = absurd (false≢true t)
grows i is inactive (some js) t n m (e, u, d) =
    (ap (λ l. l ++ i ∷ []) e, append-IsUnique i is m u, apart)
  where
    apart : (k : ℕ) → has k inactive ≡ true → has k (is ++ i ∷ []) ≡ false
    apart k x = elim (Bool-cases (k == i)) [
      | inl y ↦
          let same : k ≡ i = ground arith in
          absurd (false≢true (sym n ∙ ap (λ z. has z inactive) (sym same) ∙ x))
      | inr y ↦ has-append k i is ∙ if-false _ _ (d k x) ∙ y
    ]

receive_tracked-IsValid :
    (s : Server) (i size now : ℕ)
    → is_some s.peers_backlog ≡ true
    → IsValid s
    → IsValid (receive_tracked s i size now).0
unfolding receive_tracked
receive_tracked-IsValid s i size now t h = elim (Bool-cases (has i s.inactive_peers)) [
  | inl x ↦ subst (λ (r : Server × List Event). IsValid r.0) (sym (if-true _ _ x)) h
  | inr x ↦ elim (Bool-cases (has i (ids s.peers))) [
    | inl e ↦
        subst (λ (r : Server × List Event). IsValid r.0) (sym (if-false _ _ x ∙ if-true _ _ e))
          (subst (λ l. Agrees l s.inactive_peers s.peers_backlog)
            (sym (ids-set_last_packet_time i now s.peers)) h)
    | inr e ↦
        subst (λ (r : Server × List Event). IsValid r.0) (sym (if-false _ _ x ∙ if-false _ _ e))
          (subst (λ l. Agrees l s.inactive_peers (in_backlog (λ is. is ++ i ∷ []) s.peers_backlog))
            (sym (ids-append s.peers (record { id = i; last_packet_time = now } ∷ [])))
            (grows i (ids s.peers) s.inactive_peers s.peers_backlog t x e h))
  ]
]

receive_packet-IsValid :
    (s : Server) (size : ℕ) (a : Option ℕ) (now : ℕ)
    → IsValid s
    → IsValid (receive_packet s size a now).0
unfolding receive_packet
receive_packet-IsValid s size none now h = h
receive_packet-IsValid s size (some i) now h = elim (Bool-cases (size == 0)) [
  | inl x ↦ subst (λ (r : Server × List Event). IsValid r.0) (sym (if-true _ _ x)) h
  | inr x ↦ elim (Bool-cases (is_some s.peers_backlog)) [
    | inl t ↦
        subst (λ (r : Server × List Event). IsValid r.0) (sym (if-false _ _ x ∙ if-true _ _ t))
          (receive_tracked-IsValid s i size now t h)
    | inr t ↦
        subst (λ (r : Server × List Event). IsValid r.0) (sym (if-false _ _ x ∙ if-false _ _ t)) h
  ]
]

pub on_data_received-IsValid :
    (s : Server) (n : ℤ) (a : Option ℕ) (now : ℕ)
    → IsValid s
    → IsValid (on_data_received s n a now).0
unfolding on_data_received
on_data_received-IsValid s (pos size) a now h = elim (Bool-cases s.receive_callback) [
  | inl x ↦
      subst (λ (r : Server × List Event). IsValid r.0) (sym (if-true _ _ x))
        (receive_packet-IsValid s size a now h)
  | inr x ↦ subst (λ (r : Server × List Event). IsValid r.0) (sym (if-false _ _ x)) h
]
on_data_received-IsValid s (negsuc n) a now h = elim (Bool-cases s.receive_callback) [
  | inl x ↦ subst (λ (r : Server × List Event). IsValid r.0) (sym (if-true _ _ x)) h
  | inr x ↦ subst (λ (r : Server × List Event). IsValid r.0) (sym (if-false _ _ x)) h
]
