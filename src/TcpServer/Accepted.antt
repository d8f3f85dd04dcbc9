-- ===== src/TcpServer/Accepted.antt =====
-- The list of clients of source/io/net/TcpServer.cpp: what an accepted, a forgotten and an erased client
-- are to the count of reports.
use mathlib.Core.Path.{subst}
use native.Mathlib.Decide.{dec_lt}
use tarm_io.Prelude.{
  ℕ, suc, ◌+◌, ◌≤◌, ◌<◌, ◌≡◌, refl, sym, inl, inr, Bool, true, false, ◌&&◌, some, List, [], ◌∷◌,
  ◌++◌, arith, Bool-cases, if-true, if-false, ◌==◌, if◌then◌else◌,
}
use tarm_io.TcpServer.{Server, Conn, lookup, update, erase, accepted}
use tarm_io.TcpServer.Closing.{
  reports, has_callback, live, IsOnce, Mild-IsOnce, live-erase, live-append, live-lookup,
}

pub and_left : (a b : Bool) → (a && b) ≡ true → a ≡ true
and_left true b h = refl
and_left false b h = h

-- A client that is there and has its callback has been accepted, has not reported, and is the only one of its
-- number.
pub callback_fresh :
    (i : ℕ) (c : Conn) (s : Server)
    → lookup i s.conns ≡ some c
    → c.close_callback ≡ true
    → IsOnce s
    → (reports i s.log ≡ 0) × (live i (erase i s.conns) ≡ 0) × (live i s.conns ≡ 1) × (i < s.next)
callback_fresh i c s e x h =
    let b : has_callback c ≡ 1 = if-true 1 0 x in
    let l = live-lookup i c s.conns e in
    let o = h.0 i in
    (
      omega (arith, b, l, o),
      omega (arith, b, l, o),
      omega (arith, b, l, o),
      (elim (dec_lt i s.next) [
        | yes p ↦ p
        | no p ↦ absurd (omega (arith, b, l, h.1 i (omega (arith, p))))
      ]),
    )

pub erase-IsOnce : (i : ℕ) (s : Server) → IsOnce s → IsOnce (record s { conns = erase i s.conns })
erase-IsOnce i s h =
    Mild-IsOnce s (record s { conns = erase i s.conns })
      ((λ j. refl), (λ j. live-erase j i s.conns), refl) h

pub same_id : (i : ℕ) → (i == i) ≡ true
same_id i = ground arith

abbrev pub forgotten : Conn → Conn
forgotten d = record d { close_callback = false }

abbrev part : ℕ → Conn → ℕ
part i d = if i == d.id then has_callback d else 0

part-forgotten : (i : ℕ) (c : Conn) → part i (if i == c.id then forgotten c else c) ≡ 0
part-forgotten i c = elim (Bool-cases (i == c.id)) [
  | inl x ↦ subst (λ d. part i d ≡ 0) (sym (if-true (forgotten c) c x)) (if-true 0 0 x)
  | inr x ↦ subst (λ d. part i d ≡ 0) (sym (if-false (forgotten c) c x)) (if-false _ 0 x)
]

-- A client that loses its callback reports no more.
pub live-forgotten : (i : ℕ) (cs : List Conn) → live i (update i forgotten cs) ≡ 0
live-forgotten i [] = refl
live-forgotten i (c ∷ cs) = omega (arith, part-forgotten i c, live-forgotten i cs)

-- The next client is accepted.
pub accepted-IsOnce :
    (s : Server)
    → IsOnce s
    → IsOnce (record s { next = suc s.next; conns = s.conns ++ accepted s.next ∷ [] })
accepted-IsOnce s h = (once, unborn)
  where
    once : (i : ℕ) → reports i s.log + live i (s.conns ++ accepted s.next ∷ []) ≤ 1
    once i = elim (Bool-cases (i == s.next)) [
      | inl x ↦
          let e : s.next ≤ i = ground arith in
          let q = if-true {A = ℕ} 1 0 x in
          omega (arith, q, h.1 i e, live-append i s.conns (accepted s.next ∷ []))
      | inr x ↦
          let q = if-false {A = ℕ} 1 0 x in
          omega (arith, q, h.0 i, live-append i s.conns (accepted s.next ∷ []))
    ]

    unborn :
        (i : ℕ) → suc s.next ≤ i → reports i s.log + live i (s.conns ++ accepted s.next ∷ []) ≡ 0
    unborn i p =
        let x : (i == s.next) ≡ false = ground (arith, p) in
        let q = if-false {A = ℕ} 1 0 x in
        omega (arith, q, h.1 i (omega (arith, p)), live-append i s.conns (accepted s.next ∷ []))
