-- ===== src/UdpServer/Ids.antt =====
-- The maps of source/io/net/UdpServer.cpp as lists of distinct keys.
use mathlib.Core.Bool.{false≢true}
use mathlib.Core.Path.{subst}
use tarm_io.Prelude.{
  ℕ, ◌≡◌, refl, sym, ap, ◌∙◌, arith, true, false, Bool-cases, List, [], ◌∷◌, ◌++◌, ◌==◌,
  if◌then◌else◌, if-true, if-false, inl, inr,
}
use tarm_io.UdpServer.{Peer, has, erase, ids, erase_peer, set_last_packet_time}

abbrev pub IsUnique : List ℕ → Type 0
IsUnique [] = Unit
IsUnique (i ∷ is) = (has i is ≡ false) × IsUnique is

pub ids-set_last_packet_time :
    (i now : ℕ) (ps : List Peer) → ids (set_last_packet_time i now ps) ≡ ids ps
ids-set_last_packet_time i now [] = refl
ids-set_last_packet_time i now (p ∷ ps) =
    let ih = ids-set_last_packet_time i now ps in
    elim (Bool-cases (i == p.id)) [
      | inl e ↦
          ap (λ (q : Peer). q.id ∷ ids (set_last_packet_time i now ps)) (if-true _ _ e)
          ∙ ap (λ l. p.id ∷ l) ih
      | inr e ↦
          ap (λ (q : Peer). q.id ∷ ids (set_last_packet_time i now ps)) (if-false _ _ e)
          ∙ ap (λ l. p.id ∷ l) ih
    ]

pub ids-erase_peer : (i : ℕ) (ps : List Peer) → ids (erase_peer i ps) ≡ erase i (ids ps)
ids-erase_peer i [] = refl
ids-erase_peer i (p ∷ ps) = elim (Bool-cases (i == p.id)) [
  | inl e ↦ ap ids (if-true _ _ e) ∙ sym (if-true _ _ e)
  | inr e ↦
      ap ids (if-false _ _ e) ∙ ap (λ l. p.id ∷ l) (ids-erase_peer i ps) ∙ sym (if-false _ _ e)
]

pub ids-append : (ps qs : List Peer) → ids (ps ++ qs) ≡ ids ps ++ ids qs
ids-append [] qs = refl
ids-append (p ∷ ps) qs = ap (λ l. p.id ∷ l) (ids-append ps qs)

pub has-append :
    (i j : ℕ) (is : List ℕ) → has i (is ++ j ∷ []) ≡ (if has i is then true else i == j)
has-append i j [] = ground arith
has-append i j (k ∷ is) = let ih = has-append i j is in ground (arith, ih)

-- What is in a list without one of its elements was in the list.
pub has-erase : (i j : ℕ) (is : List ℕ) → has i is ≡ false → has i (erase j is) ≡ false
has-erase i j [] h = refl
has-erase i j (k ∷ is) h = ground (arith, has-erase i j is)

pub has-erase_self : (i : ℕ) (is : List ℕ) → IsUnique is → has i (erase i is) ≡ false
has-erase_self i [] h = refl
has-erase_self i (k ∷ is) h = elim (Bool-cases (i == k)) [
  | inl e ↦
      let same : k ≡ i = ground arith in
      ap (has i) (if-true _ _ e) ∙ ap (λ x. has x is) (sym same) ∙ h.0
  | inr e ↦ ap (has i) (if-false _ _ e) ∙ if-false _ _ e ∙ has-erase_self i is h.1
]

pub erase-IsUnique : (i : ℕ) (is : List ℕ) → IsUnique is → IsUnique (erase i is)
erase-IsUnique i [] h = h
erase-IsUnique i (k ∷ is) h = elim (Bool-cases (i == k)) [
  | inl e ↦ subst IsUnique (sym (if-true _ _ e)) h.1
  | inr e ↦ subst IsUnique (sym (if-false _ _ e)) (has-erase k i is h.0, erase-IsUnique i is h.1)
]

pub append-IsUnique :
    (i : ℕ) (is : List ℕ) → has i is ≡ false → IsUnique is → IsUnique (is ++ i ∷ [])
append-IsUnique i [] h u = (refl, tt)
append-IsUnique i (k ∷ is) h u =
    let later : has i is ≡ false = ground arith in
    let other : (k == i) ≡ false = ground arith in
    (has-append k i is ∙ if-false _ _ u.0 ∙ other, append-IsUnique i is later u.1)

pub erase_absent : (i : ℕ) (is : List ℕ) → has i is ≡ false → erase i is ≡ is
erase_absent i [] h = refl
erase_absent i (k ∷ is) h =
    let later : has i is ≡ false = ground arith in
    let other : (i == k) ≡ false = ground arith in
    if-false _ _ other ∙ ap (λ l. k ∷ l) (erase_absent i is later)

-- Who is in a list without one of its elements was in the list.
pub erase-has : (k i : ℕ) (is : List ℕ) → has k (erase i is) ≡ true → has k is ≡ true
erase-has k i is h = elim (Bool-cases (has k is)) [
  | inl e ↦ e
  | inr e ↦ absurd (false≢true (sym (has-erase k i is e) ∙ h))
]
