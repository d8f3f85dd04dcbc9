-- ===== src/TcpServer/Closing.antt =====
-- How often source/io/net/TcpServer.cpp reports that a client is closed.
use mathlib.Core.Path.{subst}
use mathlib.Core.Option.{some_inj}
use tarm_io.Prelude.{
  ℕ, ◌+◌, ◌≤◌, ◌≡◌, refl, sym, ap, ◌∙◌, inl, inr, not, some, List, [], ◌∷◌, ◌++◌, map, arith,
  Bool-cases, if-true, if-false, ◌==◌, if◌then◌else◌,
}
use tarm_io.TcpServer.{
  Server, Conn, Event, called_closed, lookup, update, erase, close_conn, shutdown_conn,
}

-- The reports that the client `i` is closed.
abbrev pub reports : ℕ → List Event → ℕ
reports i [] = 0
reports i (called_closed j c ∷ es) = (if i == j then 1 else 0) + reports i es
reports i (e ∷ es) = reports i es

abbrev pub has_callback : Conn → ℕ
has_callback c = if c.close_callback then 1 else 0

-- The clients `i` that would still report.
abbrev pub live : ℕ → List Conn → ℕ
live i [] = 0
live i (c ∷ cs) = (if i == c.id then has_callback c else 0) + live i cs

-- No client reports more than once, and none that was not accepted yet.
abbrev pub IsOnce : Server → Type 0
IsOnce s =
    ((i : ℕ) → reports i s.log + live i s.conns ≤ 1)
    × ((i : ℕ) → s.next ≤ i → reports i s.log + live i s.conns ≡ 0)

-- A change that reports nothing and gives nobody a callback.
abbrev pub Mild : Server → Server → Type 0
Mild s t =
    ((i : ℕ) → reports i t.log ≡ reports i s.log)
    × ((i : ℕ) → live i t.conns ≤ live i s.conns)
    × (t.next ≡ s.next)

abbrev pub IsMild : (Server → Server) → Type 0
IsMild calls = (s : Server) → Mild s (calls s)

pub Mild-refl : (s : Server) → Mild s s
Mild-refl s = ((λ i. refl), (λ i. omega arith), refl)

pub Mild-trans : (s t u : Server) → Mild s t → Mild t u → Mild s u
Mild-trans s t u x y = ((λ i. y.0 i ∙ x.0 i), (λ i. omega (arith, x.1 i, y.1 i)), y.2 ∙ x.2)

pub Mild-IsOnce : (s t : Server) → Mild s t → IsOnce s → IsOnce t
Mild-IsOnce s t m h = (
  (λ i. omega (arith, m.0 i, m.1 i, h.0 i)),
  (λ i p. omega (arith, m.0 i, m.1 i, h.1 i (omega (arith, p, m.2)))),
)

-- A change of a client that gives it no callback.
abbrev pub IsTame : (Conn → Conn) → Type 0
IsTame f = (c : Conn) → ((f c).id ≡ c.id) × (has_callback (f c) ≤ has_callback c)

live_tame :
    (i : ℕ) (f : Conn → Conn) (c : Conn)
    → IsTame f
    → (if i == (f c).id then has_callback (f c) else 0) ≤ (if i == c.id then has_callback c else 0)
live_tame i f c t =
    subst
      (λ j. (if i == j then has_callback (f c) else 0) ≤ (if i == c.id then has_callback c else 0))
      (sym (t c).0)
      (elim (Bool-cases (i == c.id)) [
        | inl x ↦
            let a = if-true (has_callback (f c)) 0 x in
            let b = if-true (has_callback c) 0 x in omega (arith, a, b, (t c).1)
        | inr x ↦ let a = if-false (has_callback (f c)) 0 x in omega (arith, a)
      ])

pub live-map : (i : ℕ) (f : Conn → Conn) (cs : List Conn) → IsTame f → live i (map f cs) ≤ live i cs
live-map i f [] t = omega arith
live-map i f (c ∷ cs) t = omega (arith, live_tame i f c t, live-map i f cs t)

update_tame :
    (j : ℕ) (f : Conn → Conn) (c : Conn)
    → IsTame f
    → ((if j == c.id then f c else c).id ≡ c.id)
      × (has_callback (if j == c.id then f c else c) ≤ has_callback c)
update_tame j f c t = elim (Bool-cases (j == c.id)) [
  | inl x ↦
      subst (λ (d : Conn). (d.id ≡ c.id) × (has_callback d ≤ has_callback c)) (sym (if-true _ _ x))
        (t c)
  | inr x ↦
      subst (λ (d : Conn). (d.id ≡ c.id) × (has_callback d ≤ has_callback c)) (sym (if-false _ _ x))
        (refl, omega arith)
]

pub live-update :
    (i j : ℕ) (f : Conn → Conn) (cs : List Conn) → IsTame f → live i (update j f cs) ≤ live i cs
live-update i j f [] t = omega arith
live-update i j f (c ∷ cs) t = omega (
  arith,
  live_tame i (λ d. if j == d.id then f d else d) c (λ d. update_tame j f d t),
  live-update i j f cs t,
)

live-erase_at :
    (i j : ℕ) (c : Conn) (cs : List Conn)
    → live i (erase j cs) ≤ live i cs
    → live i (erase j (c ∷ cs)) ≤ live i (c ∷ cs)
live-erase_at i j c cs h = elim (Bool-cases (j == c.id)) [
  | inl x ↦ let e = ap (live i) (if-true cs (c ∷ erase j cs) x) in omega (arith, e)
  | inr x ↦ let e = ap (live i) (if-false cs (c ∷ erase j cs) x) in omega (arith, e, h)
]

pub live-erase : (i j : ℕ) (cs : List Conn) → live i (erase j cs) ≤ live i cs
live-erase i j [] = omega arith
live-erase i j (c ∷ cs) = live-erase_at i j c cs (live-erase i j cs)

pub live-append : (i : ℕ) (cs ds : List Conn) → live i (cs ++ ds) ≡ live i cs + live i ds
live-append i [] ds = omega arith
live-append i (c ∷ cs) ds = omega (arith, live-append i cs ds)

-- A client that is there, and reports.
live_found_at :
    (i : ℕ) (c d : Conn) (cs : List Conn)
    → (lookup i cs ≡ some d → has_callback d + live i (erase i cs) ≡ live i cs)
    → lookup i (c ∷ cs) ≡ some d
    → has_callback d + live i (erase i (c ∷ cs)) ≡ live i (c ∷ cs)
live_found_at i c d cs ih h = elim (Bool-cases (i == c.id)) [
  | inl x ↦
      let e = ap (live i) (if-true cs (c ∷ erase i cs) x) in
      let q = ap has_callback (some_inj.0 (sym (if-true _ _ x) ∙ h)) in
      let r = if-true (has_callback c) 0 x in omega (arith, e, q, r)
  | inr x ↦
      let e = ap (live i) (if-false cs (c ∷ erase i cs) x) in
      let q = ih (sym (if-false _ _ x) ∙ h) in omega (arith, e, q)
]

pub live-lookup :
    (i : ℕ) (d : Conn) (cs : List Conn)
    → lookup i cs ≡ some d
    → has_callback d + live i (erase i cs) ≡ live i cs
live-lookup i d [] h = absurd (cc)
live-lookup i d (c ∷ cs) h = live_found_at i c d cs (live-lookup i d cs) h

pub close_conn-IsTame : IsTame close_conn
unfolding close_conn
close_conn-IsTame c = elim (Bool-cases (not c.is_open)) [
  | inl x ↦
      subst (λ (d : Conn). (d.id ≡ c.id) × (has_callback d ≤ has_callback c)) (sym (if-true _ _ x))
        (refl, omega arith)
  | inr x ↦
      subst (λ (d : Conn). (d.id ≡ c.id) × (has_callback d ≤ has_callback c)) (sym (if-false _ _ x))
        (refl, omega arith)
]

pub shutdown_conn-IsTame : IsTame shutdown_conn
unfolding shutdown_conn
shutdown_conn-IsTame c = elim (Bool-cases (not c.is_open)) [
  | inl x ↦
      subst (λ (d : Conn). (d.id ≡ c.id) × (has_callback d ≤ has_callback c)) (sym (if-true _ _ x))
        (refl, omega arith)
  | inr x ↦
      subst (λ (d : Conn). (d.id ≡ c.id) × (has_callback d ≤ has_callback c)) (sym (if-false _ _ x))
        (refl, omega arith)
]
