-- ===== src/TcpWrites/Laws.antt =====
-- Requests and their answers, source/io/net/detail/TcpClientImplBase.h.
use mathlib.Core.Path.{subst}
use tarm_io.Prelude.{
  ℕ, ◌+◌, ◌-◌, ◌≤◌, ◌≡◌, refl, sym, ap, ◌∙◌, arith, Bool, not, ◌||◌, Bool-cases, List, [], ◌∷◌,
  ◌++◌, length, length-append, ◌==◌, if◌then◌else◌, if-true, if-false, inl, inr,
}
use tarm_io.StatusCode.{StatusCode, number, ok, not_connected, invalid_argument}
use tarm_io.TcpWrites.{Request, Answer, Stream, init, answer, send_data_impl, after_write}

-- Whether a request has a callback and this id.
abbrev pub one : ℕ → Request → ℕ
one i r = if r.has_callback then (if r.id == i then 1 else 0) else 0

-- How many of the requests have a callback and this id.
abbrev pub listening : ℕ → List Request → ℕ
listening i [] = 0
listening i (r ∷ rs) = one i r + listening i rs

-- How many of the answers are to this id.
abbrev pub answered : ℕ → List Answer → ℕ
answered i [] = 0
answered i (a ∷ l) = (if a.id == i then 1 else 0) + answered i l

listening-append :
    (i : ℕ) (rs qs : List Request) → listening i (rs ++ qs) ≡ listening i rs + listening i qs
listening-append i [] qs = omega arith
listening-append i (r ∷ rs) qs = omega (arith, listening-append i rs qs)

answered-append : (i : ℕ) (l bs : List Answer) → answered i (l ++ bs) ≡ answered i l + answered i bs
answered-append i [] bs = omega arith
answered-append i (a ∷ l) bs = omega (arith, answered-append i l bs)

-- Of the id `i`; `asked` is how many sends there were with it and with a callback.
abbrev pub IsValid : ℕ → Stream → ℕ → Type 0
IsValid i s asked =
    (s.pending_write_requests ≡ length s.in_flight)
    × (answered i s.answers + listening i s.in_flight ≡ asked)

answer-IsValid :
    (i : ℕ) (s : Stream) (r : Request) (c : StatusCode) (asked : ℕ)
    → IsValid i s asked
    → IsValid i (answer s r c) (asked + one i r)
answer-IsValid i s r c asked (p, a) = elim (Bool-cases r.has_callback) [
  | inl x ↦
      let counts : one i r ≡ (if r.id == i then 1 else 0) = if-true _ 0 x in
      subst (λ t. IsValid i t (asked + one i r)) (sym (if-true _ _ x))
        (
          p,
          omega
              (arith, counts, answered-append i s.answers (record { id = r.id; status = c } ∷ [])),
        )
  | inr x ↦
      let counts : one i r ≡ 0 = if-false _ 0 x in
      subst (λ t. IsValid i t (asked + one i r)) (sym (if-false _ _ x)) (p, omega (arith, counts))
]

send-IsValid :
    (i : ℕ) (s : Stream) (r : Request) (size : ℕ) (b : Bool) (c : StatusCode) (asked : ℕ)
    → IsValid i s asked
    → IsValid i (send_data_impl s r size b c) (asked + one i r)
unfolding send_data_impl
send-IsValid i s r size b c asked h = elim (Bool-cases (not s.is_open)) [
  | inl x ↦
      subst (λ t. IsValid i t (asked + one i r)) (sym (if-true _ _ x))
        (answer-IsValid i s r not_connected asked h)
  | inr x ↦ elim (Bool-cases ((size == 0) || not b)) [
    | inl y ↦
        subst (λ t. IsValid i t (asked + one i r)) (sym (if-false _ _ x ∙ if-true _ _ y))
          (answer-IsValid i s r invalid_argument asked h)
    | inr y ↦ elim (Bool-cases (not (number c == number ok))) [
      | inl z ↦
          subst (λ t. IsValid i t (asked + one i r))
            (sym (if-false _ _ x ∙ if-false _ _ y ∙ if-true _ _ z)) (answer-IsValid i s r c asked h)
      | inr z ↦
          subst (λ t. IsValid i t (asked + one i r))
            (sym (if-false _ _ x ∙ if-false _ _ y ∙ if-false _ _ z))
            (
              omega (arith, h.0, length-append s.in_flight (r ∷ [])),
              omega (arith, h.1, listening-append i s.in_flight (r ∷ [])),
            )
    ]
  ]
]

-- The request `r` stands between `before` and `behind`.
finish-IsValid :
    (i : ℕ) (s : Stream) (r : Request) (before behind : List Request) (c : StatusCode) (asked : ℕ)
    → s.in_flight ≡ before ++ r ∷ behind
    → IsValid i s asked
    → (1 ≤ s.pending_write_requests) × IsValid i (after_write s r (before ++ behind) c) asked
unfolding after_write
finish-IsValid i s r before behind c asked e (p, a) =
    let all : length s.in_flight ≡ length (before ++ r ∷ behind) = ap length e in
    let heard : listening i s.in_flight ≡ listening i (before ++ r ∷ behind) = ap (listening i) e in
    let len = length-append before (r ∷ behind) in
    let len' = length-append before behind in
    let sum = listening-append i before (r ∷ behind) in
    let sum' = listening-append i before behind in
    let rest : Stream = record s {
      pending_write_requests = s.pending_write_requests - 1;
      in_flight = before ++ behind;
    } in
    let left : ℕ = asked - one i r in
    let whole : left + one i r ≡ asked = omega arith in
    (
      omega arith,
      subst (IsValid i (answer rest r c)) whole
          (answer-IsValid i rest r c left (omega arith, omega arith)),
    )

-- A send, the end of a write in any order, and the opening or closing of the stream at any time. The
-- list has the requests of all sends.
pub data Step : Stream → List Request → Stream → List Request → Type 0 where
  send :
      (s : Stream) (rs : List Request) (r : Request) (size : ℕ) (b : Bool) (c : StatusCode)
      → Step s rs (send_data_impl s r size b c) (r ∷ rs)
  finish :
      (s : Stream) (rs : List Request) (r : Request) (before behind : List Request) (c : StatusCode)
      → s.in_flight ≡ before ++ r ∷ behind
      → Step s rs (after_write s r (before ++ behind) c) rs
  opens : (s : Stream) (rs : List Request) (b : Bool) → Step s rs (record s { is_open = b }) rs

pub data Steps : Stream → List Request → Stream → List Request → Type 0 where
  stop : (s : Stream) (rs : List Request) → Steps s rs s rs
  go :
      (s t u : Stream) (rs qs ps : List Request)
      → Step s rs t qs
      → Steps t qs u ps
      → Steps s rs u ps

step-IsValid :
    (i : ℕ) (s t : Stream) (rs qs : List Request)
    → Step s rs t qs
    → IsValid i s (listening i rs)
    → IsValid i t (listening i qs)
step-IsValid i _ _ _ _ (send s rs r size b c) h =
    let sent = send-IsValid i s r size b c (listening i rs) h in (sent.0, omega (arith, sent.1))
step-IsValid i _ _ _ _ (finish s rs r before behind c e) h =
    (finish-IsValid i s r before behind c (listening i rs) e h).1
step-IsValid i _ _ _ _ (opens s rs b) h = h

Steps-IsValid :
    (i : ℕ) (s t : Stream) (rs qs : List Request)
    → Steps s rs t qs
    → IsValid i s (listening i rs)
    → IsValid i t (listening i qs)
Steps-IsValid i _ _ _ _ (stop s rs) h = h
Steps-IsValid i _ _ _ _ (go s t u rs qs ps x xs) h =
    Steps-IsValid i t u qs ps xs (step-IsValid i s t rs qs x h)

-- Whatever is sent, however libuv ends the writes and whenever the stream opens or closes: the
-- counter of pending writes is the number of requests that libuv has, and for every id, the sends with that id and with a
-- callback are as many as the answers to that id and the requests in flight with it and with a callback. So where
-- the ids differ, each send with a callback is in flight or was answered once, under its own id.
pub Steps-answers :
    (i : ℕ) (s : Stream) (rs : List Request)
    → Steps init [] s rs
    → (s.pending_write_requests ≡ length s.in_flight)
      × (answered i s.answers + listening i s.in_flight ≡ listening i rs)
Steps-answers i s rs xs = Steps-IsValid i init s [] rs xs (refl, refl)

-- The assertion of `after_write` holds: when libuv ends a write there is one that is pending.
pub after_write_pending :
    (s : Stream) (rs : List Request) (r : Request) (before behind : List Request)
    → Steps init [] s rs
    → s.in_flight ≡ before ++ r ∷ behind
    → 1 ≤ s.pending_write_requests
after_write_pending s rs r before behind xs e =
    (finish-IsValid r.id s r before behind ok (listening r.id rs) e (Steps-answers r.id s rs xs)).0
