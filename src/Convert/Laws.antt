-- ===== src/Convert/Laws.antt =====
-- Reading the text of an IPv4 address, source/io/Convert.cpp.
use mathlib.Core.List.{append_assoc, append-nil}
use tarm_io.Prelude.{
  ℕ, ◌+◌, ◌-◌, ◌*◌, ◌/◌, ◌%◌, ◌^◌, ◌<◌, ◌≡◌, refl, sym, ap, ◌∙◌, inl, inr, Bool, true, false, not,
  ◌&&◌, leb, ltb, List, [], ◌∷◌, ◌++◌, if◌then◌else◌, if-true, if-false, Bool-cases, bit_and, arith,
}
use tarm_io.Prelude.Bits.{bit_and_split, bit_and-zero, bit_and_low_mask}
use tarm_io.Convert.{push_byte_as_str, ip4_addr_to_string}

abbrev is_digit : ℕ → Bool
is_digit c = leb b'0' c && leb c b'9'

-- A decimal number and the rest of the text.
pub read_number : ℕ → List ℕ → ℕ × List ℕ
read_number n [] = (n, [])
read_number n (c ∷ cs) =
    let more = read_number (n * 10 + (c - b'0')) cs in if is_digit c then more else (n, c ∷ cs)

abbrev skip : List ℕ → List ℕ
skip [] = []
skip (c ∷ cs) = cs

-- Four decimal numbers with one character between two of them, as the bytes of an address, the highest first.
pub read_ip4 : List ℕ → ℕ
unfolding read_number
read_ip4 l =
    let a = read_number 0 l in
    let b = read_number 0 (skip a.1) in
    let c = read_number 0 (skip b.1) in
    let d = read_number 0 (skip c.1) in ((a.0 * 256 + b.0) * 256 + c.0) * 256 + d.0

-- What the byte adds.
abbrev decimal : ℕ → List ℕ
decimal b = push_byte_as_str [] b

push_byte-append : (s : List ℕ) (b : ℕ) → push_byte_as_str s b ≡ s ++ decimal b
unfolding push_byte_as_str
push_byte-append s b = elim (Bool-cases (not (ltb b 100))) [
  | inl x ↦ if-true _ _ x ∙ ap (λ l. s ++ l) (sym (if-true _ _ x))
  | inr x ↦ elim (Bool-cases (not (ltb b 10))) [
    | inl y ↦
        if-false _ _ x ∙ if-true _ _ y ∙ ap (λ l. s ++ l) (sym (if-false _ _ x ∙ if-true _ _ y))
    | inr y ↦
        if-false _ _ x ∙ if-false _ _ y ∙ ap (λ l. s ++ l) (sym (if-false _ _ x ∙ if-false _ _ y))
  ]
]

-- The text ends, or goes on with something else than a digit.
abbrev Stops : List ℕ → Type 0
Stops [] = Unit {0}
Stops (c ∷ cs) = is_digit c ≡ false

read_stop : (n : ℕ) (l : List ℕ) → Stops l → read_number n l ≡ (n, l)
unfolding read_number
read_stop n [] h = refl
read_stop n (c ∷ cs) h = if-false _ _ h

read_digit :
    (n d : ℕ) (l : List ℕ) → d < 10 → read_number n ((d + b'0') ∷ l) ≡ read_number (n * 10 + d) l
unfolding read_number
read_digit n d l h =
    let x : is_digit (d + b'0') ≡ true = ground arith in
    let e : n * 10 + (d + b'0' - b'0') ≡ n * 10 + d = omega arith in
    if-true _ _ x ∙ ap (λ m. read_number m l) e

read-decimal : (b : ℕ) (l : List ℕ) → b < 256 → Stops l → read_number 0 (decimal b ++ l) ≡ (b, l)
unfolding push_byte_as_str
read-decimal b l h s = elim (Bool-cases (not (ltb b 100))) [
  | inl x ↦
      ap (λ t. read_number 0 (t ++ l)) (if-true _ _ x)
      ∙ read_digit 0 (b / 100) _ (omega arith)
      ∙ read_digit (0 * 10 + b / 100) (b % 100 / 10) _ (omega arith)
      ∙ read_digit ((0 * 10 + b / 100) * 10 + b % 100 / 10) (b % 10) l (omega arith)
      ∙ read_stop _ l s
      ∙ ap (λ n. (n, l)) (omega arith)
  | inr x ↦ elim (Bool-cases (not (ltb b 10))) [
    | inl y ↦
        ap (λ t. read_number 0 (t ++ l)) (if-false _ _ x ∙ if-true _ _ y)
        ∙ read_digit 0 (b % 100 / 10) _ (omega arith)
        ∙ read_digit (0 * 10 + b % 100 / 10) (b % 10) l (omega arith)
        ∙ read_stop _ l s
        ∙ ap (λ n. (n, l)) (let e : b < 100 = ground arith in omega (arith, e))
    | inr y ↦
        ap (λ t. read_number 0 (t ++ l)) (if-false _ _ x ∙ if-false _ _ y)
        ∙ read_digit 0 (b % 10) l (omega arith)
        ∙ read_stop _ l s
        ∙ ap (λ n. (n, l)) (let e : b < 10 = ground arith in omega (arith, e))
  ]
]

-- The masks and shifts take a byte out.
byte_at : (k q r : ℕ) → r < 2 ^ k → bit_and (q * 2 ^ k + r) (255 * 2 ^ k + 0) ≡ q % 256 * 2 ^ k
byte_at k q r h =
    let split = bit_and_split k q r 255 0 h (omega (arith, h)) in
    let low = bit_and_low_mask 8 (q / 256) (q % 256) (omega arith) in
    let whole : q / 256 * 2 ^ 8 + q % 256 ≡ q = omega arith in
    let e : bit_and q 255 ≡ q % 256 = ap (λ x. bit_and x 255) (sym whole) ∙ low in
    split
    ∙ ap (λ x. x * 2 ^ k + bit_and r 0) e
    ∙ ap (λ x. q % 256 * 2 ^ k + x) (bit_and-zero r)
    ∙ omega arith

byte_3 : (a : ℕ) → a < 2 ^ 32 → bit_and a 0xFF000000 / 2 ^ 24 ≡ a / 2 ^ 24
byte_3 a h =
    let whole : a / 2 ^ 24 * 2 ^ 24 + a % 2 ^ 24 ≡ a = omega arith in
    let e =
      ap (λ x. bit_and x 0xFF000000) (sym whole)
      ∙ byte_at 24 (a / 2 ^ 24) (a % 2 ^ 24) (omega arith) in
    omega (arith, e)

byte_2 : (a : ℕ) → bit_and a 0x00FF0000 / 2 ^ 16 ≡ a / 2 ^ 16 % 256
byte_2 a =
    let whole : a / 2 ^ 16 * 2 ^ 16 + a % 2 ^ 16 ≡ a = omega arith in
    let e =
      ap (λ x. bit_and x 0x00FF0000) (sym whole)
      ∙ byte_at 16 (a / 2 ^ 16) (a % 2 ^ 16) (omega arith) in
    omega (arith, e)

byte_1 : (a : ℕ) → bit_and a 0x0000FF00 / 2 ^ 8 ≡ a / 2 ^ 8 % 256
byte_1 a =
    let whole : a / 2 ^ 8 * 2 ^ 8 + a % 2 ^ 8 ≡ a = omega arith in
    let e =
      ap (λ x. bit_and x 0x0000FF00) (sym whole)
      ∙ byte_at 8 (a / 2 ^ 8) (a % 2 ^ 8) (omega arith) in
    omega (arith, e)

byte_0 : (a : ℕ) → bit_and a 0x000000FF ≡ a % 256
byte_0 a =
    let whole : a / 2 ^ 8 * 2 ^ 8 + a % 2 ^ 8 ≡ a = omega arith in
    ap (λ x. bit_and x 0xFF) (sym whole)
    ∙ bit_and_low_mask 8 (a / 2 ^ 8) (a % 2 ^ 8) (omega arith)
    ∙ omega arith

-- Four bytes with dots between them.
abbrev dotted : ℕ → ℕ → ℕ → ℕ → List ℕ
dotted a b c d = decimal a ++ b'.' ∷ (decimal b ++ b'.' ∷ (decimal c ++ b'.' ∷ (decimal d ++ [])))

join : (s : List ℕ) (b : ℕ) → push_byte_as_str (s ++ b'.' ∷ []) b ≡ s ++ b'.' ∷ decimal b
join s b = push_byte-append (s ++ b'.' ∷ []) b ∙ append_assoc s (b'.' ∷ []) (decimal b)

four_pushes :
    (a b c d : ℕ)
    → push_byte_as_str
        (push_byte_as_str (push_byte_as_str (push_byte_as_str [] a ++ b'.' ∷ []) b ++ b'.' ∷ []) c
          ++ b'.' ∷ [])
        d
      ≡ dotted a b c d
four_pushes a b c d =
    let s = decimal a ++ b'.' ∷ decimal b in
    let more = b'.' ∷ decimal d in
    ap (λ l. push_byte_as_str (push_byte_as_str (l ++ b'.' ∷ []) c ++ b'.' ∷ []) d)
      (join (decimal a) b)
    ∙ ap (λ l. push_byte_as_str (l ++ b'.' ∷ []) d) (join s c)
    ∙ join (s ++ b'.' ∷ decimal c) d
    ∙ append_assoc s (b'.' ∷ decimal c) more
    ∙ append_assoc (decimal a) (b'.' ∷ decimal b) (b'.' ∷ (decimal c ++ more))
    ∙ ap (λ l. decimal a ++ b'.' ∷ (decimal b ++ b'.' ∷ (decimal c ++ b'.' ∷ l)))
        (sym (append-nil (decimal d)))

ip4-dotted :
    (addr : ℕ)
    → addr < 2 ^ 32
    → ip4_addr_to_string addr
      ≡ dotted (addr / 2 ^ 24) (addr / 2 ^ 16 % 256) (addr / 2 ^ 8 % 256) (addr % 256)
unfolding ip4_addr_to_string
ip4-dotted addr h =
    four_pushes (bit_and addr 0xFF000000 / 2 ^ 24) (bit_and addr 0x00FF0000 / 2 ^ 16)
      (bit_and addr 0x0000FF00 / 2 ^ 8) (bit_and addr 0x000000FF)
    ∙ ap
        (λ x.
          dotted x (bit_and addr 0x00FF0000 / 2 ^ 16) (bit_and addr 0x0000FF00 / 2 ^ 8)
            (bit_and addr 0x000000FF))
        (byte_3 addr h)
    ∙ ap (λ x. dotted (addr / 2 ^ 24) x (bit_and addr 0x0000FF00 / 2 ^ 8) (bit_and addr 0x000000FF))
        (byte_2 addr)
    ∙ ap (λ x. dotted (addr / 2 ^ 24) (addr / 2 ^ 16 % 256) x (bit_and addr 0x000000FF))
        (byte_1 addr)
    ∙ ap (λ x. dotted (addr / 2 ^ 24) (addr / 2 ^ 16 % 256) (addr / 2 ^ 8 % 256) x) (byte_0 addr)

-- What is read after the first numbers.
abbrev read_fourth : ℕ → List ℕ → ℕ
read_fourth n l = n * 256 + (read_number 0 l).0

abbrev read_third : ℕ → List ℕ → ℕ
read_third n l = let c = read_number 0 l in read_fourth (n * 256 + c.0) (skip c.1)

abbrev read_second : ℕ → List ℕ → ℕ
read_second n l = let b = read_number 0 l in read_third (n * 256 + b.0) (skip b.1)

read_ip4-dotted :
    (a b c d : ℕ)
    → a < 256
    → b < 256
    → c < 256
    → d < 256
    → read_ip4 (dotted a b c d) ≡ ((a * 256 + b) * 256 + c) * 256 + d
unfolding read_ip4
read_ip4-dotted a b c d ha hb hc hd =
    ap (λ (r : ℕ × List ℕ). read_second r.0 (skip r.1)) (read-decimal a _ ha refl)
    ∙ ap (λ (r : ℕ × List ℕ). read_third (a * 256 + r.0) (skip r.1)) (read-decimal b _ hb refl)
    ∙ ap (λ (r : ℕ × List ℕ). read_fourth ((a * 256 + b) * 256 + r.0) (skip r.1))
        (read-decimal c _ hc refl)
    ∙ ap (λ (r : ℕ × List ℕ). ((a * 256 + b) * 256 + c) * 256 + r.0) (read-decimal d [] hd tt)

-- The text of an address of 32 bits, read as four decimal numbers with one character between two of them, is the address.
pub read_ip4-ip4_addr_to_string :
    (addr : ℕ) → addr < 2 ^ 32 → read_ip4 (ip4_addr_to_string addr) ≡ addr
read_ip4-ip4_addr_to_string addr h =
    ap read_ip4 (ip4-dotted addr h)
    ∙ read_ip4-dotted (addr / 2 ^ 24) (addr / 2 ^ 16 % 256) (addr / 2 ^ 8 % 256) (addr % 256)
        (omega arith) (omega arith) (omega arith) (omega arith)
    ∙ omega arith
