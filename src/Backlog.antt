-- ===== src/Backlog.antt =====
-- source/io/BacklogWithTimeout.h: items in buckets, each bucket with a timer of half the time of the
-- one before it. A timer is its time in milliseconds. The time of an item, the clock and what the
-- expiry callback does to the backlog are parameters, as they are in the source.
pub mod Timers
pub mod Buckets
pub mod Rounds
pub mod Adding
mod Tests
use tarm_io.Prelude.{
  ℕ, zero, suc, ◌+◌, ◌-◌, ◌*◌, ◌/◌, ◌%◌, ◌^◌, Bool, true, false, not, Option, none, some, List, [],
  ◌∷◌, ◌++◌, length, ltb, leb, ◌==◌, if◌then◌else◌, get_elem?,
}

pub record Backlog (T : Type 0) : Type 0 where
  pub entity_timeout : ℕ
  pub timers : List ℕ
  pub items : List (List T)

abbrev pub u64 : ℕ → ℕ
u64 n = n % 2 ^ 64

abbrev pub sub_u64 : ℕ → ℕ → ℕ
sub_u64 a b = (a + 2 ^ 64 - b) % 2 ^ 64

abbrev pub nanoseconds : ℕ → ℕ
nanoseconds ms = u64 (ms * 1000000)

-- The `do` loop of the constructor: a timer, and the others while half of its time is more than 1.
pub timer_list : ℕ → ℕ → List ℕ
timer_list zero timeout = timeout ∷ []
timer_list (suc fuel) timeout =
    let rest = timer_list fuel (timeout / 2) in
    if ltb 1 (timeout / 2) then timeout ∷ rest else timeout ∷ []

abbrev pub empty_buckets : {T : Type 0} → List ℕ → List (List T)
empty_buckets [] = []
empty_buckets (t ∷ ts) = [] ∷ empty_buckets ts

-- The constructor; half of a number is smaller than it, so that the fuel is enough.
pub init : {T : Type 0} → ℕ → Backlog T
init timeout = record {
  entity_timeout = nanoseconds timeout;
  timers = timer_list timeout timeout;
  items = empty_buckets (timer_list timeout timeout);
}

abbrev pub last : ℕ → List ℕ → ℕ
last t [] = t
last t (u ∷ us) = last u us

abbrev pub search : ℕ → ℕ → List ℕ → Option ℕ
search i time [] = none
search i time (t ∷ ts) = if leb (nanoseconds t) time then some i else search (suc i) time ts

abbrev pub found_or : Option ℕ → ℕ → ℕ
found_or (some i) d = i
found_or none d = d

-- With an assertion that there are timers.
pub bucket_index_from_time : List ℕ → ℕ → ℕ
bucket_index_from_time [] time = 0
bucket_index_from_time (t ∷ ts) time =
    if leb (sub_u64 t (time / 1000000)) (last t ts)
    then 0
    else found_or (search 1 time ts) (length ts)

module _ {T : Type 0} where
  abbrev pub push_at : ℕ → T → List (List T) → List (List T)
  push_at n t [] = []
  push_at zero t (b ∷ bs) = (b ++ t ∷ []) ∷ bs
  push_at (suc n) t (b ∷ bs) = b ∷ push_at n t bs

  abbrev pub put_at : ℕ → List T → List (List T) → List (List T)
  put_at n c [] = []
  put_at zero c (b ∷ bs) = c ∷ bs
  put_at (suc n) c (b ∷ bs) = b ∷ put_at n c bs

  abbrev pub bucket : ℕ → List (List T) → List T
  bucket n [] = []
  bucket zero (b ∷ bs) = b
  bucket (suc n) (b ∷ bs) = bucket n bs

  -- `erase` of what `std::find` finds.
  abbrev pub erase_first : (T → Bool) → List T → Option (List T)
  erase_first p [] = none
  erase_first p (x ∷ xs) =
      if p x then some xs else elim (erase_first p xs) [ none ↦ none | some ys ↦ some (x ∷ ys) ]

  abbrev pub erase_in : (T → Bool) → List (List T) → Option (List (List T))
  erase_in p [] = none
  erase_in p (b ∷ bs) = elim (erase_first p b) [
    | some c ↦ some (c ∷ bs)
    | none ↦ elim (erase_in p bs) [ none ↦ none | some cs ↦ some (b ∷ cs) ]
  ]

  -- `p` is the comparison with the item to remove.
  pub remove_item : Backlog T → (T → Bool) → Backlog T × Bool
  remove_item s p = elim (erase_in p s.items) [
    | none ↦ (s, false)
    | some bs ↦ (record s { items = bs }, true)
  ]

  pub stop : Backlog T → Backlog T
  stop s = record { entity_timeout = 0; timers = []; items = [] }

abbrev pub is_empty : {A : Type 0} → List A → Bool
is_empty [] = true
is_empty (x ∷ xs) = false

-- What a call returns: the backlog, and the items that the expiry callback was called with.
pub data Outcome (T : Type 0) : Type 0 where
  returned : Backlog T → List T → Outcome T
  stuck : Outcome T

abbrev pub expired_first : {T : Type 0} → T → Outcome T → Outcome T
expired_first t (returned s ts) = returned s (t ∷ ts)
expired_first t stuck = stuck

module _ {T : Type 0} (time_of : T → ℕ) (on_expired : Backlog T → T → Backlog T) where
  pub add_item : ℕ → Backlog T → T → Backlog T × Bool × List T
  add_item now s t =
      if ltb now (time_of t)
      then (s, false, [])
      else if is_empty s.timers
      then (s, false, [])
      else if leb s.entity_timeout (now - time_of t)
      then (let s' = on_expired s t in (s', not (is_empty s'.timers), t ∷ []))
      else let index = bucket_index_from_time s.timers (s.entity_timeout - (now - time_of t)) in
        (record s { items = push_at index t s.items }, true, [])

  -- A round of the loop of `on_timer` for the item `t`: what the loop goes on with.
  pub round : (Backlog T → List T → Outcome T) → ℕ → ℕ → Backlog T → List T → T → Outcome T
  round next now index s kept t =
      let diff = sub_u64 now (time_of t) in
      if leb s.entity_timeout diff
      then (let s' = on_expired s t in
          expired_first t (if is_empty s'.timers then returned s' [] else next s' kept))
      else let j = bucket_index_from_time s.timers (s.entity_timeout - diff) in
        if j == index
        then next s (kept ++ t ∷ [])
        else next (record s { items = push_at j t s.items }) kept

  pub at_item : (Backlog T → List T → Outcome T) → ℕ → ℕ → Backlog T → List T → Option T → Outcome T
  at_item next now index s kept none = returned (record s { items = put_at index kept s.items }) []
  at_item next now index s kept (some t) = round next now index s kept t

  -- The loop reads the bucket anew in each round; `clock i` is the time in round `i`.
  pub on_timer_loop : (ℕ → ℕ) → ℕ → ℕ → ℕ → Backlog T → List T → Outcome T
  on_timer_loop clock index zero i s kept = stuck
  on_timer_loop clock index (suc fuel) i s kept =
      at_item (λ s' kept'. on_timer_loop clock index fuel (suc i) s' kept') (clock i) index s kept
        (get_elem? (bucket index s.items) i)

  -- A callback that adds to the bucket keeps the loop going; the fuel is for one that does not.
  pub on_timer : (ℕ → ℕ) → ℕ → Backlog T → Outcome T
  on_timer clock index s = on_timer_loop clock index (suc (length (bucket index s.items))) 0 s []
