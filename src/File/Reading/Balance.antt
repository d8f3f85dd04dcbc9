-- ===== src/File/Reading/Balance.antt =====
-- The balance between the read buffers of source/io/fs/File.cpp that are in use and the calls that keep
-- the loop from its end.
use tarm_io.Prelude.{
  ℕ, suc, ◌-◌, ◌≤◌, ◌≡◌, ◌∙◌, Bool, true, false, Option, none, some, List, length, get_elem?, arith,
}
use tarm_io.File.{File, Buffer, free, reading, held, Event, logs, call_if}
use tarm_io.File.Reading.{set}
use tarm_io.File.Reading.Buffers.{bit, used, pending, total, total-set, length-set}

-- The loop is kept from its end once for each buffer in use, and libuv reads into one buffer at most, and
-- only while `read_in_progress` is set.
abbrev pub Fits : List Buffer → ℕ → Bool → Type 0
Fits bs blocks flag = (blocks ≡ total used bs) × (total pending bs ≤ bit flag) × (length bs ≡ 4)

abbrev pub IsBalanced : File → Type 0
IsBalanced s = Fits s.buffers s.blocks s.read_in_progress

-- `none` is a call that does not come back.
abbrev pub Holds : (File → Type 0) → Option File → Type 0
Holds P none = Unit
Holds P (some s) = P s

abbrev pub Keeps : (File → File) → Type 0
Keeps f = (s : File) → IsBalanced s → IsBalanced (f s)

abbrev pub KeepsOption : (File → Option File) → Type 0
KeepsOption f = (s : File) → IsBalanced s → Holds IsBalanced (f s)

-- A buffer that is in use, and not read into before or after, changes hands.
pub Fits-hands :
    (bs : List Buffer) (i n : ℕ) (flag : Bool) (a b : Buffer)
    → get_elem? bs i ≡ some a
    → used a ≡ 1
    → used b ≡ 1
    → pending b ≡ 0
    → Fits bs n flag
    → Fits (set bs i b) n flag
Fits-hands bs i n flag a b g ua ub pb h = (
  omega (arith, h.0, total-set used bs i a b g),
  omega (arith, h.1, total-set pending bs i a b g),
  length-set bs i b ∙ h.2,
)

pub Fits-read :
    (bs : List Buffer) (i n : ℕ)
    → get_elem? bs i ≡ some free
    → Fits bs n false
    → Fits (set bs i reading) (suc n) true
Fits-read bs i n g h = (
  omega (arith, h.0, total-set used bs i free reading g),
  omega (arith, h.1, total-set pending bs i free reading g),
  length-set bs i reading ∙ h.2,
)

pub Fits-free :
    (bs : List Buffer) (i n : ℕ) (flag : Bool) (a : Buffer)
    → get_elem? bs i ≡ some a
    → used a ≡ 1
    → Fits bs n flag
    → Fits (set bs i free) (n - 1) flag
Fits-free bs i n flag a g ua h = (
  omega (arith, h.0, total-set used bs i a free g),
  omega (arith, h.1, total-set pending bs i a free g),
  length-set bs i free ∙ h.2,
)

-- The request that was pending is over.
pub Fits-over :
    (bs : List Buffer) (i n : ℕ) (flag flag' : Bool)
    → get_elem? bs i ≡ some reading
    → Fits bs n flag
    → Fits (set bs i held) n flag'
Fits-over bs i n true flag' g h = (
  omega (arith, h.0, total-set used bs i reading held g),
  omega (arith, h.1, total-set pending bs i reading held g),
  length-set bs i held ∙ h.2,
)
Fits-over bs i n false flag' g h =
    absurd (omega (arith, h.1, total-set pending bs i reading held g))

pub call_if-Keeps :
    (b : Bool) (e : Event) (calls : File → File) → Keeps calls → Keeps (call_if b e calls)
call_if-Keeps true e calls k s h = k (logs e s) h
call_if-Keeps false e calls k s h = h
