-- ===== src/BufferSize.antt =====
-- source/io/global/Configuration.cpp, `buffer_size_detail` on Linux: the search for the least and the
-- largest size of a socket's buffer. What libuv's accessor sets and reads back is a parameter. Sizes
-- are below 2^31, where the conversions to `int` keep them.
pub mod Search
pub mod Limits
mod Tests
use tarm_io.Prelude.{
  ℕ, zero, suc, ◌+◌, ◌*◌, ◌/◌, ◌%◌, ◌^◌, Bool, true, false, not, ◌&&◌, Option, none, some, ltb,
  ◌==◌, if◌then◌else◌,
}

-- The accessor: whether a size can be set, and the size that is read once it was.
pub record Accessor : Type 0 where
  pub sets : ℕ → Bool
  pub reads : ℕ → Option ℕ

abbrev pub size_multiplier : ℕ
size_multiplier = 2

abbrev pub reads_back : Option ℕ → ℕ → Bool
reads_back none size = false
reads_back (some read) size = read == size * size_multiplier

pub is_buffer_size_available : Accessor → ℕ → Bool
is_buffer_size_available a size =
    if size == 0 then false else if not (a.sets size) then false else reads_back (a.reads size) size

-- What each call of libuv returns, 0 if it succeeds. The source returns 0 for a failure as well.
pub init_handle_for_buffer_size : ℕ → ℕ → ℕ → ℕ
init_handle_for_buffer_size loop_error init_error bind_error =
    if not (loop_error == 0)
    then 0
    else if not (init_error == 0)
    then 0
    else if not (bind_error == 0)
    then 0
    else 0

pub data BufferSizeSearchDirection : Type 0 where
  min_size max_size : BufferSizeSearchDirection

abbrev pub middle : ℕ → ℕ → ℕ
middle lower upper = ((upper + lower) % 2 ^ 64) / 2

-- The bounds after a round.
pub narrow : Bool → BufferSizeSearchDirection → ℕ → ℕ → ℕ × ℕ
narrow true min_size lower upper = (lower, middle lower upper)
narrow true max_size lower upper = (middle lower upper, upper)
narrow false min_size lower upper = (middle lower upper, upper)
narrow false max_size lower upper = (lower, middle lower upper)

pub choose : Bool → BufferSizeSearchDirection → ℕ → ℕ → ℕ
choose true min_size lower upper = lower
choose false min_size lower upper = upper
choose true max_size lower upper = upper
choose false max_size lower upper = lower

abbrev pub candidate : BufferSizeSearchDirection → ℕ → ℕ → ℕ
candidate min_size lower upper = lower
candidate max_size lower upper = upper

-- (std::numeric_limits<int>::max)() / 2
abbrev pub upper_limit : ℕ
upper_limit = 2147483647 / 2

module _ (available : ℕ → Bool) where
  pub bound_loop : ℕ → BufferSizeSearchDirection → ℕ × ℕ → ℕ × ℕ
  bound_loop zero direction b = b
  bound_loop (suc fuel) direction (lower, upper) = elim (ltb (lower + 1) upper) [
    | false ↦ (lower, upper)
    | true ↦
        bound_loop fuel direction (narrow (available (middle lower upper)) direction lower upper)
  ]

  -- Each round makes the bounds closer, so that the fuel is enough.
  pub bound_buffer_size : ℕ → ℕ → BufferSizeSearchDirection → ℕ
  bound_buffer_size lower upper direction =
      let b = bound_loop upper direction (lower, upper) in
      choose (available (candidate direction b.0 b.1)) direction b.0 b.1

  -- The loop that doubles the upper bound.
  pub double_loop : ℕ → ℕ → ℕ
  double_loop zero upper = upper
  double_loop (suc fuel) upper = elim (available upper && ltb upper upper_limit) [
    | false ↦ upper
    | true ↦ double_loop fuel (upper * 2)
  ]

pub min_buffer_size : Accessor → ℕ → ℕ → ℕ
min_buffer_size a init_error default_value =
    if not (init_error == 0)
    then 0
    else bound_buffer_size (is_buffer_size_available a) 0 default_value min_size

-- 31 doublings of a size that is not 0 pass the limit.
pub max_buffer_size : Accessor → ℕ → ℕ → ℕ
max_buffer_size a init_error default_value =
    if not (init_error == 0)
    then 0
    else bound_buffer_size (is_buffer_size_available a) default_value
        (double_loop (is_buffer_size_available a) 31 default_value) max_size

-- The size that is read is not halved.
pub default_buffer_size : ℕ → Option ℕ → ℕ
default_buffer_size init_error none = 0
default_buffer_size init_error (some size_value) = if not (init_error == 0) then 0 else size_value
