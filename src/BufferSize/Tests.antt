-- ===== src/BufferSize/Tests.antt =====
-- Sizes from 10 to 100 are available.
use tarm_io.Prelude.{◌*◌, ◌≡◌, refl, ◌&&◌, leb, some}
use tarm_io.BufferSize.{
  Accessor, is_buffer_size_available, bound_loop, bound_buffer_size, narrow, choose, double_loop,
  min_buffer_size, max_buffer_size,
}

abbrev socket : Accessor
socket = record { sets = λ n. leb 10 n && leb n 100; reads = λ n. some (n * 2) }

least : min_buffer_size socket 0 64 ≡ 10
unfolding min_buffer_size bound_buffer_size bound_loop narrow choose is_buffer_size_available
least = refl

largest : max_buffer_size socket 0 64 ≡ 100
unfolding max_buffer_size bound_buffer_size bound_loop narrow choose double_loop
    is_buffer_size_available
largest = refl
