-- ===== src/Buffer.antt =====
-- NetworkInfra/src/buffer.h, buffer.cpp and endian_utils.h: a byte buffer with a prependable,
-- a readable and a writable part.
-- The two indices cut the block `buf` in three. `size_t` sums are below 2 ^ 64 while the block fits
-- in memory, so they are plain numbers here. A check that fails does not return normally.
pub mod Words
pub mod Contents
pub mod Reserving
pub mod Operations
pub mod Fifo
pub mod ReadFd
pub mod Iterator
mod Tests
use eureka.Common.{
  ℕ, ◌+◌, ◌-◌, ◌≤◌, List, ◌++◌, length, take, drop, replicate, copy_at, resize, Result, ok, ◌>>=◌,
  ◌>>◌, ensure, check_failed, leb, ltb, if◌then◌else◌,
}
use Words.{Endian, to_wire, of_wire}

pub record Buffer : Type 0 where
  pub buf : List ℕ
  pub reader_index : ℕ
  pub writer_index : ℕ

abbrev pub default_prepend_size : ℕ
default_prepend_size = 8

abbrev pub default_initial_size : ℕ
default_initial_size = 1024

unfoldable pub new : ℕ → Buffer
new initial_size = record {
  buf = replicate (initial_size + default_prepend_size) 0;
  reader_index = default_prepend_size;
  writer_index = default_prepend_size;
}

unfoldable pub new_default : Buffer
unfolding new
new_default = new default_initial_size

abbrev pub prependable_size : Buffer → ℕ
prependable_size b = b.reader_index

abbrev pub readable_size : Buffer → ℕ
readable_size b = b.writer_index - b.reader_index

abbrev pub writable_size : Buffer → ℕ
writable_size b = length b.buf - b.writer_index

-- The vector grows, or the readable part moves to the front.
unfoldable pub reserve_writable : Buffer → ℕ → Buffer
reserve_writable b new_size =
    if leb new_size (writable_size b)
    then b
    else if ltb (prependable_size b + writable_size b) (default_prepend_size + new_size)
    then record b { buf = resize (b.writer_index + new_size) 0 b.buf }
    else record b {
      buf = copy_at b.buf default_prepend_size (take (readable_size b) (drop b.reader_index b.buf));
      reader_index = default_prepend_size;
      writer_index = default_prepend_size + readable_size b;
    }

-- `memcpy(BeginWrite(), data, size)`.
unfoldable pub begin_write : Buffer → List ℕ → Buffer
begin_write b bytes = record b { buf = copy_at b.buf b.writer_index bytes }

unfoldable pub end_write : Buffer → ℕ → Result Buffer
end_write b written_size = do
  ensure (leb written_size (writable_size b)) check_failed
  ok (record b { writer_index = b.writer_index + written_size })

unfoldable pub write : Buffer → List ℕ → Result Buffer
unfolding begin_write end_write
write b bytes = do
  let room = reserve_writable b (length bytes)
  ensure (leb (length bytes) (writable_size room)) check_failed
  end_write (begin_write room bytes) (length bytes)

unfoldable pub consume_all : Buffer → Buffer
consume_all b = record b {
  reader_index = default_prepend_size;
  writer_index = default_prepend_size;
}

unfoldable pub consume : Buffer → ℕ → Result Buffer
unfolding consume_all
consume b data_size = do
  ensure (leb data_size (readable_size b)) check_failed
  if ltb data_size (readable_size b)
      then ok (record b { reader_index = b.reader_index + data_size })
      else ok (consume_all b)

unfoldable pub prepend : Buffer → List ℕ → Result Buffer
prepend b bytes = do
  ensure (leb (length bytes) (prependable_size b)) check_failed
  let start = b.reader_index - length bytes
  ok (record b { buf = copy_at b.buf start bytes; reader_index = start })

-- The bytes that `n` items take from the reader's place on.
abbrev pub peek : Buffer → ℕ → List ℕ
peek b n = take n (drop b.reader_index b.buf)

unfoldable pub read_as_string : Buffer → ℕ → Result (List ℕ × Buffer)
read_as_string b n = do
  ensure (leb n (readable_size b)) check_failed
  rest ← consume b n
  ok (peek b n, rest)

unfoldable pub read_all_as_string : Buffer → List ℕ × Buffer
unfolding consume_all
read_all_as_string b = (peek b (readable_size b), consume_all b)

-- The overloads for integers of `k` bytes (1, 2, 4 and 8) on a host of byte order `e`.
module _ (e : Endian) (k : ℕ) where
  unfoldable pub write_int : Buffer → ℕ → Result Buffer
  write_int b n = write b (to_wire e k n)

  unfoldable pub prepend_int : Buffer → ℕ → Result Buffer
  prepend_int b n = prepend b (to_wire e k n)

  unfoldable pub peek_as_int : Buffer → Result ℕ
  peek_as_int b = do ensure (leb k (readable_size b)) check_failed; ok (of_wire e k (peek b k))

  unfoldable pub read_as_int : Buffer → Result (ℕ × Buffer)
  unfolding peek_as_int
  read_as_int b = do n ← peek_as_int b; rest ← consume b k; ok (n, rest)
