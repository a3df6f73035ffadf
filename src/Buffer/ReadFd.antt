-- ===== src/Buffer/ReadFd.antt =====
-- `ReadFD` of NetworkInfra/src/buffer.cpp. `readv` is the system's: a call is given by what it
-- answers, an error or the bytes that it scattered over the two blocks.
use native.Mathlib.Decide.{dec_le}
use eureka.Common.{
  ℕ, ◌+◌, ◌≤◌, ◌<◌, ◌≡◌, sym, ap, ◌∙◌, Option, none, some, List, ◌++◌, arith, length, take, drop,
  Result, ok, leb, ltb, le→leb, not_leb, ◌>>=◌, if◌then◌else◌, append_assoc, take_all,
  take-append-drop, length-take, length-copy_at, copy_at,
}
use eureka.Buffer.{Buffer, writable_size, begin_write, end_write, write}
use eureka.Buffer.Contents.{IsValid, contents}
use eureka.Buffer.Operations.{Gives, write_lem, contents-copy_at}

abbrev pub extra_buf_size : ℕ
extra_buf_size = 65535

-- The bytes that the call of `readv` can take.
unfoldable pub iovec_size : Buffer → ℕ
iovec_size b =
    if ltb (writable_size b) extra_buf_size
    then writable_size b + extra_buf_size
    else writable_size b

-- The first block is filled before the second.
unfoldable pub read_fd : Buffer → Option (List ℕ) → Result (Option ℕ × Buffer)
unfolding begin_write end_write
read_fd b none = ok (none, b)
read_fd b (some received) = do
  let writable = writable_size b
  let filled = begin_write b (take writable received)
  let size_read = length received
  c ←
      (if leb size_read writable
        then end_write filled size_read
        else end_write filled writable >>= (λ c. write c (drop writable received)))
  ok (some size_read, c)

-- The call that fits the writable part is a write of what was received.
abbrev pub Received : Buffer → List ℕ → Buffer → Type 0
Received b xs c =
    (read_fd b (some xs) ≡ ok (some (length xs), c)) × IsValid c × (contents c ≡ contents b ++ xs)

filled : Buffer → List ℕ → Buffer
filled b xs = record b {
  buf = copy_at b.buf b.writer_index xs;
  writer_index = b.writer_index + length xs;
}

filled-IsValid :
    (b : Buffer) (xs : List ℕ) → IsValid b → length xs ≤ writable_size b → IsValid (filled b xs)
unfolding filled
filled-IsValid b xs v h =
    let size = length-copy_at b.buf b.writer_index xs in
    record {
      ordered = omega (arith, v.ordered);
      within = omega (arith, v.within, size);
      spacious = omega (arith, v.spacious, size);
    }

contents-filled :
    (b : Buffer) (xs : List ℕ)
    → IsValid b
    → length xs ≤ writable_size b
    → contents (filled b xs) ≡ contents b ++ xs
unfolding filled
contents-filled b xs v h = contents-copy_at b xs v h

fits-Received :
    (b : Buffer) (xs : List ℕ)
    → IsValid b
    → length xs ≤ writable_size b
    → Received b xs (filled b xs)
unfolding read_fd filled
fits-Received b xs v h =
    let size = length-copy_at b.buf b.writer_index xs in
    let whole = take_all (writable_size b) xs h in
    (
      rw (
        le→leb (length xs) (writable_size b) h,
        whole,
        size,
        le→leb (length xs) (writable_size b) h,
      ),
      filled-IsValid b xs v h,
      contents-filled b xs v h,
    )

read_fd_spills :
    (b c : Buffer) (xs : List ℕ)
    → writable_size b < length xs
    → write (filled b (take (writable_size b) xs)) (drop (writable_size b) xs) ≡ ok c
    → read_fd b (some xs) ≡ ok (some (length xs), c)
unfolding read_fd filled
read_fd_spills b c xs h done =
    let n = writable_size b in
    let first = take n xs in
    let size : length first ≡ n = omega (arith, length-take n xs) in
    let blocks = length-copy_at b.buf b.writer_index first in
    let ended = λ (k : ℕ). record b {
      buf = copy_at b.buf b.writer_index first;
      writer_index = b.writer_index + k;
    } in
    let done' : write (ended n) (drop n xs) ≡ ok c =
      ap (λ k. write (ended k) (drop n xs)) (sym size) ∙ done in
    rw (not_leb (length xs) n h, blocks, le→leb n n (omega arith), done')

overflows-Received :
    (b : Buffer) (xs : List ℕ) → IsValid b → writable_size b < length xs → Gives (Received b xs)
overflows-Received b xs v h =
    let n = writable_size b in
    let first = take n xs in
    let second = drop n xs in
    let fits : length first ≤ n = omega (arith, length-take n xs) in
    let (c, (done, valid, same)) =
      write_lem (filled b first) second (filled-IsValid b first v fits) in
    (
      c,
      (
        read_fd_spills b c xs h done,
        valid,
        same
            ∙ ap (λ ys. ys ++ second) (contents-filled b first v fits)
            ∙ append_assoc (contents b) first second
            ∙ ap (◌++◌ (contents b)) (take-append-drop n xs),
      ),
    )

-- All that was received is appended to the contents, also the part that did not fit.
pub read_fd_lem : (b : Buffer) (xs : List ℕ) → IsValid b → Gives (Received b xs)
read_fd_lem b xs v = elim (dec_le (length xs) (writable_size b)) [
  | yes h ↦ (filled b xs, fits-Received b xs v h)
  | no h ↦ overflows-Received b xs v (omega arith)
]
