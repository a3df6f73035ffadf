-- ===== src/Buffer/Operations.antt =====
-- What each operation does to the contents, on every branch.
use mathlib.Core.Path.{ap₂}
use native.Mathlib.Decide.{dec_lt}
use eureka.Common.{◌≡⟨◌⟩◌, ◌∎}
use eureka.Common.{
  ℕ, ◌+◌, ◌-◌, ◌≤◌, ◌<◌, ◌≡◌, refl, sym, ap, ◌∙◌, List, [], ◌++◌, arith, length, take, drop,
  copy_at, ok, err, check_failed, le→leb, lt→ltb, not_ltb, length-copy_at, drop-drop, drop_all,
  drop-take, take-take, subst,
}
use eureka.Buffer.{
  Buffer, readable_size, writable_size, prependable_size, reserve_writable, begin_write, end_write,
  write, consume_all, consume, prepend, peek,
}
use eureka.Buffer.Contents.{
  IsValid, contents, length-contents, slice, slice_split, slice-copy_at_before, slice-copy_at,
  slice-copy_at_behind,
}
use eureka.Buffer.Reserving.{reserve_writable_lem}

written : Buffer → List ℕ → Buffer
written b bytes =
    let room = reserve_writable b (length bytes) in
    record room {
      buf = copy_at room.buf room.writer_index bytes;
      writer_index = room.writer_index + length bytes;
    }

write-eq-ok : (b : Buffer) (bytes : List ℕ) → IsValid b → write b bytes ≡ ok (written b bytes)
unfolding write begin_write end_write written
write-eq-ok b bytes v =
    let room = reserve_writable b (length bytes) in
    let fits : length bytes ≤ writable_size room = (reserve_writable_lem b (length bytes) v).1 in
    let size = length-copy_at room.buf room.writer_index bytes in
    rw (
      le→leb (length bytes) (writable_size room) fits,
      size,
      le→leb (length bytes) (writable_size room) fits,
    )

-- Bytes that fit, copied to the writer's place.
pub contents-copy_at :
    (b : Buffer) (bytes : List ℕ)
    → IsValid b
    → length bytes ≤ writable_size b
    → slice b.reader_index (b.writer_index + length bytes) (copy_at b.buf b.writer_index bytes)
      ≡ contents b ++ bytes
contents-copy_at b bytes v fits =
    let r = b.reader_index in
    let w = b.writer_index in
    let end = w + length bytes in
    let new_buf = copy_at b.buf w bytes in
    slice r end new_buf
    ≡⟨ slice_split r w end new_buf v.ordered (omega arith) ⟩
      slice r w new_buf ++ slice w end new_buf
    ≡⟨ ap (λ ys. ys ++ slice w end new_buf)
        (slice-copy_at_before r w w b.buf bytes v.ordered (omega arith)) ⟩
      contents b ++ slice w end new_buf
    ≡⟨ ap (◌++◌ (contents b)) (slice-copy_at w b.buf bytes (omega (arith, v.within))) ⟩
      contents b ++ bytes ∎

-- There is a buffer with the property.
abbrev pub Gives : (Buffer → Type 0) → Type 0
Gives P = (c : Buffer) × P c

abbrev pub Wrote : Buffer → List ℕ → Buffer → Type 0
Wrote b bytes c = (write b bytes ≡ ok c) × IsValid c × (contents c ≡ contents b ++ bytes)

-- A write never fails, and appends the bytes to the contents.
pub write_lem : (b : Buffer) (bytes : List ℕ) → IsValid b → Gives (Wrote b bytes)
unfolding written
write_lem b bytes v =
    let room = reserve_writable b (length bytes) in
    let (valid, fits, same) = reserve_writable_lem b (length bytes) v in
    let size = length-copy_at room.buf room.writer_index bytes in
    (
      written b bytes,
      (
        write-eq-ok b bytes v,
        record {
          ordered = omega (arith, valid.ordered);
          within = omega (arith, valid.within, fits, size);
          spacious = omega (arith, valid.spacious, size);
        },
        contents-copy_at room bytes valid fits ∙ ap (λ ys. ys ++ bytes) same,
      ),
    )

abbrev pub Consumed : Buffer → ℕ → Buffer → Type 0
Consumed b n c = (consume b n ≡ ok c) × IsValid c × (contents c ≡ drop n (contents b))

pub empty-IsValid : (b : Buffer) → IsValid b → IsValid (consume_all b)
unfolding consume_all
empty-IsValid b v = record { ordered = omega arith; within = v.spacious; spacious = v.spacious }

pub contents-consume_all : (b : Buffer) → contents (consume_all b) ≡ []
unfolding consume_all
contents-consume_all b = refl

consume_some :
    (b : Buffer) (n : ℕ)
    → IsValid b
    → n < readable_size b
    → Consumed b n (record b { reader_index = b.reader_index + n })
unfolding consume
consume_some b n v h =
    let r = b.reader_index in
    let left = b.writer_index - (r + n) in
    let sizes : n + left ≡ b.writer_index - r = omega arith in
    (
      rw (le→leb n (readable_size b) (omega arith), lt→ltb n (readable_size b) h),
      record { ordered = omega arith; within = v.within; spacious = v.spacious },
      ap (take left) (sym (drop-drop n r b.buf))
          ∙ sym (drop-take n left (drop r b.buf))
          ∙ ap (λ k. drop n (take k (drop r b.buf))) sizes,
    )

consume_rest : (b : Buffer) → IsValid b → Consumed b (readable_size b) (consume_all b)
unfolding consume
consume_rest b v =
    let n = readable_size b in
    (
      rw (le→leb n n (omega arith), not_ltb n n (omega arith)),
      empty-IsValid b v,
      contents-consume_all b ∙ sym (drop_all n (contents b) (omega (arith, length-contents b v))),
    )

-- `Consume` drops the oldest bytes, if there are so many.
pub consume_lem : (b : Buffer) (n : ℕ) → IsValid b → n ≤ readable_size b → Gives (Consumed b n)
consume_lem b n v h = elim (dec_lt n (readable_size b)) [
  | yes some_left ↦ (record b { reader_index = b.reader_index + n }, consume_some b n v some_left)
  | no all ↦
      let e : readable_size b ≡ n = omega arith in
      (consume_all b, subst (λ k. Consumed b k (consume_all b)) e (consume_rest b v))
]

pub consume_fails : (b : Buffer) (n : ℕ) → readable_size b < n → consume b n ≡ err check_failed
unfolding consume
consume_fails b n h = ground arith

abbrev pub Prepended : Buffer → List ℕ → Buffer → Type 0
Prepended b bytes c = (prepend b bytes ≡ ok c) × IsValid c × (contents c ≡ bytes ++ contents b)

-- `Prepend` puts the bytes before the contents, if they fit before the reader's place.
pub prepend_lem :
    (b : Buffer) (bytes : List ℕ)
    → IsValid b
    → length bytes ≤ prependable_size b
    → Gives (Prepended b bytes)
unfolding prepend
prepend_lem b bytes v h =
    let r = b.reader_index in
    let w = b.writer_index in
    let start = r - length bytes in
    let new_buf = copy_at b.buf start bytes in
    let size = length-copy_at b.buf start bytes in
    let back : start + length bytes ≡ r = omega arith in
    let front : slice start r new_buf ≡ bytes =
      ap (λ k. slice start k new_buf) (sym back)
      ∙ slice-copy_at start b.buf bytes (omega (arith, v.ordered, v.within)) in
    let behind : slice r w new_buf ≡ contents b =
      subst (λ k. slice k w new_buf ≡ slice k w b.buf) back
        (slice-copy_at_behind start w b.buf bytes) in
    (
      record { buf = new_buf; reader_index = start; writer_index = w },
      (
        rw (le→leb (length bytes) (prependable_size b) h),
        record {
          ordered = omega (arith, v.ordered);
          within = omega (arith, v.within, size);
          spacious = omega (arith, v.spacious, size);
        },
        slice_split start r w new_buf (omega arith) v.ordered ∙ ap₂ ◌++◌ front behind,
      ),
    )

pub prepend_fails :
    (b : Buffer) (bytes : List ℕ)
    → prependable_size b < length bytes
    → prepend b bytes ≡ err check_failed
unfolding prepend
prepend_fails b bytes h = ground arith

pub peek_lem : (b : Buffer) (n : ℕ) → n ≤ readable_size b → peek b n ≡ take n (contents b)
peek_lem b n h = sym (take-take n (readable_size b) (drop b.reader_index b.buf) h)

pub peek-contents : (b : Buffer) → peek b (readable_size b) ≡ contents b
peek-contents b = refl
