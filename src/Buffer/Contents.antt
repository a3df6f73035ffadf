-- ===== src/Buffer/Contents.antt =====
-- The abstract view of a buffer, the bytes between its indices, and the well-formed buffers.
use eureka.Common.{
  ℕ, ◌+◌, ◌-◌, ◌≤◌, ◌≡◌, sym, ap, ◌∙◌, List, ◌++◌, arith, length, take, drop, copy_at,
  length-replicate, length-take, length-drop, take-add, drop-drop, drop-take, take-copy_at,
  take-copy_at_before, drop-copy_at_behind, take-take, take-append_le,
}
use eureka.Buffer.{Buffer, default_prepend_size, new}

pub record IsValid (b : Buffer) : Type 0 where
  pub ordered : b.reader_index ≤ b.writer_index
  pub within : b.writer_index ≤ length b.buf
  pub spacious : default_prepend_size ≤ length b.buf

-- The bytes that were written and not consumed, the oldest first.
abbrev pub contents : Buffer → List ℕ
contents b = take (b.writer_index - b.reader_index) (drop b.reader_index b.buf)

pub new-IsValid : (n : ℕ) → IsValid (new n)
unfolding new
new-IsValid n = record {
  ordered = omega arith;
  within = omega (arith, length-replicate {A = ℕ} (n + 8) 0);
  spacious = omega (arith, length-replicate {A = ℕ} (n + 8) 0);
}

pub length-contents :
    (b : Buffer) → IsValid b → length (contents b) ≡ b.writer_index - b.reader_index
length-contents b v = omega (
  arith,
  length-take (b.writer_index - b.reader_index) (drop b.reader_index b.buf),
  length-drop b.reader_index b.buf,
)

-- The part of a block between two indices.
abbrev pub slice : ℕ → ℕ → List ℕ → List ℕ
slice r w xs = take (w - r) (drop r xs)

pub slice-drop-take : (r w : ℕ) (xs : List ℕ) → r ≤ w → slice r w xs ≡ drop r (take w xs)
slice-drop-take r w xs h = sym (drop-take r (w - r) xs) ∙ ap (λ k. drop r (take k xs)) (omega arith)

pub slice_split :
    (r m w : ℕ) (xs : List ℕ) → r ≤ m → m ≤ w → slice r w xs ≡ slice r m xs ++ slice m w xs
slice_split r m w xs h k =
    let sizes : w - r ≡ (m - r) + (w - m) = omega arith in
    let start : r + (m - r) ≡ m = omega arith in
    ap (λ n. take n (drop r xs)) sizes
    ∙ take-add (m - r) (w - m) (drop r xs)
    ∙ ap (λ ys. slice r m xs ++ take (w - m) ys)
        (drop-drop (m - r) r xs ∙ ap (λ n. drop n xs) start)

-- A part that ends before the copied block is unchanged.
pub slice-copy_at_before :
    (r w i : ℕ) (xs ys : List ℕ) → r ≤ w → w ≤ i → slice r w (copy_at xs i ys) ≡ slice r w xs
slice-copy_at_before r w i xs ys h k =
    slice-drop-take r w (copy_at xs i ys) h
    ∙ ap (drop r) (
        sym (take-take w i (copy_at xs i ys) k)
        ∙ ap (take w) (take-copy_at_before xs i ys)
        ∙ take-take w i xs k)
    ∙ sym (slice-drop-take r w xs h)

pub slice-append :
    (r w : ℕ) (xs ys : List ℕ) → r ≤ w → w ≤ length xs → slice r w (xs ++ ys) ≡ slice r w xs
slice-append r w xs ys h k =
    slice-drop-take r w (xs ++ ys) h
    ∙ ap (drop r) (take-append_le w xs ys k)
    ∙ sym (slice-drop-take r w xs h)

pub slice-copy_at :
    (i : ℕ) (xs ys : List ℕ)
    → i + length ys ≤ length xs
    → slice i (i + length ys) (copy_at xs i ys) ≡ ys
slice-copy_at i xs ys h =
    ap (λ n. take n (drop i (copy_at xs i ys))) (omega arith) ∙ take-copy_at xs i ys h

-- So is one that begins behind it.
pub slice-copy_at_behind :
    (i w : ℕ) (xs ys : List ℕ)
    → slice (i + length ys) w (copy_at xs i ys) ≡ slice (i + length ys) w xs
slice-copy_at_behind i w xs ys = ap (take (w - (i + length ys))) (drop-copy_at_behind xs i ys)
