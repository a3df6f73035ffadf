-- ===== src/Buffer/Reserving.antt =====
-- NetworkInfra/src/buffer.cpp, `ReserveWritable`, against the contents of the buffer.
use eureka.Common.{
  ℕ, ◌+◌, ◌-◌, ◌≤◌, ◌<◌, ◌≡◌, refl, sym, ap, ◌∙◌, inl, inr, ◌++◌, arith, length, take, replicate,
  copy_at, resize, leb, ltb, leb→le, Bool-cases, length-copy_at, length-resize, take_all,
}
use eureka.Buffer.{
  Buffer, default_prepend_size, readable_size, writable_size, prependable_size, reserve_writable,
}
use eureka.Buffer.Contents.{IsValid, contents, length-contents, slice, slice-copy_at, slice-append}

abbrev Reserved : Buffer → ℕ → Buffer → Type 0
Reserved b n c = IsValid c × (n ≤ writable_size c) × (contents c ≡ contents b)

grown-Reserved :
    (b : Buffer) (n : ℕ)
    → IsValid b
    → writable_size b < n
    → Reserved b n (record b { buf = resize (b.writer_index + n) 0 b.buf })
grown-Reserved b n v small =
    let r = b.reader_index in
    let w = b.writer_index in
    let kept : take (w + n) b.buf ≡ b.buf = take_all (w + n) b.buf (omega (arith, v.within)) in
    let size : length (resize (w + n) 0 b.buf) ≡ w + n = length-resize (w + n) 0 b.buf in
    (
      record {
        ordered = v.ordered;
        within = omega arith;
        spacious = omega (arith, v.spacious, v.within);
      },
      omega arith,
      ap (λ ys. slice r w (ys ++ replicate (w + n - length b.buf) 0)) kept
          ∙ slice-append r w b.buf _ v.ordered v.within,
    )

moved-Reserved :
    (b : Buffer) (n : ℕ)
    → IsValid b
    → default_prepend_size + n ≤ prependable_size b + writable_size b
    → Reserved b n (record b {
      buf = copy_at b.buf default_prepend_size (contents b);
      reader_index = default_prepend_size;
      writer_index = default_prepend_size + readable_size b;
    })
moved-Reserved b n v room =
    let size = length-copy_at b.buf 8 (contents b) in
    let moved = length-contents b v in
    (
      record {
        ordered = omega arith;
        within = omega (arith, size, v.ordered, v.within, room, v.spacious);
        spacious = omega (arith, size, v.spacious);
      },
      omega (arith, size, v.ordered, v.within, room, v.spacious),
      ap (λ k. slice 8 (8 + k) (copy_at b.buf 8 (contents b))) (sym moved)
          ∙ slice-copy_at 8 b.buf (contents b) (omega (arith, moved, v.ordered, v.within, room)),
    )

-- Room is made on every branch, and what was written stays.
pub reserve_writable_lem : (b : Buffer) (n : ℕ) → IsValid b → Reserved b n (reserve_writable b n)
unfolding reserve_writable
reserve_writable_lem b n v = elim (Bool-cases (leb n (writable_size b))) [
  | inl e ↦ rw (e, reserve_writable) (v, leb→le n (writable_size b) e, refl)
  | inr e ↦ elim (Bool-cases (ltb (prependable_size b + writable_size b) (8 + n))) [
    | inl f ↦ rw (e, f, reserve_writable) (grown-Reserved b n v (ground arith))
    | inr f ↦ rw (e, f, reserve_writable) (moved-Reserved b n v (ground arith))
  ]
]
