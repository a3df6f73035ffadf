-- ===== src/Buffer/Fifo.antt =====
-- The buffer against its specification: a queue of bytes, read from the front and written at the
-- back. Calls run one after the other until one fails its check.
use native.Mathlib.Decide.{dec_le}
use eureka.Common.{
  ℕ, ◌+◌, ◌≤◌, ◌<◌, ◌^◌, ◌≡◌, refl, ap, ◌∙◌, List, [], ◌∷◌, ◌++◌, arith, length, take, drop, Result,
  ok, err, check_failed, leb, le→leb, ◌>>=◌, ◌>>◌, ensure, length-append, not_leb, true, false,
  take-append_exact, drop-append_exact,
}
use eureka.Buffer.Words.{Endian, to_wire, of_wire, length-to_wire, of_wire-to_wire}
use eureka.Buffer.{
  Buffer, readable_size, write, consume, read_as_string, read_all_as_string, write_int, read_as_int,
  consume_all,
}
use eureka.Buffer.Contents.{IsValid, contents, length-contents}
use eureka.Buffer.Operations.{
  write_lem, consume_lem, consume_fails, peek_lem, empty-IsValid, contents-consume_all,
}

pub data Op : Type 0 where
  writes : List ℕ → Op
  writes_int : ℕ → ℕ → Op
  consumes : ℕ → Op
  reads : ℕ → Op
  reads_int : ℕ → Op
  reads_all : Op

pub data Output : Type 0 where
  silent : Output
  bytes : List ℕ → Output
  number : ℕ → Output

module _ (e : Endian) where
  unfoldable pub call : Buffer → Op → Result (Output × Buffer)
  unfolding write_int read_as_string read_as_int read_all_as_string
  call b (writes xs) = do c ← write b xs; ok (silent, c)
  call b (writes_int k n) = do c ← write_int e k b n; ok (silent, c)
  call b (consumes n) = do c ← consume b n; ok (silent, c)
  call b (reads n) = do (xs, c) ← read_as_string b n; ok (bytes xs, c)
  call b (reads_int k) = do (n, c) ← read_as_int e k b; ok (number n, c)
  call b reads_all = let (xs, c) = read_all_as_string b in ok (bytes xs, c)

  -- The same calls on the queue of bytes that the buffer stands for.
  unfoldable pub spec : List ℕ → Op → Result (Output × List ℕ)
  spec q (writes xs) = ok (silent, q ++ xs)
  spec q (writes_int k n) = ok (silent, q ++ to_wire e k n)
  spec q (consumes n) = do ensure (leb n (length q)) check_failed; ok (silent, drop n q)
  spec q (reads n) = do ensure (leb n (length q)) check_failed; ok (bytes (take n q), drop n q)
  spec q (reads_int k) = do
    ensure (leb k (length q)) check_failed
    ok (number (of_wire e k (take k q)), drop k q)
  spec q reads_all = ok (bytes q, [])

  -- Both fail alike, or both return the same output and the states correspond.
  pub data Agrees : Result (Output × Buffer) → Result (Output × List ℕ) → Type 0 where
    both_fail : Agrees (err check_failed) (err check_failed)
    both_return :
        (o : Output) (c : Buffer) (q : List ℕ)
        → IsValid c
        → contents c ≡ q
        → Agrees (ok (o, c)) (ok (o, q))

  writes-Agrees :
      (b : Buffer) (xs : List ℕ)
      → IsValid b
      → Agrees (call b (writes xs)) (spec (contents b) (writes xs))
  unfolding call spec
  writes-Agrees b xs v =
      let (c, (done, valid, same)) = write_lem b xs v in
      rw done (both_return silent c (contents b ++ xs) valid same)

  -- A reading call of `n` bytes: the check, the bytes, and the buffer without them.
  module _ (b : Buffer) (n : ℕ) (v : IsValid b) where
    short :
        readable_size b < n
        → (leb n (length (contents b)) ≡ false) × (consume b n ≡ err check_failed)
    short h =
        (not_leb n (length (contents b)) (omega (arith, length-contents b v)), consume_fails b n h)

    enough : n ≤ readable_size b → leb n (length (contents b)) ≡ true
    enough h = le→leb n (length (contents b)) (omega (arith, length-contents b v))

    consumes-Agrees : Agrees (call b (consumes n)) (spec (contents b) (consumes n))
    unfolding call spec
    consumes-Agrees = elim (dec_le n (readable_size b)) [
      | yes h ↦
          let (c, (done, valid, same)) = consume_lem b n v h in
          rw (done, enough h) (both_return silent c (drop n (contents b)) valid same)
      | no h ↦ let (tested, failed) = short (omega arith) in rw (failed, tested) both_fail
    ]

    reads-Agrees : Agrees (call b (reads n)) (spec (contents b) (reads n))
    unfolding call spec
    reads-Agrees = elim (dec_le n (readable_size b)) [
      | yes h ↦
          let (c, (done, valid, same)) = consume_lem b n v h in
          rw (le→leb n (readable_size b) h, done, enough h, peek_lem b n h)
            (both_return (bytes (take n (contents b))) c (drop n (contents b)) valid same)
      | no h ↦
          let (tested, failed) = short (omega arith) in
          rw (not_leb n (readable_size b) (omega arith), tested) both_fail
    ]

    reads_int-Agrees : Agrees (call b (reads_int n)) (spec (contents b) (reads_int n))
    unfolding call spec
    reads_int-Agrees = elim (dec_le n (readable_size b)) [
      | yes h ↦
          let (c, (done, valid, same)) = consume_lem b n v h in
          rw (le→leb n (readable_size b) h, done, enough h, peek_lem b n h)
            (both_return (number (of_wire e n (take n (contents b)))) c (drop n (contents b)) valid
              same)
      | no h ↦
          let (tested, failed) = short (omega arith) in
          rw (not_leb n (readable_size b) (omega arith), tested) both_fail
    ]

  -- Each call does to the buffer what the specification does to its contents.
  pub call-Agrees : (b : Buffer) (op : Op) → IsValid b → Agrees (call b op) (spec (contents b) op)
  unfolding call spec
  call-Agrees b (writes xs) v = writes-Agrees b xs v
  call-Agrees b (writes_int k n) v = writes-Agrees b (to_wire e k n) v
  call-Agrees b (consumes n) v = consumes-Agrees b n v
  call-Agrees b (reads n) v = reads-Agrees b n v
  call-Agrees b (reads_int k) v = reads_int-Agrees b k v
  call-Agrees b reads_all v =
      both_return (bytes (contents b)) (consume_all b) [] (empty-IsValid b v)
        (contents-consume_all b)

  -- The outputs of a sequence of calls, or the failure that ends it.
  unfoldable pub run : Buffer → List Op → Result (List Output)
  unfolding call
  run b [] = ok []
  run b (op ∷ ops) = do (o, c) ← call b op; os ← run c ops; ok (o ∷ os)

  unfoldable pub run_spec : List ℕ → List Op → Result (List Output)
  unfolding spec
  run_spec q [] = ok []
  run_spec q (op ∷ ops) = do (o, r) ← spec q op; os ← run_spec r ops; ok (o ∷ os)

  run_after :
      (ops : List Op)
      → ((c : Buffer) → IsValid c → run c ops ≡ run_spec (contents c) ops)
      → {r : Result (Output × Buffer)} {s : Result (Output × List ℕ)} → Agrees r s
      → (r >>= (λ p. run p.1 ops >>= (λ os. ok (p.0 ∷ os))))
        ≡ (s >>= (λ p. run_spec p.1 ops >>= (λ os. ok (p.0 ∷ os))))
  run_after ops ih both_fail = refl
  run_after ops ih (both_return o c q v same) =
      ap (λ m. m >>= (λ os. ok (o ∷ os))) (ih c v ∙ ap (λ q'. run_spec q' ops) same)

  -- A valid buffer and the queue of its contents cannot be told apart by calls.
  pub run-eq-run_spec :
      (b : Buffer) (ops : List Op) → IsValid b → run b ops ≡ run_spec (contents b) ops
  unfolding run run_spec
  run-eq-run_spec b [] v = refl
  run-eq-run_spec b (op ∷ ops) v =
      run_after ops (λ c w. run-eq-run_spec c ops w) (call-Agrees b op v)

-- A received integer is the one that was sent, also between hosts of different byte order, and
-- the bytes behind it stay.
pub read_as_int-to_wire :
    (e f : Endian) (k n : ℕ) (rest : List ℕ) (b : Buffer)
    → IsValid b
    → n < 256 ^ k
    → contents b ≡ to_wire e k n ++ rest
    → (c : Buffer) × (read_as_int f k b ≡ ok (n, c)) × IsValid c × (contents c ≡ rest)
unfolding read_as_int
read_as_int-to_wire e f k n rest b v small holds =
    let wire = to_wire e k n in
    let size : length wire ≡ k = length-to_wire e k n in
    let total : length (contents b) ≡ length wire + length rest =
      ap length holds ∙ length-append wire rest in
    let h : k ≤ readable_size b = omega (arith, length-contents b v) in
    let (c, (done, valid, same)) = consume_lem b k v h in
    let got : take k (contents b) ≡ wire = ap (take k) holds ∙ take-append_exact k wire rest size in
    (
      c,
      rw (le→leb k (readable_size b) h, done, peek_lem b k h, got, of_wire-to_wire e f k n small),
      valid,
      same ∙ ap (drop k) holds ∙ drop-append_exact k wire rest size,
    )
