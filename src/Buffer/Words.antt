-- ===== src/Buffer/Words.antt =====
-- NetworkInfra/src/endian_utils.h, and how an integer of `k` bytes stands in memory.
-- `htobe16`, `htobe32`, `htobe64` and their inverses are the system's: the identity on a big-endian
-- host, and a reversal of the bytes on a little-endian one. A signed integer is its bit pattern.
use eureka.Common.{
  ℕ, zero, suc, ◌+◌, ◌*◌, ◌/◌, ◌%◌, ◌^◌, ◌≡◌, refl, sym, ap, ◌∙◌, List, [], ◌∷◌, reverse, length,
  ◌++◌, length-reverse, ◌<◌, arith,
}
use mathlib.Core.List.{reverse-reverse, reverse-cons}
use mathlib.Core.Path.{ap₂}
use native.Mathlib.Nat.{pow-suc}

pub data Endian : Type 0 where
  little big : Endian

-- The `k` low bytes of `n`, the lowest first.
unfoldable pub low_bytes : ℕ → ℕ → List ℕ
low_bytes zero n = []
low_bytes (suc k) n = (n % 256) ∷ low_bytes k (n / 256)

unfoldable pub of_low_bytes : List ℕ → ℕ
of_low_bytes [] = 0
of_low_bytes (b ∷ bs) = b + 256 * of_low_bytes bs

-- The object representation of an integer, and the integer that a representation is of.
unfoldable pub store : Endian → ℕ → ℕ → List ℕ
unfolding low_bytes
store little k n = low_bytes k n
store big k n = reverse (low_bytes k n)

unfoldable pub load : Endian → List ℕ → ℕ
unfolding of_low_bytes
load little bs = of_low_bytes bs
load big bs = of_low_bytes (reverse bs)

byte_swap : ℕ → ℕ → ℕ
unfolding low_bytes of_low_bytes
byte_swap k n = of_low_bytes (reverse (low_bytes k n))

unfoldable pub host_to_network : Endian → ℕ → ℕ → ℕ
unfolding byte_swap
host_to_network little k n = byte_swap k n
host_to_network big k n = n

unfoldable pub network_to_host : Endian → ℕ → ℕ → ℕ
unfolding byte_swap
network_to_host little k n = byte_swap k n
network_to_host big k n = n

-- `auto be = HostToNetwork(n); Write(&be, sizeof(be))`.
unfoldable pub to_wire : Endian → ℕ → ℕ → List ℕ
unfolding store host_to_network
to_wire e k n = store e k (host_to_network e k n)

-- `memcpy(&be, Peek(), sizeof(be)); return NetworkToHost(be)`.
unfoldable pub of_wire : Endian → ℕ → List ℕ → ℕ
unfolding load network_to_host
of_wire e k bs = network_to_host e k (load e bs)

abbrev pub AreBytes : List ℕ → Type 0
AreBytes [] = Unit {0}
AreBytes (b ∷ bs) = (b < 256) × AreBytes bs

pub length-low_bytes : (k n : ℕ) → length (low_bytes k n) ≡ k
unfolding low_bytes
length-low_bytes zero n = refl
length-low_bytes (suc k) n = ap suc (length-low_bytes k (n / 256))

low_bytes-of_low_bytes : (bs : List ℕ) → AreBytes bs → low_bytes (length bs) (of_low_bytes bs) ≡ bs
unfolding low_bytes of_low_bytes
low_bytes-of_low_bytes [] h = refl
low_bytes-of_low_bytes (b ∷ bs) h =
    ap₂ (λ x y. x ∷ y) (omega arith)
      (ap (low_bytes (length bs)) (omega arith) ∙ low_bytes-of_low_bytes bs h.1)

AreBytes-append : (xs ys : List ℕ) → AreBytes xs → AreBytes ys → AreBytes (xs ++ ys)
AreBytes-append [] ys h k = k
AreBytes-append (x ∷ xs) ys h k = (h.0, AreBytes-append xs ys h.1 k)

AreBytes-reverse : (xs : List ℕ) → AreBytes xs → AreBytes (reverse xs)
AreBytes-reverse [] h = tt
AreBytes-reverse (x ∷ xs) h =
    rw (reverse-cons x xs)
      (AreBytes-append (reverse xs) (x ∷ []) (AreBytes-reverse xs h.1) (h.0, tt))

low_bytes-AreBytes : (k n : ℕ) → AreBytes (low_bytes k n)
unfolding low_bytes
low_bytes-AreBytes zero n = tt
low_bytes-AreBytes (suc k) n = (omega arith, low_bytes-AreBytes k (n / 256))

of_low_bytes-low_bytes : (k n : ℕ) → n < 256 ^ k → of_low_bytes (low_bytes k n) ≡ n
unfolding low_bytes of_low_bytes
of_low_bytes-low_bytes zero n h = omega arith
of_low_bytes-low_bytes (suc k) n h =
    let fits : n / 256 < 256 ^ k = omega (arith, pow-suc 256 k) in
    omega (arith, of_low_bytes-low_bytes k (n / 256) fits)

-- The bytes of a number in network order, which is the same on either host.
unfoldable pub network_bytes : ℕ → ℕ → List ℕ
unfolding low_bytes
network_bytes k n = reverse (low_bytes k n)

low_bytes-byte_swap : (k n : ℕ) → low_bytes k (byte_swap k n) ≡ reverse (low_bytes k n)
unfolding byte_swap
low_bytes-byte_swap k n =
    let bs = reverse (low_bytes k n) in
    let size : length bs ≡ k = length-reverse (low_bytes k n) ∙ length-low_bytes k n in
    ap (λ j. low_bytes j (of_low_bytes bs)) (sym size)
    ∙ low_bytes-of_low_bytes bs (AreBytes-reverse (low_bytes k n) (low_bytes-AreBytes k n))

-- The bytes that an integer is sent as are its bytes in network order, on a host of either order.
pub to_wire-eq-network_bytes : (e : Endian) (k n : ℕ) → to_wire e k n ≡ network_bytes k n
unfolding to_wire network_bytes
to_wire-eq-network_bytes little k n = low_bytes-byte_swap k n
to_wire-eq-network_bytes big k n = refl

pub length-to_wire : (e : Endian) (k n : ℕ) → length (to_wire e k n) ≡ k
unfolding network_bytes
length-to_wire e k n =
    ap length (to_wire-eq-network_bytes e k n)
    ∙ length-reverse (low_bytes k n)
    ∙ length-low_bytes k n

-- Sender and receiver may differ in byte order.
pub of_wire-to_wire : (e f : Endian) (k n : ℕ) → n < 256 ^ k → of_wire f k (to_wire e k n) ≡ n
unfolding of_wire network_bytes byte_swap
of_wire-to_wire e little k n h = rw (to_wire-eq-network_bytes e k n) (
    ap (λ m. of_low_bytes (reverse m)) (same_bytes)
    ∙ ap of_low_bytes (reverse-reverse (low_bytes k n))
    ∙ of_low_bytes-low_bytes k n h)
  where
    same_bytes : low_bytes k (of_low_bytes (reverse (low_bytes k n))) ≡ reverse (low_bytes k n)
    same_bytes = low_bytes-byte_swap k n
of_wire-to_wire e big k n h =
    rw (to_wire-eq-network_bytes e k n)
      (ap of_low_bytes (reverse-reverse (low_bytes k n)) ∙ of_low_bytes-low_bytes k n h)
