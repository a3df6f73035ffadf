-- ===== src/Bloom/Members.antt =====
-- What is added to the filter of bloom-filter/bloom-filter/bloom_filter.cpp stays in it.
use native.Mathlib.Nat.{mod-lt}
use eureka.Common.{
  ℕ, zero, suc, ◌+◌, ◌*◌, ◌%◌, ◌^◌, ◌≤◌, ◌<◌, ◌≡◌, refl, sym, ap, ◌∙◌, Bool, true, false, not, ◌&&◌,
  ◌||◌, List, [], ◌∷◌, length, Result, ok, ◌>>=◌, ==_ne, if◌then◌else◌, arith, Bool-cases, inl, inr,
}
use eureka.Bloom.{read, write, Filter, bit_place, check_from, check_add_hash, add, may_contain}
use eureka.Bloom.Bits.{bit, Grows, IsValid, with_bytes, test_set_bit-read, test_set_bit-write}

abbrev counted : Filter → Bool → Filter
counted g added = if added then record g { size = (g.size + 1) % 2 ^ 64 } else g

-- All bits of an entry from the hash `i` on.
abbrev pub all_set : List ℕ → ℕ → ℕ → ℕ → ℕ → ℕ → Bool
all_set bytes m a b zero i = true
all_set bytes m a b (suc n) i = bit bytes (bit_place m a b i) && all_set bytes m a b n (suc i)

and-true : (x y : Bool) → (x && y) ≡ true → (x ≡ true) × (y ≡ true)
and-true x y e = (ground arith, ground arith)

or-false : (x : Bool) → (x || false) ≡ x
or-false x = ground arith

-- A bit that was set leaves the row as it was; one that was not is found.
unset_found_lem :
    (was_set u old new : Bool)
    → (was_set ≡ true → new ≡ old)
    → ((if was_set then u else true) || not new) ≡ (u || not (was_set && old))
unset_found_lem true u old new h = ap (λ x. u || not x) (h refl)
unset_found_lem false u old new h = ground arith

all_set-Grows :
    (before after : List ℕ) (m a b n i : ℕ)
    → Grows before after
    → all_set before m a b n i ≡ true
    → all_set after m a b n i ≡ true
all_set-Grows before after m a b zero i grows e = refl
all_set-Grows before after m a b (suc n) i grows e =
    let (first, others) =
      and-true (bit before (bit_place m a b i)) (all_set before m a b n (suc i)) e in
    rw (grows (bit_place m a b i) first) (all_set-Grows before after m a b n (suc i) grows others)

module _ (a b : ℕ) where
  place_lt : (f : Filter) (i : ℕ) → IsValid f → bit_place f.num_bits a b i < f.num_bits
  place_lt f i valid = mod-lt ((a + i * b) % 2 ^ 64) (omega (arith, valid.some_bits))

  check_from-read :
      (f : Filter) (n i : ℕ) (u : Bool)
      → IsValid f
      → check_from a b read n i u f ≡ ok (all_set f.bytes f.num_bits a b n i, f)
  unfolding check_from
  check_from-read f zero i u valid = refl
  check_from-read f (suc n) i u valid =
      let k = bit_place f.num_bits a b i in
      elim (Bool-cases (bit f.bytes k)) [
        | inl e ↦
            rw (test_set_bit-read f valid k (place_lt f i valid), e)
              (check_from-read f n (suc i) u valid)
        | inr e ↦ rw (test_set_bit-read f valid k (place_lt f i valid), e) refl
      ]

  abbrev Marks : Filter → ℕ → ℕ → Bool → Type 0
  Marks f n i u =
      (bytes : List ℕ) × (check_from a b write n i u f
        ≡ ok (u || not (all_set f.bytes f.num_bits a b n i), with_bytes f bytes))
      × (length bytes ≡ length f.bytes)
      × Grows f.bytes bytes
      × (all_set bytes f.num_bits a b n i ≡ true)

  check_from-Marks : (f : Filter) (n i : ℕ) (u : Bool) → IsValid f → Marks f n i u
  unfolding check_from
  check_from-Marks f zero i u valid =
      (f.bytes, ap (λ x. ok (x, f)) (sym (or-false u)), refl, λ j e. e, refl)
  check_from-Marks f (suc n) i u valid =
      let k = bit_place f.num_bits a b i in
      let (bytes, done, size, grows, marked, kept) =
        test_set_bit-write f valid k (place_lt f i valid) in
      let g = with_bytes f bytes in
      let valid' : IsValid g = record {
        some_bits = valid.some_bits;
        row = omega (arith, size, valid.row);
      } in
      let (bytes', done', size', grows', all) =
        check_from-Marks g n (suc i) (if bit f.bytes k then u else true) valid' in
      (
        bytes',
        rw done done'
            ∙ ap (λ x. ok (x, with_bytes f bytes'))
                (unset_found_lem (bit f.bytes k) u (all_set f.bytes f.num_bits a b n (suc i))
                  (all_set bytes f.num_bits a b n (suc i))
                  (λ e. ap (λ s. all_set s f.num_bits a b n (suc i)) (kept e))),
        size' ∙ size,
        λ j e. grows' j (grows j e),
        rw (grows' k marked) all,
      )

module _ (murmur_hash : List ℕ → ℕ → ℕ) where
  -- All bits of an entry are set.
  abbrev pub member : Filter → List ℕ → Bool
  member f content =
      let a = murmur_hash content 0x9747b28c in
      all_set f.bytes f.num_bits a (murmur_hash content a) f.hashes 0

  abbrev pub HasBytes : List ℕ → Type 0
  HasBytes content = 1 ≤ length content

  pub may_contain-member :
      (f : Filter) (content : List ℕ)
      → IsValid f
      → HasBytes content
      → may_contain murmur_hash f content ≡ ok (member f content)
  unfolding may_contain check_add_hash
  may_contain-member f [] valid h = absurd (omega arith)
  may_contain-member f (c ∷ content) valid h =
      let a = murmur_hash (c ∷ content) 0x9747b28c in
      let b = murmur_hash (c ∷ content) a in
      rw
        (
          ==_ne f.num_bits 0 (λ e. omega (arith, e, valid.some_bits)),
          check_from-read a b f f.hashes 0 false valid,
        )
        refl

  -- An addition, and all that it promises.
  abbrev pub Adds : Filter → List ℕ → Type 0
  Adds f content =
      (g : Filter) × (add murmur_hash f content ≡ ok (not (member f content), g))
      × IsValid g
      × (member g content ≡ true)
      × ((other : List ℕ) → member f other ≡ true → member g other ≡ true)

  pub add_lem : (f : Filter) (content : List ℕ) → IsValid f → HasBytes content → Adds f content
  unfolding add check_add_hash
  add_lem f [] valid h = absurd (omega arith)
  add_lem f (c ∷ content) valid h =
      let a = murmur_hash (c ∷ content) 0x9747b28c in
      let b = murmur_hash (c ∷ content) a in
      let (bytes, done, size, grows, all) = check_from-Marks a b f f.hashes 0 false valid in
      let g = with_bytes f bytes in
      let added = not (member f (c ∷ content)) in
      let (valid', present, keeps) = kept bytes added size grows all in
      (
        counted g added,
        rw (==_ne f.num_bits 0 (λ e. omega (arith, e, valid.some_bits)), done) refl,
        valid',
        present,
        keeps,
      )
    where
      kept :
          (bytes : List ℕ) (added : Bool)
          → length bytes ≡ length f.bytes
          → Grows f.bytes bytes
          → member (with_bytes f bytes) (c ∷ content) ≡ true
          → IsValid (counted (with_bytes f bytes) added)
            × (member (counted (with_bytes f bytes) added) (c ∷ content) ≡ true)
            × ((other : List ℕ)
                → member f other ≡ true
                → member (counted (with_bytes f bytes) added) other ≡ true)
      kept bytes true size grows all = (
        record { some_bits = valid.some_bits; row = omega (arith, size, valid.row) },
        all,
        λ other e. all_set-Grows f.bytes bytes f.num_bits _ _ f.hashes 0 grows e,
      )
      kept bytes false size grows all = (
        record { some_bits = valid.some_bits; row = omega (arith, size, valid.row) },
        all,
        λ other e. all_set-Grows f.bytes bytes f.num_bits _ _ f.hashes 0 grows e,
      )

  -- Additions one after the other.
  unfoldable pub add_all : Filter → List (List ℕ) → Result Filter
  add_all f [] = ok f
  add_all f (content ∷ contents) = do (added, g) ← add murmur_hash f content; add_all g contents

  abbrev pub AllHaveBytes : List (List ℕ) → Type 0
  AllHaveBytes [] = Unit {0}
  AllHaveBytes (content ∷ contents) = HasBytes content × AllHaveBytes contents

  abbrev pub AllMembers : Filter → List (List ℕ) → Type 0
  AllMembers f [] = Unit {0}
  AllMembers f (content ∷ contents) =
      (may_contain murmur_hash f content ≡ ok true) × AllMembers f contents

  abbrev AddsAll : Filter → List (List ℕ) → Type 0
  AddsAll f contents =
      (g : Filter) × (add_all f contents ≡ ok g)
      × IsValid g
      × AllMembers g contents
      × ((other : List ℕ) → member f other ≡ true → member g other ≡ true)

  pub add_all-AddsAll :
      (f : Filter) (contents : List (List ℕ))
      → IsValid f
      → AllHaveBytes contents
      → AddsAll f contents
  unfolding add_all
  add_all-AddsAll f [] valid h = (f, refl, valid, tt, λ other e. e)
  add_all-AddsAll f (content ∷ contents) valid h =
      let (g, done, valid', present, keeps) = add_lem f content valid h.0 in
      let (k, rest, valid'', all, keeps') = add_all-AddsAll g contents valid' h.1 in
      (
        k,
        rw done rest,
        valid'',
        (may_contain-member k content valid'' h.0 ∙ ap ok (keeps' content present), all),
        λ other e. keeps' other (keeps other e),
      )
