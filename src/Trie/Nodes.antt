-- ===== src/Trie/Nodes.antt =====
-- TrieFoDict/src/trie.cpp: the nodes that `Insert` makes, each at the place of its character.
use eureka.Common.{
  Option-cases, Fault, Result, ok, err, ok-injective, at, ℕ, zero, suc, ◌+◌, ◌≤◌, ◌<◌, ◌≡◌, refl,
  sym, ap, subst, ◌∙◌, ◌≢◌, ◌⊎◌, inl, inr, Option, none, some, List, [], ◌∷◌, arith,
}
use eureka.Ternary.Alphabet.{alphabet_length, get_character_index}
use eureka.Trie.{
  TrieNode, node, Children, end, null, child, character, children, all_null, new_node, child_at,
  set_child, or_new, insert_below, Trie, make_trie, insert,
}

-- The children from the place i on, up to the length of the alphabet, each with its character.
unfoldable mutual
  pub AreSlots : ℕ → Children → Type 0
  AreSlots i end = i ≡ alphabet_length
  AreSlots i (null cs) = AreSlots (suc i) cs
  AreSlots i (child c cs) = IsNode i c × AreSlots (suc i) cs

  pub IsNode : ℕ → TrieNode → Type 0
  IsNode i (node ch e cs) = (get_character_index ch ≡ some i) × AreSlots 0 cs

unfoldable pub NoZero : List ℕ → Type 0
NoZero [] = Unit {0}
NoZero (c ∷ s) = (c ≢ 0) × NoZero s

all_null-AreSlots : (n i : ℕ) → i + n ≡ alphabet_length → AreSlots i (all_null n)
unfolding AreSlots
all_null-AreSlots zero i h = omega arith
all_null-AreSlots (suc n) i h = all_null-AreSlots n (suc i) (omega arith)

new_node-AreSlots : (ch : ℕ) → AreSlots 0 (children (new_node ch))
unfolding new_node
new_node-AreSlots ch = all_null-AreSlots 27 0 refl

-- A place below the length holds a null or a node of that place.
pub child_at-AreSlots :
    (cs : Children) (i pos : ℕ)
    → AreSlots i cs
    → i + pos < alphabet_length
    → (child_at cs pos ≡ ok none)
      ⊎ ((c : TrieNode) × (child_at cs pos ≡ ok (some c)) × IsNode (i + pos) c)
unfolding AreSlots child_at
child_at-AreSlots end i pos h lt = absurd (omega arith)
child_at-AreSlots (null cs) i zero h lt = inl refl
child_at-AreSlots (null cs) i (suc pos) h lt =
    let e : suc i + pos ≡ i + suc pos = omega arith in
    subst
      (λ x.
        (child_at cs pos ≡ ok none)
        ⊎ ((c : TrieNode) × (child_at cs pos ≡ ok (some c)) × IsNode x c))
      e (child_at-AreSlots cs (suc i) pos h (omega arith))
child_at-AreSlots (child c cs) i zero (n, h) lt =
    let e : i ≡ i + 0 = omega arith in inr (c, refl, subst (λ x. IsNode x c) e n)
child_at-AreSlots (child c cs) i (suc pos) (n, h) lt =
    let e : suc i + pos ≡ i + suc pos = omega arith in
    subst
      (λ x.
        (child_at cs pos ≡ ok none)
        ⊎ ((c : TrieNode) × (child_at cs pos ≡ ok (some c)) × IsNode x c))
      e (child_at-AreSlots cs (suc i) pos h (omega arith))

set_child-AreSlots :
    (cs : Children) (i pos : ℕ) (c : TrieNode)
    → AreSlots i cs
    → IsNode (i + pos) c
    → AreSlots i (set_child cs pos c)
unfolding AreSlots set_child
set_child-AreSlots end i pos c h n = h
set_child-AreSlots (null cs) i zero c h n =
    let e : i + 0 ≡ i = omega arith in (subst (λ x. IsNode x c) e n, h)
set_child-AreSlots (child d cs) i zero c (m, h) n =
    let e : i + 0 ≡ i = omega arith in (subst (λ x. IsNode x c) e n, h)
set_child-AreSlots (null cs) i (suc pos) c h n =
    let e : i + suc pos ≡ suc i + pos = omega arith in
    set_child-AreSlots cs (suc i) pos c h (subst (λ x. IsNode x c) e n)
set_child-AreSlots (child d cs) i (suc pos) c (m, h) n =
    let e : i + suc pos ≡ suc i + pos = omega arith in
    (m, set_child-AreSlots cs (suc i) pos c h (subst (λ x. IsNode x c) e n))

-- A node of a place, in two parts.
pub IsNode-parts :
    (i : ℕ) (n : TrieNode)
    → IsNode i n
    → (get_character_index (character n) ≡ some i) × AreSlots 0 (children n)
unfolding IsNode
IsNode-parts i (node ch e cs) h = h

IsNode-join :
    (i : ℕ) (n : TrieNode)
    → get_character_index (character n) ≡ some i
    → AreSlots 0 (children n)
    → IsNode i n
unfolding IsNode
IsNode-join i (node ch e cs) p h = (p, h)

AreSlots-le : (cs : Children) (i : ℕ) → AreSlots i cs → i ≤ alphabet_length
unfolding AreSlots
AreSlots-le end i h = omega arith
AreSlots-le (null cs) i h = omega (arith, AreSlots-le cs (suc i) h)
AreSlots-le (child c cs) i (n, h) = omega (arith, AreSlots-le cs (suc i) h)

child_at-lt :
    (cs : Children) (i pos : ℕ) (o : Option TrieNode)
    → AreSlots i cs
    → child_at cs pos ≡ ok o
    → i + pos < alphabet_length
unfolding AreSlots child_at
child_at-lt end i pos o h e = absurd (cc e)
child_at-lt (null cs) i zero o h e = omega (arith, AreSlots-le cs (suc i) h)
child_at-lt (child c cs) i zero o (n, h) e = omega (arith, AreSlots-le cs (suc i) h)
child_at-lt (null cs) i (suc pos) o h e = omega (arith, child_at-lt cs (suc i) pos o h e)
child_at-lt (child c cs) i (suc pos) o (n, h) e = omega (arith, child_at-lt cs (suc i) pos o h e)

-- The node that `Insert` goes on from belongs to the place.
pub or_new-IsNode :
    (ch pos : ℕ) (cs : Children) (o : Option TrieNode)
    → get_character_index ch ≡ some pos
    → AreSlots 0 cs
    → child_at cs pos ≡ ok o
    → IsNode pos (or_new ch o)
unfolding IsNode new_node
or_new-IsNode ch pos cs none e h at = (e, all_null-AreSlots 27 0 refl)
or_new-IsNode ch pos cs (some c) e h at =
    let lt = child_at-lt cs 0 pos (some c) h at in
    let z : 0 + pos ≡ pos = omega arith in
    elim (child_at-AreSlots cs 0 pos h lt) [
      | inl q ↦ let clash : none ≡ some c = ok-injective (sym q ∙ at) in absurd (cc clash)
      | inr (d, q, n) ↦
          let same : some d ≡ some c = ok-injective (sym q ∙ at) in
          let same' : d ≡ c = cc same in subst (IsNode pos) same' (subst (λ x. IsNode x d) z n)
    ]

Result-cases {ℓ} :
    {A : Type ℓ} (r : Result A) → ((fault : Fault) × (r ≡ err fault)) ⊎ ((a : A) × (r ≡ ok a))
Result-cases (err fault) = inl (fault, refl)
Result-cases (ok a) = inr (a, refl)

-- `Insert` keeps the nodes at their places, and the character of the node itself.
unfoldable pub Kept : TrieNode → TrieNode → Type 0
Kept n m = AreSlots 0 (children m) × (character m ≡ character n)

pub insert_below-Kept :
    (word : List ℕ) (n : TrieNode) → AreSlots 0 (children n) → Kept n ((insert_below word n).0)
unfolding insert_below Kept
insert_below-Kept [] (node ch e cs) h = (h, refl)
insert_below-Kept (c ∷ word) (node ch e cs) h = elim (Option-cases (get_character_index c)) [
  | inl missing ↦ rw (missing, insert_below) (h, refl)
  | inr (pos, there) ↦ elim (Result-cases (child_at cs pos)) [
    | inl (fault, at) ↦ rw (there, at, insert_below) (h, refl)
    | inr (o, at) ↦
        let start = or_new-IsNode c pos cs o there h at in
        let (index, slots) = IsNode-parts pos (or_new c o) start in
        let (kept, same) = insert_below-Kept word (or_new c o) slots in
        let below =
          IsNode-join pos ((insert_below word (or_new c o)).0) (ap get_character_index same ∙ index)
            kept in
        let z : pos ≡ 0 + pos = omega arith in
        rw (there, at, insert_below)
          (
            set_child-AreSlots cs 0 pos _ h
                (subst (λ x. IsNode x ((insert_below word (or_new c o)).0)) z below),
            refl,
          )
  ]
]

-- The words inserted one after the other.
unfoldable pub build : Trie → List (List ℕ) → Trie
build t [] = t
build t (w ∷ ws) = build ((insert t w).0) ws

unfoldable pub IsTrie : Trie → Type 0
IsTrie t = AreSlots 0 (children t.header)

pub make_trie-IsTrie : IsTrie make_trie
unfolding IsTrie make_trie new_node
make_trie-IsTrie = all_null-AreSlots 27 0 refl

pub build-IsTrie : (ws : List (List ℕ)) (t : Trie) → IsTrie t → IsTrie (build t ws)
unfolding IsTrie build insert Kept
build-IsTrie [] t h = h
build-IsTrie (w ∷ ws) t h = build-IsTrie ws ((insert t w).0) ((insert_below-Kept w (t.header) h).0)
