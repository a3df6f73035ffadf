-- ===== src/Trie/Inserted.antt =====
-- TrieFoDict/src/trie.cpp, `Contains` behind `Insert`.
use eureka.Common.{
  ==_refl, ==_ne, Option-cases, Result, ok, at, ℕ, zero, suc, ◌+◌, ◌<◌, ◌≡◌, refl, sym, ap, ◌∙◌,
  ◌≢◌, ◌⊎◌, inl, inr, Bool, true, false, ◌&&◌, ◌||◌, Option, none, some, List, [], ◌∷◌, arith,
}
use eureka.Hashids.{eq_string}
use eureka.Ternary.Alphabet.{
  get_character_index, get_character_index-injective, get_character_index-lt,
}
use native.Mathlib.Decide.{ℕ_discrete}
use eureka.Trie.{
  TrieNode, node, Children, end, null, child, children, all_null, new_node, child_at, set_child,
  or_new, insert_below, contains_below, Trie, make_trie, insert, contains,
}
use eureka.Trie.Nodes.{
  AreSlots, IsNode, NoZero, child_at-AreSlots, IsNode-parts, or_new-IsNode, Kept, insert_below-Kept,
  build, IsTrie, make_trie-IsTrie,
}

-- All characters are in the alphabet.
abbrev pub is_there : Option ℕ → Bool
is_there none = false
is_there (some i) = true

unfoldable pub is_word : List ℕ → Bool
is_word [] = true
is_word (c ∷ w) = is_there (get_character_index c) && is_word w

-- The insertion of w puts v into the trie.
abbrev pub hits : List ℕ → List ℕ → Bool
hits w v = is_word w && eq_string v w

child_at-set_self :
    (cs : Children) (pos : ℕ) (o : Option TrieNode) (d : TrieNode)
    → child_at cs pos ≡ ok o
    → child_at (set_child cs pos d) pos ≡ ok (some d)
unfolding child_at set_child
child_at-set_self end pos o d e = absurd (cc e)
child_at-set_self (null cs) zero o d e = refl
child_at-set_self (child c cs) zero o d e = refl
child_at-set_self (null cs) (suc pos) o d e = child_at-set_self cs pos o d e
child_at-set_self (child c cs) (suc pos) o d e = child_at-set_self cs pos o d e

child_at-set_ne :
    (cs : Children) (pos q : ℕ) (d : TrieNode)
    → pos ≢ q
    → child_at (set_child cs pos d) q ≡ child_at cs q
unfolding child_at set_child
child_at-set_ne end pos q d ne = refl
child_at-set_ne (null cs) zero zero d ne = absurd (ne refl)
child_at-set_ne (child c cs) zero zero d ne = absurd (ne refl)
child_at-set_ne (null cs) zero (suc q) d ne = refl
child_at-set_ne (child c cs) zero (suc q) d ne = refl
child_at-set_ne (null cs) (suc pos) zero d ne = refl
child_at-set_ne (child c cs) (suc pos) zero d ne = refl
child_at-set_ne (null cs) (suc pos) (suc q) d ne = child_at-set_ne cs pos q d (λ e. ne (ap suc e))
child_at-set_ne (child c cs) (suc pos) (suc q) d ne =
    child_at-set_ne cs pos q d (λ e. ne (ap suc e))

child_at-all_null : (n pos : ℕ) → pos < n → child_at (all_null n) pos ≡ ok none
unfolding child_at
child_at-all_null zero pos h = absurd (omega arith)
child_at-all_null (suc n) zero h = refl
child_at-all_null (suc n) (suc pos) h = child_at-all_null n pos (omega arith)

contains_below-new : (v : List ℕ) (ch : ℕ) → NoZero v → contains_below v (new_node ch) ≡ ok false
unfolding contains_below new_node NoZero
contains_below-new [] ch z = refl
contains_below-new (c ∷ v) ch (nz, z) = elim (Option-cases (get_character_index c)) [
  | inl missing ↦ rw (missing, contains_below) refl
  | inr (pos, there) ↦
      rw (there, child_at-all_null 27 pos (get_character_index-lt c pos nz there), contains_below)
        refl
]

-- A word looked up in the child that an insertion goes on from.
contains_below-or_new :
    (v : List ℕ) (c : ℕ) (o : Option TrieNode) (b : Bool)
    → NoZero v
    → elim o as (λ x. Result Bool) [ none ↦ ok false | some d ↦ contains_below v d ] ≡ ok b
    → contains_below v (or_new c o) ≡ ok b
contains_below-or_new v c none b z e = contains_below-new v c z ∙ e
contains_below-or_new v c (some d) b z e = e

and_false : (b : Bool) → (b && false) ≡ false
and_false true = refl
and_false false = refl

hits-other : (c a : ℕ) (w v : List ℕ) → a ≢ c → hits (c ∷ w) (a ∷ v) ≡ false
hits-other c a w v ne = rw (==_ne a c ne) (and_false (is_word (c ∷ w)))

hits-same :
    (c pos : ℕ) (w v : List ℕ) → get_character_index c ≡ some pos → hits (c ∷ w) (c ∷ v) ≡ hits w v
unfolding is_word
hits-same c pos w v there = rw (there, ==_refl c, is_word) refl

insert_below-step :
    (c pos : ℕ) (w : List ℕ) (here : ℕ) (e : Bool) (cs : Children) (o : Option TrieNode)
    → get_character_index c ≡ some pos
    → child_at cs pos ≡ ok o
    → (insert_below (c ∷ w) (node here e cs)).0
      ≡ node here e (set_child cs pos ((insert_below w (or_new c o)).0))
unfolding insert_below
insert_below-step c pos w here e cs o there at = rw (there, at, insert_below) refl

-- What `Contains` finds when the child d at the place of c, where o was, has become one that has in
-- addition the rest of the word.
contains_below-set :
    (c pos : ℕ) (w v : List ℕ) (here : ℕ) (e : Bool) (cs : Children) (o : Option TrieNode)
    (d : TrieNode) (b : Bool)
    → NoZero v
    → get_character_index c ≡ some pos
    → child_at cs pos ≡ ok o
    → ((v : List ℕ) (b : Bool)
        → NoZero v
        → contains_below v (or_new c o) ≡ ok b
        → contains_below v d ≡ ok (hits w v || b))
    → contains_below v (node here e cs) ≡ ok b
    → contains_below v (node here e (set_child cs pos d)) ≡ ok (hits (c ∷ w) v || b)
unfolding contains_below NoZero
contains_below-set c pos w [] here e cs o d b z there at ih q =
    q ∙ ap (λ x. ok (x || b)) (sym (and_false (is_word (c ∷ w))))
contains_below-set c pos w (a ∷ v) here e cs o d b (na, z) there at ih q =
    elim (Option-cases (get_character_index a)) [
      | inl missing ↦
          let ne : a ≢ c = λ x.
            let clash : none ≡ some pos = sym missing ∙ ap get_character_index x ∙ there in
            absurd (cc clash) in
          let q' : ok false ≡ ok b = rw (missing, contains_below) at q in
          rw (missing, contains_below) (q' ∙ ap (λ x. ok (x || b)) (sym (hits-other c a w v ne)))
      | inr (s, place) ↦ elim (ℕ_discrete pos s) [
        | yes same ↦
            let place' : get_character_index a ≡ some pos = place ∙ ap some (sym same) in
            let this : a ≡ c = get_character_index-injective a c pos place' there in
            let below : elim o as (λ x. Result Bool) [
              | none ↦ ok false
              | some m ↦ contains_below v m
            ]
                ≡ ok b =
              rw (place', at, contains_below) at q in
            let known = contains_below-or_new v c o b z below in
            let hit : hits w v ≡ hits (c ∷ w) (a ∷ v) =
              sym (hits-same c pos w v there) ∙ ap (λ x. hits (c ∷ w) (x ∷ v)) (sym this) in
            rw (place', child_at-set_self cs pos o d at, contains_below)
              (ih v b z known ∙ ap (λ x. ok (x || b)) hit)
        | no other ↦
            let ne : a ≢ c = λ x.
              let both : some s ≡ some pos = sym place ∙ ap get_character_index x ∙ there in
              let both' : s ≡ pos = cc both in other (sym both') in
            rw (place, child_at-set_ne cs pos s d other, contains_below)
              ((rw (place, contains_below) at q)
                ∙ ap (λ x. ok (x || b)) (sym (hits-other c a w v ne)))
      ]
    ]

pub contains_below-insert :
    (w v : List ℕ) (n : TrieNode) (b : Bool)
    → NoZero w
    → NoZero v
    → AreSlots 0 (children n)
    → contains_below v n ≡ ok b
    → contains_below v ((insert_below w n).0) ≡ ok (hits w v || b)
unfolding contains_below insert_below NoZero is_word
contains_below-insert [] [] (node here e cs) b zw zv h q = refl
contains_below-insert [] (a ∷ v) (node here e cs) b zw zv h q = q
contains_below-insert (c ∷ w) v (node here e cs) b (nc, zw) zv h q =
    elim (Option-cases (get_character_index c)) [
      | inl missing ↦ rw (missing, insert_below, is_word) q
      | inr (pos, there) ↦
          let lt = get_character_index-lt c pos nc there in
          let (o, at) = some_child cs pos (child_at-AreSlots cs 0 pos h (omega arith)) in
          let (index, slots) =
            IsNode-parts pos (or_new c o) (or_new-IsNode c pos cs o there h at) in
          let d = (insert_below w (or_new c o)).0 in
          ap (contains_below v) (insert_below-step c pos w here e cs o there at)
          ∙ contains_below-set c pos w v here e cs o d b zv there at
              (λ v' b' z'. contains_below-insert w v' (or_new c o) b' zw z' slots) q
    ]
  where
    some_child :
        (cs : Children) (pos : ℕ)
        → (child_at cs pos ≡ ok none)
          ⊎ ((m : TrieNode) × (child_at cs pos ≡ ok (some m)) × IsNode (0 + pos) m)
        → (o : Option TrieNode) × (child_at cs pos ≡ ok o)
    some_child cs pos (inl e) = (none, e)
    some_child cs pos (inr (m, e, k)) = (some m, e)

-- The word is among those that were inserted, and all its characters are in the alphabet.
abbrev pub is_inserted : List ℕ → List (List ℕ) → Bool
is_inserted v [] = false
is_inserted v (w ∷ ws) = let rest = is_inserted v ws in rest || hits w v

abbrev pub AllNoZero : List (List ℕ) → Type 0
AllNoZero [] = Unit {0}
AllNoZero (w ∷ ws) = NoZero w × AllNoZero ws

or_assoc : (a b c : Bool) → (a || (b || c)) ≡ ((a || b) || c)
or_assoc true b c = refl
or_assoc false b c = refl

contains-build :
    (ws : List (List ℕ)) (v : List ℕ) (t : Trie) (b : Bool)
    → AllNoZero ws
    → NoZero v
    → IsTrie t
    → contains t v ≡ ok b
    → contains (build t ws) v ≡ ok (is_inserted v ws || b)
unfolding contains build insert IsTrie Kept
contains-build [] v t b zs z h q = q
contains-build (w ∷ ws) v t b (zw, zs) z h q =
    contains-build ws v ((insert t w).0) (hits w v || b) zs z ((insert_below-Kept w (t.header) h).0)
      (contains_below-insert w v (t.header) b zw z h q)
    ∙ ap ok (or_assoc (is_inserted v ws) (hits w v) b)

or_false : (a : Bool) → (a || false) ≡ a
or_false true = refl
or_false false = refl

-- A trie has the words that were inserted.
pub contains-inserted :
    (ws : List (List ℕ)) (v : List ℕ)
    → AllNoZero ws
    → NoZero v
    → contains (build make_trie ws) v ≡ ok (is_inserted v ws)
unfolding contains make_trie
contains-inserted ws v zs z =
    contains-build ws v make_trie false zs z make_trie-IsTrie (contains_below-new v 0 z)
    ∙ ap ok (or_false (is_inserted v ws))
