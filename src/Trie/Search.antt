-- ===== src/Trie/Search.antt =====
-- TrieFoDict/src/trie.cpp, `Search`: the list for a prefix against `Contains`.
use eureka.Common.{
  one_if, ok, ok-injective, ℕ, suc, ◌+◌, ◌≡◌, refl, sym, ap, ◌∙◌, inl, inr, List, [], ◌∷◌, ◌++◌,
  append-nil, arith,
}
use eureka.Trie.{
  TrieNode, node, last_char_of_word, children, characters_of, process, rounds, rounds_of, make_trie,
  contains, search,
}
use eureka.Trie.Nodes.{NoZero, build, IsTrie, make_trie-IsTrie, build-IsTrie}
use eureka.Trie.Walk.{under, own, suffixes, under-append, under-own, process-found}
use eureka.Trie.Inserted.{is_inserted, AllNoZero, contains-inserted}
use eureka.Trie.Listed.{times, times-append, times-under}
use eureka.Trie.Words.{listed-contains_below, locate-contains_below}

-- The loop from the node of a prefix on.
process-node :
    (prefix : List ℕ) (n : TrieNode)
    → process (suc (rounds n)) prefix ((n, children n) ∷ []) []
      ≡ ok (under prefix (suffixes (children n) ++ own (last_char_of_word n) []))
unfolding process rounds characters_of
process-node prefix (node ch e cs) =
    let n = node ch e cs in
    let fuel : suc (suc (rounds_of cs)) ≡ rounds_of cs + suc 1 = omega arith in
    let tail = own e (prefix ++ []) in
    let words : under (prefix ++ []) (suffixes cs) ++ tail
        ≡ under prefix (suffixes cs ++ own e []) =
      ap (λ w. under w (suffixes cs) ++ tail) (append-nil prefix)
      ∙ ap (λ l. under prefix (suffixes cs) ++ l) (sym (under-own prefix [] e))
      ∙ sym (under-append prefix (suffixes cs) (own e [])) in
    ap (λ k. process k prefix ((n, cs) ∷ []) []) fuel
    ∙ process-found prefix cs 1 n [] []
    ∙ ap ok words

NoZero-append : (p s : List ℕ) → NoZero p → NoZero s → NoZero (p ++ s)
unfolding NoZero
NoZero-append [] s zp zs = zs
NoZero-append (c ∷ p) s (nz, zp) zs = (nz, NoZero-append p s zp zs)

-- What a search for a prefix returns behind the insertions of ws.
pub record Found (ws : List (List ℕ)) (prefix : List ℕ) : Type 0 where
  pub words : List (List ℕ)
  pub returned : search (build make_trie ws) prefix ≡ ok words
  pub begins : (ends : List (List ℕ)) × (words ≡ under prefix ends)
  pub contained :
      (s : List ℕ)
      → NoZero s
      → contains (build make_trie ws) (prefix ++ s) ≡ ok (is_inserted (prefix ++ s) ws)
  pub once :
      (s : List ℕ) → NoZero s → times (prefix ++ s) words ≡ one_if (is_inserted (prefix ++ s) ws)

-- Behind insertions of words without a zero byte, a search for such a prefix returns; each word that
-- it lists begins with the prefix, and a word that does is listed once if Contains has it, which is if
-- it was inserted and its characters are in the alphabet, and else not at all.
pub search-Found :
    (ws : List (List ℕ)) (prefix : List ℕ) → AllNoZero ws → NoZero prefix → Found ws prefix
unfolding search contains IsTrie
search-Found ws prefix zs zp =
    let t = build make_trie ws in
    let slots = build-IsTrie ws make_trie make_trie-IsTrie in
    let has : (s : List ℕ)
        → NoZero s
        → contains t (prefix ++ s) ≡ ok (is_inserted (prefix ++ s) ws) =
      λ s z. contains-inserted ws (prefix ++ s) zs (NoZero-append prefix s zp z) in
    elim (locate-contains_below prefix (t.header) zp slots) [
      | inl (e, f) ↦ record {
        words = [];
        returned = rw (e, search) refl;
        begins = ([], refl);
        contained = has;
        once = λ s z. ap one_if (ok-injective (sym (f s) ∙ has s z));
      }
      | inr (n, e, below, f) ↦
          let ends = suffixes (children n) ++ own (last_char_of_word n) [] in
          record {
            words = under prefix ends;
            returned = rw (e, search) (process-node prefix n);
            begins = (ends, refl);
            contained = has;
            once = λ s z.
                let (b, g, l) = listed-contains_below s n z below in
                times-under prefix s ends
                ∙ times-append s (suffixes (children n)) (own (last_char_of_word n) [])
                ∙ l
                ∙ ap one_if (ok-injective (sym (f s ∙ g) ∙ has s z));
          }
    ]
