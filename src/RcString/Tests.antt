-- ===== src/RcString/Tests.antt =====
-- Strings that share their data at concrete inputs.
use eureka.Common.{ℕ, ◌≡◌, refl, List, [], ◌∷◌, none, ok, err, check_failed, arith, at}
use eureka.RcString.{World, create, deref, copy_data, make_data, reserve, copy_to, unique}
use eureka.RcString.Calls.{
  Call, creates, copies, destroys, refers, reads, appends, puts, call, call_spec, run, no_strings,
}
use eureka.RcString.Refined.{run-refines, run-frees, allocated}

-- A copy is changed, and a copy of one that a reference leads into.
abbrev edits : List Call
edits =
    creates (97 ∷ 98 ∷ [])
    ∷ copies 0
    ∷ appends 1 (99 ∷ [])
    ∷ refers 0
    ∷ copies 0
    ∷ puts 0 0 65
    ∷ reads 0
    ∷ reads 1
    ∷ reads 2
    ∷ destroys 0
    ∷ destroys 1
    ∷ destroys 2
    ∷ []

abbrev shown : List (List ℕ)
shown =
    []
    ∷ []
    ∷ []
    ∷ []
    ∷ []
    ∷ []
    ∷ (65 ∷ 98 ∷ [])
    ∷ (97 ∷ 98 ∷ 99 ∷ [])
    ∷ (97 ∷ 98 ∷ [])
    ∷ []
    ∷ []
    ∷ []
    ∷ []

abbrev zero_filled : ℕ → ℕ
zero_filled p = 0

edits-run : run call_spec [] edits ≡ ok (shown, none ∷ none ∷ none ∷ [])
unfolding run call_spec deref at
edits-run = refl

run-refines_example : (w : World) × (run (call zero_filled) no_strings edits ≡ ok (shown, w))
run-refines_example =
    run-refines zero_filled edits shown (none ∷ none ∷ none ∷ []) (λ p. refl) (omega arith)
      edits-run

run-frees_example :
    (w : World) × (run (call zero_filled) no_strings edits ≡ ok (shown, w)) × (allocated w.heap ≡ 0)
run-frees_example =
    run-frees zero_filled edits shown (none ∷ none ∷ none ∷ []) (λ p. refl) (omega arith) edits-run
      (refl, (refl, (refl, tt)))

-- A capacity that was left behind: the room is not made, and the text is copied to the null pointer.
stale_capacity : create (λ p. 7) no_strings (97 ∷ 98 ∷ []) ≡ err check_failed
unfolding create copy_data make_data reserve copy_to unique
stale_capacity = refl
