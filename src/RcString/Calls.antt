-- ===== src/RcString/Calls.antt =====
-- RCString/src/rc_string.h, the members of RCString as calls: on the strings with their blocks, and on
-- values of which each is a string of its own.
-- The text that Append is given is not part of the string itself.
use eureka.Common.{
  ℕ, List, [], ◌∷◌, ◌++◌, length, set, none, some, Result, ok, undefined, ◌>>=◌, ◌>>◌, ensure, true,
  false, ltb,
}
use eureka.RcString.{
  World, create, create_empty, copy, destroy, append, refer, put_char, text, deref,
}
use eureka.RcString.Shown.{Value}

-- `puts` is a write through the reference that `refers` has returned.
pub data Call : Type 0 where
  creates_empty : Call
  creates : List ℕ → Call
  copies destroys refers reads : ℕ → Call
  appends : ℕ → List ℕ → Call
  puts : ℕ → ℕ → ℕ → Call

-- What a call outputs, and the state.
abbrev pub Outcome : Type 0 → Type 0
Outcome S = Result (List ℕ × S)

abbrev pub silent : {S : Type 0} → Result S → Outcome S
silent r = do s ← r; ok ([], s)

unfoldable pub call : (ℕ → ℕ) → World → Call → Outcome World
call stale w creates_empty = silent (create_empty stale w)
call stale w (creates str) = silent (create stale w str)
call stale w (copies v) = silent (copy stale w v)
call stale w (destroys v) = silent (destroy w v)
call stale w (refers v) = silent (refer stale w v)
call stale w (reads v) = do t ← text w v; ok (t, w)
call stale w (appends v str) = silent (append stale w v str)
call stale w (puts v pos c) = silent (put_char w v pos c)

-- The same on values. A copy has no references into it, and an append ends the references.
unfoldable pub call_spec : List Value → Call → Outcome (List Value)
call_spec vs creates_empty = ok ([], vs ++ some ([], false) ∷ [])
call_spec vs (creates str) = ok ([], vs ++ some (str, false) ∷ [])
call_spec vs (copies v) = do (t, m) ← deref vs v; ok ([], vs ++ some (t, false) ∷ [])
call_spec vs (destroys v) = do (t, m) ← deref vs v; ok ([], set vs v none)
call_spec vs (refers v) = do (t, m) ← deref vs v; ok ([], set vs v (some (t, true)))
call_spec vs (reads v) = do (t, m) ← deref vs v; ok (t, vs)
call_spec vs (appends v str) = do (t, m) ← deref vs v; ok ([], set vs v (some (t ++ str, false)))
call_spec vs (puts v pos c) = do
  (t, m) ← deref vs v
  ensure m undefined
  ensure (ltb pos (length t)) undefined
  ok ([], set vs v (some (set t pos c, true)))

unfoldable pub run :
    {S : Type 0} → (S → Call → Outcome S) → S → List Call → Result (List (List ℕ) × S)
run step s [] = ok ([], s)
run step s (c ∷ cs) = do
  (out, next) ← step s c
  (outs, end) ← run step next cs
  ok (out ∷ outs, end)

abbrev pub no_strings : World
no_strings = record { heap = []; strings = [] }
