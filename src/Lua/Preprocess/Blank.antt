-- ===== src/Lua/Preprocess/Blank.antt =====
-- internal/lua/preprocess.go: an empty line between two directives.
use mkq.Prelude.{
  ℕ, zero, suc, Bool, true, false, List, ◌∷◌, Bytes, ◌≡◌, refl, Bool-cases, inl, inr, ltb, length,
  arith, ◌-◌, take, if◌then◌else◌,
}
use mkq.Redis.{Result, ok, err}
use mkq.Lua.Path.{dir}
use mkq.Lua.Directive.{Match}
use mkq.Lua.Directive.Blank.{IsRef, two_directives, find_all-two}
use mkq.Lua.Preprocess.{
  Outcome, done, failed, panicked, State, member, resolve_include, skip_newline, enter, walk,
  expand, then_go, write,
}

-- No script comes out.
abbrev pub NoScript : Outcome State → Type 0
NoScript (done st) = ⊥
NoScript (failed e) = Unit
NoScript panicked = Unit

module _ (visit : Bytes → State → Outcome State) (directory : Bytes) (stack : List Bytes) where
  then_go-NoScript :
      (r : Outcome State) (go : State → Outcome State)
      → ((st : State) → NoScript (go st))
      → NoScript (then_go r go)
  then_go-NoScript (done st) go h = h st
  then_go-NoScript (failed e) go h = tt
  then_go-NoScript panicked go h = tt

  enter-NoScript :
      (r : Result Bytes) (go : State → Outcome State) (st : State)
      → ((st' : State) → NoScript (go st'))
      → NoScript (enter visit directory stack r go st)
  enter-NoScript (err e) go st h = tt
  enter-NoScript (ok target) go st h = elim (Bool-cases (member target stack)) [
    | inl cyclic ↦ rw cyclic tt
    | inr off_stack ↦ elim (Bool-cases (member target st.included)) [
      | inl old ↦ rw (off_stack, old) (h st)
      | inr fresh ↦ rw (off_stack, fresh) (then_go-NoScript _ go h)
    ]
  ]

  -- A match that begins in front of the cursor.
  walk_crossed :
      (m : Match) (ms : List Match) (cursor : Bytes) (st : State)
      → ltb (length cursor) (length m.before) ≡ true
      → walk visit directory stack (m ∷ ms) cursor st ≡ panicked
  unfolding walk
  walk_crossed m ms cursor st crossed = rw crossed

  walk_step :
      (m : Match) (ms : List Match) (cursor : Bytes) (st : State)
      → walk visit directory stack (m ∷ ms) cursor st ≡ (
          if ltb (length cursor) (length m.before)
          then panicked
          else enter visit directory stack
              (resolve_include directory m.ref)
              (walk visit directory stack ms (skip_newline m.after))
              (write (take (length cursor - length m.before) cursor) st))
  unfolding walk
  walk_step m ms cursor st = refl

  if-NoScript : (c : Bool) (r : Outcome State) → NoScript r → NoScript (if c then panicked else r)
  if-NoScript true r h = tt
  if-NoScript false r h = h

  crossed_second :
      (m n : Match) (ms : List Match) (second : Bytes) (st : State)
      → m.after ≡ 10 ∷ second
      → n.before ≡ 10 ∷ second
      → NoScript (walk visit directory stack (n ∷ ms) (skip_newline m.after) st)
  crossed_second m n ms second st after before =
      let crossed : ltb (length (skip_newline m.after)) (length n.before) ≡ true =
        rw (after, before) (ground arith) in
      rw (walk_crossed n ms (skip_newline m.after) st crossed) tt

  walk_second :
      (m n : Match) (ms : List Match) (second cursor : Bytes) (st : State)
      → m.after ≡ 10 ∷ second
      → n.before ≡ 10 ∷ second
      → NoScript (walk visit directory stack (m ∷ n ∷ ms) cursor st)
  walk_second m n ms second cursor st after before = rw (walk_step m (n ∷ ms) cursor st) (
      if-NoScript (ltb (length cursor) (length m.before)) _
        (enter-NoScript _ _ _ (λ st'. crossed_second m n ms second st' after before)))

-- A file with two directives at its head that one empty line parts is never expanded, whatever the
-- references and the files that they name: the program panics at the second, if nothing failed before.
expand-blank_line :
    (read : Bytes → Result Bytes) (left : ℕ) (path : Bytes) (stack : List Bytes) (st : State)
    (a b rest : Bytes)
    → IsRef a
    → IsRef b
    → read path ≡ ok (two_directives a b rest)
    → NoScript (expand read left path stack st)
unfolding expand
expand-blank_line read zero path stack st a b rest ha hb contents = tt
expand-blank_line read (suc left) path stack st a b rest ha hb contents =
    elim (Bool-cases (member path stack)) [
      | inl cyclic ↦ rw cyclic tt
      | inr fresh ↦
          let (m, n, ms, found, begins, after, before) = find_all-two a b rest ha hb in
          rw (fresh, contents, found)
            (walk_second (λ target st'. expand read left target (path ∷ stack) st') (dir path)
              (path ∷ stack) m n ms _ (two_directives a b rest)
              (record st { files_read = path ∷ st.files_read }) after before)
    ]
