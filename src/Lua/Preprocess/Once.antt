-- ===== src/Lua/Preprocess/Once.antt =====
-- internal/lua/preprocess.go: no file is put in twice, and none from outside the scripts.
use mkq.Prelude.{
  ℕ, zero, suc, Bool, true, false, List, [], ◌∷◌, ◌++◌, Bytes, codes, eq_bytes, eq_bytes_refl,
  eq_bytes_sound, ◌≡◌, refl, ap, Bool-cases, inl, inr, ltb, length, arith, All,
}
use mkq.Redis.{Result, ok, err}
use mkq.Lua.Path.{has_prefix, dir}
use mkq.Lua.Directive.{Match, find_all}
use mkq.Lua.Preprocess.{
  Outcome, done, failed, panicked, State, member, resolve_include, skip_newline, enter, walk,
  walk_file, expand, preprocess, entry_file, scripts_root, then_go, write,
}

abbrev pub Distinct : List Bytes → Type 0
Distinct [] = Unit
Distinct (a ∷ l) = (member a l ≡ false) × Distinct l

abbrev pub InRoot : Bytes → Type 0
InRoot p = has_prefix (scripts_root ++ codes "/") p ≡ true

resolve_include-InRoot :
    (directory ref target : Bytes) → resolve_include directory ref ≡ ok target → InRoot target
unfolding resolve_include
resolve_include-InRoot directory ref target e = ground arith

-- Beside the script itself exactly the included files have been read, each once, and all of them lie under
-- the scripts root.
pub record Good (entry : Bytes) (st : State) : Type 0 where
  pub all_read : st.files_read ≡ st.included ++ entry ∷ []
  pub once : Distinct st.files_read
  pub rooted : All InRoot st.included

abbrev pub Ends : Bytes → Outcome State → Type 0
Ends entry (done st) = Good entry st
Ends entry (failed e) = Unit
Ends entry panicked = Unit

member-snoc :
    (a : Bytes) (l : List Bytes) (e : Bytes)
    → member a l ≡ false
    → eq_bytes a e ≡ false
    → member a (l ++ e ∷ []) ≡ false
member-snoc a [] e h k = rw k
member-snoc a (b ∷ l) e h k = ground (arith, member-snoc a l e)

not_on_stack :
    (a entry : Bytes) (stack : List Bytes)
    → member a stack ≡ false
    → member entry stack ≡ true
    → eq_bytes a entry ≡ false
not_on_stack a entry stack h k = elim (Bool-cases (eq_bytes a entry)) [
  | inl e ↦ let same = eq_bytes_sound a entry e in absurd (clash (rw same at h) k)
  | inr e ↦ e
]
  where
    clash : {b : Bool} → b ≡ false → b ≡ true → ⊥
    clash p q = cc

module _ (entry : Bytes) where
  -- What an expansion needs: its file, put in front of the ones read, keeps them distinct.
  pub record Ready (path : Bytes) (stack : List Bytes) (st : State) : Type 0 where
    pub next_read : path ∷ st.files_read ≡ st.included ++ entry ∷ []
    pub once : Distinct (path ∷ st.files_read)
    pub rooted : All InRoot st.included
    pub from_entry : member entry (path ∷ stack) ≡ true

  module _ (visit : Bytes → State → Outcome State) (directory : Bytes) (stack : List Bytes)
      (below : member entry stack ≡ true)
      (visits : (target : Bytes) (st : State)
        → Ready target stack st
        → Ends entry (visit target st)) where
    then_go-Ends :
        (r : Outcome State) (go : State → Outcome State)
        → Ends entry r
        → ((st : State) → Good entry st → Ends entry (go st))
        → Ends entry (then_go r go)
    then_go-Ends (done st) go h k = k st h
    then_go-Ends (failed e) go h k = tt
    then_go-Ends panicked go h k = tt

    target-Ready :
        (target : Bytes) (st : State)
        → member target stack ≡ false
        → member target st.included ≡ false
        → InRoot target
        → Good entry st
        → Ready target stack (record st { included = target ∷ st.included })
    target-Ready target st off_stack fresh inside g = record {
      next_read = ap (λ l. target ∷ l) g.all_read;
      once = (
        rw g.all_read (
            member-snoc target st.included entry fresh
              (not_on_stack target entry stack off_stack below)),
        g.once,
      );
      rooted = (inside, g.rooted);
      from_entry = ground arith;
    }

    enter-Ends :
        (r : Result Bytes) (go : State → Outcome State) (st : State)
        → ((target : Bytes) → r ≡ ok target → InRoot target)
        → Good entry st
        → ((st' : State) → Good entry st' → Ends entry (go st'))
        → Ends entry (enter visit directory stack r go st)
    enter-Ends (err e) go st inside g k = tt
    enter-Ends (ok target) go st inside g k = elim (Bool-cases (member target stack)) [
      | inl cyclic ↦ rw cyclic tt
      | inr off_stack ↦ elim (Bool-cases (member target st.included)) [
        | inl old ↦ rw (off_stack, old) (k st g)
        | inr fresh ↦
            rw (off_stack, fresh)
              (then_go-Ends _ go
                (visits target _ (target-Ready target st off_stack fresh (inside target refl) g)) k)
      ]
    ]

    write-Good : (s : Bytes) (st : State) → Good entry st → Good entry (write s st)
    write-Good s st g = record { all_read = g.all_read; once = g.once; rooted = g.rooted }

    walk-Ends :
        (ms : List Match) (cursor : Bytes) (st : State)
        → Good entry st
        → Ends entry (walk visit directory stack ms cursor st)
    unfolding walk
    walk-Ends [] cursor st g = write-Good cursor st g
    walk-Ends (m ∷ ms) cursor st g = elim (Bool-cases (ltb (length cursor) (length m.before))) [
      | inl crossed ↦ rw crossed tt
      | inr fine ↦ rw fine (
          enter-Ends _ _ _ (resolve_include-InRoot directory m.ref) (write-Good _ st g)
            (walk-Ends ms (skip_newline m.after)))
    ]

module _ (read : Bytes → Result Bytes) (entry : Bytes) where
  walk_file-Ends :
      (visit : Bytes → State → Outcome State) (path : Bytes) (stack : List Bytes) (r : Result Bytes)
      (st : State)
      → member entry stack ≡ true
      → ((target : Bytes) (st' : State)
          → Ready entry target stack st'
          → Ends entry (visit target st'))
      → Good entry st
      → Ends entry (walk_file read visit path stack r st)
  walk_file-Ends visit path stack (err e) st below visits g = tt
  walk_file-Ends visit path stack (ok text) st below visits g =
      walk-Ends entry visit (dir path) stack below visits (find_all text) text st g

  expand-Ends :
      (left : ℕ) (path : Bytes) (stack : List Bytes) (st : State)
      → Ready entry path stack st
      → Ends entry (expand read left path stack st)
  unfolding expand
  expand-Ends zero path stack st ready = tt
  expand-Ends (suc left) path stack st ready = elim (Bool-cases (member path stack)) [
    | inl cyclic ↦ rw cyclic tt
    | inr fresh ↦ rw fresh (
        walk_file-Ends _ path (path ∷ stack) (read path) _ ready.from_entry
          (λ target st'. expand-Ends left target (path ∷ stack) st')
          (record { all_read = ready.next_read; once = ready.once; rooted = ready.rooted }))
  ]

-- If `preprocess` gives a script: the files it has read are the entry point and the included ones, each of
-- them once, however often it is named, and every included file lies under the scripts root.
pub preprocess-Good :
    (read : Bytes → Result Bytes) (name : Bytes)
    → Ends (entry_file read name) (preprocess read name)
unfolding preprocess
preprocess-Good read name =
    expand-Ends read (entry_file read name) 33 (entry_file read name) [] _ (record {
      next_read = refl;
      once = (refl, tt);
      rooted = tt;
      from_entry = rw (eq_bytes_refl (entry_file read name));
    })
