-- ===== src/Lua/Preprocess.antt =====
-- internal/lua/preprocess.go: the expansion of include directives. The embedded files are a parameter,
-- `read`.
pub mod Once
pub mod Blank
use mkq.Prelude.{
  ℕ, zero, suc, ◌-◌, Bool, ◌||◌, List, [], ◌∷◌, ◌++◌, Bytes, codes, eq_bytes, take, length, ltb,
  ◌==◌, if◌then◌else◌, true, false,
}
use mkq.Failure.{Failure, plain, wrap}
use mkq.Redis.{Result, ok, err, checked}
use mkq.Lua.Path.{has_prefix, contains, join, dir}
use mkq.Lua.Directive.{Match, find_all}

abbrev pub scripts_root : Bytes
scripts_root = codes "scripts"

-- A slice of a text with its bounds the wrong way round makes the program panic.
pub data Outcome (A : Type 0) : Type 0 where
  done : A → Outcome A
  failed : Failure → Outcome A
  panicked : Outcome A

-- The buffer, the set `included`, and the files read so far, the newest first in both lists.
pub record State : Type 0 where
  pub buf : Bytes
  pub included : List Bytes
  pub files_read : List Bytes

abbrev pub member : Bytes → List Bytes → Bool
member a [] = false
member a (b ∷ l) = eq_bytes a b || member a l

unfoldable pub resolve_include : Bytes → Bytes → Result Bytes
resolve_include directory ref =
    let target = join directory ref ++ codes ".lua" in
    if has_prefix (codes "/") ref || contains (codes "..") ref
    then err (plain (codes "lua include reference escapes scripts root"))
    else if has_prefix (scripts_root ++ codes "/") target
    then ok target
    else err (plain (codes "lua include resolved outside scripts root"))

abbrev pub skip_newline : Bytes → Bytes
skip_newline [] = []
skip_newline (c ∷ s) = if c == 10 then s else c ∷ s

abbrev pub cycle : Failure
cycle = plain (codes "lua include cycle detected")

abbrev pub then_go : Outcome State → (State → Outcome State) → Outcome State
then_go (done st) go = go st
then_go (failed e) go = failed e
then_go panicked go = panicked

abbrev pub write : Bytes → State → State
write s st = record st { buf = st.buf ++ s }

-- The loop over the matches of one file. `stack` holds the files that are being expanded, this one
-- included; `visit` expands another one.
module _ (visit : Bytes → State → Outcome State) (directory : Bytes) (stack : List Bytes) where
  -- A reference that was resolved: a cycle, a file that is in already, or a file to go into.
  abbrev pub enter : Result Bytes → (State → Outcome State) → State → Outcome State
  enter (err e) go st = failed e
  enter (ok target) go st =
      if member target stack
      then failed cycle
      else if member target st.included
      then go st
      else then_go (visit target (record st { included = target ∷ st.included })) go

  unfoldable pub walk : List Match → Bytes → State → Outcome State
  walk [] cursor st = done (write cursor st)
  walk (m ∷ ms) cursor st =
      let rest = walk ms (skip_newline m.after) in
      if ltb (length cursor) (length m.before)
      then panicked
      else enter (resolve_include directory m.ref) rest
          (write (take (length cursor - length m.before) cursor) st)

module _ (read : Bytes → Result Bytes) where
  abbrev pub walk_file :
      (Bytes → State → Outcome State) → Bytes → List Bytes → Result Bytes → State → Outcome State
  walk_file visit path stack (err e) st = failed (wrap (codes "read lua") e)
  walk_file visit path stack (ok text) st = walk visit (dir path) stack (find_all text) text st

  -- With `left` levels of the depth that is allowed. `stack` is the set of the files that are being
  -- expanded; a file leaves the set when its expansion returns.
  unfoldable pub expand : ℕ → Bytes → List Bytes → State → Outcome State
  unfolding walk
  expand zero path stack st = failed (plain (codes "lua include depth exceeded"))
  expand (suc left) path stack st =
      if member path stack
      then failed cycle
      else walk_file (λ target st'. expand left target (path ∷ stack) st') path (path ∷ stack)
          (read path) (record st { files_read = path ∷ st.files_read })

  abbrev pub entry_file : Bytes → Bytes
  entry_file name = join scripts_root (name ++ codes ".lua")

  -- The depths 0 to 32 are allowed.
  unfoldable pub preprocess : Bytes → Outcome State
  unfolding expand
  preprocess name =
      expand 33 (entry_file name) [] (record { buf = []; included = []; files_read = [] })
