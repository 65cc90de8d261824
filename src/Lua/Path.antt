-- ===== src/Lua/Path.antt =====
-- The functions of Go's package path that internal/lua/preprocess.go uses, on slash-separated paths.
use mkq.Prelude.{
  Bool, true, false, ◌&&◌, ◌||◌, List, [], ◌∷◌, ◌++◌, reverse, Bytes, codes, eq_bytes, is_empty,
  ◌==◌, ◌≡◌, refl, if◌then◌else◌,
}

abbrev slash : Bytes
slash = codes "/"

-- Whether a text begins with another (strings.HasPrefix, the prefix first).
unfoldable pub has_prefix : Bytes → Bytes → Bool
has_prefix [] s = true
has_prefix (p ∷ ps) [] = false
has_prefix (p ∷ ps) (c ∷ s) = p == c && has_prefix ps s

-- strings.Contains, the part first.
unfoldable pub contains : Bytes → Bytes → Bool
unfolding has_prefix
contains p [] = is_empty p
contains p (c ∷ s) = has_prefix p (c ∷ s) || contains p s

abbrev on_first : (Bytes → Bytes) → List Bytes → List Bytes
on_first f [] = f [] ∷ []
on_first f (e ∷ es) = f e ∷ es

-- The parts between the slashes.
unfoldable pub elements : Bytes → List Bytes
elements [] = [] ∷ []
elements (c ∷ s) = let es = elements s in if c == b'/' then [] ∷ es else on_first (λ e. c ∷ e) es

unfoldable pub joined : List Bytes → Bytes
joined [] = []
joined (e ∷ []) = e
joined (e ∷ f ∷ es) = e ++ slash ++ joined (f ∷ es)

-- `..` takes the last part away, if there is one that is not itself `..`; at the root it is dropped.
abbrev parent : Bool → List Bytes → List Bytes
parent rooted [] = if rooted then [] else codes ".." ∷ []
parent rooted (e ∷ out) = if eq_bytes e (codes "..") then codes ".." ∷ e ∷ out else out

-- The loop of path.Clean over the parts; `out` holds the parts kept, the last one first.
unfoldable pub cleaned : Bool → List Bytes → List Bytes → List Bytes
cleaned rooted out [] = reverse out
cleaned rooted out (e ∷ es) =
    cleaned rooted
      (if is_empty e || eq_bytes e (codes ".")
        then out
        else if eq_bytes e (codes "..")
        then parent rooted out
        else e ∷ out)
      es

abbrev or_dot : Bytes → Bytes
or_dot [] = codes "."
or_dot (c ∷ s) = c ∷ s

unfoldable pub clean : Bytes → Bytes
unfolding elements joined cleaned has_prefix
clean s =
    if has_prefix slash s
    then slash ++ joined (cleaned true [] (elements s))
    else or_dot (joined (cleaned false [] (elements s)))

-- path.Join of two parts; an empty part is left out.
unfoldable pub join : Bytes → Bytes → Bytes
unfolding clean
join [] [] = []
join [] (c ∷ s) = clean (c ∷ s)
join (c ∷ s) [] = clean (c ∷ s)
join (c ∷ s) (d ∷ t) = clean ((c ∷ s) ++ slash ++ (d ∷ t))

-- The text up to the last slash, that slash included.
unfoldable pub up_to_slash : Bytes → Bytes
unfolding contains
up_to_slash [] = []
up_to_slash (c ∷ s) = let rest = up_to_slash s in if contains slash (c ∷ s) then c ∷ rest else []

-- path.Dir.
unfoldable pub dir : Bytes → Bytes
unfolding clean up_to_slash
dir s = clean (up_to_slash s)

-- Tests.
clean_test : clean (codes "scripts//./includes/x/../storeJob") ≡ codes "scripts/includes/storeJob"
unfolding clean
clean_test = refl

dir_test : dir (codes "scripts/includes/storeJob.lua") ≡ codes "scripts/includes"
unfolding dir
dir_test = refl
