-- ===== src/Collect/Path.antt =====
-- `filepath.Clean` on Unix, which app/agtapi/collect.go calls for the name of the reported file.
use ssoc_broker.Base.{
  ◌≡◌, refl, List, [], ◌∷◌, ◌++◌, Bool, false, if◌then◌else◌, ◌==◌, ◌||◌, Text, codes, text_eq,
  text_dec, is_empty,
}

-- The parts between the slashes.
unfoldable pub parts : Text → List Text
parts [] = [] ∷ []
parts (c ∷ s) = elim (parts s) [
  | [] ↦ (c ∷ []) ∷ []
  | p ∷ ps ↦ if c == b'/' then [] ∷ (p ∷ ps) else (c ∷ p) ∷ ps
]

-- `..` takes out the part before it, and is dropped at the root.
abbrev up : Bool → List Text → List Text
up rooted [] = if rooted then [] else codes ".." ∷ []
up rooted (top ∷ kept) = if text_eq top (codes "..") then codes ".." ∷ (top ∷ kept) else kept

-- The parts that are kept, the last one first.
unfoldable pub resolve : Bool → List Text → List Text → List Text
resolve rooted kept [] = kept
resolve rooted kept (p ∷ ps) =
    resolve rooted
      (if is_empty p || text_eq p (codes ".")
        then kept
        else if text_eq p (codes "..")
        then up rooted kept
        else p ∷ kept)
      ps

unfoldable pub join_onto : List Text → Text → Text
join_onto [] path = path
join_onto (p ∷ kept) path = join_onto kept (if is_empty path then p else p ++ (b'/' ∷ path))

abbrev is_rooted : Text → Bool
is_rooted [] = false
is_rooted (c ∷ s) = c == b'/'

unfoldable pub clean : Text → Text
unfolding parts resolve join_onto
clean path =
    let rooted = is_rooted path in
    let joined = join_onto (resolve rooted [] (parts path)) [] in
    if rooted then b'/' ∷ joined else if is_empty joined then codes "." else joined

clean_relative : clean (codes "./a//b/../c/") ≡ codes "a/c"
unfolding clean text_dec
clean_relative = refl

clean_rooted : clean (codes "/../opt/./x") ≡ codes "/opt/x"
unfolding clean text_dec
clean_rooted = refl

clean_above : clean (codes "a/../../b") ≡ codes "../b"
unfolding clean text_dec
clean_above = refl
