-- ===== src/Text/FilePath.antt =====
-- filepath.IsAbs, and filepath.Clean at absolute paths, the only ones that the program cleans.
use mathlib.Core.List.{reverse, tail}
use mydocker.Base.{
  ℕ, Bool, false, ◌&&◌, List, [], ◌∷◌, ◌++◌, nat_beq, if◌then◌else◌, ◌==◌, is_empty,
}
use mydocker.Text.Utf8.{Text, bytes, text_eq, Text-discrete}

unfoldable pub is_abs : Text → Bool
is_abs [] = false
is_abs (b ∷ _) = nat_beq b b'/'

-- The elements between the slashes; the element that is being read is held reversed.
elements : Text → List ℕ → List Text
elements [] word = reverse word ∷ []
elements (b ∷ s) word =
    let next = elements s [] in
    let more = elements s (b ∷ word) in if nat_beq b b'/' then reverse word ∷ next else more

-- Empty elements and "." go away; ".." takes the last kept element with it, or nothing at the root.
resolve : List Text → List Text → List Text
resolve kept [] = reverse kept
resolve kept (e ∷ es) =
    resolve
      (if is_empty e
        then kept
        else if e == bytes "."
        then kept
        else if e == bytes ".."
        then tail kept
        else e ∷ kept)
      es

join : List Text → Text
join [] = []
join (e ∷ es) = b'/' ∷ (e ++ join es)

unfoldable pub clean_abs : Text → Text
unfolding elements resolve join Text-discrete
clean_abs p =
    let path = join (resolve [] (elements p [])) in if is_empty path then bytes "/" else path

-- filepath.IsAbs(p) && filepath.Clean(p) == p
unfoldable pub is_clean_abs : Text → Bool
unfolding is_abs clean_abs Text-discrete
is_clean_abs p = is_abs p && clean_abs p == p
