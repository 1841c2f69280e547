-- ===== src/Paths.antt =====
-- The functions of package path/filepath, on Unix.
pub mod Plain
use mathlib.Core.List.{reverse}
use lbsync.Prelude.{
  ℕ, Text, text, same, Bool, ◌||◌, ◌==◌, true, false, Option, none, some, List, [], ◌∷◌, ◌++◌,
  if◌then◌else◌,
}
use lbsync.Main.Strings.{split}

unfoldable pub has : ℕ → Text → Bool
has c [] = false
has c (x ∷ t) = x == c || has c t

unfoldable pub strip_prefix : Text → Text → Option Text
strip_prefix [] t = some t
strip_prefix (x ∷ p) [] = none
strip_prefix (x ∷ p) (y ∷ t) = let rest = strip_prefix p t in if x == y then rest else none

-- One element of a path, onto those that are kept, the last of them first.
unfoldable pub onto_kept : Bool → List Text → Text → List Text
onto_kept rooted kept element =
    if same element [] || same element (text ".")
    then kept
    else if same element (text "..")
    then up rooted kept
    else element ∷ kept
  where
    up : Bool → List Text → List Text
    up true [] = []
    up false [] = text ".." ∷ []
    up rooted (top ∷ below) = if same top (text "..") then text ".." ∷ (top ∷ below) else below

unfoldable pub kept_of : Bool → List Text → List Text → List Text
kept_of rooted kept [] = kept
kept_of rooted kept (element ∷ elements) = kept_of rooted (onto_kept rooted kept element) elements

unfoldable pub joined : List Text → Text
joined [] = []
joined (element ∷ []) = element
joined (element ∷ (next ∷ elements)) = element ++ (b'/' ∷ joined (next ∷ elements))

abbrev pub is_rooted : Text → Bool
is_rooted [] = false
is_rooted (c ∷ path) = c == b'/'

abbrev pub or_dot : Bool → Text → Text
or_dot true path = b'/' ∷ path
or_dot false [] = text "."
or_dot false (c ∷ path) = c ∷ path

-- filepath.Clean
unfoldable pub clean : Text → Text
clean path =
    let rooted = is_rooted path in
    or_dot rooted (joined (reverse (kept_of rooted [] (split b'/' path))))

-- filepath.Join
unfoldable pub join : List Text → Text
join [] = []
join (element ∷ elements) =
    let rest = join elements in
    if same element [] then rest else clean (joined (element ∷ elements))

-- The elements of a directory, with a slash behind each.
unfoldable pub slashed : List Text → Text
slashed [] = []
slashed (x ∷ xs) = x ++ (b'/' ∷ slashed xs)

-- What stands before the names of the files in a directory, in their paths.
unfoldable pub within : Text → Text
within dir =
    let rooted = is_rooted dir in
    let before = slashed (reverse (kept_of rooted [] (split b'/' dir))) in
    if rooted then b'/' ∷ before else before
