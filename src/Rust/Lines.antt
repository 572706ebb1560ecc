-- ===== src/Rust/Lines.antt =====
-- `lines.join("\n")`, and the last component of a path, as the standard library has them on Unix.
use fangorn_rs.Prelude.{
  Bool, true, false, Option, none, some, List, [], ◌∷◌, ◌++◌, ◌==◌, ℕ-Eq, List-Eq, ◌||◌,
  if◌then◌else◌,
}
use fangorn_rs.Rust.Text.{Text, codes, split}

abbrev pub join_lines : List Text → Text
join_lines [] = []
join_lines (l ∷ []) = l
join_lines (l ∷ m ∷ ls) = l ++ 10 ∷ join_lines (m ∷ ls)

-- `is_empty()` and `len() == 0`
abbrev pub is_empty : Text → Bool
is_empty [] = true
is_empty (c ∷ s) = false

-- The last of the parts that are neither empty nor ".".
last_component : List Text → Option Text
last_component [] = none
last_component (p ∷ ps) = elim (last_component ps) [
  | some q ↦ some q
  | none ↦ if is_empty p || p == codes "." then none else some p
]

-- `Path::new(path).file_name().and_then(|name| name.to_str())`
unfoldable pub file_name : Text → Option Text
unfolding last_component
file_name path = elim (last_component (split b'/' path)) [
  | none ↦ none
  | some name ↦ if name == codes ".." then none else some name
]
