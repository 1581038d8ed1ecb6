-- ===== src/Net.antt =====
-- What the program uses of Go's packages net and strings to take addresses apart.
pub mod Parts
use livy_next.Prelude.{
  ℕ, suc, Bool, true, false, List, [], ◌∷◌, Option, none, some, Text, length, drop, ◌==◌, leb,
  if◌then◌else◌, ◌&&◌, ◌||◌, not,
}

-- A white-space character of ASCII.
unfoldable pub is_space : ℕ → Bool
is_space c = (leb 9 c && leb c 13) || (c == 32)

unfoldable pub trim_left_space : Text → Text
unfolding is_space
trim_left_space [] = []
trim_left_space (c ∷ s) = let rest = trim_left_space s in if is_space c then rest else c ∷ s

keep_unless_last : ℕ → Text → Text
keep_unless_last c [] = if is_space c then [] else c ∷ []
keep_unless_last c (d ∷ t) = c ∷ d ∷ t

unfoldable pub trim_right_space : Text → Text
unfolding keep_unless_last
trim_right_space [] = []
trim_right_space (c ∷ s) = keep_unless_last c (trim_right_space s)

-- strings.TrimSpace, where the white space is ASCII's.
unfoldable pub trim_space : Text → Text
trim_space s = trim_right_space (trim_left_space s)

-- What stands before the first such byte, and what after it; none if there is no such byte.
unfoldable pub cut : ℕ → Text → Option (Text × Text)
cut b [] = none
cut b (c ∷ s) =
    let rest = cut b s in
    if c == b then some ([], s) else elim rest [ none ↦ none | some (t, u) ↦ some (c ∷ t, u) ]

-- The same for the last such byte.
unfoldable pub cut_last : ℕ → Text → Option (Text × Text)
cut_last b [] = none
cut_last b (c ∷ s) = elim (cut_last b s) [
  | some (t, u) ↦ some (c ∷ t, u)
  | none ↦ if c == b then some ([], s) else none
]

unfoldable pub has_byte : ℕ → Text → Bool
has_byte b [] = false
has_byte b (c ∷ s) = c == b || has_byte b s

-- What stands before the first such byte, or everything: the first part of strings.Split.
unfoldable pub first_part : ℕ → Text → Text
unfolding cut
first_part b s = elim (cut b s) [ none ↦ s | some (t, u) ↦ t ]

starts_with : ℕ → Text → Bool
starts_with b [] = false
starts_with b (c ∷ s) = c == b

-- A host in brackets, by what stands before the first closing bracket.
bracketed : Text → Text → Text → Option (Text × Text) → Option (Text × Text)
bracketed s h port none = none
bracketed s h port (some (a, b)) =
    if (suc (length a) == length h) && not (has_byte b'[' (drop 1 s)) && not (has_byte b']' port)
    then some (drop 1 a, port)
    else none

split_last : Text → Option (Text × Text) → Option (Text × Text)
unfolding bracketed starts_with
split_last s none = none
split_last s (some (h, port)) =
    if starts_with b'[' s
    then bracketed s h port (cut b']' s)
    else if has_byte b':' h || has_byte b'[' s || has_byte b']' s
    then none
    else some (h, port)

-- net.SplitHostPort; none stands for an error.
unfoldable pub split_host_port : Text → Option (Text × Text)
unfolding split_last
split_host_port s = split_last s (cut_last b':' s)
