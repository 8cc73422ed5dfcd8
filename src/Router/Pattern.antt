-- ===== src/Router/Pattern.antt =====
-- The text functions of src/router.cpp: `normalize_pattern`, `split_path` and `toupper`.
use osodio.Prelude.{
  Bytes, bytes, ℕ, ◌-◌, ◌≡◌, refl, Bool, true, false, ◌&&◌, Option, none, some, List, [], ◌∷◌, ◌++◌,
  if◌then◌else◌, ◌==◌, leb,
}

-- `std::toupper` in the C locale.
unfoldable pub to_upper : ℕ → ℕ
to_upper c = if leb b'a' c && leb c b'z' then c - 32 else c

abbrev push : ℕ → Option Bytes → Option Bytes
push c none = none
push c (some out) = some (c ∷ out)

-- The loop of `normalize_pattern`; the flag says that an opening brace waits for its end, and
-- `none` stands for the exception.
braces : Bool → Bytes → Option Bytes
braces false [] = some []
braces true [] = none
braces false (c ∷ p) = elim (c == b'{') [
  | true ↦ push b':' (braces true p)
  | false ↦ push c (braces false p)
]
braces true (c ∷ p) = elim (c == b'}') [ true ↦ braces false p | false ↦ push c (braces true p) ]

-- `if (s.size() > 1 && s.back() == '/') s.pop_back()`
unfoldable pub drop_slash : Bytes → Bytes
drop_slash [] = []
drop_slash (c ∷ []) = if c == b'/' then [] else c ∷ []
drop_slash (c ∷ d ∷ s) = c ∷ drop_slash (d ∷ s)

unfoldable pub strip_slash : Bytes → Bytes
unfolding drop_slash
strip_slash [] = []
strip_slash (c ∷ []) = c ∷ []
strip_slash (c ∷ d ∷ s) = c ∷ drop_slash (d ∷ s)

unfoldable pub normalize_pattern : Bytes → Option Bytes
unfolding braces strip_slash
normalize_pattern p = elim (braces false p) [ none ↦ none | some out ↦ some (strip_slash out) ]

abbrev keep : Bytes → List Bytes → List Bytes
keep [] parts = parts
keep (c ∷ seg) parts = (c ∷ seg) ∷ parts

-- The `getline` loop of `split_path`, with the bytes of the segment read so far.
unfoldable pub split_from : Bytes → Bytes → List Bytes
split_from seg [] = keep seg []
split_from seg (c ∷ s) = elim (c == b'/') [
  | true ↦ keep seg (split_from [] s)
  | false ↦ split_from (seg ++ c ∷ []) s
]

unfoldable pub split_path : Bytes → List Bytes
unfolding split_from
split_path s = split_from [] s

split_path_run : split_path (bytes "/a//bc/") ≡ bytes "a" ∷ bytes "bc" ∷ []
unfolding split_path
split_path_run = refl

normalize_pattern_run : normalize_pattern (bytes "/u/{id}/x/") ≡ some (bytes "/u/:id/x")
unfolding normalize_pattern
normalize_pattern_run = refl
