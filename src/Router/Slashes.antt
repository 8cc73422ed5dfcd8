-- ===== src/Router/Slashes.antt =====
-- Slashes at the end of a path, in the search of src/router.cpp.
use osodio.Prelude.{Bytes, ◌≡◌, refl, [], ◌∷◌, ◌++◌, arith}
use osodio.Router.Pattern.{split_from, drop_slash, split_path, strip_slash}
use osodio.Router.Tree.{Node, match}

split_from-slash : (seg s : Bytes) → split_from seg (s ++ b'/' ∷ []) ≡ split_from seg s
unfolding split_from
split_from-slash seg [] = refl
split_from-slash seg (c ∷ s) =
    ground (arith, split_from-slash [] s, split_from-slash (seg ++ c ∷ []) s)

split_from-drop_slash : (seg s : Bytes) → split_from seg (drop_slash s) ≡ split_from seg s
unfolding split_from drop_slash
split_from-drop_slash seg [] = refl
split_from-drop_slash seg (c ∷ []) = ground arith
split_from-drop_slash seg (c ∷ d ∷ s) =
    ground (arith, split_from-drop_slash [] (d ∷ s), split_from-drop_slash (seg ++ c ∷ []) (d ∷ s))

pub split_path-strip_slash : (s : Bytes) → split_path (strip_slash s) ≡ split_path s
unfolding split_path strip_slash
split_path-strip_slash [] = refl
split_path-strip_slash (c ∷ []) = refl
split_path-strip_slash (c ∷ d ∷ s) = split_from-drop_slash [] (c ∷ d ∷ s)

-- A path with one more slash at its end is answered as the path is, with the same parameters.
pub match-slash {ℓ} :
    {H : Type ℓ} (root : Node H) (method path : Bytes)
    → match root method (path ++ b'/' ∷ []) ≡ match root method path
unfolding match
match-slash root method path =
    rw (split_path-strip_slash (path ++ b'/' ∷ []), split_path-strip_slash path, split_path-slash)
  where
    split_path-slash : split_path (path ++ b'/' ∷ []) ≡ split_path path
    split_path-slash = unfold split_path in split_from-slash [] path
