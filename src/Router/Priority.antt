-- ===== src/Router/Priority.antt =====
-- Literal patterns in the search of src/router.cpp.
use osodio.Prelude.{
  Bytes, bytes_eq_refl, ◌≡◌, Bool-cases, inl, inr, if◌then◌else◌, some, List, [], ◌∷◌, map, All,
  arith,
}
use osodio.StringMap.{lookup-insert}
use osodio.Router.Tree.{
  NodeType, static, Node, node, Nodes, nil, cons, classify, is_child, segment_of, type_of,
  find_child, at_child, add_segments, add_internal, match, pick, Params, match_recursive,
}
use osodio.Router.Pattern.{to_upper, normalize_pattern, split_path}
use osodio.Router.Registered.{add_segments-keeps}
use osodio.Router.Slashes.{split_path-strip_slash}

-- A segment of a pattern that stands for itself.
abbrev pub IsLiteral : Bytes → Type 0
IsLiteral seg = classify seg ≡ (static, seg)

module _ {ℓ} {H : Type ℓ} (pat : List Bytes) (registered : Bytes) (h : H) where
  go_first :
      (asked : NodeType) (name : Bytes) (n : Node H) (rest : Nodes H)
      → find_child asked name (cons (add_segments pat registered h n) rest) ≡ (
          if is_child asked name (type_of n) (segment_of n)
          then some (add_segments pat registered h n)
          else find_child asked name rest)
  unfolding find_child
  go_first asked name n rest = let (hs, cs, e) = add_segments-keeps pat registered h n in rw e

  find_child-at_child :
      (name : Bytes) (children : Nodes H)
      → (n : Node H) × (find_child static name
            (at_child static name (add_segments pat registered h) children)
          ≡ some (add_segments pat registered h n))
  unfolding at_child find_child
  find_child-at_child name nil = (
    node name static [] nil,
    ground (arith, go_first static name (node name static [] nil) nil, bytes_eq_refl name),
  )
  find_child-at_child name (cons (node s t hs cs) rest) =
      elim (Bool-cases (is_child static name t s)) [
        | inl same ↦ (node s t hs cs, ground (arith, go_first static name (node s t hs cs) rest))
        | inr other ↦ let (n, e) = find_child-at_child name rest in (n, ground arith)
      ]

-- A registration whose segments are all literal is found by its own segments and method, ahead of
-- every pattern that was or was not registered with parameters or "*", and sets no parameter.
pub match_recursive-add_segments {ℓ} :
    {H : Type ℓ} (pat : List Bytes) (method : Bytes) (h : H) (n : Node H) (ps : Params)
    → All IsLiteral pat
    → match_recursive (add_segments pat method h n) pat method ps ≡ (some h, ps)
unfolding match_recursive pick add_segments
match_recursive-add_segments [] method h (node s t hs cs) ps l =
    ground (arith, lookup-insert method method h hs, bytes_eq_refl method)
match_recursive-add_segments (p ∷ pat) method h (node s t hs cs) ps (lit, l) =
    let (next, e) = find_child-at_child pat method h p cs in
    rw (lit, e, match_recursive-add_segments pat method h next ps l)

-- Once it is added without an exception, a route whose segments are all literal (none is a
-- parameter or "*") answers the request for its own path and upper-case method with its handler
-- and no parameters, whatever routes were in the tree before.
pub match-add_internal {ℓ} :
    {H : Type ℓ} (method pattern norm : Bytes) (h : H) (root out : Node H)
    → normalize_pattern pattern ≡ some norm
    → All IsLiteral (split_path norm)
    → add_internal method pattern h root ≡ some out
    → match out (map to_upper method) norm ≡ some (h, [])
unfolding match add_internal
match-add_internal method pattern norm h root out e lit added =
    let same : add_segments (split_path norm) (map to_upper method) h root ≡ out = ground arith in
    rw (
      split_path-strip_slash norm,
      ← same,
      match_recursive-add_segments (split_path norm) (map to_upper method) h root [] lit,
    )
