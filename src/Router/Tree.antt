-- ===== src/Router/Tree.antt =====
-- The tree of src/router.cpp: registration and the backtracking search. A handler is a value of an
-- arbitrary type, and a tree of `unique_ptr` nodes is a data type.
use osodio.Prelude.{
  Bytes, bytes, bytes_eq, Bool, true, false, Option, none, some, List, [], ◌∷◌, map, if◌then◌else◌,
  ◌==◌,
}
use osodio.StringMap.{lookup, insert, erase}
use osodio.Router.Pattern.{to_upper, normalize_pattern, split_path, strip_slash}

pub data NodeType : Type 0 where
  static param wildcard : NodeType

mutual
  pub data Node {ℓ} (H : Type ℓ) : Type ℓ where
    node : (segment : Bytes) → NodeType → (handlers : List (Bytes × H)) → Nodes H → Node H

  pub data Nodes {ℓ} (H : Type ℓ) : Type ℓ where
    nil : Nodes H
    cons : Node H → Nodes H → Nodes H

-- A segment of a pattern, as `add_internal` reads it: its type and its name.
unfoldable pub classify : Bytes → NodeType × Bytes
classify [] = (static, [])
classify (c ∷ name) =
    if bytes_eq (c ∷ name) (bytes "*")
    then (wildcard, c ∷ name)
    else if c == b':'
    then (param, name)
    else (static, c ∷ name)

-- The test of `find_static_child`, `find_param_child` and `find_wildcard_child`.
abbrev pub is_child : NodeType → Bytes → NodeType → Bytes → Bool
is_child static seg static segment = bytes_eq segment seg
is_child param seg param segment = true
is_child wildcard seg wildcard segment = true
is_child _ seg _ segment = false

module _ {ℓ} {H : Type ℓ} where
  abbrev pub segment_of : Node H → Bytes
  segment_of (node segment type handlers children) = segment

  abbrev pub type_of : Node H → NodeType
  type_of (node segment type handlers children) = type

  abbrev pub handlers_of : Node H → List (Bytes × H)
  handlers_of (node segment type handlers children) = handlers

  abbrev pub children_of : Node H → Nodes H
  children_of (node segment type handlers children) = children

  -- The first child that passes the test.
  unfoldable pub find_child : NodeType → Bytes → Nodes H → Option (Node H)
  find_child type seg nil = none
  find_child type seg (cons (node s t hs cs) rest) =
      if is_child type seg t s then some (node s t hs cs) else find_child type seg rest

  -- Descends to the first child that passes the test, or to a new one at the end, and puts there
  -- what `go` makes of it.
  unfoldable pub at_child : NodeType → Bytes → (Node H → Node H) → Nodes H → Nodes H
  at_child type name go nil = cons (go (node name type [] nil)) nil
  at_child type name go (cons (node s t hs cs) rest) =
      if is_child type name t s
      then cons (go (node s t hs cs)) rest
      else cons (node s t hs cs) (at_child type name go rest)

  -- The loop of `add_internal` over the segments, and the assignment behind it.
  unfoldable pub add_segments : List Bytes → Bytes → H → Node H → Node H
  add_segments [] method h (node s t hs cs) = node s t (insert method h hs) cs
  add_segments (seg ∷ segs) method h (node s t hs cs) =
      let (type, name) = classify seg in
      node s t hs (at_child type name (add_segments segs method h) cs)

  -- `none` is the exception of `normalize_pattern`.
  unfoldable pub add_internal : Bytes → Bytes → H → Node H → Option (Node H)
  add_internal method pattern h root = elim (normalize_pattern pattern) [
    | none ↦ none
    | some norm ↦ some (add_segments (split_path norm) (map to_upper method) h root)
  ]

  -- The handler of a node for a method, or its handler for "*".
  unfoldable pub pick : List (Bytes × H) → Bytes → Option H
  pick handlers method = elim (lookup method handlers) [
    | some h ↦ some h
    | none ↦ lookup (bytes "*") handlers
  ]

abbrev pub Params : Type 0
Params = List (Bytes × Bytes)

-- What a search leaves: the handler, where one was found, and the parameters, which the source
-- changes in place.
abbrev pub Search {ℓ} : Type ℓ → Type ℓ
Search H = Option H × Params

module _ {ℓ} {H : Type ℓ} where
  -- `if (first) return true;`, and the rest with the parameters that a failed try leaves.
  abbrev pub or_else : Search H → (Params → Search H) → Search H
  or_else (some h, ps) next = (some h, ps)
  or_else (none, ps) next = next ps

  -- `params.erase(next->segment)` after a failed try
  abbrev pub backtrack : Bytes → Search H → Search H
  backtrack name (some h, ps) = (some h, ps)
  backtrack name (none, ps) = (none, erase name ps)

  -- `if (next && ...)`: a try at the child that was found, if any.
  abbrev pub into : Option (Node H) → (Node H → Search H) → Params → Search H
  into none go ps = (none, ps)
  into (some next) go ps = go next

  unfoldable pub match_recursive : Node H → List Bytes → Bytes → Params → Search H
  match_recursive n [] method ps = (pick (handlers_of n) method, ps)
  match_recursive n (seg ∷ segs) method ps =
      or_else
        (into (find_child static seg (children_of n)) (λ next. match_recursive next segs method ps)
          ps)
        λ ps₁.
          or_else
            (into (find_child param seg (children_of n))
              (λ next.
                backtrack (segment_of next)
                  (match_recursive next segs method (insert (segment_of next) seg ps₁)))
              ps₁)
            λ ps₂.
              into (find_child wildcard seg (children_of n))
                (λ next. (pick (handlers_of next) method, ps₂)) ps₂

  -- `Router::Router`
  abbrev pub empty : Node H
  empty = node [] static [] nil

  abbrev pub found : Search H → Option (H × Params)
  found (some h, ps) = some (h, ps)
  found (none, ps) = none

  -- `Router::match`: the handler with the parameters, or `found = false`.
  unfoldable pub match : Node H → Bytes → Bytes → Option (H × Params)
  match root method path = found (match_recursive root (split_path (strip_slash path)) method [])
