-- ===== src/Router/Accepts.antt =====
-- The search of src/router.cpp without its parameters, and when a pattern fits a path.
use mathlib.Core.Path.{ap₂}
use osodio.Prelude.{
  Bytes, ◌≡◌, refl, Bool, false, ◌||◌, Option, none, some, List, [], ◌∷◌, is_some, ◌∙◌,
}
use osodio.Router.Tree.{
  static, param, wildcard, Node, handlers_of, children_of, find_child, pick, Params, Search,
  or_else, into, backtrack, match_recursive,
}

module _ {ℓ} {H : Type ℓ} where
  -- A test on the child that a lookup finds.
  abbrev pub tried : (Node H → Bool) → Option (Node H) → Bool
  tried f none = false
  tried f (some n) = f n

  abbrev pub can_answer : Bytes → Node H → Bool
  can_answer method n = is_some (pick (handlers_of n) method)

  unfoldable pub accepts : Node H → List Bytes → Bytes → Bool
  accepts n [] method = can_answer method n
  accepts n (seg ∷ segs) method =
      tried (λ next. accepts next segs method) (find_child static seg (children_of n))
      || (tried (λ next. accepts next segs method) (find_child param seg (children_of n))
          || tried (can_answer method) (find_child wildcard seg (children_of n)))

  or_else-some :
      (s : Search H) (next : Params → Search H)
      → is_some (or_else s next).0 ≡ (is_some s.0 || is_some (next s.1).0)
  or_else-some (some h, ps) next = refl
  or_else-some (none, ps) next = refl

  backtrack-some : (name : Bytes) (s : Search H) → is_some (backtrack name s).0 ≡ is_some s.0
  backtrack-some name (some h, ps) = refl
  backtrack-some name (none, ps) = refl

  into-some :
      (o : Option (Node H)) (go : Node H → Search H) (ps : Params) (g : Node H → Bool)
      → ((n : Node H) → is_some (go n).0 ≡ g n)
      → is_some (into o go ps).0 ≡ tried g o
  into-some none go ps g h = refl
  into-some (some n) go ps g h = h n

  -- The search finds a handler exactly where the tree accepts the segments.
  pub match_recursive-accepts :
      (n : Node H) (segs : List Bytes) (method : Bytes) (ps : Params)
      → is_some (match_recursive n segs method ps).0 ≡ accepts n segs method
  unfolding match_recursive accepts
  match_recursive-accepts n [] method ps = refl
  match_recursive-accepts n (seg ∷ segs) method ps =
      rw (or_else-some, or_else-some)
        (ap₂ ◌||◌
          (into-some (find_child static seg (children_of n)) _ _ _
            λ next. match_recursive-accepts next segs method _)
          (ap₂ ◌||◌
            (into-some (find_child param seg (children_of n)) _ _ _
              λ next. backtrack-some _ _ ∙ match_recursive-accepts next segs method _)
            (into-some (find_child wildcard seg (children_of n)) _ _ _ λ next. refl)))
