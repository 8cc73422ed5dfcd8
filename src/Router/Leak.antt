-- ===== src/Router/Leak.antt =====
-- The parameters that a failed search of src/router.cpp leaves behind.
use osodio.Prelude.{Bytes, ◌≡◌, Option, none, some, List, [], ◌∷◌, arith}
use osodio.StringMap.{lookup, insert, lookup-insert, lookup-erase}
use osodio.Router.Tree.{
  static, param, wildcard, Node, segment_of, children_of, find_child, Params, Search, or_else,
  backtrack, into, match_recursive,
}

-- Every entry of the one is an entry of the other.
abbrev pub Within : Params → Params → Type 0
Within qs ps = (k v : Bytes) → lookup k qs ≡ some v → lookup k ps ≡ some v

module _ {ℓ} {H : Type ℓ} where
  -- A search that fails leaves only entries of `ps`.
  abbrev pub LeavesWithin : Search H → Params → Type 0
  LeavesWithin (some h, qs) ps = Unit
  LeavesWithin (none, qs) ps = Within qs ps

  or_else-LeavesWithin :
      (s : Search H) (next : Params → Search H) (ps : Params)
      → LeavesWithin s ps
      → ((qs : Params) → Within qs ps → LeavesWithin (next qs) ps)
      → LeavesWithin (or_else s next) ps
  or_else-LeavesWithin (some h, qs) next ps l k = tt
  or_else-LeavesWithin (none, qs) next ps l k = k qs l

  into-LeavesWithin :
      (o : Option (Node H)) (go : Node H → Search H) (qs ps : Params)
      → Within qs ps
      → ((n : Node H) → LeavesWithin (go n) ps)
      → LeavesWithin (into o go qs) ps
  into-LeavesWithin none go qs ps w k = w
  into-LeavesWithin (some n) go qs ps w k = k n

  backtrack-LeavesWithin :
      (name seg : Bytes) (s : Search H) (qs ps : Params)
      → Within qs ps
      → LeavesWithin s (insert name seg qs)
      → LeavesWithin (backtrack name s) ps
  backtrack-LeavesWithin name seg (some h, rs) qs ps w l = tt
  backtrack-LeavesWithin name seg (none, rs) qs ps w l =
      λ k v e. ground (arith, lookup-erase name k rs, lookup-insert name k seg qs, l k v, w k v)

  weaken : (s : Search H) (qs ps : Params) → Within qs ps → LeavesWithin s qs → LeavesWithin s ps
  weaken (some h, rs) qs ps w l = tt
  weaken (none, rs) qs ps w l = λ k v e. w k v (l k v e)

  terminal : (o : Option H) (qs ps : Params) → Within qs ps → LeavesWithin (o, qs) ps
  terminal none qs ps w = w
  terminal (some h) qs ps w = tt

  -- A search that fails below a node leaves no parameter that was not there before, with another
  -- value or at all.
  pub match_recursive-LeavesWithin :
      (n : Node H) (segs : List Bytes) (method : Bytes) (ps : Params)
      → LeavesWithin (match_recursive n segs method ps) ps
  unfolding match_recursive
  match_recursive-LeavesWithin n [] method ps = terminal _ ps ps (λ k v e. e)
  match_recursive-LeavesWithin n (seg ∷ segs) method ps =
      or_else-LeavesWithin _ _ ps
        (into-LeavesWithin (find_child static seg (children_of n)) _ ps ps (λ k v e. e)
          λ next. match_recursive-LeavesWithin next segs method ps)
        λ qs w.
          or_else-LeavesWithin _ _ ps
            (into-LeavesWithin (find_child param seg (children_of n)) _ qs ps w λ next.
              backtrack-LeavesWithin (segment_of next) seg _ qs ps w
                (match_recursive-LeavesWithin next segs method (insert (segment_of next) seg qs)))
            λ rs v.
              into-LeavesWithin (find_child wildcard seg (children_of n)) _ rs ps v
                λ next. terminal _ rs ps v
