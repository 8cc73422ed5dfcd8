-- ===== src/Router/Registered.antt =====
-- What src/router.cpp answers after any sequence of registrations.
use mathlib.Core.Path.{ap₂}
use osodio.Prelude.{
  Bytes, bytes, bytes_eq, bytes_eq_iff, ◌≡◌, refl, Bool, true, false, ◌&&◌, ◌||◌, some, List, [],
  ◌∷◌, if◌then◌else◌, is_some, arith, ◌∙◌,
}
use osodio.StringMap.{lookup, insert, lookup-insert}
use osodio.Router.Tree.{
  NodeType, static, param, wildcard, Node, node, Nodes, nil, cons, classify, is_child, segment_of,
  type_of, find_child, at_child, add_segments, pick,
}
use osodio.Router.Accepts.{tried, can_answer, accepts}

abbrev pub is_nil {ℓ} : {A : Type ℓ} → List A → Bool
is_nil [] = true
is_nil (_ ∷ _) = false

-- One segment of a pattern against one of a path; `last` says that the pattern ends there, and
-- `later` that the rest of it fits the rest of the path.
abbrev pub fits_as : NodeType × Bytes → Bytes → Bool → Bool → Bool
fits_as (static, name) seg last later = bytes_eq name seg && later
fits_as (param, name) seg last later = later
fits_as (wildcard, name) seg last later = last

-- Whether the segments of a pattern fit those of a path: a name fits itself, a parameter any
-- segment, and "*", which is of use at the end only, any rest that is not empty.
unfoldable pub fits : List Bytes → List Bytes → Bool
fits [] segs = is_nil segs
fits (p ∷ ps) [] = false
fits (p ∷ ps) (seg ∷ segs) = fits_as (classify p) seg (is_nil ps) (fits ps segs)

is_child-same :
    (type : NodeType) (name : Bytes) (asked : NodeType) (seg : Bytes) (t : NodeType) (s : Bytes)
    → is_child type name t s ≡ true
    → is_child asked seg t s ≡ is_child asked seg type name
is_child-same static name asked seg static s h =
    let same : s ≡ name = (bytes_eq_iff s name).0 h in rw same
is_child-same param name static seg param s h = refl
is_child-same param name _ seg param s h = refl
is_child-same wildcard name static seg wildcard s h = refl
is_child-same wildcard name _ seg wildcard s h = refl
is_child-same _ name asked seg _ s h = cc

is_child-meet :
    (type : NodeType) (name : Bytes) (asked : NodeType) (seg : Bytes) (t : NodeType) (s : Bytes)
    → is_child type name t s ≡ false
    → is_child asked seg t s ≡ true
    → is_child asked seg type name ≡ false
is_child-meet static name static seg static s h k =
    ground (arith, bytes_eq_iff s name, bytes_eq_iff s seg, bytes_eq_iff name seg)
is_child-meet _ name _ seg _ s h k = ground arith

-- A handler is for a method if it was registered for it, or for "*".
abbrev pub method_fits : Bytes → Bytes → Bool
method_fits registered method = bytes_eq registered method || bytes_eq registered (bytes "*")

pub accepts-fresh {ℓ} :
    (H : Type ℓ) (name : Bytes) (type : NodeType) (segs : List Bytes) (method : Bytes)
    → accepts {H = H} (node name type [] nil) segs method ≡ false
unfolding accepts pick lookup find_child
accepts-fresh H name type [] method = refl
accepts-fresh H name type (seg ∷ segs) method = refl

can_answer-fresh {ℓ} :
    (H : Type ℓ) (name : Bytes) (type : NodeType) (method : Bytes)
    → can_answer {H = H} method (node name type [] nil) ≡ false
unfolding pick lookup
can_answer-fresh H name type method = refl

-- The three lookups together gain what the new pattern's segment allows.
gains :
    (c : NodeType × Bytes) (seg : Bytes) (s p w last later ok : Bool)
    → ((s || is_child static seg c.0 c.1 && (later && ok))
        || ((p || is_child param seg c.0 c.1 && (later && ok))
            || (w || is_child wildcard seg c.0 c.1 && (last && ok))))
      ≡ ((s || (p || w)) || fits_as c seg last later && ok)
gains (static, name) seg s p w last later ok = ground arith
gains (param, name) seg s p w last later ok = ground arith
gains (wildcard, name) seg s p w last later ok = ground arith

module _ {ℓ} {H : Type ℓ} where
  pick-insert :
      (hs : List (Bytes × H)) (registered method : Bytes) (h : H)
      → is_some (pick (insert registered h hs) method)
        ≡ (is_some (pick hs method) || method_fits registered method)
  unfolding pick
  pick-insert hs registered method h =
      ground
        (arith, lookup-insert registered method h hs, lookup-insert registered (bytes "*") h hs)

  -- How a test on the found child changes, if each change of a child adds the same cases to it.
  module _ (go : Node H → Node H) (f : Node H → Bool) (more : Bool)
      (keeps : (n : Node H)
        → (hs : List (Bytes × H)) × (cs : Nodes H) × (go n ≡ node (segment_of n) (type_of n) hs cs))
      (adds : (n : Node H) → f (go n) ≡ (f n || more)) where
    pub find_child-go :
        (asked : NodeType) (seg : Bytes) (n : Node H) (rest : Nodes H)
        → find_child asked seg (cons (go n) rest) ≡ (
            if is_child asked seg (type_of n) (segment_of n)
            then some (go n)
            else find_child asked seg rest)
    unfolding find_child
    find_child-go asked seg n rest = let (hs, cs, e) = keeps n in rw e

    tried-at_child :
        (type : NodeType) (name : Bytes)
        → f (node name type [] nil) ≡ false
        → (asked : NodeType) (seg : Bytes) (children : Nodes H)
        → tried f (find_child asked seg (at_child type name go children))
          ≡ (tried f (find_child asked seg children) || is_child asked seg type name && more)
    unfolding find_child at_child
    tried-at_child type name fresh asked seg nil =
        ground
          (arith, find_child-go asked seg (node name type [] nil) nil, adds (node name type [] nil))
    tried-at_child type name fresh asked seg (cons (node s t hs cs) rest) = ground (
      arith,
      find_child-go asked seg (node s t hs cs) rest,
      adds (node s t hs cs),
      is_child-same type name asked seg t s,
      is_child-meet type name asked seg t s,
      tried-at_child type name fresh asked seg rest,
    )

  pub add_segments-keeps :
      (pat : List Bytes) (registered : Bytes) (h : H) (n : Node H)
      → (hs : List (Bytes × H)) × (cs : Nodes H) × (add_segments pat registered h n
          ≡ node (segment_of n) (type_of n) hs cs)
  unfolding add_segments
  add_segments-keeps [] registered h (node s t hs cs) = (_, _, refl)
  add_segments-keeps (p ∷ pat) registered h (node s t hs cs) = (_, _, refl)

  can_answer-add :
      (pat : List Bytes) (registered method : Bytes) (h : H) (n : Node H)
      → can_answer method (add_segments pat registered h n)
        ≡ (can_answer method n || is_nil pat && method_fits registered method)
  unfolding add_segments
  can_answer-add [] registered method h (node s t hs cs) = pick-insert hs registered method h
  can_answer-add (p ∷ pat) registered method h (node s t hs cs) = ground arith

  -- A registration below the segment `p`, at each kind of child.
  module _ (p : Bytes) (pat : List Bytes) (registered : Bytes) (h : H) (segs : List Bytes)
      (method : Bytes)
      (ih : (n : Node H)
        → accepts (add_segments pat registered h n) segs method
          ≡ (accepts n segs method || fits pat segs && method_fits registered method))
      (seg : Bytes) (cs : Nodes H) where
    abbrev grown : Nodes H
    grown = at_child (classify p).0 (classify p).1 (add_segments pat registered h) cs

    child_accepts :
        (asked : NodeType)
        → tried (λ next. accepts next segs method) (find_child asked seg grown) ≡ (
            tried (λ next. accepts next segs method) (find_child asked seg cs)
            || is_child asked seg (classify p).0 (classify p).1
              && (fits pat segs && method_fits registered method))
    child_accepts asked =
        tried-at_child (add_segments pat registered h) (λ next. accepts next segs method)
          (fits pat segs && method_fits registered method) (add_segments-keeps pat registered h) ih
          (classify p).0 (classify p).1 (accepts-fresh H (classify p).1 (classify p).0 segs method)
          asked seg cs

    wildcard_answers : tried (can_answer method) (find_child wildcard seg grown) ≡ (
        tried (can_answer method) (find_child wildcard seg cs)
        || is_child wildcard seg (classify p).0 (classify p).1
          && (is_nil pat && method_fits registered method))
    wildcard_answers =
        tried-at_child (add_segments pat registered h) (can_answer method)
          (is_nil pat && method_fits registered method) (add_segments-keeps pat registered h)
          (can_answer-add pat registered method h) (classify p).0 (classify p).1
          (can_answer-fresh H (classify p).1 (classify p).0 method) wildcard seg cs

  -- A registration adds exactly the requests that its pattern and its method fit.
  pub accepts-add_segments :
      (pat : List Bytes) (registered : Bytes) (h : H) (n : Node H) (segs : List Bytes)
      (method : Bytes)
      → accepts (add_segments pat registered h n) segs method
        ≡ (accepts n segs method || fits pat segs && method_fits registered method)
  unfolding accepts fits add_segments
  accepts-add_segments [] registered h (node s t hs cs) [] method =
      can_answer-add [] registered method h (node s t hs cs)
  accepts-add_segments [] registered h (node s t hs cs) (seg ∷ segs) method = ground arith
  accepts-add_segments (p ∷ pat) registered h (node s t hs cs) [] method = ground arith
  accepts-add_segments (p ∷ pat) registered h (node s t hs cs) (seg ∷ segs) method =
      let ih = λ (n : Node H). accepts-add_segments pat registered h n segs method in
      ap₂ ◌||◌ (child_accepts p pat registered h segs method ih seg cs static) (
        ap₂ ◌||◌ (child_accepts p pat registered h segs method ih seg cs param)
          (wildcard_answers p pat registered h segs method ih seg cs))
      ∙ gains (classify p) seg (tried (λ next. accepts next segs method) (find_child static seg cs))
          (tried (λ next. accepts next segs method) (find_child param seg cs))
          (tried (can_answer method) (find_child wildcard seg cs)) (is_nil pat) (fits pat segs)
          (method_fits registered method)
