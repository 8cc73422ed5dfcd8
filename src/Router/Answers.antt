-- ===== src/Router/Answers.antt =====
-- What `Router::match` of src/router.cpp answers after any sequence of registrations.
use osodio.Prelude.{
  Bytes, ◌≡◌, refl, Bool, false, ◌&&◌, ◌||◌, Option, none, some, List, [], ◌∷◌, map, any, is_some,
  Option-cases, inl, inr, arith, ap, ◌∙◌,
}
use osodio.Router.Pattern.{to_upper, normalize_pattern, split_path, strip_slash}
use osodio.Router.Tree.{Node, static, empty, Search, found, add_segments, add_internal, match}
use osodio.Router.Accepts.{accepts, match_recursive-accepts}
use osodio.Router.Registered.{fits, method_fits, accepts-add_segments, accepts-fresh}

-- A registration: its method, its pattern and its handler.
abbrev pub Route {ℓ} : Type ℓ → Type ℓ
Route H = Bytes × Bytes × H

-- Whether a registration is for a request.
abbrev pub route_fits {ℓ} : {H : Type ℓ} → Bytes → Bytes → Route H → Bool
route_fits method path (registered, pattern, h) = elim (normalize_pattern pattern) [
  | none ↦ false
  | some norm ↦
      fits (split_path norm) (split_path (strip_slash path))
      && method_fits (map to_upper registered) method
]

module _ {ℓ} {H : Type ℓ} where
  -- Registrations in order; `none` if one of the patterns throws.
  abbrev pub add_all : List (Route H) → Node H → Option (Node H)
  add_all [] root = some root
  add_all ((registered, pattern, h) ∷ routes) root = elim (add_internal registered pattern h root) [
    | none ↦ none
    | some next ↦ add_all routes next
  ]

  found-some : (s : Search H) → is_some (found s) ≡ is_some s.0
  found-some (some h, ps) = refl
  found-some (none, ps) = refl

  match-accepts :
      (root : Node H) (method path : Bytes)
      → is_some (match root method path) ≡ accepts root (split_path (strip_slash path)) method
  unfolding match
  match-accepts root method path = found-some _ ∙ match_recursive-accepts root _ method []

  add_all-accepts :
      (routes : List (Route H)) (root out : Node H) (method path : Bytes)
      → add_all routes root ≡ some out
      → accepts out (split_path (strip_slash path)) method ≡ (
          accepts root (split_path (strip_slash path)) method
          || any (route_fits method path) routes)
  unfolding add_internal
  add_all-accepts [] root out method path e = ground arith
  add_all-accepts ((registered, pattern, h) ∷ routes) root out method path e =
      elim (Option-cases (normalize_pattern pattern)) [
        | inl throws ↦ ground arith
        | inr (norm, fine) ↦
            let next = add_segments (split_path norm) (map to_upper registered) h root in
            let segs = split_path (strip_slash path) in
            ground (
              arith,
              add_all-accepts routes next out method path,
              accepts-add_segments (split_path norm) (map to_upper registered) h root segs method,
            )
      ]

  -- After the registrations `routes`, none of which throws, a request is answered exactly if one
  -- of them has a pattern that fits the path and was made for the method, or for "*".
  pub match-add_all :
      (routes : List (Route H)) (root : Node H) (method path : Bytes)
      → add_all routes empty ≡ some root
      → is_some (match root method path) ≡ any (route_fits method path) routes
  match-add_all routes root method path e =
      match-accepts root method path
      ∙ add_all-accepts routes empty root method path e
      ∙ ap (λ a. a || any (route_fits method path) routes)
          (accepts-fresh H [] static (split_path (strip_slash path)) method)
