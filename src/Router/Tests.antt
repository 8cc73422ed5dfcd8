-- ===== src/Router/Tests.antt =====
-- Runs of the router.
use osodio.Prelude.{
  Bytes, bytes, bytes_eq, ℕ, ◌≡◌, refl, Option, none, some, is_some, any, List, [], ◌∷◌, ◌++◌,
}
use osodio.StringMap.{lookup, insert, erase}
use osodio.Router.Pattern.{to_upper, normalize_pattern, split_path, strip_slash}
use osodio.Router.Tree.{
  Node, Params, empty, classify, find_child, at_child, add_segments, add_internal, pick,
  match_recursive, match,
}
use osodio.Router.Answers.{add_all, route_fits, match-add_all}
use osodio.Router.Priority.{match-add_internal}
use osodio.Router.Leak.{LeavesWithin, match_recursive-LeavesWithin}
use osodio.Router.Slashes.{match-slash}

router : Unit {0}
unfolding match match_recursive pick add_internal add_segments at_child find_child classify lookup
    insert erase bytes_eq split_path strip_slash normalize_pattern to_upper
router = tt

abbrev run_routes : List (Bytes × Bytes × ℕ) → Bytes → Bytes → Option (ℕ × Params)
run_routes routes method path = elim (add_all routes empty) [
  | none ↦ none
  | some root ↦ match root method path
]

abbrev table : List (Bytes × Bytes × ℕ)
table =
    (bytes "get", bytes "/users/{id}", 1)
    ∷ (bytes "GET", bytes "/users/me/", 2)
    ∷ (bytes "*", bytes "/files/*", 3)
    ∷ (bytes "GET", bytes "/:a/:a/x", 4)
    ∷ []

static_first : run_routes table (bytes "GET") (bytes "/users/me") ≡ some (2, [])
unfolding router
static_first = refl

captures :
    run_routes table (bytes "GET") (bytes "/users/7/") ≡ some (1, (bytes "id", bytes "7") ∷ [])
unfolding router
captures = refl

wildcard_any : run_routes table (bytes "PUT") (bytes "/files/a/b") ≡ some (3, [])
unfolding router
wildcard_any = refl

not_found : run_routes table (bytes "PUT") (bytes "/files") ≡ none
unfolding router
not_found = refl

-- A failed try below a second parameter of the same name erases the first one's value.
lost_parameter :
    run_routes
      ((bytes "GET", bytes "/:a/:a/x", 4) ∷ (bytes "GET", bytes "/:a/*", 5) ∷ [])
      (bytes "GET")
      (bytes "/1/2/y")
    ≡ some (5, [])
unfolding router
lost_parameter = refl

abbrev root_of : Option (Node ℕ) → Node ℕ
root_of none = empty
root_of (some root) = root

abbrev table_root : Node ℕ
table_root = root_of (add_all table empty)

match-add_all_example :
    is_some (match table_root (bytes "GET") (bytes "/users/9"))
    ≡ any (route_fits (bytes "GET") (bytes "/users/9")) table
match-add_all_example =
    match-add_all table table_root (bytes "GET") (bytes "/users/9") (unfold router in refl)

match-add_internal_example :
    match
      (root_of (add_internal (bytes "get") (bytes "/users/all/") 6 table_root))
      (bytes "GET")
      (bytes "/users/all")
    ≡ some (6, [])
match-add_internal_example =
    unfold router in
    match-add_internal (bytes "get") (bytes "/users/all/") (bytes "/users/all") 6 table_root
      (root_of (add_internal (bytes "get") (bytes "/users/all/") 6 table_root)) refl
      (refl, (refl, tt)) refl

match_recursive-LeavesWithin_example :
    LeavesWithin
      (match_recursive table_root (bytes "1" ∷ bytes "2" ∷ bytes "y" ∷ []) (bytes "GET") [])
      []
match_recursive-LeavesWithin_example =
    match_recursive-LeavesWithin table_root (bytes "1" ∷ bytes "2" ∷ bytes "y" ∷ []) (bytes "GET")
      []

match-slash_example :
    match table_root (bytes "PUT") (bytes "/files/a" ++ b'/' ∷ [])
    ≡ match table_root (bytes "PUT") (bytes "/files/a")
match-slash_example = match-slash table_root (bytes "PUT") (bytes "/files/a")
