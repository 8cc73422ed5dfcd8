-- ===== src/HttpParser/Tests.antt =====
-- Runs of the callbacks of src/http/http_parser.cpp.
use osodio.Prelude.{bytes, bytes_eq, ◌≡◌, refl, List, [], ◌∷◌, ◌++◌, arith}
use osodio.StringMap.{lookup, insert}
use osodio.HttpParser.{
  fresh, on_url, to_lower, commit_header, add_field, on_header_field, on_header_value,
  on_headers_complete, on_body, split_query, on_message_complete, Event, url, header_field,
  header_value, headers_complete, body_part, message_complete, run,
}
use osodio.HttpParser.Limits.{IsLimited, run-IsLimited}
use osodio.HttpParser.Chunks.{url_cut, later, run-IsCut}

http : Unit {0}
unfolding run on_url to_lower commit_header add_field on_header_field on_header_value
    on_headers_complete on_body split_query on_message_complete lookup insert bytes_eq
http = tt

abbrev request : List Event
request =
    url (bytes "/a?b=1")
    ∷ header_field (bytes "Host")
    ∷ header_value (bytes "x")
    ∷ header_field (bytes "host")
    ∷ header_value (bytes "y")
    ∷ headers_complete 1 1
    ∷ body_part (bytes "hi")
    ∷ message_complete (bytes "POST")
    ∷ []

combined_headers :
    (run request fresh).completed
    ≡ record {
      method = bytes "POST";
      path = bytes "/a";
      query = bytes "b=1";
      version = bytes "HTTP/1.1";
      headers = (bytes "host", bytes "x, y") ∷ [];
      body = bytes "hi";
    }
      ∷ []
unfolding http
combined_headers = refl

-- A header behind the body stays pending and is committed with the next request's.
kept_trailer :
    (run
      (url (bytes "/1")
        ∷ headers_complete 1 1
        ∷ header_field (bytes "Admin")
        ∷ header_value (bytes "1")
        ∷ message_complete (bytes "POST")
        ∷ url (bytes "/2")
        ∷ headers_complete 1 1
        ∷ [])
      fresh).current.headers
    ≡ (bytes "admin", bytes "1") ∷ []
unfolding http
kept_trailer = refl

run-IsLimited_example : IsLimited (run request fresh)
run-IsLimited_example = run-IsLimited request fresh (omega arith)

abbrev short_request : List Event
short_request = headers_complete 1 0 ∷ url (bytes "/a" ++ bytes "bc") ∷ []

abbrev cut_request : List Event
cut_request = headers_complete 1 0 ∷ url (bytes "/a") ∷ url (bytes "bc") ∷ []

run-IsCut_example : run cut_request fresh ≡ run short_request fresh
run-IsCut_example =
    run-IsCut (later (headers_complete 1 0) _ _ (url_cut (bytes "/a") (bytes "bc") [])) fresh
      (unfold run on_headers_complete commit_header on_url in refl)
