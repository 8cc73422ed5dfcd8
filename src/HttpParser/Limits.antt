-- ===== src/HttpParser/Limits.antt =====
-- The limits of the requests that src/http/http_parser.cpp collects.
use osodio.Prelude.{
  Bytes, suc, ◌≤◌, ◌≡◌, Bool, true, false, ◌&&◌, List, [], ◌∷◌, map, leb, if◌then◌else◌, length,
  length-append, arith, Bool-cases, inl, inr,
}
use osodio.StringMap.{lookup, insert}
use osodio.HttpParser.{
  ParseContext, max_url_size, max_header_size, max_header_count, max_body_size, Reply, ok, user,
  paused, on_url, to_lower, combined, commit, commit_header, after_pending, add_field,
  on_header_field, on_header_value, set_version, on_headers_complete, on_body, on_message_complete,
  Event, url, header_field, header_value, headers_complete, body_part, message_complete, handle,
  unless_refused, run,
}

-- The limits of a context that is filled.
abbrev pub IsLimited : ParseContext → Type 0
IsLimited c =
    (length c.current.path ≤ max_url_size)
    × (length c.last_field ≤ max_header_size)
    × (length c.last_value ≤ max_header_size)
    × (c.header_count ≤ max_header_count)
    × (length c.current.headers ≤ c.header_count)
    × (length c.current.body ≤ max_body_size)

length-insert : (k v : Bytes) (m : List (Bytes × Bytes)) → length (insert k v m) ≤ suc (length m)
unfolding insert
length-insert k v [] = omega arith
length-insert k v ((j, w) ∷ m) = ground (arith, length-insert k v m)

url-IsLimited : (t : Bytes) (c : ParseContext) → IsLimited c → IsLimited (on_url t c).0
unfolding on_url
url-IsLimited t c h = ground (arith, length-append c.current.path t)

value-IsLimited : (t : Bytes) (c : ParseContext) → IsLimited c → IsLimited (on_header_value t c).0
unfolding on_header_value
value-IsLimited t c h = ground (arith, length-append c.last_value t)

body-IsLimited : (t : Bytes) (c : ParseContext) → IsLimited c → IsLimited (on_body t c).0
unfolding on_body
body-IsLimited t c h = ground (arith, length-append c.current.body t)

add_field-IsLimited : (t : Bytes) (c : ParseContext) → IsLimited c → IsLimited (add_field t c).0
unfolding add_field
add_field-IsLimited t c h = ground (arith, length-append c.last_field t)

commit-IsLimited :
    (pending : Bool) (c : ParseContext)
    → (pending && leb max_header_count c.header_count) ≡ false
    → IsLimited c
    → IsLimited (if pending then commit c else c)
commit-IsLimited false c e h = h
commit-IsLimited true c e h =
    let key = map to_lower c.last_field in
    let more =
      length-insert key (combined key (lookup key c.current.headers) c.last_value)
        c.current.headers in
    ground (arith, more)

after_pending-IsLimited :
    (go : ParseContext → ParseContext × Reply) (c : ParseContext)
    → ((d : ParseContext) → IsLimited d → IsLimited (go d).0)
    → IsLimited c
    → IsLimited (after_pending go c).0
unfolding commit_header
after_pending-IsLimited go c k h =
    elim (Bool-cases (c.value_pending && leb max_header_count c.header_count)) [
      | inl e ↦ rw e h
      | inr e ↦
          rw e
            (k (if c.value_pending then commit c else c) (commit-IsLimited c.value_pending c e h))
    ]

message-IsLimited :
    (name : Bytes) (c : ParseContext) → IsLimited c → IsLimited (on_message_complete name c).0
unfolding on_message_complete
message-IsLimited name c h = omega arith

handle-IsLimited : (e : Event) (c : ParseContext) → IsLimited c → IsLimited (handle e c).0
handle-IsLimited (url t) c h = url-IsLimited t c h
handle-IsLimited (header_field t) c h =
    unfold on_header_field in after_pending-IsLimited (add_field t) c (add_field-IsLimited t) h
handle-IsLimited (header_value t) c h = value-IsLimited t c h
handle-IsLimited (headers_complete major minor) c h =
    unfold on_headers_complete in after_pending-IsLimited (set_version major minor) c (λ d k. k) h
handle-IsLimited (body_part t) c h = body-IsLimited t c h
handle-IsLimited (message_complete name) c h = message-IsLimited name c h

unless_refused-IsLimited :
    (go : ParseContext → ParseContext) (r : ParseContext × Reply)
    → ((c : ParseContext) → IsLimited c → IsLimited (go c))
    → IsLimited r.0
    → IsLimited (unless_refused go r)
unless_refused-IsLimited go (c, ok) k h = k c h
unless_refused-IsLimited go (c, user) k h = h
unless_refused-IsLimited go (c, paused) k h = k c h

-- Whatever the parser calls, and in whatever order, the path, the fields, the number of headers and
-- the body stay within their limits.
pub run-IsLimited : (es : List Event) (c : ParseContext) → IsLimited c → IsLimited (run es c)
unfolding run
run-IsLimited [] c h = h
run-IsLimited (e ∷ es) c h =
    unless_refused-IsLimited (run es) (handle e c) (run-IsLimited es) (handle-IsLimited e c h)
