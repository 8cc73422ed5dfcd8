-- ===== src/HttpParser.antt =====
-- The callbacks of src/http/http_parser.cpp. The parser that calls them is vendored: here it is any
-- sequence of calls. What `on_complete` is called with is recorded in `completed`.
pub mod Limits
pub mod Chunks
mod Tests
use osodio.Prelude.{
  Bytes, bytes, bytes_eq, ℕ, zero, suc, ◌+◌, ◌-◌, ◌*◌, Bool, true, false, ◌&&◌, Option, none, some,
  List, [], ◌∷◌, ◌++◌, map, ltb, leb, ◌==◌, if◌then◌else◌, length,
}
use osodio.StringMap.{lookup, insert}

pub record ParsedRequest : Type 0 where
  pub method : Bytes
  pub path : Bytes
  pub query : Bytes
  pub version : Bytes
  pub headers : List (Bytes × Bytes)
  pub body : Bytes

pub record ParseContext : Type 0 where
  pub current : ParsedRequest
  pub last_field : Bytes
  pub last_value : Bytes
  pub value_pending : Bool
  pub header_count : ℕ
  pub error : Bool
  pub body_too_large : Bool
  pub completed : List ParsedRequest

abbrev pub max_url_size : ℕ
max_url_size = 8 * 1024

abbrev pub max_header_size : ℕ
max_header_size = 8 * 1024

abbrev pub max_header_count : ℕ
max_header_count = 100

abbrev pub max_body_size : ℕ
max_body_size = 16 * 1024 * 1024

-- What a callback returns to the parser: HPE_OK, HPE_USER or HPE_PAUSED.
pub data Reply : Type 0 where
  ok : Reply
  user : Reply
  paused : Reply

abbrev pub empty_request : ParsedRequest
empty_request = record { method = []; path = []; query = []; version = []; headers = []; body = [] }

abbrev pub fresh : ParseContext
fresh = record {
  current = empty_request;
  last_field = [];
  last_value = [];
  value_pending = false;
  header_count = 0;
  error = false;
  body_too_large = false;
  completed = [];
}

-- `c->error = true; return HPE_USER;`
abbrev pub refuse : ParseContext → ParseContext × Reply
refuse c = (record c { error = true }, user)

unfoldable pub on_url : Bytes → ParseContext → ParseContext × Reply
on_url at' c =
    if ltb max_url_size (length c.current.path + length at')
    then refuse c
    else (record c { current = record c.current { path = c.current.path ++ at' } }, ok)

unfoldable pub to_lower : ℕ → ℕ
to_lower c = if leb b'A' c && leb c b'Z' then c + 32 else c

abbrev pub combined : Bytes → Option Bytes → Bytes → Bytes
combined key none value = value
combined key (some old) value =
    old ++ ((if bytes_eq key (bytes "set-cookie") then 0x0A ∷ [] else bytes ", ") ++ value)

abbrev pub with_header : Bytes → Bytes → List (Bytes × Bytes) → List (Bytes × Bytes)
with_header key value headers = insert key (combined key (lookup key headers) value) headers

abbrev pub commit : ParseContext → ParseContext
commit c = record c {
  current = record c.current {
    headers = with_header (map to_lower c.last_field) c.last_value c.current.headers;
  };
  last_field = [];
  last_value = [];
  value_pending = false;
  header_count = suc c.header_count;
}

unfoldable pub commit_header : ParseContext → ParseContext
commit_header c = if c.value_pending then commit c else c

-- A pending header is committed, unless there are too many; then `go`.
abbrev pub after_pending :
    (ParseContext → ParseContext × Reply) → ParseContext → ParseContext × Reply
after_pending go c =
    if c.value_pending && leb max_header_count c.header_count
    then refuse c
    else go (commit_header c)

unfoldable pub add_field : Bytes → ParseContext → ParseContext × Reply
add_field at' c =
    if ltb max_header_size (length c.last_field + length at')
    then refuse c
    else (record c { last_field = c.last_field ++ at' }, ok)

unfoldable pub on_header_field : Bytes → ParseContext → ParseContext × Reply
on_header_field at' c = after_pending (add_field at') c

unfoldable pub on_header_value : Bytes → ParseContext → ParseContext × Reply
on_header_value at' c =
    if ltb max_header_size (length c.last_value + length at')
    then refuse c
    else (record c { last_value = c.last_value ++ at'; value_pending = true }, ok)

abbrev pub set_version : ℕ → ℕ → ParseContext → ParseContext × Reply
set_version major minor c = (
  record c {
    current = record c.current {
      version = if major == 1 && minor == 0 then bytes "HTTP/1.0" else bytes "HTTP/1.1";
    };
  },
  ok,
)

-- With the version that the parser has read.
unfoldable pub on_headers_complete : ℕ → ℕ → ParseContext → ParseContext × Reply
on_headers_complete major minor c = after_pending (set_version major minor) c

unfoldable pub on_body : Bytes → ParseContext → ParseContext × Reply
on_body at' c =
    if ltb max_body_size (length c.current.body + length at')
    then (record c { error = true; body_too_large = true }, user)
    else (record c { current = record c.current { body = c.current.body ++ at' } }, ok)

abbrev pub prepend : ℕ → Option (Bytes × Bytes) → Option (Bytes × Bytes)
prepend c none = none
prepend c (some (before, behind)) = some (c ∷ before, behind)

-- The parts around the first '?', `path.find('?')`.
unfoldable pub split_query : Bytes → Option (Bytes × Bytes)
split_query [] = none
split_query (c ∷ t) = let rest = split_query t in if c == b'?' then some ([], t) else prepend c rest

abbrev pub with_query : Option (Bytes × Bytes) → ParsedRequest → ParsedRequest
with_query none r = r
with_query (some (path', query')) r = record r { path = path'; query = query' }

-- With the name of the method that the parser has read.
unfoldable pub on_message_complete : Bytes → ParseContext → ParseContext × Reply
on_message_complete name c =
    let request : ParsedRequest = record (with_query (split_query c.current.path) c.current) {
      method = name;
    } in
    (
      record c {
        current = empty_request;
        header_count = 0;
        completed = c.completed ++ request ∷ [];
      },
      paused,
    )

-- A call of the parser.
pub data Event : Type 0 where
  url : Bytes → Event
  header_field : Bytes → Event
  header_value : Bytes → Event
  headers_complete : (major minor : ℕ) → Event
  body_part : Bytes → Event
  message_complete : (name : Bytes) → Event

abbrev pub handle : Event → ParseContext → ParseContext × Reply
handle (url at') c = on_url at' c
handle (header_field at') c = on_header_field at' c
handle (header_value at') c = on_header_value at' c
handle (headers_complete major minor) c = on_headers_complete major minor c
handle (body_part at') c = on_body at' c
handle (message_complete name) c = on_message_complete name c

abbrev pub unless_refused : (ParseContext → ParseContext) → ParseContext × Reply → ParseContext
unless_refused go (c, user) = c
unless_refused go (c, _) = go c

-- The calls in order, up to the one that is refused; a pause is resumed.
unfoldable pub run : List Event → ParseContext → ParseContext
run [] c = c
run (e ∷ es) c = unless_refused (run es) (handle e c)

-- `HttpParser::reset`
unfoldable pub reset : ParseContext → ParseContext
reset c = record fresh { completed = c.completed }
