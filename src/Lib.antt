-- ===== src/Lib.antt =====
-- Osodio: the HTTP router and the runtime of the language Odio.
--
-- The program has two layers. `lohin` is the HTTP server: a request is parsed, and a tree of route
-- patterns picks the handler that answers it. `odio` is a language whose handlers run on a virtual
-- machine; its values are written as JSON into a response and read as JSON out of a request, and a
-- session travels in a cookie that is signed with HMAC-SHA-256.
--
-- Router (src/router.cpp, include/lohin/router.hpp). Router.Pattern has the text functions
-- (`normalize_pattern`, `split_path`), Router.Tree the tree with `add_internal` and `match`. A
-- node is its segment, its type, its handlers by method and its children in order. The parameters
-- that `match_recursive` changes in place are passed through the search (`Search`), also through a
-- try that fails. An exception of `normalize_pattern` is `none`. The map of a node is StringMap.
--
-- Crypto (src/odio/crypto.cpp). Crypto.Base64, Crypto.Sha256 and Crypto.Compare. A `uint32_t` is a
-- number with its wrap-around written out. The compression runs through one block at a time. The
-- length in bits is taken modulo 2^64, as the source computes it.
--
-- Value (include/odio/value.hpp, src/odio/value.cpp). A value is the tree that its shared boxes
-- stand for; a dictionary is its entries in the order of insertion, and Value.Dict has the one
-- with the hash index that the source keeps from 17 entries on. A `double` is the number of its 64
-- bits. Value.Swar has the tests on eight bytes at once, Value.Utf8 the validation and the repair,
-- with the well-formed texts of RFC 3629 (section 4) in Value.Utf8.Standard, Value.Escape the
-- writer of JSON strings, Value.Kinds `type_name` and `truthy`, Value.Decimal `std::to_string` and
-- `std::from_chars` of a `long long`. A loop that moves an index in steps of more than one byte is
-- a recursion over the bytes with the number of bytes that it still passes over.
--
-- Json (src/odio/value.cpp, src/odio/json_parse.cpp). Json.Write has `write_json`; Json.Text,
-- Json.Number and Json.Parse have the methods of the class `Parser`, with the text that is left in
-- place of the position. What `<charconv>` does with a `double` is the parameter `Floats`. The
-- depth that is left in `valor` starts at 201, for a `prof` from 0 to `kMaxProfundidad`. The loops
-- of `cadena`, `lista` and `objeto` get one round for each byte that is left and one more; each
-- round consumes a byte, and running out of rounds is an outcome of its own (`spent`).
--
-- Session (src/odio/project.cpp). Session.Cookie has `sign_session` and `load_session`,
-- Session.Jwt `verify_jwt`, whose clock is an argument. The conversions of `exp` between `long
-- long` and `double` are in Value.Double.
--
-- Cookies (include/lohin/cookies.hpp) writes and reads the headers. WebSocket
-- (include/lohin/websocket.hpp) has the handshake, the frames and `WSState`: what a state sends is
-- a list in it, if `send_fn` is set, and `try_parse` is a loop of rounds, one for each byte in the
-- buffer and one more.
--
-- Plantilla (src/odio/plantilla.cpp) has the escape of HTML text and the trimming of templates.
--
-- HttpParser (src/http/http_parser.cpp) has the callbacks of the vendored parser, which is any
-- sequence of calls here; the version and the name of the method are arguments of the calls.
--
-- Prelude and Bits have the helpers that these share: tests, lists measured by native numbers,
-- texts as lists of bytes, integers, and the bit operations.
--
-- Vm (src/odio/vm.cpp, include/odio/vm.hpp, include/odio/bytecode.hpp) is the virtual machine. A
-- list or a dictionary is the number of its box in Vm.Boxes, so a write is seen by all who hold
-- it. Vm.Words has the arithmetic of `long long`, Vm.Arithmetic the operators and `equals`,
-- Vm.Members the instructions on lists and dictionaries, Vm.Operations the other instructions,
-- Vm.Step the `switch`, Vm.Handlers `find_handler` and the unwinding, Vm.Run the loops and `start`
-- and `resume`. What the source leaves undefined is a `fault`: `missing` for an operand, a slot or
-- a constant that is not there, `overflow` for a result that a `long long` does not hold,
-- `endless` for an `equals` that calls itself deeper than the `depth` of the host. The native
-- functions, the methods and the arithmetic of `double` are fields of `Host`. `run` takes one
-- instruction for each unit of fuel, and `execute` one round for each error that a `try` takes;
-- Vm.Halting says how much fuel is enough for a run. A program may catch errors for ever, so no
-- number of rounds is enough for all. Vm.Checker is a check of bytecode that is not in the source;
-- Vm.Depth shows what it is good for.
--
-- Lexer (src/odio/lexer.cpp, include/odio/lexer.hpp, src/odio/token.cpp, include/odio/token.hpp) is
-- the lexer of the language. Lexer.State has the class `Lexer`, with the text that is left in place of
-- the position, and the tokens, the open widths and the diagnostics with the last one first;
-- Lexer.Text the numbers, names and strings, Lexer.Scan `lex_token` and `handle_line_start`,
-- Lexer.Tokenize the loop. Lines and columns are numbers without a bound, and letters are those of
-- the C locale. The two loops get a round for each character that is left and one more; each round
-- takes a character, and out of rounds there is no result.
--
-- Db (src/odio/db.cpp, include/odio/db.hpp) is the pool of threads of the databases. Db.Pool has
-- `DbPool` with a worker for each thread; `turn` is the next thing that one thread does: with the
-- lock it takes a job, or falls asleep in `cv_.wait`, or comes to its end; without it, it ends its
-- job. A worker that sleeps has no turn until it is woken: by `notify_all` of `submit_to` and
-- `stop`, by `notify_one` of `submit`, where the worker that the system chooses is an argument, or
-- for no reason (`wake_up`). A call and its notification are one step. Turns, calls and wake-ups
-- follow each other in any order, as the mutex puts them. A job is any value, and one that throws
-- ends like any other. `stop` is its first half; its second half waits for the turns.
--
-- Not modelled: the parser, the emitter and the native functions of the language, the vendored
-- HTTP parser, the connections, the event loops, the database drivers and the command line. The
-- source of randomness, the clock and files are outside. A handler is any type: what it does is
-- not looked at.
pub mod Prelude
pub mod StringMap
pub mod Bits
pub mod Crypto
pub mod Db
pub mod Router
pub mod Value
pub mod Json
pub mod Session
pub mod Cookies
pub mod WebSocket
pub mod HttpParser
pub mod Plantilla
pub mod Vm
pub mod Lexer
