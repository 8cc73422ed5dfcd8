-- ===== src/Lexer/Token.antt =====
-- The tokens of include/odio/token.hpp and the reserved words of src/odio/token.cpp.
use osodio.Prelude.{Bytes, bytes, Bool, true, false, List, [], ◌∷◌, none, some}
use osodio.StringMap.{lookup}
use osodio.Vm.Code.{SourceLoc}

pub data Tok : Type 0 where
  end_of_file newline indent dedent : Tok
  ident int float string : Tok
  kw_import kw_class kw_fn kw_app kw_group kw_endpoint kw_on kw_error : Tok
  kw_origins kw_validate kw_static kw_spa : Tok
  kw_get kw_post kw_put kw_patch kw_delete kw_any kw_sse kw_ws : Tok
  kw_if kw_else kw_elif kw_while kw_for kw_in kw_return kw_require : Tok
  kw_try kw_catch kw_break kw_continue : Tok
  kw_and kw_or kw_not kw_true kw_false kw_null kw_this kw_await kw_void : Tok
  l_paren r_paren l_bracket r_bracket l_brace r_brace : Tok
  comma colon dot question arrow assign : Tok
  eq not_eq lt lt_eq gt gt_eq : Tok
  plus minus star slash percent : Tok
  plus_plus minus_minus : Tok
  plus_eq minus_eq star_eq slash_eq percent_eq : Tok

pub record Token : Type 0 where
  pub kind : Tok
  pub text : Bytes
  pub loc : SourceLoc

abbrev pub keywords : List (Bytes × Tok)
keywords =
    (bytes "import", kw_import)
    ∷ (bytes "class", kw_class)
    ∷ (bytes "fn", kw_fn)
    ∷ (bytes "app", kw_app)
    ∷ (bytes "group", kw_group)
    ∷ (bytes "endpoint", kw_endpoint)
    ∷ (bytes "on", kw_on)
    ∷ (bytes "error", kw_error)
    ∷ (bytes "origins", kw_origins)
    ∷ (bytes "validate", kw_validate)
    ∷ (bytes "static", kw_static)
    ∷ (bytes "spa", kw_spa)
    ∷ (bytes "get", kw_get)
    ∷ (bytes "post", kw_post)
    ∷ (bytes "put", kw_put)
    ∷ (bytes "patch", kw_patch)
    ∷ (bytes "delete", kw_delete)
    ∷ (bytes "any", kw_any)
    ∷ (bytes "sse", kw_sse)
    ∷ (bytes "ws", kw_ws)
    ∷ (bytes "if", kw_if)
    ∷ (bytes "else", kw_else)
    ∷ (bytes "elif", kw_elif)
    ∷ (bytes "while", kw_while)
    ∷ (bytes "for", kw_for)
    ∷ (bytes "in", kw_in)
    ∷ (bytes "return", kw_return)
    ∷ (bytes "require", kw_require)
    ∷ (bytes "try", kw_try)
    ∷ (bytes "catch", kw_catch)
    ∷ (bytes "break", kw_break)
    ∷ (bytes "continue", kw_continue)
    ∷ (bytes "and", kw_and)
    ∷ (bytes "or", kw_or)
    ∷ (bytes "not", kw_not)
    ∷ (bytes "true", kw_true)
    ∷ (bytes "false", kw_false)
    ∷ (bytes "null", kw_null)
    ∷ (bytes "this", kw_this)
    ∷ (bytes "await", kw_await)
    ∷ (bytes "void", kw_void)
    ∷ []

unfoldable pub keyword_or_ident : Bytes → Tok
keyword_or_ident s = elim (lookup s keywords) [ none ↦ ident | some k ↦ k ]

abbrev pub is_newline : Tok → Bool
is_newline newline = true
is_newline _ = false

-- A token of the layout of the lines.
abbrev pub is_layout : Tok → Bool
is_layout newline = true
is_layout indent = true
is_layout dedent = true
is_layout _ = false

-- What a message calls a token.
unfoldable pub tok_name : Tok → Bytes
tok_name end_of_file = bytes "fin de fichero"
tok_name newline = bytes "fin de linea"
tok_name indent = bytes "indentacion"
tok_name dedent = bytes "des-indentacion"
tok_name ident = bytes "identificador"
tok_name int = bytes "entero"
tok_name float = bytes "decimal"
tok_name string = bytes "cadena"
tok_name kw_import = bytes "import"
tok_name kw_class = bytes "class"
tok_name kw_fn = bytes "fn"
tok_name kw_app = bytes "app"
tok_name kw_group = bytes "group"
tok_name kw_endpoint = bytes "endpoint"
tok_name kw_on = bytes "on"
tok_name kw_error = bytes "error"
tok_name kw_origins = bytes "origins"
tok_name kw_validate = bytes "validate"
tok_name kw_static = bytes "static"
tok_name kw_spa = bytes "spa"
tok_name kw_get = bytes "get"
tok_name kw_post = bytes "post"
tok_name kw_put = bytes "put"
tok_name kw_patch = bytes "patch"
tok_name kw_delete = bytes "delete"
tok_name kw_any = bytes "any"
tok_name kw_sse = bytes "sse"
tok_name kw_ws = bytes "ws"
tok_name kw_if = bytes "if"
tok_name kw_else = bytes "else"
tok_name kw_elif = bytes "elif"
tok_name kw_while = bytes "while"
tok_name kw_for = bytes "for"
tok_name kw_in = bytes "in"
tok_name kw_return = bytes "return"
tok_name kw_require = bytes "require"
tok_name kw_try = bytes "try"
tok_name kw_catch = bytes "catch"
tok_name kw_break = bytes "break"
tok_name kw_continue = bytes "continue"
tok_name kw_and = bytes "and"
tok_name kw_or = bytes "or"
tok_name kw_not = bytes "not"
tok_name kw_true = bytes "true"
tok_name kw_false = bytes "false"
tok_name kw_null = bytes "null"
tok_name kw_this = bytes "this"
tok_name kw_await = bytes "await"
tok_name kw_void = bytes "void"
tok_name l_paren = bytes "("
tok_name r_paren = bytes ")"
tok_name l_bracket = bytes "["
tok_name r_bracket = bytes "]"
tok_name l_brace = bytes "{"
tok_name r_brace = bytes "}"
tok_name comma = bytes ","
tok_name colon = bytes ":"
tok_name dot = bytes "."
tok_name question = bytes "?"
tok_name arrow = bytes "->"
tok_name assign = bytes "="
tok_name eq = bytes "=="
tok_name not_eq = bytes "!="
tok_name lt = bytes "<"
tok_name lt_eq = bytes "<="
tok_name gt = bytes ">"
tok_name gt_eq = bytes ">="
tok_name plus = bytes "+"
tok_name minus = bytes "-"
tok_name star = bytes "*"
tok_name slash = bytes "/"
tok_name percent = bytes "%"
tok_name plus_plus = bytes "++"
tok_name minus_minus = bytes "--"
tok_name plus_eq = bytes "+="
tok_name minus_eq = bytes "-="
tok_name star_eq = bytes "*="
tok_name slash_eq = bytes "/="
tok_name percent_eq = bytes "%="
