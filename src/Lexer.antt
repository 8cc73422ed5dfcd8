-- ===== src/Lexer.antt =====
-- The lexer of the language: include/odio/lexer.hpp, src/odio/lexer.cpp, and the tokens of
-- include/odio/token.hpp and src/odio/token.cpp.
pub mod Token
pub mod State
pub mod Text
pub mod Scan
pub mod Tokenize
pub mod Keeps
pub mod Tokens
pub mod Blocks
pub mod Lines
pub mod Rounds
pub mod Balance
pub mod Margin
pub mod Literal
mod Tests
