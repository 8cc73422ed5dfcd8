-- ===== src/Lexer/Literal.antt =====
-- Strings on one line, in `lex_string` of src/odio/lexer.cpp.
use mathlib.Core.Path.{subst, ap₂}
use osodio.Prelude.{
  Bytes, bytes, ◌-◌, ℕ, ◌≡◌, ◌≢◌, ◌⊎◌, refl, ap, sym, ◌∙◌, false, [], ◌∷◌, ◌++◌, Option, none, some,
  arith, Bool-cases, inl, inr, ◌==◌, ◌&&◌, ◌||◌, get_or, if◌then◌else◌,
}
use osodio.Vm.Code.{SourceLoc}
use osodio.Lexer.Token.{string}
use osodio.Lexer.State.{Lexer, peek, advance, report}
use osodio.Lexer.Text.{escape_de, string_body, lex_string}
use osodio.Lexer.Lines.{advance-rest}
use osodio.Prelude.{either}

-- A quote, a backslash and a line break are written with a backslash.
abbrev written_char : ℕ → Bytes → Bytes
written_char c more =
    if c == b'"' || c == b'\\'
    then b'\\' ∷ c ∷ more
    else if c == b'\n'
    then b'\\' ∷ b'n' ∷ more
    else c ∷ more

-- The literal of a text without its first quote, and what follows it.
abbrev pub string_literal : Bytes → Bytes → Bytes
string_literal [] rest = b'"' ∷ rest
string_literal (c ∷ v) rest = written_char c (string_literal v rest)

quoted : (k c : ℕ) → k ≡ c → escape_de k ≡ some k → escape_de c ≡ some c
quoted k c same h = subst (λ x. escape_de x ≡ some x) same h

-- How a character is written: with a letter behind a backslash, or as it is.
char-cases :
    (c : ℕ)
    → ((k : ℕ) × (escape_de k ≡ some c) × ((more : Bytes) → written_char c more ≡ b'\\' ∷ k ∷ more))
      ⊎ ((((c == b'"') ≡ false) × ((c == b'\\') ≡ false) × ((c == b'\n') ≡ false))
          × ((more : Bytes) → written_char c more ≡ c ∷ more))
unfolding escape_de
char-cases c = elim (Bool-cases (c == b'"')) [
  | inl quote ↦ inl (c, quoted b'"' c (ground arith) refl, λ more. rw quote refl)
  | inr q ↦ elim (Bool-cases (c == b'\\')) [
    | inl slash ↦ inl (c, quoted b'\\' c (ground arith) refl, λ more. rw (q, slash) refl)
    | inr b ↦ elim (Bool-cases (c == b'\n')) [
      | inl break ↦ inl (b'n', ap some (ground arith), λ more. rw (q, b, break) refl)
      | inr n ↦ inr ((q, b, n), λ more. rw (q, b, n) refl)
    ]
  ]
]

-- What reading a literal changes.
record Reads (s : Lexer) (v rest : Bytes) (r : Bytes × Lexer) : Type 0 where
  value : r.0 ≡ v
  left : r.1.rest ≡ rest
  out : r.1.out ≡ s.out
  diags : r.1.diags ≡ s.diags

advance-out : (s : Lexer) → (advance s).out ≡ s.out
unfolding advance
advance-out s = ground arith

advance-diags : (s : Lexer) → (advance s).diags ≡ s.diags
unfolding advance
advance-diags s = ground arith

module _ (loc : SourceLoc) where
  Reads-cons :
      (s t : Lexer) (c : ℕ) (v rest : Bytes) (r : Bytes × Lexer)
      → t.out ≡ s.out
      → t.diags ≡ s.diags
      → Reads t v rest r
      → Reads s (c ∷ v) rest (c ∷ r.0, r.1)
  Reads-cons s t c v rest r o d h = record {
    value = ap (λ w. c ∷ w) h.value;
    left = h.left;
    out = h.out ∙ o;
    diags = h.diags ∙ d;
  }

  closed-Reads : (rest : Bytes) (s : Lexer) → s.rest ≡ b'"' ∷ rest → Reads s [] rest ([], advance s)
  closed-Reads rest s e = record {
    value = refl;
    left = advance-rest b'"' rest s e;
    out = advance-out s;
    diags = advance-diags s;
  }

  end-Reads :
      (rest : Bytes) (s : Lexer)
      → s.rest ≡ b'"' ∷ rest
      → Reads s [] rest (string_body loc (b'"' ∷ rest) s)
  unfolding string_body
  end-Reads [] s e = closed-Reads [] s e
  end-Reads (c ∷ rest) s e = closed-Reads (c ∷ rest) s e

  plain-Reads :
      (c : ℕ) (v rest m : Bytes) (s : Lexer)
      → m ≢ []
      → (c == b'"') ≡ false
      → (c == b'\\') ≡ false
      → (c == b'\n') ≡ false
      → Reads (advance s) v rest (string_body loc m (advance s))
      → Reads s (c ∷ v) rest (string_body loc (c ∷ m) s)
  unfolding string_body
  plain-Reads c v rest [] s there q b n h = absurd (there refl)
  plain-Reads c v rest (x ∷ xs) s there q b n h =
      rw (string_body, n, q, b) (Reads-cons s _ c v rest _ (advance-out s) (advance-diags s) h)

  escape-Reads :
      (c e : ℕ) (v rest m : Bytes) (s : Lexer)
      → escape_de e ≡ some c
      → Reads (advance (advance s)) v rest (string_body loc m (advance (advance s)))
      → Reads s (c ∷ v) rest (string_body loc (b'\\' ∷ e ∷ m) s)
  unfolding string_body
  escape-Reads c e v rest m s known h =
      let s₁ = advance (advance s) in
      let t : Option ℕ → Lexer = λ o. elim o [
        | none ↦
            report (record { line = s₁.line; col = s₁.col - 1 })
              (bytes "escape desconocido: \\" ++ e ∷ []) s₁
        | some d ↦ s₁
      ] in
      subst
        (λ o. Reads s (c ∷ v) rest (
          (elim o [ none ↦ e | some d ↦ d ]) ∷ (string_body loc m (t o)).0,
          (string_body loc m (t o)).1,
        ))
        (sym known)
        (Reads-cons s _ c v rest _ (advance-out (advance s) ∙ advance-out s)
          (advance-diags (advance s) ∙ advance-diags s) h)

  string_literal-there : (v rest : Bytes) → string_literal v rest ≢ []
  string_literal-there [] rest = λ e. cc
  string_literal-there (c ∷ v) rest =
      either (λ x. x ≢ []) (c == b'"' || c == b'\\') (λ e. cc)
        (either (λ x. x ≢ []) (c == b'\n') (λ e. cc) (λ e. cc))

  string_literal-Reads :
      (v rest : Bytes) (s : Lexer)
      → s.rest ≡ string_literal v rest
      → Reads s v rest (string_body loc (string_literal v rest) s)
  string_literal-Reads [] rest s e = end-Reads rest s e
  string_literal-Reads (c ∷ v) rest s e =
      let two : (k : ℕ)
          → s.rest ≡ b'\\' ∷ k ∷ string_literal v rest
          → (advance (advance s)).rest ≡ string_literal v rest =
        λ k w. advance-rest k _ (advance s) (advance-rest b'\\' _ s w) in
      elim (char-cases c) [
        | inl (k, known, same) ↦ rw (same (string_literal v rest)) (
            escape-Reads c k v rest _ s known
              (string_literal-Reads v rest _ (two k (e ∙ same (string_literal v rest)))))
        | inr ((q, b, n), same) ↦ rw (same (string_literal v rest)) (
            plain-Reads c v rest _ s (string_literal-there v rest) q b n (
              string_literal-Reads v rest _
                (advance-rest c _ s (e ∙ same (string_literal v rest)))))
      ]

  one_line :
      (v rest : Bytes)
      → (v ≡ [] → (get_or rest 0 0 == b'"') ≡ false)
      → (get_or (string_literal v rest) 0 0 == b'"' && get_or (string_literal v rest) 1 0 == b'"')
        ≡ false
  one_line [] rest h = h refl
  one_line (c ∷ v) rest h = elim (char-cases c) [
    | inl (k, known, same) ↦ rw (same (string_literal v rest)) refl
    | inr ((q, b, n), same) ↦ rw (same (string_literal v rest), q) refl
  ]

  -- The literal of any text is read back: there is a token for the text, nothing is reported, and what
  -- follows the literal is left. An empty text is not followed by a third quote.
  pub lex_string-string_literal :
      (v rest : Bytes) (s : Lexer)
      → s.rest ≡ b'"' ∷ string_literal v rest
      → (v ≡ [] → (get_or rest 0 0 == b'"') ≡ false)
      → ((lex_string loc s).out ≡ record { kind = string; text = v; loc = loc } ∷ s.out)
        × ((lex_string loc s).diags ≡ s.diags)
        × ((lex_string loc s).rest ≡ rest)
  unfolding lex_string
  lex_string-string_literal v rest s e h =
      let single : (peek 1 s == b'"' && peek 2 s == b'"') ≡ false =
        subst (λ x. (get_or x 1 0 == b'"' && get_or x 2 0 == b'"') ≡ false) (sym e)
          (one_line v rest h) in
      let behind : (advance s).rest ≡ string_literal v rest = advance-rest b'"' _ s e in
      let r : Reads (advance s) v rest (string_body loc (advance s).rest (advance s)) =
        subst (λ x. Reads (advance s) v rest (string_body loc x (advance s))) (sym behind)
          (string_literal-Reads v rest (advance s) behind) in
      rw (lex_string, single)
        (
          ap₂ (λ w ts. record { kind = string; text = w; loc = loc } ∷ ts) r.value
              (r.out ∙ advance-out s),
          r.diags ∙ advance-diags s,
          r.left,
        )
