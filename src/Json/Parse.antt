-- ===== src/Json/Parse.antt =====
-- The values of src/odio/json_parse.cpp. The depth that is left is `kMaxProfundidad + 1 - prof`,
-- and a loop has one round for each byte of its text and one more.
use osodio.Prelude.{
  Bytes, bytes, ℕ, zero, suc, true, false, Option, none, some, [], ◌∷◌, length, ◌==◌, if◌then◌else◌,
}
use osodio.Value.{Value, null, boolean, str, list, dict, Values, nil, cons, Entries, end, assign}
use osodio.Json.Floats.{Floats}
use osodio.Json.Number.{numero}
use osodio.Json.Text.{Parsed, got, bad, spent, after, espacios, literal, cadena}

abbrev palabra : Value → Option Bytes → Parsed Value
palabra v none = bad
palabra v (some t) = got v t

-- A byte that has to come next.
abbrev pub espera : ℕ → Bytes → (Bytes → Parsed Value) → Parsed Value
espera b [] next = bad
espera b (c ∷ t) next = if c == b then next t else bad

-- The elements in order.
abbrev pub reversed_onto : Values → Values → Values
reversed_onto nil out = out
reversed_onto (cons v vs) out = reversed_onto vs (cons v out)

-- The loop of `lista`, given the parser of an element and the elements so far, the last one first.
module _ (elemento : Bytes → Parsed Value) where
  abbrev pub tras_elemento : (Values → Bytes → Parsed Value) → Values → Bytes → Parsed Value
  tras_elemento again l [] = bad
  tras_elemento again l (c ∷ t) =
      if c == b',' then again l t else if c == b']' then got (list (reversed_onto l nil)) t else bad

  unfoldable pub lista_desde : ℕ → Values → Bytes → Parsed Value
  lista_desde zero l t = spent
  lista_desde (suc rounds) l t =
      after (elemento (espacios t))
        λ v t'. tras_elemento (lista_desde rounds) (cons v l) (espacios t')

  -- `lista`, behind the bracket.
  abbrev pub lista_en : Bytes → Parsed Value
  lista_en [] = lista_desde 1 nil []
  lista_en (c ∷ t) =
      if c == b']' then got (list nil) t else lista_desde (suc (length (c ∷ t))) nil (c ∷ t)

  abbrev pub tras_entrada : (Entries → Bytes → Parsed Value) → Entries → Bytes → Parsed Value
  tras_entrada again d [] = bad
  tras_entrada again d (c ∷ t) =
      if c == b',' then again d t else if c == b'}' then got (dict d) t else bad

  unfoldable pub objeto_desde : ℕ → Entries → Bytes → Parsed Value
  objeto_desde zero d t = spent
  objeto_desde (suc rounds) d t = espera b'"' (espacios t) λ t₁. after (cadena t₁) λ k t₂.
      espera b':' (espacios t₂) λ t₃.
        after (elemento (espacios t₃))
          λ v t₄. tras_entrada (objeto_desde rounds) (assign k v d) (espacios t₄)

  -- `objeto`, behind the brace.
  abbrev pub objeto_en : Bytes → Parsed Value
  objeto_en [] = objeto_desde 1 end []
  objeto_en (c ∷ t) =
      if c == b'}' then got (dict end) t else objeto_desde (suc (length (c ∷ t))) end (c ∷ t)

module _ (fl : Floats) where
  -- The `switch` of `valor` over the next byte.
  abbrev pub segun : (Bytes → Parsed Value) → Bytes → Parsed Value
  segun elemento [] = bad
  segun elemento (c ∷ t) =
      if c == b'n'
      then palabra null (literal (bytes "null") (c ∷ t))
      else if c == b't'
      then palabra (boolean true) (literal (bytes "true") (c ∷ t))
      else if c == b'f'
      then palabra (boolean false) (literal (bytes "false") (c ∷ t))
      else if c == b'"'
      then after (cadena t) (λ s t'. got (str s) t')
      else if c == b'['
      then lista_en elemento (espacios t)
      else if c == b'{'
      then objeto_en elemento (espacios t)
      else numero fl (c ∷ t)

  unfoldable pub valor : ℕ → Bytes → Parsed Value
  valor zero t = bad
  valor (suc left) t = segun (valor left) t

  abbrev al_final : Value → Bytes → Parsed Value
  al_final v [] = got v []
  al_final v (c ∷ t) = bad

  -- `documento`, with `kMaxProfundidad` = 200.
  unfoldable pub documento : Bytes → Parsed Value
  documento t = after (valor 201 (espacios t)) (λ v t'. al_final v (espacios t'))

  abbrev outcome : Parsed Value → Option Value
  outcome (got v t) = some v
  outcome _ = none

  -- `Value::parse_json`
  unfoldable pub parse_json : Bytes → Option Value
  parse_json t = outcome (documento t)
