-- ===== src/Json/DictTrip.antt =====
-- `objeto` of src/odio/json_parse.cpp on the text that `write_json` of src/odio/value.cpp writes for
-- a dictionary.
use mathlib.Core.List.{append_assoc}
use osodio.Prelude.{
  Bytes, ℕ, suc, ◌≤◌, ◌<◌, ◌≡◌, refl, Bool, true, false, none, [], ◌∷◌, ◌++◌, if◌then◌else◌, arith,
  ap, ◌∙◌, length, length-append, bytes_eq, Bool-cases, inl, inr,
}
use osodio.Value.{Value, dict, Entries, end, entry, assign, find}
use osodio.Value.Escape.Reference.{escapar_bytes}
use osodio.Json.Floats.{Floats}
use osodio.Json.Text.{Parsed, got, espacios}
use osodio.Json.StringTrip.{cadena-escapar_bytes}
use osodio.Json.Write.{is_internal, write_json, write_dict}
use osodio.Json.Parse.{tras_entrada, objeto_desde, objeto_en, valor}
use osodio.Json.Fits.{
  FitsDict, no_entry, an_entry, IsText, escapar_of-IsText, Starts, espacios-Starts,
}
use osodio.Json.ListTrip.{Reads}

abbrev pub size : Entries → ℕ
size end = 0
size (entry k v es) = suc (size es)

abbrev pub onto : Entries → Entries → Entries
onto end es = es
onto (entry k v d) es = entry k v (onto d es)

pub onto-end : (d : Entries) → onto d end ≡ d
onto-end end = refl
onto-end (entry k v d) = ap (λ t. entry k v t) (onto-end d)

-- A new key goes to the end.
pub onto-assign :
    (d : Entries) (k : Bytes) (v : Value) (es : Entries)
    → find k d ≡ none
    → onto (assign k v d) es ≡ onto d (entry k v es)
unfolding assign find
onto-assign end k v es h = refl
onto-assign (entry j w d) k v es h = elim (Bool-cases (bytes_eq j k)) [
  | inl e ↦ absurd (ground arith)
  | inr e ↦ rw e (ap (λ t. entry j w t) (onto-assign d k v es (rw e at h)))
]

-- An entry, with its text nested to the right.
piece :
    (key text more rest : Bytes)
    → (key ++ b'"' ∷ []) ++ b':' ∷ text ++ more ++ rest
      ≡ key ++ b'"' ∷ b':' ∷ (text ++ (more ++ rest))
piece key text more rest =
    append_assoc ((key ++ b'"' ∷ []) ++ b':' ∷ text) more rest
    ∙ append_assoc (key ++ b'"' ∷ []) (b':' ∷ text) (more ++ rest)
    ∙ append_assoc key (b'"' ∷ []) (b':' ∷ (text ++ (more ++ rest)))

module _ (fl : Floats) where
  -- The text behind an entry.
  abbrev pub more_entries : Entries → Bytes → Bytes
  more_entries es rest = write_dict fl false es ++ b'}' ∷ rest

  -- A dictionary from an entry on.
  unfoldable pub entry_text : Bytes → Value → Entries → Bytes → Bytes
  entry_text k v es rest =
      b'"' ∷ (escapar_bytes k ++ b'"' ∷ b':' ∷ (write_json fl v ++ more_entries es rest))

  write_dict-entry :
      (primero : Bool) (k : Bytes) (v : Value) (es : Entries) (rest : Bytes)
      → IsText k
      → is_internal k ≡ false
      → write_dict fl primero (entry k v es) ++ b'}' ∷ rest
        ≡ (if primero then [] else b',' ∷ []) ++ entry_text k v es rest
  unfolding write_json entry_text
  write_dict-entry true k v es rest h i =
      rw (i, escapar_of-IsText k h)
        (ap (λ t. b'"' ∷ t)
          (piece (escapar_bytes k) (write_json fl v) (write_dict fl false es) (b'}' ∷ rest)))
  write_dict-entry false k v es rest h i =
      rw (i, escapar_of-IsText k h)
        (ap (λ t. b',' ∷ b'"' ∷ t)
          (piece (escapar_bytes k) (write_json fl v) (write_dict fl false es) (b'}' ∷ rest)))

  objeto_step :
      (left rounds : ℕ) (k : Bytes) (v : Value) (es d : Entries) (rest : Bytes)
      → Starts (write_json fl v)
      → valor fl left (write_json fl v ++ more_entries es rest) ≡ got v (more_entries es rest)
      → objeto_desde (valor fl left) (suc rounds) d (entry_text k v es rest)
        ≡ tras_entrada
            (valor fl left)
            (objeto_desde (valor fl left) rounds)
            (assign k v d)
            (espacios (more_entries es rest))
  unfolding objeto_desde entry_text espacios
  objeto_step left rounds k v es d rest s e =
      rw
        (
          cadena-escapar_bytes k (b':' ∷ (write_json fl v ++ more_entries es rest)),
          espacios-Starts (write_json fl v) (more_entries es rest) s,
          e,
        )
        refl

  length-entry_text :
      (k : Bytes) (v : Value) (es : Entries) (rest : Bytes)
      → length (more_entries es rest) ≤ length (entry_text k v es rest)
  unfolding entry_text
  length-entry_text k v es rest = omega (
    arith,
    length-append (escapar_bytes k) (b'"' ∷ b':' ∷ (write_json fl v ++ more_entries es rest)),
    length-append (write_json fl v) (more_entries es rest),
  )

  length-more_entries :
      {left : ℕ} {d es : Entries} (rest : Bytes)
      → FitsDict left d es
      → size es ≤ length (more_entries es rest)
  length-more_entries rest no_entry = omega arith
  length-more_entries rest (an_entry {es} {v} k h i new hv hes) =
      rw (write_dict-entry false k v es rest h i)
        (omega (arith, length-entry_text k v es rest, length-more_entries rest hes))

  objeto_en-brace :
      (elemento : Bytes → Parsed Value) (t : Bytes)
      → objeto_en elemento (espacios (b'"' ∷ t))
        ≡ objeto_desde elemento (suc (length (b'"' ∷ t))) end (b'"' ∷ t)
  objeto_en-brace elemento t = unfold espacios in refl

  -- A dictionary is read from its first entry on.
  pub dict-Reads :
      {left : ℕ} {es : Entries} (k : Bytes) (v : Value)
      → IsText k
      → is_internal k ≡ false
      → FitsDict left (assign k v end) es
      → ((rounds : ℕ) (rest : Bytes)
          → size es < rounds
          → objeto_desde (valor fl left) rounds end (entry_text k v es rest)
            ≡ got (dict (onto (assign k v end) es)) rest)
      → Reads fl (suc left) (dict (entry k v es))
  dict-Reads {left} {es} k v h i fits loop rest stops =
      let e =
        append_assoc (write_dict fl true (entry k v es)) (b'}' ∷ []) rest
        ∙ write_dict-entry true k v es rest h i in
      let whole : valor fl (suc left) (write_json fl (dict (entry k v es)) ++ rest)
          ≡ objeto_en (valor fl left)
              (espacios ((write_dict fl true (entry k v es) ++ b'}' ∷ []) ++ rest)) =
        unfold valor write_json in refl in
      let text = entry_text k v es rest in
      let opened : objeto_en (valor fl left) (espacios text)
          ≡ objeto_desde (valor fl left) (suc (length text)) end text =
        unfold entry_text in
        objeto_en-brace (valor fl left)
          (escapar_bytes k ++ b'"' ∷ b':' ∷ (write_json fl v ++ more_entries es rest)) in
      let looped : objeto_desde (valor fl left) (suc (length text)) end text
          ≡ got (dict (entry k v es)) rest =
        unfold assign in
        loop (suc (length text)) rest
          (omega (arith, length-entry_text k v es rest, length-more_entries rest fits)) in
      whole ∙ rw e opened ∙ looped

  pub dict-end :
      (left rounds : ℕ) (k : Bytes) (v : Value) (d : Entries)
      → Reads fl left v
      → Starts (write_json fl v)
      → (rest : Bytes)
      → objeto_desde (valor fl left) (suc rounds) d (entry_text k v end rest)
        ≡ got (dict (assign k v d)) rest
  dict-end left rounds k v d reads s rest =
      objeto_step left rounds k v end d rest s
        (reads (more_entries end rest) (unfold write_json in refl))
      ∙ (unfold write_json espacios in refl)

  pub dict-next :
      (left rounds : ℕ) (k j : Bytes) (v w : Value) (es d : Entries)
      → IsText j
      → is_internal j ≡ false
      → Reads fl left v
      → Starts (write_json fl v)
      → (rest : Bytes)
      → objeto_desde (valor fl left) (suc rounds) d (entry_text k v (entry j w es) rest)
        ≡ objeto_desde (valor fl left) rounds (assign k v d) (entry_text j w es rest)
  dict-next left rounds k j v w es d h i reads s rest =
      let e = write_dict-entry false j w es rest h i in
      objeto_step left rounds k v (entry j w es) d rest s
        (reads (more_entries (entry j w es) rest) (rw e refl))
      ∙ rw e (unfold espacios in refl)
