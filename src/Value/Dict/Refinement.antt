-- ===== src/Value/Dict/Refinement.antt =====
-- The dictionary of include/odio/value.hpp against a list of entries that is searched from its start.
use osodio.Prelude.{
  Bytes, bytes_eq, bytes_eq_refl, eq_of-bytes_eq, ℕ, zero, suc, ◌+◌, ◌-◌, ◌≡◌, refl, Option, none,
  some, List, [], ◌∷◌, ◌++◌, ltb, if◌then◌else◌, length, length-append, arith, Bool-cases,
  Option-cases, inl, inr, ap, ◌∙◌, sym,
}
use osodio.StringMap.{lookup, insert, emplace, lookup-insert}
use osodio.Value.Dict.{
  Dict, threshold, next_position, position, set_at, index_from, find_with, find_position,
  index_behind, put_at, set_key,
}

lookup-emplace :
    (k j : Bytes) (i : ℕ) (idx : List (Bytes × ℕ))
    → lookup k (emplace j i idx)
      ≡ elim (lookup k idx) [ some n ↦ some n | none ↦ if bytes_eq j k then some i else none ]
unfolding emplace
lookup-emplace k j i idx = elim (Bool-cases (bytes_eq j k)) [
  | inl same ↦
      rw (eq_of-bytes_eq j k same) (ground (arith, lookup-insert k k i idx, bytes_eq_refl k))
  | inr other ↦ ground (arith, lookup-insert j k i idx)
]

abbrev shifted : ℕ → Option ℕ → Option ℕ
shifted i none = none
shifted i (some p) = some (i + p)

shifted-next : (i : ℕ) (o : Option ℕ) → shifted (suc i) o ≡ shifted i (next_position o)
shifted-next i none = refl
shifted-next i (some p) = ap some (omega arith)

shifted-zero : (o : Option ℕ) → shifted 0 o ≡ o
shifted-zero none = refl
shifted-zero (some p) = ap some (omega arith)

module _ {ℓ} {V : Type ℓ} where
  -- The index finds what the search of the entries finds.
  abbrev pub IsIndexed : Dict V → Type 0
  IsIndexed d = (k : Bytes) → find_position k d ≡ position k d.entries

  set_at-insert :
      (k : Bytes) (v : V) (m : List (Bytes × V)) (i : ℕ)
      → position k m ≡ some i
      → set_at i v m ≡ insert k v m
  unfolding position set_at insert
  set_at-insert k v [] i e = cc
  set_at-insert k v ((j, w) ∷ m) zero e = elim (Bool-cases (bytes_eq j k)) [
    | inl same ↦ rw (same, eq_of-bytes_eq j k same) refl
    | inr other ↦ elim (Option-cases (position k m)) [
      | inl f ↦ absurd (let h : none ≡ some 0 = rw (other, f) at e in ground arith)
      | inr (i, f) ↦ absurd (let h : some (suc i) ≡ some 0 = rw (other, f) at e in ground arith)
    ]
  ]
  set_at-insert k v ((j, w) ∷ m) (suc i) e = elim (Bool-cases (bytes_eq j k)) [
    | inl same ↦ absurd (let h : some 0 ≡ some (suc i) = rw same at e in ground arith)
    | inr other ↦
        let found : position k m ≡ some i = ground arith in
        rw other (ap (λ t. (j, w) ∷ t) (set_at-insert k v m i found))
  ]

  append-insert :
      (k : Bytes) (v : V) (m : List (Bytes × V))
      → position k m ≡ none
      → m ++ (k, v) ∷ [] ≡ insert k v m
  unfolding position insert
  append-insert k v [] e = refl
  append-insert k v ((j, w) ∷ m) e = elim (Bool-cases (bytes_eq j k)) [
    | inl same ↦ absurd (let h : some 0 ≡ none = rw same at e in ground arith)
    | inr other ↦
        let missing : position k m ≡ none = ground arith in
        rw other (ap (λ t. (j, w) ∷ t) (append-insert k v m missing))
  ]

  position-set_at :
      (k : Bytes) (v : V) (m : List (Bytes × V)) (i : ℕ) → position k (set_at i v m) ≡ position k m
  unfolding position set_at
  position-set_at k v [] i = refl
  position-set_at k v ((j, w) ∷ m) zero = refl
  position-set_at k v ((j, w) ∷ m) (suc i) = rw (position-set_at k v m i) refl

  position-append :
      (k j : Bytes) (v : V) (m : List (Bytes × V))
      → position k (m ++ (j, v) ∷ []) ≡ elim (position k m) [
        | some i ↦ some i
        | none ↦ if bytes_eq j k then some (length m) else none
      ]
  unfolding position
  position-append k j v [] = ground arith
  position-append k j v ((i, w) ∷ m) = ground (arith, position-append k j v m)

  lookup-index_from :
      (k : Bytes) (i : ℕ) (m : List (Bytes × V)) (idx : List (Bytes × ℕ))
      → lookup k (index_from i m idx)
        ≡ elim (lookup k idx) [ some n ↦ some n | none ↦ shifted i (position k m) ]
  unfolding index_from position
  lookup-index_from k i [] idx = ground arith
  lookup-index_from k i ((j, v) ∷ m) idx = ground (
    arith,
    lookup-index_from k (suc i) m (emplace j i idx),
    lookup-emplace k j i idx,
    shifted-next i (position k m),
  )

  find_with-lookup :
      (idx : List (Bytes × ℕ)) (k : Bytes) (m : List (Bytes × V))
      → lookup k idx ≡ position k m
      → find_with idx k m ≡ position k m
  find_with-lookup [] k m h = refl
  find_with-lookup (x ∷ idx) k m h = h

  find_with-set_at :
      (idx : List (Bytes × ℕ)) (j : Bytes) (v : V) (i : ℕ) (m : List (Bytes × V))
      → find_with idx j m ≡ position j m
      → find_with idx j (set_at i v m) ≡ position j (set_at i v m)
  find_with-set_at [] j v i m h = refl
  find_with-set_at (x ∷ idx) j v i m h = h ∙ sym (position-set_at j v m i)

  find_with-index_behind :
      (idx : List (Bytes × ℕ)) (j k : Bytes) (v : V) (m : List (Bytes × V))
      → find_with idx j m ≡ position j m
      → find_with (index_behind idx k (m ++ (k, v) ∷ [])) j (m ++ (k, v) ∷ [])
        ≡ position j (m ++ (k, v) ∷ [])
  find_with-index_behind [] j k v m h =
      let m' = m ++ (k, v) ∷ [] in
      elim (Bool-cases (ltb threshold (length m'))) [
        | inl many ↦ rw many (
            find_with-lookup (index_from 0 m' []) j m'
              (lookup-index_from j 0 m' [] ∙ unfold lookup in shifted-zero (position j m')))
        | inr few ↦ rw few refl
      ]
  find_with-index_behind (x ∷ idx) j k v m h =
      let m' = m ++ (k, v) ∷ [] in
      let size : length m' - 1 ≡ length m = omega (arith, length-append m ((k, v) ∷ [])) in
      find_with-lookup (emplace k (length m' - 1) (x ∷ idx)) j m' (
        ground (arith, lookup-emplace j k (length m' - 1) (x ∷ idx), position-append j k v m, size))

  put_at-refines :
      (o : Option ℕ) (k : Bytes) (v : V) (d : Dict V)
      → o ≡ position k d.entries
      → IsIndexed d
      → IsIndexed (put_at o k v d) × ((put_at o k v d).entries ≡ insert k v d.entries)
  unfolding find_position
  put_at-refines (some i) k v d e h =
      (λ j. find_with-set_at d.index j v i d.entries (h j), set_at-insert k v d.entries i (sym e))
  put_at-refines none k v d e h = (
    λ j. find_with-index_behind d.index j k v d.entries (h j),
    append-insert k v d.entries (sym e),
  )

  -- `d[k] = v` on a dictionary whose index finds what a search of its entries finds: the entries are
  -- those of the list with the value of `k` replaced where `k` is, or put at the end, and the index
  -- still finds what a search finds, also when it is built at 17 entries.
  pub set_key-refines :
      (k : Bytes) (v : V) (d : Dict V)
      → IsIndexed d
      → IsIndexed (set_key k v d) × ((set_key k v d).entries ≡ insert k v d.entries)
  unfolding set_key
  set_key-refines k v d h = put_at-refines (find_position k d) k v d (h k) h
