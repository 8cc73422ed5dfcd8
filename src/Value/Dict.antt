-- ===== src/Value/Dict.antt =====
-- `Value::Dict` of include/odio/value.hpp: entries in the order of insertion, with an index by hash
-- once there are more than 16 of them. An iterator is a position.
pub mod Refinement
use osodio.Prelude.{
  Bytes, bytes_eq, ℕ, zero, suc, ◌+◌, ◌-◌, Bool, true, false, Option, none, some, List, [], ◌∷◌,
  ◌++◌, ltb, if◌then◌else◌, length,
}
use osodio.StringMap.{lookup, emplace}

pub record Dict {ℓ} (V : Type ℓ) : Type ℓ where
  pub entries : List (Bytes × V)
  pub index : List (Bytes × ℕ)

abbrev pub threshold : ℕ
threshold = 16

abbrev pub next_position : Option ℕ → Option ℕ
next_position none = none
next_position (some i) = some (suc i)

module _ {ℓ} {V : Type ℓ} where
  -- The loop of `find` over the entries.
  unfoldable pub position : Bytes → List (Bytes × V) → Option ℕ
  position k [] = none
  position k ((j, v) ∷ m) =
      let rest = position k m in if bytes_eq j k then some 0 else next_position rest

  -- `it->second = v`
  unfoldable pub set_at : ℕ → V → List (Bytes × V) → List (Bytes × V)
  set_at i v [] = []
  set_at zero v ((j, w) ∷ m) = (j, v) ∷ m
  set_at (suc i) v ((j, w) ∷ m) = (j, w) ∷ set_at i v m

  -- `indexar`, from an entry on.
  unfoldable pub index_from : ℕ → List (Bytes × V) → List (Bytes × ℕ) → List (Bytes × ℕ)
  index_from i [] idx = idx
  index_from i ((j, v) ∷ m) idx = index_from (suc i) m (emplace j i idx)

  abbrev pub find_with : List (Bytes × ℕ) → Bytes → List (Bytes × V) → Option ℕ
  find_with [] k m = position k m
  find_with (x ∷ idx) k m = lookup k (x ∷ idx)

  -- `find`
  unfoldable pub find_position : Bytes → Dict V → Option ℕ
  find_position k d = find_with d.index k d.entries

  -- The index once an entry is at the end.
  abbrev pub index_behind : List (Bytes × ℕ) → Bytes → List (Bytes × V) → List (Bytes × ℕ)
  index_behind [] k m = if ltb threshold (length m) then index_from 0 m [] else []
  index_behind (x ∷ idx) k m = emplace k (length m - 1) (x ∷ idx)

  abbrev pub put_at : Option ℕ → Bytes → V → Dict V → Dict V
  put_at (some i) k v d = record d { entries = set_at i v d.entries }
  put_at none k v d =
      let m = d.entries ++ (k, v) ∷ [] in record { entries = m; index = index_behind d.index k m }

  -- `d[k] = v`
  unfoldable pub set_key : Bytes → V → Dict V → Dict V
  set_key k v d = put_at (find_position k d) k v d
