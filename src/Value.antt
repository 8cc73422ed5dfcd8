-- ===== src/Value.antt =====
-- The values of include/odio/value.hpp and src/odio/value.cpp. A `double` is the number of its 64
-- bits. Sharing of boxes is left out here: this is the value that a box tree stands for.
pub mod Decimal
pub mod Double
pub mod Kinds
pub mod Dict
pub mod Utf8
pub mod Swar
pub mod Escape
mod Tests
use osodio.Prelude.{
  Bytes, bytes, bytes_eq, ℕ, suc, ◌+◌, ℤ, pos, negsuc, Bool, true, false, not, List, [], ◌∷◌,
  Option, none, some, if◌then◌else◌, ◌==◌,
}

mutual
  pub data Value : Type 0 where
    null : Value
    boolean : Bool → Value
    integer : ℤ → Value
    real : (bits : ℕ) → Value
    str : Bytes → Value
    list : Values → Value
    dict : Entries → Value

  pub data Values : Type 0 where
    nil : Values
    cons : Value → Values → Values

  pub data Entries : Type 0 where
    end : Entries
    entry : Bytes → Value → Entries → Entries

-- `d[k] = v` of a dictionary: in place, or at the end.
unfoldable pub assign : Bytes → Value → Entries → Entries
assign k v end = entry k v end
assign k v (entry j w es) = if bytes_eq j k then entry j v es else entry j w (assign k v es)

-- `d.find(k)`
unfoldable pub find : Bytes → Entries → Option Value
find k end = none
find k (entry j w es) = if bytes_eq j k then some w else find k es
