-- ===== src/Value/Utf8/Standard.antt =====
-- The well-formed texts of RFC 3629, section 4, against `largo_utf8` of src/odio/value.cpp.
use osodio.Prelude.{
  Bytes, IsByte, ℕ, suc, ◌≤◌, ◌≡◌, refl, Bool, true, not, ◌&&◌, if◌then◌else◌, [], ◌∷◌, leb, arith,
  all_below, all_below-lt,
}
use osodio.Value.Utf8.{largo_utf8, cont, secuencias}

-- `UTF8-tail`
abbrev pub Tail : ℕ → Type 0
Tail c = (0x80 ≤ c) × (c ≤ 0xBF)

-- A text that starts with `UTF8-1`, `UTF8-2`, `UTF8-3` or `UTF8-4`, and what follows that.
pub data Sequence : Bytes → Bytes → Type 0 where
  one : {c : ℕ} {r : Bytes} → c ≤ 0x7F → Sequence (c ∷ r) r
  two : {c d : ℕ} {r : Bytes} → 0xC2 ≤ c → c ≤ 0xDF → Tail d → Sequence (c ∷ d ∷ r) r
  three_e0 : {d e : ℕ} {r : Bytes} → 0xA0 ≤ d → d ≤ 0xBF → Tail e → Sequence (0xE0 ∷ d ∷ e ∷ r) r
  three_low :
      {c d e : ℕ} {r : Bytes} → 0xE1 ≤ c → c ≤ 0xEC → Tail d → Tail e → Sequence (c ∷ d ∷ e ∷ r) r
  three_ed : {d e : ℕ} {r : Bytes} → 0x80 ≤ d → d ≤ 0x9F → Tail e → Sequence (0xED ∷ d ∷ e ∷ r) r
  three_high :
      {c d e : ℕ} {r : Bytes} → 0xEE ≤ c → c ≤ 0xEF → Tail d → Tail e → Sequence (c ∷ d ∷ e ∷ r) r
  four_f0 :
      {d e f : ℕ} {r : Bytes}
      → 0x90 ≤ d
      → d ≤ 0xBF
      → Tail e
      → Tail f
      → Sequence (0xF0 ∷ d ∷ e ∷ f ∷ r) r
  four :
      {c d e f : ℕ} {r : Bytes}
      → 0xF1 ≤ c
      → c ≤ 0xF3
      → Tail d
      → Tail e
      → Tail f
      → Sequence (c ∷ d ∷ e ∷ f ∷ r) r
  four_f4 :
      {d e f : ℕ} {r : Bytes}
      → 0x80 ≤ d
      → d ≤ 0x8F
      → Tail e
      → Tail f
      → Sequence (0xF4 ∷ d ∷ e ∷ f ∷ r) r

-- `UTF8-octets`
pub data IsUtf8 : Bytes → Type 0 where
  ends : IsUtf8 []
  follows : {s r : Bytes} → Sequence s r → IsUtf8 r → IsUtf8 s

-- The byte is a tail exactly when its two high bits are 10.
abbrev agrees : ℕ → Bool
agrees c = if leb 0x80 c && leb c 0xBF then cont (c ∷ []) else not (cont (c ∷ []))

byte_agrees : (c : ℕ) → IsByte c → agrees c ≡ true
unfolding all_below
byte_agrees c b = all_below-lt 256 agrees c b refl

Tail-cont : (c : ℕ) (s : Bytes) → Tail c → cont (c ∷ s) ≡ true
Tail-cont c s h = ground (arith, byte_agrees c (omega arith))

pub cont-Tail : (c : ℕ) (s : Bytes) → IsByte c → cont (c ∷ s) ≡ true → Tail c
cont-Tail c s b h = ground (arith, byte_agrees c b)

-- What `largo_utf8` measures of a sequence.
abbrev pub Measured : ℕ → Bytes → Bytes → Type 0
Measured c s r = (k : ℕ) × (largo_utf8 c s ≡ suc k) × (secuencias k s ≡ secuencias 0 r)

pub Sequence-length : {c : ℕ} {s r : Bytes} → Sequence (c ∷ s) r → Measured c s r
unfolding largo_utf8 secuencias
Sequence-length (one a) = (0, ground arith, refl)
Sequence-length (two {d = d} {r} a b t) = (1, ground (arith, Tail-cont d r t), refl)
Sequence-length (three_e0 {d} {e} {r} a b t) =
    (2, ground (arith, Tail-cont d (e ∷ r), Tail-cont e r t), refl)
Sequence-length (three_low {c} {d} {e} {r} a b t u) =
    (2, ground (arith, Tail-cont d (e ∷ r) t, Tail-cont e r u), refl)
Sequence-length (three_ed {d} {e} {r} a b t) =
    (2, ground (arith, Tail-cont d (e ∷ r), Tail-cont e r t), refl)
Sequence-length (three_high {c} {d} {e} {r} a b t u) =
    (2, ground (arith, Tail-cont d (e ∷ r) t, Tail-cont e r u), refl)
Sequence-length (four_f0 {d} {e} {f} {r} a b t u) =
    (3, ground (arith, Tail-cont d (e ∷ f ∷ r), Tail-cont e (f ∷ r) t, Tail-cont f r u), refl)
Sequence-length (four {c} {d} {e} {f} {r} a b t u v) =
    (3, ground (arith, Tail-cont d (e ∷ f ∷ r) t, Tail-cont e (f ∷ r) u, Tail-cont f r v), refl)
Sequence-length (four_f4 {d} {e} {f} {r} a b t u) =
    (3, ground (arith, Tail-cont d (e ∷ f ∷ r), Tail-cont e (f ∷ r) t, Tail-cont f r u), refl)
