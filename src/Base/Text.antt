-- ===== src/Base/Text.antt =====
-- Text as the list of its code points, and the string operations that the program uses.
use Prim.Native.Nat.{ℕ, zero, suc, ◌+◌, ◌/◌, ◌%◌}
use Prim.Native.Char.{code}
use Prim.Native.String.{String}
use mathlib.Core.Path.{◌≡◌, refl}
use mathlib.Core.List.{List, [], ◌∷◌, ◌++◌, reverse}
use mathlib.Core.Bool.{Bool, true, false, ◌&&◌, ◌||◌}
use native.Mathlib.Omega.{arith}
use anime_recommendation_eng.Base.Bools.{leb, ltb, if◌then◌else◌, ◌==◌}

abbrev pub Text : Type 0
Text = List ℕ

abbrev pub codes : String → Text
codes String.[] = []
codes (String.◌∷◌ c s) = code c ∷ codes s

-- `s == t`
abbrev pub text_eq : Text → Text → Bool
text_eq [] [] = true
text_eq [] (_ ∷ _) = false
text_eq (_ ∷ _) [] = false
text_eq (a ∷ s) (b ∷ t) = a == b && text_eq s t

pub eq_of_text_eq : (s t : Text) → text_eq s t ≡ true → s ≡ t
eq_of_text_eq [] [] h = refl
eq_of_text_eq [] (_ ∷ _) h = cc
eq_of_text_eq (_ ∷ _) [] h = cc
eq_of_text_eq (a ∷ s) (b ∷ t) h = ground (arith, eq_of_text_eq s t)

pub text_eq_self : (s : Text) → text_eq s s ≡ true
text_eq_self [] = refl
text_eq_self (a ∷ s) = ground (arith, text_eq_self s)

-- `t.startswith(p)`
abbrev pub starts_with : Text → Text → Bool
starts_with [] t = true
starts_with (_ ∷ _) [] = false
starts_with (a ∷ p) (b ∷ t) = a == b && starts_with p t

-- `p in t`
abbrev pub contains : Text → Text → Bool
contains p [] = starts_with p []
contains p (b ∷ t) = starts_with p (b ∷ t) || contains p t

-- The tables of Python's Unicode database: which characters `str.isspace` accepts, and `str.lower`.
pub record Unicode : Type 0 where
  pub is_space : ℕ → Bool
  pub lower : Text → Text

module _ (u : Unicode) where
  -- `s.lstrip()`
  abbrev pub lstrip : Text → Text
  lstrip [] = []
  lstrip (c ∷ s) = if u.is_space c then lstrip s else c ∷ s

  -- `s.strip()`
  abbrev pub strip : Text → Text
  strip s = reverse (lstrip (reverse (lstrip s)))

  -- `len(s.split())`: a word begins at a character that is no space and follows a space.
  abbrev pub words_from : Bool → Text → ℕ
  words_from inside [] = 0
  words_from inside (c ∷ s) =
      if u.is_space c then words_from false s else ((if inside then 0 else 1) + words_from true s)

  abbrev pub word_count : Text → ℕ
  word_count s = words_from false s

-- Latin text alone: enough for tests.
abbrev pub ascii_lower : Text → Text
ascii_lower [] = []
ascii_lower (c ∷ s) = (if leb 65 c && leb c 90 then c + 32 else c) ∷ ascii_lower s

abbrev pub latin : Unicode
latin = record { is_space = λ c. c == 32 || c == 10 || c == 9 || c == 13; lower = ascii_lower }

-- `str(n)`: the digits of a number, with fuel for their count.
abbrev pub digits_of : ℕ → ℕ → Text → Text
digits_of zero n rest = rest
digits_of (suc fuel) n rest =
    let more = digits_of fuel (n / 10) ((b'0' + n % 10) ∷ rest) in
    if ltb n 10 then (b'0' + n) ∷ rest else more

unfoldable pub decimal : ℕ → Text
decimal n = digits_of (suc n) n []

-- `sep.join(parts)`
unfoldable pub join : Text → List Text → Text
join sep [] = []
join sep (t ∷ []) = t
join sep (t ∷ t' ∷ ts) = t ++ (sep ++ join sep (t' ∷ ts))
