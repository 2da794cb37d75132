-- ===== src/Base/Strings.antt =====
-- Go strings, as lists of runes, and what the code uses of the packages strings and unicode.
use Prim.Native.Nat.{ℕ}
use Prim.Native.Char.{code}
use Prim.Native.String.{String}
use mathlib.Core.Bool.{Bool, ◌&&◌, ◌||◌}
use mathlib.Core.List.{List, [], ◌∷◌, map, reverse}
use inventory_api.Base.Tests.{if◌then◌else◌, leb}
use inventory_api.Base.Equality.{◌==◌, nat_eq, list_beq}

abbrev pub Text : Type 0
Text = List ℕ

abbrev pub codes : String → Text
codes String.[] = []
codes (String.◌∷◌ c s) = code c ∷ codes s

-- unicode.IsSpace
unfoldable pub is_space : ℕ → Bool
is_space c =
    (leb 9 c && leb c 13)
    || (c == 32)
    || (c == 0x85)
    || (c == 0xa0)
    || (c == 0x1680)
    || (leb 0x2000 c && leb c 0x200a)
    || (c == 0x2028)
    || (c == 0x2029)
    || (c == 0x202f)
    || (c == 0x205f)
    || (c == 0x3000)

unfoldable pub drop_spaces : Text → Text
unfolding is_space
drop_spaces [] = []
drop_spaces (c ∷ cs) = if is_space c then drop_spaces cs else c ∷ cs

-- strings.TrimSpace
unfoldable pub trim_space : Text → Text
unfolding drop_spaces
trim_space s = reverse (drop_spaces (reverse (drop_spaces s)))

-- The case tables of package unicode: `lower` is unicode.ToLower, and `fold` names the class of a
-- rune under simple folding, so two runes are equal under folding when `fold` says so.
pub record CaseTables : Type 0 where
  pub lower : ℕ → ℕ
  pub fold : ℕ → ℕ

module _ ⦃t : CaseTables⦄ where
  -- strings.ToLower
  unfoldable pub to_lower : Text → Text
  to_lower = map t.lower

  -- strings.EqualFold
  unfoldable pub equal_fold : Text → Text → Bool
  equal_fold a b = list_beq (map t.fold a) (map t.fold b)

-- strings.ReplaceAll with one rune for another
unfoldable pub replace_all : ℕ → ℕ → Text → Text
replace_all old new = map (λ c. if c == old then new else c)

-- The tables restricted to ASCII, for tests.
abbrev ascii_lower : ℕ → ℕ
ascii_lower c = if leb b'A' c && leb c b'Z' then Prim.Native.Nat.◌+◌ c 32 else c

instance abbrev pub ascii : CaseTables
ascii = record { lower = ascii_lower; fold = ascii_lower }
