-- ===== src/Base/Text.antt =====
-- Texts as code points: the character classes and the regular expressions of fixed shape that
-- identifiers are checked against.
use Prim.Native.Nat.{ℕ}
use Prim.Native.Char.{code}
use Prim.Native.String.{String}
use mathlib.Core.Bool.{Bool, true, false, not, ◌&&◌, ◌||◌}
use mathlib.Core.Option.{Option, none, some}
use mathlib.Core.List.{List, [], ◌∷◌}
use text.Mathlib.Text.{◌==◌ as str_eq}
use moduagent.Base.Tests.{leb, ◌==◌, if◌then◌else◌}
use moduagent.Base.Lists.{length, all}

abbrev pub codes : String → List ℕ
codes String.[] = []
codes (String.◌∷◌ c s) = code c ∷ codes s

abbrev pub is_empty : String → Bool
is_empty s = str_eq s ""

-- `[A-Za-z0-9]`
unfoldable pub is_alnum : ℕ → Bool
is_alnum c = (leb b'A' c && leb c b'Z') || (leb b'a' c && leb c b'z') || (leb b'0' c && leb c b'9')

-- `^[A-Za-z0-9]<follow>{0,limit}$`, by `fullmatch`
unfoldable pub matches_identifier : (ℕ → Bool) → ℕ → List ℕ → Bool
unfolding is_alnum
matches_identifier follow limit [] = false
matches_identifier follow limit (c ∷ cs) = is_alnum c && leb (length cs) limit && all follow cs

-- `value.startswith(prefix)` and `value.removeprefix(prefix)`, on code points.
unfoldable pub strip_prefix : List ℕ → List ℕ → Option (List ℕ)
strip_prefix [] cs = some cs
strip_prefix (p ∷ ps) [] = none
strip_prefix (p ∷ ps) (c ∷ cs) = if p == c then strip_prefix ps cs else none

-- `[0-9a-f]`
unfoldable pub is_lower_hex : ℕ → Bool
is_lower_hex c = (leb b'0' c && leb c b'9') || (leb b'a' c && leb c b'f')

abbrev pub opt_eq : Option String → Option String → Bool
opt_eq none none = true
opt_eq none (some t) = false
opt_eq (some s) none = false
opt_eq (some s) (some t) = str_eq s t

abbrev pub bool_eq : Bool → Bool → Bool
bool_eq true b = b
bool_eq false b = not b
