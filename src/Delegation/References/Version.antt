-- ===== src/Delegation/References/Version.antt =====
-- moduagent/definitions/models.py: `_validate_agent_id` and `_validate_version`, with their regular
-- expressions written as tests on code points. The version's expression is read from its separators:
-- the first '+' starts the build metadata, since '+' is in no class, and the first '-' before it
-- starts the pre-release.
use moduagent.Base.{
  ℕ, ◌≡◌, refl, String, Bool, true, false, not, ◌&&◌, ◌||◌, Option, none, some, List, [], ◌∷◌, leb,
  ◌==◌, if◌then◌else◌, codes, matches_identifier, is_alnum, length, all, arith,
}

abbrev pub is_digit : ℕ → Bool
is_digit c = leb b'0' c && leb c b'9'

-- `[A-Za-z0-9._-]`
unfoldable pub is_agent_id_char : ℕ → Bool
unfolding is_alnum
is_agent_id_char c = is_alnum c || (c == b'.' || c == b'_' || c == b'-')

-- `_AGENT_ID_PATTERN.fullmatch(value) is not None`
unfoldable pub is_agent_id : String → Bool
unfolding is_agent_id_char matches_identifier
is_agent_id s = matches_identifier is_agent_id_char 127 (codes s)

-- `0|[1-9][0-9]*`
unfoldable pub is_numeral : List ℕ → Bool
is_numeral [] = false
is_numeral (c ∷ []) = is_digit c
is_numeral (c ∷ d ∷ cs) = (leb b'1' c && leb c b'9') && all is_digit (d ∷ cs)

-- `[0-9A-Za-z-]`
unfoldable pub is_label_char : ℕ → Bool
unfolding is_alnum
is_label_char c = is_alnum c || c == b'-'

-- `[0-9A-Za-z-]+`
unfoldable pub is_label : List ℕ → Bool
is_label [] = false
is_label (c ∷ cs) = is_label_char c && all is_label_char cs

abbrev pub front : ℕ → List (List ℕ) → List (List ℕ)
front c [] = (c ∷ []) ∷ []
front c (p ∷ ps) = (c ∷ p) ∷ ps

-- `value.split(separator)`
unfoldable pub split_on : ℕ → List ℕ → List (List ℕ)
split_on separator [] = [] ∷ []
split_on separator (c ∷ cs) =
    let rest = split_on separator cs in if c == separator then [] ∷ rest else front c rest

-- What stands before the first separator, and what stands after it.
unfoldable pub partition : ℕ → List ℕ → List ℕ × Option (List ℕ)
partition separator [] = ([], none)
partition separator (c ∷ cs) =
    let rest = partition separator cs in
    if c == separator then ([], some cs) else (c ∷ rest.0, rest.1)

abbrev pub are_labels : Option (List ℕ) → Bool
are_labels none = true
are_labels (some cs) = all is_label (split_on b'.' cs)

abbrev pub is_core : List (List ℕ) → Bool
is_core (major ∷ minor ∷ patch ∷ []) = is_numeral major && (is_numeral minor && is_numeral patch)
is_core _ = false

-- `len(identifier) > 1 and identifier.startswith("0")` for an identifier of digits.
unfoldable pub has_leading_zero : List ℕ → Bool
has_leading_zero [] = false
has_leading_zero (c ∷ []) = false
has_leading_zero (c ∷ d ∷ cs) = c == b'0' && all is_digit (c ∷ d ∷ cs)

abbrev pub has_no_leading_zero : Option (List ℕ) → Bool
has_no_leading_zero none = true
has_no_leading_zero (some cs) = all (λ p. not (has_leading_zero p)) (split_on b'.' cs)

-- The version before its build metadata.
unfoldable pub is_release : List ℕ → Bool
is_release cs =
    (is_core (split_on b'.' (partition b'-' cs).0) && are_labels (partition b'-' cs).1)
    && has_no_leading_zero (partition b'-' cs).1

-- `_validate_version` passes
unfoldable pub is_version : String → Bool
is_version s =
    (is_release (partition b'+' (codes s)).0 && are_labels (partition b'+' (codes s)).1)
    && leb (length (codes s)) 128

-- No '@'.
abbrev pub has_no_at : List ℕ → Bool
has_no_at cs = all (λ c. not (c == b'@')) cs

digits-has_no_at : (cs : List ℕ) → all is_digit cs ≡ true → has_no_at cs ≡ true
digits-has_no_at [] h = refl
digits-has_no_at (c ∷ cs) h = ground (arith, digits-has_no_at cs)

label_chars-has_no_at : (cs : List ℕ) → all is_label_char cs ≡ true → has_no_at cs ≡ true
unfolding is_label_char is_alnum
label_chars-has_no_at [] h = refl
label_chars-has_no_at (c ∷ cs) h = ground (arith, label_chars-has_no_at cs)

front-has_no_at :
    (c : ℕ) (ps : List (List ℕ))
    → all has_no_at (front c ps) ≡ true
    → has_no_at (c ∷ []) && all has_no_at ps ≡ true
front-has_no_at c [] h = h
front-has_no_at c (p ∷ ps) h = ground arith

split_on-has_no_at : (cs : List ℕ) → all has_no_at (split_on b'.' cs) ≡ true → has_no_at cs ≡ true
unfolding split_on
split_on-has_no_at [] h = refl
split_on-has_no_at (c ∷ cs) h =
    ground (arith, split_on-has_no_at cs, front-has_no_at c (split_on b'.' cs))

abbrev none_or_no_at : Option (List ℕ) → Bool
none_or_no_at none = true
none_or_no_at (some cs) = has_no_at cs

partition-has_no_at :
    (separator : ℕ) (cs : List ℕ)
    → not (separator == b'@') ≡ true
    → has_no_at (partition separator cs).0 ≡ true
    → none_or_no_at (partition separator cs).1 ≡ true
    → has_no_at cs ≡ true
unfolding partition
partition-has_no_at separator [] n h k = refl
partition-has_no_at separator (c ∷ cs) n h k = ground (arith, partition-has_no_at separator cs)

labels-has_no_at : (ps : List (List ℕ)) → all is_label ps ≡ true → all has_no_at ps ≡ true
unfolding is_label
labels-has_no_at [] h = refl
labels-has_no_at ([] ∷ ps) h = ground arith
labels-has_no_at ((c ∷ cs) ∷ ps) h =
    ground (arith, labels-has_no_at ps, label_chars-has_no_at (c ∷ cs))

are_labels-no_at : (o : Option (List ℕ)) → are_labels o ≡ true → none_or_no_at o ≡ true
are_labels-no_at none h = refl
are_labels-no_at (some cs) h = split_on-has_no_at cs (labels-has_no_at (split_on b'.' cs) h)

numeral-has_no_at : (cs : List ℕ) → is_numeral cs ≡ true → has_no_at cs ≡ true
unfolding is_numeral
numeral-has_no_at [] h = refl
numeral-has_no_at (c ∷ []) h = ground arith
numeral-has_no_at (c ∷ d ∷ cs) h = ground (arith, digits-has_no_at (d ∷ cs))

core-has_no_at : (ps : List (List ℕ)) → is_core ps ≡ true → all has_no_at ps ≡ true
core-has_no_at (major ∷ minor ∷ patch ∷ []) h =
    ground (arith, numeral-has_no_at major, numeral-has_no_at minor, numeral-has_no_at patch)
core-has_no_at [] h = ground arith
core-has_no_at (a ∷ []) h = ground arith
core-has_no_at (a ∷ b ∷ []) h = ground arith
core-has_no_at (a ∷ b ∷ c ∷ d ∷ ps) h = ground arith

release-has_no_at : (cs : List ℕ) → is_release cs ≡ true → has_no_at cs ≡ true
unfolding is_release
release-has_no_at cs h =
    partition-has_no_at b'-' cs refl
      (split_on-has_no_at (partition b'-' cs).0
        (core-has_no_at (split_on b'.' (partition b'-' cs).0) (ground arith)))
      (are_labels-no_at (partition b'-' cs).1 (ground arith))

-- A version has no '@'.
pub version-has_no_at : (s : String) → is_version s ≡ true → has_no_at (codes s) ≡ true
unfolding is_version
version-has_no_at s h =
    partition-has_no_at b'+' (codes s) refl
      (release-has_no_at (partition b'+' (codes s)).0 (ground arith))
      (are_labels-no_at (partition b'+' (codes s)).1 (ground arith))
