-- ===== src/Common/Text.antt =====
-- Strings as the lists of their code points, with the operations of `str` that the sources use.
use Prim.Native.Char.{code}
use Prim.Native.String.{String}
use Prim.Native.Nat.{ℕ, zero, suc, ◌+◌, ◌-◌, ◌*◌}
use mathlib.Core.Bool.{Bool, true, false, not, ◌&&◌, ◌||◌}
use mathlib.Core.Option.{Option, none, some}
use mathlib.Core.List.{List, [], ◌∷◌, ◌++◌}
use live_cdn.Common.Tests.{ltb, leb, ◌==◌, if◌then◌else◌}
use live_cdn.Common.Lists.{length, keep}

-- A literal.
abbrev pub codes : String → List ℕ
codes String.[] = []
codes (String.◌∷◌ c s) = code c ∷ codes s

abbrev pub is_nil {ℓ} : {A : Type ℓ} → List A → Bool
is_nil [] = true
is_nil (x ∷ xs) = false

-- Equality of strings.
abbrev pub same : List ℕ → List ℕ → Bool
same [] [] = true
same [] (y ∷ ys) = false
same (x ∷ xs) [] = false
same (x ∷ xs) (y ∷ ys) = let rest = same xs ys in (x == y) && rest

abbrev pub contains : List (List ℕ) → List ℕ → Bool
contains [] id = false
contains (x ∷ xs) id = let rest = contains xs id in same x id || rest

-- `strip_prefix`, `starts_with`, `ends_with` and `contains` of a string pattern.
abbrev pub strip_prefix : List ℕ → List ℕ → Option (List ℕ)
strip_prefix s [] = some s
strip_prefix [] (p ∷ ps) = none
strip_prefix (c ∷ s) (p ∷ ps) = let rest = strip_prefix s ps in if c == p then rest else none

abbrev pub is_some {ℓ} : {A : Type ℓ} → Option A → Bool
is_some none = false
is_some (some a) = true

abbrev pub starts_with : List ℕ → List ℕ → Bool
starts_with s p = is_some (strip_prefix s p)

abbrev pub strip_suffix : List ℕ → List ℕ → Option (List ℕ)
strip_suffix [] p = if is_nil p then some [] else none
strip_suffix (c ∷ s) p =
    let rest = strip_suffix s p in
    if same (c ∷ s) p then some [] else elim rest [ none ↦ none | some r ↦ some (c ∷ r) ]

abbrev pub ends_with : List ℕ → List ℕ → Bool
ends_with s p = is_some (strip_suffix s p)

abbrev pub has_text : List ℕ → List ℕ → Bool
has_text [] p = is_nil p
has_text (c ∷ s) p = let rest = has_text s p in starts_with (c ∷ s) p || rest

-- `trim_start_matches` and `trim_end_matches` of a test.
abbrev pub drop_while : (ℕ → Bool) → List ℕ → List ℕ
drop_while p [] = []
drop_while p (c ∷ s) = let rest = drop_while p s in if p c then rest else c ∷ s

abbrev pub drop_end : (ℕ → Bool) → List ℕ → List ℕ
drop_end p [] = []
drop_end p (c ∷ s) = let rest = drop_end p s in if is_nil rest && p c then [] else c ∷ rest

-- Unicode's White_Space.
unfoldable pub is_space : ℕ → Bool
is_space c =
    (leb 9 c && leb c 13)
    || (c == 32
        || (c == 0x85
            || (c == 0xa0
                || (c == 0x1680
                    || (leb 0x2000 c && leb c 0x200a
                        || (c == 0x2028
                            || (c == 0x2029 || (c == 0x202f || (c == 0x205f || c == 0x3000)))))))))

abbrev pub trim : List ℕ → List ℕ
trim s = drop_end is_space (drop_while is_space s)

-- `trim_start_matches` and `trim_end_matches` of a string pattern that is not empty: it is taken off
-- as often as it is there. As many rounds as there are characters are enough.
unfoldable pub strip_starts : ℕ → List ℕ → List ℕ → List ℕ
strip_starts zero s p = s
strip_starts (suc n) s p = elim (strip_prefix s p) [ none ↦ s | some r ↦ strip_starts n r p ]

unfoldable pub strip_ends : ℕ → List ℕ → List ℕ → List ℕ
strip_ends zero s p = s
strip_ends (suc n) s p = elim (strip_suffix s p) [ none ↦ s | some r ↦ strip_ends n r p ]

abbrev pub trim_start_matches : List ℕ → List ℕ → List ℕ
trim_start_matches s p = strip_starts (length s) s p

abbrev pub trim_end_matches : List ℕ → List ℕ → List ℕ
trim_end_matches s p = strip_ends (length s) s p

-- The parts between the characters that pass the test.
abbrev pub onto_first : ℕ → List (List ℕ) → List (List ℕ)
onto_first c [] = (c ∷ []) ∷ []
onto_first c (p ∷ ps) = (c ∷ p) ∷ ps

unfoldable pub split_by : (ℕ → Bool) → List ℕ → List (List ℕ)
split_by p [] = [] ∷ []
split_by p (c ∷ s) = let rest = split_by p s in if p c then [] ∷ rest else onto_first c rest

abbrev pub split_whitespace : List ℕ → List (List ℕ)
split_whitespace s = keep (λ p. not (is_nil p)) (split_by is_space s)

-- The parts that a line break ends, with the carriage return in front of it taken off, and what
-- follows the last one.
abbrev drop_cr : List ℕ → List ℕ
drop_cr s = elim (strip_suffix s (13 ∷ [])) [ none ↦ s | some r ↦ r ]

abbrev pub line_list : List (List ℕ) → List (List ℕ)
line_list [] = []
line_list (p ∷ []) = if is_nil p then [] else p ∷ []
line_list (p ∷ q ∷ ps) = drop_cr p ∷ line_list (q ∷ ps)

abbrev pub lines : List ℕ → List (List ℕ)
lines s = line_list (split_by (λ c. c == 10) s)

-- `replace`: the occurrences of a pattern that is not empty, from the left.
unfoldable pub replace_in : ℕ → List ℕ → List ℕ → List ℕ → List ℕ
replace_in zero s p v = s
replace_in (suc n) [] p v = []
replace_in (suc n) (c ∷ s) p v = elim (strip_prefix (c ∷ s) p) [
  | none ↦ c ∷ replace_in n s p v
  | some r ↦ v ++ replace_in n r p v
]

abbrev pub replace : List ℕ → List ℕ → List ℕ → List ℕ
replace s p v = replace_in (length s) s p v

-- What stands in front of the last occurrence of a character, if there is one.
abbrev pub before_last : ℕ → List ℕ → Option (List ℕ)
before_last x [] = none
before_last x (c ∷ s) =
    let rest = before_last x s in
    elim rest [ some r ↦ some (c ∷ r) | none ↦ if c == x then some [] else none ]

-- `parse::<u64>`: digits with an optional plus sign in front.
abbrev digit_value : ℕ → Option ℕ
digit_value c = if leb 48 c && leb c 57 then some (c - 48) else none

abbrev read_digits : ℕ → ℕ → List ℕ → Option ℕ
read_digits limit n [] = some n
read_digits limit n (c ∷ s) = elim (digit_value c) [
  | none ↦ none
  | some d ↦ if ltb (n * 10 + d) limit then read_digits limit (n * 10 + d) s else none
]

unfoldable pub parse_below : ℕ → List ℕ → Option ℕ
parse_below limit [] = none
parse_below limit (c ∷ s) =
    let rest = read_digits limit 0 s in
    if c == 43 then (if is_nil s then none else rest) else read_digits limit 0 (c ∷ s)

-- The bytes of a code point in UTF-8.
abbrev pub utf8_len : ℕ → ℕ
utf8_len c = if ltb c 128 then 1 else if ltb c 2048 then 2 else if ltb c 65536 then 3 else 4

-- Whether the slice of the first `n` bytes, or of all where there are fewer, ends within a character:
-- `&s[..n.min(s.len())]` panics.
abbrev pub cuts_char : ℕ → List ℕ → Bool
cuts_char n [] = false
cuts_char n (c ∷ s) =
    let rest = cuts_char (n - utf8_len c) s in
    if n == 0 then false else if ltb n (utf8_len c) then true else rest
