-- ===== src/Registry/Ids.antt =====
-- librcom/src/registry.c: the checks on identifiers, topics and names, and `registry_entry_parse`. A text
-- is none where the C has NULL. A JSON object is what `json_object_getstr` returns for each key.
pub mod Shape
use rcom.Base.{
  Bool, Option, none, some, suc, zero, not, false, true, [], ◌||◌, ◌&&◌, ◌∷◌, ◌++◌, set, length,
  is_some, if◌then◌else◌, ◌==◌, ltb, Bytes, ℕ,
}

-- `strchr(set, c) != NULL`, for a character that is not zero
abbrev pub is_in : Bytes → ℕ → Bool
is_in [] c = false
is_in (d ∷ set) c = (c == d) || is_in set c

abbrev pub all_in : Bytes → Bytes → Bool
all_in set [] = true
all_in set (c ∷ s) = is_in set c && all_in set s

-- "abcdefghijklmnopqrstuvwxyz"
abbrev pub letters : Bytes
letters =
    97 ∷ 98 ∷ 99 ∷ 100 ∷ 101 ∷ 102 ∷ 103 ∷ 104 ∷ 105 ∷ 106 ∷ 107 ∷ 108 ∷ 109 ∷ 110 ∷ 111 ∷ 112 ∷ 113
    ∷ 114 ∷ 115 ∷ 116 ∷ 117 ∷ 118 ∷ 119 ∷ 120 ∷ 121 ∷ 122 ∷ []

-- "0123456789abcdef"
abbrev pub hex_digits : Bytes
hex_digits = 48 ∷ 49 ∷ 50 ∷ 51 ∷ 52 ∷ 53 ∷ 54 ∷ 55 ∷ 56 ∷ 57 ∷ 97 ∷ 98 ∷ 99 ∷ 100 ∷ 101 ∷ 102 ∷ []

-- the first character in one set, the others in another
abbrev pub begins_in : Bytes → Bytes → Bytes → Bool
begins_in first set [] = false
begins_in first set (c ∷ s) = is_in first c && all_in set s

unfoldable pub registry_valid_topic : Option Bytes → Bool
registry_valid_topic none = false
registry_valid_topic (some topic) =
    not (ltb (length topic) 2 || ltb 256 (length topic))
    && begins_in letters (letters ++ 46 ∷ 45 ∷ 95 ∷ []) topic

unfoldable pub registry_valid_name : Option Bytes → Bool
registry_valid_name none = false
registry_valid_name (some name) =
    not (ltb (length name) 4 || ltb 256 (length name))
    && begins_in letters (letters ++ 48 ∷ 49 ∷ 50 ∷ 51 ∷ 52 ∷ 53 ∷ 54 ∷ 55 ∷ 56 ∷ 57 ∷ 45 ∷ 95 ∷ [])
        name

-- `for (i = 0; i < n; i++) if (strchr("0123456789abcdef", *p++) == NULL) return 0;`, with what is left
-- of the text at `p`
pub hex_run : ℕ → Bytes → Option Bytes
hex_run zero p = some p
hex_run (suc n) [] = none
hex_run (suc n) (c ∷ p) = let rest = hex_run n p in if is_in hex_digits c then rest else none

-- `if (*p++ != '-') return 0;`
abbrev pub dash : Option Bytes → Option Bytes
dash none = none
dash (some []) = none
dash (some (c ∷ p)) = if c == 45 then some p else none

-- the loop over `j`, of groups of four digits and a dash
pub groups : ℕ → Option Bytes → Option Bytes
groups n none = none
groups zero (some p) = some p
groups (suc n) (some p) = groups n (dash (hex_run 4 p))

abbrev pub then_run : ℕ → Option Bytes → Option Bytes
then_run n none = none
then_run n (some p) = hex_run n p

unfoldable pub registry_valid_id : Option Bytes → Bool
unfolding groups
registry_valid_id none = false
registry_valid_id (some id) =
    (length id == 36) && is_some (then_run 12 (groups 3 (dash (hex_run 8 id))))
