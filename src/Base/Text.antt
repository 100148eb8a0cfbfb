-- ===== src/Base/Text.antt =====
-- Text as code points, with the character classes of the program's regular expressions.
use Prim.Native.Char.{Char, code}
use mathlib.Core.Path.{◌≡◌, refl}
use nehemiah.Base.{
  Option, none, some, string_eq, if◌then◌else◌, ◌++◌, replicate, true, false, ℕ, ◌+◌, ◌-◌, ◌*◌,
  String, Bool, ◌&&◌, ◌||◌, List, [], ◌∷◌, leb, ◌==◌, nat_eq, all, length,
}

abbrev pub codes : String → List ℕ
codes String.[] = []
codes (String.◌∷◌ c s) = code c ∷ codes s

-- \d
abbrev pub is_digit : ℕ → Bool
is_digit c = leb b'0' c && leb c b'9'

-- [0-9a-f]
abbrev pub is_lower_hex : ℕ → Bool
is_lower_hex c = is_digit c || (leb b'a' c && leb c b'f')

-- [A-Za-z0-9]
abbrev pub is_alphanumeric : ℕ → Bool
is_alphanumeric c = is_digit c || (leb b'a' c && leb c b'z') || (leb b'A' c && leb c b'Z')

-- /^[0-9a-f]{64}$/
unfoldable pub is_digest : String → Bool
is_digest text = length (codes text) == 64 && all is_lower_hex (codes text)

-- BigInt of decimal digits, from the left
abbrev pub digits_from : ℕ → List ℕ → ℕ
digits_from acc [] = acc
digits_from acc (c ∷ cs) = digits_from (acc * 10 + (c - b'0')) cs

pub digits_from-append :
    (acc : ℕ) (xs ys : List ℕ) → digits_from acc (xs ++ ys) ≡ digits_from (digits_from acc xs) ys
digits_from-append acc [] ys = refl
digits_from-append acc (x ∷ xs) ys = digits_from-append (acc * 10 + (x - b'0')) xs ys

-- A sequence of character classes, as a regular expression without repetition.
abbrev pub matches_classes : List (ℕ → Bool) → List ℕ → Bool
matches_classes [] [] = true
matches_classes [] (_ ∷ _) = false
matches_classes (_ ∷ _) [] = false
matches_classes (p ∷ ps) (c ∷ cs) = p c && matches_classes ps cs

-- [0-9a-f] under the flag i
abbrev pub is_hex : ℕ → Bool
is_hex c = is_lower_hex c || (leb b'A' c && leb c b'F')

-- [1-5]
abbrev pub is_uuid_version : ℕ → Bool
is_uuid_version c = leb b'1' c && leb c b'5'

-- [89ab] under the flag i
abbrev pub is_uuid_variant : ℕ → Bool
is_uuid_variant c = c == b'8' || c == b'9' || c == b'a' || c == b'b' || c == b'A' || c == b'B'

abbrev pub is_dash : ℕ → Bool
is_dash c = c == b'-'

-- /^[0-9a-f]{8}-[0-9a-f]{4}-[1-5][0-9a-f]{3}-[89ab][0-9a-f]{3}-[0-9a-f]{12}$/i
unfoldable pub is_uuid : String → Bool
is_uuid text =
    matches_classes
      (replicate 8 is_hex
        ++ is_dash ∷ replicate 4 is_hex
        ++ is_dash ∷ is_uuid_version ∷ replicate 3 is_hex
        ++ is_dash ∷ is_uuid_variant ∷ replicate 3 is_hex
        ++ is_dash ∷ replicate 12 is_hex)
      (codes text)

-- A hexadecimal digit in lower case.
abbrev pub lower_hex : Char → Char
lower_hex c =
    if code c == b'A'
    then "a"
    else (if code c == b'B'
        then "b"
        else (if code c == b'C'
            then "c"
            else (if code c == b'D'
                then "d"
                else (if code c == b'E' then "e" else (if code c == b'F' then "f" else c)))))

-- A column of type uuid returns its text in lower case, whatever the case of what was written to it.
unfoldable pub stored_uuid : String → String
stored_uuid String.[] = String.[]
stored_uuid (String.◌∷◌ c s) = String.◌∷◌ (lower_hex c) (stored_uuid s)

-- [A-Za-z0-9._:-]
abbrev pub is_identity_code : ℕ → Bool
is_identity_code c = is_alphanumeric c || c == b'.' || c == b'_' || c == b':' || c == b'-'

-- /^[A-Za-z0-9][A-Za-z0-9._:-]{0,n}$/
abbrev pub is_identity_codes : ℕ → List ℕ → Bool
is_identity_codes n [] = false
is_identity_codes n (c ∷ cs) = is_alphanumeric c && leb (length cs) n && all is_identity_code cs

-- A text in a condition of JavaScript: null and the empty text are false.
abbrev pub truthy : Option String → Option String
truthy none = none
truthy (some s) = if s == "" then none else some s
