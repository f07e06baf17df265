-- ===== src/Context/Text.antt =====
-- Operations on texts that the source takes from its language: `trim`, `length`, truthiness.
use Prim.Native.Char.{code}
use Prim.Native.String
use grid_story.Prelude.{
  ℕ, zero, suc, ◌+◌, ◌/◌, ◌%◌, ltb, or_else, get_elem?, ◌≡◌, refl, String, Bool, true, false, ◌&&◌,
  ◌||◌, not, Option, none, some, List, [], ◌∷◌, leb, nat_beq, if◌then◌else◌, string_eq,
}

-- White space and line ends of ECMAScript.
abbrev pub is_space : ℕ → Bool
is_space c =
    (leb 9 c && leb c 13)
    || (nat_beq c 0x20
        || (nat_beq c 0xa0
            || (nat_beq c 0x1680
                || ((leb 0x2000 c && leb c 0x200a)
                    || (nat_beq c 0x2028
                        || (nat_beq c 0x2029
                            || (nat_beq c 0x202f
                                || (nat_beq c 0x205f
                                    || (nat_beq c 0x3000 || nat_beq c 0xfeff)))))))))

abbrev pub is_empty : String → Bool
is_empty String.[] = true
is_empty (String.◌∷◌ c s) = false

abbrev pub trim_start : String → String
trim_start String.[] = String.[]
trim_start (String.◌∷◌ c s) = if is_space (code c) then trim_start s else String.◌∷◌ c s

abbrev pub trim_end : String → String
trim_end String.[] = String.[]
trim_end (String.◌∷◌ c s) =
    let rest = trim_end s in
    if is_empty rest && is_space (code c) then String.[] else String.◌∷◌ c rest

-- `text.trim()`.
unfoldable pub trim : String → String
trim s = trim_end (trim_start s)

-- `text.length`: UTF-16 code units, two for a character above the basic plane.
unfoldable pub utf16_length : String → ℕ
utf16_length String.[] = 0
utf16_length (String.◌∷◌ c s) = (if leb 0x10000 (code c) then 2 else 1) + utf16_length s

-- An optional text that is absent or empty is falsy.
abbrev pub truthy : Option String → Bool
truthy none = false
truthy (some s) = not (is_empty s)

abbrev pub codes : String → List ℕ
codes String.[] = []
codes (String.◌∷◌ c s) = code c ∷ codes s

abbrev digit : ℕ → String
digit n = or_else (get_elem? ("0" ∷ "1" ∷ "2" ∷ "3" ∷ "4" ∷ "5" ∷ "6" ∷ "7" ∷ "8" ∷ "9" ∷ []) n) ""

-- The decimal digits of a number before `rest`; as many rounds as the number are enough.
decimal_from : ℕ → ℕ → String → String
decimal_from zero n rest = rest
decimal_from (suc fuel) n rest =
    let more = decimal_from fuel (n / 10) (String.◌++◌ (digit (n % 10)) rest) in
    if ltb n 10 then String.◌++◌ (digit n) rest else more

-- `String(number)`, of a natural number.
unfoldable pub decimal : ℕ → String
unfolding decimal_from
decimal n = decimal_from (suc n) n ""

decimal_test : decimal 1024 ≡ "1024"
unfolding decimal
decimal_test = refl
