-- ===== src/Canonical.antt =====
-- packages/schema/src/canonical.ts: values and their canonical text. `precedes left right` is
-- `left.localeCompare(right) < 0`, which the host's collation decides. A number is kept as the text
-- that stands for it; keys that read as array indices are ordered as the others.
mod Tests
use Prim.Native.String
use Prim.Native.Char.{code}
use grid_story.Prelude.{
  ℕ, ◌/◌, ◌%◌, String, Bool, true, false, Option, none, some, ltb, nat_beq, if◌then◌else◌, or_else,
  get_elem?, List, [], ◌∷◌,
}

mutual
  pub data Json : Type 0 where
    undefined : Json
    null : Json
    boolean : Bool → Json
    number : String → Json
    string : String → Json
    array : Items → Json
    object : Entries → Json

  pub data Items : Type 0 where
    nil : Items
    cons : Json → Items → Items

  pub data Entries : Type 0 where
    end : Entries
    entry : String → Json → Entries → Entries

infixr 65 ◌<>◌
abbrev pub ◌<>◌ : String → String → String
a <> b = String.◌++◌ a b

module _ (precedes : String → String → Bool) where
  -- The place of an entry in a sorted object.
  unfoldable pub insert_entry : String → Json → Entries → Entries
  insert_entry key child end = entry key child end
  insert_entry key child (entry k c rest) =
      if precedes k key
      then entry k c (insert_entry key child rest)
      else entry key child (entry k c rest)

  -- `filter(([, child]) => child !== undefined)`, on one entry of a sorted object.
  unfoldable pub keep_entry : String → Json → Entries → Entries
  keep_entry key undefined rest = rest
  keep_entry key child rest = insert_entry key child rest

unfoldable mutual
  pub canonical_value : (String → String → Bool) → Json → Json
  canonical_value p undefined = undefined
  canonical_value p null = null
  canonical_value p (boolean b) = boolean b
  canonical_value p (number n) = number n
  canonical_value p (string s) = string s
  canonical_value p (array xs) = array (canonical_items p xs)
  canonical_value p (object es) = object (canonical_entries p es)

  canonical_items : (String → String → Bool) → Items → Items
  canonical_items p nil = nil
  canonical_items p (cons x xs) = cons (canonical_value p x) (canonical_items p xs)

  canonical_entries : (String → String → Bool) → Entries → Entries
  canonical_entries p end = end
  canonical_entries p (entry k c rest) =
      keep_entry p k (canonical_value p c) (canonical_entries p rest)

hex_digits : List String
hex_digits =
    "0" ∷ "1" ∷ "2" ∷ "3" ∷ "4" ∷ "5" ∷ "6" ∷ "7" ∷ "8" ∷ "9" ∷ "a" ∷ "b" ∷ "c" ∷ "d" ∷ "e" ∷ "f"
    ∷ []

hex_digit : ℕ → String
unfolding hex_digits
hex_digit n = or_else (get_elem? hex_digits n) ""

-- One character inside the quotes of `JSON.stringify`; `c` is the character itself.
unfoldable pub escape : ℕ → String → String
unfolding hex_digit
escape n c =
    if nat_beq n 0x22
    then "\\\""
    else if nat_beq n 0x5c
    then "\\\\"
    else if nat_beq n 8
    then "\\b"
    else if nat_beq n 9
    then "\\t"
    else if nat_beq n 10
    then "\\n"
    else if nat_beq n 12
    then "\\f"
    else if nat_beq n 13
    then "\\r"
    else if ltb n 0x20
    then "\\u00" <> hex_digit (n / 16) <> hex_digit (n % 16)
    else c

unfoldable pub escape_all : String → String
unfolding escape
escape_all String.[] = ""
escape_all (String.◌∷◌ c s) = escape (code c) (String.◌∷◌ c String.[]) <> escape_all s

unfoldable pub quote : String → String
unfolding escape_all
quote s = "\"" <> (escape_all s <> "\"")

-- `JSON.stringify`, on a value that is not `undefined`; inside an array that prints as `null`.
unfoldable mutual
  unfolding quote

  pub stringify : Json → String
  stringify undefined = "null"
  stringify null = "null"
  stringify (boolean true) = "true"
  stringify (boolean false) = "false"
  stringify (number n) = n
  stringify (string s) = quote s
  stringify (array xs) = "[" <> (stringify_items xs <> "]")
  stringify (object es) = "{" <> (stringify_entries es <> "}")

  pub stringify_items : Items → String
  stringify_items nil = ""
  stringify_items (cons x nil) = stringify x
  stringify_items (cons x (cons y ys)) = stringify x <> ("," <> stringify_items (cons y ys))

  stringify_entries : Entries → String
  stringify_entries end = ""
  stringify_entries (entry k c end) = quote k <> (":" <> stringify c)
  stringify_entries (entry k c (entry l d es)) =
      quote k <> (":" <> (stringify c <> ("," <> stringify_entries (entry l d es))))

-- `canonicalStringify`: `undefined` has no text.
unfoldable pub canonical_stringify : (String → String → Bool) → Json → Option String
unfolding canonical_value stringify
canonical_stringify precedes undefined = none
canonical_stringify precedes value = some (stringify (canonical_value precedes value))
