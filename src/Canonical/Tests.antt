-- ===== src/Canonical/Tests.antt =====
-- Canonical texts of small values.
use grid_story.Prelude.{String, Bool, ◌≡◌, refl, some}
use text.Mathlib.Text.{is_lt}
use Prim.Native.String.{compare}
use grid_story.Canonical.{
  undefined, number, string, array, object, nil, cons, end, entry, canonical_stringify,
  insert_entry, keep_entry,
}

abbrev by_codes : String → String → Bool
by_codes a b = is_lt (compare a b)

sorted_keys :
    canonical_stringify by_codes (
      object (
        entry "b"
          (number "2")
          (entry "x" undefined (entry "a" (array (cons (string "q\"") nil)) end))))
    ≡ some "{\"a\":[\"q\\\"\"],\"b\":2}"
unfolding canonical_stringify insert_entry keep_entry
sorted_keys = refl
