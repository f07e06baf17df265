-- ===== src/Tenancy.antt =====
-- packages/core/src/tenant-scope.ts: the keys, paths and cache tags that keep scopes apart.
pub mod Keys
pub mod Components
pub mod Tags
mod Tests
use Prim.Native.Char.{code}
use Prim.Native.String
use text.Mathlib.Text.{starts_with}
use grid_story.Prelude.{
  ℕ, ◌+◌, ◌/◌, ◌%◌, String, Bool, true, false, not, ◌&&◌, ◌||◌, Option, none, some, List, [], ◌∷◌,
  map, keep, all, or_else, get_elem?, contains, leb, ltb, nat_beq, if◌then◌else◌, ◌==◌, string_eq,
  ok, err, ◌>>=◌, ◌>>◌, throw_if,
}
use grid_story.Errors.{GridStoryError, Outcome, grid_story_error}
use grid_story.Canonical.{◌<>◌, Json, string, array, Items, nil, cons, stringify}
use grid_story.Context.{ContentScope}
use grid_story.Context.Text.{trim, utf16_length, is_empty}

abbrev pub invalid_content_scope_error : String → GridStoryError
invalid_content_scope_error field =
    grid_story_error ("Content scope field " <> (field <> " is invalid.")) "invalid_scope" 400

abbrev pub tenant_scope_violation_error : GridStoryError
tenant_scope_violation_error =
    grid_story_error "A tenant scope boundary returned inconsistent data." "tenant_scope_violation"
      500

-- `contentScopeFields`, each with its value.
abbrev pub content_scope_fields : ContentScope → List (String × String)
content_scope_fields scope =
    ("organizationId", scope.organization_id)
    ∷ (("tenantId", scope.tenant_id)
        ∷ (("workspaceId", scope.workspace_id)
            ∷ (("siteId", scope.site_id)
                ∷ (("environmentId", scope.environment_id) ∷ (("locale", scope.locale) ∷ [])))))

abbrev pub content_scope_tuple : ContentScope → List String
content_scope_tuple scope =
    scope.organization_id
    ∷ (scope.tenant_id
        ∷ (scope.workspace_id ∷ (scope.site_id ∷ (scope.environment_id ∷ (scope.locale ∷ [])))))

abbrev pub is_letter_or_digit : ℕ → Bool
is_letter_or_digit c =
    (leb b'a' c && leb c b'z') || ((leb b'A' c && leb c b'Z') || (leb b'0' c && leb c b'9'))

abbrev pub is_identifier_part : ℕ → Bool
is_identifier_part c =
    is_letter_or_digit c
    || (nat_beq c b'.' || (nat_beq c b'_' || (nat_beq c b':' || nat_beq c b'-')))

abbrev pub all_parts : String → Bool
all_parts String.[] = true
all_parts (String.◌∷◌ c s) = is_identifier_part (code c) && all_parts s

-- `identifierPattern.test(value)`.
unfoldable pub matches_identifier : String → Bool
matches_identifier String.[] = false
matches_identifier (String.◌∷◌ c s) =
    is_letter_or_digit (code c) && (all_parts s && leb (utf16_length s) 127)

-- The loop of `assertValidContentScope`.
unfoldable pub assert_fields : List (String × String) → Outcome (Unit {0})
assert_fields [] = ok tt
assert_fields ((field, value) ∷ fields) =
    throw_if (not (value == trim value) || not (matches_identifier value))
      (invalid_content_scope_error field)
    >> assert_fields fields

unfoldable pub assert_valid_content_scope : ContentScope → Outcome ContentScope
assert_valid_content_scope scope = assert_fields (content_scope_fields scope) >> ok scope

abbrev pub json_strings : List String → Items
json_strings [] = nil
json_strings (s ∷ rest) = cons (string s) (json_strings rest)

unfoldable pub content_scope_key : ContentScope → Outcome String
content_scope_key scope = assert_valid_content_scope scope >>= λ valid.
    ok (stringify (array (json_strings (content_scope_tuple valid))))

-- `encodeURIComponent` on one character: its UTF-8 bytes, unless it is unreserved.
unfoldable pub hex_digits : List String
hex_digits =
    "0" ∷ "1" ∷ "2" ∷ "3" ∷ "4" ∷ "5" ∷ "6" ∷ "7" ∷ "8" ∷ "9" ∷ "A" ∷ "B" ∷ "C" ∷ "D" ∷ "E" ∷ "F"
    ∷ []

unfoldable pub percent : ℕ → String
unfolding hex_digits
percent byte =
    "%"
    <> (or_else (get_elem? hex_digits (byte / 16)) ""
        <> or_else (get_elem? hex_digits (byte % 16)) "")

unfoldable pub percent_bytes : ℕ → String
unfolding percent
percent_bytes n =
    if ltb n 0x80
    then percent n
    else if ltb n 0x800
    then percent (0xc0 + n / 64) <> percent (0x80 + n % 64)
    else if ltb n 0x10000
    then percent (0xe0 + n / 4096) <> (percent (0x80 + (n / 64) % 64) <> percent (0x80 + n % 64))
    else percent (0xf0 + n / 262144)
      <> (percent (0x80 + (n / 4096) % 64)
          <> (percent (0x80 + (n / 64) % 64) <> percent (0x80 + n % 64)))

abbrev pub is_unreserved : ℕ → Bool
is_unreserved c =
    is_letter_or_digit c
    || (nat_beq c b'-'
        || (nat_beq c b'_'
            || (nat_beq c b'.'
                || (nat_beq c b'!'
                    || (nat_beq c b'~'
                        || (nat_beq c b'*'
                            || (nat_beq c 0x27 || (nat_beq c b'(' || nat_beq c b')'))))))))

unfoldable pub encode_uri_component : String → String
unfolding percent_bytes
encode_uri_component String.[] = ""
encode_uri_component (String.◌∷◌ c s) =
    (if is_unreserved (code c) then String.◌∷◌ c String.[] else percent_bytes (code c))
    <> encode_uri_component s

-- `text.replace(/:/g, '%3A')`.
unfoldable pub replace_colons : String → String
replace_colons String.[] = ""
replace_colons (String.◌∷◌ c s) =
    (if nat_beq (code c) b':' then "%3A" else String.◌∷◌ c String.[]) <> replace_colons s

unfoldable pub cache_component : String → String
cache_component value = replace_colons (encode_uri_component value)

-- `values.join(separator)`.
abbrev pub join : String → List String → String
join separator [] = ""
join separator (s ∷ []) = s
join separator (s ∷ (t ∷ rest)) = s <> (separator <> join separator (t ∷ rest))

pub content_scope_path : ContentScope → Outcome String
content_scope_path scope = assert_valid_content_scope scope >>= λ valid.
    ok (join "/" (map encode_uri_component (content_scope_tuple valid)))

pub same_content_scope : ContentScope → ContentScope → Bool
same_content_scope left right =
    (left.organization_id == right.organization_id)
    && ((left.tenant_id == right.tenant_id)
        && ((left.workspace_id == right.workspace_id)
            && ((left.site_id == right.site_id)
                && ((left.environment_id == right.environment_id)
                    && (left.locale == right.locale)))))

pub assert_same_content_scope : ContentScope → ContentScope → Outcome (Unit {0})
assert_same_content_scope expected actual = assert_valid_content_scope expected >>= λ valid.
    assert_valid_content_scope actual >>= λ valid_too.
    throw_if (not (same_content_scope expected actual)) tenant_scope_violation_error

abbrev pub prefix_of : ContentScope → String
prefix_of scope = "gridstory:scope:" <> join ":" (map cache_component (content_scope_tuple scope))

unfoldable pub content_scope_cache_prefix : ContentScope → Outcome String
content_scope_cache_prefix scope =
    assert_valid_content_scope scope >>= λ valid. ok (prefix_of valid)

abbrev pub tags_of : String → String → String → String → List String
tags_of prefix content_type entry_id revision_id =
    (prefix <> ":tenant")
    ∷ ((prefix <> ":site")
        ∷ ((prefix <> ":environment")
            ∷ ((prefix <> ":locale")
                ∷ ((prefix <> (":type:" <> cache_component content_type))
                    ∷ ((prefix <> (":entry:" <> cache_component entry_id))
                        ∷ ((prefix <> (":revision:" <> cache_component revision_id)) ∷ []))))))

unfoldable pub content_event_cache_tags :
    ContentScope → String → String → String → Outcome (List String)
content_event_cache_tags scope content_type entry_id revision_id =
    content_scope_cache_prefix scope >>= λ prefix.
    ok (tags_of prefix content_type entry_id revision_id)

pub cache_tag_belongs_to_scope : ContentScope → String → Outcome Bool
cache_tag_belongs_to_scope scope tag =
    content_scope_cache_prefix scope >>= λ prefix. ok (starts_with tag (prefix <> ":"))
