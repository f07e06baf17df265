-- ===== src/Tenancy/Keys.antt =====
-- Scope keys: different valid scopes have different keys.
use Prim.Native.Char.{Char, code}
use text.Mathlib.TextLemmas.{
  append_assoc, append-nil, append_cancel_left, append_cancel_right, nil-append, cons-append,
  head-eq_of_cons-eq, tail-eq_of_cons-eq,
}
use grid_story.Prelude.{
  String, Bool, true, false, not, ◌||◌, List, [], ◌∷◌, ◌==◌, string_eq, ◌≡◌, ◌↔◌, refl, sym, ap,
  ◌∙◌, subst, arith, and_true, ==_refl, length, map, ok, throw_if, >>=-eq-ok, eq_iff,
}
use grid_story.Canonical.{◌<>◌, array, stringify, stringify_items, quote, escape_all, escape}
use grid_story.Context.{ContentScope}
use grid_story.Context.Text.{trim}
use grid_story.Errors.{GridStoryError}
use grid_story.Tenancy.{
  content_scope_fields, content_scope_tuple, is_identifier_part, all_parts, matches_identifier,
  assert_fields, assert_valid_content_scope, json_strings, content_scope_key,
  tenant_scope_violation_error, same_content_scope, assert_same_content_scope,
}

-- A separator that neither text contains parts two equal texts at the same place.
abbrev pub AllAre : (Char → Bool) → String → Type 0
AllAre part String.[] = Unit
AllAre part (String.◌∷◌ c s) = (part c ≡ true) × AllAre part s

pub cut_unique :
    (part : Char → Bool) (separator : Char) (s t rest other : String)
    → part separator ≡ false
    → AllAre part s
    → AllAre part t
    → s <> String.◌∷◌ separator rest ≡ t <> String.◌∷◌ separator other
    → (s ≡ t) × (rest ≡ other)
cut_unique part q String.[] String.[] rest other f a b h =
    (refl, tail-eq_of_cons-eq (sym (nil-append _) ∙ h ∙ nil-append _))
cut_unique part q String.[] (String.◌∷◌ c t) rest other f a b h =
    let e = head-eq_of_cons-eq (sym (nil-append _) ∙ h ∙ cons-append c t _) in
    let g = ap part e ∙ b.0 in cc
cut_unique part q (String.◌∷◌ c s) String.[] rest other f a b h =
    let e = head-eq_of_cons-eq (sym (cons-append c s _) ∙ h ∙ nil-append _) in
    let g = ap part (sym e) ∙ a.0 in cc
cut_unique part q (String.◌∷◌ c s) (String.◌∷◌ d t) rest other f a b h =
    let all = sym (cons-append c s _) ∙ h ∙ cons-append d t _ in
    let e = head-eq_of_cons-eq all in
    let (same, left) = cut_unique part q s t rest other f a.1 b.1 (tail-eq_of_cons-eq all) in
    (ap (λ x. String.◌∷◌ x s) e ∙ ap (String.◌∷◌ d) same, left)

abbrev pub is_part : Char → Bool
is_part c = is_identifier_part (code c)

pub all_parts-AllAre : (s : String) → all_parts s ≡ true → AllAre is_part s
all_parts-AllAre String.[] h = tt
all_parts-AllAre (String.◌∷◌ c s) h =
    let (a, b) = and_true (is_part c) (all_parts s) h in (a, all_parts-AllAre s b)

matches-all_parts : (s : String) → matches_identifier s ≡ true → all_parts s ≡ true
unfolding matches_identifier
matches-all_parts String.[] h = cc
matches-all_parts (String.◌∷◌ c s) h = ground (arith, h)

-- Every text of a list is made of identifier characters.
abbrev pub AllIdentifiers : List String → Type 0
AllIdentifiers [] = Unit
AllIdentifiers (s ∷ rest) = AllAre is_part s × AllIdentifiers rest

escape_part :
    (c : Char)
    → is_part c ≡ true
    → escape (code c) (String.◌∷◌ c String.[]) ≡ String.◌∷◌ c String.[]
unfolding escape
escape_part c h = ground (arith, h)

escape_parts : (s : String) → AllAre is_part s → escape_all s ≡ s
unfolding escape_all
escape_parts String.[] h = refl
escape_parts (String.◌∷◌ c s) h =
    rw (escape_part c h.0, escape_parts s h.1)
      (cons-append c String.[] s ∙ ap (String.◌∷◌ c) (nil-append s))

quoted : (s rest : String) → AllAre is_part s → quote s <> rest ≡ "\"" <> (s <> ("\"" <> rest))
unfolding quote
quoted s rest h =
    rw (escape_parts s h)
      (append_assoc "\"" (s <> "\"") rest ∙ ap (λ t. "\"" <> t) (append_assoc s "\"" rest))

mark : (rest : String) → "\"" <> rest ≡ String.◌∷◌ "\"" rest
mark rest = cons-append "\"" String.[] rest ∙ ap (String.◌∷◌ "\"") (nil-append rest)

first_unique :
    (s t rest other : String)
    → AllAre is_part s
    → AllAre is_part t
    → quote s <> rest ≡ quote t <> other
    → (s ≡ t) × (rest ≡ other)
first_unique s t rest other a b h =
    let sealed = sym (quoted s rest a) ∙ h ∙ quoted t other b in
    let opened = append_cancel_left "\"" _ _ sealed in
    cut_unique is_part "\"" s t rest other refl a b
      (ap (λ u. s <> u) (sym (mark rest)) ∙ opened ∙ ap (λ u. t <> u) (mark other))

items_unique :
    (s t : String) (xs ys : List String)
    → AllIdentifiers (s ∷ xs)
    → AllIdentifiers (t ∷ ys)
    → length xs ≡ length ys
    → stringify_items (json_strings (s ∷ xs)) ≡ stringify_items (json_strings (t ∷ ys))
    → s ∷ xs ≡ t ∷ ys
unfolding stringify_items stringify
items_unique s t [] [] a b l h =
    let (same, left) = first_unique s t "" "" a.0 b.0 (append-nil _ ∙ h ∙ sym (append-nil _)) in
    ap (λ u. u ∷ []) same
items_unique s t (x ∷ xs) (y ∷ ys) a b l h =
    let (same, left) = first_unique s t _ _ a.0 b.0 h in
    let others =
      items_unique x y xs ys a.1 b.1 (ground (arith, l)) (append_cancel_left "," _ _ left) in
    ap (λ u. u ∷ (x ∷ xs)) same ∙ ap (λ zs. t ∷ zs) others
items_unique s t [] (y ∷ ys) a b l h = absurd (ground (arith, l))
items_unique s t (x ∷ xs) [] a b l h = absurd (ground (arith, l))

-- A scope whose six parts are made of identifier characters.
abbrev pub IsProper : ContentScope → Type 0
IsProper scope = AllIdentifiers (content_scope_tuple scope)

abbrev of_tuple : ContentScope → List String → ContentScope
of_tuple other (o ∷ (t ∷ (w ∷ (s ∷ (e ∷ (l ∷ [])))))) = record {
  organization_id = o;
  tenant_id = t;
  workspace_id = w;
  site_id = s;
  environment_id = e;
  locale = l;
}
of_tuple other _ = other

pub content_scope_tuple_unique :
    (a b : ContentScope) → content_scope_tuple a ≡ content_scope_tuple b → a ≡ b
content_scope_tuple_unique a b h = ap (of_tuple a) h

passes :
    (value : String) (u : Unit {0}) (e : GridStoryError)
    → throw_if (not (value == trim value) || not (matches_identifier value)) e ≡ ok u
    → matches_identifier value ≡ true
passes value u e h = ground (arith, h)

assert_fields-AllAre :
    (fields : List (String × String))
    → assert_fields fields ≡ ok tt
    → AllIdentifiers (map (λ f. f.1) fields)
unfolding assert_fields
assert_fields-AllAre [] h = tt
assert_fields-AllAre ((field, value) ∷ fields) h =
    let (u, first, rest) =
      >>=-eq-ok (throw_if (not (value == trim value) || not (matches_identifier value)) _) _ h in
    (
      all_parts-AllAre value (matches-all_parts value (passes _ _ _ first)),
      assert_fields-AllAre fields rest,
    )

pub valid-IsProper :
    (scope : ContentScope) {valid : ContentScope}
    → assert_valid_content_scope scope ≡ ok valid
    → (scope ≡ valid) × IsProper scope
unfolding assert_valid_content_scope
valid-IsProper scope h =
    let (u, checked, done) = >>=-eq-ok (assert_fields (content_scope_fields scope)) _ h in
    (cc done, assert_fields-AllAre (content_scope_fields scope) checked)

abbrev key_text : ContentScope → String
key_text scope = stringify (array (json_strings (content_scope_tuple scope)))

key_text_unique : (a b : ContentScope) → IsProper a → IsProper b → key_text a ≡ key_text b → a ≡ b
unfolding stringify
key_text_unique a b proper other h = content_scope_tuple_unique a b (
    items_unique a.organization_id b.organization_id _ _ proper other refl
      (append_cancel_right _ _ "]" (append_cancel_left "[" _ _ h)))

keyed_scope :
    (scope : ContentScope) (key : String)
    → content_scope_key scope ≡ ok key
    → IsProper scope × (key_text scope ≡ key)
unfolding content_scope_key
keyed_scope scope key h =
    let (valid, checked, done) = >>=-eq-ok (assert_valid_content_scope scope) _ h in
    let (same, proper) = valid-IsProper scope checked in (proper, ap key_text same ∙ cc done)

-- Two scopes that have the same key are the same scope.
pub content_scope_key-injective :
    (a b : ContentScope) (key : String)
    → content_scope_key a ≡ ok key
    → content_scope_key b ≡ ok key
    → a ≡ b
content_scope_key-injective a b key h k =
    let (proper_a, text_a) = keyed_scope a key h in
    let (proper_b, text_b) = keyed_scope b key k in
    key_text_unique a b proper_a proper_b (text_a ∙ sym text_b)

negated :
    (b : Bool) {u : Unit {0}} → throw_if (not b) tenant_scope_violation_error ≡ ok u → b ≡ true
negated b h = ground (arith, h)

same_content_scope_iff : (a b : ContentScope) → (same_content_scope a b ≡ true) ↔ (a ≡ b)
unfolding same_content_scope
same_content_scope_iff a b = (to, from)
  where
    to : same_content_scope a b ≡ true → a ≡ b
    to h =
        let (o, h1) = and_true (a.organization_id == b.organization_id) _ h in
        let (t, h2) = and_true (a.tenant_id == b.tenant_id) _ h1 in
        let (w, h3) = and_true (a.workspace_id == b.workspace_id) _ h2 in
        let (s, h4) = and_true (a.site_id == b.site_id) _ h3 in
        let (e, l) = and_true (a.environment_id == b.environment_id) _ h4 in
        content_scope_tuple_unique a b (
          cc (
            (eq_iff a.organization_id b.organization_id).0 o,
            (eq_iff a.tenant_id b.tenant_id).0 t,
            (eq_iff a.workspace_id b.workspace_id).0 w,
            (eq_iff a.site_id b.site_id).0 s,
            (eq_iff a.environment_id b.environment_id).0 e,
            (eq_iff a.locale b.locale).0 l,
          ))

    from : a ≡ b → same_content_scope a b ≡ true
    from h =
        subst (λ c. same_content_scope a c ≡ true) h
          (rw
            (
              ==_refl a.organization_id,
              ==_refl a.tenant_id,
              ==_refl a.workspace_id,
              ==_refl a.site_id,
              ==_refl a.environment_id,
              ==_refl a.locale,
            )
            refl)

-- A boundary check passes exactly for a valid scope that is the expected one.
pub assert_same_content_scope_iff :
    (expected actual : ContentScope)
    → (assert_same_content_scope expected actual ≡ ok tt)
      ↔ ((expected ≡ actual) × (assert_valid_content_scope expected ≡ ok expected))
unfolding assert_same_content_scope
assert_same_content_scope_iff expected actual = (to, from)
  where
    to :
        assert_same_content_scope expected actual ≡ ok tt
        → (expected ≡ actual) × (assert_valid_content_scope expected ≡ ok expected)
    to h =
        let (valid, first, h1) = >>=-eq-ok (assert_valid_content_scope expected) _ h in
        let (valid_too, second, h2) = >>=-eq-ok (assert_valid_content_scope actual) _ h1 in
        let (same, proper) = valid-IsProper expected first in
        ((same_content_scope_iff expected actual).0 (negated _ h2), first ∙ ap ok (sym same))

    from :
        (expected ≡ actual) × (assert_valid_content_scope expected ≡ ok expected)
        → assert_same_content_scope expected actual ≡ ok tt
    from (e, valid) =
        subst (λ other. assert_same_content_scope expected other ≡ ok tt) e
          (rw (valid, (same_content_scope_iff expected expected).1 refl) refl)
