-- ===== src/Tenancy/Tags.antt =====
-- Cache tags: the tags of one valid scope belong to no other.

use text.Mathlib.TextLemmas.{append_assoc, append_cancel_left, nil-append, cons-append}
use text.Mathlib.TextEquality.{starts_with_iff}
use text.Mathlib.Text.{starts_with}
use grid_story.Prelude.{
  String, true, List, [], ◌∷◌, ◌≡◌, ◌↔◌, inl, inr, refl, sym, ap, ◌∙◌, subst, arith, map, length,
  ok, >>=-eq-ok, Member, Member-cons, not-Member-nil,
}
use grid_story.Canonical.{◌<>◌}
use grid_story.Context.{ContentScope}
use grid_story.Tenancy.{
  content_scope_tuple, cache_component, join, prefix_of, content_scope_cache_prefix,
  cache_tag_belongs_to_scope, content_event_cache_tags, tags_of, assert_valid_content_scope,
}
use grid_story.Tenancy.Components.{keeps, cache_component_unique, cache_component-AllAre}
use grid_story.Tenancy.Keys.{
  cut_unique, AllIdentifiers, IsProper, content_scope_tuple_unique, valid-IsProper,
}

colon : (rest : String) → ":" <> rest ≡ String.◌∷◌ ":" rest
colon rest = cons-append ":" String.[] rest ∙ ap (String.◌∷◌ ":") (nil-append rest)

components_unique :
    (xs ys : List String)
    → AllIdentifiers xs
    → AllIdentifiers ys
    → map cache_component xs ≡ map cache_component ys
    → xs ≡ ys
components_unique [] [] a b h = refl
components_unique (x ∷ xs) (y ∷ ys) a b h =
    let same : cache_component x ≡ cache_component y = cc h in
    let rest : map cache_component xs ≡ map cache_component ys = cc h in
    cc (cache_component_unique x y a.0 b.0 same, components_unique xs ys a.1 b.1 rest)
components_unique [] (y ∷ ys) a b h = cc
components_unique (x ∷ xs) [] a b h = cc

join_unique :
    (s t : String) (xs ys : List String) (u v : String)
    → length xs ≡ length ys
    → join ":" (map cache_component (s ∷ xs)) <> (":" <> u)
      ≡ join ":" (map cache_component (t ∷ ys)) <> (":" <> v)
    → map cache_component (s ∷ xs) ≡ map cache_component (t ∷ ys)
join_unique s t [] [] u v l h =
    let (same, left) =
      cut_unique keeps ":" (cache_component s) (cache_component t) u v refl
        (cache_component-AllAre s) (cache_component-AllAre t)
        (ap (λ r. cache_component s <> r) (sym (colon u))
          ∙ h
          ∙ ap (λ r. cache_component t <> r) (colon v)) in
    ap (λ r. r ∷ []) same
join_unique s t (x ∷ xs) (y ∷ ys) u v l h =
    let (same, left) =
      cut_unique keeps ":" (cache_component s) (cache_component t) _ _ refl
        (cache_component-AllAre s) (cache_component-AllAre t)
        (sym (opened s (join ":" (map cache_component (x ∷ xs))) (":" <> u))
          ∙ h
          ∙ opened t (join ":" (map cache_component (y ∷ ys))) (":" <> v)) in
    let others = join_unique x y xs ys u v (ground (arith, l)) left in
    ap (λ r. r ∷ map cache_component (x ∷ xs)) same ∙ ap (λ rs. cache_component t ∷ rs) others
  where
    opened :
        (r tail rest : String)
        → (cache_component r <> (":" <> tail)) <> rest
          ≡ cache_component r <> String.◌∷◌ ":" (tail <> rest)
    opened r tail rest =
        append_assoc (cache_component r) (":" <> tail) rest
        ∙ ap (λ w. cache_component r <> w) (append_assoc ":" tail rest ∙ colon (tail <> rest))
join_unique s t [] (y ∷ ys) u v l h = absurd (ground (arith, l))
join_unique s t (x ∷ xs) [] u v l h = absurd (ground (arith, l))

-- The parts of a scope below its organization.
abbrev inner : ContentScope → List String
inner scope =
    scope.tenant_id
    ∷ (scope.workspace_id ∷ (scope.site_id ∷ (scope.environment_id ∷ (scope.locale ∷ []))))

prefix_unique :
    (a b : ContentScope) (u v : String)
    → IsProper a
    → IsProper b
    → prefix_of a <> (":" <> u) ≡ prefix_of b <> (":" <> v)
    → a ≡ b
prefix_unique a b u v p q h =
    let joined = append_cancel_left "gridstory:scope:" _ _ (
      sym (append_assoc "gridstory:scope:" _ (":" <> u))
      ∙ h
      ∙ append_assoc "gridstory:scope:" _ (":" <> v)) in
    content_scope_tuple_unique a b (
      components_unique (content_scope_tuple a) (content_scope_tuple b) p q
        (join_unique a.organization_id b.organization_id (inner a) (inner b) u v refl joined))

-- A tag of a scope: its prefix, a colon, and more.
IsTagOf : ContentScope → String → Type 0
IsTagOf scope tag = (rest : String) × (tag ≡ prefix_of scope <> (":" <> rest))

belongs :
    (a b : ContentScope) (tag : String)
    → assert_valid_content_scope a ≡ ok a
    → IsProper b
    → IsTagOf b tag
    → (cache_tag_belongs_to_scope a tag ≡ ok true) ↔ (a ≡ b)
unfolding cache_tag_belongs_to_scope content_scope_cache_prefix IsTagOf
belongs a b tag valid proper (rest, e) = (to, from)
  where
    verdict : cache_tag_belongs_to_scope a tag ≡ ok (starts_with tag (prefix_of a <> ":"))
    verdict = rw valid refl

    to : cache_tag_belongs_to_scope a tag ≡ ok true → a ≡ b
    to h =
        let t : starts_with tag (prefix_of a <> ":") ≡ true = cc (sym verdict ∙ h) in
        let (u, begins) = (starts_with_iff tag (prefix_of a <> ":")).0 t in
        prefix_unique a b u rest (valid-IsProper a valid).1 proper
          (sym (append_assoc (prefix_of a) ":" u) ∙ begins ∙ e)

    from : a ≡ b → cache_tag_belongs_to_scope a tag ≡ ok true
    from h =
        verdict
        ∙ ap ok (
            (starts_with_iff tag (prefix_of a <> ":")).1 (
              rest,
              append_assoc (prefix_of a) ":" rest
                  ∙ ap (λ c. prefix_of c <> (":" <> rest)) h
                  ∙ sym e,
            ))

Every : (String → Type 0) → List String → Type 0
Every P [] = Unit
Every P (x ∷ xs) = P x × Every P xs

every-Member :
    (P : String → Type 0) (xs : List String) {x : String} → Every P xs → Member x xs → P x
unfolding Every
every-Member P [] h m = absurd (not-Member-nil m)
every-Member P (y ∷ ys) h m = elim (Member-cons m) [
  | inl e ↦ subst P (sym e) h.0
  | inr n ↦ every-Member P ys h.1 n
]

plain :
    (scope : ContentScope) (prefix text : String)
    → prefix ≡ prefix_of scope
    → IsTagOf scope (prefix <> (":" <> text))
unfolding IsTagOf
plain scope prefix text e = (text, ap (λ p. p <> (":" <> text)) e)

plain_then :
    (scope : ContentScope) (prefix label text : String)
    → prefix ≡ prefix_of scope
    → IsTagOf scope (prefix <> ((":" <> label) <> text))
unfolding IsTagOf
plain_then scope prefix label text e = (
  label <> text,
  ap (λ r. prefix <> r) (append_assoc ":" label text) ∙ ap (λ p. p <> (":" <> (label <> text))) e,
)

event_tags :
    (scope : ContentScope) (content_type entry_id revision_id : String) {tags : List String}
    → content_event_cache_tags scope content_type entry_id revision_id ≡ ok tags
    → IsProper scope × Every (IsTagOf scope) tags
unfolding content_event_cache_tags content_scope_cache_prefix Every IsTagOf
event_tags scope content_type entry_id revision_id {tags} h =
    let (prefix, made, listed) = >>=-eq-ok (content_scope_cache_prefix scope) _ h in
    let (valid, checked, done) = >>=-eq-ok (assert_valid_content_scope scope) _ made in
    let (same, proper) = valid-IsProper scope checked in
    let all_tags : tags_of prefix content_type entry_id revision_id ≡ tags = cc listed in
    let here : prefix ≡ prefix_of scope = sym (ap prefix_of same ∙ cc done) in
    (
      proper,
      subst (Every (IsTagOf scope)) all_tags (
        plain scope prefix "tenant" here,
        (
          plain scope prefix "site" here,
          (
            plain scope prefix "environment" here,
            (
              plain scope prefix "locale" here,
              (
                plain_then scope prefix "type:" (cache_component content_type) here,
                (
                  plain_then scope prefix "entry:" (cache_component entry_id) here,
                  (plain_then scope prefix "revision:" (cache_component revision_id) here, tt),
                ),
              ),
            ),
          ),
        ),
      ),
    )

-- The tags of the events of one valid scope belong to another valid scope only if the two scopes
-- are the same, and then all of them do.
pub content_event_cache_tags-belong_iff :
    (a b : ContentScope) (content_type entry_id revision_id : String) (tags : List String)
    (tag : String)
    → assert_valid_content_scope a ≡ ok a
    → content_event_cache_tags b content_type entry_id revision_id ≡ ok tags
    → Member tag tags
    → (cache_tag_belongs_to_scope a tag ≡ ok true) ↔ (a ≡ b)
content_event_cache_tags-belong_iff a b content_type entry_id revision_id tags tag valid made m =
    let (proper, every) = event_tags b content_type entry_id revision_id made in
    belongs a b tag valid proper (every-Member (IsTagOf b) tags every m)
