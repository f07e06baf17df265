-- ===== src/Content/Service/Publishing.antt =====
-- What holds of an entry that the content service publishes.
use grid_story.Prelude.{
  String, false, Option, none, some, List, [], ◌∷◌, ◌==◌, string_eq, lookup, is_some, for_each,
  throw_if, or_throw, Result, ok, err, ◌>>=◌, >>=-eq-ok, ◌≡◌, ◌≢◌, refl, sym, ap, ◌∙◌, subst,
  Bool-cases, inl, inr, ◌⊎◌, Member, Member-cons, not-Member-nil, >->-Returns, if◌then◌else◌, ==-eq,
  ==_refl, if◌then◌else◌,
}
use grid_story.Context.{ContentScope, draft, published}
use grid_story.Routing.Content as R
use grid_story.Routing.Content.{ContentSchema, Fields, build_content_route}
use grid_story.Releases.Store.{Actor}
use grid_story.Canonical.{◌<>◌}
use grid_story.Errors.{conflict_error}
use grid_story.Content.{Failure, known, invalid, Issue, Tables, Store, ContentEntry}
use grid_story.Content.Statements.{Engine}
use grid_story.Content.Statements.Returns.{or_throw-eq-ok, throw_if-eq-ok}
use grid_story.Content.Reads as Reads
use grid_story.Content.Reads.{get_by_id}
use grid_story.Content.Commands.{shelf, HasDraft, apply, released}
use grid_story.Content.Refinement.{publish_effect}
use grid_story.Content.Service.{
  Options, Site, from_route, schema_map, values, find_collision, schema_of, unregistered,
  assert_valid_content, validate, check_route, validate_published_route, get, quality_check,
  publish_checks, publish,
}
use grid_story.Content.Service.Effects.{reading-Returns, on_store-Returns, on_flow-Returns}
use grid_story.Content.Service.Releases.{ended}

entry_is : {a b : ContentEntry} → ◌≡◌ {A = Result Failure ContentEntry} (ok a) (ok b) → a ≡ b
entry_is h = cc h

-- The end of a round of `#validatePublishedRoute`.
abbrev collided : String → Option ContentEntry → Result Failure (Unit {0})
collided route collision =
    throw_if (is_some collision)
      (known (conflict_error ("Canonical route " <> (route <> " is already published."))))

for_each-ok {ℓ} :
    {A : Type ℓ} (f : A → Result Failure (Unit {0})) (xs : List A)
    → for_each f xs ≡ ok tt
    → (x : A) → Member x xs
    → f x ≡ ok tt
for_each-ok f [] h x m = absurd (not-Member-nil m)
for_each-ok f (y ∷ ys) h x m =
    let (u, first, rest) = >>=-eq-ok (f y) _ h in
    elim (Member-cons m) [ inl e ↦ ap f e ∙ first | inr n ↦ for_each-ok f ys rest x n ]

from_route-eq-ok :
    {A : Type 0} (outcome : Result R.Failure A) {a : A} → from_route outcome ≡ ok a → outcome ≡ ok a
from_route-eq-ok (ok b) h = cc h
from_route-eq-ok (err (R.plain message)) h = cc
from_route-eq-ok (err (R.service e)) h = cc

-- The candidate is the entry itself, or has another route.
abbrev pub IsElsewhere : ContentSchema → String → String → ContentEntry → Type 0
IsElsewhere schema id route candidate =
    (candidate.id ≡ id)
    ⊎ ((other : String) × (build_content_route schema candidate.fields ≡ ok other)
        × (other ≢ route))

find_collision-IsElsewhere :
    (schema : ContentSchema) (id route : String) (candidates : List ContentEntry)
    → find_collision schema id route candidates ≡ ok none
    → (candidate : ContentEntry) → Member candidate candidates
    → IsElsewhere schema id route candidate
unfolding find_collision
find_collision-IsElsewhere schema id route [] h c m = absurd (not-Member-nil m)
find_collision-IsElsewhere schema id route (first ∷ rest) h c m =
    elim (Bool-cases (first.id == id)) [
      | inl t ↦
          let later : find_collision schema id route rest ≡ ok none =
            subst (λ x. x ≡ ok none) (rw t refl) h in
          elim (Member-cons m) [
            | inl e ↦ inl (ap (λ (x : ContentEntry). x.id) e ∙ ==-eq t)
            | inr n ↦ find_collision-IsElsewhere schema id route rest later c n
          ]
      | inr t ↦
          let chain = from_route (build_content_route schema first.fields) in
          let (other, built, k) =
            >>=-eq-ok chain
              (λ other.
                if other == route then ok (some first) else find_collision schema id route rest)
              (subst (λ x. x ≡ ok none) (rw t refl) h) in
          elim (Bool-cases (other == route)) [
            | inl same ↦
                let found : ok (some first) ≡ ok none = subst (λ x. x ≡ ok none) (rw same refl) k in
                cc found
            | inr differs ↦
                let later : find_collision schema id route rest ≡ ok none =
                  subst (λ x. x ≡ ok none) (rw differs refl) k in
                let elsewhere : (e : other ≡ route) → ⊥ =
                  λ e. cc (sym differs ∙ ap (λ x. x == route) e ∙ ==_refl route) in
                elim (Member-cons m) [
                  | inl e ↦ inr (
                    other,
                    ap (λ (x : ContentEntry). build_content_route schema x.fields) e
                        ∙ from_route-eq-ok (build_content_route schema first.fields) built,
                    elsewhere,
                  )
                  | inr n ↦ find_collision-IsElsewhere schema id route rest later c n
                ]
          ]
    ]

module _ {Flow : Type 0} (options : Options Flow) (scope : ContentScope) where
  -- No other entry of the scope that is published has the route of the entry, if it has one.
  abbrev pub RouteIsFree : ContentSchema → ContentEntry → Tables → Type 0
  RouteIsFree schema entry tables =
      (schema.pattern ≡ none)
      ⊎ ((route : String) × (build_content_route schema entry.fields ≡ ok route)
          × ((routed : ContentSchema) (candidate : ContentEntry)
              → Member routed (values (schema_map options.schemas))
              → Member candidate (Reads.list scope (some routed.id) published tables)
              → (routed.pattern ≡ none) ⊎ IsElsewhere routed entry.id route candidate))

  -- What the checks of `publish` ask of the draft.
  pub record IsPublishable (actor : Actor) (channel : Option String) (tables : Tables) (flow : Flow)
      (current : ContentEntry) : Type 0 where
    pub schema : ContentSchema
    pub registered : lookup current.content_type (schema_map options.schemas) ≡ some schema
    pub valid : options.validate_content schema current.fields ≡ []
    pub approved : options.assert_can_publish scope current actor flow ≡ ok tt
    pub good : quality_check options scope current channel actor ≡ ok tt
    pub free : RouteIsFree schema current tables

  valid_content :
      (schema : ContentSchema) (fields : Fields)
      → assert_valid_content options schema fields ≡ ok tt
      → options.validate_content schema fields ≡ []
  valid_content schema fields h = go (options.validate_content schema fields) refl
    where
      go : (issues : List Issue) → options.validate_content schema fields ≡ issues → issues ≡ []
      go [] e = refl
      go (issue ∷ issues) e =
          let thrown : assert_valid_content options schema fields ≡ err (invalid (issue ∷ issues)) =
            rw (assert_valid_content, e) refl in
          cc (sym thrown ∙ h)

  route_checked :
      (id route : String) (tables : Tables) (routed : ContentSchema)
      → check_route options scope id route tables routed ≡ ok tt
      → (routed.pattern ≡ none)
        ⊎ (find_collision routed id route (Reads.list scope (some routed.id) published tables)
            ≡ ok none)
  unfolding check_route
  route_checked id route tables routed h = go routed.pattern refl
    where
      unless : (o : Option ContentEntry) → is_some o ≡ false → o ≡ none
      unless none t = refl
      unless (some c) t = cc t

      go :
          (pattern : Option String)
          → routed.pattern ≡ pattern
          → (routed.pattern ≡ none)
            ⊎ (find_collision routed id route (Reads.list scope (some routed.id) published tables)
                ≡ ok none)
      go none e = inl e
      go (some pattern) e =
          let found =
            find_collision routed id route (Reads.list scope (some routed.id) published tables) in
          let opened : check_route options scope id route tables routed
              ≡ (found >>= collided route) =
            ap (λ (p : Option String). elim p [ none ↦ ok tt | some x ↦ found >>= collided route ])
              e in
          let (collision, ran, k) = >>=-eq-ok found (collided route) (sym opened ∙ h) in
          inr (ran ∙ ap ok (unless collision (throw_if-eq-ok _ _ k)))

  free_route :
      (entry : ContentEntry) (tables : Tables) (schema : ContentSchema)
      → lookup entry.content_type (schema_map options.schemas) ≡ some schema
      → validate_published_route options scope entry tables ≡ ok tt
      → RouteIsFree schema entry tables
  unfolding validate_published_route schema_of
  free_route entry tables schema registered h = go schema.pattern refl
    where
      go : (pattern : Option String) → schema.pattern ≡ pattern → RouteIsFree schema entry tables
      go none e = inl e
      go (some pattern) e =
          let found = from_route (build_content_route schema entry.fields) in
          let checked : String → Result Failure (Unit {0}) = λ route.
            for_each (check_route options scope entry.id route tables)
              (values (schema_map options.schemas)) in
          let registered_one : validate_published_route options scope entry tables
              ≡ (elim schema.pattern [ none ↦ ok tt | some x ↦ found >>= checked ]) =
            ap
              (λ (o : Option ContentSchema). or_throw o (unregistered entry.content_type) >>= λ one.
                elim one.pattern [
                  | none ↦ ok tt
                  | some x ↦ from_route (build_content_route one entry.fields) >>= checked
                ])
              registered in
          let opened : (elim schema.pattern [ none ↦ ok tt | some x ↦ found >>= checked ])
              ≡ (found >>= checked) =
            ap (λ (p : Option String). elim p [ none ↦ ok tt | some x ↦ found >>= checked ]) e in
          let (route, built, k) = >>=-eq-ok found checked (sym (registered_one ∙ opened) ∙ h) in
          inr (
            route,
            from_route-eq-ok (build_content_route schema entry.fields) built,
            λ routed candidate m n.
                elim (route_checked entry.id route tables routed (
                  for_each-ok (check_route options scope entry.id route tables)
                    (values (schema_map options.schemas)) k routed m)) [
                      | inl unrouted ↦ inl unrouted
                      | inr apart ↦
                          inr (find_collision-IsElsewhere routed entry.id route _ apart candidate n)
                    ],
          )

  checks-IsPublishable :
      (id : String) (actor : Actor) (channel : Option String) (tables : Tables) (flow : Flow)
      {current : ContentEntry}
      → publish_checks options scope id actor channel tables flow ≡ ok current
      → (options.assert_write scope (some id) ≡ ok tt)
        × (get_by_id scope id draft tables ≡ some current)
        × IsPublishable actor channel tables flow current
  unfolding publish_checks validate get schema_of
  checks-IsPublishable id actor channel tables flow h =
      let (u, writable, k1) = >>=-eq-ok (options.assert_write scope (some id)) _ h in
      let (entry, found, k2) = >>=-eq-ok (get options scope id draft tables) _ k1 in
      let (v, sound, k3) = >>=-eq-ok (validate options entry.content_type entry.fields) _ k2 in
      let (w, approved, k4) = >>=-eq-ok (options.assert_can_publish scope entry actor flow) _ k3 in
      let (x, good, k5) = >>=-eq-ok (quality_check options scope entry channel actor) _ k4 in
      let (y, routed, last) =
        >>=-eq-ok (validate_published_route options scope entry tables) _ k5 in
      let (schema, known_one, valid) = >>=-eq-ok (schema_of options entry.content_type) _ sound in
      let registered = or_throw-eq-ok _ _ known_one in
      let is_it : entry ≡ _ = entry_is last in
      (
        writable,
        or_throw-eq-ok _ _ found ∙ ap some is_it,
        subst (λ c. IsPublishable actor channel tables flow c) is_it
            (record {
              schema = schema;
              registered = registered;
              valid = valid_content schema entry.fields valid;
              approved = approved;
              good = good;
              free = free_route entry tables schema registered routed;
            }),
      )

module _ {Flow : Type 0} (options : Options Flow) (scope : ContentScope) (engine : Engine)
    (id expected : String) (actor : Actor) where
  -- The draft passed every gate and is the expected revision, which is then what the entry publishes.
  abbrev pub Allowed : Option String → Site Flow → Site Flow → Type 0
  Allowed channel before after =
      (current : ContentEntry) × (options.assert_write scope (some id) ≡ ok tt)
      × (get_by_id scope id draft before.store.tables ≡ some current)
      × IsPublishable options scope actor channel before.store.tables before.flow current
      × HasDraft (shelf before.store.tables) scope id expected
      × (shelf after.store.tables ≡ apply scope (id, released expected) (shelf before.store.tables))

  -- `publish` of the content service throws, or it returns; then the governance admitted the write,
  -- the draft is valid for its registered schema, the workflow approved of it, it passed the quality
  -- gate, no other published entry of the scope has its route, and it is the expected revision; and
  -- afterwards the entry publishes that revision, and no other
  -- publication and no draft has changed in any scope.
  pub publish-Allowed :
      (channel : Option String) (site : Site Flow)
      → let call = publish options engine scope id expected actor channel site in
        ((e : Failure) × (call.0 ≡ err e))
        ⊎ ((entry : ContentEntry) × (call.0 ≡ ok entry) × Allowed channel site call.1)
  unfolding publish
  publish-Allowed channel site =
      elim (ended (publish options engine scope id expected actor channel) site) [
        | inl thrown ↦ inl thrown
        | inr (entry, returned, ran) ↦
            let (current, s1, h1, k1) = >->-Returns ran in
            let (published_one, s2, h2, k2) = >->-Returns k1 in
            let (told, s3, h3, k3) = >->-Returns k2 in
            let (passed, e1) = reading-Returns options _ h1 in
            let (writable, found, sound) =
              checks-IsPublishable options scope id actor channel site.store.tables site.flow
                passed in
            let (seen, moved) =
              publish_effect engine scope id expected actor (on_store-Returns options _ h2) in
            let same : shelf site.store.tables ≡ shelf s1.store.tables =
              ap (λ (x : Site Flow). shelf x.store.tables) e1 in
            let last : s2.store ≡ _ =
              on_flow-Returns options _ h3
              ∙ ap (λ (x : Site Flow). x.store) (reading-Returns options _ k3).1 in
            inr (
              entry,
              returned,
              (
                current,
                writable,
                found,
                sound,
                subst (λ v. HasDraft v scope id expected) (sym same) seen,
                ap (λ (x : Store). shelf x.tables) (sym last)
                    ∙ moved
                    ∙ ap (apply scope (id, released expected)) (sym same),
              ),
            )
      ]
