-- ===== src/Routing/Content/Laws.antt =====
-- Which entry a path shows.
use grid_story.Prelude.{
  String, Bool, true, false, Option, none, some, List, [], ◌∷◌, ◌++◌, ◌==◌, string_eq, ◌≡◌, ◌↔◌,
  inl, inr, refl, sym, ap, ◌∙◌, subst, eq_iff, Result, ok, err, >>=-eq-ok, push_if, Member, here,
  there, Member-cons, not-Member-nil, Member-append, Member-append_left, Member-append_right,
}
use grid_story.Routing.Paths.{normalize_route_path}
use grid_story.Routing as R
use grid_story.Routing.{RedirectDefinition, RedirectResolution, Redirects, walk, walk_result}
use grid_story.Routing.Content.{
  Failure, ContentSchema, build_content_route, ContentEntry, content, match_entries, match_routed,
  matches_of, only_match, after_redirects, resolve_route,
}

-- The entry is published under a content type with a route, which gives this path for it.
pub record Shown (list : String → Result Failure (List ContentEntry)) (schemas : List ContentSchema)
    (path : String) (entry : ContentEntry) : Type 0 where
  pub schema : ContentSchema
  pub listed : Member schema schemas
  pub pattern : String
  pub routed : schema.pattern ≡ some pattern
  pub entries : List ContentEntry
  pub published : list schema.id ≡ ok entries
  pub there_is : Member entry entries
  pub built : build_content_route schema entry.content ≡ ok path

push_if-Member : {A : Type 0} (b : Bool) (a x : A) → Member x (push_if b a) → (b ≡ true) × (x ≡ a)
push_if-Member true a x m = elim (Member-cons m) [
  | inl e ↦ (refl, e)
  | inr n ↦ absurd (not-Member-nil n)
]
push_if-Member false a x m = absurd (not-Member-nil m)

module _ (list : String → Result Failure (List ContentEntry)) (path : String) where
  match_entries_sound :
      (schema : ContentSchema) (entries : List ContentEntry) {found : List ContentEntry}
      → match_entries list path schema entries ≡ ok found
      → (entry : ContentEntry) → Member entry found
      → Member entry entries × (build_content_route schema entry.content ≡ ok path)
  unfolding match_entries
  match_entries_sound schema [] {found} h entry m =
      let e : [] ≡ found = cc h in absurd (not-Member-nil (subst (Member entry) (sym e) m))
  match_entries_sound schema (first ∷ entries) {found} h entry m =
      let (route, made, h1) = >>=-eq-ok (build_content_route schema first.content) _ h in
      let (rest, others, h2) = >>=-eq-ok (match_entries list path schema entries) _ h1 in
      let e : push_if (route == path) first ++ rest ≡ found = cc h2 in
      elim (Member-append (push_if (route == path) first) rest (subst (Member entry) (sym e) m)) [
        | inl l ↦
            let (t, same) = push_if-Member (route == path) first entry l in
            (
              here same,
              ap (λ (c : ContentEntry). build_content_route schema c.content) same
                  ∙ made
                  ∙ ap ok ((eq_iff route path).0 t),
            )
        | inr r ↦ let (n, b) = match_entries_sound schema entries others entry r in (there n, b)
      ]

  match_entries_complete :
      (schema : ContentSchema) (entries : List ContentEntry) {found : List ContentEntry}
      → match_entries list path schema entries ≡ ok found
      → (entry : ContentEntry) → Member entry entries
      → build_content_route schema entry.content ≡ ok path
      → Member entry found
  unfolding match_entries
  match_entries_complete schema [] h entry m b = absurd (not-Member-nil m)
  match_entries_complete schema (first ∷ entries) {found} h entry m b =
      let (route, made, h1) = >>=-eq-ok (build_content_route schema first.content) _ h in
      let (rest, others, h2) = >>=-eq-ok (match_entries list path schema entries) _ h1 in
      let e : push_if (route == path) first ++ rest ≡ found = cc h2 in
      subst (Member entry) e (elim (Member-cons m) [
        | inl same ↦
            let made_here =
              ap (λ (c : ContentEntry). build_content_route schema c.content) (sym same) ∙ b in
            let equal : route ≡ path = cc (sym made ∙ made_here) in
            Member-append_left (push_if (route == path) first) rest (
              subst (λ t. Member entry (push_if t first)) (sym ((eq_iff route path).1 equal))
                (here same))
        | inr n ↦
            Member-append_right (push_if (route == path) first) rest
              (match_entries_complete schema entries others entry n b)
      ])

  routed-Shown :
      (schemas : List ContentSchema) (schema : ContentSchema) (pattern : Option String)
      → Member schema schemas
      → schema.pattern ≡ pattern
      → {found : List ContentEntry} → match_routed list path schema pattern ≡ ok found
      → (entry : ContentEntry) → Member entry found
      → Shown list schemas path entry
  routed-Shown schemas schema none listed p {found} h entry m =
      let e : [] ≡ found = cc h in absurd (not-Member-nil (subst (Member entry) (sym e) m))
  routed-Shown schemas schema (some pattern) listed p h entry m =
      let (entries, published, h1) = >>=-eq-ok (list schema.id) _ h in
      let (n, b) = match_entries_sound schema entries h1 entry m in
      record {
        schema = schema;
        listed = listed;
        pattern = pattern;
        routed = p;
        entries = entries;
        published = published;
        there_is = n;
        built = b;
      }

  further :
      (schema : ContentSchema) (schemas : List ContentSchema) {entry : ContentEntry}
      → Shown list schemas path entry
      → Shown list (schema ∷ schemas) path entry
  further schema schemas shown = record {
    schema = shown.schema;
    listed = there shown.listed;
    pattern = shown.pattern;
    routed = shown.routed;
    entries = shown.entries;
    published = shown.published;
    there_is = shown.there_is;
    built = shown.built;
  }

  matches_of-Shown :
      (schemas : List ContentSchema) {found : List ContentEntry}
      → matches_of list path schemas ≡ ok found
      → (entry : ContentEntry) → Member entry found
      → Shown list schemas path entry
  unfolding matches_of
  matches_of-Shown [] {found} h entry m =
      let e : [] ≡ found = cc h in absurd (not-Member-nil (subst (Member entry) (sym e) m))
  matches_of-Shown (schema ∷ schemas) {found} h entry m =
      let (first, one, h1) = >>=-eq-ok (match_routed list path schema schema.pattern) _ h in
      let (rest, others, h2) = >>=-eq-ok (matches_of list path schemas) _ h1 in
      let e : first ++ rest ≡ found = cc h2 in
      elim (Member-append first rest (subst (Member entry) (sym e) m)) [
        | inl l ↦ routed-Shown (schema ∷ schemas) schema schema.pattern (here refl) refl one entry l
        | inr r ↦ further schema schemas (matches_of-Shown schemas others entry r)
      ]

  routed_complete :
      (schema : ContentSchema) (pattern : Option String) {text : String}
      {entries found : List ContentEntry}
      → pattern ≡ some text
      → match_routed list path schema pattern ≡ ok found
      → list schema.id ≡ ok entries
      → (entry : ContentEntry) → Member entry entries
      → build_content_route schema entry.content ≡ ok path
      → Member entry found
  routed_complete schema none p h published entry m b = cc
  routed_complete schema (some pattern) {text} {entries} p h published entry m b =
      let (listed, again, h1) = >>=-eq-ok (list schema.id) _ h in
      let same : entries ≡ listed = cc (sym published ∙ again) in
      match_entries_complete schema listed h1 entry (subst (Member entry) same m) b

  Shown-matches_of :
      (schemas : List ContentSchema) {found : List ContentEntry}
      → matches_of list path schemas ≡ ok found
      → (entry : ContentEntry) → Shown list schemas path entry
      → Member entry found
  unfolding matches_of
  Shown-matches_of [] h entry shown = absurd (not-Member-nil shown.listed)
  Shown-matches_of (schema ∷ schemas) {found} h entry shown =
      let (first, one, h1) = >>=-eq-ok (match_routed list path schema schema.pattern) _ h in
      let (rest, others, h2) = >>=-eq-ok (matches_of list path schemas) _ h1 in
      let e : first ++ rest ≡ found = cc h2 in
      subst (Member entry) e (elim (Member-cons shown.listed) [
        | inl same ↦ Member-append_left first rest (
            routed_complete schema schema.pattern
              (ap (λ (s : ContentSchema). s.pattern) (sym same) ∙ shown.routed) one
              (ap (λ (s : ContentSchema). list s.id) (sym same) ∙ shown.published) entry
              shown.there_is
              (ap (λ (s : ContentSchema). build_content_route s entry.content) (sym same)
                ∙ shown.built))
        | inr n ↦ Member-append_right first rest (
            Shown-matches_of schemas others entry (record {
              schema = shown.schema;
              listed = n;
              pattern = shown.pattern;
              routed = shown.routed;
              entries = shown.entries;
              published = shown.published;
              there_is = shown.there_is;
              built = shown.built;
            }))
      ])

only_match-content :
    (path : String) (found : List ContentEntry) {shown_path : String} {entry : ContentEntry}
    → only_match path found ≡ ok (content shown_path entry)
    → (path ≡ shown_path) × (found ≡ entry ∷ [])
only_match-content path [] h = cc
only_match-content path (first ∷ []) {shown_path} {entry} h =
    let p : path ≡ shown_path = cc h in let e : first ≡ entry = cc h in (p, ap (λ c. c ∷ []) e)
only_match-content path (first ∷ (other ∷ rest)) h = cc

after_redirects-content :
    (list : String → Result Failure (List ContentEntry)) (path : String)
    (schemas : List ContentSchema) (answer : Result String (Option RedirectResolution))
    {shown_path : String} {entry : ContentEntry}
    → after_redirects list path schemas answer ≡ ok (content shown_path entry)
    → (answer ≡ ok none) × (path ≡ shown_path) × (matches_of list path schemas ≡ ok (entry ∷ []))
after_redirects-content list path schemas (err message) h = cc
after_redirects-content list path schemas (ok (some resolution)) h = cc
after_redirects-content list path schemas (ok none) h =
    let (found, all, h1) = >>=-eq-ok (matches_of list path schemas) _ h in
    let (p, e) = only_match-content path found h1 in (refl, p, all ∙ ap ok e)

-- If a path resolves to an entry, then the given path is the normal form of the requested one, no
-- redirect leaves from it, and the entry is the only one that is published under that path.
pub resolve_route-Shown_iff :
    (list : String → Result Failure (List ContentEntry)) (redirects : Redirects)
    (schemas : List ContentSchema) (input path : String) (entry other : ContentEntry)
    → resolve_route list redirects schemas input ≡ ok (content path entry)
    → (normalize_route_path input ≡ path)
      × (R.resolve redirects path ≡ ok none)
      × (Shown list schemas path other ↔ (other ≡ entry))
unfolding resolve_route
resolve_route-Shown_iff list redirects schemas input path entry other h =
    let (silent, p, found) =
      after_redirects-content list (normalize_route_path input) schemas
        (R.resolve redirects (normalize_route_path input)) h in
    let here_found = subst (λ q. matches_of list q schemas ≡ ok (entry ∷ [])) p found in
    (
      p,
      subst (λ q. R.resolve redirects q ≡ ok none) p silent,
      (
        λ shown. one_left (Shown-matches_of list path schemas here_found other shown),
        λ same. matches_of-Shown list path schemas here_found other (here same),
      ),
    )
  where
    one_left : Member other (entry ∷ []) → other ≡ entry
    one_left m = elim (Member-cons m) [ inl e ↦ e | inr n ↦ absurd (not-Member-nil n) ]
