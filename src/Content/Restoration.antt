-- ===== src/Content/Restoration.antt =====
-- Publishing the entries of a release together, and taking them back.
use std.Path.{fun_ext}
use grid_story.Prelude.{
  String, Bool, true, false, not, ◌&&◌, ◌||◌, Option, none, some, List, [], ◌∷◌, ◌==◌, string_eq,
  or_else, is_some, any, all, map, ◌≡◌, refl, sym, ap, ◌∙◌, arith, Bool-cases, inl, inr, ◌⊎◌, ==-eq,
  ==_refl, and_true, Option-cases,
}
use grid_story.Context.{ContentScope, scope_eq}
use grid_story.Releases.{ReleaseMember}
use grid_story.Content.Repository.{Publication}
use grid_story.Content.Commands.{Pins, Shelf, apply, apply_all, release_of, Expected, AllExpected}
use grid_story.Content.Service.Joint.{forward, backward}

-- Whether a publication is of the entry.
abbrev pub concerns : ContentScope → ContentScope → String → Publication → Bool
concerns scope s i p = (s == scope) && (i == p.entry_id)

module _ (scope s : ContentScope) (i : String) where
  abbrev after : List Publication → Shelf → Option Pins
  after ps v = apply_all scope (map release_of ps) v s i

  -- Entries that no publication is of keep their pins.
  pub unconcerned :
      (ps : List Publication) (v : Shelf) → any (concerns scope s i) ps ≡ false → after ps v ≡ v s i
  unconcerned [] v h = refl
  unconcerned (p ∷ ps) v h = elim (Bool-cases (concerns scope s i p)) [
    | inl t ↦ absurd (ground (arith, h, t))
    | inr t ↦ unconcerned ps (apply scope (release_of p) v) (ground (arith, h, t)) ∙ rw t refl
  ]

  -- Publications change nothing but what is published.
  only_published :
      (ps : List Publication) (v : Shelf) (pins : Pins)
      → v s i ≡ some pins
      → (target : Option String) × (after ps v ≡ some (record pins { published = target }))
  only_published [] v pins h = (pins.published, h)
  only_published (p ∷ ps) v pins h = elim (Bool-cases (concerns scope s i p)) [
    | inl t ↦
        only_published ps (apply scope (release_of p) v)
          (record pins { published = some p.target_revision_id }) (rw (t, h) refl)
    | inr t ↦ only_published ps (apply scope (release_of p) v) pins (rw t h)
  ]

  -- When they agree on the revision, that one is published.
  last_published :
      (ps : List Publication) (v : Shelf) (pins : Pins) (target : String)
      → v s i ≡ some pins
      → all (λ p. not (concerns scope s i p) || (p.target_revision_id == target)) ps ≡ true
      → (any (concerns scope s i) ps ≡ true) ⊎ (pins.published ≡ some target)
      → after ps v ≡ some (record pins { published = some target })
  last_published [] v pins target h agree (inl none_there) = cc none_there
  last_published [] v pins target h agree (inr already) = rw (sym already) h
  last_published (p ∷ ps) v pins target h agree reached = elim (Bool-cases (concerns scope s i p)) [
    | inl t ↦
        let (first, rest) = and_true (not (concerns scope s i p) || _) _ agree in
        let same : p.target_revision_id ≡ target = ==-eq (ground (arith, first, t)) in
        last_published ps (apply scope (release_of p) v)
          (record pins { published = some p.target_revision_id }) target (rw (t, h) refl) rest
          (inr (ap some same))
    | inr t ↦
        let (first, rest) = and_true (not (concerns scope s i p) || _) _ agree in
        last_published ps (apply scope (release_of p) v) pins target (rw t h) rest (elim reached [
          | inl there_is ↦ inl (ground (arith, there_is, t))
          | inr already ↦ inr already
        ])
  ]

pub previous_is :
    (m : ReleaseMember) (pins : Pins)
    → (◌≡◌ {A = Option (Option String)} (some m.previous_published_revision_id) none)
      ⊎ (◌≡◌ {A = Option (Option String)}
          (some m.previous_published_revision_id)
          (some pins.published))
    → m.previous_published_revision_id ≡ pins.published
previous_is m pins (inl e) = cc e
previous_is m pins (inr e) = cc e

-- What a member that concerns the entry expected of it.
Expected-here :
    (scope s : ContentScope) (i : String) (v : Shelf) (m : ReleaseMember)
    → Expected v scope (forward m)
    → concerns scope s i (backward m) ≡ true
    → (pins : Pins) × (v s i ≡ some pins) × (m.previous_published_revision_id ≡ pins.published)
Expected-here scope s i v m (pins, found, draft_kept, published_kept) t =
    let (a, b) = and_true (s == scope) (i == m.entry_id) t in
    let in_scope : s ≡ scope = ==-eq a in
    let of_id : i ≡ m.entry_id = ==-eq b in
    (pins, cc (found, in_scope, of_id), previous_is m pins published_kept)

abbrev pub has_previous : ReleaseMember → Bool
has_previous m = is_some m.previous_published_revision_id

-- The entry of a member, as it was when the release was published.
expected_pins :
    (scope s : ContentScope) (i : String) (v : Shelf) (members : List ReleaseMember)
    → AllExpected v scope (map forward members)
    → all has_previous members ≡ true
    → any (concerns scope s i) (map backward members) ≡ true
    → (pins : Pins) × (target : String) × (v s i ≡ some pins) × (pins.published ≡ some target)
expected_pins scope s i v [] e h there_is = cc there_is
expected_pins scope s i v (m ∷ members) (first, rest) h there_is =
    let (one, others) = and_true (has_previous m) (all has_previous members) h in
    elim (Bool-cases (concerns scope s i (backward m))) [
      | inl t ↦
          let (pins, found, previous) = Expected-here scope s i v m first t in
          elim (Option-cases m.previous_published_revision_id) [
            | inl absent ↦ cc (sym one ∙ ap is_some absent)
            | inr (target, is_it) ↦ (pins, target, found, sym previous ∙ is_it)
          ]
      | inr t ↦ expected_pins scope s i v members rest others (ground (arith, there_is, t))
    ]

-- The members that concern the entry go back to the same revision.
agreed :
    (scope s : ContentScope) (i : String) (v : Shelf) (members : List ReleaseMember) (pins : Pins)
    (target : String)
    → AllExpected v scope (map forward members)
    → v s i ≡ some pins
    → pins.published ≡ some target
    → all
        (λ p. not (concerns scope s i p) || (p.target_revision_id == target))
        (map backward members)
      ≡ true
agreed scope s i v [] pins target e found is_it = refl
agreed scope s i v (m ∷ members) pins target (first, rest) found is_it =
    let others = agreed scope s i v members pins target rest found is_it in
    elim (Bool-cases (concerns scope s i (backward m))) [
      | inl t ↦
          let (pins', found', previous) = Expected-here scope s i v m first t in
          let same : pins' ≡ pins = cc (found, found') in
          let goes_back : or_else m.previous_published_revision_id "" ≡ target =
            ap (λ o. or_else o "") (previous ∙ ap (λ (p : Pins). p.published) same ∙ is_it) in
          rw (t, ap (λ x. x == target) goes_back ∙ ==_refl target) others
      | inr t ↦ rw t others
    ]

concerned_alike :
    (scope s : ContentScope) (i : String) (members : List ReleaseMember)
    → any (concerns scope s i) (map forward members)
      ≡ any (concerns scope s i) (map backward members)
concerned_alike scope s i [] = refl
concerned_alike scope s i (m ∷ members) =
    ap (λ b. concerns scope s i (backward m) || b) (concerned_alike scope s i members)

-- The publications of a rollback undo those of the release.
pub restored :
    (scope : ContentScope) (v : Shelf) (members : List ReleaseMember)
    → AllExpected v scope (map forward members)
    → all has_previous members ≡ true
    → apply_all scope
        (map release_of (map backward members))
        (apply_all scope (map release_of (map forward members)) v)
      ≡ v
restored scope v members expected h = fun_ext (λ s. fun_ext (λ i. go s i))
  where
    go :
        (s : ContentScope) (i : String)
        → after scope s i
            (map backward members)
            (apply_all scope (map release_of (map forward members)) v)
          ≡ v s i
    go s i = elim (Bool-cases (any (concerns scope s i) (map backward members))) [
      | inl t ↦
          let (pins, target, found, is_it) = expected_pins scope s i v members expected h t in
          let (y, between) = only_published scope s i (map forward members) v pins found in
          let undone : after scope s i (map backward members)
                (apply_all scope (map release_of (map forward members)) v)
              ≡ some (record pins { published = some target }) =
            last_published scope s i (map backward members) _ (record pins { published = y }) target
              between (agreed scope s i v members pins target expected found is_it) (inl t) in
          undone ∙ ap (λ o. some (record pins { published = o })) (sym is_it) ∙ sym found
      | inr t ↦
          unconcerned scope s i (map backward members) _ t
          ∙ unconcerned scope s i (map forward members) v (concerned_alike scope s i members ∙ t)
    ]
