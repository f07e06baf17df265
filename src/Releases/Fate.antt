-- ===== src/Releases/Fate.antt =====
-- What may become of a stored release.
use grid_story.Prelude.{
  String, some, false, ◌==◌, string_eq, ◌≡◌, ◌≢◌, ◌⊎◌, inl, inr, refl, sym, ap, ◌∙◌, subst,
  Bool-cases, lookup, lookup-insert, ==-eq,
}
use grid_story.Releases.{
  ReleaseState, draft, validated, scheduled, executing, published, rolled_back, failed, Release,
}
use grid_story.Releases.Store.{Releases}
use grid_story.Releases.Changes.{can_revalidate}
use grid_story.Releases.Evolution.{
  IsCheckable, Move, revalidate, place, cancel, start, succeed, fail, undo, Evolves, unchanged,
  changed, added, lookup_other,
}

-- What may become of a release: nothing once it is executing or rolled back, and only the rollback
-- once it is published.
abbrev pub Follows : Release → Release → Type 0
Follows earlier later =
    IsCheckable earlier.state
    ⊎ (((earlier.state ≡ executing) ⊎ (earlier.state ≡ rolled_back)) × (later ≡ earlier))
    ⊎ ((earlier.state ≡ published) × ((later ≡ earlier) ⊎ (later.state ≡ rolled_back)))

-- The release `later` is what became of the release `earlier`.
abbrev pub Became : Release → Release → Type 0
Became earlier later =
    (later.id ≡ earlier.id) × (later.entries ≡ earlier.entries) × Follows earlier later

pub Follows-refl : (release : Release) → Follows release release
Follows-refl release = by_state release.state refl
  where
    by_state : (state : ReleaseState) → release.state ≡ state → Follows release release
    by_state draft e = inl (inl e)
    by_state validated e = inl (inr (inl e))
    by_state scheduled e = inl (inr (inr (inl e)))
    by_state failed e = inl (inr (inr (inr e)))
    by_state executing e = inr (inl (inl e, refl))
    by_state rolled_back e = inr (inl (inr e, refl))
    by_state published e = inr (inr (e, inl refl))

not_checkable :
    {state other : ReleaseState} → can_revalidate other ≡ false → IsCheckable state → state ≢ other
not_checkable h c e = let n = ap can_revalidate e ∙ h in absurd (go c n)
  where
    go : {state : ReleaseState} → IsCheckable state → can_revalidate state ≢ false
    go (inl a) n = let b = ap can_revalidate (sym a) ∙ n in cc
    go (inr (inl a)) n = let b = ap can_revalidate (sym a) ∙ n in cc
    go (inr (inr (inl a))) n = let b = ap can_revalidate (sym a) ∙ n in cc
    go (inr (inr (inr a))) n = let b = ap can_revalidate (sym a) ∙ n in cc

no_way_back : {before after : ReleaseState} → Move before after → before ≡ rolled_back → ⊥
no_way_back (revalidate can to) e = not_checkable refl can e
no_way_back (place (inl a)) e = cc
no_way_back (place (inr a)) e = cc
no_way_back cancel e = cc
no_way_back (start (inl a)) e = cc
no_way_back (start (inr a)) e = cc
no_way_back succeed e = cc
no_way_back fail e = cc
no_way_back undo e = cc

published_moves :
    {before after : ReleaseState} → Move before after → before ≡ published → after ≡ rolled_back
published_moves (revalidate can to) e = absurd (not_checkable refl can e)
published_moves (place (inl a)) e = cc
published_moves (place (inr a)) e = cc
published_moves cancel e = cc
published_moves (start (inl a)) e = cc
published_moves (start (inr a)) e = cc
published_moves succeed e = cc
published_moves fail e = cc
published_moves undo e = refl

-- One more transition of a release that was not executing at first.
moved :
    (release middle after : Release)
    → release.state ≢ executing
    → Move middle.state after.state
    → Follows release middle
    → Follows release after
moved release middle after idle move (inl early) = inl early
moved release middle after idle move (inr (inl (inl running, same))) = absurd (idle running)
moved release middle after idle move (inr (inl (inr final, same))) =
    absurd (no_way_back move (ap (λ (r : Release). r.state) same ∙ final))
moved release middle after idle move (inr (inr (live, inl same))) =
    inr (inr (live, inr (published_moves move (ap (λ (r : Release). r.state) same ∙ live))))
moved release middle after idle move (inr (inr (live, inr gone))) = absurd (no_way_back move gone)

pub evolved :
    {first last : Releases} (id : String) (release : Release)
    → lookup id first ≡ some release
    → Evolves first last
    → (later : Release) × (lookup id last ≡ some later) × Became release later
evolved id release h unchanged = (release, h, (refl, refl, Follows-refl release))
evolved {first} id release h
      (changed {last} before after evolves found same_id same_entries move idle) =
    let (middle, there, became) = evolved id release h evolves in
    let (kept_id, kept_entries, follows) = became in
    elim (Bool-cases (after.id == id)) [
      | inl e ↦
          let here : before.id ≡ id = sym same_id ∙ ==-eq e in
          let same : before ≡ middle = cc (sym found ∙ ap (λ key. lookup key last) here ∙ there) in
          (
            after,
            lookup-insert after.id id after last ∙ rw e refl,
            (
              same_id ∙ ap (λ (r : Release). r.id) same ∙ kept_id,
              same_entries ∙ ap (λ (r : Release). r.entries) same ∙ kept_entries,
              moved release middle after (idle release (ap (λ key. lookup key first) here ∙ h))
                  (subst (λ (r : Release). Move r.state after.state) same move) follows,
            ),
          )
      | inr e ↦ (middle, lookup_other after last id e there, became)
    ]
evolved id release h (added {last} fresh evolves free new) =
    let (middle, there, became) = evolved id release h evolves in
    elim (Bool-cases (fresh.id == id)) [
      | inl e ↦ cc (sym free ∙ ap (λ key. lookup key last) (==-eq e) ∙ there)
      | inr e ↦ (middle, lookup_other fresh last id e there, became)
    ]

Follows-trans : (a b c : Release) → Follows a b → Follows b c → Follows a c
Follows-trans a b c (inl early) s = inl early
Follows-trans a b c (inr (inl (ended, same))) s =
    inr (inl (ended, stays (subst (λ r. Follows r c) same s)))
  where
    stays : Follows a c → c ≡ a
    stays (inl early) =
        absurd
          (elim ended [ inl e ↦ not_checkable refl early e | inr e ↦ not_checkable refl early e ])
    stays (inr (inl x)) = x.1
    stays (inr (inr x)) = elim ended [ inl e ↦ cc (sym e ∙ x.0) | inr e ↦ cc (sym e ∙ x.0) ]
Follows-trans a b c (inr (inr (live, inl same))) s = subst (λ r. Follows r c) same s
Follows-trans a b c (inr (inr (live, inr gone))) s = inr (inr (live, inr (stays s)))
  where
    stays : Follows b c → c.state ≡ rolled_back
    stays (inl early) = absurd (not_checkable refl early gone)
    stays (inr (inl x)) = ap (λ (r : Release). r.state) x.1 ∙ gone
    stays (inr (inr x)) = cc (sym gone ∙ x.0)

pub Became-trans : (a b c : Release) → Became a b → Became b c → Became a c
Became-trans a b c (i, e, r) (j, f, s) = (j ∙ i, f ∙ e, Follows-trans a b c r s)

pub Follows-rolled_back :
    {earlier later : Release}
    → earlier.state ≡ rolled_back
    → Follows earlier later
    → later ≡ earlier
Follows-rolled_back final (inl early) = absurd (not_checkable refl early final)
Follows-rolled_back final (inr (inl x)) = x.1
Follows-rolled_back final (inr (inr x)) = cc (sym final ∙ x.0)

pub Follows-published :
    {earlier later : Release}
    → earlier.state ≡ published
    → Follows earlier later
    → (later.state ≡ published) ⊎ (later.state ≡ rolled_back)
Follows-published live (inl early) = absurd (not_checkable refl early live)
Follows-published live (inr (inl x)) = inl (ap (λ (r : Release). r.state) x.1 ∙ live)
Follows-published live (inr (inr x)) = elim x.1 [
  | inl same ↦ inl (ap (λ (r : Release). r.state) same ∙ live)
  | inr gone ↦ inr gone
]
