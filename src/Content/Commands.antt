-- ===== src/Content/Commands.antt =====
-- The abstract machine that the repository implements: for each entry, the revision that its draft
-- shows and the one that is published. packages/core/src/sqlite-repository.ts changes entries by
-- five operations, which are the commands.
use grid_story.Prelude.{
  ℕ, ◌+◌, Option, none, some, String, String, ◌&&◌, Option, none, some, List, [], ◌∷◌, ◌==◌,
  string_eq, map, find, if◌then◌else◌, and_then, ok, err, ◌≡◌, ◌⊎◌, ◌>->◌,
}
use grid_story.Context.{ContentScope, scope_eq}
use grid_story.Routing.Content.{Fields}
use grid_story.Releases.Store.{Actor}
use grid_story.Content.{Tables, Entry, Store, Failure}
use grid_story.Content.Statements.{Engine, Operation, is_entry, return}
use grid_story.Content.Repository.{
  Publication, create, update_draft, publish, publish_many, delete_entry,
}

pub data Command : Type 0 where
  creation : Option String → String → Fields → Actor → Option String → Command
  edit : String → String → Fields → Actor → Command
  publishing : String → String → Actor → Command
  joint_publication : List Publication → Actor → Command
  deletion : String → Command

-- One call of the repository, in a scope.
unfoldable pub run : Engine → ContentScope → Command → Operation (Unit {0})
run engine scope (creation id type fields actor group) =
    create engine scope id type fields actor group >-> λ entry. return tt
run engine scope (edit id expected fields actor) =
    update_draft engine scope id expected fields actor >-> λ entry. return tt
run engine scope (publishing id expected actor) =
    publish engine scope id expected actor >-> λ entry. return tt
run engine scope (joint_publication entries actor) =
    publish_many engine scope entries actor >-> λ published. return tt
run engine scope (deletion id) = delete_entry scope id >-> λ existed. return tt

pub record Pins : Type 0 where
  pub draft : Option String
  pub published : Option String

abbrev pub Shelf : Type 0
Shelf = ContentScope → String → Option Pins

-- What the machine sees of the tables.
abbrev pub pins_of : Entry → Pins
pins_of entry = record {
  draft = entry.current_draft_revision_id;
  published = entry.published_revision_id;
}

abbrev pub shelf_of : List Entry → Shelf
shelf_of entries scope id =
    and_then (find (is_entry scope id) entries) λ entry. some (pins_of entry)

abbrev pub shelf : Tables → Shelf
shelf tables = shelf_of tables.entries

-- A change of one entry.
pub data Change : Type 0 where
  placed : String → Change
  redrafted : String → Change
  released : String → Change
  removed : Change

abbrev pub changed : Change → Option Pins → Option Pins
changed (placed revision) pins = some (record { draft = some revision; published = none })
changed (redrafted revision) pins = and_then pins λ p. some (record p { draft = some revision })
changed (released revision) pins = and_then pins λ p. some (record p { published = some revision })
changed removed pins = none

abbrev pub apply : ContentScope → String × Change → Shelf → Shelf
apply scope (id, change) before other_scope other_id =
    if (other_scope == scope) && (other_id == id)
    then changed change (before other_scope other_id)
    else before other_scope other_id

abbrev pub apply_all : ContentScope → List (String × Change) → Shelf → Shelf
apply_all scope [] before = before
apply_all scope (change ∷ changes) before = apply_all scope changes (apply scope change before)

abbrev pub release_of : Publication → String × Change
release_of p = (p.entry_id, released p.target_revision_id)

abbrev pub HasDraft : Shelf → ContentScope → String → String → Type 0
HasDraft before scope id revision =
    (pins : Pins) × (before scope id ≡ some pins) × (pins.draft ≡ some revision)

-- What one publication of several expects, if it expects anything.
abbrev pub Expected : Shelf → ContentScope → Publication → Type 0
Expected before scope p =
    (pins : Pins) × (before scope p.entry_id ≡ some pins)
    × ((p.expected_draft_revision_id ≡ none) ⊎ (p.expected_draft_revision_id ≡ pins.draft))
    × ((p.expected_published_revision_id ≡ none)
        ⊎ (p.expected_published_revision_id ≡ some pins.published))

abbrev pub AllExpected : Shelf → ContentScope → List Publication → Type 0
AllExpected before scope [] = Unit
AllExpected before scope (p ∷ ps) = Expected before scope p × AllExpected before scope ps

-- The ids that are drawn from a state on.
abbrev pub drawn_ids : Engine → Store → ℕ → String
drawn_ids engine s n = engine.create_id (n + s.drawn)

-- The ids of a created entry and of its first revision: the requested one, or else a drawn one.
abbrev pub entry_id : Option String → (ℕ → String) → String
entry_id none ids = ids 0
entry_id (some requested) ids = requested

abbrev pub revision_of : Option String → (ℕ → String) → String
revision_of none ids = ids 1
revision_of (some requested) ids = ids 0

-- When a command may take effect, and the changes that are its effect.
abbrev pub Effect : Command → ContentScope → (ℕ → String) → Shelf → List (String × Change) → Type 0
Effect (creation id type fields actor group) scope ids before changes =
    (changes ≡ (entry_id id ids, placed (revision_of id ids)) ∷ [])
    × (before scope (entry_id id ids) ≡ none)
Effect (edit id expected fields actor) scope ids before changes =
    (changes ≡ (id, redrafted (ids 0)) ∷ []) × HasDraft before scope id expected
Effect (publishing id expected actor) scope ids before changes =
    (changes ≡ (id, released expected) ∷ []) × HasDraft before scope id expected
Effect (joint_publication entries actor) scope ids before changes =
    (changes ≡ map release_of entries) × AllExpected before scope entries
Effect (deletion id) scope ids before changes = changes ≡ (id, removed) ∷ []

-- What one call of the repository does to the machine: it throws, and the tables are what they were;
-- or it returns, then it was allowed, and the machine made the changes of the command.
abbrev pub Refines : Engine → ContentScope → Command → Store → Type 0
Refines engine scope command s =
    ((e : Failure) × ((run engine scope command s).0 ≡ err e)
      × ((run engine scope command s).1.tables ≡ s.tables))
    ⊎ ((changes : List (String × Change)) × ((run engine scope command s).0 ≡ ok tt)
        × Effect command scope (drawn_ids engine s) (shelf s.tables) changes
        × (shelf (run engine scope command s).1.tables ≡ apply_all scope changes (shelf s.tables)))
