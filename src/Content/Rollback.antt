-- ===== src/Content/Rollback.antt =====
-- A call of the repository that throws leaves the tables as they were.
use grid_story.Prelude.{
  String, Bool, true, false, Option, none, some, List, [], ◌∷◌, string_eq, ◌>->◌, if◌then◌else◌,
  option_eq, is_some,
}
use grid_story.Context.{ContentScope, scope_eq}
use grid_story.Routing.Content.{Fields}
use grid_story.Releases.Store.{Actor}
use grid_story.Content.Statements.{Engine, update, return}
use grid_story.Content.Statements.Rollback.{
  Rolls, Still, transaction-Rolls, Still-Rolls, Total-Rolls, >->-Rolls, >->-Rolls_before,
  check-Still, query-Still, return-Total, return-Still, update-Total, now-Still, fresh_id-Still,
}
use grid_story.Content.Repository.{
  Publication, publish_many, create, chosen_id, update_draft, publish, delete_entry, without_entry,
}
use grid_story.Content.Commands.{
  Command, creation, edit, publishing, joint_publication, deletion, run,
}

module _ (engine : Engine) (scope : ContentScope) where
  chosen_id-Still : (requested : Option String) → Still (chosen_id engine requested)
  unfolding chosen_id
  chosen_id-Still none = fresh_id-Still engine
  chosen_id-Still (some id) = return-Still id

  create-Rolls :
      (requested : Option String) (content_type : String) (fields : Fields) (actor : Actor)
      (group : Option String)
      → Rolls (create engine scope requested content_type fields actor group)
  unfolding create
  create-Rolls requested content_type fields actor group =
      >->-Rolls (chosen_id-Still requested) λ id.
        >->-Rolls (fresh_id-Still engine)
          λ revision_id. >->-Rolls (now-Still engine) λ at. transaction-Rolls _

  update_draft-Rolls :
      (id expected : String) (fields : Fields) (actor : Actor)
      → Rolls (update_draft engine scope id expected fields actor)
  unfolding update_draft
  update_draft-Rolls id expected fields actor = transaction-Rolls _

  publish-Rolls :
      (id expected : String) (actor : Actor) → Rolls (publish engine scope id expected actor)
  unfolding publish
  publish-Rolls id expected actor = transaction-Rolls _

  pub publish_many-Rolls :
      (entries : List Publication) (actor : Actor) → Rolls (publish_many engine scope entries actor)
  unfolding publish_many
  publish_many-Rolls [] actor = Still-Rolls (return-Still [])
  publish_many-Rolls (first ∷ rest) actor =
      >->-Rolls (check-Still _) λ distinct. transaction-Rolls _

  delete_entry-Rolls : (id : String) → Rolls (delete_entry scope id)
  unfolding delete_entry
  delete_entry-Rolls id = >->-Rolls (query-Still _) λ row. go (is_some row)
    where
      go :
          (exists : Bool)
          → Rolls (
              if exists
              then (update (without_entry scope id) >-> λ deleted. return true)
              else return false)
      go true = Total-Rolls (update-Total (without_entry scope id) true)
      go false = Still-Rolls (return-Still false)

  pub run-Rolls : (command : Command) → Rolls (run engine scope command)
  unfolding run
  run-Rolls (creation id type fields actor group) =
      >->-Rolls_before (create-Rolls id type fields actor group) (λ a. return-Total tt)
  run-Rolls (edit id expected fields actor) =
      >->-Rolls_before (update_draft-Rolls id expected fields actor) (λ a. return-Total tt)
  run-Rolls (publishing id expected actor) =
      >->-Rolls_before (publish-Rolls id expected actor) (λ a. return-Total tt)
  run-Rolls (joint_publication entries actor) =
      >->-Rolls_before (publish_many-Rolls entries actor) (λ a. return-Total tt)
  run-Rolls (deletion id) = >->-Rolls_before (delete_entry-Rolls id) (λ a. return-Total tt)
