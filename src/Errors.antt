-- ===== src/Errors.antt =====
-- packages/core/src/errors.ts: the failures that the services throw.
-- The optional `details` of an error, which only explain it, are not kept.
use grid_story.Prelude.{ℕ, String, Result}

pub record GridStoryError : Type 0 where
  pub message : String
  pub code : String
  pub status_code : ℕ

-- What an operation of the services returns.
abbrev pub Outcome {ℓ} : Type ℓ → Type ℓ
Outcome A = Result GridStoryError A

abbrev pub grid_story_error : String → String → ℕ → GridStoryError
grid_story_error message code status = record {
  message = message;
  code = code;
  status_code = status;
}

abbrev pub not_found_error : String → GridStoryError
not_found_error message = grid_story_error message "not_found" 404

abbrev pub conflict_error : String → GridStoryError
conflict_error message = grid_story_error message "revision_conflict" 409

abbrev pub content_validation_error : GridStoryError
content_validation_error = grid_story_error "Content failed validation." "validation_failed" 422

abbrev pub publish_quality_gate_error : GridStoryError
publish_quality_gate_error =
    grid_story_error "Content did not pass its publish quality gate." "publish_quality_gate_failed"
      422
