-- ===== src/ProjectTrack.antt =====
-- frontend/src/eng/engProjectTrackTransitionUtils.js: the two project tracks of an epic.
pub mod Control
pub mod Invariant
pub mod Writes
pub mod Safety
mod Tests
use jira_execution_planner.Base.{
  ◌≡◌, Bool, true, false, ◌&&◌, not, Option, none, some, List, [], ◌∷◌, map, if◌then◌else◌,
}
use jira_execution_planner.Base.Lists.{filter, find, non_empty}
use jira_execution_planner.Base.Text.{Text, text, text_beq, trimmed, lower}

abbrev pub canonical_project_tracks : List Text
canonical_project_tracks = text "Flexible" ∷ text "Committed" ∷ []

abbrev pub text_or_empty : Option Text → Text
text_or_empty none = []
text_or_empty (some t) = t

-- The canonical spelling, or the empty text
unfoldable pub normalize_project_track_value : Option Text → Text
normalize_project_track_value value =
    let lowered = lower (trimmed value) in
    text_or_empty (find (λ track. text_beq (lower track) lowered) canonical_project_tracks)

-- Each option is its `value`.
unfoldable pub filter_project_track_options : List (Option Text) → Option Text → List Text
filter_project_track_options options current_track =
    let current = normalize_project_track_value current_track in
    filter (λ value. non_empty value && not (text_beq value current))
      (map normalize_project_track_value options)

pub data Surface : Type 0 where
  catch_up planning : Surface

abbrev pub is_catch_up : Surface → Bool
is_catch_up catch_up = true
is_catch_up planning = false

pub record TrackParams : Type 0 where
  pub source_surface : Surface
  pub value_state : Text
  pub result : Option Text

-- Without the two constant fields; an empty `value_state` is one that is not sent.
unfoldable pub build_project_track_action_analytics_params :
    Surface → Option Text → Option Text → TrackParams
build_project_track_action_analytics_params source_surface target_track result = record {
  source_surface = source_surface;
  value_state = lower (normalize_project_track_value target_track);
  result = result;
}
