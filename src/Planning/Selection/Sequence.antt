-- ===== src/Planning/Selection/Sequence.antt =====
-- Sequences of actions.
use jira_execution_planner.Base.{◌≡◌, ◌≢◌, true, Option, List, [], ◌∷◌}
use jira_execution_planner.Base.Lists.{non_empty}
use jira_execution_planner.Base.Text.{Text}
use jira_execution_planner.Planning.Teams.{TeamsValue}
use jira_execution_planner.Planning.Selection.Handlers.{
  View, Dashboard, Action, undo, perform, perform_all,
}
use jira_execution_planner.Planning.Selection.Stored.{
  Works, IsStored, perform-IsStored, undo_to-IsStored,
}

module _ (normalize_teams : TeamsValue → List Text) (view : View)
    (keyed : non_empty view.scope_key ≡ true) (normalize_status : Option Text → Text) where
  keeps :
      (a : Action) (d : Dashboard)
      → Works d.storage
      → IsStored view d
      → IsStored view (perform normalize_teams view normalize_status a d)
        × Works (perform normalize_teams view normalize_status a d).storage
  unfolding perform
  keeps undo d w s = undo_to-IsStored normalize_teams view keyed view.baseline d w s
  keeps a d w s =
      unfold perform in perform-IsStored normalize_teams view keyed normalize_status a d (λ e. cc) w

  all_keep :
      (actions : List Action) (d : Dashboard)
      → Works d.storage
      → IsStored view d
      → IsStored view (perform_all normalize_teams view normalize_status actions d)
        × Works (perform_all normalize_teams view normalize_status actions d).storage
  unfolding perform_all
  all_keep [] d w s = (s, w)
  all_keep (a ∷ actions) d w s =
      let (s', w') = keeps a d w s in
      all_keep actions (perform normalize_teams view normalize_status a d) w' s'

  -- With a storage that can be read and written and that does not hold the text of an array, and a
  -- scope key, after any actions of which the first is not an undo, the stored
  -- state of the scope is what the dashboard shows.
  pub perform_all-IsStored :
      (a : Action) (actions : List Action) (d : Dashboard)
      → a ≢ undo
      → Works d.storage
      → IsStored view (perform_all normalize_teams view normalize_status (a ∷ actions) d)
  unfolding perform_all
  perform_all-IsStored a actions d h w =
      let (s, w') = perform-IsStored normalize_teams view keyed normalize_status a d h w in
      (all_keep actions (perform normalize_teams view normalize_status a d) w' s).0
