-- ===== src/Epm/Flatten.antt =====
-- The issues of all boards as one list of tasks (`flattenEpmRollupBoardsForDependencies`).
pub mod Order
use jira_execution_planner.Base.{
  ℕ, Bool, true, false, not, Option, none, some, List, [], ◌∷◌, ◌++◌, if◌then◌else◌,
}
use jira_execution_planner.Base.Lists.{includes, non_empty}
use jira_execution_planner.Base.Text.{Text, text, text_equality, or_empty}
use jira_execution_planner.Epm.{
  Double, Issue, EpicNode, InitiativeNode, RollupTree, metadata_only, empty_rollup, tree, Board,
}
use jira_execution_planner.Epm.Status.{first_of}

pub record EngTask : Type 0 where
  pub id : Option Text
  pub key : Option Text
  pub summary : Text
  pub status : Text
  pub priority : Option Text
  pub issue_type : Option Text
  pub assignee : Option Text
  pub updated : Text
  pub story_points : Option Double
  pub team_name : Text
  pub team_id : Text
  pub parent_summary : Text
  pub epic_key : Text

pub record EpicDetails : Type 0 where
  pub key : Option Text
  pub summary : Text
  pub assignee : Option Text
  pub team_name : Text
  pub team_id : Text

-- `a || fallback`
abbrev pub text_or : Option Text → Text → Text
text_or none fallback = fallback
text_or (some []) fallback = fallback
text_or (some (c ∷ s)) fallback = c ∷ s

-- `a ? { name: a } : null`
abbrev filled : Option Text → Option Text
filled a = first_of a none

abbrev unknown_team : Text
unknown_team = text "Unknown Team"

unfoldable pub to_epm_eng_task : Issue → EngTask
to_epm_eng_task issue = record {
  id = first_of issue.id issue.key;
  key = issue.key;
  summary = text_or issue.summary (or_empty issue.key);
  status = text_or issue.status (text "Unknown");
  priority = filled issue.priority;
  issue_type = filled issue.issue_type;
  assignee = filled issue.assignee;
  updated = or_empty issue.updated;
  story_points = issue.story_points;
  team_name = text_or issue.team_name unknown_team;
  team_id = text_or issue.team_id (text_or issue.team_name unknown_team);
  parent_summary = or_empty issue.parent_summary;
  epic_key = or_empty issue.parent_key;
}

unfoldable pub to_epm_eng_epic_details : Issue → EpicDetails
to_epm_eng_epic_details issue = record {
  key = issue.key;
  summary = text_or issue.summary (or_empty issue.key);
  assignee = filled issue.assignee;
  team_name = text_or issue.team_name unknown_team;
  team_id = text_or issue.team_id (text_or issue.team_name unknown_team);
}

-- The locals `tasks` and `seen`
pub record Flat : Type 0 where
  pub tasks : List EngTask
  pub seen : List Text

unfoldable pub add_issue : Flat → Issue → Flat
unfolding to_epm_eng_task
add_issue flat issue =
    let key = or_empty issue.key in
    if not (non_empty key)
    then flat
    else if includes key flat.seen
    then flat
    else record { tasks = flat.tasks ++ to_epm_eng_task issue ∷ []; seen = flat.seen ++ key ∷ [] }

-- `values.forEach(value => add(value))`
abbrev pub for_each {ℓ} : {A : Type ℓ} → (Flat → A → Flat) → Flat → List A → Flat
for_each add flat [] = flat
for_each add flat (x ∷ xs) = for_each add (add flat x) xs

unfoldable pub add_epic : Flat → EpicNode → Flat
unfolding add_issue
add_epic flat epic = for_each add_issue (add_issue flat epic.issue) epic.stories

unfoldable pub add_initiative : Flat → InitiativeNode → Flat
unfolding add_epic
add_initiative flat initiative =
    for_each add_issue (for_each add_epic (add_issue flat initiative.issue) initiative.epics)
      initiative.loose_stories

unfoldable pub add_tree : Flat → RollupTree → Flat
unfolding add_initiative
add_tree flat metadata_only = flat
add_tree flat empty_rollup = flat
add_tree flat (tree cut queries initiatives root_epics orphans) =
    for_each add_issue (for_each add_epic (for_each add_initiative flat initiatives) root_epics)
      orphans

unfoldable pub flatten_epm_rollup_boards_for_dependencies : List Board → List EngTask
unfolding add_tree
flatten_epm_rollup_boards_for_dependencies boards =
    (for_each (λ flat b. add_tree flat b.tree) (record { tasks = []; seen = [] }) boards).tasks
