-- ===== src/DependencyFocus/Tests.antt =====
-- A focus on the issues that block an issue.
use jira_execution_planner.Base.{ℕ, ◌≡◌, refl, none, some, List, [], ◌∷◌}
use jira_execution_planner.Base.Lists.{unique_from}
use jira_execution_planner.Base.Text.{Text, text, text_beq, text_equality}
use jira_execution_planner.Base.Dict.{Dict, lookup}
use jira_execution_planner.DependencyFocus.{
  DependencyEntry, get_block_other_key, bucket_of, build_block_link_buckets, unique_entries_from,
  build_dependency_keys, build_block_keys, build_focus_keys, FocusPayload,
  build_dependency_focus_payload,
}
use jira_execution_planner.DependencyFocus.Payload.{IsFocus, payload-IsFocus}

program : Unit {0}
unfolding text_beq unique_from lookup get_block_other_key bucket_of build_block_link_buckets
    unique_entries_from build_dependency_keys build_block_keys build_focus_keys
    build_dependency_focus_payload
program = tt

abbrev block : Text → Text → DependencyEntry
block prereq dependent = record {
  key = some prereq;
  prereq_key = some prereq;
  dependent_key = some dependent;
  category = some (text "block");
  direction = none;
}

abbrev links : Dict (List DependencyEntry)
links =
    (
      text "A-1",
      block (text "B-2") (text "A-1")
          ∷ block (text "C-3") (text "A-1")
          ∷ block (text "B-2") (text "A-1")
          ∷ [],
    )
    ∷ []

abbrev loaded : Dict ℕ
loaded = (text "B-2", 2) ∷ []

abbrev focus : FocusPayload
focus = record {
  task_key = text "A-1";
  action = text "blocked-by";
  related_keys = text "A-1" ∷ text "B-2" ∷ text "C-3" ∷ [];
  dependency_keys = text "B-2" ∷ text "C-3" ∷ [];
  missing_keys = text "C-3" ∷ [];
}

build-focus :
    build_dependency_focus_payload (text "A-1") (text "blocked-by") links loaded ≡ some focus
unfolding program
build-focus = refl

payload-IsFocus_example : IsFocus links loaded focus
payload-IsFocus_example =
    payload-IsFocus (text "A-1") (text "blocked-by") links loaded focus build-focus
