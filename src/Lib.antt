-- ===== src/Lib.antt =====
-- The decision logic of the Jira execution planner's dashboard (frontend/src), and what is proved
-- of it.
--
-- The dashboard is a React page over a Flask server. Its components keep their decisions in small
-- JavaScript modules without React or the DOM; those are modelled here, each in the module named
-- for it:
--
--   MutationQueue  frontend/src/eng/engIssueMutationQueue.js: the bounded queue of writes to Jira.
--                  `Queue` holds the closure's variables and the histories of accepted and started
--                  jobs; a step is an accepted call or a promise chain that settles.
--   Planning       Teams: frontend/src/teamSelectionUtils.mjs, the teams that a scope offers.
--                  State: frontend/src/planningSelectionState.mjs, the state stored per scope.
--                  Selection: frontend/src/eng/planningSelectionActions.js, the handlers; they use
--                  the maps of the selection, Teams and State, and write to the storage. Hydrate: the
--                  effect of frontend/src/dashboard.jsx that shows a loaded selection and captures
--                  the baseline of undo.
--   EngTasks       frontend/src/eng/engTaskUtils.js: grouping, filters and orders of tasks and epics.
--   AuthRefresh    frontend/src/api/authFocusRefresh.js and authRefreshContract.js: the refresh of
--                  the session when a tab gets the focus. The async function is cut at its awaits,
--                  and any events may come between.
--   Groups         frontend/src/settings/groupVisibilityUtils.js, groupConfigUtils.js (the
--                  normalisation, new ids and the toggle), sharedExcludedCapacityToggle.js (Save, cut at
--                  its request) and useGroupVisibilityPreferences.js (Drafts, cut likewise; a memo of
--                  React keeps its value until a render finds its dependencies changed).
--   ProjectTrack   frontend/src/eng/engProjectTrackTransitionUtils.js, and Control:
--                  useEngProjectTrackTransitions.js beside it, the hook of the project-track menu
--                  as a step relation; its writes go through the mutation queue.
--   IssueStatus    frontend/src/eng/engStatusTransitionUtils.js: the issues of a batch status change
--                  and the summary of its results; bucketCount of frontend/src/analytics/events.js.
--   PriorityScheme frontend/src/eng/engPriorityTransitionUtils.js, and Cache: the cache of priority
--                  schemes in useEngPriorityTransitions.js beside it, which all mounts share, as
--                  the states that loads, answers and clearings can reach.
--   SprintData     frontend/src/eng/useEngSprintData.js. Requests and Fetch: `fetchTasks`, as a
--                  function of the answers that its requests get. Loads: the loads of both projects, which end in
--                  any order, with the resets of their marks in frontend/src/dashboard.jsx.
--   PlanningStats  frontend/src/capacityClassification.mjs and
--                  frontend/src/eng/planningSelectionStats.js: the classes of capacity and the sums
--                  of story points. The numbers are a parameter with a zero and an addition, of
--                  which no law is used.
--   FuturePlanning frontend/src/futurePlanningTeamUtils.mjs, and Stories:
--                  frontend/src/futurePlanningNeedsStories.mjs, which takes the teams that the first one finds.
--   Backlog        frontend/src/backlogAlertSprintUtils.mjs: the sprints that an issue names, in
--                  values nested to any depth, and the epics of the backlog.
--   Scenario       frontend/src/scenario/scenarioUtils.js and scenarioLaneUtils.js: the undo stack,
--                  the dates of bars, segments, dependency violations and capacity rows.
--   DependencyFocus  frontend/src/issues/dependencyFocusUtils.js: the keys that a focus on the
--                  dependencies of an issue relates.
--   Epm            frontend/src/epm/epmProjectUtils.mjs: the rollup tree of a project, whose set of
--                  seen keys is passed along (Tree, Complete); its progress, the flat list of tasks,
--                  the order and the search of boards, dates and tabs, the selection of sub-goals,
--                  and the table of projects in the settings. `localeCompare`, `Date.UTC`,
--                  the day of `now`, and the arithmetic of story points, of which no law is used,
--                  are parameters.
--   Base           what the code uses of JavaScript: arrays and sets (Lists), strings (Text), objects
--                  and maps (Dict), stable sorting (Sort,
--                  Comparator, Indexed).
--
-- The conventions. A string is a list of UTF-16 code units; `trim` removes the white space of
-- ECMAScript; upper and lower case are those of the ASCII letters. A value that may be missing is
-- an Option. An object used as a map is an association list in insertion order (JavaScript lists
-- keys that read as array indices first; no theorem but those that name an order depends on it).
-- Functions that the code gets as arguments (status normalisation, readers of team info) and the
-- browser's `Date` are parameters. Numbers are natural numbers; a subtraction or comparison that
-- could be negative is written so that the natural numbers give the same answer.
--
-- The fuel. The loop of `drain` runs on the number of pending jobs plus one: each round takes a
-- job from `pending`, and Progress shows that the loop ends by one of its own exits. `decimal`
-- has fuel `n + 1`, more than a number has digits. `buildGroupId` has as many rounds as
-- there are ids and one more: NewId shows that it finds a free one. The loop that takes stars off a
-- label prefix has the length of the text. All other loops are structural.
--
-- What is not modelled. The React components (frontend/src/dashboard.jsx, but for the effects named
-- above, and the other .jsx files) render and wire; frontend/src/api wraps fetch; frontend/src/analytics sends events. The Python
-- server is another program. Statistics, cohorts and conversions between pixels and dates compute
-- with floating point. Left out as well: the hook of status transitions and the state of the hook of
-- priorities, whose shape is that of ProjectTrack; the assembly of analytics parameters; the stored team selection; the capacity of a sprint; the building
-- of JQL for exports; the view of EPM projects beyond epmProjectUtils.mjs, and of that file the texts of
-- the update line, the group of an epic with its points read by parseFloat, the label of a sort and the
-- display name of a sub-goal; and lanes.
pub mod Base
pub mod Backlog
pub mod MutationQueue
pub mod Planning
pub mod EngTasks
pub mod AuthRefresh
pub mod Groups
pub mod Scenario
pub mod DependencyFocus
pub mod ProjectTrack
pub mod FuturePlanning
pub mod IssueStatus
pub mod PlanningStats
pub mod PriorityScheme
pub mod SprintData
pub mod Epm
