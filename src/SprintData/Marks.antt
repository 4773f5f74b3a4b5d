-- ===== src/SprintData/Marks.antt =====
-- The marks of loaded sprints, in every order of answers.
use jira_execution_planner.Base.{
  ◌≡◌, refl, ap, subst, Bool, true, false, ◌&&◌, Option, none, some, List, [], ◌∷◌, arith,
  if◌then◌else◌, if_cases, Bool-cases, inl, inr,
}
use jira_execution_planner.Base.Lists.{any, non_empty}
use jira_execution_planner.Base.Text.{Text, text_beq_iff, or_empty}
use jira_execution_planner.SprintData.Requests.{Project, product, tech}
use jira_execution_planner.SprintData.Loads.{
  same_sprint, same_project, SprintLoad, Load, LoadState, mark, end_load, start_load, reset_marks,
  select_sprint, Reach, start, selected, reconfigured, started, loaded,
}

-- A load of the project for the sprint has ended since the last reset.
abbrev pub has_ended : Project → Option Text → List Load → Bool
has_ended kind sprint ended =
    any (λ (l : Load). same_project l.kind kind && same_sprint l.sprint sprint) ended

same_sprint_refl : (s : Option Text) → same_sprint s s ≡ true
same_sprint_refl none = refl
same_sprint_refl (some s) = (text_beq_iff s s).1 refl

same_sprint_sound : (s t : Option Text) → same_sprint s t ≡ true → s ≡ t
same_sprint_sound none none h = refl
same_sprint_sound none (some t) h = absurd (ground (arith, h))
same_sprint_sound (some s) none h = absurd (ground (arith, h))
same_sprint_sound (some s) (some t) h = ap some ((text_beq_iff s t).0 h)

-- Both loads of a sprint have ended, or none is recorded.
abbrev BothEnded : List Load → Option Text → Type 0
BothEnded ended none = Unit
BothEnded ended (some s) =
    (has_ended product (some s) ended ≡ true) × (has_ended tech (some s) ended ≡ true)

record AreMarksValid (marks : SprintLoad) (last_loaded : Option Text) (ended : List Load)
    : Type 0 where
  product_mark : marks.product_done ≡ true → has_ended product marks.sprint_id ended ≡ true
  tech_mark : marks.tech_done ≡ true → has_ended tech marks.sprint_id ended ≡ true
  last_mark : BothEnded ended last_loaded

BothEnded-cons :
    (l : Load) (ended : List Load) (last : Option Text)
    → BothEnded ended last
    → BothEnded (l ∷ ended) last
BothEnded-cons l ended none h = tt
BothEnded-cons l ended (some s) h = (ground (arith, h.0), ground (arith, h.1))

-- A mark that stays set stands for the same sprint.
kept :
    (kind : Project) (sprint : Option Text) (marks : SprintLoad) (done : Bool) (ended : List Load)
    → (done ≡ true → has_ended kind marks.sprint_id ended ≡ true)
    → (if same_sprint marks.sprint_id sprint then done else false) ≡ true
    → has_ended kind sprint ended ≡ true
kept kind sprint marks done ended h e = elim (Bool-cases (same_sprint marks.sprint_id sprint)) [
  | inl same ↦
      subst (λ s. has_ended kind s ended ≡ true) (same_sprint_sound marks.sprint_id sprint same)
        (h (ground (arith, e, same)))
  | inr other ↦ absurd (ground (arith, e, other))
]

marked-IsValid :
    (kind : Project) (sprint : Option Text) (marks : SprintLoad) (ended : List Load)
    → (marks.product_done ≡ true → has_ended product marks.sprint_id ended ≡ true)
    → (marks.tech_done ≡ true → has_ended tech marks.sprint_id ended ≡ true)
    → let new = mark kind sprint marks in
      let now = record { kind = kind; sprint = sprint } ∷ ended in
      (new.product_done ≡ true → has_ended product sprint now ≡ true)
      × (new.tech_done ≡ true → has_ended tech sprint now ≡ true)
unfolding mark
marked-IsValid product sprint marks ended p t =
    (λ e. ground (arith, same_sprint_refl sprint), kept tech sprint marks marks.tech_done ended t)
marked-IsValid tech sprint marks ended p t = (
  kept product sprint marks marks.product_done ended p,
  λ e. ground (arith, same_sprint_refl sprint),
)

last-BothEnded :
    (sprint last : Option Text) (product_done tech_done : Bool) (ended : List Load)
    → (product_done ≡ true → has_ended product sprint ended ≡ true)
    → (tech_done ≡ true → has_ended tech sprint ended ≡ true)
    → BothEnded ended last
    → BothEnded ended (if product_done && tech_done then sprint else last)
last-BothEnded none last true true ended p t h = tt
last-BothEnded (some s) last true true ended p t h = (p refl, t refl)
last-BothEnded sprint last true false ended p t h = h
last-BothEnded sprint last false tech_done ended p t h = h

module _ {T : Type 0} where
  abbrev IsValid : LoadState T → Type 0
  IsValid c = AreMarksValid c.sprint_load c.last_loaded c.ended

  ended-IsValid :
      (kind : Project) (sprint : Option Text) (tasks : List T) (c : LoadState T)
      → IsValid c
      → IsValid (end_load kind sprint tasks c)
  unfolding end_load mark
  ended-IsValid product sprint tasks c h =
      let l : Load = record { kind = product; sprint = sprint } in
      let (p, t) = marked-IsValid product sprint c.sprint_load c.ended h.product_mark h.tech_mark in
      record {
        product_mark = p;
        tech_mark = t;
        last_mark =
            last-BothEnded sprint c.last_loaded _ _ (l ∷ c.ended) p t
              (BothEnded-cons l c.ended c.last_loaded h.last_mark);
      }
  ended-IsValid tech sprint tasks c h =
      let l : Load = record { kind = tech; sprint = sprint } in
      let (p, t) = marked-IsValid tech sprint c.sprint_load c.ended h.product_mark h.tech_mark in
      record {
        product_mark = p;
        tech_mark = t;
        last_mark =
            last-BothEnded sprint c.last_loaded _ _ (l ∷ c.ended) p t
              (BothEnded-cons l c.ended c.last_loaded h.last_mark);
      }

  reset-IsValid : (c : LoadState T) → IsValid (reset_marks c)
  unfolding reset_marks
  reset-IsValid c = record { product_mark = λ e. cc; tech_mark = λ e. cc; last_mark = tt }

  started-IsValid :
      (kind : Project) (has_no_teams : Bool) (c : LoadState T)
      → IsValid c
      → IsValid (start_load kind has_no_teams c)
  unfolding start_load
  started-IsValid product true c h =
      ended-IsValid product c.selected_sprint [] (record c { product_loading = true }) h
  started-IsValid tech true c h =
      ended-IsValid tech c.selected_sprint [] (record c { tech_loading = true }) h
  started-IsValid product false c h = h
  started-IsValid tech false c h = h

  any-IsValid : (c : LoadState T) → Reach c → IsValid c
  unfolding select_sprint
  any-IsValid c start = record { product_mark = λ e. cc; tech_mark = λ e. cc; last_mark = tt }
  any-IsValid c (selected sprint c' r) =
      if_cases IsValid (non_empty (or_empty sprint)) (λ _. reset-IsValid _) (λ _. any-IsValid c' r)
  any-IsValid c (reconfigured c' r) = reset-IsValid c'
  any-IsValid c (started kind has_no_teams c' r) =
      started-IsValid kind has_no_teams c' (any-IsValid c' r)
  any-IsValid c (loaded before after l tasks c' e r) =
      ended-IsValid l.kind l.sprint tasks _ (any-IsValid c' r)

  -- In every state, in whatever order loads are started and answered and sprints selected: if a
  -- sprint is recorded as loaded, a load of its product tasks and a load of its tech tasks have
  -- ended since the marks were last reset.
  pub Reach-IsLoaded :
      (c : LoadState T) (sprint : Text)
      → Reach c
      → c.last_loaded ≡ some sprint
      → (has_ended product (some sprint) c.ended ≡ true)
        × (has_ended tech (some sprint) c.ended ≡ true)
  Reach-IsLoaded c sprint r e = subst (BothEnded c.ended) e (any-IsValid c r).last_mark
