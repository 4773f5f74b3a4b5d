-- ===== src/Groups/Clean.antt =====
-- The drafts after a save.
use jira_execution_planner.Base.{
  ◌≡◌, refl, ap, Bool, Bool-cases, inl, inr, if◌then◌else◌, true, false, not, Option, none, some,
  List, [], ◌∷◌, map, arith,
}
use jira_execution_planner.Base.Lists.{filter, non_empty, All, All-unique_from, All_of_includes}
use jira_execution_planner.Base.Text.{
  Text, text_beq_iff, text_equality, trim, trimmed, trim_idem, or_empty,
}
use jira_execution_planner.Planning.Teams.Sanitize.{ids_equal_refl}
use jira_execution_planner.Planning.State.Normal.{IsKey, filter-IsKey}
use jira_execution_planner.Planning.Teams.Sanitize.{ids_equal_sound}
use jira_execution_planner.Groups.{
  GroupsConfig, unique_ids, effective_visible_group_ids, visible_groups_for_controls,
  resolve_visible_active_group_id,
}
use jira_execution_planner.Groups.Visible.{IsOneOf, resolve-IsOneOf, IsOffered, resolve-IsOffered}
use jira_execution_planner.Groups.Drafts.{
  Signature, same_id, same_signature, Drafts, id_or, is_dirty, memo_for, render, draft_signature,
  differs,
}
use jira_execution_planner.Groups.Drafts.Saves.{persist_locally}

trimmed-fixed : (ids : List (Option Text)) → All (λ k. trim k ≡ k) (map trimmed ids)
unfolding trimmed
trimmed-fixed [] = tt
trimmed-fixed (id ∷ ids) = (trim_idem (or_empty id), trimmed-fixed ids)

unique_ids-IsKey : (ids : Option (List (Option Text))) → All IsKey (unique_ids ids)
unfolding unique_ids
unique_ids-IsKey none = tt
unique_ids-IsKey (some ids) =
    All-unique_from IsKey [] (filter non_empty (map trimmed ids))
      (filter-IsKey (map trimmed ids) (trimmed-fixed ids))

-- An active group that was resolved stays, whatever is active otherwise.
resolve-stays :
    (config : GroupsConfig) (visible : Option (List (Option Text))) (o other : Option Text)
    → IsOneOf (unique_ids visible) o
    → resolve_visible_active_group_id config visible (id_or o other) ≡ o
unfolding resolve_visible_active_group_id trimmed
resolve-stays config visible none other h = rw h (ground arith)
resolve-stays config visible (some id) other h =
    let k = All_of_includes IsKey id (unique_ids visible) (unique_ids-IsKey visible) h in
    rw k.filled (rw (k.trimmed_key, k.filled, h) refl)

same_id_refl : (o : Option Text) → same_id o o ≡ true
same_id_refl none = refl
same_id_refl (some t) = (text_beq_iff t t).1 refl

same_id_sound : (o p : Option Text) → same_id o p ≡ true → o ≡ p
same_id_sound none none h = refl
same_id_sound none (some t) h = absurd (ground arith)
same_id_sound (some s) none h = absurd (ground arith)
same_id_sound (some s) (some t) h = ap (λ x. some x) ((text_beq_iff s t).0 h)

same_signature-same :
    (s u t : Signature) → same_signature s u ≡ true → same_signature t u ≡ same_signature t s
unfolding same_signature
same_signature-same s u t h =
    rw (ids_equal_sound s.ids u.ids (ground arith), same_id_sound s.active u.active (ground arith))
      refl

memo_for-signature :
    (memo : Option (Signature × Bool)) (baseline : Option Signature) (s t : Signature)
    → same_signature t (memo_for memo baseline s).0 ≡ same_signature t s
memo_for-signature none baseline s t = refl
memo_for-signature (some memo) baseline s t = elim (Bool-cases (same_signature s memo.0)) [
  | inl e ↦ rw e (same_signature-same s memo.0 t e)
  | inr e ↦ rw e refl
]

-- What a render leaves after one that left the memo for `s`.
memo_for-value :
    (memo : Option (Signature × Bool)) (before : Option Signature) (s : Signature)
    (baseline : Option Signature) (t : Signature)
    → differs baseline t ≡ false
    → (memo_for (some (memo_for memo before s)) baseline t).1
      ≡ (if same_signature t s then (memo_for memo before s).1 else false)
memo_for-value memo before s baseline t clean =
    rw (memo_for-signature memo before s t) (ground (arith, clean))

same_signature_refl : (s : Signature) → same_signature s s ≡ true
unfolding same_signature
same_signature_refl s = ground (arith, ids_equal_refl s.ids, same_id_refl s.active)

-- After a save without a backend and the next render, the controls offer the active group under
-- the new preferences, or none if they offer none; whatever the draft held, and whatever was
-- active. If the save changed the signature of the draft, the draft is not dirty; if not, it is
-- dirty exactly if it was before.
pub persist_locally-IsOffered :
    (config : GroupsConfig) (draft : Drafts)
    → let d = render draft in
      let after = render (persist_locally config d) in
      IsOffered (visible_groups_for_controls config after.preferences) after.active_group_id
      × (is_dirty after ≡ (
          if same_signature (draft_signature after) (draft_signature d) then is_dirty d else false))
unfolding persist_locally is_dirty render effective_visible_group_ids
persist_locally-IsOffered config draft =
    let d = render draft in
    let after = persist_locally config d in
    let stays : after.active_group_id ≡ after.preferences.active_group_id =
      resolve-stays config after.preferences.effective_visible_group_ids _ d.active_group_id
        (resolve-IsOneOf config after.preferences.effective_visible_group_ids _) in
    let clean : differs after.baseline (draft_signature after) ≡ false =
      rw stays (ap not (same_signature_refl _)) in
    (
      resolve-IsOffered config after.preferences _,
      memo_for-value draft.memo draft.baseline (draft_signature draft) after.baseline
          (draft_signature after) clean,
    )
