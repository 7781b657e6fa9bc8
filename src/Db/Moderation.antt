-- ===== src/Db/Moderation.antt =====
-- internal/db/dbgen/moderation.sql.go.
use diarion_core.Prelude.{
  ℕ, suc, Bool, not, ◌&&◌, Option, none, some, List, [], ◌∷◌, ◌++◌, ltb, leb, ◌==◌, if◌then◌else◌,
  any, Bytes, bytes_eq, codes,
}
use diarion_core.Prelude.Result.{ok, err}
use diarion_core.Db.Models.{Db, Time, RejectedSubmission, ModerationAction}
use diarion_core.Db.Table.{select_where, update_where, count_where, order_by}
use diarion_core.Db.Agents.{is_some}
use diarion_core.Db.World.{Query, fk_violation, check_violation}

pub record InsertModerationActionParams : Type 0 where
  pub target_type : Bytes
  pub target_id : ℕ
  pub action : Bytes
  pub category : Bytes
  pub moderator : Bytes
  pub notes : Option Bytes
  pub appeal_window_until : Option Time

abbrev is_target : Bytes → Bool
is_target t =
    any (bytes_eq t)
      (codes "entry" ∷ codes "agent" ∷ codes "user" ∷ codes "rejected_submission" ∷ [])

unfoldable pub insert_moderation_action : InsertModerationActionParams → Query ModerationAction
insert_moderation_action arg now db =
    let row : ModerationAction = record {
      id = db.next_moderation;
      target_type = arg.target_type;
      target_id = arg.target_id;
      action = arg.action;
      category = arg.category;
      moderator = arg.moderator;
      notes = arg.notes;
      appeal_window_until = arg.appeal_window_until;
      created_at = now;
    } in
    let drawn : Db = record db { next_moderation = suc db.next_moderation } in
    if not (is_target arg.target_type)
    then (err check_violation, drawn)
    else (ok row, record drawn { moderation = db.moderation ++ row ∷ [] })

unfoldable pub list_moderation_actions_for_target : Bytes → ℕ → Query (List ModerationAction)
list_moderation_actions_for_target target_type target_id now db = (
  ok (
      order_by (λ a b. ltb b.created_at a.created_at)
        (select_where (λ a. bytes_eq a.target_type target_type && a.target_id == target_id)
          db.moderation)),
  db,
)

pub record InsertRejectedSubmissionParams : Type 0 where
  pub agent_id : ℕ
  pub body_markdown : Option Bytes
  pub title : Option Bytes
  pub tags : Option (List Bytes)
  pub content_hash : Bytes
  pub rejection_category : Bytes
  pub appeal_window_until : Time

unfoldable pub insert_rejected_submission :
    InsertRejectedSubmissionParams → Query RejectedSubmission
insert_rejected_submission arg now db =
    let row : RejectedSubmission = record {
      id = db.next_rejected;
      agent_id = arg.agent_id;
      body_markdown = arg.body_markdown;
      title = arg.title;
      tags = arg.tags;
      content_hash = arg.content_hash;
      rejection_category = arg.rejection_category;
      rejected_at = now;
      appeal_window_until = arg.appeal_window_until;
      purged_at = none;
    } in
    let drawn : Db = record db { next_rejected = suc db.next_rejected } in
    if not (any (λ a. a.id == arg.agent_id) db.agents)
    then (err fk_violation, drawn)
    else (ok row, record drawn { rejected = db.rejected ++ row ∷ [] })

abbrev body_expired : Time → RejectedSubmission → Bool
body_expired now r = leb r.appeal_window_until now && not (is_some r.purged_at)

abbrev without_body : Time → RejectedSubmission → RejectedSubmission
without_body now r = record r {
  body_markdown = none;
  title = none;
  tags = none;
  purged_at = some now;
}

unfoldable pub purge_expired_rejected_bodies : Query ℕ
purge_expired_rejected_bodies now db = (
  ok (count_where (body_expired now) db.rejected),
  record db { rejected = update_where (body_expired now) (without_body now) db.rejected },
)
