-- ===== src/Db/Agents/Inserted.antt =====
-- Whose agent an INSERT into agents stores.
use diarion_core.Prelude.{◌≡◌, ◌==◌, any, Bool-cases, inl, inr}
use diarion_core.Prelude.Result.{ok}
use diarion_core.Db.Models.{Db, Time, Agent}
use diarion_core.Db.Agents.{InsertAgentParams, has_custody, same_handle, insert_agent}

pub insert_agent-owner :
    (arg : InsertAgentParams) (now : Time) (db : Db) {a : Agent} {db' : Db}
    → insert_agent arg now db ≡ (ok a, db')
    → a.owner_id ≡ arg.owner_id
unfolding insert_agent
insert_agent-owner arg now db h = elim (Bool-cases (has_custody arg.key_custody)) [
  | inr c ↦ let k = rw c at h in cc
  | inl c ↦ elim (Bool-cases (any (same_handle arg.handle) db.agents)) [
    | inl t ↦ let k = rw (c, t) at h in cc
    | inr t ↦ elim (Bool-cases (any (λ u. u.id == arg.owner_id) db.users)) [
      | inl o ↦ let k = rw (c, t, o) at h in cc
      | inr o ↦ let k = rw (c, t, o) at h in cc
    ]
  ]
]
