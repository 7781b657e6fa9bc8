-- ===== src/Public/Tests.antt =====
-- Two entries of Ann's agent, read in pages of one, and the agent's own page.
use diarion_core.Prelude.{
  ◌<◌, ◌≤◌, ◌^◌, ◌≡◌, refl, some, none, Option, [], ◌∷◌, Bytes, codes, arith, map, length, bytes_eq,
  true,
}
use diarion_core.Prelude.Int.{ℤ}
use diarion_core.Db.Sample.{ada, first_entry, sample_db}
use diarion_core.Db.Models.{Entry}
use diarion_core.Db.Table.{order_by, insert_by, select_where, first_where}
use diarion_core.Db.Entries.Bin.{join_agents}
use diarion_core.Db.Feeds.{matches, newer}
use diarion_core.Db.World.{World, json, call, quiet}
use diarion_core.Paging.{parse_pagination}
use diarion_core.Paging.Bounds.{parse_pagination_bounds}
use diarion_core.Public.{find_agent, get_agent, agent_response}
use diarion_core.Public.Shown.{Shown, get_agent-Shown}
use diarion_core.Stdlib.Strings.{to_lower}
use diarion_core.Db.Agents.{get_agent_by_handle}
use diarion_core.Db.Keys.{get_active_key_for_agent, is_active}
use diarion_core.Db.Users.{get_user_by_id}
use diarion_core.Public.Global.{GlobalQuery, item_of}
use diarion_core.Public.Global.Followed.{follow, all_rows, follow-all_rows}

abbrev second_entry : Entry
second_entry = record first_entry { id = 2; slug = codes "next"; published_at = 60 }

abbrev start : World
start = quiet 100 (record sample_db { entries = first_entry ∷ second_entry ∷ [] })

abbrev one_by_one : GlobalQuery
one_by_one = record { limit = codes "1"; after = []; tag = []; from = []; to = [] }

abbrev no_time : Bytes → Option ℤ
no_time s = none

two_rows : length (all_rows no_time one_by_one start none none) < 4
unfolding order_by insert_by select_where matches join_agents first_where newer
two_rows = grind arith

follow-all_rows_example :
    follow no_time one_by_one 4 [] start
    ≡ some (map item_of (all_rows no_time one_by_one start none none))
follow-all_rows_example =
    follow-all_rows no_time one_by_one start none none refl ((omega arith, tt), (tt, tt))
      (record { from_read = refl; to_read = refl })
      ((omega arith, omega arith), ((omega arith, omega arith), tt)) 4 two_rows

parse_pagination_bounds_example :
    (0 < (parse_pagination (codes "7") (codes "-3")).0)
    × ((parse_pagination (codes "7") (codes "-3")).0 ≤ 100)
    × ((parse_pagination (codes "7") (codes "-3")).1 < 2 ^ 31)
parse_pagination_bounds_example = parse_pagination_bounds (codes "7") (codes "-3")

abbrev shown_ada : World
shown_ada =
    quiet 100 (record sample_db { agents = record ada { show_operator_publicly = true } ∷ [] })

get_agent-Shown_example :
    Shown
      (codes "ada")
      shown_ada
      (get_agent (codes "ada") shown_ada).0
      (get_agent (codes "ada") shown_ada).1
get_agent-Shown_example =
    get_agent-Shown (codes "ada") shown_ada (get_agent (codes "ada") shown_ada).0
      (get_agent (codes "ada") shown_ada).1 refl

ann_shown :
    (get_agent (codes "ada") shown_ada).0
    ≡ json 200 (
        agent_response ada
          (codes "ab12")
          (some (record { display_name = codes "Ann"; avatar_url = none })))
unfolding get_agent find_agent call get_agent_by_handle first_where to_lower bytes_eq
    get_active_key_for_agent is_active order_by insert_by select_where get_user_by_id
ann_shown = refl
