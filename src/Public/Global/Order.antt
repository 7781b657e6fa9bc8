-- ===== src/Public/Global/Order.antt =====
-- The order of the global list tells entries with different ids apart.
use diarion_core.Prelude.{
  ◌≡◌, ◌≢◌, inl, inr, true, false, Option, none, some, List, [], ◌∷◌, arith, ◌==◌, All, All-map,
  Bool-cases,
}
use diarion_core.Db.Models.{Agent, Entry}
use diarion_core.Db.Table.{first_where}
use diarion_core.Db.Table.Sorted.{IsStrict, Apart, AllApart}
use diarion_core.Db.Entries.Bin.{EntryWithAgent, join_agent, join_agents}
use diarion_core.Db.Feeds.{newer}

newer_trans : (x y z : EntryWithAgent) → newer x y ≡ true → newer y z ≡ true → newer x z ≡ true
unfolding newer
newer_trans x y z e f = ground arith

newer_asym : (x y : EntryWithAgent) → newer x y ≡ true → newer y x ≡ false
unfolding newer
newer_asym x y e = ground arith

pub newer-IsStrict : IsStrict newer
newer-IsStrict = record { trans = newer_trans; asym = newer_asym }

-- No two entries have one id.
abbrev pub DistinctIds : List Entry → Type 0
DistinctIds [] = Unit
DistinctIds (e ∷ es) = All (λ f. e.id ≢ f.id) es × DistinctIds es

newer-Apart : (x y : EntryWithAgent) → x.entry.id ≢ y.entry.id → Apart newer x y
unfolding newer
newer-Apart x y n = elim (Bool-cases (newer x y)) [ inl e ↦ inl e | inr e ↦ inr (ground arith) ]

pub All-join_agents :
    (P : Entry → Type 0) (agents : List Agent) (es : List Entry)
    → All P es
    → All (λ r. P r.entry) (join_agents agents es)
unfolding join_agents
All-join_agents P agents [] h = tt
All-join_agents P agents (e ∷ es) (pe, h) =
    joined (first_where (λ a. a.id == e.agent_id) agents) (All-join_agents P agents es h)
  where
    joined :
        (o : Option Agent)
        → All (λ r. P r.entry) (join_agents agents es)
        → All (λ r. P r.entry) (join_agent e o (join_agents agents es))
    joined none k = k
    joined (some a) k = (pe, k)

pub AllApart-join_agents :
    (agents : List Agent) (es : List Entry)
    → DistinctIds es
    → AllApart newer (join_agents agents es)
unfolding join_agents
AllApart-join_agents agents [] h = tt
AllApart-join_agents agents (e ∷ es) (d, h) =
    joined (first_where (λ a. a.id == e.agent_id) agents) (AllApart-join_agents agents es h)
  where
    joined :
        (o : Option Agent)
        → AllApart newer (join_agents agents es)
        → AllApart newer (join_agent e o (join_agents agents es))
    joined none k = k
    joined (some a) k = (
      All-map {P = λ r. e.id ≢ r.entry.id} {Q = Apart newer (record { entry = e; agent = a })}
          (λ r n. newer-Apart (record { entry = e; agent = a }) r n) (join_agents agents es)
          (All-join_agents (λ f. e.id ≢ f.id) agents es d),
      k,
    )
