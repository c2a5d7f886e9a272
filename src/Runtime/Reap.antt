-- ===== src/Runtime/Reap.antt =====
-- Reaping the containers of earlier generations before a start (`_reap`, `_stale_names` and
-- `_reap_earlier_generations` in spark_pulse/tools/native_runtime.py).
use spark_pulse.Prelude.{
  ℕ, String, Bool, true, false, List, [], ◌∷◌, ◌++◌, str_eq, any, if◌then◌else◌,
}
use spark_pulse.Runtime.Nodes.{
  Answer, got, raised, Container, Event, resolved, stopped, looked, listed, History, Nodes,
  is_confirmed_gone, confirm_gone,
}
use spark_pulse.Runtime.Lifecycle.{World}
use spark_pulse.Runtime.Flow.{native, foreign, Outcome, done, broke, ◌>>=◌}
use spark_pulse.Runtime.Plan.{RankPlan, Plan}
use spark_pulse.Runtime.Agents.{Managed, Agents, Message, list_failed, not_gone}

abbrev pub noted : Event → World → World
noted e w = record w { history = e ∷ w.history }

-- `services(address)`
abbrev pub judge_service : String → Answer (Unit {0}) → World → Outcome (Unit {0})
judge_service node (got u) w = done (tt, noted (resolved node (got u)) w)
judge_service node (raised e) w = broke (foreign e) (noted (resolved node (raised e)) w)

unfoldable pub service : Nodes → String → World → Outcome (Unit {0})
service N node w = judge_service node (N.resolve w.history node) w

module _ (say : Message → String) (N : Nodes) (A : Agents) where
  -- `_reap`: a leftover is stopped, and waited for until there is evidence that it is gone.
  abbrev pub judge_reaped :
      (node name : String) → World → Answer Bool × History → Outcome (Unit {0})
  judge_reaped node name w (got true, h) = done (tt, record w { history = h })
  judge_reaped node name w (got false, h) =
      broke (native (say (not_gone name node))) (record w { history = h })
  judge_reaped node name w (raised e, h) = broke (foreign e) (record w { history = h })

  abbrev pub judge_reap : (node name : String) → Answer (Unit {0}) → World → Outcome (Unit {0})
  judge_reap node name (raised e) w = broke (foreign e) (noted (stopped node name (raised e)) w)
  judge_reap node name (got u) w =
      let asked = noted (stopped node name (got u)) w in
      judge_reaped node name asked (confirm_gone N node name asked.history)

  unfoldable pub reap : (node name : String) → World → Outcome (Unit {0})
  unfolding confirm_gone
  reap node name w = judge_reap node name (N.stop w.history node name) w

  -- The containers of another generation.
  abbrev pub stale_of : String → List Managed → List String
  stale_of current [] = []
  stale_of current (c ∷ cs) =
      let rest = stale_of current cs in if str_eq c.generation current then rest else c.name ∷ rest

  -- Anything short of confirmed gone counts as present; a status that raises does not.
  abbrev pub add_present : String → Answer Container → List String → List String
  add_present name (raised e) names = names
  add_present name (got c) names = if is_confirmed_gone c then names else names ++ name ∷ []

  abbrev pub add_target : (node name : String) → List String → World → Outcome (List String)
  add_target node name names w =
      if any (λ n. str_eq n name) names
      then done (names, w)
      else done (
        add_present name (N.status w.history node name) names,
        noted (looked node name (N.status w.history node name)) w,
      )

  abbrev pub judge_listed :
      (node name current : String) → Answer (List Managed) → World → Outcome (List String)
  judge_listed node name current (raised e) w =
      broke (native (say (list_failed node e))) (noted (listed node) w)
  judge_listed node name current (got cs) w =
      add_target node name (stale_of current cs) (noted (listed node) w)

  -- `_stale_names`; `current` is the text of the plan's generation.
  unfoldable pub stale_names : (current : String) → RankPlan → World → Outcome (List String)
  unfolding is_confirmed_gone
  stale_names current r w =
      judge_listed r.entry.node r.entry.container_name current
        (A.list_managed w.history r.entry.node) w

  unfoldable pub reap_each : String → List String → World → Outcome (Unit {0})
  reap_each node [] w = done (tt, w)
  reap_each node (name ∷ names) w = do a ← reap node name w; reap_each node names a.1

  unfoldable pub reap_ranks : String → List RankPlan → World → Outcome (Unit {0})
  reap_ranks current [] w = done (tt, w)
  reap_ranks current (r ∷ rs) w = do
    a ← service N r.entry.node w
    b ← stale_names current r a.1
    c ← reap_each r.entry.node b.0 b.1
    reap_ranks current rs c.1

  -- `_reap_earlier_generations`
  unfoldable pub reap_earlier_generations :
      (text_of : ℕ → String) → Plan → World → Outcome (Unit {0})
  unfolding reap_ranks
  reap_earlier_generations text_of p w = reap_ranks (text_of p.generation) p.rank_plans w
