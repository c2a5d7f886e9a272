-- ===== src/Runtime/Sweep.antt =====
-- `sweep_orphans`: the other half of releasing on evidence.
use spark_pulse.Prelude.{
  ℕ, ◌+◌, ◌-◌, String, Bool, true, false, not, ◌&&◌, List, [], ◌∷◌, length, truthy, str_eq,
  if◌then◌else◌, ◌==◌,
}
use spark_pulse.Records.{Deployment, Orphan, Result, ok, ◌>>=◌, Redactor, load, save}
use spark_pulse.Runtime.Nodes.{
  Answer, got, raised, Container, unknown, resolved, looked, stopped, History, Nodes,
  is_confirmed_gone,
}
use spark_pulse.Runtime.Lifecycle.{World}

-- Whether the container is confirmed gone, with the history after the questions.
abbrev pub Verdict : Type 0
Verdict = Bool × History

abbrev pub judge_again : String → String → Answer Container → History → Verdict
judge_again node name (raised e) h = (false, looked node name (raised e) ∷ h)
judge_again node name (got c) h = (is_confirmed_gone c, looked node name (got c) ∷ h)

abbrev pub judge_retry : Nodes → String → String → Answer (Unit {0}) → History → Verdict
judge_retry N node name (raised e) h = (false, stopped node name (raised e) ∷ h)
judge_retry N node name (got u) h =
    let asked = stopped node name (got u) ∷ h in
    judge_again node name (N.status asked node name) asked

abbrev is_unknown : Container → Bool
is_unknown unknown = true
is_unknown _ = false

-- The node answered and the container is still there: the removal is asked for again.
abbrev pub judge_look : Nodes → String → String → Answer Container → History → Verdict
judge_look N node name (raised e) h = (false, looked node name (raised e) ∷ h)
judge_look N node name (got c) h =
    let seen = looked node name (got c) ∷ h in
    if not (is_confirmed_gone c) && not (is_unknown c)
    then judge_retry N node name (N.stop seen node name) seen
    else (is_confirmed_gone c, seen)

abbrev pub judge_node : Nodes → String → String → Answer (Unit {0}) → History → Verdict
judge_node N node name (raised e) h = (false, resolved node (raised e) ∷ h)
judge_node N node name (got u) h =
    let here = resolved node (got u) ∷ h in judge_look N node name (N.status here node name) here

-- One round of the loop over the orphans of a record.
unfoldable pub check_orphan : Nodes → Orphan → History → Verdict
unfolding is_confirmed_gone
check_orphan N o h = judge_node N o.node o.container_name (N.resolve h o.node) h

-- The orphans that remain.
unfoldable pub check_orphans : Nodes → List Orphan → History → List Orphan × History
unfolding check_orphan
check_orphans N [] h = ([], h)
check_orphans N (o ∷ os) h =
    let (gone, mid) = check_orphan N o h in
    let (remaining, after) = check_orphans N os mid in
    (if gone then remaining else o ∷ remaining, after)

-- How many orphans were cleared, and the records.
unfoldable pub sweep_records :
    Nodes → String → List Deployment → History → ℕ × (List Deployment × History)
unfolding check_orphans
sweep_records N only [] h = (0, ([], h))
sweep_records N only (r ∷ rs) h =
    let mine = not (truthy only && not (str_eq r.id only)) in
    let (remaining, mid) = check_orphans N r.orphans h in
    let (n, (others, after)) = sweep_records N only rs (if mine then mid else h) in
    if mine
    then (
      (length r.orphans - length remaining) + n,
      (record r { orphans = remaining } ∷ others, after),
    )
    else (n, (r ∷ others, after))

-- `sweep_orphans`, of one deployment, or of all of them for "".
unfoldable pub sweep_orphans : Redactor → Nodes → String → World → Result (ℕ × World)
unfolding sweep_records
sweep_orphans R N only w = do
  l ← load R w.store
  let swept = sweep_records N only l.0 w.history
  let looked = record w { store = l.1; history = swept.1.1 }
  ok (swept.0, if swept.0 == 0 then looked else record looked { store = save swept.1.0 l.1 })
