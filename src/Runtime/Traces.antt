-- ===== src/Runtime/Traces.antt =====
-- How the history of the nodes grows.
use spark_pulse.Prelude.{
  ℕ, zero, suc, ◌≤◌, String, Bool, true, false, none, List, [], ◌∷◌, arith, truthy, if◌then◌else◌,
}
use spark_pulse.Records.{Rank}
use spark_pulse.Runtime.Nodes.{
  Answer, got, raised, Container, missing, unknown, running, created, other, Event, resolved,
  stopped, looked, read_logs, History, Nodes, is_confirmed_gone, judge, confirm_loop, confirm_gone,
  final_logs,
}
use spark_pulse.Runtime.Teardown.{
  Torn, judge_gone, judge_stop, judge_resolve, teardown_entry, teardown_rank, by_rank,
  teardown_each, teardown_entries,
}
use spark_pulse.Runtime.Evidence.{evidence}
use spark_pulse.Runtime.Outcomes.{IsQuiet}

-- The second history is the first with newer events, each with the property.
pub data Grows (P : Event → Type 0) (h : History) : History → Type 0 where
  same : Grows P h h
  more : {t : History} → (e : Event) → P e → Grows P h t → Grows P h (e ∷ t)

pub Grows-weaken :
    (P Q : Event → Type 0) → ((e : Event) → P e → Q e) → (h t : History) → Grows P h t → Grows Q h t
Grows-weaken P Q f h _ same = same
Grows-weaken P Q f h _ (more {t} e p g) = more e (f e p) (Grows-weaken P Q f h t g)

pub Grows-trans : (P : Event → Type 0) (h t u : History) → Grows P h t → Grows P t u → Grows P h u
Grows-trans P h t _ g same = g
Grows-trans P h t _ g (more {t = u} e p k) = more e p (Grows-trans P h t u g k)

pub Grows-evidence :
    (P : Event → Type 0) (a b : String) (h t : History)
    → Grows P h t
    → evidence a b h ≤ evidence a b t
unfolding evidence
Grows-evidence P a b h _ same = omega arith
Grows-evidence P a b h _ (more {t} e p g) = ground (arith, Grows-evidence P a b h t g)

-- A teardown asks quiet questions only.
module _ (N : Nodes) (h : History) where
  Q : History → Type 0
  Q t = Grows IsQuiet h t

  judge-IsQuiet :
      (c : Answer Container) (t : History) (later : Answer Bool × History)
      → Q t
      → Q later.1
      → Q (judge c t later).1
  unfolding Q is_confirmed_gone
  judge-IsQuiet (raised e) t later now after = now
  judge-IsQuiet (got missing) t later now after = now
  judge-IsQuiet (got unknown) t later now after = after
  judge-IsQuiet (got running) t later now after = after
  judge-IsQuiet (got created) t later now after = after
  judge-IsQuiet (got (other s)) t later now after = after

  confirm_loop-IsQuiet :
      (node name : String) (n : ℕ) (t : History) → Q t → Q (confirm_loop N node name n t).1
  unfolding Q confirm_loop
  confirm_loop-IsQuiet node name zero t g =
      let c = N.status t node name in
      let seen = looked node name c ∷ t in
      judge-IsQuiet c seen (got false, seen) (more (looked node name c) tt g)
        (more (looked node name c) tt g)
  confirm_loop-IsQuiet node name (suc n) t g =
      let c = N.status t node name in
      let seen = looked node name c ∷ t in
      let now = more (looked node name c) tt g in
      judge-IsQuiet c seen (confirm_loop N node name n seen) now
        (confirm_loop-IsQuiet node name n seen now)

  pub confirm_gone-IsQuiet :
      (node name : String) (t : History)
      → Grows IsQuiet h t
      → Grows IsQuiet h (confirm_gone N node name t).1
  unfolding Q confirm_gone
  confirm_gone-IsQuiet node name t g = confirm_loop-IsQuiet node name (N.looks t node name) t g

  judge_gone-IsQuiet :
      (r : Rank) (logs : String) (x : Answer Bool × History)
      → Q x.1
      → Q (judge_gone N r logs x).history
  unfolding Q
  judge_gone-IsQuiet r logs (raised e, t) g = g
  judge_gone-IsQuiet r logs (got true, t) g = g
  judge_gone-IsQuiet r logs (got false, t) g = g

  judge_stop-IsQuiet :
      (r : Rank) (logs : String) (x : Answer (Unit {0})) (t : History)
      → Q t
      → Q (judge_stop N r logs x t).history
  unfolding Q
  judge_stop-IsQuiet r logs (raised e) t g = g
  judge_stop-IsQuiet r logs (got u) t g =
      judge_gone-IsQuiet r logs (confirm_gone N r.node r.container_name t)
        (confirm_gone-IsQuiet r.node r.container_name t g)

  either-IsQuiet :
      (c : Bool) (torn : Torn) (t : History)
      → Q torn.history
      → Q t
      → Q (if c then torn else record { orphan = none; logs = ""; history = t }).history
  either-IsQuiet true torn t g k = g
  either-IsQuiet false torn t g k = k

  teardown_entry-IsQuiet : (r : Rank) (t : History) → Q t → Q (teardown_entry N r t).history
  unfolding Q teardown_entry final_logs
  teardown_entry-IsQuiet r t g =
      let name = r.container_name in
      let (logs, read) = final_logs N r.node name t in
      let answer = N.stop read r.node name in
      either-IsQuiet (truthy name) (judge_stop N r logs answer (stopped r.node name answer ∷ read))
        t
        (judge_stop-IsQuiet r logs answer (stopped r.node name answer ∷ read) (
          more (stopped r.node name answer) tt
            (more (read_logs r.node name (N.logs t r.node name)) tt g)))
        g

  judge_resolve-IsQuiet :
      (r : Rank) (x : Answer (Unit {0})) (t : History) → Q t → Q (judge_resolve N r x t).history
  unfolding Q
  judge_resolve-IsQuiet r (raised e) t g = g
  judge_resolve-IsQuiet r (got u) t g = teardown_entry-IsQuiet r t g

  teardown_each-IsQuiet : (rs : List Rank) (t : History) → Q t → Q (teardown_each N rs t).history
  unfolding Q teardown_each teardown_rank
  teardown_each-IsQuiet [] t g = g
  teardown_each-IsQuiet (r ∷ rs) t g =
      let x = N.resolve t r.node in
      teardown_each-IsQuiet rs (teardown_rank N r t).history
        (judge_resolve-IsQuiet r x (resolved r.node x ∷ t) (more (resolved r.node x) tt g))

  pub teardown-IsQuiet : (rs : List Rank) → Grows IsQuiet h (teardown_entries N rs h).history
  unfolding Q teardown_entries
  teardown-IsQuiet rs = teardown_each-IsQuiet (by_rank rs) h same
