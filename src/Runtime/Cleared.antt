-- ===== src/Runtime/Cleared.antt =====
-- The evidence on which `sweep_orphans` of spark_pulse/tools/native_runtime.py clears an orphan.
use spark_pulse.Prelude.{
  ◌≤◌, ◌<◌, String, ◌≡◌, ◌⊎◌, inl, inr, refl, Bool, true, false, List, [], ◌∷◌, arith, eq_iff,
  if◌then◌else◌, All, Any,
}
use spark_pulse.Records.{Orphan}
use spark_pulse.Runtime.Nodes.{
  Answer, got, raised, Container, missing, unknown, running, created, other, resolved, looked,
  stopped, History, Nodes, is_confirmed_gone,
}
use spark_pulse.Runtime.Evidence.{evidence, look-evidence}
use spark_pulse.Runtime.Sweep.{
  Verdict, judge_again, judge_retry, judge_look, judge_node, check_orphan, check_orphans,
}

-- Questions take no evidence back, and a verdict of `true` rests on new evidence.
abbrev Rests : String → String → String → String → History → Verdict → Type 0
Rests node name a b h (gone, h') =
    (evidence a b h ≤ evidence a b h')
    × (gone ≡ true → evidence node name h < evidence node name h')

judge_again-Rests :
    (node name a b : String) (x : Answer Container) (h : History)
    → Rests node name a b h (judge_again node name x h)
unfolding is_confirmed_gone
judge_again-Rests node name a b (raised e) h =
    (look-evidence node name a b (raised e) h, λ q. absurd (cc))
judge_again-Rests node name a b (got missing) h = (
  look-evidence node name a b (got missing) h,
  λ q. unfold evidence in ground (arith, eq_iff node node, eq_iff name name),
)
judge_again-Rests node name a b (got unknown) h =
    (look-evidence node name a b (got unknown) h, λ q. absurd (cc))
judge_again-Rests node name a b (got running) h =
    (look-evidence node name a b (got running) h, λ q. absurd (cc))
judge_again-Rests node name a b (got created) h =
    (look-evidence node name a b (got created) h, λ q. absurd (cc))
judge_again-Rests node name a b (got (other s)) h =
    (look-evidence node name a b (got (other s)) h, λ q. absurd (cc))

judge_retry-Rests :
    (N : Nodes) (node name a b : String) (x : Answer (Unit {0})) (h : History)
    → Rests node name a b h (judge_retry N node name x h)
unfolding evidence
judge_retry-Rests N node name a b (raised e) h = (omega arith, λ q. absurd (cc))
judge_retry-Rests N node name a b (got u) h =
    let asked = stopped node name (got u) ∷ h in
    judge_again-Rests node name a b (N.status asked node name) asked

judge_look-Rests :
    (N : Nodes) (node name a b : String) (x : Answer Container) (h : History)
    → Rests node name a b h (judge_look N node name x h)
unfolding is_confirmed_gone evidence
judge_look-Rests N node name a b (raised e) h = (omega arith, λ q. absurd (cc))
judge_look-Rests N node name a b (got missing) h = judge_again-Rests node name a b (got missing) h
judge_look-Rests N node name a b (got unknown) h = (omega arith, λ q. absurd (cc))
judge_look-Rests N node name a b (got running) h =
    let seen = looked node name (got running) ∷ h in
    judge_retry-Rests N node name a b (N.stop seen node name) seen
judge_look-Rests N node name a b (got created) h =
    let seen = looked node name (got created) ∷ h in
    judge_retry-Rests N node name a b (N.stop seen node name) seen
judge_look-Rests N node name a b (got (other s)) h =
    let seen = looked node name (got (other s)) ∷ h in
    judge_retry-Rests N node name a b (N.stop seen node name) seen

judge_node-Rests :
    (N : Nodes) (node name a b : String) (x : Answer (Unit {0})) (h : History)
    → Rests node name a b h (judge_node N node name x h)
unfolding evidence
judge_node-Rests N node name a b (raised e) h = (omega arith, λ q. absurd (cc))
judge_node-Rests N node name a b (got u) h =
    let here = resolved node (got u) ∷ h in
    judge_look-Rests N node name a b (N.status here node name) here

check_orphan-Rests :
    (N : Nodes) (o : Orphan) (a b : String) (h : History)
    → Rests o.node o.container_name a b h (check_orphan N o h)
unfolding check_orphan
check_orphan-Rests N o a b h = judge_node-Rests N o.node o.container_name a b (N.resolve h o.node) h

check_orphans-evidence :
    (N : Nodes) (a b : String) (os : List Orphan) (h : History)
    → evidence a b h ≤ evidence a b (check_orphans N os h).1
unfolding check_orphans
check_orphans-evidence N a b [] h = omega arith
check_orphans-evidence N a b (o ∷ os) h =
    let le = (check_orphan-Rests N o a b h).0 in
    let rest = check_orphans-evidence N a b os (check_orphan N o h).1 in omega (arith, le, rest)

-- The orphan remains, or its container was seen missing meanwhile.
abbrev pub IsClearable : List Orphan → History → History → Orphan → Type 0
IsClearable remaining before after o =
    Any (λ (q : Orphan). q ≡ o) remaining
    ⊎ (evidence o.node o.container_name before < evidence o.node o.container_name after)

widen :
    (gone : Bool) (o : Orphan) (rem os : List Orphan) (h mid after : History)
    → ((a b : String) → evidence a b h ≤ evidence a b mid)
    → All (IsClearable rem mid after) os
    → All (IsClearable (if gone then rem else o ∷ rem) h after) os
widen gone o rem [] h mid after le all = tt
widen true o rem (q ∷ os) h mid after le (inl here, all) =
    (inl here, widen true o rem os h mid after le all)
widen false o rem (q ∷ os) h mid after le (inl here, all) =
    (inl (inr here), widen false o rem os h mid after le all)
widen gone o rem (q ∷ os) h mid after le (inr new, all) =
    let earlier = le q.node q.container_name in
    (inr (omega (arith, earlier)), widen gone o rem os h mid after le all)

mine-IsClearable :
    (gone : Bool) (o : Orphan) (rem : List Orphan) (h mid after : History)
    → (gone ≡ true → evidence o.node o.container_name h < evidence o.node o.container_name mid)
    → evidence o.node o.container_name mid ≤ evidence o.node o.container_name after
    → IsClearable (if gone then rem else o ∷ rem) h after o
mine-IsClearable true o rem h mid after new le = let now = new refl in inr (omega (arith, now))
mine-IsClearable false o rem h mid after new le = inl (inl refl)

-- A sweep over a record's orphans drops one only on a daemon's answer, during this sweep, that
-- its container is missing: an orphan of which no such answer came remains.
pub check_orphans-IsClearable :
    (N : Nodes) (os : List Orphan) (h : History)
    → All (IsClearable (check_orphans N os h).0 h (check_orphans N os h).1) os
unfolding check_orphans
check_orphans-IsClearable N [] h = tt
check_orphans-IsClearable N (o ∷ os) h =
    let (gone, mid) = check_orphan N o h in
    let (rem, after) = check_orphans N os mid in
    (
      mine-IsClearable gone o rem h mid after (check_orphan-Rests N o "" "" h).1
          (check_orphans-evidence N o.node o.container_name os mid),
      widen gone o rem os h mid after (λ a b. (check_orphan-Rests N o a b h).0)
          (check_orphans-IsClearable N os mid),
    )
