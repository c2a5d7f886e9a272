-- ===== src/Runtime/Evidence.antt =====
-- The evidence that `_teardown_entries` of spark_pulse/tools/native_runtime.py goes by, and the
-- orphans that it lists.
use spark_pulse.Prelude.{
  ℕ, zero, suc, ◌+◌, ◌≤◌, ◌<◌, String, ◌≡◌, ◌⊎◌, inl, inr, refl, Bool, true, false, ◌&&◌, Option,
  none, some, List, [], ◌∷◌, arith, eq_iff, str_eq, truthy, leb, if◌then◌else◌, All, Any,
}
use spark_pulse.Records.{Rank, Orphan}
use spark_pulse.Runtime.Nodes.{
  Answer, got, raised, Container, missing, unknown, running, created, other, Event, resolved,
  stopped, looked, History, Nodes, is_confirmed_gone, judge, confirm_loop, confirm_gone, final_logs,
}
use spark_pulse.Runtime.Teardown.{
  Torn, listed, orphan, judge_gone, judge_stop, judge_resolve, teardown_entry, teardown_rank,
  insert_rank, by_rank, teardown_each, teardown_entries,
}

-- A daemon's answer that it has no such container.
abbrev is_evidence : String → String → Event → Bool
is_evidence node name (looked n m (got missing)) = str_eq n node && str_eq m name
is_evidence node name _ = false

-- How often the history shows that answer.
unfoldable pub evidence : String → String → History → ℕ
evidence node name [] = 0
evidence node name (e ∷ h) =
    let n = evidence node name h in if is_evidence node name e then n + 1 else n

-- No look takes an evidence back.
pub look-evidence :
    (node name a b : String) (answer : Answer Container) (h : History)
    → evidence a b h ≤ evidence a b (looked node name answer ∷ h)
unfolding evidence
look-evidence node name a b (raised e) h = omega arith
look-evidence node name a b (got missing) h = ground arith
look-evidence node name a b (got unknown) h = omega arith
look-evidence node name a b (got running) h = omega arith
look-evidence node name a b (got created) h = omega arith
look-evidence node name a b (got (other s)) h = omega arith

-- What one round of the loop owes: it takes no evidence back, and says `true` on new evidence only.
abbrev pub Owes : String → String → String → String → History → Answer Bool × History → Type 0
Owes node name a b h (said, h') =
    (evidence a b h ≤ evidence a b h')
    × (said ≡ got true → evidence node name h < evidence node name h')

judge-Owes :
    (node name a b : String) (answer : Answer Container) (h : History)
    (later : Answer Bool × History)
    → Owes node name a b (looked node name answer ∷ h) later
    → Owes node name a b h (judge answer (looked node name answer ∷ h) later)
unfolding is_confirmed_gone evidence
judge-Owes node name a b (raised e) h later o =
    (look-evidence node name a b (raised e) h, λ q. absurd (cc))
judge-Owes node name a b (got missing) h later o = (
  look-evidence node name a b (got missing) h,
  λ q. ground (arith, eq_iff node node, eq_iff name name),
)
judge-Owes node name a b (got unknown) h later o = o
judge-Owes node name a b (got running) h later o = o
judge-Owes node name a b (got created) h later o = o
judge-Owes node name a b (got (other s)) h later o = o

pub confirm_loop-Owes :
    (N : Nodes) (node name a b : String) (n : ℕ) (h : History)
    → Owes node name a b h (confirm_loop N node name n h)
unfolding confirm_loop
confirm_loop-Owes N node name a b zero h =
    let c = N.status h node name in
    judge-Owes node name a b c h (got false, looked node name c ∷ h) (omega arith, λ q. absurd (cc))
confirm_loop-Owes N node name a b (suc n) h =
    let c = N.status h node name in
    judge-Owes node name a b c h (confirm_loop N node name n (looked node name c ∷ h))
      (confirm_loop-Owes N node name a b n (looked node name c ∷ h))

-- The orphan `o` stands for the rank `r`.
abbrev pub Stands : Rank → Orphan → Type 0
Stands r o = (o.rank ≡ r.rank) × (o.node ≡ r.node) × (o.container_name ≡ r.container_name)

-- A rank is accounted for when it has no container, or is listed, or was seen missing meanwhile.
abbrev pub IsAccounted : List Orphan → History → History → Rank → Type 0
IsAccounted orphans before after r =
    (truthy r.container_name ≡ false)
    ⊎ (Any (Stands r) orphans
        ⊎ (evidence r.node r.container_name before < evidence r.node r.container_name after))

abbrev kept : Option Orphan → List Orphan
kept none = []
kept (some o) = o ∷ []

abbrev Settles : String → String → Rank → History → Torn → Type 0
Settles a b r h torn =
    (evidence a b h ≤ evidence a b torn.history) × IsAccounted (kept torn.orphan) h torn.history r

judge_gone-Settles :
    (N : Nodes) (a b : String) (r : Rank) (logs : String) (h : History) (x : Answer Bool × History)
    → Owes r.node r.container_name a b h x
    → Settles a b r h (judge_gone N r logs x)
unfolding orphan
judge_gone-Settles N a b r logs h (raised e, h') o = (o.0, inr (inl (inl (refl, refl, refl))))
judge_gone-Settles N a b r logs h (got true, h') o = (o.0, inr (inr (o.1 refl)))
judge_gone-Settles N a b r logs h (got false, h') o = (o.0, inr (inl (inl (refl, refl, refl))))

judge_stop-Settles :
    (N : Nodes) (a b : String) (r : Rank) (logs : String) (x : Answer (Unit {0})) (h : History)
    → Settles a b r h (judge_stop N r logs x h)
unfolding orphan confirm_gone
judge_stop-Settles N a b r logs (raised e) h = (omega arith, inr (inl (inl (refl, refl, refl))))
judge_stop-Settles N a b r logs (got u) h =
    judge_gone-Settles N a b r logs h (confirm_gone N r.node r.container_name h)
      (confirm_loop-Owes N r.node r.container_name a b (N.looks h r.node r.container_name) h)

either-Settles :
    (a b : String) (r : Rank) (h : History) (c : Bool) (torn : Torn)
    → truthy r.container_name ≡ c
    → Settles a b r h torn
    → Settles a b r h (if c then torn else record { orphan = none; logs = ""; history = h })
either-Settles a b r h true torn e t = t
either-Settles a b r h false torn e t = (omega arith, inl e)

teardown_entry-Settles :
    (N : Nodes) (a b : String) (r : Rank) (h : History) → Settles a b r h (teardown_entry N r h)
unfolding teardown_entry final_logs evidence
teardown_entry-Settles N a b r h =
    let (logs, read) = final_logs N r.node r.container_name h in
    let answer = N.stop read r.node r.container_name in
    either-Settles a b r h (truthy r.container_name)
      (judge_stop N r logs answer (stopped r.node r.container_name answer ∷ read)) refl
      (judge_stop-Settles N a b r logs answer (stopped r.node r.container_name answer ∷ read))

judge_resolve-Settles :
    (N : Nodes) (a b : String) (r : Rank) (x : Answer (Unit {0})) (h : History)
    → Settles a b r h (judge_resolve N r x h)
unfolding orphan
judge_resolve-Settles N a b r (raised e) h = (omega arith, inr (inl (inl (refl, refl, refl))))
judge_resolve-Settles N a b r (got u) h = teardown_entry-Settles N a b r h

teardown_rank-Settles :
    (N : Nodes) (a b : String) (r : Rank) (h : History) → Settles a b r h (teardown_rank N r h)
unfolding teardown_rank evidence
teardown_rank-Settles N a b r h =
    let x = N.resolve h r.node in judge_resolve-Settles N a b r x (resolved r.node x ∷ h)

-- Later events and more orphans keep a rank accounted for.
IsAccounted-longer :
    (r : Rank) (o : Option Orphan) (os : List Orphan) (h mid after : History)
    → evidence r.node r.container_name mid ≤ evidence r.node r.container_name after
    → IsAccounted (kept o) h mid r
    → IsAccounted (listed o os) h after r
IsAccounted-longer r o os h mid after le (inl blank) = inl blank
IsAccounted-longer r none os h mid after le (inr (inl none_there)) = absurd none_there
IsAccounted-longer r (some o) os h mid after le (inr (inl (inl stands))) = inr (inl (inl stands))
IsAccounted-longer r (some o) os h mid after le (inr (inl (inr none_there))) = absurd none_there
IsAccounted-longer r o os h mid after le (inr (inr new)) = inr (inr (omega arith))

IsAccounted-earlier :
    (r : Rank) (o : Option Orphan) (os : List Orphan) (h mid after : History)
    → evidence r.node r.container_name h ≤ evidence r.node r.container_name mid
    → IsAccounted os mid after r
    → IsAccounted (listed o os) h after r
IsAccounted-earlier r o os h mid after le (inl blank) = inl blank
IsAccounted-earlier r none os h mid after le (inr (inl stands)) = inr (inl stands)
IsAccounted-earlier r (some o) os h mid after le (inr (inl stands)) = inr (inl (inr stands))
IsAccounted-earlier r o os h mid after le (inr (inr new)) = inr (inr (omega arith))

teardown_each-evidence :
    (N : Nodes) (a b : String) (rs : List Rank) (h : History)
    → evidence a b h ≤ evidence a b (teardown_each N rs h).history
unfolding teardown_each
teardown_each-evidence N a b [] h = omega arith
teardown_each-evidence N a b (r ∷ rs) h =
    let mid = (teardown_rank N r h).history in
    let le = (teardown_rank-Settles N a b r h).0 in
    let rest = teardown_each-evidence N a b rs mid in omega (arith, le, rest)

All-earlier :
    (qs : List Rank) (o : Option Orphan) (os : List Orphan) (h mid after : History)
    → ((a b : String) → evidence a b h ≤ evidence a b mid)
    → All (IsAccounted os mid after) qs
    → All (IsAccounted (listed o os) h after) qs
All-earlier [] o os h mid after le all = tt
All-earlier (q ∷ qs) o os h mid after le (here, there) = (
  IsAccounted-earlier q o os h mid after (le q.node q.container_name) here,
  All-earlier qs o os h mid after le there,
)

teardown_each-IsAccounted :
    (N : Nodes) (rs : List Rank) (h : History)
    → All (IsAccounted (teardown_each N rs h).orphans h (teardown_each N rs h).history) rs
unfolding teardown_each
teardown_each-IsAccounted N [] h = tt
teardown_each-IsAccounted N (r ∷ rs) h =
    let torn = teardown_rank N r h in
    let rest = teardown_each N rs torn.history in
    (
      IsAccounted-longer r torn.orphan rest.orphans h torn.history rest.history
          (teardown_each-evidence N r.node r.container_name rs torn.history)
          (teardown_rank-Settles N r.node r.container_name r h).1,
      All-earlier rs torn.orphan rest.orphans h torn.history rest.history
          (λ a b. (teardown_rank-Settles N a b r h).0)
          (teardown_each-IsAccounted N rs torn.history),
    )

module _ (P : Rank → Type 0) where
  All-either :
      (c : Bool) (r q : Rank) (qs : List Rank)
      → (All P (insert_rank r qs) → P r × All P qs)
      → All P (if c then r ∷ q ∷ qs else q ∷ insert_rank r qs)
      → P r × All P (q ∷ qs)
  All-either true r q qs rest all = all
  All-either false r q qs rest (first, others) =
      let (mine, left) = rest others in (mine, (first, left))

  All-insert : (r : Rank) (qs : List Rank) → All P (insert_rank r qs) → P r × All P qs
  unfolding insert_rank
  All-insert r [] (here, there) = (here, there)
  All-insert r (q ∷ qs) all = All-either (leb r.rank q.rank) r q qs (All-insert r qs) all

  All-by_rank : (rs : List Rank) → All P (by_rank rs) → All P rs
  unfolding by_rank
  All-by_rank [] all = tt
  All-by_rank (r ∷ rs) all =
      let (mine, others) = All-insert r (by_rank rs) all in (mine, All-by_rank rs others)

-- A teardown accounts for every rank that it is given: the rank has no container, or is listed
-- as an orphan, or a daemon answered during this teardown that its container is missing.
pub teardown_entries-IsAccounted :
    (N : Nodes) (rs : List Rank) (h : History)
    → All (IsAccounted (teardown_entries N rs h).orphans h (teardown_entries N rs h).history) rs
unfolding teardown_entries
teardown_entries-IsAccounted N rs h =
    All-by_rank (IsAccounted (teardown_entries N rs h).orphans h (teardown_entries N rs h).history)
      rs (teardown_each-IsAccounted N (by_rank rs) h)
