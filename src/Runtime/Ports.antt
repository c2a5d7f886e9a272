-- ===== src/Runtime/Ports.antt =====
-- The ports that runs hold on the nodes, and the choice of a run's port.
use Prim.Native.String.{◌++◌ as text_append}
use spark_pulse.Prelude.{
  ℕ, zero, suc, ◌-◌, String, Bool, true, false, not, ◌&&◌, Option, none, some, List, [], ◌∷◌, ◌++◌,
  map, truthy, nonzero, or_text, or_default, is_some, str_eq, if◌then◌else◌, ◌==◌,
}
use spark_pulse.Prelude.Text.{strip}
use spark_pulse.Prelude.Dict.{Dict, lookup, insert}
use spark_pulse.Records.{Deployment, Rank, Orphan, finished}
use spark_pulse.Runtime.Nodes.{Answer, got, raised}
use spark_pulse.Runtime.Lifecycle.{rank_entries}

-- Who holds each port of a machine: the first to claim it.
abbrev pub Ports : Type 0
Ports = List (ℕ × String)

unfoldable pub find_port : ℕ → Ports → Option String
find_port p [] = none
find_port p ((q, holder) ∷ ports) = if q == p then some holder else find_port p ports

-- `ports.setdefault(p, holder)`
unfoldable pub set_default : ℕ → String → Ports → Ports
unfolding find_port
set_default p holder ports =
    if is_some (find_port p ports) then ports else ports ++ (p, holder) ∷ []

-- `isinstance(value, int) and value`
unfoldable pub claim : String → List (Option ℕ) → Ports → Ports
unfolding set_default
claim holder [] ports = ports
claim holder (none ∷ vs) ports = claim holder vs ports
claim holder (some p ∷ vs) ports =
    claim holder vs (if nonzero p then set_default p holder ports else ports)

abbrev pub ports_of : Deployment → List (Option ℕ)
ports_of r = r.port ∷ r.rendezvous_port ∷ r.rpc_port ∷ []

unfoldable pub claim_on : String → List (Option ℕ) → List String → Dict Ports → Dict Ports
unfolding claim
claim_on holder vs [] held = held
claim_on holder vs (n ∷ ns) held =
    claim_on holder vs ns (insert n (claim holder vs (or_default (lookup n held) [])) held)

-- `nodes or {""}`
abbrev pub or_here : List String → List String
or_here [] = "" ∷ []
or_here (n ∷ ns) = n ∷ ns

abbrev judge_local : String → Answer Bool → String
judge_local text (got true) = ""
judge_local text (got false) = text
judge_local text (raised e) = text

-- `is_local_address` of the node service is the parameter `is_local`.
module _ (is_local : String → Answer Bool) where
  unfoldable pub node_key : String → String
  unfolding strip
  node_key address =
      let text = strip address in if truthy text then judge_local text (is_local text) else ""

  abbrev pub live_nodes : List Rank → Deployment → List String
  live_nodes [] r = map node_key r.nodes
  live_nodes (q ∷ qs) r = map (λ (e : Rank). node_key e.node) (rank_entries r)

  abbrev pub orphan_nodes : List Orphan → Option (List String)
  orphan_nodes [] = none
  orphan_nodes (o ∷ os) = some (or_here (map (λ (e : Orphan). node_key e.node) (o ∷ os)))

  -- The nodes that a run still occupies: sets are lists here, in which a repetition is harmless.
  unfoldable pub occupied_nodes : Deployment → Option (List String)
  unfolding node_key rank_entries
  occupied_nodes r =
      if finished r.status then orphan_nodes r.orphans else some (or_here (live_nodes r.ranks r))

  abbrev pub claim_run : Deployment → Option (List String) → Dict Ports → Dict Ports
  claim_run r none held = held
  claim_run r (some nodes) held = claim_on (or_text r.name r.id) (ports_of r) nodes held

  unfoldable pub ports_from : String → List Deployment → Dict Ports → Dict Ports
  unfolding occupied_nodes claim_on
  ports_from exclude [] held = held
  ports_from exclude (r ∷ rs) held =
      ports_from exclude rs (
        if truthy exclude && str_eq r.id exclude then held else claim_run r (occupied_nodes r) held)

  -- `_ports_in_use`, on the records that were loaded
  unfoldable pub ports_in_use : String → List Deployment → Dict Ports
  unfolding ports_from
  ports_in_use exclude rs = ports_from exclude rs []

-- `allocate_port`: the loop over the range, from `start`, of `n` ports. `none` is the error.
unfoldable pub allocate_from : Ports → ℕ → ℕ → Option ℕ
unfolding find_port
allocate_from taken start zero = none
allocate_from taken start (suc n) =
    let rest = allocate_from taken (suc start) n in
    if is_some (find_port start taken) then rest else some start

unfoldable pub allocate_port : Ports → ℕ → ℕ → Option ℕ
unfolding allocate_from
allocate_port taken first last = allocate_from taken first (suc last - first)

-- One entry of `_node_listeners`: the node's label, the ports it listens on, and why if it did not
-- say.
pub record Listener : Type 0 where
  pub label : String
  pub listening : Option (List ℕ)
  pub why : String

-- The warnings of a plan, before they are put in words.
pub data Warning : Type 0 where
  not_listed : (label why : String) → Warning
  moved : (preferred : ℕ) → (holder : Option String) → (port : ℕ) → Warning

unfoldable pub take_run : Ports → Ports → Ports
unfolding set_default
take_run [] taken = taken
take_run ((p, holder) ∷ ps) taken = take_run ps (set_default p (text_append "run " holder) taken)

unfoldable pub take_runs : List String → Dict Ports → Ports → Ports
unfolding take_run
take_runs [] in_use taken = taken
take_runs (k ∷ ks) in_use taken =
    take_runs ks in_use (take_run (or_default (lookup k in_use) []) taken)

unfoldable pub take_list : String → List ℕ → Ports → Ports
unfolding set_default
take_list holder [] taken = taken
take_list holder (p ∷ ps) taken = take_list holder ps (set_default p holder taken)

unfoldable pub take_listeners : List Listener → Ports → Ports
unfolding take_list
take_listeners [] taken = taken
take_listeners (l ∷ ls) taken =
    take_listeners ls
      (take_list (text_append "a process on " l.label) (or_default l.listening []) taken)

-- A node that cannot be asked is warned of.
unfoldable pub unlisted : List Listener → List Warning
unlisted [] = []
unlisted (l ∷ ls) =
    let rest = unlisted ls in if is_some l.listening then rest else not_listed l.label l.why ∷ rest

unfoldable pub take_reserved : List (Option ℕ × String) → Ports → Ports
unfolding set_default
take_reserved [] taken = taken
take_reserved ((none, role) ∷ rs) taken = take_reserved rs taken
take_reserved ((some p, role) ∷ rs) taken = take_reserved rs (
    if nonzero p
    then set_default p (text_append (text_append "the engine's own " role) " port") taken
    else taken)

-- The port range of the configuration.
pub record Range : Type 0 where
  pub first : ℕ
  pub last : ℕ

abbrev pub moved_to : Option ℕ → Ports → Option ℕ → List Warning → Option (ℕ × List Warning)
moved_to preferred taken none ws = none
moved_to none taken (some p) ws = some (p, ws)
moved_to (some q) taken (some p) ws =
    some (p, if nonzero q then ws ++ moved q (find_port q taken) p ∷ [] else ws)

abbrev pub chosen : Option ℕ → Ports → Range → List Warning → Option (ℕ × List Warning)
chosen none taken range ws = moved_to none taken (allocate_port taken range.first range.last) ws
chosen (some q) taken range ws =
    if nonzero q && not (is_some (find_port q taken))
    then some (q, ws)
    else moved_to (some q) taken (allocate_port taken range.first range.last) ws

module _ (is_local : String → Answer Bool) where
  -- All that is taken on the nodes of the run.
  unfoldable pub taken_on :
      List String → List Listener → List (Option ℕ × String) → String → List Deployment → Ports
  unfolding ports_in_use take_runs take_listeners take_reserved node_key
  taken_on node_list listeners reserved exclude rs = take_reserved reserved (
      take_listeners listeners (
        take_runs (or_here (map (node_key is_local) node_list)) (ports_in_use is_local exclude rs)
          []))

  -- `_choose_port`. `none` is the error of a full range.
  unfoldable pub choose_port :
      Option ℕ
      → List String
      → List Listener
      → List (Option ℕ × String)
      → String
      → Range
      → List Deployment
      → Option (ℕ × List Warning)
  unfolding taken_on unlisted allocate_port find_port
  choose_port preferred node_list listeners reserved exclude range rs =
      chosen preferred (taken_on node_list listeners reserved exclude rs) range (unlisted listeners)
