-- ===== src/Runtime/Places.antt =====
-- Where a run is and which ports it has, against `_occupied_nodes` and the ports that
-- `_ports_in_use` of spark_pulse/tools/native_runtime.py reads of a record.
use spark_pulse.Prelude.{
  ℕ, String, ◌≡◌, refl, Bool, true, false, ◌||◌, Option, none, some, List, [], ◌∷◌, map, str_eq,
  if◌then◌else◌, ◌==◌, arith,
}
use spark_pulse.Records.{Deployment, Rank, Orphan, Status, finished}
use spark_pulse.Records.Rows.{among}
use spark_pulse.Runtime.Nodes.{Answer}
use spark_pulse.Runtime.Lifecycle.{rank_entries}
use spark_pulse.Runtime.Ports.{
  ports_of, or_here, node_key, live_nodes, orphan_nodes, occupied_nodes,
}

-- The port `p` is one of the values.
abbrev pub names : ℕ → List (Option ℕ) → Bool
names p [] = false
names p (none ∷ vs) = names p vs
names p (some q ∷ vs) = if q == p then true else names p vs

abbrev pub is_port : ℕ → Option ℕ → Bool
is_port p none = false
is_port p (some q) = q == p

-- The port is the run's API port, its rendezvous port or its RPC port.
abbrev pub has_port : ℕ → Deployment → Bool
has_port p r = is_port p r.port || (is_port p r.rendezvous_port || is_port p r.rpc_port)

names-cons :
    (p : ℕ) (v : Option ℕ) (vs : List (Option ℕ)) → names p (v ∷ vs) ≡ is_port p v || names p vs
names-cons p none vs = refl
names-cons p (some q) vs = ground arith

pub names-ports_of : (p : ℕ) (r : Deployment) → names p (ports_of r) ≡ has_port p r
names-ports_of p r = ground (
  arith,
  names-cons p r.port (r.rendezvous_port ∷ r.rpc_port ∷ []),
  names-cons p r.rendezvous_port (r.rpc_port ∷ []),
  names-cons p r.rpc_port [],
)

module _ (is_local : String → Answer Bool) where
  -- One of the addresses is an address of the node.
  unfoldable pub addresses : String → List String → Bool
  addresses n [] = false
  addresses n (a ∷ xs) = str_eq (node_key is_local a) n || addresses n xs

  -- One of the ranks is on the node.
  unfoldable pub ranks_on : String → List Rank → Bool
  ranks_on n [] = false
  ranks_on n (q ∷ qs) = str_eq (node_key is_local q.node) n || ranks_on n qs

  -- One of the orphans is on the node.
  unfoldable pub orphans_on : String → List Orphan → Bool
  orphans_on n [] = false
  orphans_on n (o ∷ os) = str_eq (node_key is_local o.node) n || orphans_on n os

  -- A live run is on the nodes of its ranks; with no ranks, on its nodes; with neither, here.
  abbrev pub live_on : String → List Rank → List String → Bool
  live_on n [] [] = str_eq "" n
  live_on n [] (a ∷ xs) = addresses n (a ∷ xs)
  live_on n (q ∷ qs) xs = ranks_on n (q ∷ qs)

  -- A run that is stopped or an error is where its orphans are.
  abbrev pub is_on_as : String → Deployment → Status → Bool
  is_on_as n r Status.stopped = orphans_on n r.orphans
  is_on_as n r Status.error = orphans_on n r.orphans
  is_on_as n r _ = live_on n r.ranks r.nodes

  -- The run is on the node.
  abbrev pub is_on : String → Deployment → Bool
  is_on n r = is_on_as n r r.status

  among-addresses :
      (n : String) (xs : List String) → among n (map (node_key is_local) xs) ≡ addresses n xs
  unfolding among addresses
  among-addresses n [] = refl
  among-addresses n (a ∷ xs) = ground (arith, among-addresses n xs)

  among-ranks_on :
      (n : String) (qs : List Rank)
      → among n (map (λ (e : Rank). node_key is_local e.node) qs) ≡ ranks_on n qs
  unfolding among ranks_on
  among-ranks_on n [] = refl
  among-ranks_on n (q ∷ qs) = ground (arith, among-ranks_on n qs)

  among-orphans_on :
      (n : String) (os : List Orphan)
      → among n (map (λ (e : Orphan). node_key is_local e.node) os) ≡ orphans_on n os
  unfolding among orphans_on
  among-orphans_on n [] = refl
  among-orphans_on n (o ∷ os) = ground (arith, among-orphans_on n os)

  abbrev pub occupies : String → Option (List String) → Bool
  occupies n none = false
  occupies n (some ns) = among n ns

  occupies-orphan_nodes :
      (n : String) (os : List Orphan) → occupies n (orphan_nodes is_local os) ≡ orphans_on n os
  unfolding orphans_on
  occupies-orphan_nodes n [] = refl
  occupies-orphan_nodes n (o ∷ os) = among-orphans_on n (o ∷ os)

  among-addresses_or_here :
      (n : String) (xs : List String)
      → among n (or_here (map (node_key is_local) xs)) ≡ live_on n [] xs
  unfolding among
  among-addresses_or_here n [] = ground arith
  among-addresses_or_here n (a ∷ xs) = among-addresses n (a ∷ xs)

  among-live_nodes :
      (n : String) (qs : List Rank) (r : Deployment)
      → r.ranks ≡ qs
      → among n (or_here (live_nodes is_local qs r)) ≡ live_on n qs r.nodes
  unfolding rank_entries
  among-live_nodes n [] r e = among-addresses_or_here n r.nodes
  among-live_nodes n (q ∷ qs) r e = rw e (among-ranks_on n (q ∷ qs))

  occupies-status :
      (n : String) (r : Deployment) (s : Status)
      → occupies n (
          if finished s
          then orphan_nodes is_local r.orphans
          else some (or_here (live_nodes is_local r.ranks r)))
        ≡ is_on_as n r s
  occupies-status n r Status.stopped = occupies-orphan_nodes n r.orphans
  occupies-status n r Status.error = occupies-orphan_nodes n r.orphans
  occupies-status n r _ = among-live_nodes n r.ranks r refl

  pub occupies-occupied_nodes :
      (n : String) (r : Deployment) → occupies n (occupied_nodes is_local r) ≡ is_on n r
  unfolding occupied_nodes
  occupies-occupied_nodes n r = occupies-status n r r.status
