-- ===== src/Runtime/Free.antt =====
-- What `_ports_in_use` and `_choose_port` of spark_pulse/tools/native_runtime.py count as taken,
-- against a description of it by the runs, the listeners and the reserved ports.
use Prim.Native.String.{◌++◌ as text_append}
use spark_pulse.Prelude.{
  ℕ, String, ◌≡◌, refl, ap, ◌∙◌, Bool, true, false, ◌&&◌, ◌||◌, Option, none, some, List, [], ◌∷◌,
  ◌++◌, map, truthy, nonzero, or_text, or_default, is_some, str_eq, if◌then◌else◌, ◌==◌, member,
  arith, eq_iff,
}
use spark_pulse.Prelude.Dict.{Dict, lookup, insert, lookup-insert}
use spark_pulse.Records.{Deployment}
use spark_pulse.Records.Rows.{among}
use spark_pulse.Runtime.Nodes.{Answer}
use spark_pulse.Runtime.Places.{
  names, has_port, is_on, occupies, names-ports_of, occupies-occupied_nodes,
}
use spark_pulse.Runtime.Ports.{
  Ports, find_port, set_default, claim, ports_of, claim_on, or_here, node_key, occupied_nodes,
  claim_run, ports_from, ports_in_use, Listener, take_run, take_runs, take_list, take_listeners,
  take_reserved, taken_on,
}

abbrev pub is_taken : ℕ → Ports → Bool
is_taken p ports = is_some (find_port p ports)

append-taken :
    (p q : ℕ) (h : String) (ports : Ports)
    → is_taken p (ports ++ (q, h) ∷ []) ≡ (if is_taken p ports then true else q == p)
unfolding find_port
append-taken p q h [] = ground arith
append-taken p q h ((k, v) ∷ ports) = ground (arith, append-taken p q h ports)

set_default-taken :
    (p q : ℕ) (h : String) (ports : Ports)
    → is_taken p (set_default q h ports) ≡ (if is_taken p ports then true else q == p)
unfolding set_default
set_default-taken p q h ports = ground (arith, append-taken p q h ports)

claim-taken :
    (p : ℕ) (h : String) (vs : List (Option ℕ)) (ports : Ports)
    → nonzero p ≡ true
    → is_taken p (claim h vs ports) ≡ (if is_taken p ports then true else names p vs)
unfolding claim
claim-taken p h [] ports z = ground arith
claim-taken p h (none ∷ vs) ports z = claim-taken p h vs ports z
claim-taken p h (some q ∷ vs) ports z = ground (
  arith,
  claim-taken p h vs ports z,
  claim-taken p h vs (set_default q h ports) z,
  set_default-taken p q h ports,
)

abbrev at : String → Dict Ports → Ports
at n held = or_default (lookup n held) []

claim_on-taken :
    (p : ℕ) (h : String) (vs : List (Option ℕ)) (n : String) (ns : List String) (held : Dict Ports)
    → nonzero p ≡ true
    → is_taken p (at n (claim_on h vs ns held))
      ≡ (if is_taken p (at n held) then true else among n ns && names p vs)
unfolding claim_on among
claim_on-taken p h vs n [] held z = ground arith
claim_on-taken p h vs n (m ∷ ns) held z = ground (
  arith,
  claim_on-taken p h vs n ns (insert m (claim h vs (at m held)) held) z,
  claim-taken p h vs (at m held) z,
  lookup-insert m n (claim h vs (at m held)) held,
  eq_iff m n,
)

module _ (is_local : String → Answer Bool) (exclude : String) (p : ℕ) where
  -- Some run other than the excluded one is on the node and has the port.
  unfoldable pub is_held : String → List Deployment → Bool
  is_held n [] = false
  is_held n (r ∷ rs) =
      let rest = is_held n rs in
      if truthy exclude && str_eq r.id exclude
      then rest
      else (is_on is_local n r && has_port p r) || rest

  claim_run-taken :
      (r : Deployment) (nodes : Option (List String)) (n : String) (held : Dict Ports)
      → nonzero p ≡ true
      → is_taken p (at n (claim_run is_local r nodes held)) ≡ (
          if is_taken p (at n held)
          then true
          else occupies is_local n nodes && names p (ports_of r))
  claim_run-taken r none n held z = ground arith
  claim_run-taken r (some ns) n held z =
      claim_on-taken p (or_text r.name r.id) (ports_of r) n ns held z

  abbrev holds : String → Deployment → Bool
  holds n r = is_on is_local n r && has_port p r

  claim_run-holds :
      (r : Deployment) (n : String) (held : Dict Ports)
      → nonzero p ≡ true
      → is_taken p (at n (claim_run is_local r (occupied_nodes is_local r) held))
        ≡ (if is_taken p (at n held) then true else holds n r)
  claim_run-holds r n held z =
      claim_run-taken r (occupied_nodes is_local r) n held z
      ∙ ap (λ (b : Bool). if is_taken p (at n held) then true else b)
          (rw (occupies-occupied_nodes is_local n r) (rw (names-ports_of p r) refl))

  join :
      (a b c : Bool) → (if (if a then true else b) then true else c) ≡ (if a then true else b || c)
  join true b c = refl
  join false true c = refl
  join false false c = refl

  run_step :
      (n : String) (skip : Bool) (r : Deployment) (rs : List Deployment) (held : Dict Ports)
      → is_taken p (at n (claim_run is_local r (occupied_nodes is_local r) held))
        ≡ (if is_taken p (at n held) then true else holds n r)
      → ((d : Dict Ports)
          → is_taken p (at n (ports_from is_local exclude rs d))
            ≡ (if is_taken p (at n d) then true else is_held n rs))
      → is_taken p (
          at n (
            ports_from is_local exclude rs
              (if skip then held else claim_run is_local r (occupied_nodes is_local r) held)))
        ≡ (if is_taken p (at n held)
            then true
            else if skip
            then is_held n rs
            else holds n r || is_held n rs)
  run_step n true r rs held one later = later held
  run_step n false r rs held one later =
      later (claim_run is_local r (occupied_nodes is_local r) held)
      ∙ (ap (λ (t : Bool). if t then true else is_held n rs) one
          ∙ join (is_taken p (at n held)) (holds n r) (is_held n rs))

  ports_from-taken :
      (n : String) (rs : List Deployment) (held : Dict Ports)
      → nonzero p ≡ true
      → is_taken p (at n (ports_from is_local exclude rs held))
        ≡ (if is_taken p (at n held) then true else is_held n rs)
  unfolding ports_from is_held
  ports_from-taken n [] held z = ground arith
  ports_from-taken n (r ∷ rs) held z =
      run_step n (truthy exclude && str_eq r.id exclude) r rs held (claim_run-holds r n held z)
        (λ d. ports_from-taken n rs d z)

  -- `_ports_in_use` names a port other than zero on a node exactly when some run other than the
  -- excluded one is on that node and has that port as its API, rendezvous or RPC port. A run that is
  -- stopped or an error is on the nodes of its orphans, any other on those of its ranks, or of its
  -- `nodes` where it has no ranks, or here where it has neither.
  pub ports_in_use-held :
      (n : String) (rs : List Deployment)
      → nonzero p ≡ true
      → is_taken p (at n (ports_in_use is_local exclude rs)) ≡ is_held n rs
  unfolding ports_in_use lookup find_port
  ports_in_use-held n rs z = ground (arith, ports_from-taken n rs [] z)

take_run-taken :
    (p : ℕ) (ps taken : Ports)
    → is_taken p (take_run ps taken) ≡ (if is_taken p taken then true else is_taken p ps)
unfolding take_run find_port
take_run-taken p [] taken = ground arith
take_run-taken p ((q, h) ∷ ps) taken = ground (
  arith,
  take_run-taken p ps (set_default q (text_append "run " h) taken),
  set_default-taken p q (text_append "run " h) taken,
)

take_list-taken :
    (p : ℕ) (h : String) (ps : List ℕ) (taken : Ports)
    → is_taken p (take_list h ps taken) ≡ (if is_taken p taken then true else member p ps)
unfolding take_list
take_list-taken p h [] taken = ground arith
take_list-taken p h (q ∷ ps) taken =
    ground (arith, take_list-taken p h ps (set_default q h taken), set_default-taken p q h taken)

-- Some node that answered listens on the port.
unfoldable pub listens : ℕ → List Listener → Bool
listens p [] = false
listens p (l ∷ ls) = member p (or_default l.listening []) || listens p ls

take_listeners-taken :
    (p : ℕ) (ls : List Listener) (taken : Ports)
    → is_taken p (take_listeners ls taken) ≡ (if is_taken p taken then true else listens p ls)
unfolding take_listeners listens
take_listeners-taken p [] taken = ground arith
take_listeners-taken p (l ∷ ls) taken =
    let ps = or_default l.listening [] in
    let label = text_append "a process on " l.label in
    ground (
      arith,
      take_listeners-taken p ls (take_list label ps taken),
      take_list-taken p label ps taken,
    )

-- The engine reserves the port.
unfoldable pub reserves : ℕ → List (Option ℕ × String) → Bool
reserves p [] = false
reserves p ((none, role) ∷ rs) = reserves p rs
reserves p ((some q, role) ∷ rs) = q == p || reserves p rs

take_reserved-taken :
    (p : ℕ) (rs : List (Option ℕ × String)) (taken : Ports)
    → nonzero p ≡ true
    → is_taken p (take_reserved rs taken) ≡ (if is_taken p taken then true else reserves p rs)
unfolding take_reserved reserves
take_reserved-taken p [] taken z = ground arith
take_reserved-taken p ((none, role) ∷ rs) taken z = take_reserved-taken p rs taken z
take_reserved-taken p ((some q, role) ∷ rs) taken z =
    let label = text_append (text_append "the engine's own " role) " port" in
    ground (
      arith,
      take_reserved-taken p rs taken z,
      take_reserved-taken p rs (set_default q label taken) z,
      set_default-taken p q label taken,
    )

module _ (is_local : String → Answer Bool) (exclude : String) (rs : List Deployment) (p : ℕ) where
  -- Some run holds the port on one of the machines.
  unfoldable pub held_on : List String → Bool
  held_on [] = false
  held_on (k ∷ ks) = is_held is_local exclude p k rs || held_on ks

  take_runs-taken :
      (ks : List String) (taken : Ports)
      → nonzero p ≡ true
      → is_taken p (take_runs ks (ports_in_use is_local exclude rs) taken)
        ≡ (if is_taken p taken then true else held_on ks)
  unfolding take_runs held_on
  take_runs-taken [] taken z = ground arith
  take_runs-taken (k ∷ ks) taken z =
      let ps = at k (ports_in_use is_local exclude rs) in
      ground (
        arith,
        take_runs-taken ks (take_run ps taken) z,
        take_run-taken p ps taken,
        ports_in_use-held is_local exclude p k rs z,
      )

  -- A run on record holds the port on a machine of the run, or a machine that answered listens on
  -- it, or the engine reserves it.
  abbrev pub is_busy : List String → List Listener → List (Option ℕ × String) → Bool
  is_busy nodes listeners reserved =
      held_on (or_here (map (node_key is_local) nodes))
      || (listens p listeners || reserves p reserved)

  pub taken_on-is_busy :
      (nodes : List String) (listeners : List Listener) (reserved : List (Option ℕ × String))
      → nonzero p ≡ true
      → is_taken p (taken_on is_local nodes listeners reserved exclude rs)
        ≡ is_busy nodes listeners reserved
  unfolding taken_on find_port
  taken_on-is_busy nodes listeners reserved z =
      let keys = or_here (map (node_key is_local) nodes) in
      let runs = take_runs keys (ports_in_use is_local exclude rs) [] in
      ground (
        arith,
        take_runs-taken keys [] z,
        take_listeners-taken p listeners runs,
        take_reserved-taken p reserved (take_listeners listeners runs) z,
      )
