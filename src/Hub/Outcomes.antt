-- ===== src/Hub/Outcomes.antt =====
-- How the calls of the hub (spark_pulse/agent/hub.py) end.
use spark_pulse.Prelude.{
  ℕ, ◌≤◌, String, ◌≡◌, ◌≢◌, inl, inr, sym, subst, Option, none, some, List, [], ◌∷◌, arith, eq_iff,
  Bool-cases,
}
use spark_pulse.Prelude.Dict.{lookup, insert, erase, values, lookup-insert, member-values}
use spark_pulse.Hub.Connection
use spark_pulse.Hub.Connection.{
  AgentConnection, Future, Futures, FutureState, Outcome, UnreachableReason, CommandResult, waiting,
  done, answered, unreachable, disconnected, shutting_down, cancelled, settled, timed_out, Liveness,
  healthy, unknown, dead,
}
use spark_pulse.Hub.Settling.{settle_all_lem, settle_all-done}
use spark_pulse.Hub.Invariant.{Sound, pending_at}
use spark_pulse.Hub.Steps.{
  Step, accept, attaching, detaching, heartbeat, calling, delivering, ending, cancelling, shutting,
  begin_call-sent,
}
use spark_pulse.Hub.{
  AgentHub, abandon_at, end_call, deliver, abandon_each, shutdown, completed, attach, detach,
  touched, cancel_command, cancel_on, displace, is_current, liveness,
}

module _ (f : ℕ) (x : Future) (o : Outcome) (over : x.state ≡ done o) where
  abandon_at-done :
      (reason : UnreachableReason) (c : ℕ) (h : AgentHub)
      → h.futures f ≡ some x
      → (abandon_at reason c h).futures f ≡ some x
  unfolding abandon_at Connection.abandon
  abandon_at-done reason c h e =
      settle_all-done (unreachable (h.heap c).node_id reason) o (values (pending_at c h)) h.futures
        f x e over

  abandon_each-done :
      (reason : UnreachableReason) (l : List ℕ) (h : AgentHub)
      → h.futures f ≡ some x
      → (abandon_each reason l h).futures f ≡ some x
  unfolding abandon_each
  abandon_each-done reason [] h e = e
  abandon_each-done reason (c ∷ l) h e =
      abandon_each-done reason l (abandon_at reason c h) (abandon_at-done reason c h e)

  displace-done :
      (c : ℕ) (m : Option ℕ) (h : AgentHub)
      → h.futures f ≡ some x
      → (displace c m h).futures f ≡ some x
  displace-done c none h e = e
  displace-done c (some p) h e = ground (arith, abandon_at-done disconnected p h e)

  cancel_on-done :
      (k : String) (h : AgentHub) (m : Option ℕ)
      → h.futures f ≡ some x
      → (cancel_on k h m).futures f ≡ some x
  cancel_on-done k h none e = e
  cancel_on-done k h (some c) e = e

  -- A future that is done keeps its outcome through every step: it is settled once.
  pub Step-done : {h h' : AgentHub} → Step h h' → h.futures f ≡ some x → h'.futures f ≡ some x
  unfolding touched cancel_command shutdown end_call attach detach deliver Connection.deliver
      Connection.settle_found Connection.settle
  Step-done (accept c now node version facts free) e = e
  Step-done {h} (attaching c) e =
      displace-done c (lookup (h.heap c).node_id h.connections)
        (record h { connections = insert (h.heap c).node_id c h.connections }) e
  Step-done {h} (detaching c) e =
      elim (Bool-cases (is_current c (lookup (h.heap c).node_id h.connections))) [
        | inl current ↦ rw current (
            abandon_at-done disconnected c
              (record h { connections = erase (h.heap c).node_id h.connections }) e)
        | inr displaced ↦ rw displaced (abandon_at-done disconnected c h e)
      ]
  Step-done (heartbeat c now facts) e = e
  Step-done {h} {h'} (calling node k own limit callback g c _ began free new) e =
      let (found, same) = begin_call-sent node k own limit callback g c h h' began in
      subst (λ (i : AgentHub). i.futures f ≡ some x) (sym same) (ground arith)
  Step-done {h} (delivering q c) e = ground arith
  Step-done {h} (ending completed k c g y found mine ended) e = e
  Step-done {h} (ending _ k c g y found mine ended) e = ground arith
  Step-done {h} (cancelling node k) e = cancel_on-done k h (lookup node h.connections) e
  Step-done {h} shutting e = abandon_each-done shutting_down (values h.connections) h e

-- In a hub that has the invariant, a call that waits and that a delivery ends is the call of the
-- delivered command, and ends with the delivered result.
pub deliver_own :
    (r : CommandResult) (c f : ℕ) (h : AgentHub) (x y : Future)
    → Sound h
    → h.futures f ≡ some x
    → x.state ≡ waiting
    → (deliver r c h).futures f ≡ some y
    → y.state ≢ waiting
    → (x.command_id ≡ r.command_id) × (y.state ≡ done (answered r))
unfolding deliver Connection.deliver Connection.settle_found Connection.settle
deliver_own r c f h x y s e w e' d = ground (arith, s.owned c f r.command_id)

-- In a hub that has the invariant, where a node has a registered connection with a call that waits
-- on it, another connection of the node is attached: the call ends as unreachable, the new
-- connection is the registered one, and it stays so when the old one is detached at last.
pub attach_displaces :
    (h : AgentHub) (c p f : ℕ) (k : String) (x : Future)
    → Sound h
    → lookup (h.heap c).node_id h.connections ≡ some p
    → p ≢ c
    → lookup k (pending_at p h) ≡ some f
    → h.futures f ≡ some x
    → x.state ≡ waiting
    → ((attach c h).1.futures f
        ≡ some (record x { state = done (unreachable (h.heap c).node_id disconnected) }))
      × (lookup (h.heap c).node_id (attach c h).1.connections ≡ some c)
      × (lookup (h.heap c).node_id (detach p (attach c h).1).connections ≡ some c)
unfolding attach detach abandon_at Connection.abandon
attach_displaces h c p f k x s found ne pending e w = ground (
  arith,
  settle_all_lem (unreachable (h.heap p).node_id disconnected) (values (pending_at p h)) h.futures
      f,
  member-values k f (pending_at p h),
  s.routed (h.heap c).node_id p found,
  lookup-insert (h.heap c).node_id (h.heap c).node_id c h.connections,
  eq_iff (h.heap c).node_id (h.heap c).node_id,
)

-- 0 for healthy, 1 for unknown, 2 for dead.
abbrev pub severity : Liveness → ℕ
severity healthy = 0
severity unknown = 1
severity dead = 2

-- At a later time, with no message between, the liveness of a node is the same or worse.
pub liveness_decays :
    (node : String) (now later : ℕ) (h : AgentHub)
    → now ≤ later
    → severity (liveness node now h) ≤ severity (liveness node later h)
unfolding liveness Connection.liveness
liveness_decays node now later h le = ground arith
