-- ===== src/Hub/Answers.antt =====
-- What a caller of the hub (spark_pulse/agent/hub.py) can be told.
use spark_pulse.Prelude.{
  ℕ, String, ◌≡◌, ◌≢◌, inl, inr, sym, subst, ap, Option, none, some, List, [], ◌∷◌, arith, ◌==◌,
  Bool-cases,
}
use spark_pulse.Prelude.Dict.{lookup, insert, erase, values}
use spark_pulse.Hub.Connection
use spark_pulse.Hub.Connection.{
  AgentConnection, Future, Futures, FutureState, Outcome, UnreachableReason, CommandResult, waiting,
  done, answered, unreachable, disconnected, shutting_down, cancelled, settled, timed_out, Liveness,
  healthy, unknown, dead,
}
use spark_pulse.Hub.Settling.{settle_all-unanswered, settle_found-unanswered}
use spark_pulse.Hub.Invariant.{pending_at}
use spark_pulse.Hub.Steps.{
  Step, accept, attaching, detaching, heartbeat, calling, delivering, ending, cancelling, shutting,
  begin_call-sent,
}
use spark_pulse.Hub.{
  AgentHub, abandon_at, end_call, deliver, abandon_each, shutdown, Wake, completed, attach, detach,
  touched, cancel_command, displace, is_current, after_wait, cancel_on,
}

-- The future, if there is one, is not done with the answer `r`.
abbrev pub Unanswered : CommandResult → Option Future → Type 0
Unanswered r m = (x : Future) → m ≡ some x → x.state ≢ done (answered r)

module _ (r : CommandResult) (f : ℕ) where
  abandon_at-Unanswered :
      (reason : UnreachableReason) (c : ℕ) (h : AgentHub)
      → Unanswered r (h.futures f)
      → Unanswered r ((abandon_at reason c h).futures f)
  unfolding abandon_at Connection.abandon
  abandon_at-Unanswered reason c h u y e d =
      settle_all-unanswered (unreachable (h.heap c).node_id reason) r (λ e. cc)
        (values (pending_at c h)) h.futures f u y e d

  abandon_each-Unanswered :
      (reason : UnreachableReason) (l : List ℕ) (h : AgentHub)
      → Unanswered r (h.futures f)
      → Unanswered r ((abandon_each reason l h).futures f)
  unfolding abandon_each
  abandon_each-Unanswered reason [] h u = u
  abandon_each-Unanswered reason (c ∷ l) h u =
      abandon_each-Unanswered reason l (abandon_at reason c h) (abandon_at-Unanswered reason c h u)

  displace-Unanswered :
      (c : ℕ) (m : Option ℕ) (h : AgentHub)
      → Unanswered r (h.futures f)
      → Unanswered r ((displace c m h).futures f)
  displace-Unanswered c none h u = u
  displace-Unanswered c (some p) h u = elim (Bool-cases (p == c)) [
    | inl same ↦ rw same u
    | inr other ↦ rw other (abandon_at-Unanswered disconnected p h u)
  ]

  detach-Unanswered :
      (c : ℕ) (h : AgentHub) → Unanswered r (h.futures f) → Unanswered r ((detach c h).futures f)
  unfolding detach
  detach-Unanswered c h u =
      elim (Bool-cases (is_current c (lookup (h.heap c).node_id h.connections))) [
        | inl current ↦ rw current (
            abandon_at-Unanswered disconnected c
              (record h { connections = erase (h.heap c).node_id h.connections }) u)
        | inr displaced ↦ rw displaced (abandon_at-Unanswered disconnected c h u)
      ]

  attach-Unanswered :
      (c : ℕ) (h : AgentHub) → Unanswered r (h.futures f) → Unanswered r ((attach c h).1.futures f)
  unfolding attach
  attach-Unanswered c h u =
      displace-Unanswered c (lookup (h.heap c).node_id h.connections)
        (record h { connections = insert (h.heap c).node_id c h.connections }) u

  settle-Unanswered :
      (g : ℕ) (fs : Futures)
      → Unanswered r (fs f)
      → Unanswered r (Connection.settle cancelled g fs f)
  unfolding Connection.settle_all
  settle-Unanswered g fs u y e = settle_all-unanswered cancelled r (λ e. cc) (g ∷ []) fs f u y e

  after_wait-Unanswered :
      (w : Wake) (k : String) (c g : ℕ) (h : AgentHub)
      → Unanswered r (h.futures f)
      → Unanswered r ((after_wait w k c g h).futures f)
  after_wait-Unanswered completed k c g h u = u
  after_wait-Unanswered _ k c g h u = settle-Unanswered g h.futures u

  cancel_on-Unanswered :
      (k : String) (h : AgentHub) (m : Option ℕ)
      → Unanswered r (h.futures f)
      → Unanswered r ((cancel_on k h m).futures f)
  cancel_on-Unanswered k h none u = u
  cancel_on-Unanswered k h (some c) u = u

  -- A delivery answers only with what it delivers.
  deliver-Unanswered :
      (q : CommandResult) (c : ℕ) (h : AgentHub)
      → q ≢ r
      → Unanswered r (h.futures f)
      → Unanswered r ((deliver q c h).futures f)
  unfolding deliver Connection.deliver
  deliver-Unanswered q c h ne u y e d =
      settle_found-unanswered (answered q) r (λ same. ne (cc))
        (lookup q.command_id (pending_at c h)) h.futures f u y e d

  -- A future that is not answered with `r` is not answered with it after a step either, unless a
  -- delivery of `r` on some connection gives the hub that the step gives.
  pub Step-Unanswered :
      {h h' : AgentHub}
      → Step h h'
      → ((c : ℕ) → h' ≢ deliver r c h)
      → Unanswered r (h.futures f)
      → Unanswered r (h'.futures f)
  unfolding touched cancel_command shutdown end_call
  Step-Unanswered (accept c now node version facts free) other u = u
  Step-Unanswered {h} (attaching c) other u = attach-Unanswered c h u
  Step-Unanswered {h} (detaching c) other u = detach-Unanswered c h u
  Step-Unanswered (heartbeat c now facts) other u = u
  Step-Unanswered {h} {h'} (calling node k own limit callback g c _ e free new) other u =
      let (found, same) = begin_call-sent node k own limit callback g c h h' e in
      subst (λ (i : AgentHub). Unanswered r (i.futures f)) (sym same)
        (λ y e' d. ground (arith, u y))
  Step-Unanswered {h} (delivering q c) other u =
      deliver-Unanswered q c h (λ same. other c (ap (λ (a : CommandResult). deliver a c h) same)) u
  Step-Unanswered {h} (ending w k c g x found mine over) other u = after_wait-Unanswered w k c g h u
  Step-Unanswered {h} (cancelling node k) other u =
      cancel_on-Unanswered k h (lookup node h.connections) u
  Step-Unanswered {h} shutting other u =
      abandon_each-Unanswered shutting_down (values h.connections) h u
