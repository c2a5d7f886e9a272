-- ===== src/Hub.antt =====
-- The control plane's registry of connected agents (`AgentHub` in spark_pulse/agent/hub.py). A
-- connection is an object with an identity, so the hub's state holds a heap of connections beside
-- the registry of references to them, and the heap of futures.
pub mod Connection
mod Settling
pub mod Invariant
pub mod Calls
pub mod Steps
pub mod Answers
pub mod Outcomes
pub mod Examples
use mathlib.Core.List.{foldl}
use spark_pulse.Prelude.{
  ℕ, String, Bool, true, false, Option, none, some, List, [], ◌∷◌, ◌++◌, ◌==◌, is_some, or_default,
  if◌then◌else◌,
}
use spark_pulse.Prelude.Dict.{Dict, lookup, insert, erase, values}
use spark_pulse.Hub.Connection
use spark_pulse.Hub.Connection.{
  AgentConnection, Future, Futures, Outcome, FutureState, CommandResult, UnreachableReason,
  Liveness, waiting, done, unreachable, cancelled, not_connected, disconnected, timed_out,
  shutting_down, dead,
}

pub record AgentHub : Type 0 where
  pub epoch : ℕ
  pub default_timeout : ℕ
  -- `_connections`: the reference that is registered for a node
  pub connections : Dict ℕ
  pub heap : ℕ → AgentConnection
  pub futures : Futures
  -- the calls of the registered listeners, in order
  pub notices : List (String × Bool)

abbrev pub at : {A : Type 0} → (ℕ → A) → ℕ → A → ℕ → A
at f c v i = if c == i then v else f i

abbrev notify : String → Bool → AgentHub → AgentHub
notify node up h = record h { notices = h.notices ++ (node, up) ∷ [] }

-- `connection.abandon(reason)` on the object `c`.
unfoldable pub abandon_at : UnreachableReason → ℕ → AgentHub → AgentHub
unfolding Connection.abandon
abandon_at reason c h =
    let (left, futures) = Connection.abandon reason (h.heap c) h.futures in
    record h { heap = at h.heap c left; futures = futures }

abbrev displace : ℕ → Option ℕ → AgentHub → AgentHub
displace c none h = h
displace c (some previous) h = if previous == c then h else abandon_at disconnected previous h

-- The reference that the new one displaced, if any, and the hub.
unfoldable pub attach : ℕ → AgentHub → Option ℕ × AgentHub
attach c h =
    let node = (h.heap c).node_id in
    let previous = lookup node h.connections in
    (
      previous,
      notify node true
          (displace c previous (record h { connections = insert node c h.connections })),
    )

abbrev is_current : ℕ → Option ℕ → Bool
is_current c none = false
is_current c (some d) = d == c

unfoldable pub detach : ℕ → AgentHub → AgentHub
detach c h =
    let node = (h.heap c).node_id in
    let left =
      if is_current c (lookup node h.connections)
      then record h { connections = erase node h.connections }
      else h in
    notify node false (abandon_at disconnected c left)

unfoldable pub is_connected : String → AgentHub → Bool
is_connected node h = is_some (lookup node h.connections)

abbrev liveness_of : ℕ → AgentHub → Option ℕ → Liveness
liveness_of now h none = dead
liveness_of now h (some c) = Connection.liveness now (h.heap c)

unfoldable pub liveness : String → ℕ → AgentHub → Liveness
liveness node now h = liveness_of now h (lookup node h.connections)

-- The deadline of a call: the command's own, else the caller's, else the hub's.
unfoldable pub deadline_of : Option ℕ → Option ℕ → AgentHub → ℕ
deadline_of own timeout h = or_default own (or_default timeout h.default_timeout)

-- The hub once the command `k` is sent on the connection `c`, with `f` for its future.
abbrev pub sent : String → Option ℕ → Option ℕ → Option ℕ → ℕ → ℕ → AgentHub → AgentHub
sent k own timeout callback f c h = record h {
  heap = at h.heap c (Connection.send k (deadline_of own timeout h) callback f (h.heap c));
  futures = at h.futures f (some (record { command_id = k; state = waiting }));
}

abbrev pub begin_on :
    String → Option ℕ → Option ℕ → Option ℕ → ℕ → AgentHub → Option ℕ → Option (ℕ × AgentHub)
begin_on k own timeout callback f h none = none
begin_on k own timeout callback f h (some c) = some (c, sent k own timeout callback f c h)

-- What `call` does before its first wait. `none` is the exception that it raises at once, else
-- there is the connection that it sent the command on, with the hub. `f` is the new future.
unfoldable pub begin_call :
    String → String → Option ℕ → Option ℕ → Option ℕ → ℕ → AgentHub → Option (ℕ × AgentHub)
begin_call node k own timeout callback f h =
    begin_on k own timeout callback f h (lookup node h.connections)

abbrev on_connection : (AgentConnection → AgentConnection) → ℕ → AgentHub → AgentHub
on_connection g c h = record h { heap = at h.heap c (g (h.heap c)) }

-- A heartbeat on the connection `c`.
unfoldable pub touched : ℕ → ℕ → Option String → AgentHub → AgentHub
touched c now facts h = on_connection (Connection.touch now facts) c h

-- How the wait of `call` ends: the future is done, or the deadline passes, or the caller is
-- cancelled. `asyncio.wait_for` cancels the future in the last two.
pub data Wake : Type 0 where
  completed timeout caller_cancelled : Wake

abbrev after_wait : Wake → String → ℕ → ℕ → AgentHub → AgentHub
after_wait completed k c f h = h
after_wait _ k c f h =
    on_connection (Connection.cancel_command k) c
      (record h { futures = Connection.settle cancelled f h.futures })

-- The rest of `call`: the `except` clauses, and `discard` in the `finally`.
unfoldable pub end_call : Wake → String → ℕ → ℕ → AgentHub → AgentHub
end_call w k c f h = on_connection (Connection.discard k) c (after_wait w k c f h)

-- What `call` gives its caller: a result, or `NodeUnreachable`, or its own cancellation. There is
-- no answer while the future waits.
unfoldable pub answer : Wake → String → Option Future → Option Outcome
answer timeout node x = some (unreachable node timed_out)
answer caller_cancelled node x = some cancelled
answer completed node none = none
answer completed node (some x) = elim x.state [ waiting ↦ none | done o ↦ some o ]

abbrev cancel_on : String → AgentHub → Option ℕ → AgentHub
cancel_on k h none = h
cancel_on k h (some c) = on_connection (Connection.cancel_command k) c h

unfoldable pub cancel_command : String → String → AgentHub → AgentHub
cancel_command node k h = cancel_on k h (lookup node h.connections)

-- A result that arrives on the connection `c`.
unfoldable pub deliver : CommandResult → ℕ → AgentHub → AgentHub
deliver r c h =
    let (left, futures) = Connection.deliver r (h.heap c) h.futures in
    record h { heap = at h.heap c left; futures = futures }

unfoldable pub abandon_each : UnreachableReason → List ℕ → AgentHub → AgentHub
abandon_each reason [] h = h
abandon_each reason (c ∷ l) h = abandon_each reason l (abandon_at reason c h)

unfoldable pub shutdown : AgentHub → AgentHub
shutdown h = record (abandon_each shutting_down (values h.connections) h) { connections = [] }
