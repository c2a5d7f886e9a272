-- ===== src/Hub/Connection.antt =====
-- One agent's stream, from the control plane's side (`AgentConnection` in spark_pulse/agent/hub.py),
-- and the futures that its commands wait on. Times are milliseconds.
use spark_pulse.Prelude.{
  ℕ, ◌-◌, String, Bool, true, false, Option, none, some, List, [], ◌∷◌, ◌++◌, length, ltb, ◌==◌,
  truthy, if◌then◌else◌,
}
use spark_pulse.Prelude.Dict.{Dict, lookup, insert, erase, values}

-- `UnreachableReason` of errors.py.
pub data UnreachableReason : Type 0 where
  not_connected disconnected timed_out shutting_down : UnreachableReason

-- The agent's `CommandResult`: the id of its command, and its body (an answer or a failure).
pub record CommandResult : Type 0 where
  pub command_id : String
  pub body : String

-- How a future ended. `cancelled` is what `asyncio` makes of one whose waiter is gone.
pub data Outcome : Type 0 where
  answered : CommandResult → Outcome
  unreachable : String → UnreachableReason → Outcome
  cancelled : Outcome

pub data FutureState : Type 0 where
  waiting : FutureState
  done : Outcome → FutureState

-- A future, with the command that it was made for.
pub record Future : Type 0 where
  pub command_id : String
  pub state : FutureState

-- The futures, by identity.
abbrev pub Futures : Type 0
Futures = ℕ → Option Future

-- What is queued for the agent.
pub data Message : Type 0 where
  command : String → ℕ → Message
  cancel : String → Message

pub data Liveness : Type 0 where
  healthy unknown dead : Liveness

abbrev pub suspect_after : ℕ
suspect_after = 15000

abbrev pub dead_after : ℕ
dead_after = 60000

pub record AgentConnection : Type 0 where
  pub node_id : String
  pub agent_version : String
  pub facts : String
  pub connected_at : ℕ
  pub last_seen : ℕ
  pub outbox : List Message
  pub closed : Bool
  -- The future of each command in flight, and the callback that hears of its progress.
  pub pending : Dict ℕ
  pub progress : Dict ℕ

-- `AgentConnection(node_id, agent_version=..., facts=...)` at the moment `now`.
abbrev pub new_connection : String → String → String → ℕ → AgentConnection
new_connection node version facts now = record {
  node_id = node;
  agent_version = version;
  facts = facts;
  connected_at = now;
  last_seen = now;
  outbox = [];
  closed = false;
  pending = [];
  progress = [];
}

-- Facts that are absent or empty change nothing.
abbrev new_facts : Option String → String → String
new_facts none old = old
new_facts (some f) old = if truthy f then f else old

unfoldable pub touch : ℕ → Option String → AgentConnection → AgentConnection
touch now facts c = record c { last_seen = now; facts = new_facts facts c.facts }

-- The clock is monotonic, so an age is never negative.
unfoldable pub liveness : ℕ → AgentConnection → Liveness
liveness now c =
    let age = now - c.last_seen in
    if ltb age suspect_after then healthy else if ltb age dead_after then unknown else dead

abbrev pub with_progress : String → Option ℕ → Dict ℕ → Dict ℕ
with_progress k none d = d
with_progress k (some callback) d = insert k callback d

-- `f` is the future that the loop creates for the command `k`.
unfoldable pub send : String → ℕ → Option ℕ → ℕ → AgentConnection → AgentConnection
send k deadline callback f c = record c {
  pending = insert k f c.pending;
  progress = with_progress k callback c.progress;
  outbox = c.outbox ++ command k deadline ∷ [];
}

unfoldable pub cancel_command : String → AgentConnection → AgentConnection
cancel_command k c = record c { outbox = c.outbox ++ cancel k ∷ [] }

unfoldable pub discard : String → AgentConnection → AgentConnection
discard k c = record c { pending = erase k c.pending; progress = erase k c.progress }

-- A future is settled only while it waits: `if not future.done()`.
abbrev pub settled : Outcome → Future → Future
settled o f = record f { state = elim f.state [ waiting ↦ done o | done p ↦ done p ] }

unfoldable pub settle : Outcome → ℕ → Futures → Futures
settle o f fs i = if f == i then elim (fs i) [ none ↦ none | some x ↦ some (settled o x) ] else fs i

unfoldable pub settle_found : Outcome → Option ℕ → Futures → Futures
unfolding settle
settle_found o none fs = fs
settle_found o (some f) fs = settle o f fs

unfoldable pub deliver : CommandResult → AgentConnection → Futures → AgentConnection × Futures
deliver r c fs = (
  record c { pending = erase r.command_id c.pending; progress = erase r.command_id c.progress },
  settle_found (answered r) (lookup r.command_id c.pending) fs,
)

-- The callback that a progress message is handed to, if any.
unfoldable pub deliver_progress : String → AgentConnection → Option ℕ
deliver_progress k c = lookup k c.progress

unfoldable pub settle_all : Outcome → List ℕ → Futures → Futures
settle_all o [] fs = fs
settle_all o (f ∷ l) fs = settle_all o l (settle o f fs)

unfoldable pub abandon : UnreachableReason → AgentConnection → Futures → AgentConnection × Futures
abandon reason c fs = (
  record c { closed = true; pending = []; progress = [] },
  settle_all (unreachable c.node_id reason) (values c.pending) fs,
)

unfoldable pub in_flight : AgentConnection → ℕ
in_flight c = length c.pending
