-- ===== src/Hub/Steps.antt =====
-- The hub over time (spark_pulse/agent/hub.py): the steps that the event loop can take, and runs.
use spark_pulse.Prelude.{
  ℕ, String, ◌≡◌, ◌≢◌, refl, sym, ◌∙◌, subst, ap, true, Option, none, some, List, [], ◌∷◌, arith,
  member, or_default,
}
use spark_pulse.Prelude.Dict.{lookup, values, member-values}
use spark_pulse.Hub.Connection
use spark_pulse.Hub.Connection.{
  AgentConnection, Future, Futures, FutureState, Outcome, UnreachableReason, CommandResult, waiting,
  done, answered, unreachable, disconnected, shutting_down, cancelled, settled,
}
use spark_pulse.Hub.Invariant.{
  Sound, pending_at, abandon_at-Sound, abandon_at-before, abandon_at-waiting, attach-Sound,
  detach-Sound,
}
use spark_pulse.Hub.Calls.{IsNew, IsOver, sent-Sound, deliver-Sound, end_call-Sound}
use spark_pulse.Hub.{
  AgentHub, abandon_at, begin_call, end_call, deliver, abandon_each, shutdown, at, Wake, attach,
  detach, sent, touched, cancel_command, cancel_on, begin_on,
}

-- A future that waits once every connection of `l` is abandoned waited before, and none of them
-- held it.
abandon_each-waiting :
    (reason : UnreachableReason) (l : List ℕ) (h : AgentHub) (f : ℕ) (x : Future)
    → (abandon_each reason l h).futures f ≡ some x
    → x.state ≡ waiting
    → (h.futures f ≡ some x)
      × ((c : ℕ) (k : String) → member c l ≡ true → lookup k (pending_at c h) ≢ some f)
unfolding abandon_each
abandon_each-waiting reason [] h f x e w = (e, λ c k m _. cc)
abandon_each-waiting reason (p ∷ l) h f x e w =
    let (mid, rest) = abandon_each-waiting reason l (abandon_at reason p h) f x e w in
    (
      abandon_at-before reason p h f x mid w,
      λ c k m found.
          let (other, kept) = abandon_at-waiting reason p h f c k x mid w found in
          rest c k (ground arith) kept,
    )

-- In a hub that has the invariant, a shutdown leaves no caller waiting: every command in flight is
-- settled.
pub shutdown_settles :
    (h : AgentHub) (f : ℕ) (x : Future)
    → Sound h
    → (shutdown h).futures f ≡ some x
    → x.state ≢ waiting
unfolding shutdown
shutdown_settles h f x s e w =
    let (before, none_held) = abandon_each-waiting shutting_down (values h.connections) h f x e w in
    let hold = s.held f x before w in
    none_held hold.holder x.command_id
      (member-values hold.node hold.holder h.connections hold.registered) hold.pending

abandon_each-Sound :
    (reason : UnreachableReason) (l : List ℕ) (h : AgentHub)
    → Sound h
    → Sound (abandon_each reason l h)
unfolding abandon_each
abandon_each-Sound reason [] h s = s
abandon_each-Sound reason (p ∷ l) h s =
    abandon_each-Sound reason l (abandon_at reason p h)
      (unfold abandon_at in abandon_at-Sound reason p h h.connections s s.routed (λ n c e ne. e))

shutdown-Sound : (h : AgentHub) → Sound h → Sound (shutdown h)
unfolding shutdown lookup
shutdown-Sound h s =
    let left = abandon_each-Sound shutting_down (values h.connections) h s in
    record {
      routed = λ n c e. cc;
      held = λ f x e w. absurd (shutdown_settles h f x s e w);
      owned = left.owned;
      single = left.single;
    }

-- Whether no node is registered with the object `c`.
abbrev pub IsFree : ℕ → AgentHub → Type 0
IsFree c h = (n : String) → lookup n h.connections ≢ some c

abbrev accepted : ℕ → AgentConnection → AgentHub → AgentHub
accepted c new h = record h { heap = at h.heap c new }

-- What the event loop can do next. The ids of commands and the identities of new objects are fresh.
pub data Step (h : AgentHub) : AgentHub → Type 0 where
  accept :
      (c now : ℕ) (node version facts : String)
      → IsFree c h
      → Step h (accepted c (Connection.new_connection node version facts now) h)
  attaching : (c : ℕ) → Step h (attach c h).1
  detaching : (c : ℕ) → Step h (detach c h)
  heartbeat : (c now : ℕ) (facts : Option String) → Step h (touched c now facts h)
  calling :
      (node k : String) (own limit callback : Option ℕ) (f c : ℕ) (h' : AgentHub)
      → begin_call node k own limit callback f h ≡ some (c, h')
      → h.futures f ≡ none
      → IsNew k h
      → Step h h'
  delivering : (r : CommandResult) (c : ℕ) → Step h (deliver r c h)
  ending :
      (w : Wake) (k : String) (c f : ℕ) (x : Future)
      → h.futures f ≡ some x
      → x.command_id ≡ k
      → IsOver w x
      → Step h (end_call w k c f h)
  cancelling : (node k : String) → Step h (cancel_command node k h)
  shutting : Step h (shutdown h)

pub data Reach (h : AgentHub) : AgentHub → Type 0 where
  here : Reach h h
  next : {i j : AgentHub} → Reach h i → Step i j → Reach h j

accepted-Sound :
    (c now : ℕ) (node version facts : String) (h : AgentHub)
    → IsFree c h
    → Sound h
    → Sound (accepted c (Connection.new_connection node version facts now) h)
unfolding lookup
accepted-Sound c now node version facts h free s = record {
  routed = λ n d e. ground (arith, s.routed n d, free n);
  held = λ f x e w.
      let hold = s.held f x e w in
      record {
        node = hold.node;
        holder = hold.holder;
        registered = hold.registered;
        pending = ground (arith, free hold.node, hold.registered, hold.pending);
      };
  owned = λ d f k e. s.owned d f k (ground arith);
  single = s.single;
}

begin_on-sent :
    (k : String) (own limit callback : Option ℕ) (f c : ℕ) (h h' : AgentHub) (m : Option ℕ)
    → begin_on k own limit callback f h m ≡ some (c, h')
    → (m ≡ some c) × (h' ≡ sent k own limit callback f c h)
begin_on-sent k own limit callback f c h h' none e = absurd (cc)
begin_on-sent k own limit callback f c h h' (some d) e =
    let was = ap (λ (o : Option (ℕ × AgentHub)). or_default o (c, h')) e in
    let same : d ≡ c = ap (λ (p : ℕ × AgentHub). p.0) was in
    (
      ap some same,
      sym (ap (λ (p : ℕ × AgentHub). p.1) was)
          ∙ ap (λ (i : ℕ). sent k own limit callback f i h) same,
    )

pub begin_call-sent :
    (node k : String) (own limit callback : Option ℕ) (f c : ℕ) (h h' : AgentHub)
    → begin_call node k own limit callback f h ≡ some (c, h')
    → (lookup node h.connections ≡ some c) × (h' ≡ sent k own limit callback f c h)
unfolding begin_call
begin_call-sent node k own limit callback f c h h' e =
    begin_on-sent k own limit callback f c h h' (lookup node h.connections) e

begin_call-Sound :
    (node k : String) (own limit callback : Option ℕ) (f c : ℕ) (h h' : AgentHub)
    → begin_call node k own limit callback f h ≡ some (c, h')
    → h.futures f ≡ none
    → IsNew k h
    → Sound h
    → Sound h'
begin_call-Sound node k own limit callback f c h h' e free new s =
    let (found, same) = begin_call-sent node k own limit callback f c h h' e in
    subst Sound (sym same) (sent-Sound k own limit callback f c h node s found free new)

-- Replacing a connection by one with the same node and the same commands in flight.
replaced-Sound :
    (c : ℕ) (new : AgentConnection) (h : AgentHub)
    → new.node_id ≡ (h.heap c).node_id
    → new.pending ≡ pending_at c h
    → Sound h
    → Sound (accepted c new h)
replaced-Sound c new h node same s = record {
  routed = λ n d e. ground (arith, s.routed n d);
  held = λ f x e w.
      let hold = s.held f x e w in
      record {
        node = hold.node;
        holder = hold.holder;
        registered = hold.registered;
        pending = ground (arith, hold.pending);
      };
  owned = λ d f k e. s.owned d f k (ground arith);
  single = s.single;
}

cancel_on-Sound : (k : String) (h : AgentHub) (m : Option ℕ) → Sound h → Sound (cancel_on k h m)
unfolding Connection.cancel_command
cancel_on-Sound k h none s = s
cancel_on-Sound k h (some c) s =
    replaced-Sound c (Connection.cancel_command k (h.heap c)) h refl refl s

-- Every step keeps the invariant of the hub: registered connections stand under their own nodes,
-- and each command that still waits is held by one of them.
pub Step-Sound : {h h' : AgentHub} → Step h h' → Sound h → Sound h'
unfolding touched cancel_command Connection.touch
Step-Sound {h} (accept c now node version facts free) s =
    accepted-Sound c now node version facts h free s
Step-Sound {h} (attaching c) s = attach-Sound c h s
Step-Sound {h} (detaching c) s = detach-Sound c h s
Step-Sound {h} (heartbeat c now facts) s =
    replaced-Sound c (Connection.touch now facts (h.heap c)) h refl refl s
Step-Sound {h} {h'} (calling node k own limit callback f c _ e free new) s =
    begin_call-Sound node k own limit callback f c h h' e free new s
Step-Sound {h} (delivering r c) s = deliver-Sound r c h s
Step-Sound {h} (ending w k c f x found mine over) s = end_call-Sound w k c f x h s found mine over
Step-Sound {h} (cancelling node k) s = cancel_on-Sound k h (lookup node h.connections) s
Step-Sound {h} shutting s = shutdown-Sound h s

-- Every run from a hub that has the invariant keeps it: registered connections stand under their own
-- nodes, each command that still waits is held by one of them, a pending entry belongs to the
-- command that it stands under, and a command has one future.
pub Reach-Sound : {h h' : AgentHub} → Sound h → Reach h h' → Sound h'
Reach-Sound s here = s
Reach-Sound s (next r st) = Step-Sound st (Reach-Sound s r)
