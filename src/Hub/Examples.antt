-- ===== src/Hub/Examples.antt =====
-- The hub with one command in flight, and what ends it.
use mathlib.Core.Bool.{false≢true}
use spark_pulse.Prelude.{ap, is_some, ◌≡◌, ◌≢◌, refl, none, some, [], arith}
use spark_pulse.Prelude.Dict.{lookup, insert}
use spark_pulse.Hub.Connection
use spark_pulse.Hub.Connection.{
  AgentConnection, Future, Futures, FutureState, Outcome, UnreachableReason, CommandResult, waiting,
  done, answered, unreachable, disconnected, shutting_down, cancelled,
}
use spark_pulse.Hub.{
  AgentHub, abandon_each, abandon_at, attach, detach, begin_call, deliver, shutdown, sent,
}
use spark_pulse.Hub.Invariant.{Sound}
use spark_pulse.Hub.Steps.{
  Reach, here, next, attaching, calling, shutting, delivering, shutdown_settles, Reach-Sound,
}
use spark_pulse.Hub.Answers.{Unanswered, Step-Unanswered}
use spark_pulse.Hub.Outcomes.{Step-done, attach_displaces}

abbrev spark : AgentConnection
spark = Connection.new_connection "n1" "1.0" "" 0

-- Two connections of one node, of which none is registered yet.
abbrev quiet : AgentHub
quiet = record {
  epoch = 1;
  default_timeout = 5000;
  connections = [];
  heap = λ c. spark;
  futures = λ f. none;
  notices = [];
}

quiet-Sound : Sound quiet
unfolding lookup
quiet-Sound = record {
  routed = λ n c e. absurd (cc);
  held = λ f x e w. absurd (cc);
  owned = λ c f k e. absurd (cc);
  single = λ f g x y e e' same. absurd (cc);
}

abbrev attached : AgentHub
attached = (attach 0 quiet).1

abbrev busy : AgentHub
busy = sent "k1" none none none 7 0 attached

calls : begin_call "n1" "k1" none none none 7 attached ≡ some (0, busy)
unfolding begin_call attach lookup insert
calls = refl

busy-Reach : Reach quiet busy
unfolding attach lookup
busy-Reach =
    next (next here (attaching 0))
      (calling "n1" "k1" none none none 7 0 busy calls refl (λ g x e. absurd (cc)))

Reach-Sound_example : Sound busy
Reach-Sound_example = Reach-Sound quiet-Sound busy-Reach

abbrev call : Future
call = record { command_id = "k1"; state = waiting }

abbrev reply : CommandResult
reply = record { command_id = "k1"; body = "ok" }

abbrev replied : Future
replied = record { command_id = "k1"; state = done (answered reply) }

abbrev told : Future
told = record { command_id = "k1"; state = done (unreachable "n1" shutting_down) }

shutdown_settles_example : told.state ≢ waiting
shutdown_settles_example = shutdown_settles busy 7 told Reach-Sound_example (
    unfold shutdown abandon_each abandon_at Connection.abandon Connection.settle_all
      Connection.settle attach Connection.send lookup insert in
    refl)

Step-done_example :
    (deliver (record reply { body = "again" }) 0 (deliver reply 0 busy)).futures 7 ≡ some replied
Step-done_example =
    Step-done 7 replied (answered reply) refl (delivering (record reply { body = "again" }) 0) (
      unfold deliver Connection.deliver Connection.settle_found Connection.settle attach
        Connection.send lookup insert in
      refl)

Step-Unanswered_example : Unanswered reply ((shutdown busy).futures 7)
Step-Unanswered_example =
    Step-Unanswered reply 7 {h = busy} {h' = shutdown busy} shutting
      (λ c e. false≢true (
        unfold shutdown deliver attach lookup insert in
        ap (λ (h : AgentHub). is_some (lookup "n1" h.connections)) e))
      (λ x e d. cc)

attach_displaces_example :
    ((attach 1 busy).1.futures 7
      ≡ some (record call { state = done (unreachable "n1" disconnected) }))
    × (lookup "n1" (attach 1 busy).1.connections ≡ some 1)
    × (lookup "n1" (detach 0 (attach 1 busy).1).connections ≡ some 1)
unfolding attach lookup
attach_displaces_example =
    attach_displaces busy 1 0 7 "k1" call Reach-Sound_example (unfold attach lookup insert in refl)
      (omega arith) (unfold attach Connection.send lookup insert in refl) refl refl
