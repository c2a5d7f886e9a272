-- ===== src/Hub/Calls.antt =====
-- Commands in flight (spark_pulse/agent/hub.py): sending, delivering and giving up, and the hub's
-- invariant.
use spark_pulse.Prelude.{
  ℕ, String, ◌≡◌, ◌≢◌, ◌⊎◌, inl, inr, refl, sym, ◌∙◌, Option, none, some, arith, ◌==◌, eq_iff,
  Bool-cases,
}
use spark_pulse.Prelude.Dict.{lookup, lookup-insert, lookup-erase}
use spark_pulse.Hub.Connection
use spark_pulse.Hub.Connection.{
  AgentConnection, Future, Futures, Outcome, UnreachableReason, CommandResult, waiting, done,
  answered, unreachable, disconnected, shutting_down, cancelled, settled,
}
use spark_pulse.Hub.Settling.{settle_found-command, settle_found-keeps}
use spark_pulse.Hub.Invariant.{IsHeld, Sound, pending_at}
use spark_pulse.Hub.{
  AgentHub, sent, after_wait, end_call, deliver, at, Wake, completed, timeout, caller_cancelled,
}

-- No future was made for the command `k`: ids are drawn by `uuid4`.
abbrev pub IsNew : String → AgentHub → Type 0
IsNew k h = (f : ℕ) (x : Future) → h.futures f ≡ some x → x.command_id ≢ k

module _ (k : String) (own limit callback : Option ℕ) (f c : ℕ) (h : AgentHub) where
  sent-pending :
      (d g : ℕ) (j : String)
      → lookup j (pending_at d (sent k own limit callback f c h)) ≡ some g
      → ((j ≡ k) × (g ≡ f)) ⊎ (lookup j (pending_at d h) ≡ some g)
  unfolding Connection.send
  sent-pending d g j e = ground (arith, lookup-insert k j f (pending_at c h), eq_iff k j)

  sent-holds : lookup k (pending_at c (sent k own limit callback f c h)) ≡ some f
  unfolding Connection.send
  sent-holds = ground (arith, lookup-insert k k f (pending_at c h), eq_iff k k)

  sent-keeps :
      (d g : ℕ) (j : String)
      → lookup j (pending_at d h) ≡ some g
      → j ≢ k
      → lookup j (pending_at d (sent k own limit callback f c h)) ≡ some g
  unfolding Connection.send
  sent-keeps d g j e ne = ground (arith, lookup-insert k j f (pending_at c h), eq_iff k j)

  sent-node : (d : ℕ) → ((sent k own limit callback f c h).heap d).node_id ≡ (h.heap d).node_id
  unfolding Connection.send
  sent-node d = ground arith

  sent-IsHeld :
      (n : String)
      → Sound h
      → lookup n h.connections ≡ some c
      → IsNew k h
      → (g : ℕ) (x : Future)
      → at h.futures f (some (record { command_id = k; state = waiting })) g ≡ some x
      → x.state ≡ waiting
      → IsHeld h.connections (sent k own limit callback f c h).heap x.command_id g
  sent-IsHeld n s here new g x e w = elim (Bool-cases (f == g)) [
    | inl same ↦
        let id : x.command_id ≡ k = ground arith in
        record { node = n; holder = c; registered = here; pending = ground (arith, sent-holds, id) }
    | inr other ↦
        let old : h.futures g ≡ some x = ground arith in
        let hold = s.held g x old w in
        record {
          node = hold.node;
          holder = hold.holder;
          registered = hold.registered;
          pending = sent-keeps hold.holder g x.command_id hold.pending (new g x old);
        }
  ]

  sent-owned :
      Sound h
      → h.futures f ≡ none
      → (d g : ℕ) (j : String) → lookup j (pending_at d (sent k own limit callback f c h)) ≡ some g
      → (x : Future) × (at h.futures f (some (record { command_id = k; state = waiting })) g
          ≡ some x)
        × (x.command_id ≡ j)
  sent-owned s free d g j e = elim (sent-pending d g j e) [
    | inl (same, at_f) ↦ (record { command_id = k; state = waiting }, ground arith, sym same)
    | inr old ↦ let (x, found, id) = s.owned d g j old in (x, ground arith, id)
  ]

  sent-single :
      Sound h
      → IsNew k h
      → (g i : ℕ) (x y : Future) → (sent k own limit callback f c h).futures g ≡ some x
      → (sent k own limit callback f c h).futures i ≡ some y
      → x.command_id ≡ y.command_id
      → g ≡ i
  sent-single s new g i x y e e' same = ground (arith, s.single g i x y, new g x, new i y)

  pub sent-Sound :
      (n : String)
      → Sound h
      → lookup n h.connections ≡ some c
      → h.futures f ≡ none
      → IsNew k h
      → Sound (sent k own limit callback f c h)
  sent-Sound n s here free new = record {
    routed = λ m d e. sent-node d ∙ s.routed m d e;
    held = sent-IsHeld n s here new;
    owned = sent-owned s free;
    single = sent-single s new;
  }

module _ (r : CommandResult) (c : ℕ) (h : AgentHub) where
  deliver-before :
      (f : ℕ) (x : Future)
      → (deliver r c h).futures f ≡ some x
      → x.state ≡ waiting
      → h.futures f ≡ some x
  unfolding deliver Connection.deliver Connection.settle_found
  deliver-before f x e w = ground arith

  deliver-command :
      (f : ℕ) (x : Future)
      → (deliver r c h).futures f ≡ some x
      → (y : Future) × (h.futures f ≡ some y) × (y.command_id ≡ x.command_id)
  unfolding deliver Connection.deliver
  deliver-command f x e =
      settle_found-command (answered r) (lookup r.command_id (pending_at c h)) h.futures f x e

  deliver-keeps :
      (f : ℕ) (x : Future)
      → h.futures f ≡ some x
      → (y : Future) × ((deliver r c h).futures f ≡ some y) × (y.command_id ≡ x.command_id)
  unfolding deliver Connection.deliver
  deliver-keeps f x e =
      settle_found-keeps (answered r) (lookup r.command_id (pending_at c h)) h.futures f x e

  deliver-node : (d : ℕ) → ((deliver r c h).heap d).node_id ≡ (h.heap d).node_id
  unfolding deliver Connection.deliver
  deliver-node d = ground arith

  deliver-pending :
      (d f : ℕ) (k : String)
      → lookup k (pending_at d (deliver r c h)) ≡ some f
      → lookup k (pending_at d h) ≡ some f
  unfolding deliver Connection.deliver
  deliver-pending d f k e = ground (arith, lookup-erase r.command_id k (pending_at c h))

  deliver-waiting :
      (d f : ℕ) (k : String) (x : Future)
      → (deliver r c h).futures f ≡ some x
      → x.state ≡ waiting
      → lookup k (pending_at d h) ≡ some f
      → lookup k (pending_at d (deliver r c h)) ≡ some f
  unfolding deliver Connection.deliver Connection.settle_found
  deliver-waiting d f k x e w found =
      ground (arith, lookup-erase r.command_id k (pending_at c h), eq_iff r.command_id k)

  pub deliver-Sound : Sound h → Sound (deliver r c h)
  unfolding deliver
  deliver-Sound s = record {
    routed = λ n d e. deliver-node d ∙ s.routed n d e;
    held = λ f x e w.
        let hold = s.held f x (deliver-before f x e w) w in
        record {
          node = hold.node;
          holder = hold.holder;
          registered = hold.registered;
          pending = deliver-waiting hold.holder f x.command_id x e w hold.pending;
        };
    owned = λ d f k e.
        let (x, found, same) = s.owned d f k (deliver-pending d f k e) in
        let (y, after, also) = deliver-keeps f x found in (y, after, also ∙ same);
    single = λ f g x y e e' same.
        let (x', was, cx) = deliver-command f x e in
        let (y', was', cy) = deliver-command g y e' in
        s.single f g x' y' was was' (cx ∙ same ∙ sym cy);
  }

-- The wait is over: the future of a completed wait is done.
abbrev pub IsOver : Wake → Future → Type 0
IsOver completed x = x.state ≢ waiting
IsOver timeout x = Unit
IsOver caller_cancelled x = Unit

after_wait-command :
    (w : Wake) (k : String) (c f : ℕ) (h : AgentHub) (g : ℕ) (y : Future)
    → (after_wait w k c f h).futures g ≡ some y
    → (z : Future) × (h.futures g ≡ some z) × (z.command_id ≡ y.command_id)
unfolding Connection.settle_found
after_wait-command completed k c f h g y e = (y, e, refl)
after_wait-command _ k c f h g y e = settle_found-command cancelled (some f) h.futures g y e

after_wait-keeps :
    (w : Wake) (k : String) (c f : ℕ) (h : AgentHub) (g : ℕ) (y : Future)
    → h.futures g ≡ some y
    → (z : Future) × ((after_wait w k c f h).futures g ≡ some z) × (z.command_id ≡ y.command_id)
unfolding Connection.settle_found
after_wait-keeps completed k c f h g y e = (y, e, refl)
after_wait-keeps _ k c f h g y e = settle_found-keeps cancelled (some f) h.futures g y e

module _ (w : Wake) (k : String) (c f : ℕ) (x : Future) (h : AgentHub) (s : Sound h)
    (found : h.futures f ≡ some x) (mine : x.command_id ≡ k) (over : IsOver w x) where
  -- What still waits afterwards waited before, and it is another command.
  end_call-waiting :
      (g : ℕ) (y : Future)
      → (end_call w k c f h).futures g ≡ some y
      → y.state ≡ waiting
      → (h.futures g ≡ some y) × (y.command_id ≢ k)
  unfolding end_call Connection.settle
  end_call-waiting g y e v = ground (arith, s.single f g x y found)

  end_call-keeps :
      (d g : ℕ) (j : String)
      → lookup j (pending_at d h) ≡ some g
      → j ≢ k
      → lookup j (pending_at d (end_call w k c f h)) ≡ some g
  unfolding end_call Connection.discard Connection.cancel_command
  end_call-keeps d g j e ne = ground (arith, lookup-erase k j (pending_at c h), eq_iff k j)

  end_call-pending :
      (d g : ℕ) (j : String)
      → lookup j (pending_at d (end_call w k c f h)) ≡ some g
      → lookup j (pending_at d h) ≡ some g
  unfolding end_call Connection.discard Connection.cancel_command
  end_call-pending d g j e = ground (arith, lookup-erase k j (pending_at c h))

  end_call-command :
      (g : ℕ) (y : Future)
      → (end_call w k c f h).futures g ≡ some y
      → (z : Future) × (h.futures g ≡ some z) × (z.command_id ≡ y.command_id)
  unfolding end_call
  end_call-command g y e = after_wait-command w k c f h g y e

  end_call-futures_keep :
      (g : ℕ) (y : Future)
      → h.futures g ≡ some y
      → (z : Future) × ((end_call w k c f h).futures g ≡ some z) × (z.command_id ≡ y.command_id)
  unfolding end_call
  end_call-futures_keep g y e = after_wait-keeps w k c f h g y e

  end_call-node : (d : ℕ) → ((end_call w k c f h).heap d).node_id ≡ (h.heap d).node_id
  unfolding end_call Connection.discard Connection.cancel_command
  end_call-node d = ground arith

  connections-end_call : (end_call w k c f h).connections ≡ h.connections
  unfolding end_call
  connections-end_call = ground arith

  pub end_call-Sound : Sound (end_call w k c f h)
  end_call-Sound = record {
    routed = λ n d e. end_call-node d ∙ s.routed n d (rw connections-end_call at e);
    held = λ g y e v.
        let (old, other) = end_call-waiting g y e v in
        let hold = s.held g y old v in
        record {
          node = hold.node;
          holder = hold.holder;
          registered = rw connections-end_call hold.registered;
          pending = end_call-keeps hold.holder g y.command_id hold.pending other;
        };
    owned = λ d g j e.
        let (y, old, same) = s.owned d g j (end_call-pending d g j e) in
        let (z, after, also) = end_call-futures_keep g y old in (z, after, also ∙ same);
    single = λ g i y z e e' same.
        let (y', was, cy) = end_call-command g y e in
        let (z', was', cz) = end_call-command i z e' in
        s.single g i y' z' was was' (cy ∙ same ∙ sym cz);
  }
