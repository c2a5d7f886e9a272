-- ===== src/Hub/Invariant.antt =====
-- The invariant of the hub (spark_pulse/agent/hub.py): which connection holds a command that waits.
use spark_pulse.Prelude.{
  ℕ, String, ◌≡◌, ◌≢◌, ◌⊎◌, inl, inr, refl, sym, ◌∙◌, true, Option, none, some, arith, ◌==◌, eq_iff,
  Bool-cases,
}
use spark_pulse.Prelude.Dict.{
  Dict, lookup, insert, erase, values, lookup-insert, lookup-erase, member-values,
}
use spark_pulse.Hub.Connection.{
  AgentConnection, Future, Futures, UnreachableReason, waiting, unreachable, disconnected, abandon,
}
use spark_pulse.Hub.Settling.{settle_all-waiting, settle_all-command, settle_all-keeps}
use spark_pulse.Hub.{AgentHub, abandon_at, attach, detach, displace, is_current}

abbrev pub pending_at : ℕ → AgentHub → Dict ℕ
pending_at c h = (h.heap c).pending

-- The future `f` of the command `k` is held by a registered connection.
pub record IsHeld (registry : Dict ℕ) (heap : ℕ → AgentConnection) (k : String) (f : ℕ)
    : Type 0 where
  pub node : String
  pub holder : ℕ
  pub registered : lookup node registry ≡ some holder
  pub pending : lookup k (heap holder).pending ≡ some f

pub record IsSound (registry : Dict ℕ) (heap : ℕ → AgentConnection) (futures : Futures)
    : Type 0 where
  -- a connection is registered for its own node
  pub routed : (n : String) (c : ℕ) → lookup n registry ≡ some c → (heap c).node_id ≡ n
  pub held :
      (f : ℕ) (x : Future)
      → futures f ≡ some x
      → x.state ≡ waiting
      → IsHeld registry heap x.command_id f
  -- a pending entry belongs to the command that it stands under
  pub owned :
      (c f : ℕ) (k : String)
      → lookup k (heap c).pending ≡ some f
      → (x : Future) × (futures f ≡ some x) × (x.command_id ≡ k)
  -- a command has one future
  pub single :
      (f g : ℕ) (x y : Future)
      → futures f ≡ some x
      → futures g ≡ some y
      → x.command_id ≡ y.command_id
      → f ≡ g

abbrev pub Sound : AgentHub → Type 0
Sound h = IsSound h.connections h.heap h.futures

module _ (reason : UnreachableReason) (p : ℕ) (h : AgentHub) where
  pub abandon_at-before :
      (f : ℕ) (x : Future)
      → (abandon_at reason p h).futures f ≡ some x
      → x.state ≡ waiting
      → h.futures f ≡ some x
  unfolding abandon_at abandon
  abandon_at-before f x e w =
      (settle_all-waiting (unreachable (h.heap p).node_id reason) (values (pending_at p h))
        h.futures f x e w).0

  -- What still waits after `abandon` is on another connection.
  pub abandon_at-waiting :
      (f c : ℕ) (k : String) (x : Future)
      → (abandon_at reason p h).futures f ≡ some x
      → x.state ≡ waiting
      → lookup k (pending_at c h) ≡ some f
      → (c ≢ p) × (lookup k (pending_at c (abandon_at reason p h)) ≡ some f)
  unfolding abandon_at abandon
  abandon_at-waiting f c k x e w found =
      let (old, free) =
        settle_all-waiting (unreachable (h.heap p).node_id reason) (values (pending_at p h))
          h.futures f x e w in
      ground (arith, old, free, member-values k f (pending_at p h))

  pub abandon_at-command :
      (f : ℕ) (x : Future)
      → (abandon_at reason p h).futures f ≡ some x
      → (y : Future) × (h.futures f ≡ some y) × (y.command_id ≡ x.command_id)
  unfolding abandon_at abandon
  abandon_at-command f x e =
      settle_all-command (unreachable (h.heap p).node_id reason) (values (pending_at p h)) h.futures
        f x e

  pub abandon_at-keeps :
      (f : ℕ) (x : Future)
      → h.futures f ≡ some x
      → (y : Future) × ((abandon_at reason p h).futures f ≡ some y) × (y.command_id ≡ x.command_id)
  unfolding abandon_at abandon
  abandon_at-keeps f x e =
      settle_all-keeps (unreachable (h.heap p).node_id reason) (values (pending_at p h)) h.futures f
        x e

  pub abandon_at-node : (c : ℕ) → ((abandon_at reason p h).heap c).node_id ≡ (h.heap c).node_id
  unfolding abandon_at abandon
  abandon_at-node c = ground arith

  pub abandon_at-pending :
      (c f : ℕ) (k : String)
      → lookup k (pending_at c (abandon_at reason p h)) ≡ some f
      → lookup k (pending_at c h) ≡ some f
  unfolding abandon_at abandon lookup
  abandon_at-pending c f k e = ground arith

  pub connections-abandon_at : (abandon_at reason p h).connections ≡ h.connections
  unfolding abandon_at abandon
  connections-abandon_at = refl

-- A connection is abandoned while the registry changes to `registry`, which still has every other
-- connection that was registered.
pub abandon_at-Sound :
    (reason : UnreachableReason) (p : ℕ) (h : AgentHub) (registry : Dict ℕ)
    → Sound h
    → ((n : String) (c : ℕ) → lookup n registry ≡ some c → (h.heap c).node_id ≡ n)
    → ((n : String) (c : ℕ) → lookup n h.connections ≡ some c → c ≢ p → lookup n registry ≡ some c)
    → IsSound registry (abandon_at reason p h).heap (abandon_at reason p h).futures
abandon_at-Sound reason p h registry s routed rest = record {
  routed = λ n c e. abandon_at-node reason p h c ∙ routed n c e;
  held = λ f x e w.
      let hold = s.held f x (abandon_at-before reason p h f x e w) w in
      let (other, kept) =
        abandon_at-waiting reason p h f hold.holder x.command_id x e w hold.pending in
      record {
        node = hold.node;
        holder = hold.holder;
        registered = rest hold.node hold.holder hold.registered other;
        pending = kept;
      };
  owned = λ c f k e.
      let (x, found, same) = s.owned c f k (abandon_at-pending reason p h c f k e) in
      let (y, after, also) = abandon_at-keeps reason p h f x found in (y, after, also ∙ same);
  single = λ f g x y e e' same.
      let (x', was, cx) = abandon_at-command reason p h f x e in
      let (y', was', cy) = abandon_at-command reason p h g y e' in
      s.single f g x' y' was was' (cx ∙ same ∙ sym cy);
}

reroute-Sound :
    (h : AgentHub) (registry : Dict ℕ)
    → Sound h
    → ((n : String) (d : ℕ) → lookup n registry ≡ some d → (h.heap d).node_id ≡ n)
    → ((n : String) (d : ℕ) → lookup n h.connections ≡ some d → lookup n registry ≡ some d)
    → IsSound registry h.heap h.futures
reroute-Sound h registry s routed rest = record {
  routed = routed;
  held = λ f x e w.
      let hold = s.held f x e w in
      record {
        node = hold.node;
        holder = hold.holder;
        registered = rest hold.node hold.holder hold.registered;
        pending = hold.pending;
      };
  owned = s.owned;
  single = s.single;
}

same_or_other : (q c d : ℕ) → (q == c) ≡ true → (some q ≢ some d) ⊎ (d ≡ c)
same_or_other q c d e = ground arith

some_ne : (q d : ℕ) → d ≢ q → some q ≢ some d
some_ne q d ne e = ground arith

displace-Sound :
    (c : ℕ) (h : AgentHub) (previous : Option ℕ) (registry : Dict ℕ)
    → Sound h
    → ((n : String) (d : ℕ) → lookup n registry ≡ some d → (h.heap d).node_id ≡ n)
    → ((n : String) (d : ℕ)
        → lookup n h.connections ≡ some d
        → (previous ≢ some d) ⊎ (d ≡ c)
        → lookup n registry ≡ some d)
    → Sound (displace c previous (record h { connections = registry }))
unfolding abandon_at
displace-Sound c h none registry s routed rest =
    reroute-Sound h registry s routed (λ n d e. rest n d e (inl (cc)))
displace-Sound c h (some q) registry s routed rest = elim (Bool-cases (q == c)) [
  | inl same ↦
      rw same (reroute-Sound h registry s routed (λ n d e. rest n d e (same_or_other q c d same)))
  | inr other ↦ rw other (
      abandon_at-Sound disconnected q h registry s routed
        (λ n d e ne. rest n d e (inl (some_ne q d ne))))
]

pub attach-Sound : (c : ℕ) (h : AgentHub) → Sound h → Sound (attach c h).1
unfolding attach
attach-Sound c h s =
    displace-Sound c h (lookup (h.heap c).node_id h.connections)
      (insert (h.heap c).node_id c h.connections) s
      (λ n d e. ground (
        arith,
        lookup-insert (h.heap c).node_id n c h.connections,
        eq_iff (h.heap c).node_id n,
        s.routed n d,
      ))
      (λ n d e o.
        ground
          (arith, lookup-insert (h.heap c).node_id n c h.connections, eq_iff (h.heap c).node_id n))

pub detach-Sound : (c : ℕ) (h : AgentHub) → Sound h → Sound (detach c h)
unfolding detach abandon_at
detach-Sound c h s = elim (Bool-cases (is_current c (lookup (h.heap c).node_id h.connections))) [
  | inl current ↦ rw current (
      abandon_at-Sound disconnected c h (erase (h.heap c).node_id h.connections) s
        (λ n d e. ground (arith, lookup-erase (h.heap c).node_id n h.connections, s.routed n d))
        (λ n d e ne.
          ground
            (arith, lookup-erase (h.heap c).node_id n h.connections, eq_iff (h.heap c).node_id n)))
  | inr displaced ↦
      rw displaced (abandon_at-Sound disconnected c h h.connections s s.routed (λ n d e ne. e))
]
