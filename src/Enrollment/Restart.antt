-- ===== src/Enrollment/Restart.antt =====
-- A restart of the ledger (spark_pulse/agent/enrollment.py), which reads the working copy from the
-- tables again.
use spark_pulse.Prelude.{ℕ, String, ◌≡◌, true, some, arith, eq_iff, nonzero, or_text}
use spark_pulse.Prelude.Dict.{lookup, lookup-insert, lookup-erase}
use spark_pulse.Enrollment.Ledger.{
  LedgerEntry, TokenGrant, Ledger, denied, redeemed, rejected, already_used, write, put_nodes,
  put_tokens, erase_all, load,
}
use spark_pulse.Enrollment.Tokens.{redeem_token}
use spark_pulse.Enrollment.Membership.{deny, remove}
use spark_pulse.Enrollment.Access.{IsBarred}

-- A denial of a node that the working copy holds, under its own id, and a removal of it outlast a
-- restart.
pub deny_restart :
    (n reason : String) (l : Ledger) (e : LedgerEntry)
    → lookup n l.nodes ≡ some e
    → e.node_id ≡ n
    → IsBarred n (load (deny n reason l)) × IsBarred n (load (remove n l))
unfolding deny remove load write put_nodes erase_all
deny_restart n reason l e known own = (
  ground (
    arith,
    known,
    own,
    lookup-insert e.node_id n (record e { state = denied; denied_reason = reason }) l.node_rows,
    eq_iff e.node_id n,
  ),
  ground (arith, lookup-erase n n l.node_rows, eq_iff n n),
)

-- A token that was redeemed at a time other than zero is refused as already used after a restart,
-- where the working copy holds it under its own hash.
pub redeem_restart :
    (hash : String → String) (secret fresh other_id node_id : String) (now later : ℕ)
    (l l' : Ledger) (g : TokenGrant)
    → nonzero now ≡ true
    → lookup (hash secret) l.tokens ≡ some g
    → g.token_hash ≡ hash secret
    → redeem_token hash secret fresh now l ≡ redeemed node_id l'
    → redeem_token hash secret other_id later (load l') ≡ rejected (already_used g.name)
unfolding redeem_token load write put_tokens erase_all
redeem_restart hash secret fresh other_id node_id now later l l' g z known own e = ground (
  arith,
  known,
  own,
  lookup-insert g.token_hash (hash secret)
      (record g { used_at = now; node_id = or_text g.assign_node_id fresh }) l.token_rows,
  eq_iff g.token_hash (hash secret),
)
