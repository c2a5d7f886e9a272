-- ===== src/Enrollment/Tokens.antt =====
-- Enrollment tokens. SHA-256 is the parameter `hash`; a fresh secret and a fresh node id are
-- arguments.
use spark_pulse.Prelude.{
  ℕ, ◌+◌, ◌-◌, String, Bool, true, false, Option, none, some, [], ◌∷◌, leb, nonzero, or_text,
  if◌then◌else◌,
}
use spark_pulse.Prelude.Dict.{lookup, insert}
use spark_pulse.Enrollment.Ledger.{
  LedgerEntry, TokenGrant, Ledger, not_recognised, already_used, token_expired, Redeemed, redeemed,
  rejected, write, sweep_locked, new_entry,
}

module _ (hash : String → String) where
  unfoldable pub mint_token :
      (secret name : String) (ttl : ℕ) (node_id : String) → ℕ → Ledger → Ledger
  unfolding sweep_locked write
  mint_token secret name ttl node_id now l =
      let (stale, swept) = sweep_locked now l in
      let grant : TokenGrant = record {
        token_hash = hash secret;
        name = name;
        created_at = now;
        expires_at = now + ttl;
        used_at = 0;
        node_id = "";
        assign_node_id = node_id;
      } in
      write [] (grant ∷ []) [] stale
        (record swept { tokens = insert (hash secret) grant swept.tokens })

  -- The node that a redemption admits, pending until a certificate is issued.
  abbrev pub admit : (node_id key : String) → ℕ → TokenGrant → Ledger → Redeemed
  admit node_id key now g l =
      let spent : TokenGrant = record g { used_at = now; node_id = node_id } in
      let entry : LedgerEntry = record (new_entry node_id) { name = g.name; enrolled_at = now } in
      redeemed node_id (
        write (entry ∷ []) (spent ∷ []) [] []
          (record l { nodes = insert node_id entry l.nodes; tokens = insert key spent l.tokens }))

  abbrev pub redeem_grant : (key fresh : String) → ℕ → Option TokenGrant → Ledger → Redeemed
  redeem_grant key fresh now none l = rejected not_recognised
  redeem_grant key fresh now (some g) l =
      if nonzero g.used_at
      then rejected (already_used g.name)
      else if leb g.expires_at now
      then rejected (token_expired g.name (now - g.expires_at))
      else admit (or_text g.assign_node_id fresh) key now g l

  -- `redeem_token`, where `fresh` is what `mint_node_id` would give.
  unfoldable pub redeem_token : (secret fresh : String) → ℕ → Ledger → Redeemed
  unfolding write
  redeem_token secret fresh now l =
      redeem_grant (hash secret) fresh now (lookup (hash secret) l.tokens) l

  abbrev pub revoke_grant : String → ℕ → Option TokenGrant → Ledger → Bool × Ledger
  revoke_grant key now none l = (false, l)
  revoke_grant key now (some g) l =
      let spent : TokenGrant = record g { used_at = now } in
      (
        true,
        if nonzero g.used_at
            then l
            else write [] (spent ∷ []) [] [] (record l { tokens = insert key spent l.tokens }),
      )

  unfoldable pub revoke_token : String → ℕ → Ledger → Bool × Ledger
  unfolding write
  revoke_token secret now l = revoke_grant (hash secret) now (lookup (hash secret) l.tokens) l

  unfoldable pub token_for : String → Ledger → Option TokenGrant
  token_for secret l = lookup (hash secret) l.tokens
