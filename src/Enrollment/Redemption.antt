-- ===== src/Enrollment/Redemption.antt =====
-- Redeeming and revoking a token (spark_pulse/agent/enrollment.py).
use spark_pulse.Prelude.{
  ℕ, ◌<◌, String, ◌≡◌, inl, inr, true, false, some, arith, eq_iff, nonzero, or_text, Option-cases,
}
use spark_pulse.Prelude.Dict.{lookup, lookup-insert}
use spark_pulse.Enrollment.Ledger.{
  TokenGrant, Ledger, EnrollmentRejected, not_recognised, already_used, redeemed, rejected, write,
}
use spark_pulse.Enrollment.Tokens.{redeem_token, revoke_token}

-- The grant is unused and not expired.
abbrev pub IsLive : ℕ → TokenGrant → Type 0
IsLive now g = (nonzero g.used_at ≡ false) × (now < g.expires_at)

module _ (hash : String → String) (secret : String) where
  -- A redemption succeeds only for a known token that is unused and not expired, and answers the
  -- identity that the control plane chose for it, or else the fresh one.
  pub redeem-IsLive :
      (fresh node_id : String) (now : ℕ) (l l' : Ledger)
      → redeem_token hash secret fresh now l ≡ redeemed node_id l'
      → (g : TokenGrant) × ((lookup (hash secret) l.tokens ≡ some g)
          × (IsLive now g × (node_id ≡ or_text g.assign_node_id fresh)))
  unfolding redeem_token
  redeem-IsLive fresh node_id now l l' e = elim (Option-cases (lookup (hash secret) l.tokens)) [
    | inl unknown ↦ absurd (ground (arith, unknown))
    | inr (g, known) ↦ (g, (known, ground (arith, known)))
  ]

  -- A redemption right after the revocation of the same secret, at a time other than zero, is
  -- rejected, whether the token was redeemed before or not.
  pub revoke_redeem :
      (fresh : String) (now later : ℕ) (l : Ledger)
      → nonzero now ≡ true
      → (r : EnrollmentRejected) × (redeem_token hash secret fresh later
            (revoke_token hash secret now l).1
          ≡ rejected r)
  unfolding redeem_token revoke_token write
  revoke_redeem fresh now later l z = elim (Option-cases (lookup (hash secret) l.tokens)) [
    | inl unknown ↦ (not_recognised, ground (arith, unknown))
    | inr (g, known) ↦ (
      already_used g.name,
      ground (
        arith,
        known,
        lookup-insert (hash secret) (hash secret) (record g { used_at = now }) l.tokens,
        eq_iff (hash secret) (hash secret),
      ),
    )
  ]
