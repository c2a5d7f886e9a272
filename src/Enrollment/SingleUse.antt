-- ===== src/Enrollment/SingleUse.antt =====
-- A secret after its redemption (spark_pulse/agent/enrollment.py), over runs of the ledger.
use spark_pulse.Prelude.{
  ℕ, ◌+◌, String, ◌≡◌, inl, inr, refl, Bool, true, false, Option, none, some, List, [], ◌∷◌, arith,
  eq_iff, str_eq, nonzero, or_text, Option-cases,
}
use spark_pulse.Prelude.Dict.{Dict, lookup, insert, erase, lookup-insert, lookup-erase}
use spark_pulse.Enrollment.Ledger.{
  TokenGrant, LedgerEntry, Ledger, NodeState, pending, accepted, denied, other, EnrollmentRejected,
  not_recognised, already_used, redeemed, rejected, write, erase_all, sweep_locked, stale_tokens,
  sweep, save,
}
use spark_pulse.Enrollment.Tokens.{mint_token, redeem_token, revoke_token}
use spark_pulse.Enrollment.Membership.{
  Facts, record_issue, deny, remove, note_seen, authorize, judge,
}

abbrev spent_grant : Option TokenGrant → Bool
spent_grant none = true
spent_grant (some g) = nonzero g.used_at

-- The ledger holds no unused token under the hash.
abbrev pub IsSpent : String → Ledger → Type 0
IsSpent k l = spent_grant (lookup k l.tokens) ≡ true

erase_all-spent :
    (k : String) (ks : List String) (d : Dict TokenGrant)
    → spent_grant (lookup k d) ≡ true
    → spent_grant (lookup k (erase_all ks d)) ≡ true
unfolding erase_all
erase_all-spent k [] d s = s
erase_all-spent k (j ∷ ks) d s =
    erase_all-spent k ks (erase j d) (ground (arith, lookup-erase j k d))

judge-tokens :
    (n key hardware : String) (e : LedgerEntry) (s : NodeState) (l : Ledger)
    → (judge n key hardware e s l).1.tokens ≡ l.tokens
unfolding write
judge-tokens n key hardware e denied l = refl
judge-tokens n key hardware e pending l = refl
judge-tokens n key hardware e (other s) l = refl
judge-tokens n key hardware e accepted l = ground arith

authorize-tokens :
    (n key hardware : String) (l : Ledger) → (authorize n key hardware l).1.tokens ≡ l.tokens
unfolding authorize
authorize-tokens n key hardware l = elim (Option-cases (lookup n l.nodes)) [
  | inl unknown ↦ ground (arith, unknown)
  | inr (e, known) ↦ ground (arith, known, judge-tokens n key hardware e e.state l)
]

deny-tokens : (n reason : String) (l : Ledger) → (deny n reason l).tokens ≡ l.tokens
unfolding deny write
deny-tokens n reason l = elim (Option-cases (lookup n l.nodes)) [
  | inl unknown ↦ ground (arith, unknown)
  | inr (e, known) ↦ ground (arith, known)
]

note_seen-tokens : (n : String) (now : ℕ) (l : Ledger) → (note_seen n now l).tokens ≡ l.tokens
unfolding note_seen
note_seen-tokens n now l = elim (Option-cases (lookup n l.nodes)) [
  | inl unknown ↦ ground (arith, unknown)
  | inr (e, known) ↦ ground (arith, known)
]

module _ (hash : String → String) (k : String) where
  -- Every operation that may change the ledger. Minted secrets have another hash than `k`, and
  -- redemptions and revocations happen at a time other than zero.
  pub data Use (l : Ledger) : Ledger → Type 0 where
    minting :
        (secret name : String) (ttl : ℕ) (node_id : String) (now : ℕ)
        → str_eq (hash secret) k ≡ false
        → Use l (mint_token hash secret name ttl node_id now l)
    redeeming :
        (secret fresh node_id : String) (now : ℕ) (l' : Ledger)
        → nonzero now ≡ true
        → redeem_token hash secret fresh now l ≡ redeemed node_id l'
        → Use l l'
    revoking :
        (secret : String) (now : ℕ) → nonzero now ≡ true → Use l (revoke_token hash secret now l).1
    issuing :
        (node_id key : String) (not_after : ℕ) (facts : Facts) (now : ℕ)
        → Use l (record_issue node_id key not_after facts now l).1
    denying : (node_id reason : String) → Use l (deny node_id reason l)
    removing : (node_id : String) → Use l (remove node_id l)
    seeing : (node_id : String) (now : ℕ) → Use l (note_seen node_id now l)
    authorizing : (node_id key hardware : String) → Use l (authorize node_id key hardware l).1
    sweeping : (now : ℕ) → Use l (sweep now l).1

  pub data Uses (l : Ledger) : Ledger → Type 0 where
    unused : Uses l l
    used : {m r : Ledger} → Uses l m → Use m r → Uses l r

  minted :
      (j : String) (g : TokenGrant) (d : Dict TokenGrant)
      → str_eq j k ≡ false
      → spent_grant (lookup k d) ≡ true
      → spent_grant (lookup k (insert j g d)) ≡ true
  minted j g d distinct s = ground (arith, lookup-insert j k g d)

  Use-IsSpent : (l r : Ledger) → Use l r → IsSpent k l → IsSpent k r
  unfolding mint_token redeem_token revoke_token record_issue remove sweep sweep_locked save write
  Use-IsSpent l _ (minting secret name ttl node_id now distinct) s =
      let grant : TokenGrant = record {
        token_hash = hash secret;
        name = name;
        created_at = now;
        expires_at = now + ttl;
        used_at = 0;
        node_id = "";
        assign_node_id = node_id;
      } in
      let left = erase_all (stale_tokens now l.tokens) l.tokens in
      let kept = erase_all-spent k (stale_tokens now l.tokens) l.tokens s in
      minted (hash secret) grant left distinct kept
  Use-IsSpent l _ (redeeming secret fresh node_id now l' z e) s =
      elim (Option-cases (lookup (hash secret) l.tokens)) [
        | inl unknown ↦ absurd (ground (arith, unknown))
        | inr (g, known) ↦ ground (
          arith,
          known,
          lookup-insert (hash secret) k
              (record g { used_at = now; node_id = or_text g.assign_node_id fresh }) l.tokens,
        )
      ]
  Use-IsSpent l _ (revoking secret now z) s = elim (Option-cases (lookup (hash secret) l.tokens)) [
    | inl unknown ↦ ground (arith, unknown)
    | inr (g, known) ↦
        ground (arith, known, lookup-insert (hash secret) k (record g { used_at = now }) l.tokens)
  ]
  Use-IsSpent l _ (issuing node_id key not_after facts now) s = s
  Use-IsSpent l _ (denying node_id reason) s = ground (arith, deny-tokens node_id reason l)
  Use-IsSpent l _ (removing node_id) s = s
  Use-IsSpent l _ (seeing node_id now) s = ground (arith, note_seen-tokens node_id now l)
  Use-IsSpent l _ (authorizing node_id key hardware) s =
      ground (arith, authorize-tokens node_id key hardware l)
  Use-IsSpent l _ (sweeping now) s =
      ground (arith, erase_all-spent k (stale_tokens now l.tokens) l.tokens s)

  Uses-IsSpent : (l r : Ledger) → Uses l r → IsSpent k l → IsSpent k r
  Uses-IsSpent l _ unused s = s
  Uses-IsSpent l r (used {m} run u) s = Use-IsSpent m r u (Uses-IsSpent l m run s)

spent_rejected :
    (hash : String → String) (secret fresh : String) (now : ℕ) (l : Ledger)
    → IsSpent (hash secret) l
    → (why : EnrollmentRejected) × (redeem_token hash secret fresh now l ≡ rejected why)
unfolding redeem_token
spent_rejected hash secret fresh now l s = elim (Option-cases (lookup (hash secret) l.tokens)) [
  | inl unknown ↦ (not_recognised, ground (arith, unknown))
  | inr (g, known) ↦ (already_used g.name, ground (arith, known))
]

redeemed-IsSpent :
    (hash : String → String) (secret fresh node_id : String) (now : ℕ) (l m : Ledger)
    → nonzero now ≡ true
    → redeem_token hash secret fresh now l ≡ redeemed node_id m
    → IsSpent (hash secret) m
unfolding redeem_token write
redeemed-IsSpent hash secret fresh node_id now l m z e =
    elim (Option-cases (lookup (hash secret) l.tokens)) [
      | inl unknown ↦ absurd (ground (arith, unknown))
      | inr (g, known) ↦ ground (
        arith,
        known,
        eq_iff (hash secret) (hash secret),
        lookup-insert (hash secret) (hash secret)
            (record g { used_at = now; node_id = or_text g.assign_node_id fresh }) l.tokens,
      )
    ]

-- A secret is redeemed at most once: after its redemption at a time other than zero, and after any
-- run of the ledger's operations in which no token of the same hash is minted and nothing is
-- redeemed or revoked at time zero, every redemption of it is rejected.
pub redeem_at_most_once :
    (hash : String → String) (secret fresh other_id node_id : String) (now later : ℕ)
    (l m r : Ledger)
    → nonzero now ≡ true
    → redeem_token hash secret fresh now l ≡ redeemed node_id m
    → Uses hash (hash secret) m r
    → (why : EnrollmentRejected) × (redeem_token hash secret other_id later r ≡ rejected why)
redeem_at_most_once hash secret fresh other_id node_id now later l m r z e run =
    spent_rejected hash secret other_id later r (
      Uses-IsSpent hash (hash secret) m r run
        (redeemed-IsSpent hash secret fresh node_id now l m z e))
