-- ===== src/Enrollment/Runs.antt =====
-- The tokens of the working copy and of the table, over each operation of the ledger
-- (spark_pulse/agent/enrollment.py).
use spark_pulse.Prelude.{
  ℕ, ◌+◌, String, ◌≡◌, inl, inr, refl, subst, false, Option, none, some, List, [], ◌∷◌, length,
  arith, or_text, nonzero, leb, if◌then◌else◌, ◌==◌, Bool-cases,
}
use spark_pulse.Prelude.Dict.{lookup}
use spark_pulse.Enrollment.Ledger.{
  LedgerEntry, NodeState, TokenGrant, Ledger, Redeemed, redeemed, rejected, write, save, put_tokens,
  erase_all, stale_tokens, sweep_locked, sweep,
}
use spark_pulse.Enrollment.Tokens.{
  mint_token, admit, redeem_grant, redeem_token, revoke_grant, revoke_token,
}
use spark_pulse.Enrollment.Membership.{
  deny_entry, deny_found, deny, remove, see, note_seen, judge, judge_found, key_reason,
  hardware_reason, authorize, differs,
}
use spark_pulse.Enrollment.Access.{
  Step, minting, redeeming, revoking, denying, removing, seeing, authorizing, sweeping,
}
use spark_pulse.Enrollment.Synced.{Alike, lookup-IsOwn, insert-Alike, erase_all-Alike, save-Alike}

abbrev pub IsSynced : Ledger → Type 0
IsSynced l = Alike l.tokens l.token_rows

deny_entry-IsSynced :
    (node_id reason : String) (e : LedgerEntry) (l : Ledger)
    → IsSynced l
    → IsSynced (deny_entry node_id reason e l)
unfolding write put_tokens erase_all
deny_entry-IsSynced node_id reason e l a = a

judge-IsSynced :
    (node_id key hardware : String) (e : LedgerEntry) (s : NodeState) (l : Ledger)
    → IsSynced l
    → IsSynced (judge node_id key hardware e s l).1
judge-IsSynced node_id key hardware e NodeState.denied l a = a
judge-IsSynced node_id key hardware e NodeState.pending l a = a
judge-IsSynced node_id key hardware e (NodeState.other s) l a = a
judge-IsSynced node_id key hardware e NodeState.accepted l a =
    elim (Bool-cases (differs key e.public_key_fingerprint)) [
      | inl other_key ↦ rw other_key (deny_entry-IsSynced node_id key_reason e l a)
      | inr same_key ↦ elim (Bool-cases (differs hardware e.hardware_fingerprint)) [
        | inl other_machine ↦
            rw same_key (rw other_machine (deny_entry-IsSynced node_id hardware_reason e l a))
        | inr same_machine ↦ rw same_key (rw same_machine a)
      ]
    ]

judge_found-IsSynced :
    (node_id key hardware : String) (o : Option LedgerEntry) (l : Ledger)
    → IsSynced l
    → IsSynced (judge_found node_id key hardware o l).1
judge_found-IsSynced node_id key hardware none l a = a
judge_found-IsSynced node_id key hardware (some e) l a =
    judge-IsSynced node_id key hardware e e.state l a

deny_found-IsSynced :
    (node_id reason : String) (o : Option LedgerEntry) (l : Ledger)
    → IsSynced l
    → IsSynced (deny_found node_id reason o l)
deny_found-IsSynced node_id reason none l a = a
deny_found-IsSynced node_id reason (some e) l a = deny_entry-IsSynced node_id reason e l a

see-IsSynced :
    (node_id : String) (now : ℕ) (o : Option LedgerEntry) (l : Ledger)
    → IsSynced l
    → IsSynced (see node_id now o l)
see-IsSynced node_id now none l a = a
see-IsSynced node_id now (some e) l a = a

-- A sweep that dropped tokens saves, and one that dropped none changes nothing.
swept-IsSynced :
    (stale : List String) (l : Ledger)
    → IsSynced l
    → IsSynced (
        if length stale == 0
        then record l { tokens = erase_all stale l.tokens }
        else save (record l { tokens = erase_all stale l.tokens }))
unfolding save
swept-IsSynced [] l a = unfold erase_all in a
swept-IsSynced (k ∷ ks) l a =
    let erased = erase_all-Alike (k ∷ ks) l.tokens l.token_rows a in
    let saved =
      save-Alike (erase_all (k ∷ ks) l.tokens) l.token_rows erased.own erased.unique a.own_rows
        a.unique_rows in
    let some_there : (length (k ∷ ks) == 0) ≡ false = ground arith in rw some_there saved

abbrev Redeems : Redeemed → Type 0
Redeems (redeemed node_id l) = IsSynced l
Redeems (rejected e) = Unit

module _ (hash : String → String) where
  mint-IsSynced :
      (secret name : String) (ttl : ℕ) (node_id : String) (now : ℕ) (l : Ledger)
      → IsSynced l
      → IsSynced (mint_token hash secret name ttl node_id now l)
  unfolding mint_token write put_tokens sweep_locked
  mint-IsSynced secret name ttl node_id now l a =
      insert-Alike (hash secret)
        (record {
          token_hash = hash secret;
          name = name;
          created_at = now;
          expires_at = now + ttl;
          used_at = 0;
          node_id = "";
          assign_node_id = node_id;
        })
        _ _ refl (erase_all-Alike (stale_tokens now l.tokens) l.tokens l.token_rows a)

  redeem_grant-IsSynced :
      (key fresh : String) (now : ℕ) (o : Option TokenGrant) (l l' : Ledger) (node_id : String)
      → lookup key l.tokens ≡ o
      → IsSynced l
      → redeem_grant hash key fresh now o l ≡ redeemed node_id l'
      → IsSynced l'
  redeem_grant-IsSynced key fresh now none l l' node_id found a e = absurd (cc)
  redeem_grant-IsSynced key fresh now (some g) l l' node_id found a e =
      elim (Bool-cases (nonzero g.used_at)) [
        | inl used ↦ absurd (ground (arith, used))
        | inr unused ↦ elim (Bool-cases (leb g.expires_at now)) [
          | inl late ↦ absurd (ground (arith, unused, late))
          | inr in_time ↦
              let id = or_text g.assign_node_id fresh in
              let spent : TokenGrant = record g { used_at = now; node_id = id } in
              let admitted : admit hash id key now g l ≡ redeemed node_id l' =
                ground (arith, unused, in_time) in
              subst Redeems admitted (
                unfold write put_tokens erase_all in
                insert-Alike key spent l.tokens l.token_rows
                  (lookup-IsOwn key g l.tokens a.own found) a)
        ]
      ]

  revoke_grant-IsSynced :
      (key : String) (now : ℕ) (o : Option TokenGrant) (l : Ledger)
      → lookup key l.tokens ≡ o
      → IsSynced l
      → IsSynced (revoke_grant hash key now o l).1
  unfolding write put_tokens erase_all
  revoke_grant-IsSynced key now none l found a = a
  revoke_grant-IsSynced key now (some g) l found a = elim (Bool-cases (nonzero g.used_at)) [
    | inl used ↦ rw used a
    | inr fresh ↦ rw fresh (
        insert-Alike key (record g { used_at = now }) l.tokens l.token_rows
          (lookup-IsOwn key g l.tokens a.own found) a)
  ]

  sweep-IsSynced : (now : ℕ) (l : Ledger) → IsSynced l → IsSynced (sweep now l).1
  unfolding sweep sweep_locked
  sweep-IsSynced now l a = swept-IsSynced (stale_tokens now l.tokens) l a

  pub Step-IsSynced : (l l' : Ledger) → Step hash l l' → IsSynced l → IsSynced l'
  unfolding redeem_token revoke_token deny remove note_seen authorize write put_tokens erase_all
  Step-IsSynced l _ (minting secret name ttl node_id now) a =
      mint-IsSynced secret name ttl node_id now l a
  Step-IsSynced l l' (redeeming secret fresh node_id now _ e) a =
      redeem_grant-IsSynced (hash secret) fresh now (lookup (hash secret) l.tokens) l l' node_id
        refl a e
  Step-IsSynced l _ (revoking secret now) a =
      revoke_grant-IsSynced (hash secret) now (lookup (hash secret) l.tokens) l refl a
  Step-IsSynced l _ (denying node_id reason) a =
      deny_found-IsSynced node_id reason (lookup node_id l.nodes) l a
  Step-IsSynced l _ (removing node_id) a = a
  Step-IsSynced l _ (seeing node_id now) a = see-IsSynced node_id now (lookup node_id l.nodes) l a
  Step-IsSynced l _ (authorizing node_id key hardware) a =
      judge_found-IsSynced node_id key hardware (lookup node_id l.nodes) l a
  Step-IsSynced l _ (sweeping now) a = sweep-IsSynced now l a
