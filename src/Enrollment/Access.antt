-- ===== src/Enrollment/Access.antt =====
-- Who is let in (`authorize` in spark_pulse/agent/enrollment.py), over runs of the ledger.
use Prim.Native.String.{◌++◌ as text_append}
use spark_pulse.Prelude.{
  ℕ, String, ◌≡◌, ◌≢◌, ◌⊎◌, inl, inr, refl, Bool, true, false, Option, none, some, arith, eq_iff,
  str_eq, or_text, Bool-cases, Option-cases,
}
use spark_pulse.Prelude.Dict.{lookup, lookup-insert, lookup-erase}
use spark_pulse.Enrollment.Ledger.{
  LedgerEntry, Ledger, NodeState, pending, accepted, denied, other, refused, redeemed, write,
  new_entry, sweep, sweep_locked, save,
}
use spark_pulse.Enrollment.Tokens.{mint_token, redeem_token, revoke_token}
use spark_pulse.Enrollment.Membership.{
  Facts, record_issue, deny, deny_entry, remove, note_seen, see, key_reason, hardware_reason, judge,
  authorize, differs,
}

abbrev is_accepted : Option LedgerEntry → Bool
is_accepted none = false
is_accepted (some e) = elim e.state [ accepted ↦ true | _ ↦ false ]

-- The working copy does not hold the node as accepted.
abbrev pub IsBarred : String → Ledger → Type 0
IsBarred n l = is_accepted (lookup n l.nodes) ≡ false

deny_entry-IsBarred :
    (n m reason : String) (e : LedgerEntry) (l : Ledger)
    → IsBarred n l
    → IsBarred n (deny_entry m reason e l)
unfolding write
deny_entry-IsBarred n m reason e l b =
    ground (arith, lookup-insert m n (record e { state = denied; denied_reason = reason }) l.nodes)

judge-IsBarred :
    (n m key hardware : String) (e : LedgerEntry) (s : NodeState) (l : Ledger)
    → IsBarred n l
    → IsBarred n (judge m key hardware e s l).1
judge-IsBarred n m key hardware e denied l b = b
judge-IsBarred n m key hardware e pending l b = b
judge-IsBarred n m key hardware e (other s) l b = b
judge-IsBarred n m key hardware e accepted l b =
    ground (
      arith,
      deny_entry-IsBarred n m key_reason e l b,
      deny_entry-IsBarred n m hardware_reason e l b,
    )

authorize-IsBarred :
    (n m key hardware : String) (l : Ledger)
    → IsBarred n l
    → IsBarred n (authorize m key hardware l).1
unfolding authorize
authorize-IsBarred n m key hardware l b = elim (Option-cases (lookup m l.nodes)) [
  | inl unknown ↦ ground (arith, unknown)
  | inr (e, known) ↦ ground (arith, known, judge-IsBarred n m key hardware e e.state l b)
]

see-IsBarred :
    (n m : String) (now : ℕ) (found : Option LedgerEntry) (l : Ledger)
    → lookup m l.nodes ≡ found
    → IsBarred n l
    → IsBarred n (see m now found l)
see-IsBarred n m now none l e b = b
see-IsBarred n m now (some x) l e b =
    ground (arith, lookup-insert m n (record x { last_seen = now }) l.nodes, eq_iff m n)

judge-refused :
    (n key hardware : String) (e : LedgerEntry) (s : NodeState) (l : Ledger)
    → e.state ≡ s
    → is_accepted (some e) ≡ false
    → (reason : String) × ((judge n key hardware e s l).0 ≡ refused reason)
judge-refused n key hardware e denied l q b = (or_text e.denied_reason "node is denied", refl)
judge-refused n key hardware e pending l q b = ("node is pending", refl)
judge-refused n key hardware e (other s) l q b = (text_append "node is " s, refl)
judge-refused n key hardware e accepted l q b = absurd (ground (arith, q))

barred_refused :
    (n key hardware : String) (l : Ledger)
    → IsBarred n l
    → (reason : String) × ((authorize n key hardware l).0 ≡ refused reason)
unfolding authorize
barred_refused n key hardware l b = elim (Option-cases (lookup n l.nodes)) [
  | inl unknown ↦ ("node is not enrolled", ground (arith, unknown))
  | inr (e, known) ↦
      let (reason, said) = judge-refused n key hardware e e.state l refl (ground (arith, known)) in
      (reason, ground (arith, known, said))
]

-- After a denial or a removal the node is barred, whatever it was.
pub deny-IsBarred :
    (n reason : String) (l : Ledger) → IsBarred n (deny n reason l) × IsBarred n (remove n l)
unfolding deny remove write
deny-IsBarred n reason l = elim (Option-cases (lookup n l.nodes)) [
  | inl unknown ↦ (ground (arith, unknown), ground (arith, unknown, lookup-erase n n l.nodes))
  | inr (e, known) ↦ (
    ground (
      arith,
      known,
      lookup-insert n n (record e { state = denied; denied_reason = reason }) l.nodes,
      eq_iff n n,
    ),
    ground (arith, lookup-erase n n l.nodes, eq_iff n n),
  )
]

denied_now :
    (n reason : String) (e : LedgerEntry) (l : Ledger) → IsBarred n (deny_entry n reason e l)
unfolding write
denied_now n reason e l = ground (
  arith,
  lookup-insert n n (record e { state = denied; denied_reason = reason }) l.nodes,
  eq_iff n n,
)

-- The presented value and the one on record are both there, and are not the same.
abbrev pub IsMismatch : String → String → Type 0
IsMismatch presented known = (presented ≢ "") × (known ≢ "") × (presented ≢ known)

IsMismatch-differs : (a b : String) → IsMismatch a b → differs a b ≡ true
IsMismatch-differs a b (p, q, r) = ground (arith, eq_iff a "", eq_iff b "", eq_iff a b)

judge-differs :
    (n key hardware : String) (e : LedgerEntry) (l : Ledger)
    → (differs key e.public_key_fingerprint ≡ true)
      ⊎ (differs hardware e.hardware_fingerprint ≡ true)
    → (reason : String) × (((judge n key hardware e accepted l).0 ≡ refused reason)
        × IsBarred n (judge n key hardware e accepted l).1)
judge-differs n key hardware e l d = elim (Bool-cases (differs key e.public_key_fingerprint)) [
  | inl stolen ↦
      (key_reason, (ground (arith, stolen), ground (arith, stolen, denied_now n key_reason e l)))
  | inr fits ↦ (
    hardware_reason,
    (ground (arith, fits), ground (arith, fits, denied_now n hardware_reason e l)),
  )
]

accepted_lem :
    (s : NodeState) (e : LedgerEntry) → e.state ≡ s → is_accepted (some e) ≡ true → s ≡ accepted
accepted_lem accepted e q h = refl
accepted_lem pending e q h = absurd (ground (arith, q))
accepted_lem denied e q h = absurd (ground (arith, q))
accepted_lem (other s) e q h = absurd (ground (arith, q))

mismatch :
    {a b c d : String}
    → IsMismatch a b ⊎ IsMismatch c d
    → (differs a b ≡ true) ⊎ (differs c d ≡ true)
mismatch {a} {b} (inl h) = inl (IsMismatch-differs a b h)
mismatch {c = c} {d = d} (inr h) = inr (IsMismatch-differs c d h)

-- For a node that the working copy holds, where the presented key and the key on record are both
-- not empty and are not the same, or the presented hardware fingerprint and the one on record are
-- so, the node is refused, and the working copy does not hold it as accepted then. This says
-- nothing of a value that is empty on either side.
pub authorize-differs :
    (n key hardware : String) (l : Ledger) (e : LedgerEntry)
    → lookup n l.nodes ≡ some e
    → IsMismatch key e.public_key_fingerprint ⊎ IsMismatch hardware e.hardware_fingerprint
    → ((reason : String) × ((authorize n key hardware l).0 ≡ refused reason))
      × IsBarred n (authorize n key hardware l).1
unfolding authorize
authorize-differs n key hardware l e known d = elim (Bool-cases (is_accepted (some e))) [
  | inl held ↦
      let (reason, (said, barred)) = judge-differs n key hardware e l (mismatch d) in
      let same : e.state ≡ accepted = accepted_lem e.state e refl held in
      ((reason, ground (arith, known, same, said)), ground (arith, known, same, barred))
  | inr not_held ↦
      let b : IsBarred n l = ground (arith, known) in
      (barred_refused n key hardware l b, authorize-IsBarred n n key hardware l b)
]

module _ (hash : String → String) where
  -- Every operation of the ledger that may change it, but for the issue of a certificate.
  pub data Step (l : Ledger) : Ledger → Type 0 where
    minting :
        (secret name : String) (ttl : ℕ) (node_id : String) (now : ℕ)
        → Step l (mint_token hash secret name ttl node_id now l)
    redeeming :
        (secret fresh node_id : String) (now : ℕ) (l' : Ledger)
        → redeem_token hash secret fresh now l ≡ redeemed node_id l'
        → Step l l'
    revoking : (secret : String) (now : ℕ) → Step l (revoke_token hash secret now l).1
    denying : (node_id reason : String) → Step l (deny node_id reason l)
    removing : (node_id : String) → Step l (remove node_id l)
    seeing : (node_id : String) (now : ℕ) → Step l (note_seen node_id now l)
    authorizing : (node_id key hardware : String) → Step l (authorize node_id key hardware l).1
    sweeping : (now : ℕ) → Step l (sweep now l).1

  -- A run, in which a certificate may be issued to any node but `n`.
  pub data Run (n : String) (l : Ledger) : Ledger → Type 0 where
    start : Run n l l
    step : {m r : Ledger} → Run n l m → Step m r → Run n l r
    issuing :
        {m : Ledger}
        → Run n l m
        → (node_id key : String) (not_after : ℕ) (facts : Facts) (now : ℕ)
        → str_eq node_id n ≡ false
        → Run n l (record_issue node_id key not_after facts now m).1

  Step-IsBarred : (n : String) (l r : Ledger) → Step l r → IsBarred n l → IsBarred n r
  unfolding mint_token redeem_token revoke_token deny remove note_seen sweep sweep_locked save write
  Step-IsBarred n l _ (minting secret name ttl node_id now) b = b
  Step-IsBarred n l r (redeeming secret fresh node_id now _ e) b =
      elim (Option-cases (lookup (hash secret) l.tokens)) [
        | inl unknown ↦ absurd (ground (arith, unknown))
        | inr (g, known) ↦
            let id = or_text g.assign_node_id fresh in
            ground (
              arith,
              known,
              lookup-insert id n (record (new_entry id) { name = g.name; enrolled_at = now })
                  l.nodes,
            )
      ]
  Step-IsBarred n l _ (revoking secret now) b =
      elim (Option-cases (lookup (hash secret) l.tokens)) [
        | inl unknown ↦ ground (arith, unknown)
        | inr (g, known) ↦ ground (arith, known)
      ]
  Step-IsBarred n l _ (denying node_id reason) b = elim (Option-cases (lookup node_id l.nodes)) [
    | inl unknown ↦ ground (arith, unknown)
    | inr (e, known) ↦ ground (arith, known, deny_entry-IsBarred n node_id reason e l b)
  ]
  Step-IsBarred n l _ (removing node_id) b = ground (arith, lookup-erase node_id n l.nodes)
  Step-IsBarred n l _ (seeing node_id now) b =
      see-IsBarred n node_id now (lookup node_id l.nodes) l refl b
  Step-IsBarred n l _ (authorizing node_id key hardware) b =
      authorize-IsBarred n node_id key hardware l b
  Step-IsBarred n l _ (sweeping now) b = ground arith

  Run-IsBarred : (n : String) (l r : Ledger) → Run n l r → IsBarred n l → IsBarred n r
  unfolding record_issue write
  Run-IsBarred n l _ start b = b
  Run-IsBarred n l _ (step {m} {r} run s) b = Step-IsBarred n m r s (Run-IsBarred n l m run b)
  Run-IsBarred n l _ (issuing {m} run node_id key not_after facts now other_node) b =
      let before = Run-IsBarred n l m run b in
      let entry = (record_issue node_id key not_after facts now m).0 in
      ground (arith, lookup-insert node_id n entry m.nodes, eq_iff node_id n)

  -- A node that the working copy does not hold as accepted is refused, whatever it presents, after
  -- every run of the ledger's operations in which no certificate is issued to it. A restart is
  -- none of these operations.
  pub Run-refused :
      (n key hardware : String) (l r : Ledger)
      → Run n l r
      → IsBarred n l
      → (reason : String) × ((authorize n key hardware r).0 ≡ refused reason)
  Run-refused n key hardware l r run b = barred_refused n key hardware r (Run-IsBarred n l r run b)
