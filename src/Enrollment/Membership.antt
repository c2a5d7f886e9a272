-- ===== src/Enrollment/Membership.antt =====
-- Membership, and the judgement of every connection.
use Prim.Native.String.{◌++◌ as text_append}
use spark_pulse.Prelude.{
  ℕ, ◌+◌, max, String, Bool, not, ◌&&◌, Option, none, some, [], ◌∷◌, nonzero, truthy, or_text,
  str_eq, if◌then◌else◌,
}
use spark_pulse.Prelude.Dict.{lookup, insert, erase}
use spark_pulse.Enrollment.Ledger.{
  NodeState, pending, accepted, denied, other, LedgerEntry, Ledger, IdentityVerdict, allowed,
  refused, write, new_entry,
}

-- The facts that a node presents; an absent one is "".
pub record Facts : Type 0 where
  pub machine_id : String
  pub boot_id : String
  pub hardware_fingerprint : String

-- The entry that `record_issue` starts from: the working copy's, or the stored one, or a new one.
abbrev pub issue_base : String → Option LedgerEntry → Option LedgerEntry → LedgerEntry
issue_base node_id (some e) stored = e
issue_base node_id none (some e) = e
issue_base node_id none none = new_entry node_id

abbrev pub stored_issued : Option LedgerEntry → ℕ
stored_issued none = 0
stored_issued (some e) = e.issued

abbrev pub accept : (key : String) (not_after : ℕ) → Facts → ℕ → ℕ → LedgerEntry → LedgerEntry
accept key not_after facts now stored e = record e {
  state = accepted;
  public_key_fingerprint = key;
  cert_not_after = not_after;
  issued = max e.issued stored + 1;
  denied_reason = "";
  enrolled_at = if nonzero e.enrolled_at then e.enrolled_at else now;
  machine_id = or_text facts.machine_id e.machine_id;
  boot_id = or_text facts.boot_id e.boot_id;
  hardware_fingerprint = or_text facts.hardware_fingerprint e.hardware_fingerprint;
}

unfoldable pub record_issue :
    (node_id key : String) (not_after : ℕ) → Facts → ℕ → Ledger → LedgerEntry × Ledger
unfolding write
record_issue node_id key not_after facts now l =
    let stored = lookup node_id l.node_rows in
    let entry =
      accept key not_after facts now (stored_issued stored)
        (issue_base node_id (lookup node_id l.nodes) stored) in
    (entry, write (entry ∷ []) [] [] [] (record l { nodes = insert node_id entry l.nodes }))

unfoldable pub get : String → Ledger → Option LedgerEntry
get node_id l = lookup node_id l.nodes

-- An entry is marked denied, in the working copy and in its row.
abbrev pub deny_entry : String → String → LedgerEntry → Ledger → Ledger
deny_entry node_id reason e l =
    let marked : LedgerEntry = record e { state = denied; denied_reason = reason } in
    write (marked ∷ []) [] [] [] (record l { nodes = insert node_id marked l.nodes })

abbrev pub deny_found : String → String → Option LedgerEntry → Ledger → Ledger
deny_found node_id reason none l = l
deny_found node_id reason (some e) l = deny_entry node_id reason e l

unfoldable pub deny : (node_id reason : String) → Ledger → Ledger
unfolding write
deny node_id reason l = deny_found node_id reason (lookup node_id l.nodes) l

unfoldable pub remove : String → Ledger → Ledger
unfolding write
remove node_id l = write [] [] (node_id ∷ []) [] (record l { nodes = erase node_id l.nodes })

abbrev pub see : String → ℕ → Option LedgerEntry → Ledger → Ledger
see node_id now none l = l
see node_id now (some e) l = record l {
  nodes = insert node_id (record e { last_seen = now }) l.nodes;
}

-- `note_seen` is not written to the table.
unfoldable pub note_seen : String → ℕ → Ledger → Ledger
note_seen node_id now l = see node_id now (lookup node_id l.nodes) l

abbrev pub differs : String → String → Bool
differs presented known = (truthy presented && truthy known) && not (str_eq presented known)

abbrev pub key_reason : String
key_reason = "a different key was presented for this node id"

abbrev pub hardware_reason : String
hardware_reason = "hardware fingerprint changed; the node may be reimaged"

abbrev pub judge :
    (node_id key hardware : String) → LedgerEntry → NodeState → Ledger → IdentityVerdict × Ledger
judge node_id key hardware e denied l = (refused (or_text e.denied_reason "node is denied"), l)
judge node_id key hardware e pending l = (refused "node is pending", l)
judge node_id key hardware e (other s) l = (refused (text_append "node is " s), l)
judge node_id key hardware e accepted l =
    if differs key e.public_key_fingerprint
    then (refused key_reason, deny_entry node_id key_reason e l)
    else if differs hardware e.hardware_fingerprint
    then (refused hardware_reason, deny_entry node_id hardware_reason e l)
    else (allowed, l)

abbrev pub judge_found :
    (node_id key hardware : String) → Option LedgerEntry → Ledger → IdentityVerdict × Ledger
judge_found node_id key hardware none l = (refused "node is not enrolled", l)
judge_found node_id key hardware (some e) l = judge node_id key hardware e e.state l

-- `authorize`, called on every connection
unfoldable pub authorize : (node_id key hardware : String) → Ledger → IdentityVerdict × Ledger
unfolding write
authorize node_id key hardware l = judge_found node_id key hardware (lookup node_id l.nodes) l
