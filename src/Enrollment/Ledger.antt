-- ===== src/Enrollment/Ledger.antt =====
-- The ledger: its records, its two tables, and the housekeeping. Times are whole seconds.
use spark_pulse.Prelude.{
  ℕ, ◌+◌, String, Bool, not, ◌&&◌, ◌||◌, List, [], ◌∷◌, length, ltb, nonzero, is_some,
  if◌then◌else◌, ◌==◌,
}
use spark_pulse.Prelude.Dict.{Dict, lookup, insert, erase, select, values}

-- `NodeState`, and any other text that a file may hold.
pub data NodeState : Type 0 where
  pending accepted denied : NodeState
  other : String → NodeState

pub record LedgerEntry : Type 0 where
  pub node_id : String
  pub name : String
  pub state : NodeState
  pub enrolled_at : ℕ
  pub last_seen : ℕ
  pub public_key_fingerprint : String
  pub machine_id : String
  pub boot_id : String
  pub hardware_fingerprint : String
  pub cert_not_after : ℕ
  pub denied_reason : String
  pub issued : ℕ

pub record TokenGrant : Type 0 where
  pub token_hash : String
  pub name : String
  pub created_at : ℕ
  pub expires_at : ℕ
  pub used_at : ℕ
  pub node_id : String
  pub assign_node_id : String

-- `_state` and the two tables.
pub record Ledger : Type 0 where
  pub nodes : Dict LedgerEntry
  pub tokens : Dict TokenGrant
  pub node_rows : Dict LedgerEntry
  pub token_rows : Dict TokenGrant

-- `IdentityVerdict`: not ok, with the reason.
pub data IdentityVerdict : Type 0 where
  allowed : IdentityVerdict
  refused : (reason : String) → IdentityVerdict

-- What a rejected redemption says: the grant's name, and the seconds since it expired.
pub data EnrollmentRejected : Type 0 where
  not_recognised : EnrollmentRejected
  already_used : (name : String) → EnrollmentRejected
  token_expired : (name : String) → (ago : ℕ) → EnrollmentRejected

pub data Redeemed : Type 0 where
  redeemed : (node_id : String) → Ledger → Redeemed
  rejected : EnrollmentRejected → Redeemed

abbrev pub token_ttl_seconds : ℕ
token_ttl_seconds = 600

abbrev pub put_node : LedgerEntry → Dict LedgerEntry → Dict LedgerEntry
put_node e rows = insert e.node_id e rows

abbrev pub put_token : TokenGrant → Dict TokenGrant → Dict TokenGrant
put_token g rows = insert g.token_hash g rows

unfoldable pub erase_all {ℓ} : {V : Type ℓ} → List String → Dict V → Dict V
erase_all [] d = d
erase_all (k ∷ ks) d = erase_all ks (erase k d)

unfoldable pub put_nodes : List LedgerEntry → Dict LedgerEntry → Dict LedgerEntry
put_nodes [] rows = rows
put_nodes (e ∷ es) rows = put_nodes es (put_node e rows)

unfoldable pub put_tokens : List TokenGrant → Dict TokenGrant → Dict TokenGrant
put_tokens [] rows = rows
put_tokens (g ∷ gs) rows = put_tokens gs (put_token g rows)

-- `_write`: the rows that are named, and no other.
unfoldable pub write :
    List LedgerEntry → List TokenGrant → List String → List String → Ledger → Ledger
unfolding erase_all put_nodes put_tokens
write es gs drop_nodes drop_tokens l = record l {
  node_rows = put_nodes es (erase_all drop_nodes l.node_rows);
  token_rows = put_tokens gs (erase_all drop_tokens l.token_rows);
}

-- `_save`: the tables become the working copy.
unfoldable pub save : Ledger → Ledger
unfolding put_nodes put_tokens
save l = record l {
  node_rows = put_nodes (values l.nodes) (select (λ k row. is_some (lookup k l.nodes)) l.node_rows);
  token_rows =
      put_tokens (values l.tokens) (select (λ k row. is_some (lookup k l.tokens)) l.token_rows);
}

-- The part of `_load` after the import: a restart reads both tables.
unfoldable pub load : Ledger → Ledger
load l = record l { nodes = l.node_rows; tokens = l.token_rows }

-- `_sweep_locked`
abbrev pub is_stale : ℕ → TokenGrant → Bool
is_stale now g =
    ltb (g.expires_at + token_ttl_seconds) now
    && (not (nonzero g.used_at) || ltb (g.used_at + token_ttl_seconds) now)

unfoldable pub stale_tokens : ℕ → Dict TokenGrant → List String
stale_tokens now [] = []
stale_tokens now ((k, g) ∷ d) =
    let rest = stale_tokens now d in if is_stale now g then k ∷ rest else rest

unfoldable pub sweep_locked : ℕ → Ledger → List String × Ledger
unfolding stale_tokens erase_all
sweep_locked now l =
    let stale = stale_tokens now l.tokens in (stale, record l { tokens = erase_all stale l.tokens })

unfoldable pub sweep : ℕ → Ledger → ℕ × Ledger
unfolding sweep_locked save
sweep now l =
    let (stale, swept) = sweep_locked now l in
    (length stale, if length stale == 0 then swept else save swept)

abbrev pub new_entry : String → LedgerEntry
new_entry node_id = record {
  node_id = node_id;
  name = "";
  state = pending;
  enrolled_at = 0;
  last_seen = 0;
  public_key_fingerprint = "";
  machine_id = "";
  boot_id = "";
  hardware_fingerprint = "";
  cert_not_after = 0;
  denied_reason = "";
  issued = 0;
}
