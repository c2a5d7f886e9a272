-- ===== src/Enrollment/Examples.antt =====
-- The ledger at small inputs.
use mathlib.Core.Bool.{false≢true}
use spark_pulse.Prelude.{eq_iff, ◌≡◌, refl, inl, true, false, none, some, String, [], ◌∷◌, or_text}
use spark_pulse.Prelude.Dict.{lookup, insert}
use spark_pulse.Enrollment.Ledger.{
  load, Ledger, LedgerEntry, NodeState, new_entry, TokenGrant, EnrollmentRejected, already_used,
  allowed, refused, Redeemed, redeemed, rejected, write, put_nodes, put_tokens, erase_all,
  sweep_locked, stale_tokens,
}
use spark_pulse.Enrollment.Tokens.{mint_token, redeem_token, token_for}
use spark_pulse.Records.{ok}
use spark_pulse.Enrollment.Import.{
  LedgerFile, Disk, import_nodes, import_tokens, migrate, ledger_of as disk_ledger, open_ledger,
  left_on, remove-open_ledger,
}
use spark_pulse.Enrollment.Life.{blank, opening, step, Life-token_for}
use spark_pulse.Enrollment.Access
use spark_pulse.Enrollment.Membership.{Facts, record_issue, deny, remove, authorize}
use spark_pulse.Enrollment.Redemption.{IsLive, redeem-IsLive}
use spark_pulse.Enrollment.Restart.{deny_restart, redeem_restart}
use spark_pulse.Enrollment.SingleUse.{unused, used, minting, redeem_at_most_once}
use spark_pulse.Enrollment.Access.{
  IsBarred, start, issuing, Run-refused, deny-IsBarred, authorize-differs,
}

abbrev hash : String → String
hash s = s

abbrev empty : Ledger
empty = record { nodes = []; tokens = []; node_rows = []; token_rows = [] }

abbrev minted : Ledger
minted = mint_token hash "secret" "spark-2" 600 "" 100 empty

abbrev ledger_of : Redeemed → Ledger
ledger_of (redeemed n l) = l
ledger_of (rejected e) = empty

abbrev joined : Ledger
joined = ledger_of (redeem_token hash "secret" "n2" 200 minted)

abbrev facts : Facts
facts = record { machine_id = "m"; boot_id = "b"; hardware_fingerprint = "hw" }

abbrev enrolled : Ledger
enrolled = (record_issue "n2" "key" 9000 facts 201 joined).1

let_in : (authorize "n2" "key" "hw" enrolled).0 ≡ allowed
unfolding authorize record_issue redeem_token mint_token sweep_locked stale_tokens erase_all write
    put_nodes put_tokens lookup insert
let_in = refl

abbrev grant : TokenGrant
grant = record {
  token_hash = "secret";
  name = "spark-2";
  created_at = 100;
  expires_at = 700;
  used_at = 0;
  node_id = "";
  assign_node_id = "";
}

redeem-IsLive_example :
    (g : TokenGrant) × ((lookup "secret" minted.tokens ≡ some g)
      × (IsLive 200 g × ("n2" ≡ or_text g.assign_node_id "n2")))
redeem-IsLive_example = redeem-IsLive hash "secret" "n2" "n2" 200 minted joined (
    unfold redeem_token mint_token sweep_locked stale_tokens erase_all write put_nodes put_tokens
      lookup insert in
    refl)

abbrev stolen : Ledger
stolen = deny "n2" "lost" enrolled

Run-refused_example :
    (reason : String) × ((authorize "n2" "key" "hw"
        (record_issue "n3" "other" 9000 facts 300 stolen).1).0
      ≡ refused reason)
Run-refused_example =
    Run-refused hash "n2" "key" "hw" stolen (record_issue "n3" "other" 9000 facts 300 stolen).1
      (issuing start "n3" "other" 9000 facts 300 refl) (deny-IsBarred "n2" "lost" enrolled).0

abbrev known : LedgerEntry
known = (record_issue "n2" "key" 9000 facts 201 joined).0

authorize-differs_example :
    ((reason : String) × ((authorize "n2" "forged" "hw" enrolled).0 ≡ refused reason))
    × IsBarred "n2" (authorize "n2" "forged" "hw" enrolled).1
authorize-differs_example =
    authorize-differs "n2" "forged" "hw" enrolled known
      (unfold record_issue redeem_token mint_token sweep_locked stale_tokens erase_all write
          put_nodes put_tokens lookup insert in
        refl)
      (inl (
        unfold record_issue redeem_token mint_token sweep_locked stale_tokens erase_all write
          put_nodes put_tokens lookup insert in
        (
          (λ h. false≢true ((eq_iff "forged" "").1 h)),
          (λ h. false≢true ((eq_iff "key" "").1 h)),
          (λ h. false≢true ((eq_iff "forged" "key").1 h)),
        )))

deny_restart_example :
    IsBarred "n2" (load (deny "n2" "lost" enrolled)) × IsBarred "n2" (load (remove "n2" enrolled))
deny_restart_example =
    deny_restart "n2" "lost" enrolled known
      (unfold record_issue redeem_token mint_token sweep_locked stale_tokens erase_all write
          put_nodes put_tokens lookup insert in
        refl)
      (unfold record_issue redeem_token mint_token sweep_locked stale_tokens erase_all write
          put_nodes put_tokens lookup insert in
        refl)

redeem_restart_example :
    redeem_token hash "secret" "n3" 201 (load joined) ≡ rejected (already_used "spark-2")
redeem_restart_example =
    redeem_restart hash "secret" "n2" "n3" "n2" 200 201 minted joined grant refl
      (unfold mint_token sweep_locked stale_tokens erase_all write put_nodes put_tokens lookup
          insert in
        refl)
      refl
      (unfold redeem_token mint_token sweep_locked stale_tokens erase_all write put_nodes put_tokens
          lookup insert in
        refl)

redeem_at_most_once_example :
    (why : EnrollmentRejected) × (redeem_token hash "secret" "n3" 300
        (mint_token hash "other" "spark-3" 600 "" 250 joined)
      ≡ rejected why)
redeem_at_most_once_example =
    redeem_at_most_once hash "secret" "n2" "n3" "n2" 200 300 minted joined
      (mint_token hash "other" "spark-3" 600 "" 250 joined) refl
      (unfold redeem_token mint_token sweep_locked stale_tokens erase_all write put_nodes put_tokens
          lookup insert in
        refl)
      (used unused (minting "other" "spark-3" 600 "" 250 refl))

abbrev file_entry : LedgerEntry
file_entry = record (new_entry "n9") { state = NodeState.accepted }

-- A file whose entry says another id than its key.
abbrev disk : Disk
disk = record {
  node_rows = [];
  token_rows = [];
  imported = false;
  file = LedgerFile.contents (("n2", file_entry) ∷ []) [];
}

abbrev after_import : Disk
after_import = record disk {
  node_rows = ("n2", record file_entry { node_id = "n2" }) ∷ [];
  imported = true;
}

remove-open_ledger_example :
    (l' : Ledger) × ((open_ledger (left_on after_import (remove "n2" enrolled))
        ≡ ok (l', left_on after_import (remove "n2" enrolled)))
      × (lookup "n2" l'.nodes ≡ none))
remove-open_ledger_example =
    remove-open_ledger "n2" disk after_import (disk_ledger after_import) enrolled
      (unfold open_ledger migrate import_nodes import_tokens insert load in refl)

abbrev file_grant : TokenGrant
file_grant = record grant { token_hash = "elsewhere" }

abbrev token_file : LedgerFile
token_file = LedgerFile.contents [] (("secret", file_grant) ∷ [])

abbrev imported_disk : Disk
imported_disk = record (blank token_file) { token_rows = ("secret", grant) ∷ []; imported = true }

abbrev first_open : Ledger
first_open = disk_ledger imported_disk

abbrev minted_more : Ledger
minted_more = mint_token hash "other" "spark-3" 600 "" 250 first_open

-- The token of the file is imported under its key; then another is minted.
Life-token_for_example :
    token_for hash "secret" (disk_ledger (left_on imported_disk minted_more))
    ≡ token_for hash "secret" minted_more
Life-token_for_example =
    Life-token_for hash "secret" imported_disk (left_on imported_disk minted_more) minted_more
      (disk_ledger (left_on imported_disk minted_more))
      (step
        (opening {m = imported_disk} {l = first_open} token_file
          (unfold open_ledger migrate import_nodes import_tokens insert load in refl))
        (Access.minting "other" "spark-3" 600 "" 250))
      (unfold open_ledger migrate load in refl)
