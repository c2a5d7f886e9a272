-- ===== src/Enrollment/Life.antt =====
-- Whole lives of the ledger (spark_pulse/agent/enrollment.py): its first start, which may import the
-- file, its operations and its restarts. Every write to the tables succeeds here.
use spark_pulse.Prelude.{
  ℕ, String, ◌≡◌, ◌⊎◌, inl, inr, refl, sym, subst, Bool, true, false, [], ◌∷◌, arith, if◌then◌else◌,
}
use spark_pulse.Prelude.Dict.{Dict, IsUnique, insert-IsUnique}
use spark_pulse.Records.{ok}
use spark_pulse.Records.Views.{Result-cases}
use spark_pulse.Enrollment.Ledger.{
  TokenGrant, Ledger, load, write, put_token, put_tokens, erase_all,
}
use spark_pulse.Enrollment.Tokens.{token_for}
use spark_pulse.Enrollment.Membership.{Facts, record_issue}
use spark_pulse.Enrollment.Access.{Step}
use spark_pulse.Enrollment.Import.{
  LedgerFile, Disk, import_tokens, import_file, migrate, ledger_of, open_ledger, left_on,
  migrate-imported,
}
use spark_pulse.Enrollment.Synced.{IsOwn, insert-IsOwn}
use spark_pulse.Enrollment.Runs.{IsSynced, Step-IsSynced}

-- Every row of a token is under its own hash, and no hash has two.
abbrev IsTidy : Dict TokenGrant → Type 0
IsTidy rows = IsOwn rows × IsUnique rows

import_tokens-IsTidy : (d rows : Dict TokenGrant) → IsTidy rows → IsTidy (import_tokens d rows)
unfolding import_tokens
import_tokens-IsTidy [] rows t = t
import_tokens-IsTidy ((key, g) ∷ d) rows (own, unique) =
    let row = record g { token_hash = key } in
    import_tokens-IsTidy d (put_token row rows)
      (insert-IsOwn key row rows refl own, insert-IsUnique key row rows unique)

migrate-IsTidy : (s m : Disk) → migrate s ≡ ok m → IsTidy s.token_rows → IsTidy m.token_rows
unfolding migrate
migrate-IsTidy s m e t = from_file s.imported s.file e
  where
    from_file :
        (b : Bool) (f : LedgerFile)
        → (if b then ok s else import_file f s) ≡ ok m
        → IsTidy m.token_rows
    from_file true f h =
        let same : s.token_rows ≡ m.token_rows = ground arith in subst IsTidy same t
    from_file false LedgerFile.absent h =
        let same : s.token_rows ≡ m.token_rows = ground arith in subst IsTidy same t
    from_file false LedgerFile.unreadable h = absurd (cc)
    from_file false (LedgerFile.contents nodes tokens) h =
        let rows = import_tokens tokens s.token_rows in
        let same : rows ≡ m.token_rows = ground arith in
        subst IsTidy same (import_tokens-IsTidy tokens s.token_rows t)

-- The import is made, or there is no file.
abbrev IsSettled : Disk → Type 0
IsSettled s = (s.imported ≡ true) ⊎ (s.file ≡ LedgerFile.absent)

settled_again : (s : Disk) (l : Ledger) → IsSettled s → migrate (left_on s l) ≡ ok (left_on s l)
unfolding migrate
settled_again s l settled = ground arith

loaded-IsSynced : (s : Disk) → IsTidy s.token_rows → IsSynced (ledger_of s)
unfolding load
loaded-IsSynced s (own, unique) = record {
  agree = λ k. refl;
  own = own;
  own_rows = own;
  unique = unique;
  unique_rows = unique;
}

-- The tables before the first start.
abbrev pub blank : LedgerFile → Disk
blank f = record { node_rows = []; token_rows = []; imported = false; file = f }

-- What an open ledger leads from and to: its disk is in order, and the working copy agrees with it.
record IsOpen (s : Disk) (l : Ledger) : Type 0 where
  settled : IsSettled s
  synced : IsSynced l

opened-IsOpen :
    (s m : Disk) (l : Ledger) → open_ledger s ≡ ok (l, m) → IsTidy s.token_rows → IsOpen m l
unfolding open_ledger
opened-IsOpen s m l e tidy = elim (Result-cases (migrate s)) [
  | inl (d, h) ↦
      let same : d ≡ m = ground (arith, h) in
      let loaded : ledger_of d ≡ l = ground (arith, h) in
      record {
        settled = subst IsSettled same (migrate-imported s d h);
        synced = subst IsSynced loaded (loaded-IsSynced d (migrate-IsTidy s d h tidy));
      }
  | inr (x, h) ↦ absurd (ground (arith, h))
]

module _ (hash : String → String) where
  -- The disks and ledgers that the first start, over empty tables and any file, the operations and
  -- the restarts lead to. The file stays as it is.
  pub data Life : Disk → Ledger → Type 0 where
    opening :
        {m : Disk} {l : Ledger} → (f : LedgerFile) → open_ledger (blank f) ≡ ok (l, m) → Life m l
    step : {s : Disk} {l l' : Ledger} → Life s l → Step hash l l' → Life s l'
    issuing :
        {s : Disk} {l : Ledger}
        → Life s l
        → (node_id key : String) (not_after : ℕ) (facts : Facts) (now : ℕ)
        → Life s (record_issue node_id key not_after facts now l).1
    reopening :
        {s m : Disk} {l l' : Ledger} → Life s l → open_ledger (left_on s l) ≡ ok (l', m) → Life m l'

  Life-IsOpen : (s : Disk) (l : Ledger) → Life s l → IsOpen s l
  unfolding record_issue write put_tokens erase_all
  Life-IsOpen s l (opening f e) = opened-IsOpen (blank f) s l e (tt, tt)
  Life-IsOpen s _ (step {l = l} {l' = l'} life next) =
      let before = Life-IsOpen s l life in
      record { settled = before.settled; synced = Step-IsSynced hash l l' next before.synced }
  Life-IsOpen s _ (issuing {l = l} life node_id key not_after facts now) =
      let before = Life-IsOpen s l life in
      record { settled = before.settled; synced = before.synced }
  Life-IsOpen m l' (reopening {s = s} {l = l} life e) =
      let a = (Life-IsOpen s l life).synced in
      opened-IsOpen (left_on s l) m l' e (a.own_rows, a.unique_rows)

  -- A restart that succeeds changes the answer about no token: for a ledger that was first started
  -- over empty tables, with any file to import, and that went through any operations and restarts in
  -- which every write to the tables succeeded and the file stayed as it is, a restart now finds of
  -- every secret what the working copy says of it.
  pub Life-token_for :
      (secret : String) (s m : Disk) (l l' : Ledger)
      → Life s l
      → open_ledger (left_on s l) ≡ ok (l', m)
      → token_for hash secret l' ≡ token_for hash secret l
  unfolding token_for open_ledger load
  Life-token_for secret s m l l' life e =
      let open_now = Life-IsOpen s l life in
      let again = settled_again s l open_now.settled in
      let loaded : ledger_of (left_on s l) ≡ l' = ground (arith, again) in
      subst (λ (t : Ledger). token_for hash secret t ≡ token_for hash secret l) loaded
        (sym (open_now.synced.agree (hash secret)))
