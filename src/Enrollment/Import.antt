-- ===== src/Enrollment/Import.antt =====
-- The start of the ledger (spark_pulse/agent/enrollment.py): its file is imported once, and then the
-- working copy is read from the tables. The control plane is the only one on its database.
use spark_pulse.Prelude.{
  String, ◌≡◌, ◌⊎◌, inl, inr, refl, ap, ◌∙◌, Bool, true, false, none, some, [], ◌∷◌, arith, eq_iff,
  str_eq, if◌then◌else◌, Bool-cases,
}
use spark_pulse.Prelude.Dict.{Dict, lookup, lookup-insert, lookup-erase}
use spark_pulse.Records.{state_file_error, Result, ok, err, ◌>>=◌}
use spark_pulse.Records.Views.{Result-cases}
use spark_pulse.Enrollment.Ledger.{
  LedgerEntry, TokenGrant, Ledger, put_node, put_token, load, write, erase_all, put_nodes,
}
use spark_pulse.Enrollment.Membership.{remove}

-- `enrollment.json`: its nodes and tokens by their keys.
pub data LedgerFile : Type 0 where
  absent unreadable : LedgerFile
  contents : Dict LedgerEntry → Dict TokenGrant → LedgerFile

-- What a process leaves on the disk.
pub record Disk : Type 0 where
  pub node_rows : Dict LedgerEntry
  pub token_rows : Dict TokenGrant
  -- the `meta` marker of the import
  pub imported : Bool
  pub file : LedgerFile

-- The key wins over the payload.
unfoldable pub import_nodes : Dict LedgerEntry → Dict LedgerEntry → Dict LedgerEntry
import_nodes [] rows = rows
import_nodes ((id, e) ∷ d) rows = import_nodes d (put_node (record e { node_id = id }) rows)

unfoldable pub import_tokens : Dict TokenGrant → Dict TokenGrant → Dict TokenGrant
import_tokens [] rows = rows
import_tokens ((key, g) ∷ d) rows = import_tokens d (put_token (record g { token_hash = key }) rows)

abbrev pub import_file : LedgerFile → Disk → Result Disk
import_file absent s = ok s
import_file unreadable s = err state_file_error
import_file (contents nodes tokens) s = ok (record s {
  node_rows = import_nodes nodes s.node_rows;
  token_rows = import_tokens tokens s.token_rows;
  imported = true;
})

-- `_migrate_from_json`
unfoldable pub migrate : Disk → Result Disk
unfolding import_nodes import_tokens
migrate s = if s.imported then ok s else import_file s.file s

abbrev pub ledger_of : Disk → Ledger
ledger_of s =
    load (record { nodes = []; tokens = []; node_rows = s.node_rows; token_rows = s.token_rows })

-- `_load`
unfoldable pub open_ledger : Disk → Result (Ledger × Disk)
unfolding migrate load
open_ledger s = do m ← migrate s; ok (ledger_of m, m)

-- What the ledger left on the disk.
abbrev pub left_on : Disk → Ledger → Disk
left_on s l = record s { node_rows = l.node_rows; token_rows = l.token_rows }

pub migrate-imported : (s m : Disk) → migrate s ≡ ok m → (m.imported ≡ true) ⊎ (m.file ≡ absent)
unfolding migrate
migrate-imported s m e = from_file s.imported s.file refl refl e
  where
    from_file :
        (b : Bool) (f : LedgerFile)
        → s.imported ≡ b
        → s.file ≡ f
        → (if b then ok s else import_file f s) ≡ ok m
        → (m.imported ≡ true) ⊎ (m.file ≡ absent)
    from_file true f i g e = inl (ground arith)
    from_file false absent i g e = inr (ground arith)
    from_file false unreadable i g e = absurd (cc)
    from_file false (contents nodes tokens) i g e = inl (ground arith)

migrated_again :
    (s m : Disk) (l : Ledger) → migrate s ≡ ok m → migrate (left_on m l) ≡ ok (left_on m l)
unfolding migrate
migrated_again s m l e = elim (migrate-imported s m e) [
  | inl marked ↦ rw marked refl
  | inr gone ↦ elim (Bool-cases m.imported) [
    | inl marked ↦ rw marked refl
    | inr never ↦ rw never (rw gone refl)
  ]
]

-- A node that an operator removed is not readmitted by a later start: once the ledger was opened on
-- a disk, and whatever state it is in when the node is removed, opening what that leaves on the disk
-- succeeds, imports nothing again, and does not have the node.
pub remove-open_ledger :
    (n : String) (s m : Disk) (first l : Ledger)
    → open_ledger s ≡ ok (first, m)
    → (l' : Ledger) × ((open_ledger (left_on m (remove n l)) ≡ ok (l', left_on m (remove n l)))
        × (lookup n l'.nodes ≡ none))
unfolding open_ledger remove write erase_all put_nodes load
remove-open_ledger n s m first l e = elim (Result-cases (migrate s)) [
  | inr (x, failed) ↦ absurd (ground (arith, failed))
  | inl (d, made) ↦
      let same : d ≡ m = ground (arith, made) in
      let again = migrated_again s m (remove n l) (made ∙ ap ok same) in
      (
        ledger_of (left_on m (remove n l)),
        (rw again refl, ground (arith, lookup-erase n n l.node_rows, eq_iff n n)),
      )
]

-- Every row is under its own key.
abbrev pub IsKeyed : Dict LedgerEntry → Type 0
IsKeyed rows = (k : String) (e : LedgerEntry) → lookup k rows ≡ some e → e.node_id ≡ k

-- Whatever the file says of a node's id, an import into rows under their own keys leaves rows under
-- their own keys.
pub import_nodes-IsKeyed :
    (d rows : Dict LedgerEntry) → IsKeyed rows → IsKeyed (import_nodes d rows)
unfolding import_nodes
import_nodes-IsKeyed [] rows keyed = keyed
import_nodes-IsKeyed ((id, e) ∷ d) rows keyed =
    import_nodes-IsKeyed d (put_node (record e { node_id = id }) rows) (λ k f found.
      let here = lookup-insert id k (record e { node_id = id }) rows in
      elim (Bool-cases (str_eq id k)) [
        | inl mine ↦ ground (arith, here, mine, found, eq_iff id k)
        | inr other ↦ keyed k f (ground (arith, here, other, found))
      ])
