-- ===== src/Sessions/Expiry.antt =====
-- What a reader of the sessions (spark_pulse/sessions.py) sees.
use spark_pulse.Prelude.{
  ℕ, ◌<◌, ◌≤◌, String, ◌≡◌, ◌≢◌, ◌⊎◌, true, not, none, some, is_some, arith, eq_iff, truthy,
  or_text, or_default,
}
use spark_pulse.Prelude.Dict.{lookup, lookup-insert, lookup-erase, lookup-select, IsUnique}
use spark_pulse.Sessions.{
  Session, Table, NewSession, to_dict, stored, create, expired, get, remove, sweep,
}

-- A session that was just created is returned as it was stored until the moment that it expires,
-- under the id that `create` answered, where the id that would be drawn is not empty.
pub get-create :
    (drawn : String) (n : NewSession) (now : ℕ) (db : Table)
    → truthy drawn ≡ true
    → (n.expires_at ≡ 0) ⊎ (now < n.expires_at)
    → (get (create drawn n db).0 now (create drawn n db).1).0
      ≡ some (to_dict (stored (create drawn n db).0 n))
unfolding get create
get-create drawn n now db t live = ground (
  arith,
  lookup-insert (or_text (or_default n.token "") drawn) (or_text (or_default n.token "") drawn)
      (stored (or_text (or_default n.token "") drawn) n) db,
  eq_iff (or_text (or_default n.token "") drawn) (or_text (or_default n.token "") drawn),
)

-- A read that finds an expired row returns nothing, and drops the row from the table.
pub get_expiry :
    (token : String) (now : ℕ) (db : Table) (row : Session)
    → truthy token ≡ true
    → lookup token db ≡ some row
    → expired now row ≡ true
    → ((get token now db).0 ≡ none) × (lookup token (get token now db).1 ≡ none)
unfolding get
get_expiry token now db row t found e =
    ground (arith, lookup-erase token token db, eq_iff token token)

-- Sweeping a table of distinct ids shows to no reader: every read at that time or later answers as
-- it would have without.
pub get-sweep :
    (token : String) (now later : ℕ) (db : Table)
    → IsUnique db
    → now ≤ later
    → (get token later (sweep now db).1).0 ≡ (get token later db).0
unfolding get sweep
get-sweep token now later db u h =
    ground (arith, lookup-select (λ t row. not (expired now row)) token db u)

-- A session that was removed by a token that is not empty is not found again, every other session
-- is read as before, and the answer is whether there was a session to remove.
pub get-remove :
    (token other : String) (now : ℕ) (db : Table)
    → truthy token ≡ true
    → other ≢ token
    → ((get token now (remove token db).1).0 ≡ none)
      × ((get other now (remove token db).1).0 ≡ (get other now db).0)
      × ((remove token db).0 ≡ is_some (lookup token db))
unfolding get remove
get-remove token other now db t d = ground (
  arith,
  lookup-erase token token db,
  lookup-erase token other db,
  eq_iff token token,
  eq_iff token other,
)
