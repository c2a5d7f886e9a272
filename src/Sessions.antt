-- ===== src/Sessions.antt =====
-- Browser sessions (spark_pulse/sessions.py): the table of sessions, explicit in each call.
pub mod Expiry
mod Examples
use spark_pulse.Prelude.{
  ℕ, ◌-◌, String, Bool, true, false, not, ◌&&◌, Option, none, some, length, leb, nonzero, truthy,
  or_text, or_default, if◌then◌else◌,
}
use mathlib.Core.List.{List}
use spark_pulse.Prelude.Dict.{Dict, lookup, insert, erase, select}

-- The provider's claims, a JSON object that this module only carries.
abbrev pub Claims : Type 0
Claims = Dict String

pub record Session : Type 0 where
  pub token : String
  pub access_token : String
  pub refresh_token : String
  pub expires_at : ℕ
  pub created_at : String
  pub user : Claims

-- What `auth` reads: all but the token.
pub record SessionView : Type 0 where
  pub access_token : String
  pub refresh_token : String
  pub expires_at : ℕ
  pub user : Claims
  pub created_at : String

abbrev pub Table : Type 0
Table = Dict Session

abbrev pub to_dict : Session → SessionView
to_dict s = record {
  access_token = s.access_token;
  refresh_token = s.refresh_token;
  expires_at = s.expires_at;
  user = s.user;
  created_at = s.created_at;
}

-- The keyword arguments of `create`; absent claims and an absent token are `none`.
pub record NewSession : Type 0 where
  pub access_token : String
  pub refresh_token : String
  pub expires_at : ℕ
  pub user : Option Claims
  pub created_at : String
  pub token : Option String

abbrev pub stored : String → NewSession → Session
stored id n = record {
  token = id;
  access_token = n.access_token;
  refresh_token = n.refresh_token;
  expires_at = n.expires_at;
  created_at = n.created_at;
  user = or_default n.user List.[];
}

-- An id that is not given is drawn from `secrets`: `drawn`. An insert and an update of the row
-- write the same columns.
unfoldable pub create : String → NewSession → Table → String × Table
create drawn n db =
    let id = or_text (or_default n.token "") drawn in (id, insert id (stored id n) db)

-- Whether the row has expired at `now`; a row with no expiry never does.
abbrev pub expired : ℕ → Session → Bool
expired now s = nonzero s.expires_at && leb s.expires_at now

read : String → ℕ → Table → Option Session → Option SessionView × Table
read token now db none = (none, db)
read token now db (some row) =
    if expired now row then (none, erase token db) else (some (to_dict row), db)

unfoldable pub get : String → ℕ → Table → Option SessionView × Table
unfolding read
get token now db = if truthy token then read token now db (lookup token db) else (none, db)

drop_row : String → Table → Option Session → Bool × Table
drop_row token db none = (false, db)
drop_row token db (some row) = (true, erase token db)

unfoldable pub remove : String → Table → Bool × Table
unfolding drop_row
remove token db = if truthy token then drop_row token db (lookup token db) else (false, db)

-- One `DELETE ... WHERE expires_at != 0 AND expires_at <= now`, and the number of rows that it hit.
unfoldable pub sweep : ℕ → Table → ℕ × Table
sweep now db =
    let left = select (λ token row. not (expired now row)) db in (length db - length left, left)

unfoldable pub count : Table → ℕ
count db = length db

unfoldable pub clear : Table → Table
clear db = List.[]
