-- ===== src/Sessions/Examples.antt =====
-- Sessions at small inputs.
use spark_pulse.Prelude.{◌≡◌, refl, none, some, [], ◌∷◌, inr, arith}
use spark_pulse.Prelude.Dict.{insert, select}
use spark_pulse.Sessions.{Table, NewSession, to_dict, stored, create, get, sweep}
use spark_pulse.Sessions.Expiry.{get-create}

abbrev login : NewSession
login = record {
  access_token = "at";
  refresh_token = "rt";
  expires_at = 100;
  user = some (("sub", "ada") ∷ []);
  created_at = "t0";
  token = none;
}

abbrev forever : NewSession
forever = record login { expires_at = 0; token = some "k2" }

abbrev table : Table
table = ("k1", stored "k1" login) ∷ ("k2", stored "k2" forever) ∷ []

create_twice : (create "k2" forever (create "k1" login []).1).1 ≡ table
unfolding create insert
create_twice = refl

sweep_late : (sweep 100 table).0 ≡ 1
unfolding sweep select
sweep_late = refl

get-create_example :
    (get (create "k1" login []).0 99 (create "k1" login []).1).0
    ≡ some (to_dict (stored "k1" login))
unfolding create
get-create_example = get-create "k1" login 99 [] refl (inr (omega arith))
