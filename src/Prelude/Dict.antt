-- ===== src/Prelude/Dict.antt =====
-- A dictionary with text keys, and a database table by its primary key: an association list in the
-- order of insertion. Writing an existing key keeps its place, as `dict` does.
use Prim.Native.Nat.{ℕ}
use Prim.Native.String.{String}
use mathlib.Core.Path.{◌≡◌, refl}
use mathlib.Core.Bool.{Bool, true, false}
use mathlib.Core.Option.{Option, none, some}
use mathlib.Core.List.{List, [], ◌∷◌, map}
use native.Mathlib.Omega.{arith}
use text.Mathlib.TextEquality.{eq_iff}
use spark_pulse.Prelude.Tests.{str_eq, is_some, if◌then◌else◌}
use spark_pulse.Prelude.Lists.{member}

abbrev pub Dict {ℓ} : Type ℓ → Type ℓ
Dict V = List (String × V)

module _ {ℓ} {V : Type ℓ} where
  -- `d.get(k)`, `db.get(Row, k)`
  unfoldable pub lookup : String → Dict V → Option V
  lookup k [] = none
  lookup k ((j, v) ∷ d) = if str_eq j k then some v else lookup k d

  -- `d[k] = v`, and an insert or update of the row `k`
  unfoldable pub insert : String → V → Dict V → Dict V
  insert k v [] = (k, v) ∷ []
  insert k v ((j, w) ∷ d) = if str_eq j k then (k, v) ∷ d else (j, w) ∷ insert k v d

  -- `d.pop(k, None)`, `db.delete(row)`
  unfoldable pub erase : String → Dict V → Dict V
  erase k [] = []
  erase k ((j, w) ∷ d) = if str_eq j k then erase k d else (j, w) ∷ erase k d

  -- `list(d.values())`
  abbrev pub values : Dict V → List V
  values d = map (λ e. e.1) d

  pub lookup-insert :
      (k j : String) (v : V) (d : Dict V)
      → lookup j (insert k v d) ≡ (if str_eq k j then some v else lookup j d)
  unfolding lookup insert
  lookup-insert k j v [] = refl
  lookup-insert k j v ((i, w) ∷ d) =
      ground (arith, eq_iff k j, eq_iff i k, eq_iff i j, lookup-insert k j v d)

  pub lookup-erase :
      (k j : String) (d : Dict V) → lookup j (erase k d) ≡ (if str_eq k j then none else lookup j d)
  unfolding lookup erase
  lookup-erase k j [] = ground arith
  lookup-erase k j ((i, w) ∷ d) =
      ground (arith, eq_iff k j, eq_iff i k, eq_iff i j, lookup-erase k j d)

  -- No two entries share a key.
  abbrev pub IsUnique : Dict V → Type 0
  IsUnique [] = Unit
  IsUnique ((k, v) ∷ d) = (is_some (lookup k d) ≡ false) × IsUnique d

  pub insert-IsUnique : (k : String) (v : V) (d : Dict V) → IsUnique d → IsUnique (insert k v d)
  unfolding lookup insert
  insert-IsUnique k v [] u = (refl, tt)
  insert-IsUnique k v ((i, w) ∷ d) u =
      ground (arith, insert-IsUnique k v d u.1, lookup-insert k i v d, eq_iff k i, eq_iff i k)

  pub erase-IsUnique : (k : String) (d : Dict V) → IsUnique d → IsUnique (erase k d)
  unfolding lookup erase
  erase-IsUnique k [] u = tt
  erase-IsUnique k ((i, w) ∷ d) u =
      ground (arith, erase-IsUnique k d u.1, lookup-erase k i d, eq_iff k i, eq_iff i k)

  -- The rows that satisfy a test, as a `WHERE` clause or a comprehension selects them.
  unfoldable pub select : (String → V → Bool) → Dict V → Dict V
  select p [] = []
  select p ((k, v) ∷ d) = if p k v then (k, v) ∷ select p d else select p d

  abbrev pub only : (String → V → Bool) → String → Option V → Option V
  only p k none = none
  only p k (some v) = if p k v then some v else none

  pub lookup-select :
      (p : String → V → Bool) (j : String) (d : Dict V)
      → IsUnique d
      → lookup j (select p d) ≡ only p j (lookup j d)
  unfolding lookup select
  lookup-select p j [] u = refl
  lookup-select p j ((i, w) ∷ d) u = ground (arith, eq_iff i j, lookup-select p j d u.1)

  pub select-IsUnique : (p : String → V → Bool) (d : Dict V) → IsUnique d → IsUnique (select p d)
  unfolding lookup select
  select-IsUnique p [] u = tt
  select-IsUnique p ((i, w) ∷ d) u =
      ground (arith, select-IsUnique p d u.1, lookup-select p i d u.1)

pub member-values :
    (k : String) (n : ℕ) (d : Dict ℕ) → lookup k d ≡ some n → member n (values d) ≡ true
unfolding lookup
member-values k n [] h = cc
member-values k n ((i, w) ∷ d) h = ground (arith, member-values k n d)

pub ruleset dict_laws = (lookup-insert, lookup-erase)
