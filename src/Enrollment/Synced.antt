-- ===== src/Enrollment/Synced.antt =====
-- The working copy of the tokens and their table (`_write`, `_save` and `_load` in
-- spark_pulse/agent/enrollment.py), over every operation and restart of the ledger.
use spark_pulse.Prelude.{
  String, ◌≡◌, inl, inr, refl, sym, ◌∙◌, subst, Bool, true, false, some, List, [], ◌∷◌, arith,
  eq_iff, str_eq, is_some, if◌then◌else◌, Bool-cases, Option-cases,
}
use spark_pulse.Prelude.Dict.{
  Dict, lookup, insert, erase, select, values, IsUnique, lookup-insert, lookup-erase,
  insert-IsUnique, erase-IsUnique, lookup-select, select-IsUnique,
}
use spark_pulse.Enrollment.Ledger.{TokenGrant, put_tokens, erase_all}

-- The same answer under every key.
abbrev pub Same : Dict TokenGrant → Dict TokenGrant → Type 0
Same d d' = (k : String) → lookup k d ≡ lookup k d'

-- Every grant is under its own hash.
abbrev pub IsOwn : Dict TokenGrant → Type 0
IsOwn [] = Unit
IsOwn ((k, g) ∷ d) = (g.token_hash ≡ k) × IsOwn d

pub lookup-IsOwn :
    (k : String) (g : TokenGrant) (d : Dict TokenGrant)
    → IsOwn d
    → lookup k d ≡ some g
    → g.token_hash ≡ k
unfolding lookup
lookup-IsOwn k g [] own e = absurd (cc)
lookup-IsOwn k g ((i, h) ∷ d) (mine, own) e = elim (Bool-cases (str_eq i k)) [
  | inl here ↦ ground (arith, here, mine, e, eq_iff i k)
  | inr there ↦ lookup-IsOwn k g d own (ground (arith, there, e))
]

pub insert-IsOwn :
    (k : String) (g : TokenGrant) (d : Dict TokenGrant)
    → g.token_hash ≡ k
    → IsOwn d
    → IsOwn (insert k g d)
unfolding insert
insert-IsOwn k g [] e own = (e, tt)
insert-IsOwn k g ((i, h) ∷ d) e (mine, own) = elim (Bool-cases (str_eq i k)) [
  | inl here ↦ ground (arith, here, mine, e, own, eq_iff i k)
  | inr there ↦ ground (arith, there, mine, insert-IsOwn k g d e own)
]

erase-IsOwn : (k : String) (d : Dict TokenGrant) → IsOwn d → IsOwn (erase k d)
unfolding erase
erase-IsOwn k [] own = tt
erase-IsOwn k ((i, h) ∷ d) (mine, own) = elim (Bool-cases (str_eq i k)) [
  | inl here ↦ ground (arith, here, erase-IsOwn k d own)
  | inr there ↦ ground (arith, there, mine, erase-IsOwn k d own)
]

-- The working copy and the table: the same tokens, each under its own hash, none twice.
pub record Alike (d d' : Dict TokenGrant) : Type 0 where
  pub agree : Same d d'
  pub own : IsOwn d
  pub own_rows : IsOwn d'
  pub unique : IsUnique d
  pub unique_rows : IsUnique d'

pub insert-Alike :
    (k : String) (g : TokenGrant) (d d' : Dict TokenGrant)
    → g.token_hash ≡ k
    → Alike d d'
    → Alike (insert k g d) (insert g.token_hash g d')
insert-Alike k g d d' e a =
    subst (λ (h : String). Alike (insert k g d) (insert h g d')) (sym e)
      (record {
        agree = λ j. lookup-insert k j g d ∙ ground (arith, lookup-insert k j g d', a.agree j);
        own = insert-IsOwn k g d e a.own;
        own_rows = insert-IsOwn k g d' e a.own_rows;
        unique = insert-IsUnique k g d a.unique;
        unique_rows = insert-IsUnique k g d' a.unique_rows;
      })

erase-Alike : (k : String) (d d' : Dict TokenGrant) → Alike d d' → Alike (erase k d) (erase k d')
erase-Alike k d d' a = record {
  agree = λ j. lookup-erase k j d ∙ ground (arith, lookup-erase k j d', a.agree j);
  own = erase-IsOwn k d a.own;
  own_rows = erase-IsOwn k d' a.own_rows;
  unique = erase-IsUnique k d a.unique;
  unique_rows = erase-IsUnique k d' a.unique_rows;
}

pub erase_all-Alike :
    (ks : List String) (d d' : Dict TokenGrant)
    → Alike d d'
    → Alike (erase_all ks d) (erase_all ks d')
unfolding erase_all
erase_all-Alike [] d d' a = a
erase_all-Alike (k ∷ ks) d d' a = erase_all-Alike ks (erase k d) (erase k d') (erase-Alike k d d' a)

-- What a save makes of a table: the tokens of the working copy, over the rows that it has already.
put_values-lookup :
    (d rows : Dict TokenGrant) (j : String)
    → IsOwn d
    → IsUnique d
    → lookup j (put_tokens (values d) rows)
      ≡ (if is_some (lookup j d) then lookup j d else lookup j rows)
unfolding lookup put_tokens
put_values-lookup [] rows j own u = refl
put_values-lookup ((k, g) ∷ d) rows j (mine, own) (fresh, u) =
    let rest = put_values-lookup d (insert g.token_hash g rows) j own u in
    let here = lookup-insert g.token_hash j g rows in
    elim (Bool-cases (str_eq k j)) [
      | inl same ↦
          let k_j : k ≡ j = ground (arith, same, eq_iff k j) in
          let free : is_some (lookup j d) ≡ false =
            subst (λ (i : String). is_some (lookup i d) ≡ false) k_j fresh in
          let found : str_eq g.token_hash j ≡ true = ground (arith, mine, same) in
          ground (arith, same, rest, here, free, found)
      | inr other ↦
          let missed : str_eq g.token_hash j ≡ false = ground (arith, mine, other) in
          ground (arith, other, rest, here, missed)
    ]

put_tokens-IsOwn :
    (gs : List TokenGrant) (rows : Dict TokenGrant) → IsOwn rows → IsOwn (put_tokens gs rows)
unfolding put_tokens
put_tokens-IsOwn [] rows own = own
put_tokens-IsOwn (g ∷ gs) rows own =
    put_tokens-IsOwn gs (insert g.token_hash g rows) (insert-IsOwn g.token_hash g rows refl own)

put_tokens-IsUnique :
    (gs : List TokenGrant) (rows : Dict TokenGrant) → IsUnique rows → IsUnique (put_tokens gs rows)
unfolding put_tokens
put_tokens-IsUnique [] rows u = u
put_tokens-IsUnique (g ∷ gs) rows u =
    put_tokens-IsUnique gs (insert g.token_hash g rows) (insert-IsUnique g.token_hash g rows u)

select-IsOwn : (p : String → TokenGrant → Bool) (d : Dict TokenGrant) → IsOwn d → IsOwn (select p d)
unfolding select
select-IsOwn p [] own = tt
select-IsOwn p ((k, g) ∷ d) (mine, own) = elim (Bool-cases (p k g)) [
  | inl kept ↦ ground (arith, kept, mine, select-IsOwn p d own)
  | inr dropped ↦ ground (arith, dropped, select-IsOwn p d own)
]

-- A save makes the table agree with a working copy that is in order, whatever the table held.
pub save-Alike :
    (d rows : Dict TokenGrant)
    → IsOwn d
    → IsUnique d
    → IsOwn rows
    → IsUnique rows
    → Alike d (put_tokens (values d) (select (λ k row. is_some (lookup k d)) rows))
save-Alike d rows own u own_rows u_rows =
    let left = select (λ k row. is_some (lookup k d)) rows in
    record {
      agree = λ j.
          let chosen = lookup-select (λ k row. is_some (lookup k d)) j rows u_rows in
          let put = put_values-lookup d left j own u in
          elim (Option-cases (lookup j d)) [
            | inl gone ↦ elim (Option-cases (lookup j rows)) [
              | inl never ↦ ground (arith, gone, never, chosen, put)
              | inr (g, there) ↦ ground (arith, gone, there, chosen, put)
            ]
            | inr (g, there) ↦ ground (arith, there, put)
          ];
      own = own;
      own_rows =
          put_tokens-IsOwn (values d) left
            (select-IsOwn (λ k row. is_some (lookup k d)) rows own_rows);
      unique = u;
      unique_rows =
          put_tokens-IsUnique (values d) left
            (select-IsUnique (λ k row. is_some (lookup k d)) rows u_rows);
    }
