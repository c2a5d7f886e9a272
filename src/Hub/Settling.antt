-- ===== src/Hub/Settling.antt =====
-- What settling does to the futures: a lookup after it, in terms of the lookup before.
use spark_pulse.Prelude.{
  ℕ, ◌≡◌, ◌≢◌, refl, false, Option, none, some, List, [], ◌∷◌, arith, member, if◌then◌else◌,
}
use spark_pulse.Prelude.{inl, inr, Option-cases}
use spark_pulse.Hub.Connection.{
  CommandResult, answered, Future, Futures, Outcome, waiting, done, settled, settle, settle_found,
  settle_all,
}

abbrev pub settled? : Outcome → Option Future → Option Future
settled? o none = none
settled? o (some x) = some (settled o x)

pub settle_all_lem :
    (o : Outcome) (l : List ℕ) (fs : Futures) (i : ℕ)
    → settle_all o l fs i ≡ (if member i l then settled? o (fs i) else fs i)
unfolding settle_all settle
settle_all_lem o [] fs i = refl
settle_all_lem o (f ∷ l) fs i = ground (arith, settle_all_lem o l (settle o f fs) i)

-- A future that waits after a pass over `l` waited before it, and is not in `l`.
pub settle_all-waiting :
    (o : Outcome) (l : List ℕ) (fs : Futures) (i : ℕ) (x : Future)
    → settle_all o l fs i ≡ some x
    → x.state ≡ waiting
    → (fs i ≡ some x) × (member i l ≡ false)
settle_all-waiting o l fs i x h w = ground (arith, settle_all_lem o l fs i)

-- A future that is done stays as it is.
pub settle_all-done :
    (o p : Outcome) (l : List ℕ) (fs : Futures) (i : ℕ) (x : Future)
    → fs i ≡ some x
    → x.state ≡ done p
    → settle_all o l fs i ≡ some x
settle_all-done o p l fs i x h w = ground (arith, settle_all_lem o l fs i)

-- The commands of the futures do not change.
pub settle_all-command :
    (o : Outcome) (l : List ℕ) (fs : Futures) (i : ℕ) (x : Future)
    → settle_all o l fs i ≡ some x
    → (y : Future) × (fs i ≡ some y) × (y.command_id ≡ x.command_id)
settle_all-command o l fs i x h = ground (arith, settle_all_lem o l fs i)

pub settle_all-keeps :
    (o : Outcome) (l : List ℕ) (fs : Futures) (i : ℕ) (x : Future)
    → fs i ≡ some x
    → (y : Future) × (settle_all o l fs i ≡ some y) × (y.command_id ≡ x.command_id)
settle_all-keeps o l fs i x h = ground (arith, settle_all_lem o l fs i)

pub settle_found-command :
    (o : Outcome) (m : Option ℕ) (fs : Futures) (i : ℕ) (x : Future)
    → settle_found o m fs i ≡ some x
    → (y : Future) × (fs i ≡ some y) × (y.command_id ≡ x.command_id)
unfolding settle_found settle_all
settle_found-command o none fs i x h = (x, h, refl)
settle_found-command o (some f) fs i x h = settle_all-command o (f ∷ []) fs i x h

pub settle_found-keeps :
    (o : Outcome) (m : Option ℕ) (fs : Futures) (i : ℕ) (x : Future)
    → fs i ≡ some x
    → (y : Future) × (settle_found o m fs i ≡ some y) × (y.command_id ≡ x.command_id)
unfolding settle_found settle_all
settle_found-keeps o none fs i x h = (x, h, refl)
settle_found-keeps o (some f) fs i x h = settle_all-keeps o (f ∷ []) fs i x h

-- A pass that settles with something else than the answer `r` answers no future with `r`.
pub settle_all-unanswered :
    (o : Outcome) (r : CommandResult)
    → o ≢ answered r
    → (l : List ℕ) (fs : Futures) (i : ℕ)
    → ((x : Future) → fs i ≡ some x → x.state ≢ done (answered r))
    → (y : Future) → settle_all o l fs i ≡ some y
    → y.state ≢ done (answered r)
settle_all-unanswered o r ne l fs i u y e d = elim (Option-cases (fs i)) [
  | inl e0 ↦ ground (arith, settle_all_lem o l fs i)
  | inr (x, e1) ↦ ground (arith, settle_all_lem o l fs i, u x e1)
]

pub settle_found-unanswered :
    (o : Outcome) (r : CommandResult)
    → o ≢ answered r
    → (m : Option ℕ) (fs : Futures) (i : ℕ)
    → ((x : Future) → fs i ≡ some x → x.state ≢ done (answered r))
    → (y : Future) → settle_found o m fs i ≡ some y
    → y.state ≢ done (answered r)
unfolding settle_found settle_all
settle_found-unanswered o r ne none fs i u y e = u y e
settle_found-unanswered o r ne (some f) fs i u y e =
    settle_all-unanswered o r ne (f ∷ []) fs i u y e
