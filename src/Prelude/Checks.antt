-- ===== src/Prelude/Checks.antt =====
-- A sequence of statements `if not test: raise fault`, as a list of tests with their faults.
use mathlib.Core.Path.{◌≡◌, refl}
use mathlib.Core.Bool.{Bool, true, false}
use mathlib.Core.List.{List, [], ◌∷◌}
use native.Mathlib.Omega.{arith}
use local_coding_agent_harne.Prelude.Effects.{Outcome, ok, err, Exec, ◌>>◌}

module _ {E : Type 0} where
  -- The first fault in the order of the list.
  abbrev pub run_checks : List (Bool × E) → Outcome E (Unit {0})
  run_checks [] = ok tt
  run_checks ((true, e) ∷ cs) = run_checks cs
  run_checks ((false, e) ∷ cs) = err e

  abbrev pub Passes : List (Bool × E) → Type 0
  Passes [] = Unit {0}
  Passes ((b, e) ∷ cs) = (b ≡ true) × Passes cs

  pub run_checks_sound : (cs : List (Bool × E)) → run_checks cs ≡ ok tt → Passes cs
  run_checks_sound [] h = tt
  run_checks_sound ((true, e) ∷ cs) h = (refl, run_checks_sound cs h)
  run_checks_sound ((false, e) ∷ cs) h = ground arith

  pub run_checks_complete : (cs : List (Bool × E)) → Passes cs → run_checks cs ≡ ok tt
  run_checks_complete [] h = refl
  run_checks_complete ((true, e) ∷ cs) h = run_checks_complete cs h.1
  run_checks_complete ((false, e) ∷ cs) h = ground arith

-- The statements as one action, which changes nothing.
module _ {E S : Type 0} where
  abbrev pub require_all : List (Bool × E) → Exec E S (Unit {0})
  require_all cs s = (run_checks cs, s)

  pub require_all-then :
      {A : Type 0} (cs : List (Bool × E)) (k : Exec E S A) (s : S) {a : A}
      → ((require_all cs >> k) s).0 ≡ ok a
      → Passes cs × ((require_all cs >> k) s ≡ k s)
  require_all-then [] k s h = (tt, refl)
  require_all-then ((true, e) ∷ cs) k s {a} h =
      let (p, q) = require_all-then cs k s {a = a} h in ((refl, p), q)
  require_all-then ((false, e) ∷ cs) k s h = cc
