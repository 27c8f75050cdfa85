-- ===== src/Fleet/Projection.antt =====
-- The watchers of one process run beside each other: each as if it were alone.
use mathlib.Core.Path.{subst}
use dynamic_crd_watch.Base.{
  ℕ, suc, ◌≤◌, ◌≡◌, true, false, arith, ◌==◌, update, update_here, update_apart, if◌then◌else◌,
  ℕ_discrete,
}
use dynamic_crd_watch.Watcher.{Runtime}
use dynamic_crd_watch.System.{System, Step, Reach}
use dynamic_crd_watch.System
use dynamic_crd_watch.Fleet.{Fleet, acts, FleetReach, fresh, after}

-- How many of the steps are those of the watcher `i`.
abbrev pub moves : {rt : Runtime} {n : ℕ} {f : Fleet rt} → ℕ → FleetReach n f → ℕ
moves i (fresh a b c o) = 0
moves i (after r (acts j st)) = if j == i then suc (moves i r) else moves i r

module _ {rt : Runtime} (f : ℕ → System rt) (j : ℕ) {t : System rt} (st : Step (f j) t) where
  here-Reach : {k : ℕ} → Reach k (f j) → Reach (if j == j then suc k else k) (update f j t j)
  here-Reach r =
      let self : (j == j) ≡ true = ground arith in rw (self, update_here f j t) (System.after r st)

  moved-Reach :
      (i : ℕ) {k : ℕ} → Reach k (f i) → Reach (if j == i then suc k else k) (update f j t i)
  moved-Reach i {k} r = elim (ℕ_discrete j i) [
    | yes e ↦
        subst (λ x. Reach k (f x) → Reach (if j == x then suc k else k) (update f j t x)) e
          here-Reach r
    | no differs ↦
        let apart : (j == i) ≡ false = ground arith in rw (apart, update_apart f j t i differs) r
  ]

-- Each watcher of a process is where its own steps alone would have led it, and what is proved of
-- one watcher holds of it, whatever the others did in between: no step of another watcher has a
-- part in it.
pub FleetReach-Reach :
    {rt : Runtime} {n : ℕ} {f : Fleet rt} (i : ℕ) (r : FleetReach n f)
    → Reach (moves i r) (f.watchers i) × (moves i r ≤ n)
FleetReach-Reach i (fresh a b c o) = (System.fresh (a i) (b i) (c i) (o i), omega arith)
FleetReach-Reach i (after {f = f} r (acts j st)) =
    let (alone, le) = FleetReach-Reach i r in (moved-Reach f.watchers j st i alone, ground arith)
