-- ===== src/Watcher/Starting.antt =====
-- `Start` and `WaitForSync` of pkg/dynamicwatch/watcher.go over any sequence of calls.
use dynamic_crd_watch.Base.{
  ◌≡◌, refl, ap, not, ◌||◌, Bool, true, false, Option, none, some, List, [], ◌∷◌, arith,
  if◌then◌else◌,
}
use dynamic_crd_watch.Base.Lists.{is_empty}
use dynamic_crd_watch.Watcher.Interface.{Runtime}
use dynamic_crd_watch.Watcher.State.{World}
use dynamic_crd_watch.Watcher.Lifecycle.{
  StartError, called_twice, before_start, source, start, wait_for_sync,
}

-- What the results have to be: the errors of the source up to its first success, and after that the
-- error of a second call.
abbrev pub expected :
    {Error : Type 0} → Bool → List (Option Error) → List (Option (StartError Error))
expected started [] = []
expected true (_ ∷ rest) = some called_twice ∷ expected true rest
expected false (none ∷ rest) = none ∷ expected true rest
expected false (some e ∷ rest) = some (source e) ∷ expected false rest

abbrev pub succeeds : {Error : Type 0} → List (Option Error) → Bool
succeeds [] = false
succeeds (none ∷ rest) = true
succeeds (some e ∷ rest) = succeeds rest

abbrev pub from_source : {Error : Type 0} → Option Error → Option (StartError Error)
from_source none = none
from_source (some e) = some (source e)

module _ {rt : Runtime} where
  -- The calls of `Start`, by what the CRD source returns in each, with their results.
  abbrev pub start_all :
      List (Option rt.Error) → World rt → List (Option (StartError rt.Error)) × World rt
  start_all [] w = ([], w)
  start_all (crd_start ∷ rest) w =
      let (result, v) = start crd_start w in
      let (results, u) = start_all rest v in (result ∷ results, u)

  -- The three outcomes of one call.
  start_again :
      (call : Option rt.Error) (w : World rt)
      → w.started ≡ true
      → start call w ≡ (some called_twice, w)
  unfolding start
  start_again call w h = ground arith

  start_ok :
      (w : World rt)
      → w.started ≡ false
      → let (result, v) = start none w in (result ≡ none) × (v.started ≡ true) × (v.crd_src ≡ true)
  unfolding start
  start_ok w h = ground arith

  start_fails :
      (e : rt.Error) (w : World rt)
      → w.started ≡ false
      → let (result, v) = start (some e) w in
        (result ≡ some (source e)) × (v.started ≡ false) × (v.crd_src ≡ true)
  unfolding start
  start_fails e w h = ground arith

  start_all-refused :
      (calls : List (Option rt.Error)) (w : World rt)
      → w.started ≡ true
      → start_all calls w ≡ (expected true calls, w)
  start_all-refused [] w h = refl
  start_all-refused (call ∷ rest) w h =
      rw (start_again call w h)
        (ap (λ r. (some called_twice ∷ r.0, r.1)) (start_all-refused rest w h))

  start_all-expected :
      (calls : List (Option rt.Error)) (w : World rt)
      → w.started ≡ false
      → let (results, v) = start_all calls w in
        (results ≡ expected false calls)
        × (v.started ≡ succeeds calls)
        × (v.crd_src ≡ w.crd_src || not (is_empty calls))
  start_all-expected [] w h = (refl, h, ground arith)
  start_all-expected (none ∷ rest) w h =
      let (result, started, src) = start_ok w h in
      rw (start_all-refused rest (start none w).1 started)
        (ap (λ r. r ∷ expected true rest) result, started, ground arith)
  start_all-expected (some e ∷ rest) w h =
      let (result, unstarted, src) = start_fails e w h in
      let (results, started, src') = start_all-expected rest (start (some e) w).1 unstarted in
      (λ i. result i ∷ results i, started, ground arith)

  -- Of all calls of `Start` on a watcher that was never started and has no CRD source yet, in whatever
  -- order the source fails and succeeds in them, at most one succeeds: each fails with the error of
  -- the source until it succeeds, and every later one is refused as a second call. The watcher is
  -- started exactly if one succeeded. `WaitForSync` fails before the first call, and after it has
  -- the result of the source's own wait.
  pub starts_once :
      (w : World rt)
      → w.started ≡ false
      → w.crd_src ≡ false
      → (calls : List (Option rt.Error)) (crd_sync : Option rt.Error)
      → let (results, v) = start_all calls w in
        (results ≡ expected false calls)
        × (v.started ≡ succeeds calls)
        × (wait_for_sync crd_sync v
            ≡ (if is_empty calls then some before_start else from_source crd_sync))
  unfolding wait_for_sync
  starts_once w fresh unset calls crd_sync =
      let (results, started, src) = start_all-expected calls w fresh in
      (results, started, ground arith)
