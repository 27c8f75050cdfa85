-- ===== src/System/Cases.antt =====
-- Where the goroutines around a watcher of pkg/dynamicwatch/watcher.go can stand.
use dynamic_crd_watch.Base.{
  ℕ, ◌≡◌, ◌⊎◌, refl, Bool, true, false, none, some, arith, inl, inr, [], ◌∷◌,
}
use dynamic_crd_watch.Crd.{Crd, is_crd_established, crd_removed}
use dynamic_crd_watch.Watcher.{
  Runtime, Waiter, waiting, returned, ensure, promote, fail_sync, mark_present, requeue, tear_down,
  start, mark_removed, handle_cache_invalidated, clean_up, announce, finish,
}
use dynamic_crd_watch.System.{
  System, CrdHandler, listening, tearing, requeueing, away, ensured, missed, Step, Reach, fresh,
  after, after_present, after_tear_down, Reader, starts,
}
use dynamic_crd_watch.System.Invariant.{gen_of}

pub Waiter-cases :
    {Error : Type 0} {gen : ℕ} (x : Waiter Error)
    → gen_of x ≡ some gen
    → (x ≡ waiting gen) ⊎ ((x ≡ returned gen none) ⊎ ((e : Error) × (x ≡ returned gen (some e))))
Waiter-cases Waiter.unused h = absurd (ground arith)
Waiter-cases (waiting g) h = inl (ground arith)
Waiter-cases (returned g none) h = inr (inl (ground arith))
Waiter-cases (returned g (some e)) h = inr (inr (e, ground arith))
Waiter-cases (Waiter.cleaning e) h = absurd (ground arith)
Waiter-cases Waiter.announcing h = absurd (ground arith)
Waiter-cases Waiter.done h = absurd (ground arith)

-- A CRD that is established.
abbrev pub installed : Crd (Unit {0})
installed = record {
  name = "";
  deletion_timestamp = none;
  spec = tt;
  managed_fields = [];
  annotations = [];
  conditions = record { type = "Established"; status = "True" } ∷ [];
}

pub installed_usable : crd_removed installed ≡ false
unfolding crd_removed is_crd_established
installed_usable = refl

pub handler_after :
    (already_known : Bool)
    → (after_present already_known ≡ listening) ⊎ (after_present already_known ≡ requeueing)
handler_after true = inl refl
handler_after false = inr refl

pub handler_after_tear_down :
    (was_ready : Bool)
    → (after_tear_down was_ready ≡ listening) ⊎ (after_tear_down was_ready ≡ requeueing)
handler_after_tear_down true = inr refl
handler_after_tear_down false = inl refl

pub Handler-cases :
    (h : CrdHandler)
    → ((h ≡ listening) ⊎ (h ≡ requeueing))
      ⊎ ((was_watching was_ready : Bool) × (h ≡ tearing was_watching was_ready))
Handler-cases listening = inl (inl refl)
Handler-cases requeueing = inl (inr refl)
Handler-cases (tearing a b) = inr (a, b, refl)

pub Reader-cases : (x : Reader) → (x ≡ away) ⊎ ((x ≡ ensured) ⊎ (x ≡ missed))
Reader-cases away = inl refl
Reader-cases ensured = inr (inl refl)
Reader-cases missed = inr (inr refl)

-- A watcher that was started has its CRD source.
Step-started :
    {rt : Runtime} {s t : System rt}
    → Step s t
    → (s.started ≡ true → s.crd_src ≡ true)
    → t.started ≡ true
    → t.crd_src ≡ true
unfolding start mark_present mark_removed tear_down requeue ensure handle_cache_invalidated promote
    fail_sync clean_up announce finish
Step-started (starts e) src h = ground arith
Step-started _ src h = ground arith

pub Reach-started :
    {rt : Runtime} {n : ℕ} {s : System rt} → Reach n s → s.started ≡ true → s.crd_src ≡ true
Reach-started (fresh a b r o) h = absurd (ground arith)
Reach-started (after r st) h = Step-started st (Reach-started r) h
