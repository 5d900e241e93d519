-- ===== src/Apps/Restart.antt =====
-- A crash during an activation, and the recovery at the next start.
use rugix.Common.{
  ℕ, ◌==◌, ◌≡◌, ◌⊎◌, inl, inr, refl, ap, ◌∙◌, Bool, Bool-cases, true, false, Option, none, some,
  List, [], ◌∷◌, if◌then◌else◌, arith,
}
use rugix.Common.Text.{Text}
use rugix.Apps.{
  Error, AppState, switching, active, StateFile, holds, AppGeneration, Generation, World, Result,
  ok, err, crashed, pure, or_raise, caught, attempt, continue_with, ◌>>◌, ensure, take_turn,
  perform, call, Call, activate, deactivate, find_generation, update_generation,
  manifest_unreadable, unsupported_orchestrator,
}
use rugix.Apps.Manager.{
  read_file, read_state, write_state, exists, generation_dir, manifest_of, supported,
  load_orchestrator, record_activation, mark_activated, run_activate, run_deactivate, press_on,
  deactivate_old, after_activation, activate_new, do_switch, activate_generation, recover_state,
  recover_app,
}
use rugix.Apps.Triples.{Outcome, Keeps, perform-Keeps}
use rugix.Apps.Steps.{active_file}
use rugix.Apps.Switching.{switch_file}
use rugix.Apps.Outcomes.{activate_generation_ends}
use rugix.Apps.Keeping.{activate_generation-Keeps}

-- The files that an activation of the generation `n` reads are there.
abbrev pub Ready : ℕ → List Generation → Type 0
Ready n gens =
    (g : Generation) × (name : Text) × (meta : AppGeneration) × (find_generation n gens ≡ some g)
    × (g.manifest ≡ some name)
    × (supported name ≡ true)
    × (g.meta ≡ some meta)

find-update :
    (change : Generation → Generation) (n m : ℕ) (gens : List Generation) (g : Generation)
    → ((x : Generation) → (change x).number ≡ x.number)
    → find_generation n gens ≡ some g
    → (find_generation n (update_generation change m gens) ≡ some g)
      ⊎ (find_generation n (update_generation change m gens) ≡ some (change g))
unfolding find_generation update_generation
find-update change n m [] g same h = cc
find-update change n m (x ∷ gens) g same h =
    let ih = find-update change n m gens g same in
    let e = same x in
    elim (Bool-cases (x.number == n)) [
      | inl yes_n ↦ elim (Bool-cases (x.number == m)) [
        | inl yes_m ↦ inr (ground arith)
        | inr no_m ↦ inl (ground arith)
      ]
      | inr no_n ↦ elim (Bool-cases (x.number == m)) [
        | inl yes_m ↦ ground arith
        | inr no_m ↦ ground arith
      ]
    ]

update-Ready :
    (n m : ℕ) (meta : AppGeneration) (gens : List Generation)
    → Ready n gens
    → Ready n (update_generation (λ g. record g { meta = some meta }) m gens)
update-Ready n m meta gens (g, name, old, found, man, sup, met) =
    elim (find-update (λ x. record x { meta = some meta }) n m gens g (λ x. refl) found) [
      | inl e ↦ (g, name, old, e, man, sup, met)
      | inr e ↦ (record g { meta = some meta }, name, meta, e, man, sup, refl)
    ]

-- A run that no effect fails, with the files of `n` there.
abbrev Calm : ℕ → World → Type 0
Calm n w = (w.schedule ≡ []) × Ready n w.generations

abbrev ReadyIn : ℕ → World → Type 0
ReadyIn n w = Ready n w.generations

call-ReadyIn : (n : ℕ) (c : Call) → Keeps (ReadyIn n) (call c)
unfolding call
call-ReadyIn n c w h =
    perform-Keeps (ReadyIn n) (λ v. v) (λ v k. k) (λ v turns k. k)
      (record w { calls = c ∷ w.calls }) h

write_state-ReadyIn : (n : ℕ) (s : AppState) → Keeps (ReadyIn n) (write_state s)
unfolding write_state
write_state-ReadyIn n s =
    perform-Keeps (ReadyIn n) (λ w. record w { state = holds s }) (λ v k. k) (λ v turns k. k)

record_activation-ReadyIn :
    (n m : ℕ) (meta : AppGeneration) → Keeps (ReadyIn n) (record_activation m meta)
unfolding record_activation
record_activation-ReadyIn n m meta =
    perform-Keeps (ReadyIn n) _
      (λ v k. update-Ready n m (record meta { last_activated = some v.clock }) v.generations k)
      (λ v turns k. k)

activate_generation-Ready : (n m : ℕ) → Keeps (ReadyIn n) (activate_generation m)
activate_generation-Ready n m =
    activate_generation-Keeps (ReadyIn n) (call-ReadyIn n) (write_state-ReadyIn n)
      (record_activation-ReadyIn n) m

-- What a calm effect does.
calm_perform :
    (change : World → World) (w : World) → w.schedule ≡ [] → perform change w ≡ (ok tt, change w)
unfolding perform
calm_perform change w h = ap (take_turn change w) h

calm_write :
    (s : AppState) (w : World)
    → w.schedule ≡ []
    → write_state s w ≡ (ok tt, record w { state = holds s })
unfolding write_state
calm_write s w h = calm_perform (λ v. record v { state = holds s }) w h

calm_call :
    (c : Call) (w : World) → w.schedule ≡ [] → call c w ≡ (ok tt, record w { calls = c ∷ w.calls })
unfolding call
calm_call c w h = calm_perform (λ v. v) (record w { calls = c ∷ w.calls }) h

calm_load : (n : ℕ) (w : World) → Ready n w.generations → load_orchestrator n w ≡ (ok tt, w)
unfolding load_orchestrator generation_dir
calm_load n w (g, name, meta, found, man, sup, met) = rw (found, man, sup) refl

Calm-mark :
    (n : ℕ) (w : World) → Calm n w → (v : World) × (mark_activated n w ≡ (ok tt, v)) × Calm n v
unfolding mark_activated generation_dir record_activation
Calm-mark n w (calm, (g, name, meta, found, man, sup, met)) =
    let change : World → World = λ v. record v {
      generations =
          update_generation
            (λ x. record x { meta = some (record meta { last_activated = some v.clock }) }) n
            v.generations;
    } in
    (
      change w,
      rw (found, met) (calm_perform change w calm),
      (
        calm,
        update-Ready n n (record meta { last_activated = some w.clock }) w.generations
            (g, name, meta, found, man, sup, met),
      ),
    )

Calm-activate :
    (n : ℕ) (r : Bool) (w : World)
    → Calm n w
    → (v : World) × (run_activate n r w ≡ (ok tt, v)) × (v.state ≡ holds (active n))
unfolding run_activate
Calm-activate n r w (calm, ready) =
    let w1 : World = record w { calls = activate n r ∷ w.calls } in
    let (v, marked, (calm', ready')) = Calm-mark n w1 (calm, ready) in
    (
      record v { state = holds (active n) },
      rw (calm_load n w ready)
          (rw (calm_call (activate n r) w calm) (rw marked (calm_write (active n) v calm'))),
      refl,
    )

load_ends :
    (p : ℕ) (w : World)
    → (load_orchestrator p w ≡ (ok tt, w)) ⊎ ((e : Error) × (load_orchestrator p w ≡ (err e, w)))
unfolding load_orchestrator generation_dir
load_ends p w = by_manifest (manifest_of (find_generation p w.generations))
  where
    by_manifest :
        (o : Option Text)
        → (continue_with
              (λ name. ensure (supported name) unsupported_orchestrator)
              (or_raise o manifest_unreadable w)
            ≡ (ok tt, w))
          ⊎ ((e : Error) × (continue_with
                  (λ name. ensure (supported name) unsupported_orchestrator)
                  (or_raise o manifest_unreadable w)
                ≡ (err e, w)))
    by_manifest none = inr (manifest_unreadable, refl)
    by_manifest (some name) = elim (Bool-cases (supported name)) [
      | inl y ↦ inl (rw y refl)
      | inr n ↦ inr (unsupported_orchestrator, rw n refl)
    ]

-- The deactivation of any generation ends, in a calm run.
Calm-deactivate :
    (n p : ℕ) (r : Bool) (w : World)
    → Calm n w
    → (failure : Option Error) × (v : World) × (attempt (run_deactivate p r) w ≡ (ok failure, v))
      × Calm n v
unfolding run_deactivate generation_dir
Calm-deactivate n p r w (calm, ready) = by_dir (exists (find_generation p w.generations))
  where
    by_dir :
        (b : Bool)
        → (failure : Option Error) × (v : World) × (caught
              ((if b then (load_orchestrator p >> call (deactivate p r)) else pure tt) w)
            ≡ (ok failure, v))
          × Calm n v
    by_dir true = elim (load_ends p w) [
      | inl loads ↦ (
        none,
        record w { calls = deactivate p r ∷ w.calls },
        rw loads (rw (calm_call (deactivate p r) w calm) refl),
        (calm, ready),
      )
      | inr fails ↦ let (e, raised) = fails in (some e, w, rw raised refl, (calm, ready))
    ]
    by_dir false = (none, w, refl, (calm, ready))

calm_press_on :
    (n : ℕ) (failure : Option Error) (w : World) → press_on (some n) failure w ≡ (ok tt, w)
unfolding press_on
calm_press_on n none w = refl
calm_press_on n (some e) w = refl

Calm-switch :
    (p n : ℕ) (w : World)
    → Calm n w
    → (v : World) × (do_switch (some p) (some n) true w ≡ (ok tt, v)) × (v.state ≡ holds (active n))
unfolding do_switch deactivate_old activate_new after_activation
Calm-switch p n w (calm, ready) =
    let w1 : World = record w { state = holds (switching (some p) (some n) (some true)) } in
    let (failure, w2, left, calm2) = Calm-deactivate n p true w1 (calm, ready) in
    let (w3, arrived, at) = Calm-activate n true w2 calm2 in
    (
      w3,
      rw (calm_write (switching (some p) (some n) (some true)) w calm)
          (rw left (rw (calm_press_on n failure w2) (rw arrived refl))),
      at,
    )

recover-state : (s : AppState) (w : World) → w.state ≡ holds s → recover_app w ≡ recover_state s w
unfolding recover_app read_state
recover-state s w e = ap (λ u. continue_with recover_state (read_file u w)) e

crashed_outcome :
    {A : Type 0} (Q E C : StateFile → Type 0) (r : Result A × World)
    → r.0 ≡ crashed
    → Outcome (λ a. Q) E C r
    → C r.1.state
crashed_outcome Q E C (ok a, w) e h = cc
crashed_outcome Q E C (err x, w) e h = cc
crashed_outcome Q E C (crashed, w) e h = h

-- Where an activation of `n` is interrupted by a crash, whatever failed before, while the generation
-- `p` was active and the files of `n` are there, the recovery that no effect disturbs succeeds, and
-- leaves the app active at `p` if the switch had not begun, and at `n` if it had.
pub recover_app-activate_generation :
    (p n : ℕ) (w : World)
    → w.state ≡ holds (active p)
    → Ready n w.generations
    → (activate_generation n w).0 ≡ crashed
    → ((recover_app (record (activate_generation n w).1 { schedule = [] })).0 ≡ ok tt)
      × (((activate_generation n w).1.state ≡ holds (active p))
            × ((recover_app (record (activate_generation n w).1 { schedule = [] })).1.state
                ≡ holds (active p))
          ⊎ ((activate_generation n w).1.state ≡ holds (switching (some p) (some n) (some false)))
            × ((recover_app (record (activate_generation n w).1 { schedule = [] })).1.state
                ≡ holds (active n)))
unfolding recover_state
recover_app-activate_generation p n w at ready crash =
    let after : World = (activate_generation n w).1 in
    let v : World = record after { schedule = [] } in
    elim (crashed_outcome _ _ _ (activate_generation n w) crash (activate_generation_ends n w)) [
      | inl same ↦
          let e : v.state ≡ holds (active p) = same ∙ at in
          (rw (recover-state (active p) v e) refl, inl (e, rw (recover-state (active p) v e) e))
      | inr under ↦
          let e : v.state ≡ holds (switching (some p) (some n) (some false)) =
            under ∙ ap (λ s. switch_file (active_file s) (some n) false) at in
          let (u, ran, end) = Calm-switch p n v (refl, activate_generation-Ready n n w ready) in
          let steps : recover_app v ≡ (ok tt, u) =
            recover-state (switching (some p) (some n) (some false)) v e ∙ ran in
          (rw steps refl, inr (e, rw steps end))
    ]
