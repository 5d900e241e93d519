-- ===== src/Apps/Triples.antt =====
-- What a run does to the state file, by how it ends: the rules for the parts of a run.
use rugix.Common.{◌≡◌, refl, ◌∙◌, Bool, Option, none, some, List, [], ◌∷◌}
use rugix.Apps.{
  Error, AppState, StateFile, holds, Turn, succeeds, fails, crashes, World, Result, ok, err,
  crashed, M, or_raise, caught, attempt, continue_with, ◌>>=◌, ensure, take_turn, perform, call,
  Call,
}
use rugix.Apps.Manager.{write_state}

-- The state file after a run: by the value, after an error, and after a crash.
abbrev pub Outcome :
    {A : Type 0}
    → (A → StateFile → Type 0)
    → (StateFile → Type 0)
    → (StateFile → Type 0)
    → Result A × World
    → Type 0
Outcome Q E C (ok a, w) = Q a w.state
Outcome Q E C (err e, w) = E w.state
Outcome Q E C (crashed, w) = C w.state

abbrev pub Triple :
    {A : Type 0}
    → (StateFile → Type 0)
    → M A
    → (A → StateFile → Type 0)
    → (StateFile → Type 0)
    → (StateFile → Type 0)
    → Type 0
Triple P m Q E C = (w : World) → P w.state → Outcome Q E C (m w)

-- A run that leaves the state file alone, however it ends.
abbrev pub Silent : {A : Type 0} → M A → Type 0
Silent m = (w : World) → (m w).1.state ≡ w.state

module _ {A : Type 0} where
  Silent_outcome :
      (P : StateFile → Type 0) (r : Result A × World) (s : StateFile)
      → r.1.state ≡ s
      → P s
      → Outcome (λ a. P) P P r
  Silent_outcome P (ok a, w) s e h = rw e h
  Silent_outcome P (err x, w) s e h = rw e h
  Silent_outcome P (crashed, w) s e h = rw e h

  pub Silent-Triple : (P : StateFile → Type 0) (m : M A) → Silent m → Triple P m (λ a. P) P P
  Silent-Triple P m quiet w h = Silent_outcome P (m w) w.state (quiet w) h

  -- An error that is caught.
  attempt_outcome :
      (Q E C F : StateFile → Type 0) (R : Option Error → StateFile → Type 0) (r : Result A × World)
      → ((s : StateFile) → Q s → R none s)
      → ((e : Error) (s : StateFile) → E s → R (some e) s)
      → Outcome (λ a. Q) E C r
      → Outcome R F C (caught r)
  attempt_outcome Q E C F R (ok a, w) f g h = f w.state h
  attempt_outcome Q E C F R (err e, w) f g h = g e w.state h
  attempt_outcome Q E C F R (crashed, w) f g h = h

  pub attempt-Triple :
      (P Q E C F : StateFile → Type 0) (R : Option Error → StateFile → Type 0) (m : M A)
      → ((s : StateFile) → Q s → R none s)
      → ((e : Error) (s : StateFile) → E s → R (some e) s)
      → Triple P m (λ a. Q) E C
      → Triple P (attempt m) R F C
  attempt-Triple P Q E C F R m f g t w h = attempt_outcome Q E C F R (m w) f g (t w h)

module _ {A B : Type 0} where
  bind_outcome :
      (Q : A → StateFile → Type 0) (R : B → StateFile → Type 0) (E C : StateFile → Type 0)
      (r : Result A × World) (f : A → M B)
      → Outcome Q E C r
      → ((a : A) → Triple (Q a) (f a) R E C)
      → Outcome R E C (continue_with f r)
  bind_outcome Q R E C (ok a, w) f h k = k a w h
  bind_outcome Q R E C (err e, w) f h k = h
  bind_outcome Q R E C (crashed, w) f h k = h

  pub >>=-Triple :
      (P : StateFile → Type 0) (Q : A → StateFile → Type 0) (R : B → StateFile → Type 0)
      (E C : StateFile → Type 0) (m : M A) (f : A → M B)
      → Triple P m Q E C
      → ((a : A) → Triple (Q a) (f a) R E C)
      → Triple P (m >>= f) R E C
  >>=-Triple P Q R E C m f t k w h = bind_outcome Q R E C (m w) f (t w h) k

  -- A run behind one that is silent.
  Silent-bind :
      (s : StateFile) (r : Result A × World) (f : A → M B)
      → r.1.state ≡ s
      → ((a : A) → Silent (f a))
      → (continue_with f r).1.state ≡ s
  Silent-bind s (ok a, w) f e k = k a w ∙ e
  Silent-bind s (err x, w) f e k = e
  Silent-bind s (crashed, w) f e k = e

  pub >>=-Silent : (m : M A) (f : A → M B) → Silent m → ((a : A) → Silent (f a)) → Silent (m >>= f)
  >>=-Silent m f quiet k w = Silent-bind w.state (m w) f (quiet w) k

turn-Silent :
    (change : World → World) (w : World) (turns : List Turn)
    → ((v : World) → (change v).state ≡ v.state)
    → (take_turn change w turns).1.state ≡ w.state
turn-Silent change w [] h = h w
turn-Silent change w (succeeds ∷ turns) h = h (record w { schedule = turns })
turn-Silent change w (fails ∷ turns) h = refl
turn-Silent change w (crashes ∷ turns) h = refl

pub perform-Silent :
    (change : World → World) → ((v : World) → (change v).state ≡ v.state) → Silent (perform change)
unfolding perform
perform-Silent change h w = turn-Silent change w w.schedule h

pub call-Silent : (c : Call) → Silent (call c)
unfolding call
call-Silent c w = perform-Silent (λ v. v) (λ v. refl) (record w { calls = c ∷ w.calls })

pub ensure-Silent : (b : Bool) (e : Error) → Silent (ensure b e)
ensure-Silent b e w = refl

pub or_raise-Silent : {A : Type 0} (o : Option A) (e : Error) → Silent (or_raise o e)
or_raise-Silent none e w = refl
or_raise-Silent (some a) e w = refl

write_turn :
    (s : AppState) (Q E : StateFile → Type 0) (w : World) (turns : List Turn)
    → Q (holds s)
    → E w.state
    → Outcome (λ a. Q) E E (take_turn (λ v. record v { state = holds s }) w turns)
write_turn s Q E w [] q e = q
write_turn s Q E w (succeeds ∷ turns) q e = q
write_turn s Q E w (fails ∷ turns) q e = e
write_turn s Q E w (crashes ∷ turns) q e = e

-- A write of the state succeeds, or changes nothing.
pub write_state-Triple :
    (s : AppState) (P Q E : StateFile → Type 0)
    → Q (holds s)
    → ((u : StateFile) → P u → E u)
    → Triple P (write_state s) (λ a. Q) E E
unfolding write_state perform
write_state-Triple s P Q E q e w h = write_turn s Q E w w.schedule q (e w.state h)

module _ {A : Type 0} where
  weaken_outcome :
      (Q Q' : A → StateFile → Type 0) (E E' C C' : StateFile → Type 0) (r : Result A × World)
      → ((a : A) (s : StateFile) → Q a s → Q' a s)
      → ((s : StateFile) → E s → E' s)
      → ((s : StateFile) → C s → C' s)
      → Outcome Q E C r
      → Outcome Q' E' C' r
  weaken_outcome Q Q' E E' C C' (ok a, w) q e c h = q a w.state h
  weaken_outcome Q Q' E E' C C' (err x, w) q e c h = e w.state h
  weaken_outcome Q Q' E E' C C' (crashed, w) q e c h = c w.state h

  pub weaken-Triple :
      (P : StateFile → Type 0) (Q Q' : A → StateFile → Type 0) (E E' C C' : StateFile → Type 0)
      (m : M A)
      → ((a : A) (s : StateFile) → Q a s → Q' a s)
      → ((s : StateFile) → E s → E' s)
      → ((s : StateFile) → C s → C' s)
      → Triple P m Q E C
      → Triple P m Q' E' C'
  weaken-Triple P Q Q' E E' C C' m q e c t w h = weaken_outcome Q Q' E E' C C' (m w) q e c (t w h)

-- A property of the whole world that a run keeps, however it ends.
abbrev pub Keeps : {A : Type 0} → (World → Type 0) → M A → Type 0
Keeps I m = (w : World) → I w → I (m w).1

module _ {A B : Type 0} (I : World → Type 0) where
  keeps_bind :
      (r : Result A × World) (f : A → M B)
      → I r.1
      → ((a : A) → Keeps I (f a))
      → I (continue_with f r).1
  keeps_bind (ok a, w) f h k = k a w h
  keeps_bind (err e, w) f h k = h
  keeps_bind (crashed, w) f h k = h

  pub >>=-Keeps :
      (m : M A) (f : A → M B) → Keeps I m → ((a : A) → Keeps I (f a)) → Keeps I (m >>= f)
  >>=-Keeps m f t k w h = keeps_bind (m w) f (t w h) k

module _ {A : Type 0} (I : World → Type 0) where
  keeps_caught : (r : Result A × World) → I r.1 → I (caught r).1
  keeps_caught (ok a, w) h = h
  keeps_caught (err e, w) h = h
  keeps_caught (crashed, w) h = h

  pub attempt-Keeps : (m : M A) → Keeps I m → Keeps I (attempt m)
  attempt-Keeps m t w h = keeps_caught (m w) (t w h)

  pub or_raise-Keeps : (o : Option A) (e : Error) → Keeps I (or_raise o e)
  or_raise-Keeps none e w h = h
  or_raise-Keeps (some a) e w h = h

module _ (I : World → Type 0) (change : World → World) where
  keeps_turn :
      ((v : World) → I v → I (change v))
      → ((v : World) (turns : List Turn) → I v → I (record v { schedule = turns }))
      → (w : World) (turns : List Turn) → I w
      → I (take_turn change w turns).1
  keeps_turn c s w [] h = c w h
  keeps_turn c s w (succeeds ∷ turns) h = c (record w { schedule = turns }) (s w turns h)
  keeps_turn c s w (fails ∷ turns) h = s w turns h
  keeps_turn c s w (crashes ∷ turns) h = s w turns h

  pub perform-Keeps :
      ((v : World) → I v → I (change v))
      → ((v : World) (turns : List Turn) → I v → I (record v { schedule = turns }))
      → Keeps I (perform change)
  unfolding perform
  perform-Keeps c s w h = keeps_turn c s w w.schedule h
