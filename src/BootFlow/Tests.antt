-- ===== src/BootFlow/Tests.antt =====
-- The Mender flow over an environment that stays in memory.
use rugix.Common.{ℕ, ◌≡◌, ◌≢◌, refl, inl, inr, none, some, [], ◌∷◌, ◌++◌, arith, All, Bool-cases}
use rugix.Common.Result.{ok}
use rugix.Common.Text.{
  Text, text, text_eq, trim, trim_start, trim_end, keep, is_whitespace, from_str, parse_digits,
  to_string, IsPlain,
}
use rugix.BootFlow.{FlowResult, Env, get, or_else, UbootTools}
use rugix.BootFlow.MenderUboot.{
  MenderBootFlow, default_of, default_group, get_default, set_try_next, commit, vars_for, IsGroup,
  IsConfigured, Tries, set_try_next-keeps, commit-inverts,
}

get-append :
    (vars env : Env) (key : Text) → get key (vars ++ env) ≡ or_else (get key vars) (get key env)
get-append [] env key = refl
get-append ((k, v) ∷ vars) env key = elim (Bool-cases (text_eq key k)) [
  | inl e ↦ rw e refl
  | inr e ↦ rw e (get-append vars env key)
]

pub kept :
    (vars env s s' : Env)
    → All (λ entry. IsPlain entry.0 × IsPlain entry.1) vars
    → ◌≡◌ {A = FlowResult Env} (ok s) (ok env)
    → ◌≡◌ {A = FlowResult Env} (ok (vars ++ s)) (ok s')
    → (env' : Env) × (◌≡◌ {A = FlowResult Env} (ok s') (ok env'))
      × ((key : Text) → get key env' ≡ or_else (get key vars) (get key env))
kept vars env s s' plain loaded set =
    let same : vars ++ env ≡ s' = cc in (s', refl, λ key. rw (← same) (get-append vars env key))

abbrev pub in_memory : UbootTools
in_memory = record {
  State = Env;
  load_vars = λ s. ok s;
  set_vars = λ vars s. ok (vars ++ s);
  load_vars-set_vars = kept;
}

abbrev flow : MenderBootFlow
flow = record { config_part_a = none; config_part_b = some 4; entry_a = 0; entry_b = 1 }

-- What `commit` leaves when the group 0 is active.
abbrev committed : Env
committed = vars_for flow 0 (text "0") ++ []

abbrev trying : ℕ → Text → Env
trying group flag = vars_for flow group flag ++ committed

default_is_1 : get_default in_memory flow committed ≡ ok 1
unfolding get_default default_of vars_for default_group to_string from_str parse_digits trim
    trim_start trim_end keep is_whitespace
default_is_1 = refl

abbrev configured : IsConfigured flow
configured = (omega arith, omega arith, omega arith, omega arith)

set_try_next-keeps_example :
    (get_default in_memory flow (trying 0 (text "1")) ≡ ok 1)
    × (env : Env) × (◌≡◌ {A = FlowResult Env} (ok (trying 0 (text "1"))) (ok env))
    × Tries in_memory flow configured env 0
set_try_next-keeps_example =
    set_try_next-keeps in_memory flow configured 0 1 committed (trying 0 (text "1")) (inl refl)
      (inr refl) (omega arith) default_is_1 try_0
  where
    try_0 : set_try_next in_memory flow 0 committed ≡ ok (trying 0 (text "1"))
    try_0 = unfold set_try_next in rw default_is_1 refl

commit-inverts_example :
    (g : ℕ) × (get_default in_memory flow committed ≡ ok g) × IsGroup flow g × (g ≢ 0)
commit-inverts_example =
    commit-inverts in_memory flow (omega arith, omega arith, omega arith, omega arith) 0 [] []
      committed (inl refl) refl commit_0
  where
    commit_0 : commit in_memory flow (some 0) [] ≡ ok committed
    commit_0 = unfold commit in refl
