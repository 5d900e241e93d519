-- ===== src/BootFlow/Rugix/Uboot.antt =====
-- crates/apps/rugix-ctrl/src/system/boot_flows/mod.rs: `Uboot`, the flow over variables of U-Boot.
use rugix.Common.{
  ℕ, ◌≡◌, refl, ap, sym, ◌∙◌, inl, inr, Bool-cases, Option, some, [], ◌==◌, if◌then◌else◌, arith,
}
use rugix.Common.Text.{Text, text, trim, trim-digit, IsPlain}
use rugix.Common.Result.{ok, ok_or, ◌>>=◌, >>=-eq-ok}
use rugix.BootFlow.{FlowResult, boot_partition_not_set, Env, get, insert, or_else, UbootTools}
use rugix.BootFlow.Contract.{BootFlow, Contract}
use rugix.BootFlow.Rugix.{RugixBootFlow, for_active, entry_for, IsEntry, for_active-IsEntry}

-- `get_default` on the variables that were loaded.
unfoldable pub default_of_vars : RugixBootFlow → Env → FlowResult ℕ
default_of_vars flow env = do
  bootpart ← ok_or (get (text "rugix_bootpart") env) boot_partition_not_set
  entry_for flow (trim bootpart)

module _ (tools : UbootTools) where
  unfoldable pub get_vars_default : RugixBootFlow → tools.State → FlowResult ℕ
  get_vars_default flow s = do boot_env ← tools.load_vars s; default_of_vars flow boot_env

  unfoldable pub try_vars : RugixBootFlow → ℕ → tools.State → FlowResult tools.State
  try_vars flow entry s = do
    default ← get_vars_default flow s
    tools.set_vars
        (insert (text "rugix_boot_spare") (if entry == default then text "0" else text "1") []) s

  unfoldable pub commit_vars : RugixBootFlow → Option ℕ → tools.State → FlowResult tools.State
  commit_vars flow active s = do
    value ← for_active flow active (text "2") (text "3")
    tools.set_vars (insert (text "rugix_bootpart") value []) s

  abbrev pub uboot : RugixBootFlow → BootFlow
  uboot flow = record {
    State = tools.State;
    set_try_next = try_vars flow;
    get_default = get_vars_default flow;
    commit = commit_vars flow;
  }

  module _ (flow : RugixBootFlow) where
    default_of-loaded :
        (s : tools.State) (default : ℕ)
        → get_vars_default flow s ≡ ok default
        → (env : Env) × (tools.load_vars s ≡ ok env) × (default_of_vars flow env ≡ ok default)
    unfolding get_vars_default
    default_of-loaded s default found = >>=-eq-ok (tools.load_vars s) (default_of_vars flow) found

    -- What `set_vars` of one variable leaves of the default.
    default_of-set :
        (key value : Text) (env : Env) (s s' : tools.State)
        → IsPlain key
        → IsPlain value
        → tools.load_vars s ≡ ok env
        → tools.set_vars (insert key value []) s ≡ ok s'
        → (env' : Env) × (get_vars_default flow s' ≡ default_of_vars flow env')
          × (get (text "rugix_bootpart") env'
              ≡ or_else
                  (get (text "rugix_bootpart") (insert key value []))
                  (get (text "rugix_bootpart") env))
    unfolding get_vars_default
    default_of-set key value env s s' plain_key plain loaded set =
        let (env', loaded', same) =
          tools.load_vars-set_vars (insert key value []) env s s' ((plain_key, plain), tt) loaded
            set in
        (env', rw loaded' refl, same (text "rugix_bootpart"))

    default_of_vars-same :
        (env env' : Env)
        → get (text "rugix_bootpart") env' ≡ get (text "rugix_bootpart") env
        → default_of_vars flow env' ≡ default_of_vars flow env
    unfolding default_of_vars
    default_of_vars-same env env' same = rw same refl

    default_of_vars-digit :
        (env : Env) (value : Text)
        → trim value ≡ value
        → get (text "rugix_bootpart") env ≡ some value
        → default_of_vars flow env ≡ entry_for flow value
    unfolding default_of_vars
    default_of_vars-digit env value plain same = rw (same, plain) refl

    set_spare-keeps :
        (value : Text) (default : ℕ) (s s' : tools.State)
        → IsPlain value
        → get_vars_default flow s ≡ ok default
        → tools.set_vars (insert (text "rugix_boot_spare") value []) s ≡ ok s'
        → get_vars_default flow s' ≡ ok default
    set_spare-keeps value default s s' plain found set =
        let (env, loaded, before) = default_of-loaded s default found in
        let (env', after, same) =
          default_of-set (text "rugix_boot_spare") value env s s' (ground arith) plain loaded set in
        after ∙ default_of_vars-same env env' same ∙ before

    set_bootpart-sets :
        (value : Text) (default : ℕ) (s s' : tools.State)
        → IsPlain value
        → trim value ≡ value
        → get_vars_default flow s ≡ ok default
        → tools.set_vars (insert (text "rugix_bootpart") value []) s ≡ ok s'
        → get_vars_default flow s' ≡ entry_for flow value
    set_bootpart-sets value default s s' plain trimmed found set =
        let (env, loaded, before) = default_of-loaded s default found in
        let (env', after, same) =
          default_of-set (text "rugix_bootpart") value env s s' (ground arith) plain loaded set in
        after ∙ default_of_vars-digit env' value trimmed same

    try_vars-keeps :
        (group default : ℕ) (s s' : tools.State)
        → get_vars_default flow s ≡ ok default
        → try_vars flow group s ≡ ok s'
        → get_vars_default flow s' ≡ ok default
    unfolding try_vars
    try_vars-keeps group default s s' found done = elim (Bool-cases (group == default)) [
      | inl same ↦
          set_spare-keeps (text "0") default s s' (ground arith) found (rw (found, same) at done)
      | inr other ↦
          set_spare-keeps (text "1") default s s' (ground arith) found (rw (found, other) at done)
    ]

    commit_vars-sets :
        (active default : ℕ) (s s' : tools.State)
        → IsEntry flow active
        → get_vars_default flow s ≡ ok default
        → commit_vars flow (some active) s ≡ ok s'
        → get_vars_default flow s' ≡ ok active
    unfolding commit_vars entry_for
    commit_vars-sets active default s s' g found done =
        elim (for_active-IsEntry flow active (text "2") (text "3") g) [
          | inl (same, chosen) ↦
              set_bootpart-sets (text "2") default s s' (ground arith)
                (trim-digit 50 (omega arith) (omega arith)) found (rw chosen at done)
              ∙ ap ok (sym same)
          | inr (same, chosen) ↦
              set_bootpart-sets (text "3") default s s' (ground arith)
                (trim-digit 51 (omega arith) (omega arith)) found (rw chosen at done)
              ∙ ap ok (sym same)
        ]

    -- The flow over variables of U-Boot keeps the default when a boot group is to be tried, and
    -- makes the active boot group, one of its two, the default when it commits.
    pub uboot-Contract : Contract (uboot flow) (IsEntry flow)
    uboot-Contract = record { set_try_next-keeps = try_vars-keeps; commit-sets = commit_vars-sets }
