-- ===== src/BootFlow/MenderUboot.antt =====
-- crates/apps/rugix-ctrl/src/system/boot_flows/mender.rs: `MenderBootFlow` and `MenderUboot`.
use rugix.Common.{
  ℕ, ◌^◌, ◌<◌, ◌≡◌, ◌≢◌, ◌⊎◌, inl, inr, ap, ◌∙◌, Option, none, some, false, List, [], ◌∷◌, ◌==◌,
  if◌then◌else◌, All, arith, Bool-cases,
}
use rugix.Common.Result.{ok, err, ◌>>=◌, ok_or, unwrap, >>=-eq-ok}
use rugix.Common.Text.{
  Text, text, text_eq, trim, trim-digit, trim-to_string, to_string, to_hex, from_str,
  from_str-to_string, IsPlain, to_string-IsPlain, to_hex-IsPlain,
}
use rugix.BootFlow.{
  FlowResult, invalid_number_of_entries, boot_partition_not_set, update_flag_not_set, Env, get,
  insert, or_else, UbootTools,
}

-- `MenderBootFlow`, with the fields of its configuration that matter here.
pub record MenderBootFlow : Type 0 where
  pub config_part_a : Option ℕ
  pub config_part_b : Option ℕ
  pub entry_a : ℕ
  pub entry_b : ℕ

abbrev pub unwrap_or : Option ℕ → ℕ → ℕ
unwrap_or none d = d
unwrap_or (some n) d = n

abbrev pub boot_part_a : MenderBootFlow → ℕ
boot_part_a flow = unwrap_or flow.config_part_a 2

abbrev pub boot_part_b : MenderBootFlow → ℕ
boot_part_b flow = unwrap_or flow.config_part_b 3

-- `mender_boot_flow`, on the indices of the boot groups.
unfoldable pub mender_boot_flow : List ℕ → Option ℕ → Option ℕ → FlowResult MenderBootFlow
mender_boot_flow (a ∷ b ∷ _) part_a part_b =
    ok (record { config_part_a = part_a; config_part_b = part_b; entry_a = a; entry_b = b })
mender_boot_flow _ part_a part_b = err invalid_number_of_entries

abbrev pub and_then : Option Text → (Text → Option ℕ) → Option ℕ
and_then none f = none
and_then (some t) f = f t

-- The choice that `get_default` makes from the partition and the flag.
unfoldable pub default_group : MenderBootFlow → ℕ → Text → ℕ
default_group flow part flag =
    if text_eq flag (text "1")
    then if part == boot_part_a flow then flow.entry_b else flow.entry_a
    else if part == boot_part_b flow
    then flow.entry_a
    else flow.entry_b

-- `get_default` on the variables that were loaded.
unfoldable pub default_of : MenderBootFlow → Env → FlowResult ℕ
default_of flow env = do
  part ←
      ok_or (and_then (get (text "mender_boot_part") env) (λ v. from_str (2 ^ 32) (trim v)))
        boot_partition_not_set
  flag ← ok_or (get (text "upgrade_available") env) update_flag_not_set
  ok (default_group flow part (trim flag))

abbrev pub part_of : MenderBootFlow → ℕ → ℕ
part_of flow group = if group == flow.entry_a then boot_part_a flow else boot_part_b flow

-- The variables that make `group` the partition to boot, with the flag.
unfoldable pub vars_for : MenderBootFlow → ℕ → Text → Env
vars_for flow group flag =
    let vars = insert (text "upgrade_available") flag (insert (text "bootcount") (text "0") []) in
    let part = part_of flow group in
    insert (text "mender_boot_part_hex") (to_hex part)
      (insert (text "mender_boot_part") (to_string part) vars)

module _ (tools : UbootTools) where
  unfoldable pub get_default : MenderBootFlow → tools.State → FlowResult ℕ
  get_default flow s = do env ← tools.load_vars s; default_of flow env

  unfoldable pub set_try_next : MenderBootFlow → ℕ → tools.State → FlowResult tools.State
  set_try_next flow group s = do
    default ← get_default flow s
    let flag = if group == default then text "0" else text "1"
    tools.set_vars (vars_for flow group flag) s

  -- `commit`, where `active` is `system.active_boot_entry()`.
  unfoldable pub commit : MenderBootFlow → Option ℕ → tools.State → FlowResult tools.State
  commit flow active s = do group ← unwrap active; tools.set_vars (vars_for flow group (text "0")) s

-- The group that is not `group`.
abbrev pub other : MenderBootFlow → ℕ → ℕ
other flow group = if group == flow.entry_a then flow.entry_b else flow.entry_a

-- Two groups, on two partitions whose numbers fit into a `u32`.
abbrev pub IsConfigured : MenderBootFlow → Type 0
IsConfigured flow =
    (flow.entry_a ≢ flow.entry_b)
    × (boot_part_a flow ≢ boot_part_b flow)
    × (boot_part_a flow < 2 ^ 32)
    × (boot_part_b flow < 2 ^ 32)

abbrev pub IsGroup : MenderBootFlow → ℕ → Type 0
IsGroup flow group = (group ≡ flow.entry_a) ⊎ (group ≡ flow.entry_b)

-- `get_default` answers with the other group, whatever the flag.
default_group-other :
    (flow : MenderBootFlow) (group : ℕ) (flag : Text)
    → IsConfigured flow
    → default_group flow (if group == flow.entry_a then boot_part_a flow else boot_part_b flow) flag
      ≡ other flow group
unfolding default_group
default_group-other flow group flag c = elim (Bool-cases (text_eq flag (text "1"))) [
  | inl e ↦ rw e (ground arith)
  | inr e ↦ rw e (ground arith)
]

module _ (tools : UbootTools) (flow : MenderBootFlow) (c : IsConfigured flow) where
  vars_for-IsPlain :
      (group : ℕ) (flag : Text)
      → IsPlain flag
      → All (λ entry. IsPlain entry.0 × IsPlain entry.1) (vars_for flow group flag)
  unfolding vars_for
  vars_for-IsPlain group flag h = (
    (ground arith, to_hex-IsPlain _),
    ((ground arith, to_string-IsPlain _), ((ground arith, h), ((ground arith, ground arith), tt))),
  )

  default_of-written :
      (group : ℕ) (flag : Text) (before env : Env)
      → (trim flag ≡ flag)
      → ((key : Text) → get key env ≡ or_else (get key (vars_for flow group flag)) (get key before))
      → default_of flow env ≡ ok (other flow group)
  unfolding default_of vars_for
  default_of-written group flag before env plain same =
      let part = if group == flow.entry_a then boot_part_a flow else boot_part_b flow in
      let small : part < 2 ^ 32 = ground arith in
      rw
        (
          same (text "mender_boot_part"),
          same (text "upgrade_available"),
          trim-to_string part,
          from_str-to_string (2 ^ 32) part small (omega arith),
          plain,
        )
        (ap ok (default_group-other flow group flag c))

  set_vars-get_default :
      (group : ℕ) (flag : Text) (env : Env) (s s' : tools.State)
      → IsPlain flag
      → (trim flag ≡ flag)
      → tools.load_vars s ≡ ok env
      → tools.set_vars (vars_for flow group flag) s ≡ ok s'
      → get_default tools flow s' ≡ ok (other flow group)
  unfolding get_default
  set_vars-get_default group flag env s s' h plain loaded set =
      let (env', loaded', same) =
        tools.load_vars-set_vars (vars_for flow group flag) env s s' (vars_for-IsPlain group flag h)
          loaded set in
      rw loaded' (default_of-written group flag env env' plain same)

  set_try_next-get_default :
      (group : ℕ) (s s' : tools.State)
      → set_try_next tools flow group s ≡ ok s'
      → get_default tools flow s' ≡ ok (other flow group)
  unfolding set_try_next
  set_try_next-get_default group s s' done =
      let (default, found, set) = >>=-eq-ok (get_default tools flow s) _ done in
      let read : (tools.load_vars s >>= default_of flow) ≡ ok default =
        unfold get_default in found in
      let (env, loaded, _) = >>=-eq-ok (tools.load_vars s) (default_of flow) read in
      elim (Bool-cases (group == default)) [
        | inl e ↦
            set_vars-get_default group (text "0") env s s' (ground arith)
              (trim-digit 48 (omega arith) (omega arith)) loaded (rw e at set)
        | inr e ↦
            set_vars-get_default group (text "1") env s s' (ground arith)
              (trim-digit 49 (omega arith) (omega arith)) loaded (rw e at set)
      ]

  -- The variables that say which partition to boot, and how often it may fail.
  abbrev pub Tries : Env → ℕ → Type 0
  Tries env group =
      (get (text "mender_boot_part") env ≡ some (to_string (part_of flow group)))
      × (get (text "mender_boot_part_hex") env ≡ some (to_hex (part_of flow group)))
      × (get (text "upgrade_available") env ≡ some (text "1"))
      × (get (text "bootcount") env ≡ some (text "0"))

  vars_for-Tries :
      (group : ℕ) (before env : Env)
      → ((key : Text)
          → get key env ≡ or_else (get key (vars_for flow group (text "1"))) (get key before))
      → Tries env group
  unfolding vars_for
  vars_for-Tries group before env same = (
    same (text "mender_boot_part"),
    same (text "mender_boot_part_hex"),
    same (text "upgrade_available"),
    same (text "bootcount"),
  )

  set_vars-Tries :
      (group : ℕ) (env : Env) (s s' : tools.State)
      → tools.load_vars s ≡ ok env
      → tools.set_vars (vars_for flow group (text "1")) s ≡ ok s'
      → (env' : Env) × (tools.load_vars s' ≡ ok env') × Tries env' group
  set_vars-Tries group env s s' loaded set =
      let (env', loaded', same) =
        tools.load_vars-set_vars (vars_for flow group (text "1")) env s s'
          (vars_for-IsPlain group (text "1") (ground arith)) loaded set in
      (env', loaded', vars_for-Tries group env env' same)

  set_try_next-Tries :
      (group default : ℕ) (s s' : tools.State)
      → group ≢ default
      → get_default tools flow s ≡ ok default
      → set_try_next tools flow group s ≡ ok s'
      → (env' : Env) × (tools.load_vars s' ≡ ok env') × Tries env' group
  unfolding set_try_next
  set_try_next-Tries group default s s' p found done =
      let read : (tools.load_vars s >>= default_of flow) ≡ ok default =
        unfold get_default in found in
      let (env, loaded, _) = >>=-eq-ok (tools.load_vars s) (default_of flow) read in
      let other_one : (group == default) ≡ false = ground arith in
      set_vars-Tries group env s s' loaded (rw (found, other_one) at done)

  -- With two groups on two partitions whose numbers are below 2 ^ 32, a call of `set_try_next` that
  -- succeeds, for the one of the two groups that is not the default, while the default is the other
  -- one, keeps the default, and sets the variables such that the boot loader tries the group's
  -- partition: its number in decimal and hexadecimal digits, an update that is pending, and no boot
  -- counted.
  pub set_try_next-keeps :
      (group default : ℕ) (s s' : tools.State)
      → IsGroup flow group
      → IsGroup flow default
      → group ≢ default
      → get_default tools flow s ≡ ok default
      → set_try_next tools flow group s ≡ ok s'
      → (get_default tools flow s' ≡ ok default)
        × (env : Env) × (tools.load_vars s' ≡ ok env)
        × Tries env group
  set_try_next-keeps group default s s' g h p found done =
      let same : other flow group ≡ default = ground arith in
      let (env, loaded, tries) = set_try_next-Tries group default s s' p found done in
      (set_try_next-get_default group s s' done ∙ ap ok same, env, loaded, tries)

  -- With two groups on two partitions whose numbers are below 2 ^ 32, a call of `set_try_next` that
  -- succeeds, for the group that is the default already, makes the other group the default.
  pub set_try_next-inverts :
      (group : ℕ) (s s' : tools.State)
      → IsGroup flow group
      → get_default tools flow s ≡ ok group
      → set_try_next tools flow group s ≡ ok s'
      → (g : ℕ) × (get_default tools flow s' ≡ ok g) × IsGroup flow g × (g ≢ group)
  set_try_next-inverts group s s' g found done =
      (other flow group, set_try_next-get_default group s s' done, ground arith, ground arith)

  -- With two groups on two partitions whose numbers are below 2 ^ 32, after a `commit` that
  -- succeeds, where one of the two is active and the variables could be loaded before, the default
  -- is the group that is not active.
  pub commit-inverts :
      (active : ℕ) (env : Env) (s s' : tools.State)
      → IsGroup flow active
      → tools.load_vars s ≡ ok env
      → commit tools flow (some active) s ≡ ok s'
      → (g : ℕ) × (get_default tools flow s' ≡ ok g) × IsGroup flow g × (g ≢ active)
  unfolding commit
  commit-inverts active env s s' g loaded done = (
    other flow active,
    set_vars-get_default active (text "0") env s s' (ground arith)
        (trim-digit 48 (omega arith) (omega arith)) loaded done,
    ground arith,
    ground arith,
  )
