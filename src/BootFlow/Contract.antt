-- ===== src/BootFlow/Contract.antt =====
-- crates/apps/rugix-ctrl/src/system/boot_flows/mod.rs: the trait `BootFlow`, and what its comments
-- promise.
use rugix.Common.{ℕ, ◌≡◌, refl, Option, some, List, [], ◌∷◌, All}
use rugix.Common.Result.{ok, ◌>>=◌, >>=-eq-ok}
use rugix.BootFlow.{FlowResult}

-- The operations of `BootFlow` that choose a boot group. The state is what they read and write;
-- `commit` has the boot group that is active, `system.active_boot_entry()`.
pub record BootFlow : Type 1 where
  pub State : Type 0
  pub set_try_next : ℕ → State → FlowResult State
  pub get_default : State → FlowResult ℕ
  pub commit : Option ℕ → State → FlowResult State

-- Where there is a default, `set_try_next` keeps it, and `commit` makes the active boot group the
-- default.
pub record Contract (flow : BootFlow) (IsGroup : ℕ → Type 0) : Type 0 where
  pub set_try_next-keeps :
      (group default : ℕ) (s s' : flow.State)
      → flow.get_default s ≡ ok default
      → flow.set_try_next group s ≡ ok s'
      → flow.get_default s' ≡ ok default
  pub commit-sets :
      (active default : ℕ) (s s' : flow.State)
      → IsGroup active
      → flow.get_default s ≡ ok default
      → flow.commit (some active) s ≡ ok s'
      → flow.get_default s' ≡ ok active

-- Where there is a default, the operations succeed.
pub record Succeeds (flow : BootFlow) (IsGroup : ℕ → Type 0) : Type 0 where
  pub set_try_next-ok :
      (group default : ℕ) (s : flow.State)
      → flow.get_default s ≡ ok default
      → (s' : flow.State) × (flow.set_try_next group s ≡ ok s')
  pub commit-ok :
      (active default : ℕ) (s : flow.State)
      → IsGroup active
      → flow.get_default s ≡ ok default
      → (s' : flow.State) × (flow.commit (some active) s ≡ ok s')

-- What a system calls, over several boots: the boot group that is to be tried, and, from an active boot
-- group, a commit.
pub data FlowCall : Type 0 where
  try_next : ℕ → FlowCall
  commit_active : ℕ → FlowCall

abbrev pub perform : (flow : BootFlow) → FlowCall → flow.State → FlowResult flow.State
perform flow (try_next group) s = flow.set_try_next group s
perform flow (commit_active active) s = flow.commit (some active) s

unfoldable pub call_all : (flow : BootFlow) → List FlowCall → flow.State → FlowResult flow.State
call_all flow [] s = ok s
call_all flow (c ∷ calls) s = perform flow c s >>= λ s'. call_all flow calls s'

-- The boot group of the last commit.
abbrev pub committed_by : FlowCall → ℕ → ℕ
committed_by (try_next group) default = default
committed_by (commit_active active) default = active

unfoldable pub last_committed : List FlowCall → ℕ → ℕ
last_committed [] default = default
last_committed (c ∷ calls) default = last_committed calls (committed_by c default)

abbrev pub FromGroup : (ℕ → Type 0) → FlowCall → Type 0
FromGroup IsGroup (try_next group) = Unit {0}
FromGroup IsGroup (commit_active active) = IsGroup active

module _ (flow : BootFlow) (IsGroup : ℕ → Type 0) (contract : Contract flow IsGroup) where
  perform-default :
      (c : FlowCall) (default : ℕ) (s s' : flow.State)
      → FromGroup IsGroup c
      → flow.get_default s ≡ ok default
      → perform flow c s ≡ ok s'
      → flow.get_default s' ≡ ok (committed_by c default)
  perform-default (try_next group) default s s' g found done =
      contract.set_try_next-keeps group default s s' found done
  perform-default (commit_active active) default s s' g found done =
      contract.commit-sets active default s s' g found done

  -- For a boot flow that fulfils the contract, after calls that all succeed, where commits are from
  -- boot groups of the flow and there was a default before, the default is the boot group of the
  -- last commit, or the one of before when there was no commit.
  pub call_all-get_default :
      (calls : List FlowCall) (default : ℕ) (s s' : flow.State)
      → All (FromGroup IsGroup) calls
      → flow.get_default s ≡ ok default
      → call_all flow calls s ≡ ok s'
      → flow.get_default s' ≡ ok (last_committed calls default)
  unfolding call_all last_committed
  call_all-get_default [] default s s' g found done = let same : s ≡ s' = cc in rw (← same) found
  call_all-get_default (c ∷ calls) default s s' (g, gs) found done =
      let (mid, first, rest) = >>=-eq-ok (perform flow c s) _ done in
      call_all-get_default calls (committed_by c default) mid s' gs
        (perform-default c default s mid g found first) rest

  module _ (total : Succeeds flow IsGroup) where
    perform-ok :
        (c : FlowCall) (default : ℕ) (s : flow.State)
        → FromGroup IsGroup c
        → flow.get_default s ≡ ok default
        → (s' : flow.State) × (perform flow c s ≡ ok s')
    perform-ok (try_next group) default s g found = total.set_try_next-ok group default s found
    perform-ok (commit_active active) default s g found = total.commit-ok active default s g found

    -- When the operations of such a flow succeed wherever there is a default, all calls succeed.
    pub call_all-ok :
        (calls : List FlowCall) (default : ℕ) (s : flow.State)
        → All (FromGroup IsGroup) calls
        → flow.get_default s ≡ ok default
        → (s' : flow.State) × (call_all flow calls s ≡ ok s')
    unfolding call_all
    call_all-ok [] default s g found = (s, refl)
    call_all-ok (c ∷ calls) default s (g, gs) found =
        let (mid, first) = perform-ok c default s g found in
        let (s', rest) =
          call_all-ok calls (committed_by c default) mid gs
            (perform-default c default s mid g found first) in
        (s', rw first rest)
