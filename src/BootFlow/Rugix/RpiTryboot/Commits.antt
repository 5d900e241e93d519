-- ===== src/BootFlow/Rugix/RpiTryboot/Commits.antt =====
-- What the operations of the flow leave, also a commit that is interrupted.
use rugix.Common.{
  ℕ, ◌≡◌, refl, ap, sym, subst, ◌∙◌, ◌⊎◌, Bool, if◌then◌else◌, ◌==◌, inl, inr, some, List, [], ◌∷◌,
  ◌++◌,
}
use rugix.Common.Text.{Text}
use rugix.Common.Result.{ok, ok_injective}
use rugix.GrubEnv.{split}
use rugix.BootFlow.Contract.{Contract, Succeeds}
use rugix.BootFlow.Storage.{Files, FileOp, write_synced, rename, run, Interrupted}
use rugix.BootFlow.Storage.Interrupts.{Interrupted-replace}
use rugix.BootFlow.Rugix.{RugixBootFlow, IsEntry, for_active-IsEntry, performed}
use rugix.BootFlow.Rugix.RpiTryboot.{
  autoboot, autoboot_new, autoboot_a, autoboot_b, autoboot_default, get_tryboot_default,
  try_tryboot, try_tryboot_in, commit_tryboot, set_spare_flag, clear_spare_flag, commit_tryboot_in,
  rpi_tryboot, lines, unknown,
}

get_tryboot_default-same :
    (flow : RugixBootFlow) (files left : Files)
    → left autoboot ≡ files autoboot
    → get_tryboot_default flow left ≡ get_tryboot_default flow files
unfolding get_tryboot_default
get_tryboot_default-same flow files left same = rw same refl

get_tryboot_default-written :
    (flow : RugixBootFlow) (left : Files) (contents : Text)
    → left autoboot ≡ some contents
    → get_tryboot_default flow left ≡ autoboot_default flow unknown (lines contents)
unfolding get_tryboot_default
get_tryboot_default-written flow left contents written = rw written refl

default_a :
    (flow : RugixBootFlow) → autoboot_default flow unknown (lines autoboot_a) ≡ ok flow.entry_a
unfolding split autoboot_default
default_a flow = refl

default_b :
    (flow : RugixBootFlow) → autoboot_default flow unknown (lines autoboot_b) ≡ ok flow.entry_b
unfolding split autoboot_default
default_b flow = refl

abbrev commit_ops : Text → List FileOp
commit_ops contents = (write_synced autoboot_new contents ∷ []) ++ rename autoboot_new autoboot ∷ []

commit_tryboot-ops :
    (flow : RugixBootFlow) (active : ℕ)
    → IsEntry flow active
    → (contents : Text) × (commit_tryboot flow (some active) ≡ ok (commit_ops contents))
      × (autoboot_default flow unknown (lines contents) ≡ ok active)
unfolding commit_tryboot
commit_tryboot-ops flow active g = elim (for_active-IsEntry flow active autoboot_a autoboot_b g) [
  | inl (same, chosen) ↦ (autoboot_a, rw chosen refl, default_a flow ∙ ap ok (sym same))
  | inr (same, chosen) ↦ (autoboot_b, rw chosen refl, default_b flow ∙ ap ok (sym same))
]

-- When a commit of the tryboot flow, of one of its two boot groups, is interrupted at any point,
-- where a rename may be missing on the disk and a write be done in part, the default is the one of
-- before or the active boot group.
pub commit_tryboot-interrupted :
    (flow : RugixBootFlow) (active : ℕ) (ops : List FileOp) (files left : Files)
    → IsEntry flow active
    → commit_tryboot flow (some active) ≡ ok ops
    → Interrupted ops files left
    → (get_tryboot_default flow left ≡ get_tryboot_default flow files)
      ⊎ (get_tryboot_default flow left ≡ ok active)
commit_tryboot-interrupted flow active ops files left g done i =
    let (contents, planned, read) = commit_tryboot-ops flow active g in
    let same : ops ≡ commit_ops contents = ok_injective (sym done ∙ planned) in
    elim (Interrupted-replace [] autoboot_new autoboot contents files left refl tt tt refl refl
      (subst (λ o. Interrupted o files left) same i)) [
        | inl kept ↦ inl (get_tryboot_default-same flow files left kept)
        | inr new ↦ inr (get_tryboot_default-written flow left contents new ∙ read)
      ]

commit_tryboot-run :
    (flow : RugixBootFlow) (active : ℕ) (files : Files)
    → IsEntry flow active
    → (left : Files) × (performed (commit_tryboot flow (some active)) files ≡ ok left)
      × (get_tryboot_default flow left ≡ ok active)
commit_tryboot-run flow active files g =
    let (contents, planned, read) = commit_tryboot-ops flow active g in
    let new : run (commit_ops contents) files autoboot ≡ some contents = unfold run in refl in
    (
      run (commit_ops contents) files,
      rw planned refl,
      get_tryboot_default-written flow (run (commit_ops contents) files) contents new ∙ read,
    )

try_tryboot-run :
    (flow : RugixBootFlow) (entry default : ℕ) (s : Files × Bool)
    → get_tryboot_default flow s.0 ≡ ok default
    → (flag : Bool) × (try_tryboot_in flow entry s ≡ ok (s.0, flag))
unfolding try_tryboot
try_tryboot-run flow entry default (files, flag) found =
    ((if entry == default then clear_spare_flag flag else set_spare_flag flag), rw found refl)

commit_tryboot_in-run :
    (flow : RugixBootFlow) (active : ℕ) (s : Files × Bool)
    → IsEntry flow active
    → (left : Files) × (commit_tryboot_in flow (some active) s ≡ ok (left, s.1))
      × (get_tryboot_default flow left ≡ ok active)
commit_tryboot_in-run flow active (files, flag) g =
    let (left, done, now) = commit_tryboot-run flow active files g in (left, rw done refl, now)

-- The tryboot flow keeps the default when a boot group is to be tried, and makes the active boot
-- group, one of its two, the default when it commits.
pub rpi_tryboot-Contract : (flow : RugixBootFlow) → Contract (rpi_tryboot flow) (IsEntry flow)
rpi_tryboot-Contract flow = record {
  set_try_next-keeps = λ group default s s' found done.
      let (flag, ran) = try_tryboot-run flow group default s found in
      rw (← ap (λ (t : Files × Bool). t.0) (ok_injective (sym ran ∙ done))) found;
  commit-sets = λ active default s s' g found done.
      let (left, ran, now) = commit_tryboot_in-run flow active s g in
      rw (← ap (λ (t : Files × Bool). t.0) (ok_injective (sym ran ∙ done))) now;
}

-- Where there is a default, the operations of the tryboot flow succeed.
pub rpi_tryboot-Succeeds : (flow : RugixBootFlow) → Succeeds (rpi_tryboot flow) (IsEntry flow)
rpi_tryboot-Succeeds flow = record {
  set_try_next-ok = λ group default s found.
      let (flag, ran) = try_tryboot-run flow group default s found in ((s.0, flag), ran);
  commit-ok = λ active default s g found.
      let (left, ran, _) = commit_tryboot_in-run flow active s g in ((left, s.1), ran);
}
