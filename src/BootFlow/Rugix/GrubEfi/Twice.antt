-- ===== src/BootFlow/Rugix/GrubEfi/Twice.antt =====
-- What two commits of the flow leave that are interrupted one after the other.
use rugix.Common.{ℕ, ◌≡◌, refl, sym, ◌∙◌, Option, some, List, [], ◌∷◌, ◌++◌}
use rugix.Common.Text.{Text, text}
use rugix.Common.Result.{ok}
use rugix.BootFlow.Storage.{
  Files, FileOp, write, write_synced, rename, set_file, apply, run, InOrder, torn, behind,
}
use rugix.BootFlow.Rugix.{RugixBootFlow, IsEntry}
use rugix.BootFlow.Rugix.GrubEfi.{
  primary, secondary, primary_path, secondary_path, digest_line, commit_grub,
}
use rugix.BootFlow.Rugix.GrubEfi.Commits.{IsIntact, replacing, commit_ops, commit_grub-ops}

-- Operations that are done, and an interruption behind them.
InOrder-behind :
    (ops more : List FileOp) (files left : Files)
    → InOrder more (run ops files) left
    → InOrder (ops ++ more) files left
unfolding run
InOrder-behind [] more files left i = i
InOrder-behind (op ∷ ops) more files left i =
    behind op (ops ++ more) files left (InOrder-behind ops more (apply op files) left i)

module _ (sha1 : Text → Text) where
  digest_line-ne :
      (s : Text) (path : Text) → ¬ (◌≡◌ {A = Option Text} (some []) (some (s ++ text "  " ++ path)))
  digest_line-ne [] path h = cc
  digest_line-ne (c ∷ s) path h = cc

  -- An empty file of a digest.
  abbrev TornDigest : Text → Files → Type 0
  TornDigest path files = files (path ++ text ".sha1") ≡ some []

  torn_not-IsIntact :
      (path abs_path : Text) (files : Files)
      → TornDigest path files
      → ¬ IsIntact sha1 path abs_path files
  torn_not-IsIntact path abs_path files empty (blk, there, digest) =
      digest_line-ne (sha1 blk) abs_path (sym empty ∙ digest)

  -- A commit of the Grub flow, of one of its two boot groups, can be interrupted such that a
  -- second one, which is interrupted as well, leaves neither block intact, whatever the files
  -- before, also where each operation is on the disk before the next one starts.
  pub commit_grub-twice :
      (flow : RugixBootFlow) (active : ℕ) (files : Files)
      → IsEntry flow active
      → (ops : List FileOp) × (first second : Files) × (commit_grub sha1 flow (some active)
          ≡ ok ops)
        × InOrder ops files first
        × InOrder ops first second
        × ¬ IsIntact sha1 primary primary_path second
        × ¬ IsIntact sha1 secondary secondary_path second
  commit_grub-twice flow active files g =
      let (blk, _, planned, _, _) = commit_grub-ops sha1 flow active g in
      let before =
        replacing sha1 secondary secondary_path blk
        ++ write_synced (primary ++ text ".new") blk ∷ [] in
      let first = set_file (primary ++ text ".sha1") [] (run before files) in
      let second =
        set_file (secondary ++ text ".sha1") [] (set_file (secondary ++ text ".new") blk first) in
      (
        commit_ops sha1 blk,
        first,
        second,
        planned,
        InOrder-behind before
            (write (primary ++ text ".sha1") (digest_line sha1 blk primary_path)
              ∷ rename (primary ++ text ".new") primary
              ∷ [])
            files first
            (torn (primary ++ text ".sha1") [] (digest_line sha1 blk primary_path)
              (rename (primary ++ text ".new") primary ∷ []) (run before files)),
        behind (write_synced (secondary ++ text ".new") blk) _ first second (
            torn (secondary ++ text ".sha1") [] (digest_line sha1 blk secondary_path)
              (rename (secondary ++ text ".new") secondary
                ∷ replacing sha1 primary primary_path blk)
              (set_file (secondary ++ text ".new") blk first)),
        torn_not-IsIntact primary primary_path second refl,
        torn_not-IsIntact secondary secondary_path second refl,
      )
