-- ===== src/Install/Replaced.antt =====
-- What is there when scripts/install.py has replaced a pack.
use deslop.Prelude.{
  Bool, true, false, List, ◌∷◌, ◌++◌, Text, codes, lookup, list_eq, nat_eq, list_beq, list_beq_iff,
  ◌≡◌, ap, refl, ◌∙◌, beq_refl,
}
use deslop.Packs.{Pack}
use deslop.Packs.Skills.{Yaml, SkillDir}
use deslop.Install.Files.{FileTree, is_some, exists}
use deslop.Install.Paths.{unequal, exists-mkdir_parents, deeper}
use deslop.Install.Frames.{Clear, Off-Clear, areas_apart, in_area, in_area-Clear}
use deslop.Install.Places.{pack_place, dest_root, versions_root}
use deslop.Install.Untouched.{Spared, replace_run, Leaves-replacement, Leaves-replace_pack}
use deslop.Install.{replace_pack}

module _ (yaml : Yaml) (dirs : List SkillDir) (p : Pack) where
  -- The skills' directory is there behind the replacement of the pack.
  pub replaced_dest :
      (packs : List Pack) (now : Text) (write : Bool) (fs : FileTree)
      → exists (dest_root p) (replace_pack yaml packs dirs now p write fs).0 ≡ true
  unfolding list_beq
  replaced_dest packs now write fs =
      rw (replace_run dest p dest-Spared yaml dirs packs now write fs) (
        ap is_some (
          (Leaves-replacement dest p dest-Spared yaml dirs packs now write).keeps _ (dest_root p)
            (beq_refl (dest_root p)))
        ∙ exists-mkdir_parents (codes ".agents") (pack_place p) _)
    where
      dest : List Text → Bool
      dest q = list_beq q (dest_root p)

      apart : (a : Text) → list_beq a (codes ".agents") ≡ false → Clear dest a
      apart a n d q h =
          rw ((list_beq_iff q (dest_root p)).0 h)
            (areas_apart a (codes ".agents") d (pack_place p) (unequal a (codes ".agents") n))

      dest-Spared : Spared dest p
      dest-Spared = record {
        inside = λ a d q h. rw ((list_beq_iff q (dest_root p)).0 h) (deeper a d (dest_root p));
        cursor = apart (codes ".cursor") refl;
        claude = apart (codes ".claude") refl;
        github = apart (codes ".github") refl;
        agents = apart (codes "AGENTS.md") refl;
      }

  -- The snapshots are not touched by what follows.
  pub snapshots_kept :
      (packs : List Pack) (now : Text) (write : Bool) (fs : FileTree) (d : List Text)
      → lookup (versions_root p ++ d) (replace_pack yaml packs dirs now p write fs).0
        ≡ lookup (versions_root p ++ d) fs
  unfolding list_beq
  snapshots_kept packs now write fs d =
      (Leaves-replace_pack snapshots p spared yaml dirs (apart (codes ".agents") refl) packs now
          write).keeps
        fs (versions_root p ++ d) refl
    where
      snapshots : List Text → Bool
      snapshots = in_area (codes ".stopthatslop")

      apart : (a : Text) → list_beq a (codes ".stopthatslop") ≡ false → Clear snapshots a
      apart a n = in_area-Clear a (codes ".stopthatslop") (unequal a (codes ".stopthatslop") n)

      spared : Spared snapshots p
      spared = record {
        inside =
            λ a d. Off-Clear snapshots _ (apart (codes ".agents") refl) (pack_place p ++ a ∷ d);
        cursor = apart (codes ".cursor") refl;
        claude = apart (codes ".claude") refl;
        github = apart (codes ".github") refl;
        agents = apart (codes "AGENTS.md") refl;
      }
