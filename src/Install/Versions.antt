-- ===== src/Install/Versions.antt =====
-- Where scripts/install.py puts a snapshot: the join of the snapshots' directory and a version.
use deslop.Prelude.{
  Bool, true, false, ◌&&◌, not, List, [], ◌∷◌, ◌++◌, Text, codes, mem, split, starts_with, ◌==◌,
  nat_eq, list_eq, ◌≡◌, refl, arith,
}
use deslop.Packs.{Pack}
use deslop.Packs.Skills.{Yaml, SkillDir}
use deslop.Install.Actions.{◌>>=◌, get}
use deslop.Install.Files.{FileTree, exists}
use deslop.Install.Places.{
  dest_root, versions_root, manifest_path, is_part, is_blank_part, snapshot_path,
}
use deslop.Install.Snapshot.{previous_version, save, make_snapshot, snapshot_if_present}

split_whole : (v : Text) → mem b'/' v ≡ false → split b'/' v ≡ v ∷ []
unfolding split mem
split_whole [] h = refl
split_whole (c ∷ v) h = grind (arith, split_whole v)

slash_first : (v : Text) → mem b'/' v ≡ false → starts_with v (codes "/") ≡ false
unfolding starts_with mem
slash_first [] h = refl
slash_first (c ∷ v) h = ground arith

all_false :
    (m b d : Bool) → (not m && (not b && not d)) ≡ true → (m ≡ false) × (b ≡ false) × (d ≡ false)
all_false m b d h = ground arith

-- A version that is one part of a path names its own directory among the snapshots.
pub snapshot_path-part :
    (resolve : List Text → Text → List Text) (p : Pack) (v : Text)
    → is_part v ≡ true
    → snapshot_path resolve p v ≡ versions_root p ++ v ∷ []
unfolding snapshot_path mem
snapshot_path-part resolve p v h =
    let (one, kept, down) = all_false (mem b'/' v) (is_blank_part v) (v == codes "..") h in
    rw (slash_first v one, split_whole v one, down, kept) refl

module _ (yaml : Yaml) (dirs : List SkillDir) (resolve : List Text → Text → List Text)
    (p : Pack) where
  -- The snapshot of an installed pack whose version is one part of a path.
  pub snapshot_run :
      (fs : FileTree)
      → (exists (dest_root p) fs && exists (manifest_path (dest_root p)) fs) ≡ true
      → is_part (previous_version yaml dirs (dest_root p) fs) ≡ true
      → snapshot_if_present yaml dirs resolve p (dest_root p) fs
        ≡ save yaml dirs p
            (dest_root p)
            (versions_root p ++ previous_version yaml dirs (dest_root p) fs ∷ [])
            fs
  unfolding snapshot_if_present make_snapshot ◌>>=◌ get
  snapshot_run fs h part =
      rw (h, snapshot_path-part resolve p (previous_version yaml dirs (dest_root p) fs) part) refl
