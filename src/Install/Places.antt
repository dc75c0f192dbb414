-- ===== src/Install/Places.antt =====
-- The paths below the target that scripts/install.py writes to. The folder and the namespace of a pack
-- and the names of the skills are single parts of paths.
use deslop.Prelude.{
  Bool, ◌&&◌, ◌||◌, not, List, [], ◌∷◌, ◌++◌, Text, codes, none, keep, mem, split, starts_with,
  if◌then◌else◌, ◌==◌, nat_eq, list_eq,
}
use deslop.Packs.{Pack, get_or, or_else}
use deslop.Packs.Load.{pack_folder_name}

abbrev pub namespace : Pack → Text
namespace p = get_or (codes "stopthatslop") (or_else p.install_namespace none)

-- The parts of `"skills" / _namespace(pack) / pack_folder_name(pack)`
abbrev pub pack_place : Pack → List Text
pack_place p = codes "skills" ∷ namespace p ∷ pack_folder_name p ∷ []

abbrev pub dest_root : Pack → List Text
dest_root p = codes ".agents" ∷ pack_place p

abbrev pub claude_dest : Pack → List Text
claude_dest p = codes ".claude" ∷ pack_place p

-- The directory of the snapshots is that of `d = []`.
abbrev pub version_place : Pack → List Text → List Text
version_place p d = codes "versions" ∷ namespace p ∷ pack_folder_name p ∷ d

abbrev pub versions_root : Pack → List Text
versions_root p = codes ".stopthatslop" ∷ version_place p []

-- A directory or a file in the snapshot of a version.
abbrev pub part_of : Pack → Text → Text → List Text
part_of p version part = codes ".stopthatslop" ∷ version_place p (version ∷ part ∷ [])

-- Parts that a join of paths drops, and a text that is one part of a path.
abbrev pub is_blank_part : Text → Bool
is_blank_part a = mem a ([] ∷ codes "." ∷ [])

abbrev pub is_part : Text → Bool
is_part v = not (mem b'/' v) && (not (is_blank_part v) && not (v == codes ".."))

-- `_versions_root(target, pack) / version`. An absolute version, and one that goes upwards, may lead
-- anywhere, also outside of the target: the place is the operating system's, `resolve`.
unfoldable pub snapshot_path : (List Text → Text → List Text) → Pack → Text → List Text
unfolding split starts_with mem
snapshot_path resolve p version =
    let parts = split b'/' version in
    if starts_with version (codes "/") || mem (codes "..") parts
    then resolve (versions_root p) version
    else versions_root p ++ keep (λ a. not (is_blank_part a)) parts

abbrev pub manifest_path : List Text → List Text
manifest_path dest = dest ++ codes "installed.yaml" ∷ []

abbrev pub rules_root : List Text
rules_root = codes ".cursor" ∷ codes "rules" ∷ []

abbrev pub mdc_name : Text → Text
mdc_name name = codes "stopthatslop-" ++ name ++ codes ".mdc"

abbrev pub mdc_path : Text → List Text
mdc_path name = rules_root ++ mdc_name name ∷ []

abbrev pub instructions_root : List Text
instructions_root = codes ".github" ∷ codes "instructions" ∷ []

abbrev pub github_instructions_path : Pack → List Text
github_instructions_path p =
    instructions_root ++ (pack_folder_name p ++ codes ".instructions.md") ∷ []
