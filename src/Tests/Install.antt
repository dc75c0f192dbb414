-- ===== src/Tests/Install.antt =====
-- Installations into a target.
use deslop.Prelude.{
  Bool, true, false, List, [], ◌∷◌, ◌++◌, Text, codes, none, some, lookup, assign, contains,
  starts_with, ends_with, mem, split, fromkeys, fromkeys_onto, if◌then◌else◌, ◌==◌, nat_eq, list_eq,
  list_beq, ◌≡◌, refl, String,
}
use deslop.Errors.{ok, raised, refused}
use deslop.Texts.Order.{text_leb, insert_by, sorted_by, sorted}
use deslop.Packs.Load.{
  load_pack_by_id, wanted, pack_folder_name, strip_version, version_suffix, digits_end,
}
use deslop.Packs.Frameworks.{collision_hits, collision_markers, report_collision_markers}
use deslop.Packs.Skills.{
  Yaml, SkillDir, cut, parts_of, lstrip_newlines, skill_markdown_body, parse_frontmatter,
  parse_skill_frontmatter, sort_skill, survey_dirs, invariant_skill_dirs, skill_globs_onto,
  pack_skill_globs, all_globs, pack_glob_union,
}
use deslop.Install.{Args, Installed, install, install_pack, rollback, main}
use deslop.Install.Files.{FileTree, dir, file, read_text}
use deslop.Install.Trees.{closed-IsTree}
use deslop.Install.Places.{dest_root, is_part, snapshot_path}
use deslop.Packs.{Pack}
use deslop.Install.Outside.{main-outside}
use deslop.Install.Refusal.{install-refused}
use deslop.Install.Roundtrip.{rollback-install}
use deslop.Install.Pointer.{has_pointer, agents_md, add_pointer, rstrip_newlines}
use deslop.Install.Pointer.Laws.{add_pointer-idempotent}
use deslop.Install.Actions.{◌>>=◌, lift, get, change, pure}
use deslop.Texts.Join.{join}
use deslop.Install.Emit.{
  copy_pack, copy_references, copy_skills, emit_cursor_rules, emit_github_instructions, emit_rules,
  find_dir, one_line, pack_index, words, write_manifest,
}
use deslop.Install.Files.{
  below, copy_entries, copy_file, copytree, mkdir, mkdir_parents, mkdir_parts, remove_tree, rmtree,
  names_in, subdirs,
}
use deslop.Install.Pointer.{maybe_write_agents_md, pointer_prefix}
use deslop.Install.Snapshot.{
  copy_tree_if, make_snapshot, save, save_others, save_rules, snapshot_if_present, latest_of,
  previous_version,
}
use deslop.Install.{copy_to_claude, install_claude, install_github, install_rest, replace_pack}
use deslop.Texts.Strip.{is_space}
use deslop.Tests.Data.{android}

-- YAML where a frontmatter is one word and a manifest its version.
abbrev yaml : Yaml
yaml = record {
  load_frontmatter = λ t. record {
    description = none;
    pack = some (codes "stopthatslop-android-v1");
    kind = if t == codes "i" then some (codes "pack-index") else none;
  };
  load_version = λ t. some t;
  dump_manifest = λ m. m.version;
  dump_rule = λ h. h.globs;
  dump_apply_to = λ t. t;
}

abbrev skill_dir : String → String → SkillDir
skill_dir name text = record { name = codes name; skill_md = some (codes text) }

abbrev dirs : List SkillDir
dirs = skill_dir "scope" "---s---S" ∷ skill_dir "stopthatslop-android" "---i---I" ∷ []

-- A file system without links and with nothing above the target.
abbrev resolve : List Text → Text → List Text
resolve root v = []

abbrev places : List Text
places = codes ".agents" ∷ codes "skills" ∷ codes "stopthatslop" ∷ codes "stopthatslop-android" ∷ []

-- A target where the version 0 of the pack is installed.
abbrev target : FileTree
target =
    ([], dir)
    ∷ (codes ".agents" ∷ [], dir)
    ∷ (codes ".agents" ∷ codes "skills" ∷ [], dir)
    ∷ (codes ".agents" ∷ codes "skills" ∷ codes "stopthatslop" ∷ [], dir)
    ∷ (places, dir)
    ∷ (places ++ codes "installed.yaml" ∷ [], file (codes "0"))
    ∷ (places ++ codes "old.md" ∷ [], file (codes "old"))
    ∷ (codes "src" ∷ [], dir)
    ∷ []

install-refused_example :
    install yaml
      (android ∷ [])
      dirs
      (codes "now")
      resolve
      (codes "android")
      false
      false
      ((codes ".cursor" ∷ codes "rules" ∷ codes "engineering-rules.mdc" ∷ [], file []) ∷ [])
    ≡ (
      (codes ".cursor" ∷ codes "rules" ∷ codes "engineering-rules.mdc" ∷ [], file []) ∷ [],
      raised (refused (codes ".cursor/rules/engineering-rules.mdc" ∷ [])),
    )
unfolding load_pack_by_id wanted lookup list_beq collision_markers split
install-refused_example =
    install-refused yaml (android ∷ []) dirs (codes "now") resolve (codes "android") android false _
      refl refl

abbrev args : Args
args = record { pack = codes "android"; force = true; write_agents_md = true; rollback = false }

main-outside_example :
    lookup (codes "src" ∷ []) (main yaml (android ∷ []) dirs (codes "now") resolve args target).0
    ≡ lookup (codes "src" ∷ []) target
unfolding mem list_beq load_pack_by_id wanted lookup pack_folder_name strip_version version_suffix
    digits_end
main-outside_example =
    main-outside yaml (android ∷ []) dirs (codes "now") resolve args target (codes "src") []
      (λ p h here. only p cc) refl
  where
    found : load_pack_by_id (android ∷ []) (codes "android") ≡ ok android
    found = refl

    only :
        (p : Pack) → p ≡ android → is_part (previous_version yaml dirs (dest_root p) target) ≡ true
    only p same = rw same refl

add_pointer-idempotent_example :
    (has_pointer (read_text agents_md (add_pointer target)) ≡ true)
    × (starts_with
          (read_text agents_md (add_pointer target))
          (rstrip_newlines (read_text agents_md target))
        ≡ true)
    × (add_pointer (add_pointer target) ≡ add_pointer target)
add_pointer-idempotent_example = add_pointer-idempotent target

-- What the installation writes.
abbrev done : Installed
done = record {
  written =
      (places ++ codes "SKILL.md" ∷ [])
      ∷ (places ++ codes "references" ∷ codes "scope.md" ∷ [])
      ∷ (places ++ codes "installed.yaml" ∷ [])
      ∷ (codes ".cursor" ∷ codes "rules" ∷ codes "stopthatslop-scope.mdc" ∷ [])
      ∷ [];
  refuse = [];
}

installed :
    (install yaml (android ∷ []) dirs (codes "now") resolve (codes "android") false false target).1
    ≡ ok done
unfolding ◌>>=◌ lift get change pure copy_pack copy_references copy_skills emit_cursor_rules
    emit_github_instructions emit_rules find_dir join one_line pack_index words write_manifest below
    copy_entries copy_file copytree mkdir mkdir_parents mkdir_parts remove_tree rmtree names_in
    subdirs maybe_write_agents_md pointer_prefix copy_tree_if make_snapshot snapshot_path save
    save_others save_rules snapshot_if_present copy_to_claude install_claude install_github
    install_rest replace_pack is_space install install_pack load_pack_by_id list_beq wanted lookup
    collision_hits collision_markers split pack_folder_name strip_version version_suffix digits_end
    invariant_skill_dirs parse_frontmatter add_pointer rstrip_newlines report_collision_markers
    all_globs cut lstrip_newlines pack_glob_union pack_skill_globs parse_skill_frontmatter parts_of
    skill_globs_onto skill_markdown_body sort_skill survey_dirs assign fromkeys fromkeys_onto mem
    contains ends_with starts_with insert_by sorted sorted_by text_leb
installed = refl

rollback-install_example :
    let after =
      (install yaml
        (android ∷ [])
        dirs
        (codes "now")
        resolve
        (codes "android")
        false
        false
        target).0 in
    ((rollback yaml (android ∷ []) dirs (codes "now") (codes "android") after).1
      ≡ ok (dest_root android))
    × ((r : List Text)
        → lookup
            (dest_root android ++ r)
            (rollback yaml (android ∷ []) dirs (codes "now") (codes "android") after).0
          ≡ lookup (dest_root android ++ r) target)
unfolding load_pack_by_id wanted lookup list_beq pack_folder_name strip_version version_suffix
    digits_end mem
rollback-install_example =
    rollback-install yaml dirs resolve android (android ∷ []) (codes "now") (codes "android") false
      false target done refl (closed-IsTree target refl) refl refl (λ n h. absurd (no_dir h))
      installed
  where
    no_dir : {A : Type 0} → ◌≡◌ {A = Bool} false true → A
    no_dir h = cc

-- The version 9 is taken for later than the version 10.
latest_as_text : latest_of (codes "10.0.0" ∷ codes "9.0.0" ∷ []) ≡ codes "9.0.0"
unfolding latest_of sorted sorted_by insert_by text_leb
latest_as_text = refl

-- A version of two parts has its snapshot one directory deeper, where a rollback does not look for it.
deep_snapshot :
    snapshot_path resolve android (codes "1/0")
    ≡ codes ".stopthatslop"
      ∷ codes "versions"
      ∷ codes "stopthatslop"
      ∷ codes "stopthatslop-android"
      ∷ codes "1"
      ∷ codes "0"
      ∷ []
unfolding snapshot_path pack_folder_name strip_version version_suffix digits_end split starts_with
    mem list_beq
deep_snapshot = refl
