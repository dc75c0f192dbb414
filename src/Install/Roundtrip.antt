-- ===== src/Install/Roundtrip.antt =====
-- An installation of scripts/install.py over an installed pack, rolled back.
use deslop.Prelude.{
  Bool, true, ◌&&◌, List, [], ◌∷◌, ◌++◌, Text, lookup, list_eq, nat_eq, list_beq, list_beq_iff, ◌≡◌,
  ◌≢◌, sym, ap, refl, arith, ◌∙◌, Bool-cases, inl, inr,
}
use deslop.Errors.{Raised, Result, ok, raised}
use deslop.Texts.Order.{text_leb, text_leb_refl}
use deslop.Packs.{Pack}
use deslop.Packs.Skills.{Yaml, SkillDir, invariant_skill_dirs}
use deslop.Install.Actions.{M, ◌>>=◌, ◌>>◌, pure, lift, change, get, and_then}
use deslop.Install.Files.{FileTree, is_some, is_dir_node, exists, is_dir}
use deslop.Install.Copies.{IsTree}
use deslop.Install.Paths.{unequal}
use deslop.Install.Places.{dest_root, versions_root, manifest_path, is_part}
use deslop.Install.Snapshot.{
  previous_version, save, save_others, snapshot_if_present, rollback_pack, agents_part,
}
use deslop.Install.Versions.{snapshot_run}
use deslop.Install.Saved.{saved_skills, saved_dir, saved_root, saved_others}
use deslop.Packs.Frameworks.{collision_hits}
use deslop.Install.{
  replace_pack, install_pack, install, rollback, Installed, refused_by, marker_exists,
}
use deslop.Install.Restored.{restored_skills, rollback_result}
use deslop.Packs.Load.{load_pack_by_id}
use deslop.Install.Replaced.{replaced_dest, snapshots_kept}

and_left : (a b : Bool) → (a && b) ≡ true → a ≡ true
and_left a b h = ground arith

raised-ne-ok : (e : Raised) → ◌≢◌ {A = Result (Unit {0})} (raised e) (ok tt)
raised-ne-ok e h = cc

module _ (yaml : Yaml) (dirs : List SkillDir) (resolve : List Text → Text → List Text)
    (p : Pack) where
  -- A snapshot that is made shows that the skills are known.
  saved_known :
      (fs : FileTree) (v : Text)
      → (save yaml dirs p (dest_root p) (versions_root p ++ v ∷ []) fs).1 ≡ ok tt
      → (ss : List SkillDir) × (invariant_skill_dirs yaml dirs p.pack_id ≡ ok ss)
  unfolding save save_others ◌>>=◌ change lift
  saved_known fs v h = by_case (invariant_skill_dirs yaml dirs p.pack_id) refl
    where
      by_case :
          (o : Result (List SkillDir))
          → invariant_skill_dirs yaml dirs p.pack_id ≡ o
          → (ss : List SkillDir) × (invariant_skill_dirs yaml dirs p.pack_id ≡ ok ss)
      by_case (raised e) k = absurd (raised-ne-ok e (rw k at h))
      by_case (ok ss) k = (ss, k)

  install_run :
      (packs : List Pack) (now : Text) (force write : Bool) (fs : FileTree) (done : Installed)
      → (install_pack yaml packs dirs now resolve p force write fs).1 ≡ ok done
      → let fs' = (snapshot_if_present yaml dirs resolve p (dest_root p) fs).0 in
        ((snapshot_if_present yaml dirs resolve p (dest_root p) fs).1 ≡ ok tt)
        × ((install_pack yaml packs dirs now resolve p force write fs).0
            ≡ (replace_pack yaml packs dirs now p write fs').0)
  unfolding install_pack ◌>>=◌ get lift pure
  install_run packs now force write fs done h =
      allowed (refused_by yaml packs dirs now hits force) h
    where
      hits : List Text
      hits = collision_hits (marker_exists fs) p true

      rest : M Installed
      rest = replace_pack yaml packs dirs now p write >>= λ written.
          pure (record { written = written; refuse = hits })

      end :
          (o : FileTree × Result (List (List Text)))
          → (and_then {B = Installed}
              (λ written. pure (record { written = written; refuse = hits }))
              o).0
            ≡ o.0
      end (t, raised e) = refl
      end (t, ok written) = refl

      saved :
          (s : FileTree × Result (Unit {0}))
          → (and_then (λ _. rest) s).1 ≡ ok done
          → (s.1 ≡ ok tt)
            × ((and_then (λ _. rest) s).0 ≡ (replace_pack yaml packs dirs now p write s.0).0)
      saved (t, raised e) k = cc
      saved (t, ok u) k = (refl, end (replace_pack yaml packs dirs now p write t))

      allowed :
          (o : Result (Unit {0}))
          → (and_then
              (λ _. snapshot_if_present yaml dirs resolve p (dest_root p) >> rest)
              (fs, o)).1
            ≡ ok done
          → ((snapshot_if_present yaml dirs resolve p (dest_root p) fs).1 ≡ ok tt)
            × ((and_then
                  (λ _. snapshot_if_present yaml dirs resolve p (dest_root p) >> rest)
                  (fs, o)).0
                ≡ (replace_pack yaml packs dirs now p write
                    (snapshot_if_present yaml dirs resolve p (dest_root p) fs).0).0)
      allowed (raised e) k = cc
      allowed (ok u) k = saved (snapshot_if_present yaml dirs resolve p (dest_root p) fs) k

  module _ (packs : List Pack) (now : Text) (write : Bool) (fs : FileTree) (v : Text) where
    -- The files behind the snapshot of a version, and behind the replacement.
    abbrev with_snapshot : FileTree
    with_snapshot = (save yaml dirs p (dest_root p) (versions_root p ++ v ∷ []) fs).0

    abbrev replaced : FileTree
    replaced = (replace_pack yaml packs dirs now p write with_snapshot).0

    greatest :
        ((n : Text) → is_dir (versions_root p ++ n ∷ []) fs ≡ true → text_leb n v ≡ true)
        → (n : Text) → is_dir (versions_root p ++ n ∷ []) replaced ≡ true
        → text_leb n v ≡ true
    greatest top n h = elim (Bool-cases (list_beq n v)) [
      | inl same ↦ rw ((list_beq_iff n v).0 same) (text_leb_refl v)
      | inr other ↦ top n (
          sym (
            ap is_dir_node (
              snapshots_kept yaml dirs p packs now write with_snapshot (n ∷ [])
              ∙ saved_others yaml dirs p v fs n (unequal n v other)))
          ∙ h)
    ]

    rolled_back :
        IsTree fs
        → exists (dest_root p) fs ≡ true
        → ((n : Text) → is_dir (versions_root p ++ n ∷ []) fs ≡ true → text_leb n v ≡ true)
        → (save yaml dirs p (dest_root p) (versions_root p ++ v ∷ []) fs).1 ≡ ok tt
        → ((rollback_pack yaml dirs p replaced).1 ≡ ok (dest_root p))
          × ((r : List Text)
              → lookup (dest_root p ++ r) (rollback_pack yaml dirs p replaced).0
                ≡ lookup (dest_root p ++ r) fs)
    rolled_back tree here top ended =
        let (ss, known) = saved_known fs v ended in
        let kept = snapshots_kept yaml dirs p packs now write with_snapshot in
        let copied = λ (r : List Text).
          kept (v ∷ agents_part ∷ r) ∙ saved_skills yaml dirs p v fs r tree here in
        let (finished, same) =
          rollback_result yaml dirs p replaced v ss
            (ap is_some (kept []) ∙ saved_root yaml dirs p v fs)
            (ap is_dir_node (kept (v ∷ [])) ∙ saved_dir yaml dirs p v fs tree) (greatest top)
            known in
        (
          finished,
          λ r.
              ap (lookup (dest_root p ++ r)) same
              ∙ restored_skills yaml dirs p replaced v r
                  (replaced_dest yaml dirs p packs now write with_snapshot)
                  (ap is_some (copied []) ∙ here)
              ∙ copied r,
        )

  -- After an installation over an installed pack, the files and directories of the skills are back
  -- behind a rollback.
  rollback_pack-install_pack :
      (packs : List Pack) (now : Text) (force write : Bool) (fs : FileTree) (done : Installed)
      → IsTree fs
      → (exists (dest_root p) fs && exists (manifest_path (dest_root p)) fs) ≡ true
      → is_part (previous_version yaml dirs (dest_root p) fs) ≡ true
      → ((n : Text)
          → is_dir (versions_root p ++ n ∷ []) fs ≡ true
          → text_leb n (previous_version yaml dirs (dest_root p) fs) ≡ true)
      → (install_pack yaml packs dirs now resolve p force write fs).1 ≡ ok done
      → let fs' = (install_pack yaml packs dirs now resolve p force write fs).0 in
        ((rollback_pack yaml dirs p fs').1 ≡ ok (dest_root p))
        × ((r : List Text)
            → lookup (dest_root p ++ r) (rollback_pack yaml dirs p fs').0
              ≡ lookup (dest_root p ++ r) fs)
  rollback_pack-install_pack packs now force write fs done tree here part top h =
      let (ended, run) = install_run packs now force write fs done h in
      rw (run, snapshot_run yaml dirs resolve p fs here part)
        (rolled_back packs now write fs _ tree (and_left _ _ here) top
          (sym (ap (λ o. o.1) (snapshot_run yaml dirs resolve p fs here part)) ∙ ended))

  install_loaded :
      (packs : List Pack) (now pack : Text) (force write : Bool) (fs : FileTree)
      → load_pack_by_id packs pack ≡ ok p
      → install yaml packs dirs now resolve pack force write fs
        ≡ install_pack yaml packs dirs now resolve p force write fs
  unfolding install ◌>>=◌ lift
  install_loaded packs now pack force write fs found = rw found refl

  rollback_loaded :
      (packs : List Pack) (now pack : Text) (fs : FileTree)
      → load_pack_by_id packs pack ≡ ok p
      → rollback yaml packs dirs now pack fs ≡ rollback_pack yaml dirs p fs
  unfolding rollback ◌>>=◌ lift
  rollback_loaded packs now pack fs found = rw found refl

  -- An installation over an installed pack that ends well, and a rollback behind it: the rollback ends
  -- well, and every file and directory of the installed skills is what it was before the installation.
  -- The target's files form a tree, the version of the installed pack is one part of a path and not less
  -- than that of an older snapshot, and both operations load the same pack.
  pub rollback-install :
      (packs : List Pack) (now pack : Text) (force write : Bool) (fs : FileTree) (done : Installed)
      → load_pack_by_id packs pack ≡ ok p
      → IsTree fs
      → (exists (dest_root p) fs && exists (manifest_path (dest_root p)) fs) ≡ true
      → is_part (previous_version yaml dirs (dest_root p) fs) ≡ true
      → ((n : Text)
          → is_dir (versions_root p ++ n ∷ []) fs ≡ true
          → text_leb n (previous_version yaml dirs (dest_root p) fs) ≡ true)
      → (install yaml packs dirs now resolve pack force write fs).1 ≡ ok done
      → let fs' = (install yaml packs dirs now resolve pack force write fs).0 in
        ((rollback yaml packs dirs now pack fs').1 ≡ ok (dest_root p))
        × ((r : List Text)
            → lookup (dest_root p ++ r) (rollback yaml packs dirs now pack fs').0
              ≡ lookup (dest_root p ++ r) fs)
  rollback-install packs now pack force write fs done found tree here part top h =
      rw
        (
          install_loaded packs now pack force write fs found,
          rollback_loaded packs now pack
              (install_pack yaml packs dirs now resolve p force write fs).0 found,
        )
        (rollback_pack-install_pack packs now force write fs done tree here part top
          (sym (ap (λ o. o.1) (install_loaded packs now pack force write fs found)) ∙ h))
