-- ===== src/Install/Outside.antt =====
-- An installation and a rollback of scripts/install.py change nothing outside of their areas of the
-- target, whether they end well or not.
use deslop.Prelude.{
  Bool, true, false, List, [], ◌∷◌, ◌++◌, Text, codes, lookup, not, mem, list_eq, nat_eq, list_beq,
  ◌≡◌, ◌≢◌, sym, ap, refl, arith, ◌∙◌, Bool-cases, inl, inr,
}
use deslop.Errors.{Result, ok, raised}
use deslop.Packs.{Pack}
use deslop.Packs.Load.{load_pack_by_id}
use deslop.Packs.Frameworks.{collision_hits}
use deslop.Packs.Skills.{Yaml, SkillDir}
use deslop.Install.Actions.{
  M, ◌>>=◌, ◌>>◌, and_then, pure, lift, get, Leaves, Leaves-and_then, Leaves-pure, after_lift,
}
use deslop.Install.Files.{FileTree, below, exists}
use deslop.Install.Frames.{Clear, Off-Clear, areas_apart}
use deslop.Install.Places.{pack_place, dest_root, manifest_path, is_part}
use deslop.Install.Unsaved.{Kept, snapshot_if_present-keeps, Leaves-rollback_pack}
use deslop.Install.Snapshot.{previous_version, snapshot_if_present}
use deslop.Install.Untouched.{Spared, Leaves-replace_pack}
use deslop.Install.{
  Args, Installed, marker_exists, refused_by, replace_pack, install_pack, install, rollback, main,
}

-- The top of each path that the program writes to.
abbrev pub areas : List Text
areas =
    codes ".agents"
    ∷ codes ".claude"
    ∷ codes ".cursor"
    ∷ codes ".github"
    ∷ codes ".stopthatslop"
    ∷ codes "AGENTS.md"
    ∷ []

abbrev outside : List Text → Bool
outside [] = false
outside (a ∷ d) = not (mem a areas)

outside-Clear : (a : Text) → mem a areas ≡ true → Clear outside a
unfolding below
outside-Clear a h d [] hp = cc
outside-Clear a h d (b ∷ p) hp =
    areas_apart a b d p (λ e. kept_out (mem b areas) hp (ap (λ x. mem x areas) (sym e) ∙ h))
  where
    kept_out : (m : Bool) → not m ≡ true → m ≢ true
    kept_out m n e = ground arith

outside-Spared : (p : Pack) → Spared outside p
unfolding mem list_beq
outside-Spared p = record {
  inside =
      λ a d. Off-Clear outside _ (outside-Clear (codes ".agents") refl) (pack_place p ++ a ∷ d);
  cursor = outside-Clear (codes ".cursor") refl;
  claude = outside-Clear (codes ".claude") refl;
  github = outside-Clear (codes ".github") refl;
  agents = outside-Clear (codes "AGENTS.md") refl;
}

outside-Kept : Kept outside
unfolding mem list_beq
outside-Kept = record {
  cursor = outside-Clear (codes ".cursor") refl;
  claude = outside-Clear (codes ".claude") refl;
  github = outside-Clear (codes ".github") refl;
}

outside_skills : Clear outside (codes ".agents")
unfolding mem list_beq
outside_skills = outside-Clear (codes ".agents") refl

outside_snapshots : Clear outside (codes ".stopthatslop")
unfolding mem list_beq
outside_snapshots = outside-Clear (codes ".stopthatslop") refl

module _ (yaml : Yaml) (packs : List Pack) (dirs : List SkillDir) (now : Text) where
  module _ (resolve : List Text → Text → List Text) (q : List Text) (out : outside q ≡ true) where
    -- A step that keeps the path, and steps that leave all such paths alone.
    keeps_then :
        {A B : Type 0} (m : M A) (next : A → M B) (fs : FileTree)
        → lookup q (m fs).0 ≡ lookup q fs
        → ((a : A) → Leaves outside (next a))
        → lookup q ((m >>= next) fs).0 ≡ lookup q fs
    unfolding ◌>>=◌
    keeps_then {A} m next fs h leaves = by_case (m fs) h
      where
        by_case :
            (o : FileTree × Result A)
            → lookup q o.0 ≡ lookup q fs
            → lookup q (and_then next o).0 ≡ lookup q fs
        by_case (fs', raised e) k = k
        by_case (fs', ok a) k = (leaves a).keeps fs' q out ∙ k

    install_pack-keeps :
        (p : Pack) (force write : Bool) (fs : FileTree)
        → (exists (manifest_path (dest_root p)) fs ≡ true
            → is_part (previous_version yaml dirs (dest_root p) fs) ≡ true)
        → lookup q (install_pack yaml packs dirs now resolve p force write fs).0 ≡ lookup q fs
    unfolding install_pack ◌>>=◌ get lift
    install_pack-keeps p force write fs part =
        allowed (refused_by yaml packs dirs now (collision_hits (marker_exists fs) p true) force)
      where
        hits : List Text
        hits = collision_hits (marker_exists fs) p true

        rest : M Installed
        rest = replace_pack yaml packs dirs now p write >>= λ written.
            pure (record { written = written; refuse = hits })

        rest-Leaves : Leaves outside rest
        rest-Leaves =
            Leaves-and_then outside _ _
              (Leaves-replace_pack outside p (outside-Spared p) yaml dirs outside_skills packs now
                write)
              (λ written. Leaves-pure outside _)

        snapshot : M (Unit {0})
        snapshot = snapshot_if_present yaml dirs resolve p (dest_root p)

        allowed :
            (o : Result (Unit {0}))
            → lookup q (and_then (λ _. snapshot >> rest) (fs, o)).0 ≡ lookup q fs
        allowed (raised e) = refl
        allowed (ok u) =
            keeps_then snapshot (λ _. rest) fs
              (snapshot_if_present-keeps outside outside_snapshots yaml dirs resolve p fs q out
                part)
              (λ _. rest-Leaves)

    install-keeps :
        (pack : Text) (force write : Bool) (fs : FileTree)
        → ((p : Pack)
            → load_pack_by_id packs pack ≡ ok p
            → exists (manifest_path (dest_root p)) fs ≡ true
            → is_part (previous_version yaml dirs (dest_root p) fs) ≡ true)
        → lookup q (install yaml packs dirs now resolve pack force write fs).0 ≡ lookup q fs
    unfolding install ◌>>=◌ lift
    install-keeps pack force write fs part = loaded (load_pack_by_id packs pack) refl
      where
        loaded :
            (o : Result Pack)
            → load_pack_by_id packs pack ≡ o
            → lookup q
                (and_then (λ p. install_pack yaml packs dirs now resolve p force write) (fs, o)).0
              ≡ lookup q fs
        loaded (raised e) h = refl
        loaded (ok p) h = install_pack-keeps p force write fs (part p h)

  Leaves-rollback : (pack : Text) → Leaves outside (rollback yaml packs dirs now pack)
  unfolding rollback
  Leaves-rollback pack =
      after_lift outside _ _
        (λ p. Leaves-rollback_pack outside outside-Kept outside_skills yaml dirs p)

  -- Whatever an installation or a rollback ends with, an exception included, what stands at the paths
  -- of the target outside of `.agents`, `.claude`, `.cursor`, `.github`, `.stopthatslop` and
  -- `AGENTS.md` is what stood there before. Where the pack is installed, the version of its manifest is
  -- one part of a path.
  pub main-outside :
      (resolve : List Text → Text → List Text) (args : Args) (fs : FileTree) (a : Text)
      (d : List Text)
      → ((p : Pack)
          → load_pack_by_id packs args.pack ≡ ok p
          → exists (manifest_path (dest_root p)) fs ≡ true
          → is_part (previous_version yaml dirs (dest_root p) fs) ≡ true)
      → mem a areas ≡ false
      → lookup (a ∷ d) (main yaml packs dirs now resolve args fs).0 ≡ lookup (a ∷ d) fs
  unfolding main
  main-outside resolve args fs a d part h = elim (Bool-cases args.rollback) [
    | inl back ↦ rw back (
        keeps_then resolve (a ∷ d) (ap not h) (rollback yaml packs dirs now args.pack) _ fs
          ((Leaves-rollback args.pack).keeps fs (a ∷ d) (ap not h))
          (λ restored. Leaves-pure outside _))
    | inr forth ↦ rw forth (
        keeps_then resolve (a ∷ d) (ap not h)
          (install yaml packs dirs now resolve args.pack args.force args.write_agents_md) _ fs
          (install-keeps resolve (a ∷ d) (ap not h) args.pack args.force args.write_agents_md fs
            part)
          (λ done. Leaves-pure outside _))
  ]
