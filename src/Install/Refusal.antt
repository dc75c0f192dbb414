-- ===== src/Install/Refusal.antt =====
-- An installation of scripts/install.py that finds the instructions of other agents.
use deslop.Prelude.{
  Bool, true, false, List, [], ◌∷◌, Text, any, keep, ◌≡◌, refl, Bool-cases, inl, inr,
}
use deslop.Errors.{ok, raised, refused}
use deslop.Packs.{Pack}
use deslop.Packs.Load.{load_pack_by_id}
use deslop.Packs.Frameworks.{collision_markers, collision_hits}
use deslop.Packs.Skills.{Yaml, SkillDir}
use deslop.Install.Actions.{◌>>=◌, lift, get}
use deslop.Install.Files.{FileTree}
use deslop.Install.{install, install_pack, refused_by, marker_exists}

module _ (yaml : Yaml) (packs : List Pack) (dirs : List SkillDir) (now : Text)
    (resolve : List Text → Text → List Text) where
  -- Without `--force`, an installation where one of the pack's markers stands in the target is refused
  -- with all that stand there, and changes no file.
  pub install-refused :
      (pack : Text) (p : Pack) (write : Bool) (fs : FileTree)
      → load_pack_by_id packs pack ≡ ok p
      → any (marker_exists fs) (collision_markers p) ≡ true
      → install yaml packs dirs now resolve pack false write fs
        ≡ (fs, raised (refused (keep (marker_exists fs) (collision_markers p))))
  unfolding install install_pack ◌>>=◌ lift get collision_hits
  install-refused pack p write fs found h =
      rw (found, collide (marker_exists fs) (collision_markers p) h) refl
    where
      collide :
          (m : Text → Bool) (ms : List Text)
          → any m ms ≡ true
          → refused_by yaml packs dirs now (keep m ms) false ≡ raised (refused (keep m ms))
      collide m [] k = cc
      collide m (a ∷ ms) k = elim (Bool-cases (m a)) [
        | inl e ↦ rw e refl
        | inr e ↦ rw e (collide m ms (rw e at k))
      ]
