-- ===== src/Check/Select.antt =====
-- scripts/check.py: the packs of a run.
use deslop.Prelude.{
  Bool, true, false, ◌&&◌, ◌||◌, not, List, [], ◌∷◌, Text, codes, any, keep, if◌then◌else◌, ◌==◌,
  nat_eq, list_eq,
}
use deslop.Errors.{Result, ok, ◌>>=◌}
use deslop.Packs.{Pack}
use deslop.Packs.Load.{load_pack_by_id}
use deslop.Checkers.Run.{Repo}
use deslop.Check.Coverage.{pack_lang}

-- `_looks_java_project`
unfoldable pub looks_java_project : Repo → Bool
looks_java_project repo =
    repo.exists (codes "pom.xml")
    || (repo.exists (codes "build.gradle") || repo.exists (codes "build.gradle.kts"))

abbrev pub is_cons {ℓ} : {A : Type ℓ} → List A → Bool
is_cons [] = false
is_cons (_ ∷ _) = true

-- `_has_glob(repo, "*" + suffix)`
abbrev has_glob : Repo → Text → Bool
has_glob repo suffix = is_cons (repo.rglob suffix)

unfoldable pub repo_matches_lang : Repo → Text → Bool
repo_matches_lang repo lang =
    if lang == codes "java"
    then has_glob repo (codes ".java") || looks_java_project repo
    else if lang == codes "python"
    then has_glob repo (codes ".py")
      || (repo.exists (codes "pyproject.toml") || repo.exists (codes "requirements.txt"))
    else if lang == codes "ts"
    then has_glob repo (codes ".ts")
      || (has_glob repo (codes ".tsx")
          || (repo.exists (codes "package.json") && not (looks_java_project repo)))
    else if lang == codes "go"
    then has_glob repo (codes ".go") || repo.exists (codes "go.mod")
    else if lang == codes "android"
    then has_glob repo (codes ".kt") || has_glob repo (codes ".kts")
    else false

-- `[load_pack_by_id(arg) for arg in pack_args]`
unfoldable pub load_packs : List Pack → List Text → Result (List Pack)
load_packs packs [] = ok []
load_packs packs (arg ∷ args) = do
  p ← load_pack_by_id packs arg
  rest ← load_packs packs args
  ok (p ∷ rest)

abbrev or_default : Pack → List Pack → List Pack
or_default p [] = p ∷ []
or_default p (q ∷ qs) = q ∷ qs

-- The packs are `load_pack()`, the one of the root's pack.yaml, and those below skills/.
unfoldable pub select_packs : Repo → Pack → List Pack → List Text → Result (List Pack)
select_packs repo root nested [] =
    ok (or_default root (keep (λ p. repo_matches_lang repo (pack_lang p.lang)) (root ∷ nested)))
select_packs repo root nested (arg ∷ args) =
    if any (λ a. a == codes "all") (arg ∷ args)
    then ok (root ∷ nested)
    else load_packs (root ∷ nested) (arg ∷ args)
