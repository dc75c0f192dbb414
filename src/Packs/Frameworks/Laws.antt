-- ===== src/Packs/Frameworks/Laws.antt =====
-- What `detect_java_frameworks` of scripts/pack_lib.py finds.
use deslop.Prelude.{
  Bool, true, false, ◌||◌, ◌&&◌, List, [], ◌∷◌, ◌++◌, Text, codes, Option, none, some, any, mem,
  mem-append, mem-fromkeys, contains, fromkeys-Distinct, Distinct, if◌then◌else◌, nat_eq, list_eq,
  list_beq, ◌≡◌, refl, ◌∙◌,
}
use deslop.Checkers.Run.{Repo}
use deslop.Packs.Frameworks.{
  spring, jpa, spring_pom_tokens, jpa_pom_tokens, spring_gradle_tokens, jpa_gradle_tokens, signals,
  read_signals, file_signals, build_signals, override_file, override_frameworks,
  detect_java_frameworks,
}

abbrev has_token : List Text → Option Text → Bool
has_token tokens none = false
has_token tokens (some text) = any (contains text) tokens

module _ (repo : Repo) where
  -- The file is there, can be read, and holds one of the tokens.
  abbrev pub mentions : List Text → Text → Bool
  mentions tokens path = repo.is_file path && has_token tokens (repo.read path)

  mem-file_signals :
      (sts jts : List Text) (path : Text)
      → (mem spring (file_signals repo sts jts path) ≡ mentions sts path)
        × (mem jpa (file_signals repo sts jts path) ≡ mentions jts path)
  unfolding file_signals signals mem list_beq
  mem-file_signals sts jts path = by_case (repo.is_file path) (repo.read path)
    where
      by_text :
          (b c : Bool)
          → (mem spring ((if b then spring ∷ [] else []) ++ (if c then jpa ∷ [] else [])) ≡ b)
            × (mem jpa ((if b then spring ∷ [] else []) ++ (if c then jpa ∷ [] else [])) ≡ c)
      by_text true true = (refl, refl)
      by_text true false = (refl, refl)
      by_text false true = (refl, refl)
      by_text false false = (refl, refl)

      by_case :
          (there : Bool) (text : Option Text)
          → (mem spring (read_signals sts jts there text) ≡ (there && has_token sts text))
            × (mem jpa (read_signals sts jts there text) ≡ (there && has_token jts text))
      by_case false text = (refl, refl)
      by_case true none = (refl, refl)
      by_case true (some text) = by_text (any (contains text) sts) (any (contains text) jts)

  mem-append_3 :
      (a : Text) (xs ys zs : List Text) {b c d : Bool}
      → mem a xs ≡ b
      → mem a ys ≡ c
      → mem a zs ≡ d
      → mem a (xs ++ (ys ++ zs)) ≡ (b || (c || d))
  mem-append_3 a xs ys zs h k l = rw (mem-append a xs (ys ++ zs), mem-append a ys zs, h, k, l) refl

  -- Without frameworks in an override file, `detect_java_frameworks` finds Spring exactly where
  -- pom.xml or one of the two Gradle files mentions it, JPA likewise, and lists nothing twice.
  pub detect_java_frameworks-build :
      (frameworks : Text → Option (List Text)) (override_path : Option Text)
      → override_frameworks repo frameworks (override_file repo override_path) ≡ none
      → Distinct (detect_java_frameworks repo frameworks override_path)
        × (mem spring (detect_java_frameworks repo frameworks override_path) ≡ (
            mentions spring_pom_tokens (codes "pom.xml")
            || (mentions spring_gradle_tokens (codes "build.gradle")
                || mentions spring_gradle_tokens (codes "build.gradle.kts"))))
        × (mem jpa (detect_java_frameworks repo frameworks override_path) ≡ (
            mentions jpa_pom_tokens (codes "pom.xml")
            || (mentions jpa_gradle_tokens (codes "build.gradle")
                || mentions jpa_gradle_tokens (codes "build.gradle.kts"))))
  unfolding detect_java_frameworks build_signals
  detect_java_frameworks-build frameworks override_path h =
      let pom = mem-file_signals spring_pom_tokens jpa_pom_tokens in
      let gradle = mem-file_signals spring_gradle_tokens jpa_gradle_tokens in
      (
        fromkeys-Distinct _,
        rw h (
            mem-fromkeys spring (build_signals repo)
            ∙ mem-append_3 spring _ _ _ (pom (codes "pom.xml")).0 (gradle (codes "build.gradle")).0
                (gradle (codes "build.gradle.kts")).0),
        rw h (
            mem-fromkeys jpa (build_signals repo)
            ∙ mem-append_3 jpa _ _ _ (pom (codes "pom.xml")).1 (gradle (codes "build.gradle")).1
                (gradle (codes "build.gradle.kts")).1),
      )
