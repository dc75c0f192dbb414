-- ===== src/Install/Files.antt =====
-- The files below the target of scripts/install.py, and what pathlib and shutil do with them. A path
-- is the list of its parts below the target, which is a directory. Symbolic links are not modelled,
-- and neither are the operating system's own errors, as for a file where a directory is wanted.
use deslop.Prelude.{
  Bool, true, false, List, [], ◌∷◌, ◌++◌, Text, Option, none, some, Dict, lookup, assign, keep, not,
  if◌then◌else◌, ◌==◌, list_eq, nat_eq,
}

pub data Node : Type 0 where
  dir : Node
  file : Text → Node

abbrev pub FileTree : Type 0
FileTree = Dict (List Text) Node

-- What a path has behind a directory, where it stands in it or is the directory.
unfoldable pub below : List Text → List Text → Option (List Text)
below [] p = some p
below (a ∷ d) [] = none
below (a ∷ d) (b ∷ p) = let rest = below d p in if a == b then rest else none

abbrev pub is_some {ℓ} : {A : Type ℓ} → Option A → Bool
is_some none = false
is_some (some _) = true

abbrev pub is_under : List Text → List Text → Bool
is_under d p = is_some (below d p)

abbrev pub is_dir_node : Option Node → Bool
is_dir_node (some dir) = true
is_dir_node _ = false

-- `p.exists()` and `p.is_dir()`
abbrev pub exists : List Text → FileTree → Bool
exists p fs = is_some (lookup p fs)

abbrev pub is_dir : List Text → FileTree → Bool
is_dir p fs = is_dir_node (lookup p fs)

abbrev pub text_of : Option Node → Text
text_of (some (file t)) = t
text_of _ = []

-- `p.read_text()` of a file that exists
abbrev pub read_text : List Text → FileTree → Text
read_text p fs = text_of (lookup p fs)

-- `p.write_text(t)`
abbrev pub write_text : List Text → Text → FileTree → FileTree
write_text p t fs = assign p (file t) fs

-- `p.mkdir(exist_ok=True)`, and with `parents=True` behind the parts that are there
unfoldable pub mkdir : List Text → FileTree → FileTree
mkdir p fs = if exists p fs then fs else assign p dir fs

unfoldable pub mkdir_parts : List Text → List Text → FileTree → FileTree
mkdir_parts made [] fs = fs
mkdir_parts made (a ∷ p) fs = mkdir_parts (made ++ a ∷ []) p (mkdir (made ++ a ∷ []) fs)

unfoldable pub mkdir_parents : List Text → FileTree → FileTree
unfolding mkdir_parts
mkdir_parents p fs = mkdir_parts [] p fs

-- `shutil.rmtree(d)`, and under `if d.exists()`
unfoldable pub rmtree : List Text → FileTree → FileTree
rmtree d fs = keep (λ e. not (is_under d e.0)) fs

unfoldable pub remove_tree : List Text → FileTree → FileTree
remove_tree d fs = if exists d fs then rmtree d fs else fs

-- `shutil.copytree(src, dst)`, for a `dst` that is not there: the entries of `src`, over the others
abbrev pub copy_entry : List Text → Option (List Text) → Node → FileTree → FileTree
copy_entry dst none n fs = fs
copy_entry dst (some rest) n fs = assign (dst ++ rest) n fs

unfoldable pub copy_entries : List Text → List Text → FileTree → FileTree → FileTree
copy_entries src dst [] fs = fs
copy_entries src dst ((p, n) ∷ es) fs = copy_entry dst (below src p) n (copy_entries src dst es fs)

unfoldable pub copytree : List Text → List Text → FileTree → FileTree
unfolding copy_entries
copytree src dst fs = copy_entries src dst fs (mkdir_parents dst fs)

-- `shutil.copy2(src, dst)` of a file, under `if src.exists()`
abbrev pub copy_node : List Text → Option Node → FileTree → FileTree
copy_node dst none fs = fs
copy_node dst (some n) fs = assign dst n fs

unfoldable pub copy_file : List Text → List Text → FileTree → FileTree
copy_file src dst fs = copy_node dst (lookup src fs) fs

-- `[p.name for p in d.iterdir() if p.is_dir()]`, in the order in which the entries were made
abbrev pub onto_names : Option (List Text) → Bool → List Text → List Text
onto_names (some (a ∷ [])) true names = a ∷ names
onto_names _ _ names = names

unfoldable pub names_in : List Text → FileTree → FileTree → List Text
names_in d all [] = []
names_in d all ((p, n) ∷ es) = onto_names (below d p) (is_dir p all) (names_in d all es)

unfoldable pub subdirs : List Text → FileTree → List Text
unfolding names_in
subdirs d fs = names_in d fs fs
