-- ===== src/Lib.antt =====
-- Deslop installs packs of rules for coding agents and checks a repository against them. This library
-- models the part that decides: which packs and rules a check has, which sources it reads, what the
-- detectors' findings make of the exit status, how Kotlin sources are scanned, and what an
-- installation and its rollback do to the files of a target.
--
-- The parts and the files that model them:
--   * Prelude, Texts, Errors: lists, dictionaries and texts as Python uses them, laws of them, and
--     the exceptions. A text is the list of its character codes, a dictionary an association list
--     in the order of insertion, a set the list of its values.
--   * Checkers/Common: checkers/common.py. `is_skipped` and `is_corpus_rel` say which paths are out
--     of scope; Checkers/Common/Paths has their laws.
--   * Checkers/Run: checkers/run.py. `load_all_detectors`, `iter_sources` and `run_mine`; what
--     `pathlib` answers about the repository is the record Repo, and a detector is a function from
--     a source and its path to findings or an exception. Sources, Inventory and Findings have the
--     laws.
--   * Packs: scripts/pack_lib.py. The rule ids of a pack and `skill_enforcement_map`; Packs/Load
--     has `load_pack_by_id`, Packs/Frameworks `detect_java_frameworks` and the collisions. A pack
--     is the mapping that PyYAML loads.
--   * Check: scripts/check.py, on top of Packs and Checkers/Run. `run_check`, `build_report` and
--     `main`, with `select_packs` in Check/Select and the coverage in Check/Coverage; Check/Status
--     has the law of the exit status. The order of a set, `str.lower` and the YAML of an override
--     file are the record Host.
--   * Ktast: checkers/ktast_client.py. Ktast/Blank has `_blank_strings_and_comments`,
--     Ktast/Literals `_extract_string_lits`, Ktast/Braces `_match_brace` and `_first_brace_after`.
--     Ktast/Source describes Kotlin sources without reference to the scanners, as a sequence of
--     segments.
--   * Ktast/Facts: the facts that checkers/ktast_client.py returns, with the search for a class.
--     Ktast/Annotations reads the lines above a declaration upwards, with its position as fuel, and
--     Ktast/Extract has classes, functions, calls and `load_facts`. What the module's five regular
--     expressions match is the record Patterns, and `str.lower` a parameter. The laws are Spans,
--     Owners and Laws.
--   * Pyast: checkers/pyast_client.py, its dotted names and what the imports make of them.
--     Pyast/Tree is the data type of Python's trees, as far as the module tells their nodes apart;
--     Pyast/Facts the facts, Pyast/Calls what is recorded of a call and of a handler, with
--     Pyast/Static on the strings that are known. Pyast/Visitor is `_FactsVisitor`, on a state of
--     its lists and stacks: a function on the stack is the index of its record in the list, as both
--     are one object. `ast.parse` and `ast.unparse` are parameters. Pyast/Scopes says without
--     stacks what the nodes hold at their places, and below it are the laws: Places and Parts of
--     one step, Visits of the walk, Owners of the functions that calls belong to.
--   * Goast: checkers/goast_client.py. Its `is_skipped`, `_has_package_clause` and the wrapping of
--     a source in `load_facts`.
--   * Tsast: checkers/tsast_client.py, its `is_out_of_scope` alone.
--   * Detectors: the loop that the modules checkers/no_*.py share, which reports an item of the
--     facts once for its line, and twenty-two of them. Detectors/Python/Timeouts has those of httpx
--     clients and of requests, Swallow that of swallowed exceptions, Routes those of outbound
--     clients and of JSON in routes, Blocking that of blocking calls in async routes, which reports
--     a call once for its line and name; Detectors/Handlers the four of HTTP handlers in Go;
--     Detectors/Android those of GlobalScope and of runBlocking, with that of secrets in literals
--     in Secrets and the facts of a source in Sources; Detectors/Sql those of SQL that is put
--     together at run time, in Python and in Go; Detectors/Typescript five and
--     Detectors/Typescript/Values two, three of which report every item. `load_facts` is a
--     parameter of each, as are the searches of the regular expressions of some of them. Laws say
--     which lines they report.
--   * Install: scripts/install.py, with the skills of scripts/pack_lib.py in Packs/Skills.
--     `install`, `rollback` and `main`; Install/Emit has what an installation writes,
--     Install/Snapshot the snapshot and what is restored of it, Install/Pointer the line of
--     AGENTS.md, Install/Places the paths. Install/Files is the part of pathlib and shutil that is
--     used, on an association list of the paths below the target; Install/Actions the steps, which
--     keep the files that they have changed when an exception ends them. PyYAML is the record Yaml,
--     and the directory skills/ a list. `resolve` is where the operating system finds a snapshot
--     whose version is absolute or goes upwards. The other files have the laws: Paths, Copies and
--     Trees of the files, Frames, Untouched, Unsaved and Found of what a step leaves alone,
--     Versions of the place of a snapshot, Saved, Restored, Replaced and Roundtrip of a rollback,
--     Refusal and Outside.
--   * Tests: runs at concrete inputs.
--
-- Loops over an index are recursions on the text behind it, so they end without fuel. The loop of
-- `_first_brace_after` counts the rounds that are left below its limit. That of `_annotations_before`
-- goes upwards and has its position as fuel.
--
-- Not modelled: the command line and what is printed, the clients of the other languages
-- (checkers/javaast_client.py, tsast_client.py, and the processes that goast_client.py starts), the
-- other detectors, export.py and the learning of rules (scripts/learn.py). Of an installation,
-- symbolic links, the operating system's own errors and the packs whose names hold a `/` are left
-- out. An override file of frameworks that is not UTF-8, where the program ends in a
-- `UnicodeDecodeError`, and a language without patterns of file names, which no detector has, are
-- left out too.
pub mod Check
pub mod Checkers
pub mod Detectors
pub mod Errors
pub mod Goast
pub mod Install
pub mod Ktast
pub mod Packs
pub mod Prelude
pub mod Pyast
pub mod Tests
pub mod Texts
pub mod Tsast
