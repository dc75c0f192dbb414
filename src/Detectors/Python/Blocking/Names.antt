-- ===== src/Detectors/Python/Blocking/Names.antt =====
-- Which names the detector of blocking calls takes for one that waits.
use deslop.Prelude.{
  Bool, true, false, ◌&&◌, ◌||◌, not, List, [], ◌∷◌, Text, codes, Option, none, some, mem, any,
  starts_with, ends_with, list_beq_iff, beq_comm, after_last, ◌++◌, ◌==◌, nat_eq, list_eq, list_beq,
  pair_eq, ◌≡◌, refl, arith, ◌∙◌, ap, if◌then◌else◌,
}
use deslop.Pyast.Facts.{Call}
use deslop.Detectors.Laws.{is_some}
use deslop.Detectors.Python.Blocking.{urllib_io, has_execute, blocking_call, blocking_message}

-- The module, or a name in it.
abbrev within : Text → Text → Bool
within module_name name = name == module_name || starts_with name (module_name ++ b'.' ∷ [])

-- The names of asynchronous libraries.
abbrev is_async_name : Text → Bool
is_async_name name =
    any (starts_with name)
      (codes "aiofiles." ∷ codes "aiohttp." ∷ codes "asyncio." ∷ codes "httpx." ∷ [])

-- The methods of requests that wait for a response.
abbrev sends_request : Text → Bool
sends_request name = mem (after_last b'.' name) (
    codes "get"
    ∷ codes "post"
    ∷ codes "put"
    ∷ codes "patch"
    ∷ codes "delete"
    ∷ codes "request"
    ∷ codes "head"
    ∷ [])

-- A call of the name waits: the sleep of `time`, a request by one of seven methods, the two functions
-- of urllib, anything of `http.client`, `boto3` or `psycopg2`, `read_sql` in pandas, and sqlite's
-- `connect` in a function that executes something.
abbrev waits : Text → Bool → Bool
waits name executes =
    name == codes "time.sleep"
    || ((starts_with name (codes "requests.") && sends_request name)
        || (not (starts_with name (codes "requests."))
            && ((name == codes "urllib.request.urlopen"
                  || name == codes "urllib.request.urlretrieve")
                || ((within (codes "http.client") name
                      || (within (codes "boto3") name || within (codes "psycopg2") name))
                    || ((starts_with name (codes "pandas.") && ends_with name (codes ".read_sql"))
                        || (executes && ends_with name (codes "sqlite3.connect")))))))

-- The name waits, and is of no asynchronous library.
abbrev pub blocks : Text → Bool → Bool
blocks name executes = not (is_async_name name) && waits name executes

waits_cases :
    (sleep requests method table opened retrieved client boto pandas sql psycopg sqlite named'
      named : Bool)
    (executes : Bool) (a b d : Text)
    → table ≡ (opened || retrieved)
    → (named' ≡ true → (pandas && sql) ≡ true)
    → (named ≡ true → sqlite ≡ true)
    → is_some (
        if sleep
        then some a
        else if requests
        then (if method then some b else none)
        else if table
        then some b
        else if client
        then some b
        else if boto
        then some b
        else if (named' || sql) && (named' || pandas)
        then some b
        else if psycopg
        then some b
        else if (named || sqlite) && executes
        then some d
        else none)
      ≡ (sleep
          || ((requests && method)
              || (not requests
                  && ((opened || retrieved)
                      || ((client || (boto || psycopg))
                          || ((pandas && sql) || (executes && sqlite)))))))
waits_cases sleep requests method table opened retrieved client boto pandas sql psycopg sqlite
      named' named executes a b d h k l =
    ground arith

mem-urllib_io :
    (name : Text)
    → mem name urllib_io
      ≡ (name == codes "urllib.request.urlopen" || name == codes "urllib.request.urlretrieve")
unfolding mem
mem-urllib_io name =
    rw
      (
        beq_comm (codes "urllib.request.urlopen") name,
        beq_comm (codes "urllib.request.urlretrieve") name,
      )
      (ground arith)

pandas_name :
    (name : Text)
    → (name == codes "pandas.read_sql") ≡ true
    → (starts_with name (codes "pandas.") && ends_with name (codes ".read_sql")) ≡ true
unfolding starts_with ends_with
pandas_name name h = rw ((list_beq_iff name (codes "pandas.read_sql")).0 h) refl

sqlite_name :
    (name : Text)
    → (name == codes "sqlite3.connect") ≡ true
    → ends_with name (codes "sqlite3.connect") ≡ true
unfolding starts_with ends_with
sqlite_name name h = rw ((list_beq_iff name (codes "sqlite3.connect")).0 h) refl

blocking_call-waits :
    (name : Text) (executes : Bool) → is_some (blocking_call name executes) ≡ waits name executes
unfolding blocking_call
blocking_call-waits name executes =
    waits_cases (name == codes "time.sleep") (starts_with name (codes "requests."))
      (sends_request name) (mem name urllib_io) (name == codes "urllib.request.urlopen")
      (name == codes "urllib.request.urlretrieve") (within (codes "http.client") name)
      (within (codes "boto3") name) (starts_with name (codes "pandas."))
      (ends_with name (codes ".read_sql")) (within (codes "psycopg2") name)
      (ends_with name (codes "sqlite3.connect")) (name == codes "pandas.read_sql")
      (name == codes "sqlite3.connect") executes _ _ _ (mem-urllib_io name) (pandas_name name)
      (sqlite_name name)

nothing_blocks :
    (name : Text) (executes : Bool)
    → (name == []) ≡ true
    → is_some (blocking_call name executes) ≡ false
unfolding blocking_call mem list_beq starts_with ends_with
nothing_blocks [] executes h = refl
nothing_blocks (c ∷ name) executes h = cc

blocking_cases :
    (empty httpx asyncio aiofiles aiohttp sleep' sleep plain : Bool) (rest : Option Text)
    → (empty ≡ true → is_some rest ≡ false)
    → (sleep ≡ true → asyncio ≡ true)
    → is_some (
        if empty
        then none
        else if (httpx || (asyncio || (aiofiles || (aiohttp || false))))
            || (sleep' || (plain || false))
        then if sleep || asyncio
          then none
          else if httpx || aiofiles
          then none
          else if aiohttp
          then none
          else rest
        else rest)
      ≡ (not (aiofiles || (aiohttp || (asyncio || (httpx || false)))) && is_some rest)
blocking_cases empty httpx asyncio aiofiles aiohttp sleep' sleep plain rest h k = ground arith

sleep-asyncio :
    (name : Text) → name ≡ codes "asyncio.sleep" → starts_with name (codes "asyncio.") ≡ true
unfolding starts_with
sleep-asyncio name e = rw e refl

pub blocking_message-blocks :
    (name : Text) (calls : List Call)
    → is_some (blocking_message name calls) ≡ blocks name (has_execute calls)
unfolding blocking_message mem
blocking_message-blocks name calls =
    blocking_cases (name == []) _ _ _ _ _ (name == codes "asyncio.sleep") _
      (blocking_call name (has_execute calls)) (nothing_blocks name (has_execute calls))
      (λ h. sleep-asyncio name ((list_beq_iff name (codes "asyncio.sleep")).0 h))
    ∙ ap (λ b. not (is_async_name name) && b) (blocking_call-waits name (has_execute calls))
