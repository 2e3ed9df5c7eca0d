-- ===== src/Checkout/Steps.antt =====
-- hgext/robustcheckout/__init__.py: the files that `_docheckout` looks at, and its calls. A call
-- ends with a value, by calling `callself`, or by raising.
use version_control_tools_fx.Base.{
  ℕ, Bool, true, false, ◌&&◌, List, [], ◌∷◌, ◌++◌, Option, none, some, Text, codes, text_eq, find,
  if◌then◌else◌,
}

-- What is raised: `error.Abort` with its first argument, `ssl.SSLError`, `HTTPError` with its code,
-- `URLError` and whether its reason is a socket error, `socket.timeout`, the errors of Mercurial for
-- repositories and revlogs, and others.
pub data Exception : Type 0 where
  abort : Text → Exception
  ssl_error socket_timeout repo_lookup_error revlog_error other : Exception
  http_error : ℕ → Exception
  url_error : Bool → Exception
  repo_error response_error : Text → Exception

-- What Mercurial answers to a call.
pub data Answer {ℓ} (A : Type ℓ) : Type ℓ where
  gives : A → Answer A
  raises : Exception → Answer A

-- The destination: whether it has `.hg`, and in there `sparse`, `sharedpath` and `wlock`; and the
-- revision that is checked out.
pub record Dest : Type 0 where
  pub hg : Bool
  pub sparse : Bool
  pub sharedpath : Option Text
  pub wlock : Bool
  pub checked_out : Option Text

-- A shared store: `.hg/store/lock`, `.hg/requires` and `.hg/store/requires`.
-- A shared store: a directory with a `.hg` in it, which a share's path names.
pub record Store : Type 0 where
  pub lock : Bool
  pub requires : Option (List Text)
  pub store_requires : Option (List Text)

pub record Disk : Type 0 where
  pub dest : Option Dest
  pub stores : List (Text × Store)

-- `networkattempts[0]`, `behaviors` and the names in `optimes`; times are not modelled.
pub record State : Type 0 where
  pub disk : Disk
  pub attempts : ℕ
  pub behaviors : List Text
  pub optimes : List Text

pub data Step {ℓ} (A : Type ℓ) : Type ℓ where
  next : A → State → Step A
  again : State → Step A
  raised : Exception → State → Step A

abbrev pub M : Type 0 → Type 0
M A = State → Step A

abbrev pub and_then : {A B : Type 0} → Step A → (A → M B) → Step B
and_then (next a s) k = k a s
and_then (again s) k = again s
and_then (raised e s) k = raised e s

infixl 5 ◌>>=◌ ◌>>◌
unfoldable pub ◌>>=◌ : {A B : Type 0} → M A → (A → M B) → M B
m >>= k = λ s. and_then (m s) k

unfoldable pub ◌>>◌ : {A B : Type 0} → M A → M B → M B
m >> k = λ s. and_then (m s) (λ _. k)

unfoldable pub pure : {A : Type 0} → A → M A
pure a s = next a s

unfoldable pub raise : {A : Type 0} → Exception → M A
raise e s = raised e s

unfoldable pub callself : {A : Type 0} → M A
callself s = again s

-- `if c: …`
unfoldable pub when : Bool → M (Unit {0}) → M (Unit {0})
unfolding pure
when true m = m
when false m = pure tt

unfoldable pub answered : {A : Type 0} → Answer A → M A
unfolding pure raise
answered (gives a) = pure a
answered (raises e) = raise e

unfoldable pub disk_of : M Disk
disk_of s = next s.disk s

-- `destvfs.rmtree()`
unfoldable pub remove_dest : M (Unit {0})
remove_dest s = next tt (record s { disk = record s.disk { dest = none } })

-- `storevfs.rmtree()`
unfoldable pub without : Text → List (Text × Store) → List (Text × Store)
without path [] = []
without path ((p, s) ∷ rest) =
    let others = without path rest in if text_eq p path then others else (p, s) ∷ others

unfoldable pub remove_store : Text → M (Unit {0})
unfolding without
remove_store path s =
    next tt (record s { disk = record s.disk { stores = without path s.disk.stores } })

unfoldable pub add_behavior : Text → M (Unit {0})
add_behavior b s = next tt (record s { behaviors = b ∷ s.behaviors })

abbrev pub timed : {A : Type 0} → Text → Step A → Step A
timed op (next a s) = next a (record s { optimes = s.optimes ++ op ∷ [] })
timed op (again s) = again (record s { optimes = s.optimes ++ op ∷ [] })
timed op (raised e s) = raised e (record s { optimes = s.optimes ++ (op ++ codes "_errored") ∷ [] })

-- `with timeit(op, behavior): …`
unfoldable pub timeit : {A : Type 0} → Text → Text → M A → M A
timeit op behavior m s = timed op (m (record s { behaviors = behavior ∷ s.behaviors }))

-- The files of the destination that are looked at.
abbrev pub dest_exists : Disk → Bool
dest_exists d = elim d.dest [ none ↦ false | some x ↦ true ]

abbrev pub has_hg : Disk → Bool
has_hg d = elim d.dest [ none ↦ false | some x ↦ x.hg ]

abbrev pub has_sparse : Disk → Bool
has_sparse d = elim d.dest [ none ↦ false | some x ↦ x.hg && x.sparse ]

abbrev pub has_wlock : Disk → Bool
has_wlock d = elim d.dest [ none ↦ false | some x ↦ x.hg && x.wlock ]

abbrev pub sharedpath_of : Disk → Option Text
sharedpath_of d = elim d.dest [ none ↦ none | some x ↦ if x.hg then x.sharedpath else none ]

abbrev pub store_exists : Text → Disk → Bool
store_exists path d = elim (find path d.stores) [ none ↦ false | some s ↦ true ]
