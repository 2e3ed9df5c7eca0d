-- ===== src/Checkout/Tests.antt =====
-- A checkout of a new destination, and one from a source that does not answer.
use version_control_tools_fx.Base.{
  ◌≡◌, refl, true, false, ◌⊎◌, [], ◌∷◌, none, some, Text, codes, text_eq, any, find, starts_with,
  arith, ◌||◌, strip, contains,
}
use version_control_tools_fx.Hooks.Roots.{member, difference}
use version_control_tools_fx.Checkout.{Run, failed, state_of, begin, run, overall_ops}
use version_control_tools_fx.Checkout.Steps.{
  ssl_error, gives, raises, Dest, Store, Disk, next, ◌>>=◌, ◌>>◌, pure, raise, when, disk_of,
  timeit,
}
use version_control_tools_fx.Checkout.Sanity.{
  store_dir, is_pooled, refuse_dest, drop_unshared, check_shared, drop_locked, check_dest,
  drop_locked_store, drop_odd_store, all_requires, drop_incomplete_store, check_store, required,
}
use version_control_tools_fx.Checkout.Attempt.{Options, Answers}
use version_control_tools_fx.Checkout.Bounded.{gave_up, fresh, run-gives_up}
use version_control_tools_fx.Checkout.Sane.{IsSettled, check_dest-IsSettled}
use version_control_tools_fx.Checkout.Stored.{IsSound, check_store-IsSound}
use version_control_tools_fx.Checkout.Report.{report-full}

abbrev wanted : Text
wanted = codes "aaaaaaaaaaaa"

abbrev hex : Text
hex = codes "aaaaaaaaaaaabb"

abbrev root : Text
root = codes "1111111111111111111111111111111111111111"

abbrev pooled : Text
pooled = codes "/s/1111111111111111111111111111111111111111"

abbrev two_attempts : Options
two_attempts = record {
  url = codes "u";
  upstream = [];
  revision = wanted;
  branch = [];
  purge = false;
  sharebase = codes "/s";
  networkattemptlimit = 2;
  sparse_profile = [];
  noupdate = false;
}

abbrev sound_store : Store
sound_store = record { lock = false; requires = some required; store_requires = none }

abbrev shared : Dest
shared = record {
  hg = true;
  sparse = false;
  sharedpath = some (codes "/s/1111111111111111111111111111111111111111/.hg");
  wlock = false;
  checked_out = none;
}

abbrev cloned : Disk
cloned = record { dest = some shared; stores = (pooled, sound_store) ∷ [] }

abbrev empty : Disk
empty = record { dest = none; stores = [] }

abbrev all_well : Answers
all_well = record {
  root = gives root;
  clone = λ _. (gives true, cloned);
  recover = gives true;
  opens = gives tt;
  local = gives hex;
  remote = gives hex;
  has = λ _. true;
  pull = λ d. (gives true, d);
  purges = gives false;
  has_profile = gives true;
  sparse_config = record { includes = []; excludes = []; profiles = [] };
  refreshes = λ d. (gives tt, d);
  updates = gives false;
}

abbrev unreachable : Answers
unreachable = record all_well { root = raises ssl_error }

-- The second call ends well.
abbrev second_try : Run
second_try = run two_attempts (unreachable ∷ all_well ∷ []) (begin empty)

gives_up_example :
    run two_attempts (unreachable ∷ unreachable ∷ []) (begin empty)
    ≡ failed gave_up (fresh [] 2 [] [])
gives_up_example =
    run-gives_up two_attempts (unreachable ∷ unreachable ∷ []) [] (omega arith) (omega arith)
      ((ssl_error, refl, tt), ((ssl_error, refl, tt), tt))

report_example :
    any
      (λ name. contains name (codes "_sparsecheckout") || contains name (codes "overall_clone"))
      (overall_ops (state_of second_try).behaviors)
    ≡ false
report_example = report-full two_attempts (unreachable ∷ all_well ∷ []) empty

settled : check_dest [] (begin cloned) ≡ next tt (begin cloned)
unfolding check_dest refuse_dest drop_unshared check_shared drop_locked ◌>>=◌ ◌>>◌ pure raise when
    disk_of timeit strip store_dir is_pooled find text_eq starts_with
settled = refl

settled_example : (cloned.dest ≡ none) ⊎ ((begin cloned ≡ begin cloned) × IsSettled cloned)
settled_example = check_dest-IsSettled [] (begin cloned) (begin cloned) settled

sound : check_store pooled (begin cloned) ≡ next tt (begin cloned)
unfolding check_store drop_locked_store drop_odd_store drop_incomplete_store all_requires difference
    member ◌>>=◌ ◌>>◌ pure raise when disk_of find text_eq
sound = refl

sound_example :
    ((cloned.dest ≡ none) × (find pooled cloned.stores ≡ none))
    ⊎ ((begin cloned ≡ begin cloned)
        × ((t : Store) → find pooled cloned.stores ≡ some t → IsSound t))
sound_example = check_store-IsSound pooled (begin cloned) (begin cloned) sound
