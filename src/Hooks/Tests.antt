-- ===== src/Hooks/Tests.antt =====
-- The hooks on small pushes.
use version_control_tools_fx.Base.{
  not, starts_with, ends_with, ◌≡◌, refl, true, false, List, [], ◌∷◌, Option, some, Text, codes,
  text_eq, contains,
}
use version_control_tools_fx.Hooks.Extension.{Check, exit, pre_checks, run_checks}
use version_control_tools_fx.Hooks.Extension.Calls.{calls, run_calls, run_checks-eq-calls}
use version_control_tools_fx.Hooks.Roots.{Changeset, single_root}
use version_control_tools_fx.Hooks.Subrepos.{hgsub}
use version_control_tools_fx.Hooks.Checks.{
  Commit, Peer, Parsers, webidl_check, webidl_passes, is_peer_nick,
}
use version_control_tools_fx.Hooks.Roots.{member}
use version_control_tools_fx.Hooks.Manifests.{Line, text_ltb, get_changed_files}
use version_control_tools_fx.Hooks.Manifests.Merge.{
  entry, entry_eq, IsSorted, get_changed_files-entry,
}

abbrev root : Changeset
root = record { rev = 4; node = codes "n"; p1_is_null = true; files = hgsub ∷ [] }

abbrev roots : Check (List Text) Changeset
roots = single_root false (codes "m" ∷ [])

calls_example :
    run_checks (roots ∷ roots ∷ []) (root ∷ root ∷ []) []
    ≡ exit (
        run_calls
          (calls (roots ∷ roots ∷ []) (root ∷ root ∷ []))
          (pre_checks (roots ∷ roots ∷ []) []))
calls_example = run_checks-eq-calls (roots ∷ roots ∷ []) (root ∷ root ∷ []) []

abbrev disables : Text → Option Text
disables name = some (codes "false")

abbrev commit : Commit
commit = record {
  node = codes "n";
  user = codes "a";
  description = codes "Bug 1 r=b";
  files = codes "dom/webidl/Node.webidl" ∷ [];
  parents = 1;
  links = λ f. false;
  trivial_merge = false;
  arcconfig = [];
}

-- No address is a peer's and `b` reviews each changeset.
abbrev parsers : Parsers
parsers = record { email = λ t. t; is_backout = λ t. false; requal_reviewers = λ t. codes "b" ∷ [] }

abbrev peers : List Peer
peers = record { nick = codes "smaug" ∷ []; email = [] } ∷ []

webidl_refused :
    (run_checks
      (webidl_check parsers peers true (codes "l") (codes "tip") ∷ [])
      (commit ∷ [])
      true).0
    ≡ 1
unfolding run_checks webidl_passes is_peer_nick text_eq starts_with ends_with contains
webidl_refused = refl

-- `b` is changed, and `c` is added.
abbrev before_push : List Line
before_push = (codes "a", codes "1") ∷ (codes "b", codes "2") ∷ []

abbrev after_push : List Line
after_push = (codes "a", codes "1") ∷ (codes "b", codes "3") ∷ (codes "c", codes "4") ∷ []

before_push-IsSorted : IsSorted before_push
unfolding text_ltb
before_push-IsSorted = ((refl, tt), (tt, tt))

after_push-IsSorted : IsSorted after_push
unfolding text_ltb
after_push-IsSorted = ((refl, (refl, tt)), ((refl, tt), (tt, tt)))

changed_files_example :
    member (codes "c") (get_changed_files before_push after_push)
    ≡ not (entry_eq (entry (codes "c") before_push) (entry (codes "c") after_push))
changed_files_example =
    get_changed_files-entry (codes "c") before_push after_push before_push-IsSorted
      after_push-IsSorted

changed_files : get_changed_files before_push after_push ≡ codes "b" ∷ codes "c" ∷ []
unfolding get_changed_files
changed_files = refl
