-- ===== src/Hooks/Checks.antt =====
-- The checks of check/ that keep no more than one flag: symlinks, cross-channel messages,
-- try_task_config.json, wptsync, repositories that changesets are locked to, merge day, and the
-- reviews of WebIDL and of synchronous IPC. An exception that leaves a check refuses the push, as
-- `false` does. Mercurial's matcher and the parsers of addresses and of commit messages are
-- arguments, as are the lists of peers and of files.
pub mod Stateless
pub mod Reviews
pub mod Arcconfig
use version_control_tools_fx.Base.{
  ℕ, suc, Bool, true, false, not, ◌&&◌, ◌||◌, List, [], ◌∷◌, ◌++◌, map, Option, none, some, Text,
  codes, text_eq, any, all, drop, length, ltb, starts_with, ends_with, contains, split_on, ◌==◌,
  if◌then◌else◌,
}
use version_control_tools_fx.Base.Words.{splitlines}
use version_control_tools_fx.Hooks.Guards.{lower}
use version_control_tools_fx.Hooks.Extension.{Check}

-- What the checks read of a changeset: `links` says which files have the flag `l`, and
-- `trivial_merge` that the diff to the first parent is empty.
pub record Commit : Type 0 where
  pub node : Text
  pub user : Text
  pub description : Text
  pub files : List Text
  pub parents : ℕ
  pub links : Text → Bool
  pub trivial_merge : Bool
  pub arcconfig : Text

-- A check that keeps nothing.
abbrev pub plain : {S : Type 0} → Text → Bool → (Commit → Bool) → Check S Commit
plain name relevant passes = record {
  name = name;
  relevant = relevant;
  pre = λ s. s;
  check = λ c s. (passes c, s);
  post_check = λ s. (true, s);
}

-- `PreventSymlinksCheck`
abbrev pub no_links : Commit → Bool
no_links c = not (any c.links c.files)

abbrev pub prevent_symlinks : {S : Type 0} → Bool → Check S Commit
prevent_symlinks user_repo = plain (codes "prevent_symlinks") (not user_repo) no_links

-- `XChannelMessageCheck`
unfoldable pub no_x_channel : Commit → Bool
unfolding splitlines starts_with
no_x_channel c =
    not (any (λ (l : Text). starts_with l (codes "X-Channel-")) (splitlines c.description))

abbrev pub x_channel_message : {S : Type 0} → Bool → Bool → Check S Commit
x_channel_message firefox thunderbird =
    plain (codes "x_channel_message") (firefox || thunderbird) no_x_channel

-- `TryConfigCheck`
unfoldable pub no_try_config : Commit → Bool
unfolding text_eq
no_try_config c = not (any (text_eq (codes "try_task_config.json")) c.files)

abbrev pub try_task_config : {S : Type 0} → Bool → Check S Commit
try_task_config firefox_releasing = plain (codes "try_task_config") firefox_releasing no_try_config

-- `allowed_paths.match`; paths hold no line breaks
unfoldable pub wpt_path : Text → Bool
unfolding starts_with text_eq
wpt_path path =
    let root = codes "testing/web-platform/" in
    let rest = drop (length root) path in
    starts_with path root
    && (text_eq rest (codes "moz.build")
        || starts_with rest (codes "meta/")
        || starts_with rest (codes "tests/"))

-- `WPTSyncCheck`, for the repository at `path`
unfoldable pub wptsync_passes : Text → Commit → Bool
unfolding wpt_path text_eq
wptsync_passes path c =
    if text_eq path (codes "try")
    then true
    else if text_eq path (codes "integration/autoland")
    then all wpt_path c.files
    else false

abbrev pub wptsync_check : {S : Type 0} → Text → Text → Check S Commit
wptsync_check user path =
    plain (codes "wptsync_check") (text_eq user (codes "wptsync@mozilla.com")) (wptsync_passes path)

-- `word.split(b"REPO-", 1)[1]` for each word with it
unfoldable pub behind_lock : Text → Option Text
unfolding starts_with
behind_lock [] = none
behind_lock (x ∷ xs) =
    let rest = behind_lock xs in
    if starts_with (x ∷ xs) (codes "REPO-") then some (drop 5 (x ∷ xs)) else rest

unfoldable pub locked_to_repos : List Text → List Text
unfolding behind_lock
locked_to_repos [] = []
locked_to_repos (w ∷ ws) =
    let rest = locked_to_repos ws in elim (behind_lock w) [ none ↦ rest | some r ↦ r ∷ rest ]

abbrev pub last_part : List Text → Text
last_part [] = []
last_part (p ∷ []) = p
last_part (p ∷ q ∷ ps) = last_part (q ∷ ps)

abbrev pub lock_passes : Text → List Text → Bool
lock_passes repo [] = true
lock_passes repo (r ∷ rs) =
    if any (λ (l : Text). contains l (codes "/")) (r ∷ rs)
    then false
    else any (λ (l : Text). text_eq l repo) (r ∷ rs)

-- `RepoLockedCheck`; a description without a line has no title
unfoldable pub repolocked_passes : Text → Commit → Bool
unfolding splitlines split_on locked_to_repos contains
repolocked_passes path c = elim (splitlines c.description) [
  | [] ↦ false
  | title ∷ ls ↦ lock_passes (last_part (split_on 47 path)) (locked_to_repos (split_on 32 title))
]

abbrev pub repolocked_check : {S : Type 0} → Text → Check S Commit
repolocked_check path =
    plain (codes "repolocked_check") (not (text_eq path (codes "try"))) (repolocked_passes path)

-- `MergeDayCheck.check`: whether the repository is one of the user's, what the unified repository
-- has, and the matcher of the allowed files
abbrev pub merge_day_passes : Bool → (Text → Bool) → (Text → Bool) → Commit → Bool
merge_day_passes own_repo unified matcher c =
    if not own_repo
    then false
    else if unified c.node
    then true
    else if c.parents == 2 && not c.trivial_merge
    then false
    else all matcher c.files

abbrev pub merge_day : {S : Type 0} → Bool → Bool → (Text → Bool) → (Text → Bool) → Check S Commit
merge_day merge_user own_repo unified matcher =
    plain (codes "merge_day") merge_user (merge_day_passes own_repo unified matcher)

-- A peer, and what the parsers answer.
pub record Peer : Type 0 where
  pub nick : List Text
  pub email : List Text

pub record Parsers : Type 0 where
  pub email : Text → Text
  pub is_backout : Text → Bool
  pub requal_reviewers : Text → List Text

unfoldable pub is_peer_email : List Peer → Text → Bool
unfolding text_eq
is_peer_email peers email = any (λ (p : Peer). any (text_eq (lower email)) p.email) peers

unfoldable pub is_peer_nick : List Peer → Text → Bool
unfolding text_eq
is_peer_nick peers nick = any (λ (p : Peer). any (text_eq (lower nick)) p.nick) peers

abbrev pub reviewed : Parsers → List Peer → Commit → Bool
reviewed parsers peers c = any (is_peer_nick peers) (parsers.requal_reviewers c.description)

-- `b"a=release" in self.repo[b"tip"].description().lower()`
abbrev pub is_uplift : Text → Bool
is_uplift tip_description = contains (lower tip_description) (codes "a=release")

-- `WebIDLCheck.check` behind the test for an uplift, with the counts of files
unfoldable pub keep_files : (Text → Bool) → List Text → List Text
keep_files p [] = []
keep_files p (f ∷ fs) = let rest = keep_files p fs in if p f then f ∷ rest else rest

abbrev pub is_webidl : Text → Bool
is_webidl f = ends_with f (codes ".webidl")

abbrev pub is_chrome : Text → Bool
is_chrome f = starts_with f (codes "dom/chrome-webidl/")

unfoldable pub webidl_passes : Parsers → List Peer → Commit → Bool
unfolding keep_files is_peer_email is_peer_nick
webidl_passes parsers peers c =
    let webidl_files = keep_files is_webidl c.files in
    let total = length webidl_files in
    let chrome = length (keep_files is_chrome webidl_files) in
    if ltb 1 c.parents
    then true
    else if parsers.is_backout c.description
    then true
    else if total == 0
    then true
    else if is_peer_email peers (parsers.email c.user)
    then true
    else if chrome == total
    then true
    else reviewed parsers peers c

-- `SyncIPCCheck.check` behind the test for an uplift
unfoldable pub ipcsync_passes : Parsers → List Peer → Commit → Bool
unfolding keep_files is_peer_email is_peer_nick text_eq
ipcsync_passes parsers peers c =
    if ltb 1 c.parents
    then true
    else if parsers.is_backout c.description
    then true
    else if not (any (text_eq (codes "ipc/ipdl/sync-messages.ini")) c.files)
    then true
    else if is_peer_email peers (parsers.email c.user)
    then true
    else reviewed parsers peers c

-- A check whose state is `is_uplift`.
abbrev pub unless_uplift : Text → Bool → Text → (Commit → Bool) → Check Bool Commit
unless_uplift name relevant tip_description passes = record {
  name = name;
  relevant = relevant;
  pre = λ s. is_uplift tip_description;
  check = λ c s. (if s then true else passes c, s);
  post_check = λ s. (true, s);
}

abbrev pub webidl_check : Parsers → List Peer → Bool → Text → Text → Check Bool Commit
webidl_check parsers peers firefox_releasing owner tip =
    unless_uplift (codes "webidl_check")
      (firefox_releasing && not (text_eq owner (codes "scm_allow_direct_push"))) tip
      (webidl_passes parsers peers)

abbrev pub ipcsync_check : Parsers → List Peer → Bool → Text → Text → Check Bool Commit
ipcsync_check parsers peers firefox_releasing owner tip =
    unless_uplift (codes "ipcsync_check")
      (firefox_releasing && not (text_eq owner (codes "scm_allow_direct_push"))) tip
      (ipcsync_passes parsers peers)
