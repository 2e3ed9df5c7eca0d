-- ===== src/Hooks/Checks/Reviews.antt =====
-- Which pushes the checks for reviews and for locked repositories let in.
use version_control_tools_fx.Base.{
  ℕ, ◌≤◌, ◌≡◌, refl, ap, ◌∙◌, Bool, true, false, not, ◌&&◌, ◌||◌, List, [], ◌∷◌, Text, any, all,
  length, ltb, arith, ◌==◌, if◌then◌else◌, codes, text_eq,
}
use version_control_tools_fx.Hooks.Extension.{run_checks}
use version_control_tools_fx.Hooks.Checks.{
  Commit, Peer, Parsers, is_peer_email, reviewed, is_uplift, keep_files, is_webidl, is_chrome,
  webidl_passes, webidl_check, ipcsync_passes, ipcsync_check,
}
use version_control_tools_fx.Hooks.Checks.Stateless.{uplift-run_checks}

-- A file of bindings that the web sees.
abbrev pub web_visible : Text → Bool
web_visible f = is_webidl f && not (is_chrome f)

-- One parent, no backout, and no peer as author or reviewer.
abbrev pub unreviewed : Parsers → List Peer → Commit → Bool
unreviewed parsers peers c =
    not (ltb 1 c.parents)
    && not (parsers.is_backout c.description)
    && not (is_peer_email peers (parsers.email c.user))
    && not (reviewed parsers peers c)

length-keep_files : (p : Text → Bool) (fs : List Text) → length (keep_files p fs) ≤ length fs
unfolding keep_files
length-keep_files p [] = omega arith
length-keep_files p (f ∷ fs) = ground (arith, length-keep_files p fs)

-- The counts are equal exactly where no file is left.
counts-eq :
    (p : Text → Bool) (fs : List Text)
    → (length (keep_files p fs) == length fs) ≡ not (any (λ f. not (p f)) fs)
unfolding keep_files
counts-eq p [] = refl
counts-eq p (f ∷ fs) = ground (arith, counts-eq p fs, length-keep_files p fs)

any-keep_files :
    (p q : Text → Bool) (fs : List Text) → any q (keep_files p fs) ≡ any (λ f. p f && q f) fs
unfolding keep_files
any-keep_files p q [] = refl
any-keep_files p q (f ∷ fs) = ground (arith, any-keep_files p q fs)

no_files : (p : Text → Bool) (fs : List Text) → (length fs == 0) ≡ true → any p fs ≡ false
no_files p [] h = refl
no_files p (f ∷ fs) h = absurd (ground (arith, h))

webidl_passes-eq :
    (parsers : Parsers) (peers : List Peer) (c : Commit)
    → webidl_passes parsers peers c ≡ not (any web_visible c.files && unreviewed parsers peers c)
unfolding webidl_passes
webidl_passes-eq parsers peers c =
    let webidl_files = keep_files is_webidl c.files in
    let outside : any (λ f. not (is_chrome f)) webidl_files ≡ any web_visible c.files =
      any-keep_files is_webidl (λ f. not (is_chrome f)) c.files in
    ground (
      arith,
      outside,
      counts-eq is_chrome webidl_files,
      no_files (λ f. not (is_chrome f)) webidl_files,
    )

not_or : (a b : Bool) → (not a && not b) ≡ not (a || b)
not_or true b = refl
not_or false b = refl

all-not :
    (passes bad : Commit → Bool) (cs : List Commit)
    → ((c : Commit) → passes c ≡ not (bad c))
    → all passes cs ≡ not (any bad cs)
all-not passes bad [] h = refl
all-not passes bad (c ∷ cs) h = rw (h c, all-not passes bad cs h) (not_or (bad c) (any bad cs))

if-not : (u x : Bool) → ◌≡◌ {A = ℕ} (if u || not x then 0 else 1) (if not u && x then 1 else 0)
if-not true x = refl
if-not false true = refl
if-not false false = refl

-- A push under WebIDLCheck is refused exactly where it is no uplift and a changeset of it, neither
-- a merge nor a backout and with no peer as author or reviewer, alters a WebIDL file outside the
-- chrome root.
webidl-run_checks :
    (parsers : Parsers) (peers : List Peer) (firefox_releasing : Bool) (owner tip : Text)
    (cs : List Commit) (s : Bool)
    → (run_checks (webidl_check parsers peers firefox_releasing owner tip ∷ []) cs s).0 ≡ (
        if not (is_uplift tip)
          && any (λ c. any web_visible c.files && unreviewed parsers peers c) cs
        then 1
        else 0)
webidl-run_checks parsers peers releasing owner tip cs s =
    uplift-run_checks (codes "webidl_check") _ tip (webidl_passes parsers peers) cs s
    ∙ ap (λ b. if is_uplift tip || b then 0 else 1)
        (all-not (webidl_passes parsers peers)
          (λ c. any web_visible c.files && unreviewed parsers peers c) cs
          (webidl_passes-eq parsers peers))
    ∙ if-not (is_uplift tip) (any (λ c. any web_visible c.files && unreviewed parsers peers c) cs)

abbrev pub sync_messages : Commit → Bool
sync_messages c = any (text_eq (codes "ipc/ipdl/sync-messages.ini")) c.files

ipcsync_passes-eq :
    (parsers : Parsers) (peers : List Peer) (c : Commit)
    → ipcsync_passes parsers peers c ≡ not (sync_messages c && unreviewed parsers peers c)
unfolding ipcsync_passes
ipcsync_passes-eq parsers peers c = ground arith

-- A push under SyncIPCCheck is refused exactly where it is no uplift and a changeset of it, neither
-- a merge nor a backout and with no peer as author or reviewer, alters sync-messages.ini.
pub ipcsync-run_checks :
    (parsers : Parsers) (peers : List Peer) (firefox_releasing : Bool) (owner tip : Text)
    (cs : List Commit) (s : Bool)
    → (run_checks (ipcsync_check parsers peers firefox_releasing owner tip ∷ []) cs s).0 ≡ (
        if not (is_uplift tip) && any (λ c. sync_messages c && unreviewed parsers peers c) cs
        then 1
        else 0)
ipcsync-run_checks parsers peers releasing owner tip cs s =
    uplift-run_checks (codes "ipcsync_check") _ tip (ipcsync_passes parsers peers) cs s
    ∙ ap (λ b. if is_uplift tip || b then 0 else 1)
        (all-not (ipcsync_passes parsers peers) (λ c. sync_messages c && unreviewed parsers peers c)
          cs (ipcsync_passes-eq parsers peers))
    ∙ if-not (is_uplift tip) (any (λ c. sync_messages c && unreviewed parsers peers c) cs)
