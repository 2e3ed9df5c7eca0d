-- ===== src/Config/Tests.antt =====
-- A mirror's configuration.
use version_control_tools_fx.Base.{
  arith, ◌≡◌, ◌≢◌, refl, true, List, [], ◌∷◌, ◌++◌, none, some, Text, codes, text_eq, starts_with,
  assign, split_on,
}
use version_control_tools_fx.Base.Result.{ok}
use version_control_tools_fx.Config.Rewrite.{Rules, replace}
use version_control_tools_fx.Config.Rewrite.Laws.{FirstRule, first, later, replace-prefix}
use version_control_tools_fx.Config.Client.{
  SimpleClient, ConnectAttempt, unavailable, connect, has_ended, connect-ends,
}
use version_control_tools_fx.Config.Filter.{Filters}
use version_control_tools_fx.Config.Load.{Sections, load_filters}
use version_control_tools_fx.Config.Load.Answers.{IsPathRule}

abbrev wire_root : Text
wire_root = codes "{moz}"

abbrev local_root : Text
local_root = codes "/repo"

abbrev repo : Text
repo = codes "/try"

not_empty : wire_root ≢ []
not_empty e = cc

abbrev url : Text
url = codes "https://hg"

abbrev urls : Rules
urls = (local_root, codes "ssh:") ∷ (wire_root, url) ∷ []

fits_second : FirstRule urls (wire_root ++ repo) url repo
unfolding starts_with
fits_second = later refl (first refl)

replace-prefix_example :
    replace (wire_root ++ repo) wire_root url ≡ url ++ replace repo wire_root url
replace-prefix_example = replace-prefix wire_root url repo not_empty

abbrev earlier : List (Text × Text)
earlier = (codes "exclude.e", codes "path:/try") ∷ (codes "include.r", codes "re:.*") ∷ []

abbrev sections : Sections
sections = record {
  items = λ name. some (earlier ++ (codes "include.t", codes "path:/try") ∷ []);
  compile = λ pattern. some (λ r. some (codes "r" ∷ []));
}

abbrev loaded : Filters
loaded = record {
  has_filters = true;
  path_includes = (repo, codes "t") ∷ [];
  path_excludes = (repo, codes "e") ∷ [];
  include_regex = some (λ r. some (codes "r" ∷ []));
  exclude_regex = none;
}

loads : load_filters sections ≡ ok loaded
unfolding load_filters split_on text_eq assign
loads = refl

is_rule : IsPathRule "include" (codes "t") repo (codes "include.t") (codes "path:/try")
unfolding split_on
is_rule = record { key_parts = refl; value_parts = refl }

abbrev client : SimpleClient
client = record { hosts = codes "h"; client_id = codes "c"; timeout = 60 }

-- Kafka is not there at first, and a tenth of a second later.
abbrev refused_twice : List ConnectAttempt
refused_twice = unavailable 5 ∷ unavailable 100005 ∷ []

connect_example : has_ended (connect client (some 0) 5 refused_twice) ≡ true
connect_example =
    connect-ends client 0 5 refused_twice (omega arith, (omega arith, tt)) (omega arith)
