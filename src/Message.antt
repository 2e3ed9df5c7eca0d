-- ===== src/Message.antt =====
-- The replication messages: pylib/vcsreplicator/vcsreplicator/producer.py (Produce) and
-- `payload_log_display` of util.py (Display). A payload is a decoded JSON object; a field that is
-- `none` is a key that is missing. JSON itself is not modelled.
pub mod Produce
pub mod Display
use version_control_tools_fx.Base.{ℕ, Bool, List, Option, none, Text, String}

pub record Payload : Type 0 where
  pub name : Option String
  pub path : Option Text
  pub generaldelta : Option Bool
  pub content : Option (Option Text)
  pub source : Option Text
  pub nodes : Option (List Text)
  pub nodecount : Option ℕ
  pub heads : Option (List Text)
  pub namespace : Option Text
  pub key : Option Text
  pub old : Option Text
  pub new : Option Text
  pub ret : Option ℕ
  pub requirements : Option (List Text)
  pub hgrc : Option (Option Text)
  pub bootstrap : Option Bool
  pub last_push_id : Option (Option ℕ)
  pub created : Option ℕ
  pub original_created : Option ℕ
  pub original_partition : Option ℕ

-- `{}`
abbrev pub empty : Payload
empty = record {
  name = none;
  path = none;
  generaldelta = none;
  content = none;
  source = none;
  nodes = none;
  nodecount = none;
  heads = none;
  namespace = none;
  key = none;
  old = none;
  new = none;
  ret = none;
  requirements = none;
  hgrc = none;
  bootstrap = none;
  last_push_id = none;
  created = none;
  original_created = none;
  original_partition = none;
}
