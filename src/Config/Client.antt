-- ===== src/Config/Client.antt =====
-- config.py: the options of the parser, and the connection to Kafka that is tried again.
use version_control_tools_fx.Base.{
  ℕ, suc, ◌+◌, ◌-◌, ◌*◌, ◌≤◌, ◌<◌, ◌≡◌, refl, Bool, true, false, List, [], ◌∷◌, Option, none, some,
  String, Text, codes, ltb, length, arith, Bool-cases, inl, inr, if◌then◌else◌,
}
use version_control_tools_fx.Base.Result.{
  Result, Error, ok, value_error, other_error, require, ◌>>=◌,
}
use version_control_tools_fx.Base.Decimal.{int}

-- What `RawConfigParser` answers: whether it has a section, an option in a section, and what it takes
-- a text for where a boolean is asked.
pub record Parser : Type 0 where
  pub has_section : String → Bool
  pub option : String → String → Option Text
  pub boolean : Text → Option Bool

-- `Config.get`; a missing section or option is an error
unfoldable pub get : Parser → String → String → Result Text
get c section option = require other_error (c.option section option)

-- `Config.hg_path`
unfoldable pub hg_path : Parser → Text
hg_path c = if c.has_section "programs" then or_hg (c.option "programs" "hg") else codes "hg"
  where
    or_hg : Option Text → Text
    or_hg none = codes "hg"
    or_hg (some t) = t

-- `Config.is_backup`, with False for an option that is missing
unfoldable pub is_backup : Parser → Result Bool
is_backup c = if c.has_section "consumer" then or_false (c.option "consumer" "backup") else ok false
  where
    or_false : Option Text → Result Bool
    or_false none = ok false
    or_false (some t) = require value_error (c.boolean t)

-- An attempt to connect: it succeeds, or Kafka is not available and the clock then shows this
-- time, or another error is raised. Times are in microseconds.
pub data ConnectAttempt : Type 0 where
  connects : ConnectAttempt
  unavailable : ℕ → ConnectAttempt
  breaks : Error → ConnectAttempt

-- The arguments of `SimpleClient`.
pub record SimpleClient : Type 0 where
  pub hosts : Text
  pub client_id : Text
  pub timeout : ℕ

-- How the loop ends; without another attempt it is still waiting.
pub data Connection : Type 0 where
  connected : SimpleClient → Connection
  no_kafka timed_out : Connection
  failed : Error → Connection
  waiting : Connection

-- The loop, with the time at its start; a timeout of -1 is none, and others are in seconds.
unfoldable pub connect : SimpleClient → Option ℕ → ℕ → List ConnectAttempt → Connection
connect c timeout start [] = waiting
connect c timeout start (connects ∷ rest) = connected c
connect c timeout start (breaks e ∷ rest) = failed e
connect c none start (unavailable now ∷ rest) = no_kafka
connect c (some t) start (unavailable now ∷ rest) =
    let more = connect c (some t) start rest in
    if ltb (start + t * 1000000) now then timed_out else more

abbrev pub connect_timeout : Option Text → Result ℕ
connect_timeout none = ok 60
connect_timeout (some t) = int t

-- `Config.get_client_from_section`
unfoldable pub get_client_from_section :
    Parser → String → Option ℕ → ℕ → List ConnectAttempt → Result Connection
unfolding get connect int
get_client_from_section c section timeout start attempts = do
  hosts ← get c section "hosts"
  client_id ← get c section "client_id"
  seconds ← connect_timeout (c.option section "connect_timeout")
  ok (
      connect (record { hosts = hosts; client_id = client_id; timeout = seconds }) timeout start
        attempts)

-- Each attempt ends a tenth of a second or more behind the one before it, as the loop sleeps for
-- so long in between, and the first not before the start.
abbrev pub Spaced : ℕ → List ConnectAttempt → Type 0
Spaced earliest [] = Unit
Spaced earliest (unavailable now ∷ rest) = (earliest ≤ now) × Spaced (now + 100000) rest
Spaced earliest (_ ∷ rest) = Spaced (earliest + 100000) rest

abbrev pub has_ended : Connection → Bool
has_ended waiting = false
has_ended _ = true

ends_behind :
    (c : SimpleClient) (t start k earliest : ℕ) (attempts : List ConnectAttempt)
    → Spaced earliest attempts
    → start + t * 1000000 < earliest + k * 100000
    → k < length attempts
    → has_ended (connect c (some t) start attempts) ≡ true
unfolding connect
ends_behind c t start k earliest [] s late enough = absurd (omega (arith, enough))
ends_behind c t start k earliest (connects ∷ rest) s late enough = refl
ends_behind c t start k earliest (breaks e ∷ rest) s late enough = refl
ends_behind c t start k earliest (unavailable now ∷ rest) s late enough =
    elim (Bool-cases (ltb (start + t * 1000000) now)) [
      | inl over ↦ rw (connect, over) refl
      | inr in_time ↦
          let time : now ≤ start + t * 1000000 = ground (arith, in_time) in
          let left : suc (k - 1) ≡ k = omega (arith, time, late, s.0) in
          rw (connect, in_time)
            (ends_behind c t start (k - 1) (now + 100000) rest s.1 (omega (arith, late, s.0, left))
              (omega (arith, enough, left)))
    ]

-- With a timeout of `t` seconds the loop ends within ten attempts for each second and two more, with a
-- client or an error, where the clock does not go back.
pub connect-ends :
    (c : SimpleClient) (t start : ℕ) (attempts : List ConnectAttempt)
    → Spaced start attempts
    → t * 10 + 2 ≤ length attempts
    → has_ended (connect c (some t) start attempts) ≡ true
connect-ends c t start attempts s enough =
    ends_behind c t start (t * 10 + 1) start attempts s (omega arith) (omega (arith, enough))
