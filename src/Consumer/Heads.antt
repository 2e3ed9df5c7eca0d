-- ===== src/Consumer/Heads.antt =====
-- `process_hg_heads` of consumer.py: the file of replicated data, and its time of modification.
-- The CBOR encoder is an argument.
pub mod Outcome
use version_control_tools_fx.Base.{
  ℕ, suc, ◌+◌, ◌*◌, ◌-◌, Bool, true, false, not, ◌&&◌, List, [], ◌∷◌, ◌++◌, Option, none, some,
  Text, codes, leb, ◌==◌, any, length, if◌then◌else◌,
}
use version_control_tools_fx.Base.Result.{
  Result, Error, ok, err, value_error, type_error, os_error, ◌>>=◌ as bind,
}
use version_control_tools_fx.Consumer.Files.{Node, file, directory, Fs, put, join_path}
use version_control_tools_fx.Consumer.Io.{Io, ◌>>=◌, ◌>>◌, pure, raise, lift, gets, modify}
use version_control_tools_fx.Consumer.Process.{Settings, local_path, write_file}

abbrev pub hex_digit : ℕ → Option ℕ
hex_digit c =
    if leb b'0' c && leb c b'9'
    then some (c - b'0')
    else if leb b'a' c && leb c b'f'
    then some (c - b'a' + 10)
    else if leb b'A' c && leb c b'F'
    then some (c - b'A' + 10)
    else none

abbrev pub hex_byte : Option ℕ → Option ℕ → Result (List ℕ) → Result (List ℕ)
hex_byte (some hi) (some lo) (ok rest) = ok ((hi * 16 + lo) ∷ rest)
hex_byte (some hi) (some lo) (err e) = err e
hex_byte _ _ rest = err value_error

-- `binascii.unhexlify`, whose error is a `ValueError`
unfoldable pub unhexlify : Text → Result (List ℕ)
unhexlify [] = ok []
unhexlify (c ∷ []) = err value_error
unhexlify (c ∷ d ∷ cs) = hex_byte (hex_digit c) (hex_digit d) (unhexlify cs)

unfoldable pub unhexlify_all : List Text → Result (List (List ℕ))
unfolding unhexlify
unhexlify_all [] = ok []
unhexlify_all (h ∷ hs) = bind (unhexlify h) (λ b. bind (unhexlify_all hs) (λ bs. ok (b ∷ bs)))

abbrev pub data_path : Settings → Text → Text
data_path s path = join_path (join_path (local_path s path) (codes ".hg")) (codes "replicated-data")

abbrev pub tmp_path : Settings → Text → Text
tmp_path s path = data_path s path ++ codes ".tmp"

-- `os.stat(p).st_mtime`, or 0 where there is nothing; a directory's time is not modelled
abbrev pub mtime_or_zero : Option Node → ℕ
mtime_or_zero (some (file content mtime)) = mtime
mtime_or_zero _ = 0

-- `os.utime(p, (t, t))`
unfoldable pub utime : ℕ → Text → Io (Unit {0})
unfolding put
utime t p fs = elim (fs p) [
  | some (file content mtime) ↦ (ok tt, put p (some (file content t)) fs)
  | some directory ↦ (ok tt, fs)
  | none ↦ (err os_error, fs)
]

-- `os.rename(src, dst)` of a file
unfoldable pub rename_file : Text → Text → Io (Unit {0})
unfolding put
rename_file src dst fs = elim (fs dst) [
  | some directory ↦ (err os_error, fs)
  | _ ↦ elim (fs src) [
    | none ↦ (err os_error, fs)
    | some n ↦ (ok tt, put dst (some n) (put src none fs))
  ]
]

-- Behind the file's writing: the time is advanced, and the file is put in place.
unfoldable pub put_in_place : Text → Text → Io (Unit {0})
unfolding utime rename_file
put_in_place tmp dest = do
  old_mtime ← gets (λ fs. mtime_or_zero (fs dest))
  new_mtime ← gets (λ fs. mtime_or_zero (fs tmp))
  if leb new_mtime (old_mtime + 2) then utime (old_mtime + 2) dest else pure tt
  rename_file tmp dest

-- The last line logs the push id with `%d`, which `None` is refused by.
abbrev pub log_push_id : Option ℕ → Io (Unit {0})
log_push_id none = raise type_error
log_push_id (some id) = pure tt

-- `process_hg_heads` at the time `now`
unfoldable pub process_hg_heads :
    (Option ℕ → List (List ℕ) → List ℕ) → ℕ → Settings → Text → List Text → Option ℕ → Io (Unit {0})
process_hg_heads cbor now s path heads last_push_id = do
  let dest = data_path s path
  let tmp = tmp_path s path
  if any (λ h. not (length h == 40)) heads then raise value_error else pure tt
  write_file now tmp []
  nodes ← lift (unhexlify_all heads)
  write_file now tmp (cbor last_push_id nodes)
  put_in_place tmp dest
  log_push_id last_push_id
