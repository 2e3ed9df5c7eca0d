-- ===== src/Consumer/Heads/Outcome.antt =====
-- What `process_hg_heads` leaves behind.
use mathlib.Core.Path.{subst}
use version_control_tools_fx.Base.{
  dirname, text_eq-longer, ◌∙◌, ℕ, ◌≡◌, refl, true, false, not, List, [], Option, none, some, Text,
  text_eq, text_eq_iff, any, length, ◌==◌, arith, Bool-cases, inl, inr,
}
use version_control_tools_fx.Base.Result.{Result, ok, err, value_error, type_error}
use version_control_tools_fx.Consumer.Files.{Node, file, directory, Fs, put}
use version_control_tools_fx.Consumer.Process.{Settings, write_file}
use version_control_tools_fx.Consumer.Heads.{
  unhexlify_all, data_path, tmp_path, put_in_place, process_hg_heads, log_push_id,
}

module _ (cbor : Option ℕ → List (List ℕ) → List ℕ) (now : ℕ) (s : Settings) (path : Text) where
  -- A head that is not 40 characters long is refused before anything is written.
  pub heads_refused :
      (heads : List Text) (last_push_id : Option ℕ) (fs : Fs)
      → any (λ h. not (length h == 40)) heads ≡ true
      → process_hg_heads cbor now s path heads last_push_id fs ≡ (err value_error, fs)
  unfolding process_hg_heads
  heads_refused heads last_push_id fs bad = rw bad

-- The nodes that can be written as a file.
abbrev pub NotDirectory : Option Node → Type 0
NotDirectory (some directory) = ⊥
NotDirectory _ = Unit

write_file-done :
    (now : ℕ) (p : Text) (content : List ℕ) (fs : Fs)
    → fs (dirname p) ≡ some directory
    → NotDirectory (fs p)
    → write_file now p content fs ≡ (ok tt, put p (some (file content now)) fs)
unfolding write_file
write_file-done now p content fs d free = go (fs p) refl free
  where
    go :
        (o : Option Node)
        → fs p ≡ o
        → NotDirectory o
        → write_file now p content fs ≡ (ok tt, put p (some (file content now)) fs)
    go none e f = rw (d, write_file, e) refl
    go (some (file c m)) e f = rw (d, write_file, e) refl
    go (some directory) e f = absurd f

-- The new file takes the old one's place with its own time of modification.
put_in_place-done :
    (tmp dest : Text) (content c : List ℕ) (now old : ℕ) (fs : Fs)
    → text_eq dest tmp ≡ false
    → fs tmp ≡ some (file content now)
    → fs dest ≡ some (file c old)
    → ((put_in_place tmp dest fs).0 ≡ ok tt)
      × ((put_in_place tmp dest fs).1 dest ≡ some (file content now))
unfolding put_in_place
put_in_place-done tmp dest content c now old fs other new there =
    ground (
      arith,
      text_eq_iff dest dest,
      text_eq_iff dest tmp,
      text_eq_iff tmp dest,
      text_eq_iff tmp tmp,
    )

-- What `process_hg_heads` meets where a file of replicated data is there already.
pub record Replaces (s : Settings) (path : Text) (heads : List Text) (fs : Fs) : Type 0 where
  pub lengths : any (λ h. not (length h == 40)) heads ≡ false
  pub nodes : List (List ℕ)
  pub decoded : unhexlify_all heads ≡ ok nodes
  pub in_directory : fs (dirname (tmp_path s path)) ≡ some directory
  pub tmp_free : NotDirectory (fs (tmp_path s path))
  pub old : List ℕ
  pub old_mtime : ℕ
  pub there : fs (data_path s path) ≡ some (file old old_mtime)

put_self : (p : Text) (n : Option Node) (fs : Fs) → put p n fs p ≡ n
unfolding put
put_self p n fs = ground (arith, text_eq_iff p p)

put-ne : (p q : Text) (n : Option Node) (fs : Fs) → text_eq p q ≡ false → put p n fs q ≡ fs q
unfolding put
put-ne p q n fs h = rw h

text_eq_sym : (a b : Text) → text_eq a b ≡ false → text_eq b a ≡ false
text_eq_sym a b h = ground (arith, text_eq_iff a b, text_eq_iff b a)

-- `"%d" % last_push_id`
abbrev pub logged : Option ℕ → Result (Unit {0})
logged none = err type_error
logged (some id) = ok tt

log_push_id_lem :
    (id : Option ℕ) (fs : Fs) → ((log_push_id id fs).0 ≡ logged id) × ((log_push_id id fs).1 ≡ fs)
log_push_id_lem none fs = (refl, refl)
log_push_id_lem (some id) fs = (refl, refl)

-- A directory is not where a file may be written.
dirname-ne :
    (p : Text) (fs : Fs)
    → fs (dirname p) ≡ some directory
    → NotDirectory (fs p)
    → text_eq p (dirname p) ≡ false
dirname-ne p fs d free = elim (Bool-cases (text_eq p (dirname p))) [
  | inl same ↦
      let e : p ≡ dirname p = (text_eq_iff p (dirname p)).0 same in
      absurd (subst NotDirectory (rw (← e) at d) free)
  | inr other ↦ other
]

module _ (cbor : Option ℕ → List (List ℕ) → List ℕ) (now : ℕ) (s : Settings) (path : Text) where
  -- Where a file of replicated data is there and the heads are well formed, it is replaced, and has the time of its own writing. A message
  -- with no push id is answered by a `TypeError`, once the file is there.
  pub heads_replaced :
      (heads : List Text) (last_push_id : Option ℕ) (fs : Fs) (r : Replaces s path heads fs)
      → ((process_hg_heads cbor now s path heads last_push_id fs).1 (data_path s path)
          ≡ some (file (cbor last_push_id r.nodes) now))
        × ((process_hg_heads cbor now s path heads last_push_id fs).0 ≡ logged last_push_id)
  unfolding process_hg_heads
  heads_replaced heads last_push_id fs r =
      let tmp = tmp_path s path in
      let dest = data_path s path in
      let other : text_eq dest tmp ≡ false = text_eq-longer dest _ _ in
      let fs1 = put tmp (some (file [] now)) fs in
      let first = write_file-done now tmp [] fs r.in_directory r.tmp_free in
      let dir1 : fs1 (dirname tmp) ≡ some directory =
        put-ne tmp (dirname tmp) _ fs (dirname-ne tmp fs r.in_directory r.tmp_free)
        ∙ r.in_directory in
      let free1 : NotDirectory (fs1 tmp) = rw (put_self tmp (some (file [] now)) fs) tt in
      let content = cbor last_push_id r.nodes in
      let second = write_file-done now tmp content fs1 dir1 free1 in
      let fs2 = put tmp (some (file content now)) fs1 in
      let there2 : fs2 dest ≡ some (file r.old r.old_mtime) =
        put-ne tmp dest _ fs1 (text_eq_sym dest tmp other)
        ∙ put-ne tmp dest _ fs (text_eq_sym dest tmp other)
        ∙ r.there in
      let placed =
        put_in_place-done tmp dest content r.old now r.old_mtime fs2 other (put_self tmp _ fs1)
          there2 in
      let (result, kept) = log_push_id_lem last_push_id (put_in_place tmp dest fs2).1 in
      rw (r.lengths, first, r.decoded, second, placed.0) (rw kept placed.1, result)
