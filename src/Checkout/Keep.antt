-- ===== src/Checkout/Keep.antt =====
-- A property of the state that a call keeps, and how calls are put together.
use version_control_tools_fx.Base.{Bool, true, false, if◌then◌else◌}
use version_control_tools_fx.Checkout.Steps.{
  Exception, Answer, gives, raises, State, Step, next, again, raised, M, and_then, ◌>>=◌, ◌>>◌,
  pure, raise, callself, when, answered, disk_of,
}
use version_control_tools_fx.Checkout.Failures.{caught, try_}

-- The state behind a step.
abbrev pub after : {A : Type 0} → Step A → State
after (next a s) = s
after (again s) = s
after (raised e s) = s

-- Whatever holds of the state before the call holds behind it.
pub record Keep {A : Type 0} (P : State → Type 0) (m : M A) : Type 0 where
  pub kept : (s : State) → P s → P (after (m s))

pure-kept : (P : State → Type 0) {A : Type 0} (a : A) (s : State) → P s → P (after (pure a s))
unfolding pure
pure-kept P a s p = p

raise-kept :
    (P : State → Type 0) (A : Type 0) (e : Exception) (s : State)
    → P s
    → P (after (raise {A = A} e s))
unfolding raise
raise-kept P A e s p = p

pub answered-kept :
    (P : State → Type 0) {A : Type 0} (a : Answer A) (s : State) → P s → P (after (answered a s))
unfolding answered pure raise
answered-kept P (gives x) s p = p
answered-kept P (raises e) s p = p

module _ {P : State → Type 0} where
  and_then-Keep :
      {A B : Type 0} (r : Step A) (k : A → M B)
      → P (after r)
      → ((a : A) → Keep P (k a))
      → P (after (and_then r k))
  and_then-Keep (next a s) k p h = (h a).kept s p
  and_then-Keep (again s) k p h = p
  and_then-Keep (raised e s) k p h = p

  pub bind-Keep :
      {A B : Type 0} {m : M A} {k : A → M B}
      → Keep P m
      → ((a : A) → Keep P (k a))
      → Keep P (m >>= k)
  unfolding ◌>>=◌
  bind-Keep {m} {k} h g = record { kept = λ s p. and_then-Keep (m s) k (h.kept s p) g }

  pub then-Keep : {A B : Type 0} {m : M A} {n : M B} → Keep P m → Keep P n → Keep P (m >> n)
  unfolding ◌>>◌
  then-Keep {m} {n} h g = record {
    kept = λ s p. and_then-Keep (m s) (λ _. n) (h.kept s p) (λ _. g);
  }

  pub pure-Keep : {A : Type 0} (a : A) → Keep P (pure a)
  pure-Keep a = record { kept = pure-kept P a }

  pub raise-Keep : {A : Type 0} (e : Exception) → Keep P (raise {A = A} e)
  raise-Keep {A} e = record { kept = raise-kept P A e }

  pub callself-Keep : {A : Type 0} → Keep P (callself {A = A})
  unfolding callself
  callself-Keep = record { kept = λ s p. p }

  pub disk-Keep : Keep P disk_of
  unfolding disk_of
  disk-Keep = record { kept = λ s p. p }

  when-kept : (b : Bool) {m : M (Unit {0})} → Keep P m → (s : State) → P s → P (after (when b m s))
  unfolding when pure
  when-kept true h s p = h.kept s p
  when-kept false h s p = p

  pub when-Keep : (b : Bool) {m : M (Unit {0})} → Keep P m → Keep P (when b m)
  when-Keep b h = record { kept = when-kept b h }

  pub answered-Keep : {A : Type 0} (a : Answer A) → Keep P (answered a)
  answered-Keep a = record { kept = answered-kept P a }

  caught-kept :
      {A : Type 0} (r : Step A) (h : Exception → M A)
      → P (after r)
      → ((e : Exception) → Keep P (h e))
      → P (after (caught r h))
  caught-kept (next a s) h p g = p
  caught-kept (again s) h p g = p
  caught-kept (raised e s) h p g = (g e).kept s p

  try-kept :
      {A : Type 0} (m : M A) (h : Exception → M A)
      → Keep P m
      → ((e : Exception) → Keep P (h e))
      → (s : State) → P s
      → P (after (try_ m h s))
  unfolding try_
  try-kept m h k g s p = caught-kept (m s) h (k.kept s p) g

  pub try-Keep :
      {A : Type 0} {m : M A} {h : Exception → M A}
      → Keep P m
      → ((e : Exception) → Keep P (h e))
      → Keep P (try_ m h)
  try-Keep {m} {h} k g = record { kept = try-kept m h k g }

  pub if-Keep :
      {A : Type 0} (b : Bool) {m n : M A} → Keep P m → Keep P n → Keep P (if b then m else n)
  if-Keep true h k = h
  if-Keep false h k = k
