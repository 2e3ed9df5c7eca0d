-- ===== src/Aggregator/Copy/Effects.antt =====
-- What `_copy_messages` has sent and committed, whatever Kafka answers.
use version_control_tools_fx.Base.{
  ℕ, zero, suc, ◌+◌, ◌≤◌, sym, ◌∙◌, ◌≡◌, refl, Bool, true, false, List, [], ◌∷◌, ◌++◌, take, length,
  All, arith, append_assoc, ◌⊎◌, inl, inr,
}
use version_control_tools_fx.Base.Result.{Error, ok, err, Result-cases}
use version_control_tools_fx.Aggregator.Copy.{
  Received, Delivery, nothing, broken, got, Poll, Effect, send, commit, Copying, copy_one,
  copy_loop, after,
}
use version_control_tools_fx.Aggregator.Copy.Single.{IsTaken, tries, copy_one-ok, copy_one-err}

-- The messages that the polls deliver, in order.
abbrev pub deliveries : List Poll → List (Received × Delivery)
deliveries [] = []
deliveries ((got m d, quiet) ∷ ps) = (m, d) ∷ deliveries ps
deliveries ((nothing, quiet) ∷ ps) = deliveries ps
deliveries ((broken e, quiet) ∷ ps) = deliveries ps

-- What is owed to messages whose copies go through: each one is sent, and then the offset of its
-- partition is committed.
abbrev pub copied : List (Received × Delivery) → List Effect
copied [] = []
copied ((m, d) ∷ ms) = tries m d ++ commit m.partition ∷ copied ms

-- The sends of the message at a position.
abbrev pub tries_at : ℕ → List (Received × Delivery) → List Effect
tries_at n [] = []
tries_at zero ((m, d) ∷ ms) = tries m d
tries_at (suc n) (x ∷ ms) = tries_at n ms

-- The copies that went through are the first messages that the polls delivered, and they make up
-- the count with what is left. Behind their sends and commits stand at most the sends of the next
-- message.
pub record Copied (count : ℕ) (polls : List Poll) (c : Copying) : Type 0 where
  pub done : ℕ
  pub counted : done + c.left ≡ count
  pub delivered : done ≤ length (deliveries polls)
  pub went_through : All (λ x. IsTaken x.0 x.1) (take done (deliveries polls))
  pub tail : List Effect
  pub effects_are : c.effects ≡ copied (take done (deliveries polls)) ++ tail
  pub tail_is : (tail ≡ []) ⊎ (tail ≡ tries_at done (deliveries polls))

Copied-nothing :
    (count : ℕ) (polls : List Poll) (c : Copying)
    → c.left ≡ count
    → (c.effects ≡ []) ⊎ (c.effects ≡ tries_at 0 (deliveries polls))
    → Copied count polls c
Copied-nothing count polls c l e = record {
  done = 0;
  counted = omega arith;
  delivered = omega arith;
  went_through = tt;
  tail = c.effects;
  effects_are = refl;
  tail_is = e;
}

-- A copy that went through stands in front.
Copied-after :
    (n : ℕ) (quiet : Bool) (ps : List Poll) (c : Copying) (m : Received) (d : Delivery)
    → (copy_one m d).1 ≡ ok tt
    → Copied n ps c
    → Copied (suc n) ((got m d, quiet) ∷ ps) (after (copy_one m d).0 c)
Copied-after n quiet ps c m d through k =
    let (taken, e) = copy_one-ok m d through in
    record {
      done = suc k.done;
      counted = omega (arith, k.counted);
      delivered = omega (arith, k.delivered);
      went_through = (taken, k.went_through);
      tail = k.tail;
      effects_are =
          rw (k.effects_are, e)
            (append_assoc (tries m d) (commit m.partition ∷ []) _
              ∙ sym (append_assoc (tries m d) _ k.tail));
      tail_is = k.tail_is;
    }

-- Whatever Kafka answers and whenever a signal arrives: the first delivered messages, as many as
-- were taken off the count, said when they were created and were taken by Kafka. Each was sent to
-- partition 0, once or, where the first attempt was refused, twice, with the time and the partition of
-- the original, and then its partition's offset was committed. Behind that stand no commit and no
-- send but those of the next delivered message.
pub copy_loop-Copied :
    (count : ℕ) (alive : Bool) (polls : List Poll)
    → Copied count polls (copy_loop count alive polls)
unfolding copy_loop
copy_loop-Copied zero alive polls = Copied-nothing 0 polls _ refl (inl refl)
copy_loop-Copied (suc n) false polls = Copied-nothing (suc n) polls _ refl (inl refl)
copy_loop-Copied (suc n) true [] = Copied-nothing (suc n) [] _ refl (inl refl)
copy_loop-Copied (suc n) true ((nothing, quiet) ∷ ps) =
    let k = copy_loop-Copied (suc n) quiet ps in
    record {
      done = k.done;
      counted = k.counted;
      delivered = k.delivered;
      went_through = k.went_through;
      tail = k.tail;
      effects_are = k.effects_are;
      tail_is = k.tail_is;
    }
copy_loop-Copied (suc n) true ((broken e, quiet) ∷ ps) =
    Copied-nothing (suc n) ((broken e, quiet) ∷ ps) _ refl (inl refl)
copy_loop-Copied (suc n) true ((got m d, quiet) ∷ ps) = elim (Result-cases (copy_one m d).1) [
  | inl (u, through) ↦
      rw (through, copy_loop) (Copied-after n quiet ps _ m d through (copy_loop-Copied n quiet ps))
  | inr (e, failed) ↦
      rw (failed, copy_loop)
        (Copied-nothing (suc n) ((got m d, quiet) ∷ ps) _ refl (copy_one-err m d e failed))
]

-- How many offsets have been committed.
abbrev pub commits : List Effect → ℕ
commits [] = 0
commits (send m ∷ es) = commits es
commits (commit p ∷ es) = suc (commits es)

commits-append : (xs ys : List Effect) → commits (xs ++ ys) ≡ commits xs + commits ys
commits-append [] ys = omega arith
commits-append (send m ∷ xs) ys = commits-append xs ys
commits-append (commit p ∷ xs) ys = omega (arith, commits-append xs ys)

commits-tries : (m : Received) (d : Delivery) → commits (tries m d) ≡ 0
commits-tries m d = ground arith

commits-copy_one :
    (m : Received) (d : Delivery) → (copy_one m d).1 ≡ ok tt → commits (copy_one m d).0 ≡ 1
commits-copy_one m d h =
    rw (copy_one-ok m d h).1
      (omega (arith, commits-append (tries m d) (commit m.partition ∷ []), commits-tries m d))

commits-copy_one_err :
    (m : Received) (d : Delivery) (e : Error)
    → (copy_one m d).1 ≡ err e
    → commits (copy_one m d).0 ≡ 0
commits-copy_one_err m d e h = elim (copy_one-err m d e h) [
  | inl nothing_sent ↦ rw nothing_sent refl
  | inr sent ↦ rw sent (commits-tries m d)
]

-- One offset is committed for each message that is taken off the count.
pub commits-copy_loop :
    (count : ℕ) (alive : Bool) (polls : List Poll)
    → commits (copy_loop count alive polls).effects + (copy_loop count alive polls).left ≡ count
unfolding copy_loop
commits-copy_loop zero alive polls = refl
commits-copy_loop (suc n) false polls = omega arith
commits-copy_loop (suc n) true [] = omega arith
commits-copy_loop (suc n) true ((nothing, quiet) ∷ ps) = commits-copy_loop (suc n) quiet ps
commits-copy_loop (suc n) true ((broken e, quiet) ∷ ps) = omega arith
commits-copy_loop (suc n) true ((got m d, quiet) ∷ ps) = elim (Result-cases (copy_one m d).1) [
  | inl (u, through) ↦
      rw (through, copy_loop)
        (omega (
          arith,
          commits-append (copy_one m d).0 (copy_loop n quiet ps).effects,
          commits-copy_one m d through,
          commits-copy_loop n quiet ps,
        ))
  | inr (e, failed) ↦ rw (failed, copy_loop) (omega (arith, commits-copy_one_err m d e failed))
]
