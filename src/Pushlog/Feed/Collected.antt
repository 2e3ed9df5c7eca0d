-- ===== src/Pushlog/Feed/Collected.antt =====
-- What the JSON views say of a push.
use version_control_tools_fx.Base.{
  ℕ, ◌≡◌, refl, sym, ap, ◌∙◌, Bool, true, false, List, [], ◌∷◌, ◌++◌, append_assoc, append-nil,
  Option, none, some, Text, text_eq, text_eq_iff, find, assign, find-assign, All, ◌==◌, Bool-cases,
  inl, inr, arith,
}
use version_control_tools_fx.Base.Result.{ok}
use version_control_tools_fx.Base.Decimal.{decimal, int, int-decimal}
use version_control_tools_fx.Pushlog.Lookup.{filter_rows}
use version_control_tools_fx.Pushlog.Feed.{Entry}
use version_control_tools_fx.Pushlog.Feed.Worker.{
  Context, shown, hidden, lost, refused, ChangeData, PushData, PushMap, change_data, opened,
  or_opened, in_front, add_node, pushes_worker,
}

decimal-injective : (j k : ℕ) → decimal j ≡ decimal k → j ≡ k
decimal-injective j k h =
    let same : ok j ≡ ok k = sym (int-decimal j) ∙ ap int h ∙ int-decimal k in cc same

-- Numbers have different decimals.
decimal-eq : (j k : ℕ) → text_eq (decimal j) (decimal k) ≡ (j == k)
decimal-eq j k = elim (Bool-cases (j == k)) [
  | inl same ↦
      let is : j ≡ k = ground (arith, same) in
      (text_eq_iff (decimal j) (decimal k)).1 (ap decimal is) ∙ sym same
  | inr apart ↦ elim (Bool-cases (text_eq (decimal j) (decimal k))) [
    | inr differ ↦ differ ∙ sym apart
    | inl equal ↦
        let is : j ≡ k = decimal-injective j k ((text_eq_iff (decimal j) (decimal k)).0 equal) in
        absurd (ground (arith, apart, is))
  ]
]

-- The entries of a push.
abbrev pub own : ℕ → List Entry → List Entry
own k es = filter_rows (λ (e : Entry). e.pushid == k) es

abbrev pub is_answered : Context → Bool
is_answered (refused e) = false
is_answered _ = true

abbrev pub IsAnswered : Context → Type 0
IsAnswered c = is_answered c ≡ true

module _ (lookup : Text → Context) (haveobs full : Bool) where
  abbrev shown_of : Text → Context → List ChangeData
  shown_of node (shown c) = change_data haveobs full node c ∷ []
  shown_of node _ = []

  abbrev hidden_of : Text → Context → List ChangeData
  hidden_of node (hidden c) = change_data haveobs full node c ∷ []
  hidden_of node _ = []

  -- The last entry comes first.
  abbrev pub shown_nodes : List Entry → List ChangeData
  shown_nodes [] = []
  shown_nodes (e ∷ es) = shown_nodes es ++ shown_of e.node (lookup e.node)

  abbrev pub hidden_nodes : List Entry → List ChangeData
  hidden_nodes [] = []
  hidden_nodes (e ∷ es) = hidden_nodes es ++ hidden_of e.node (lookup e.node)

  abbrev onto : List ChangeData → Option (List ChangeData) → Option (List ChangeData)
  onto [] old = old
  onto (n ∷ ns) none = some (n ∷ ns)
  onto (n ∷ ns) (some old) = some ((n ∷ ns) ++ old)

  abbrev with_all : List Entry → PushData → PushData
  with_all es p = record p {
    changesets = shown_nodes es ++ p.changesets;
    obsoletechangesets = onto (hidden_nodes es) p.obsoletechangesets;
  }

  -- The data of a push with these entries.
  abbrev pub data_of : List Entry → Option PushData
  data_of [] = none
  data_of (e ∷ es) = some (with_all (e ∷ es) (opened e))

  abbrev extend : List Entry → Option PushData → Option PushData
  extend [] o = o
  extend (e ∷ es) o = some (with_all (e ∷ es) (or_opened e o))

  abbrev with_one : Text → Context → PushData → PushData
  with_one node c p = record p {
    changesets = shown_of node c ++ p.changesets;
    obsoletechangesets = onto (hidden_of node c) p.obsoletechangesets;
  }

  in_front-onto : (n : ChangeData) (o : Option (List ChangeData)) → in_front n o ≡ onto (n ∷ []) o
  in_front-onto n none = refl
  in_front-onto n (some ns) = refl

  add_node-with_one :
      (node : Text) (c : Context) (p : PushData)
      → IsAnswered c
      → add_node haveobs full node c p ≡ ok (with_one node c p)
  add_node-with_one node (shown c) p h = refl
  add_node-with_one node (hidden c) p h =
      ap (λ o. ok (record p { obsoletechangesets = o }))
        (in_front-onto (change_data haveobs full node c) p.obsoletechangesets)
  add_node-with_one node lost p h = refl
  add_node-with_one node (refused e) p h = absurd (cc h)

  onto-onto :
      (xs ys : List ChangeData) (o : Option (List ChangeData))
      → onto (xs ++ ys) o ≡ onto xs (onto ys o)
  onto-onto [] ys o = refl
  onto-onto (x ∷ xs) [] none = ap (λ zs. some (x ∷ zs)) (append-nil xs)
  onto-onto (x ∷ xs) [] (some o) = ap (λ zs. some (x ∷ (zs ++ o))) (append-nil xs)
  onto-onto (x ∷ xs) (y ∷ ys) none = refl
  onto-onto (x ∷ xs) (y ∷ ys) (some o) = ap (λ zs. some (x ∷ zs)) (append_assoc xs (y ∷ ys) o)

  with_all-cons :
      (e : Entry) (es : List Entry) (p : PushData)
      → with_all es (with_one e.node (lookup e.node) p) ≡ with_all (e ∷ es) p
  with_all-cons e es p =
      ap
        (λ cs. record p {
          changesets = cs;
          obsoletechangesets =
              onto (hidden_nodes es) (onto (hidden_of e.node (lookup e.node)) p.obsoletechangesets);
        })
        (sym (append_assoc (shown_nodes es) (shown_of e.node (lookup e.node)) p.changesets))
      ∙ ap
          (λ os. record p {
            changesets = (shown_nodes es ++ shown_of e.node (lookup e.node)) ++ p.changesets;
            obsoletechangesets = os;
          })
          (sym
            (onto-onto (hidden_nodes es) (hidden_of e.node (lookup e.node)) p.obsoletechangesets))

  extend-some : (es : List Entry) (p : PushData) → extend es (some p) ≡ some (with_all es p)
  extend-some [] p = refl
  extend-some (e ∷ es) p = refl

  step :
      (e : Entry) (es : List Entry) (m : PushMap) (k : ℕ)
      → extend (own k es) (
          find (decimal k) (
            assign
              (decimal e.pushid)
              (with_one e.node (lookup e.node) (or_opened e (find (decimal e.pushid) m)))
              m))
        ≡ extend (own k (e ∷ es)) (find (decimal k) m)
  unfolding filter_rows
  step e es m k =
      let p = with_one e.node (lookup e.node) (or_opened e (find (decimal e.pushid) m)) in
      let found = find-assign (decimal e.pushid) (decimal k) p m in
      elim (Bool-cases (e.pushid == k)) [
        | inl same ↦
            let is : e.pushid ≡ k = ground (arith, same) in
            rw (found, decimal-eq e.pushid k, same)
              (extend-some (own k es) p
                ∙ ap (λ q. some q)
                    (with_all-cons e (own k es) (or_opened e (find (decimal e.pushid) m)))
                ∙ ap (λ n. some (with_all (e ∷ own k es) (or_opened e (find (decimal n) m)))) is)
        | inr apart ↦ rw (found, decimal-eq e.pushid k, apart) refl
      ]

  collects :
      (es : List Entry) (m : PushMap)
      → All (λ (e : Entry). IsAnswered (lookup e.node)) es
      → (m' : PushMap) × (pushes_worker lookup haveobs full es m ≡ ok m')
        × ((k : ℕ) → find (decimal k) m' ≡ extend (own k es) (find (decimal k) m))
  unfolding pushes_worker filter_rows find
  collects [] m h = (m, refl, λ k. refl)
  collects (e ∷ es) m (here, h) =
      let p = with_one e.node (lookup e.node) (or_opened e (find (decimal e.pushid) m)) in
      let (m', ends, says) = collects es (assign (decimal e.pushid) p m) h in
      (
        m',
        rw (add_node-with_one e.node (lookup e.node) (or_opened e (find (decimal e.pushid) m)) here)
            ends,
        λ k. says k ∙ step e es m k,
      )

  -- Where the repository answers for each node, a changeset or that it has none, the JSON has an
  -- item for each push that has an entry and for no other: the user and the date of its first entry,
  -- the changesets that are shown, the last entry first, and those that are hidden, in this order
  -- too, if there are any.
  pub pushes_worker-eq-data :
      (es : List Entry)
      → All (λ (e : Entry). IsAnswered (lookup e.node)) es
      → (m : PushMap) × (pushes_worker lookup haveobs full es [] ≡ ok m)
        × ((k : ℕ) → find (decimal k) m ≡ data_of (own k es))
  unfolding find
  pushes_worker-eq-data es h =
      let (m, ends, says) = collects es [] h in (m, ends, λ k. says k ∙ from_none (own k es))
    where
      from_none : (xs : List Entry) → extend xs none ≡ data_of xs
      from_none [] = refl
      from_none (x ∷ xs) = refl
