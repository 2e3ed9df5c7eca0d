-- ===== src/Unify/Covers.antt =====
-- Which nodes are pulled.
use version_control_tools_fx.Base.{
  ◌≡◌, refl, true, List, [], ◌∷◌, ◌++◌, map, Option, none, some, Text, text_eq, text_eq_iff, All,
  arith, Bool-cases, ◌⊎◌, inl, inr,
}
use version_control_tools_fx.Base.Result.{ok}
use version_control_tools_fx.Hooks.Roots.{member}
use version_control_tools_fx.Unify.Collect.{PushInfo}
use version_control_tools_fx.Unify.Pulls.{
  Changelog, sorted_infos, children, emit_last, fast_forward, emit_from, emitfastforwardnodes,
}

-- A descendant, or the node itself.
pub data Reaches (kids : Text → List Text) : Text → Text → Type 0 where
  here : {n : Text} → Reaches kids n n
  child : {n c e : Text} → member c (kids n) ≡ true → Reaches kids c e → Reaches kids n e

-- Each child stands behind its parent.
abbrev pub IsTopological : (Text → List Text) → List Text → Type 0
IsTopological kids [] = Unit
IsTopological kids (n ∷ ns) = All (λ c. member c ns ≡ true) (kids n) × IsTopological kids ns

-- Some of the elements, in their order.
pub data Within : List Text → List Text → Type 0 where
  stop : Within [] []
  keep : {x : Text} {xs ys : List Text} → Within xs ys → Within (x ∷ xs) (x ∷ ys)
  skip : {y : Text} {xs ys : List Text} → Within xs ys → Within xs (y ∷ ys)

abbrev pub Covered : (Text → List Text) → List Text → Text → Type 0
Covered kids out n = (e : Text) × (member e out ≡ true) × Reaches kids n e

member-right : (x : Text) (xs ys : List Text) → member x ys ≡ true → member x (xs ++ ys) ≡ true
unfolding member
member-right x [] ys h = h
member-right x (y ∷ xs) ys h = ground (arith, member-right x xs ys h)

abbrev List-cases : (xs : List Text) → (xs ≡ []) ⊎ ((c : Text) × (cs : List Text) × (xs ≡ c ∷ cs))
List-cases [] = inl refl
List-cases (c ∷ cs) = inr (c, cs, refl)

module _ (kids : Text → List Text) where
  Covered-right : (n : Text) (xs ys : List Text) → Covered kids ys n → Covered kids (xs ++ ys) n
  Covered-right n xs ys (e, t, r) = (e, member-right e xs ys t, r)

  Covered-here : (n : Text) (out : List Text) → Covered kids (n ∷ out) n
  unfolding member
  Covered-here n out = (n, ground (arith, text_eq_iff n n), here)

  -- A head is pulled itself, another node with a child of it.
  emit_from-Covered :
      (ns wanted : List Text) (last : Option Text) (n : Text)
      → IsTopological kids ns
      → member n ns ≡ true
      → Covered kids (emit_from kids ns wanted last).0 n
  unfolding emit_from member fast_forward
  emit_from-Covered [] wanted last n t h = absurd (cc h)
  emit_from-Covered (m ∷ ns) wanted last n t h =
      let step = fast_forward (kids m) m wanted last in
      let later : (k : Text)
          → member k ns ≡ true
          → Covered kids (emit_from kids (m ∷ ns) wanted last).0 k =
        λ k there.
          Covered-right k step.0 (emit_from kids ns step.1.0 step.1.1).0
            (emit_from-Covered ns step.1.0 step.1.1 k t.1 there) in
      elim (Bool-cases (text_eq n m)) [
        | inr other ↦ later n (ground (arith, h, other))
        | inl same ↦
            let it : n ≡ m = (text_eq_iff n m).0 same in
            rw it (elim (List-cases (kids m)) [
              | inl none_left ↦ rw (emit_from, none_left) (Covered-here m _)
              | inr (c, cs, e) ↦
                  let (d, t', r) = later c ((rw e at t.0).0) in
                  (d, t', child (rw (e, member) (ground (arith, text_eq_iff c c))) r)
            ])
      ]

  -- The last node of the order is a head, which leaves nothing behind.
  emit_from-ends :
      (ns wanted : List Text) (last : Option Text) (n : Text)
      → IsTopological kids (n ∷ ns)
      → (emit_from kids (n ∷ ns) wanted last).1 ≡ none
  unfolding emit_from member fast_forward
  emit_from-ends [] wanted last n t = elim (List-cases (kids n)) [
    | inl none_left ↦ rw (emit_from, none_left) refl
    | inr (c, cs, e) ↦ absurd (cc ((rw (e, member) at t.0).0))
  ]
  emit_from-ends (m ∷ ns) wanted last n t =
      let step = fast_forward (kids n) n wanted last in emit_from-ends ns step.1.0 step.1.1 m t.1

  -- What is yielded keeps the order of the nodes; `last` is the node before them, if it is not
  -- yielded yet.
  emit_from-Within :
      (ns wanted : List Text) (last : Option Text)
      → Within (emit_from kids ns wanted last).0 (emit_last last ++ ns)
  unfolding emit_from fast_forward
  emit_from-Within [] wanted none = stop
  emit_from-Within [] wanted (some p) = skip stop
  emit_from-Within (n ∷ ns) wanted last = elim (List-cases (kids n)) [
    | inl none_left ↦ rw (emit_from, none_left) (pass last (keep (emit_from-Within ns [] none)))
    | inr (c, cs, e) ↦
        let rest = emit_from-Within ns (c ∷ cs) (some n) in
        elim (Bool-cases (member n wanted)) [
          | inl next ↦ rw (emit_from, e, next) (pass last rest)
          | inr branch ↦ rw (emit_from, e, branch) (both last rest)
        ]
  ]
    where
      pass : (o : Option Text) {xs ys : List Text} → Within xs ys → Within xs (emit_last o ++ ys)
      pass none w = w
      pass (some p) w = skip w

      both :
          (o : Option Text) {xs ys : List Text}
          → Within xs ys
          → Within (emit_last o ++ xs) (emit_last o ++ ys)
      both none w = w
      both (some p) w = keep w

-- The nodes in the order of their pushes.
abbrev pub push_order : PushInfo → List Text
push_order m = map (λ e. e.0) (sorted_infos m)

abbrev emitted : Changelog → PushInfo → List Text × Option Text
emitted cl m = emit_from (children cl (push_order m)) (push_order m) [] none

emitted-ends :
    (kids : Text → List Text) (ns : List Text)
    → IsTopological kids ns
    → (emit_from kids ns [] none).1 ≡ none
unfolding emit_from
emitted-ends kids [] t = refl
emitted-ends kids (n ∷ ns) t = emit_from-ends kids ns [] none n t

-- Where each node was pushed before its children, the assertion holds, the nodes to pull are some
-- of the nodes in the order of their pushes, and each node comes with one of them: it is an
-- ancestor of it or the node itself.
pub emitfastforwardnodes-Covered :
    (cl : Changelog) (m : PushInfo)
    → IsTopological (children cl (push_order m)) (push_order m)
    → (out : List Text) × (emitfastforwardnodes cl m ≡ ok out)
      × Within out (push_order m)
      × ((n : Text) → member n (push_order m) ≡ true → Covered (children cl (push_order m)) out n)
unfolding emitfastforwardnodes
emitfastforwardnodes-Covered cl m t =
    let kids = children cl (push_order m) in
    (
      (emitted cl m).0,
      rw (emitfastforwardnodes, emitted-ends kids (push_order m) t) refl,
      emit_from-Within kids (push_order m) [] none,
      λ n. emit_from-Covered kids (push_order m) [] none n t,
    )
