-- ===== src/Flow/Rewrite/Edges.antt =====
-- Which edges leave a tagged node after the rewriting of packages/harness-core/src/flow-graph.ts.
use mathlib.Core.Bool.{false≢true}
use agentx_platform.Prelude.{
  if◌then◌else◌, Bool-cases, Option-cases, or_default, is_some, keep-append, Text, same, same_refl,
  same→eq, eq→same, same_comm, lookup, insert, lookup-insert, has, Distinct, ◌≡◌, refl, sym, ap,
  ap₂, subst, ◌∙◌, ◌⊎◌, inl, inr, true, false, none, some, List, [], ◌∷◌, ◌++◌, map, arith,
}
use agentx_platform.Flow.Edges.{sequence, Edge, TaskStep, FlowDef}
use agentx_platform.Flow.Rewrite.{
  synthetic_of, new_nodes, renames, interrupt_edges, redirect, rewrite_flow,
}
use agentx_platform.Flow.Rewrite.Isolation.{
  ids, Occurs, outgoing, new_nodes-some, new_nodes-none, Occurs-new_nodes, has-Occurs,
  rewrite_flow-tagged,
}

-- What is in a list differs from what is not.
has-apart : (a b : Text) (l : List Text) → has a l ≡ false → has b l ≡ true → same a b ≡ false
has-apart a b l h k = elim (Bool-cases (same a b)) [
  | inr e ↦ e
  | inl e ↦ absurd (false≢true (sym h ∙ ap (λ x. has x l) (same→eq a b e) ∙ k))
]

lookup-insert_cases :
    (a k b t : Text) (m : List (Text × Text))
    → lookup k (insert a b m) ≡ some t
    → (lookup k m ≡ some t) ⊎ (b ≡ t)
lookup-insert_cases a k b t m h = cases (Bool-cases (same a k))
  where
    read : (if same a k then some b else lookup k m) ≡ some t
    read = sym (lookup-insert a k b m) ∙ h

    cases : (same a k ≡ true) ⊎ (same a k ≡ false) → (lookup k m ≡ some t) ⊎ (b ≡ t)
    cases (inl e) = inr (ap (λ o. or_default o b) (rw e at read))
    cases (inr e) = inl (rw e at read)

lookup_empty : (k t : Text) → lookup {V = Text} k [] ≡ some t → ⊥
unfolding lookup
lookup_empty k t h = false≢true (ap is_some h)

module _ {N : Type 0} where
  has-new_nodes :
      (k : Text) (ns : List (TaskStep N))
      → has k (ids (new_nodes ns)) ≡ false
      → has k (ids ns) ≡ false
  unfolding has
  has-new_nodes k [] h = refl
  has-new_nodes k (m ∷ ms) h = elim (Option-cases (synthetic_of m)) [
    | inl e ↦
        ground
          (arith, subst (λ l. has k (ids l) ≡ false) (new_nodes-none m ms e) h, has-new_nodes k ms)
    | inr (j, e) ↦
        ground (
          arith,
          subst (λ l. has k (ids l) ≡ false) (new_nodes-some m j ms e) h,
          has-new_nodes k ms,
        )
  ]

  Distinct-new_nodes : (ns : List (TaskStep N)) → Distinct (ids (new_nodes ns)) → Distinct (ids ns)
  Distinct-new_nodes [] d = tt
  Distinct-new_nodes (m ∷ ms) d = elim (Option-cases (synthetic_of m)) [
    | inl e ↦
        let d' = subst (λ l. Distinct (ids l)) (new_nodes-none m ms e) d in
        (has-new_nodes m.id ms d'.0, Distinct-new_nodes ms d'.1)
    | inr (j, e) ↦
        let d' = subst (λ l. Distinct (ids l)) (new_nodes-some m j ms e) d in
        (has-new_nodes m.id ms (unfold has in ground (arith, d'.0)), Distinct-new_nodes ms d'.1.1)
  ]

  has-Occurs_new :
      (n : TaskStep N) (ns : List (TaskStep N)) → Occurs n ns → has n.id (ids (new_nodes ns)) ≡ true
  has-Occurs_new n ns o = elim (Bool-cases (has n.id (ids (new_nodes ns)))) [
    | inl e ↦ e
    | inr e ↦ absurd (false≢true (sym (has-new_nodes n.id ns e) ∙ has-Occurs n ns o))
  ]

  head_absent :
      (x : TaskStep N) (xs : List (TaskStep N))
      → Distinct (ids (new_nodes (x ∷ xs)))
      → has x.id (ids (new_nodes xs)) ≡ false
  head_absent x xs d = elim (Option-cases (synthetic_of x)) [
    | inl e ↦ (subst (λ l. Distinct (ids l)) (new_nodes-none x xs e) d).0
    | inr (j, e) ↦
        let d' = subst (λ l. Distinct (ids l)) (new_nodes-some x j xs e) d in
        (unfold has in ground (arith, d'.0))
  ]

  tail-Distinct :
      (x : TaskStep N) (xs : List (TaskStep N))
      → Distinct (ids (new_nodes (x ∷ xs)))
      → Distinct (ids (new_nodes xs))
  tail-Distinct x xs d = elim (Option-cases (synthetic_of x)) [
    | inl e ↦ (subst (λ l. Distinct (ids l)) (new_nodes-none x xs e) d).1
    | inr (j, e) ↦ (subst (λ l. Distinct (ids l)) (new_nodes-some x j xs e) d).1.1
  ]

  -- The id of an added node is the id of no node of the flow.
  apart :
      (n m j : TaskStep N) (ns : List (TaskStep N))
      → Distinct (ids (new_nodes ns))
      → Occurs n ns
      → Occurs m ns
      → synthetic_of m ≡ some j
      → same j.id n.id ≡ false
  apart n m j [] d o p h = absurd o
  apart n m j (x ∷ xs) d (inl e) (inl f) h =
      let d' = subst (λ l. Distinct (ids l)) (new_nodes-some x j xs (ap synthetic_of f ∙ h)) d in
      subst (λ (t : TaskStep N). same j.id t.id ≡ false) e (unfold has in ground (arith, d'.0))
  apart n m j (x ∷ xs) d (inl e) (inr p) h =
      same_comm j.id n.id
      ∙ has-apart n.id j.id (ids (new_nodes xs))
          (subst (λ (t : TaskStep N). has t.id (ids (new_nodes xs)) ≡ false) e (head_absent x xs d))
          (has-Occurs j (new_nodes xs) (Occurs-new_nodes m j xs p h).1)
  apart n m j (x ∷ xs) d (inr o) (inl f) h =
      let d' = subst (λ l. Distinct (ids l)) (new_nodes-some x j xs (ap synthetic_of f ∙ h)) d in
      has-apart j.id n.id (ids (new_nodes xs)) d'.1.0 (has-Occurs_new n xs o)
  apart n m j (x ∷ xs) d (inr o) (inr p) h = apart n m j xs (tail-Distinct x xs d) o p h

  renames-absent :
      (k : Text) (m : List (Text × Text)) (ns : List (TaskStep N))
      → has k (ids ns) ≡ false
      → lookup k (renames m ns) ≡ lookup k m
  unfolding renames has
  renames-absent k m [] h = refl
  renames-absent k m (n ∷ ns) h = elim (Option-cases (synthetic_of n)) [
    | inl e ↦ rw (e, renames) (renames-absent k m ns (ground arith))
    | inr (j, e) ↦
        rw (e, renames)
          (renames-absent k (insert n.id j.id m) ns (ground arith)
            ∙ ground (arith, lookup-insert n.id k j.id m))
  ]

  renames-some :
      (n i : TaskStep N) (m : List (Text × Text)) (ns : List (TaskStep N))
      → synthetic_of n ≡ some i
      → renames m (n ∷ ns) ≡ renames (insert n.id i.id m) ns
  unfolding renames
  renames-some n i m ns h = rw (h, renames) refl

  renames-none :
      (n : TaskStep N) (m : List (Text × Text)) (ns : List (TaskStep N))
      → synthetic_of n ≡ none
      → renames m (n ∷ ns) ≡ renames m ns
  unfolding renames
  renames-none n m ns h = rw (h, renames) refl

  renames-Occurs :
      (n i : TaskStep N) (m : List (Text × Text)) (ns : List (TaskStep N))
      → Distinct (ids ns)
      → Occurs n ns
      → synthetic_of n ≡ some i
      → lookup n.id (renames m ns) ≡ some i.id
  renames-Occurs n i m [] d o h = absurd o
  renames-Occurs n i m (x ∷ xs) d (inl e) h = rw (renames-some x i m xs (ap synthetic_of e ∙ h)) (
      renames-absent n.id (insert x.id i.id m) xs
        (subst (λ (t : TaskStep N). has t.id (ids xs) ≡ false) e d.0)
      ∙ lookup-insert x.id n.id i.id m
      ∙ rw (ap (λ (t : TaskStep N). same t.id n.id) e, same_refl n.id) refl)
  renames-Occurs n i m (x ∷ xs) d (inr o) h = elim (Option-cases (synthetic_of x)) [
    | inl e ↦ rw (renames-none x m xs e) (renames-Occurs n i m xs d.1 o h)
    | inr (j, e) ↦ rw (renames-some x j m xs e) (renames-Occurs n i (insert x.id j.id m) xs d.1 o h)
  ]

  -- A node of the list whose added node has the given id.
  abbrev Named : Text → List (TaskStep N) → Type 0
  Named t ns =
      (x : TaskStep N) × (j : TaskStep N) × Occurs x ns × (synthetic_of x ≡ some j) × (j.id ≡ t)

  -- Every new name is the id of an added node.
  renames-target :
      (k t : Text) (m : List (Text × Text)) (ns : List (TaskStep N))
      → lookup k (renames m ns) ≡ some t
      → (lookup k m ≡ some t) ⊎ Named t ns
  renames-target k t m [] h = inl (unfold renames in h)
  renames-target k t m (x ∷ xs) h = elim (Option-cases (synthetic_of x)) [
    | inl e ↦ elim (renames-target k t m xs (ap (lookup k) (sym (renames-none x m xs e)) ∙ h)) [
      | inl l ↦ inl l
      | inr (y, j, o, r, q) ↦ inr (y, j, inr o, r, q)
    ]
    | inr (i, e) ↦
        elim (renames-target k t (insert x.id i.id m) xs
          (ap (lookup k) (sym (renames-some x i m xs e)) ∙ h)) [
            | inl l ↦ elim (lookup-insert_cases x.id k i.id t m l) [
              | inl l' ↦ inl l'
              | inr q ↦ inr (x, i, inl refl, e, q)
            ]
            | inr (y, j, o, r, q) ↦ inr (y, j, inr o, r, q)
          ]
  ]

  outgoing-absent :
      (k : Text) (m : List (Text × Text)) (ns : List (TaskStep N))
      → has k (ids ns) ≡ false
      → outgoing k (interrupt_edges m ns) ≡ []
  unfolding outgoing interrupt_edges has
  outgoing-absent k m [] h = refl
  outgoing-absent k m (x ∷ xs) h = ground (arith, outgoing-absent k m xs)

  interrupt_edges-none :
      (x : TaskStep N) (m : List (Text × Text)) (ns : List (TaskStep N))
      → synthetic_of x ≡ none
      → interrupt_edges m (x ∷ ns) ≡ interrupt_edges m ns
  unfolding interrupt_edges
  interrupt_edges-none x m ns h = rw (h, interrupt_edges) refl

  interrupt_edges-some :
      (x i : TaskStep N) (t : Text) (m : List (Text × Text)) (ns : List (TaskStep N))
      → synthetic_of x ≡ some i
      → lookup x.id m ≡ some t
      → interrupt_edges m (x ∷ ns)
        ≡ record { source = x.id; target = t; kind = sequence } ∷ interrupt_edges m ns
  unfolding interrupt_edges
  interrupt_edges-some x i t m ns h k = rw (h, k, interrupt_edges) refl

  outgoing-head :
      (k : Text) (e : Edge N) (es : List (Edge N))
      → same e.source k ≡ true
      → outgoing k (e ∷ es) ≡ e ∷ outgoing k es
  unfolding outgoing
  outgoing-head k e es h = rw h refl

  outgoing-skip :
      (k : Text) (x : TaskStep N) (m : List (Text × Text)) (ns : List (TaskStep N))
      → same x.id k ≡ false
      → outgoing k (interrupt_edges m (x ∷ ns)) ≡ outgoing k (interrupt_edges m ns)
  unfolding outgoing interrupt_edges
  outgoing-skip k x m ns h = ground arith

  outgoing-interrupt_edges :
      (n i : TaskStep N) (m : List (Text × Text)) (ns : List (TaskStep N))
      → Distinct (ids ns)
      → Occurs n ns
      → synthetic_of n ≡ some i
      → lookup n.id m ≡ some i.id
      → outgoing n.id (interrupt_edges m ns)
        ≡ record { source = n.id; target = i.id; kind = sequence } ∷ []
  outgoing-interrupt_edges n i m [] d o h k = absurd o
  outgoing-interrupt_edges n i m (x ∷ xs) d (inl e) h k =
      let q = ap (λ (t : TaskStep N). t.id) e in
      ap (outgoing n.id) (
        interrupt_edges-some x i i.id m xs (ap synthetic_of e ∙ h)
          (ap (λ (t : TaskStep N). lookup t.id m) e ∙ k))
      ∙ outgoing-head n.id (record { source = x.id; target = i.id; kind = sequence })
          (interrupt_edges m xs) (eq→same x.id n.id q)
      ∙ ap₂ ◌∷◌ (ap (λ (t : Text). record { source = t; target = i.id; kind = sequence }) q)
          (outgoing-absent n.id m xs (subst (λ t. has t (ids xs) ≡ false) q d.0))
  outgoing-interrupt_edges n i m (x ∷ xs) d (inr o) h k =
      outgoing-skip n.id x m xs (has-apart x.id n.id (ids xs) d.0 (has-Occurs n xs o))
      ∙ outgoing-interrupt_edges n i m xs d.1 o h k

  outgoing-append :
      (k : Text) (es fs : List (Edge N)) → outgoing k (es ++ fs) ≡ outgoing k es ++ outgoing k fs
  unfolding outgoing
  outgoing-append k es fs = keep-append (λ e. same e.source k) es fs

  outgoing-redirect :
      (k : Text) (m : List (Text × Text)) (es : List (Edge N))
      → ((s : Text) → same (or_default (lookup s m) s) k ≡ false)
      → outgoing k (map (redirect m) es) ≡ []
  unfolding outgoing redirect
  outgoing-redirect k m [] h = refl
  outgoing-redirect k m (e ∷ es) h = rw (h e.source) (outgoing-redirect k m es h)

  redirected :
      (n i : TaskStep N) (ns : List (TaskStep N))
      → Distinct (ids (new_nodes ns))
      → Occurs n ns
      → synthetic_of n ≡ some i
      → (s : Text) → same (or_default (lookup s (renames [] ns)) s) n.id ≡ false
  redirected n i ns d o h s = elim (Option-cases (lookup s (renames [] ns))) [
    | inl e ↦ rw e (elim (Bool-cases (same s n.id)) [
      | inr no' ↦ no'
      | inl y ↦ absurd (
          false≢true (
            ap is_some (
              sym e
              ∙ ap (λ k. lookup k (renames [] ns)) (same→eq s n.id y)
              ∙ renames-Occurs n i [] ns (Distinct-new_nodes ns d) o h)))
    ])
    | inr (t, e) ↦ rw e (elim (renames-target s t [] ns e) [
      | inl z ↦ absurd (lookup_empty s t z)
      | inr (x, j, p, r, q) ↦ subst (λ t. same t n.id ≡ false) q (apart n x j ns d o p r)
    ])
  ]

  -- In the rewritten flow, whose node ids are different, the only edge that leaves a node with an
  -- approval or suspend tag is the sequence edge to the node that was added for it.
  pub rewrite_flow-isolates :
      (f : FlowDef N) (n i : TaskStep N)
      → Occurs n f.nodes
      → synthetic_of n ≡ some i
      → Distinct (ids (rewrite_flow f).nodes)
      → outgoing n.id (rewrite_flow f).edges
        ≡ record { source = n.id; target = i.id; kind = sequence } ∷ []
  rewrite_flow-isolates f n i o h d =
      let e = rewrite_flow-tagged f n i o h in
      let m = renames [] f.nodes in
      let d' = subst (λ (g : FlowDef N). Distinct (ids g.nodes)) e d in
      let d0 = Distinct-new_nodes f.nodes d' in
      ap (λ (g : FlowDef N). outgoing n.id g.edges) e
      ∙ outgoing-append n.id (interrupt_edges m f.nodes) (map (redirect m) f.edges)
      ∙ ap₂ ◌++◌
          (outgoing-interrupt_edges n i m f.nodes d0 o h (renames-Occurs n i [] f.nodes d0 o h))
          (outgoing-redirect n.id m f.edges (redirected n i f.nodes d' o h))
