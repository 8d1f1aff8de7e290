-- ===== src/Catalog/Flows/Nodes.antt =====
-- What the loop of validateFlow over the nodes collects (packages/harness-core/src/catalog.ts).
use mathlib.Core.List.{append-nil}
use agentx_platform.Prelude.{
  if◌then◌else◌, Bool-cases, Text, codes, same, same_refl, same→eq, same_iff, lookup, insert,
  lookup-insert, has, add, Distinct, has-append, add-fresh, ok, ℕ, ◌+◌, ◌≡◌, refl, sym, ap, subst,
  ◌∙◌, inl, inr, false, Option, none, some, List, [], ◌∷◌, ◌++◌, arith,
}
use agentx_platform.Flow.Values.{Value, Items, nil, cons, Host}
use agentx_platform.Catalog.Shapes.{member, value_or}
use agentx_platform.Catalog.Flows.{FlowIndex, id_of, is_trigger, collect, nodes_loop}

module _ {N : Type 0} where
  unfoldable pub ids_of : Items N → List Text
  ids_of nil = []
  ids_of (cons n ns) = id_of n ∷ ids_of ns

  -- The node of that id.
  unfoldable pub node_at : Text → Items N → Option (Value N)
  node_at id nil = none
  node_at id (cons n ns) = if same (id_of n) id then some n else node_at id ns

  unfoldable pub triggers : Items N → ℕ
  triggers nil = 0
  triggers (cons n ns) = (if is_trigger n then 1 else 0) + triggers ns

  -- A member of the node of that id, or what was there before.
  abbrev pub member_at : Text → Option (Value N) → Option (Value N) → Option (Value N)
  member_at key none before = before
  member_at key (some n) before = some (member key n)

  node_at-absent : (id : Text) (ns : Items N) → has id (ids_of ns) ≡ false → node_at id ns ≡ none
  unfolding node_at ids_of has
  node_at-absent id nil h = refl
  node_at-absent id (cons n ns) h = ground (arith, node_at-absent id ns)

pub Distinct-back :
    (s : List Text) (x : Text) (t : List Text) → Distinct (s ++ x ∷ t) → has x t ≡ false
Distinct-back [] x t d = d.0
Distinct-back (y ∷ s) x t d = Distinct-back s x t d.1

pub append_one : (s t : List Text) (x : Text) → (s ++ x ∷ []) ++ t ≡ s ++ x ∷ t
append_one [] t x = refl
append_one (y ∷ s) t x = ap (λ r. y ∷ r) (append_one s t x)

Distinct-snoc : (s : List Text) (x : Text) → Distinct s → has x s ≡ false → Distinct (s ++ x ∷ [])
unfolding has
Distinct-snoc [] x d h = (refl, tt)
Distinct-snoc (y ∷ s) x d h =
    ground (arith, has-append y s (x ∷ []), same_iff x y, same_iff y x, Distinct-snoc s x d.1)

-- What the collections say of the nodes.
pub record Collected {N : Type 0} (ns : Items N) (s s' : FlowIndex N) : Type 0 where
  pub all_ids : s'.node_ids ≡ s.node_ids ++ ids_of ns
  pub distinct : Distinct s'.node_ids
  pub counted : s'.trigger_count ≡ s.trigger_count + triggers ns
  pub kinds :
      (id : Text)
      → lookup id s'.node_kinds ≡ member_at (codes "kind") (node_at id ns) (lookup id s.node_kinds)
  pub tags :
      (id : Text)
      → lookup id s'.node_tags ≡ member_at (codes "tags") (node_at id ns) (lookup id s.node_tags)

-- A map into which a node's member was put, read after the other nodes.
inserted :
    {N : Type 0} (key : Text) (n : Value N) (ns : Items N) (m m' : List (Text × Value N))
    (id : Text)
    → has (id_of n) (ids_of ns) ≡ false
    → lookup id m' ≡ member_at key (node_at id ns) (lookup id (insert (id_of n) (member key n) m))
    → lookup id m' ≡ member_at key (node_at id (cons n ns)) (lookup id m)
unfolding node_at
inserted key n ns m m' id fresh h = elim (Bool-cases (same (id_of n) id)) [
  | inl t ↦ rw (
    t,
    h,
    sym (same→eq (id_of n) id t),
    node_at-absent (id_of n) ns fresh,
    lookup-insert (id_of n) (id_of n) (member key n) m,
    same_refl (id_of n),
  )
  | inr t ↦ rw (t, h, lookup-insert (id_of n) id (member key n) m, t)
]

nil-Collected : {N : Type 0} (s : FlowIndex N) → Distinct s.node_ids → Collected nil s s
unfolding ids_of triggers node_at
nil-Collected s d = record {
  all_ids = sym (append-nil s.node_ids);
  distinct = d;
  counted = omega arith;
  kinds = λ id. refl;
  tags = λ id. refl;
}

collect-Collected :
    {N : Type 0} (n : Value N) (ns : Items N) (s s' : FlowIndex N)
    → has (id_of n) s.node_ids ≡ false
    → Collected ns (collect n s) s'
    → Collected (cons n ns) s s'
unfolding ids_of triggers collect
collect-Collected n ns s s' fresh c = record {
  all_ids = whole;
  distinct = c.distinct;
  counted = omega (arith, c.counted);
  kinds = λ id. inserted (codes "kind") n ns s.node_kinds s'.node_kinds id back (c.kinds id);
  tags = λ id. inserted (codes "tags") n ns s.node_tags s'.node_tags id back (c.tags id);
}
  where
    whole : s'.node_ids ≡ s.node_ids ++ id_of n ∷ ids_of ns
    whole =
        c.all_ids
        ∙ ap (λ l. l ++ ids_of ns) (add-fresh (id_of n) s.node_ids fresh)
        ∙ append_one s.node_ids (ids_of ns) (id_of n)

    back : has (id_of n) (ids_of ns) ≡ false
    back = Distinct-back s.node_ids (id_of n) (ids_of ns) (subst Distinct whole c.distinct)

pub add-Distinct : (x : Text) (s : List Text) → Distinct s → has x s ≡ false → Distinct (add x s)
add-Distinct x s d h = subst Distinct (sym (add-fresh x s h)) (Distinct-snoc s x d h)

module _ (H : Host) where
  open H use {Num}

  nodes_loop-passed :
      (n : Value Num) (ns : Items Num) (j : ℕ) (place : Text) (s s' : FlowIndex Num)
      → nodes_loop H (cons n ns) j place s ≡ ok s'
      → (has (id_of n) s.node_ids ≡ false) × (nodes_loop H ns (j + 1) place (collect n s) ≡ ok s')
  unfolding nodes_loop
  nodes_loop-passed n ns j place s s' h = ground arith

  pub nodes_loop-Collected :
      (ns : Items Num) (j : ℕ) (place : Text) (s s' : FlowIndex Num)
      → Distinct s.node_ids
      → nodes_loop H ns j place s ≡ ok s'
      → Collected ns s s'
  unfolding nodes_loop
  nodes_loop-Collected nil j place s s' d h =
      subst (Collected nil s) (ap (value_or s) h) (nil-Collected s d)
  nodes_loop-Collected (cons n ns) j place s s' d h =
      let (fresh, rest) = nodes_loop-passed n ns j place s s' h in
      collect-Collected n ns s s' fresh (
        nodes_loop-Collected ns (j + 1) place (collect n s) s'
          (unfold collect in add-Distinct (id_of n) s.node_ids d fresh) rest)
