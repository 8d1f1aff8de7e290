-- ===== src/Catalog/Edges.antt =====
-- The check for cycles of packages/harness-core/src/catalog.ts, on the edges of a flow.
use agentx_platform.Prelude.{
  if◌then◌else◌, Bool-cases, any, Text, same, same→eq, lookup, insert, lookup-insert, has,
  has-append, ◌≡◌, refl, sym, ap, ◌∙◌, inl, inr, Bool, true, false, not, ◌&&◌, ◌||◌, Option, none,
  some, List, [], ◌∷◌, ◌++◌,
}
use agentx_platform.Flow.Edges.{Edge}
use agentx_platform.Catalog.{Adjacency, nexts, has_cycle, is_reject, dag_adjacency}
use agentx_platform.Catalog.Colors.{Chain, edge, chain}
use agentx_platform.Catalog.Cycles.{Decides, has_cycle-Decides}

nexts-insert :
    (k x : Text) (v : List Text) (adj : Adjacency)
    → nexts (insert k v adj) x ≡ (if same k x then v else nexts adj x)
nexts-insert k x v adj =
    rw (lookup-insert k x v adj)
      (elim (Bool-cases (same k x)) [ inl e ↦ rw e refl | inr e ↦ rw e refl ])

module _ {N : Type 0} where
  -- The edge is not of a rejection, and leads from the one node to the other.
  abbrev pub joins : Text → Text → Edge N → Bool
  joins x y e = not (is_reject e.kind) && (same e.source x && same e.target y)

  -- A way along one edge or more, none of them of a rejection.
  pub data Way (es : List (Edge N)) : Text → Text → Type 0 where
    one : {x y : Text} → any (joins x y) es ≡ true → Way es x y
    more : {x y z : Text} → Way es x y → any (joins y z) es ≡ true → Way es x z

  added : Edge N → Adjacency → Adjacency
  added e adj =
      if is_reject e.kind then adj else insert e.source (nexts adj e.source ++ e.target ∷ []) adj

  nexts-added :
      (e : Edge N) (adj : Adjacency) (x y : Text)
      → has y (nexts (added e adj) x) ≡ (has y (nexts adj x) || joins x y e)
  unfolding added
  nexts-added e adj x y = elim (Bool-cases (is_reject e.kind)) [
    | inl r ↦ rw r (or_false (has y (nexts adj x)))
    | inr r ↦
        rw (r, nexts-insert e.source x (nexts adj e.source ++ e.target ∷ []) adj)
          (elim (Bool-cases (same e.source x)) [
            | inl t ↦
                rw (t, has-append y (nexts adj e.source) (e.target ∷ []), same→eq e.source x t)
                  (unfold has in
                    sym (ap (λ b. has y (nexts adj x) || b) (or_false (same e.target y))))
            | inr t ↦ rw t (or_false (has y (nexts adj x)))
          ])
  ]
    where
      or_false : (b : Bool) → b ≡ (b || false)
      or_false true = refl
      or_false false = refl

  nexts-dag_adjacency :
      (es : List (Edge N)) (adj : Adjacency) (x y : Text)
      → has y (nexts (dag_adjacency es adj) x) ≡ (has y (nexts adj x) || any (joins x y) es)
  unfolding dag_adjacency added
  nexts-dag_adjacency [] adj x y = or_false (has y (nexts adj x))
    where
      or_false : (b : Bool) → b ≡ (b || false)
      or_false true = refl
      or_false false = refl
  nexts-dag_adjacency (e ∷ es) adj x y =
      nexts-dag_adjacency es (added e adj) x y
      ∙ ap (λ b. b || any (joins x y) es) (nexts-added e adj x y)
      ∙ or_assoc (has y (nexts adj x)) (joins x y e) (any (joins x y) es)
    where
      or_assoc : (a b c : Bool) → ((a || b) || c) ≡ (a || (b || c))
      or_assoc true b c = refl
      or_assoc false b c = refl

  dag_edge :
      (es : List (Edge N)) (x y : Text) → has y (nexts (dag_adjacency es []) x) ≡ any (joins x y) es
  unfolding has lookup
  dag_edge es x y = nexts-dag_adjacency es [] x y

  Way-Chain : (es : List (Edge N)) {x y : Text} → Way es x y → Chain (dag_adjacency es []) x y
  Way-Chain es {x} {y} (one e) = edge (dag_edge es x y ∙ e)
  Way-Chain es (more {y = y} {z = z} w e) = chain (Way-Chain es w) (dag_edge es y z ∙ e)

  Chain-Way : (es : List (Edge N)) {x y : Text} → Chain (dag_adjacency es []) x y → Way es x y
  Chain-Way es {x} {y} (edge e) = one (sym (dag_edge es x y) ∙ e)
  Chain-Way es (chain {y = y} {z = z} c e) = more (Chain-Way es c) (sym (dag_edge es y z) ∙ e)

  abbrev pub Settles : List (Edge N) → Option Bool → Type 0
  Settles es none = ⊥
  Settles es (some true) = (x : Text) × Way es x x
  Settles es (some false) = (x : Text) → ¬ Way es x x

  -- The check of a flow always answers: yes, and some node is reached from itself along one edge or
  -- more, none of them of a rejection; or no, and there is no such node.
  pub has_cycle-Settles : (es : List (Edge N)) → Settles es (has_cycle (dag_adjacency es []))
  has_cycle-Settles es =
      settle (has_cycle (dag_adjacency es [])) (has_cycle-Decides (dag_adjacency es []))
    where
      settle : (r : Option Bool) → Decides (dag_adjacency es []) r → Settles es r
      settle none h = h
      settle (some true) (x, c) = (x, Chain-Way es c)
      settle (some false) h = λ x w. h x (Way-Chain es w)
