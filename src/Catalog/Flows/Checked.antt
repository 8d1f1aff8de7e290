-- ===== src/Catalog/Flows/Checked.antt =====
-- What the loop of validateFlow over the edges has checked (packages/harness-core/src/catalog.ts).
use mathlib.Core.Bool.{false≢true}
use agentx_platform.Prelude.{
  Bool-cases, &&-eq_true, or_default, Text, codes, same, same→eq, lookup, has, ok, ℕ, ◌+◌, ◌≤◌, ◌≡◌,
  refl, sym, ap, subst, ◌∙◌, inl, inr, Bool, true, false, not, ◌&&◌, ◌||◌, List, [], ◌∷◌, ◌++◌,
  arith,
}
use agentx_platform.Flow.Values.{Value, undefined, Items, nil, cons, Host}
use agentx_platform.Catalog.Shapes.{
  reject_if, own_field, member, is_absent, is_text, text_of, is_word, at_index, value_or,
  reject_if-passed, >>-passed,
}
use agentx_platform.Catalog.Flows.{
  FlowIndex, EdgeCounts, count_at, outgoing, source_of, target_of, type_of_edge, count_edge,
  may_reject, check_reject, check_edge, edges_loop,
}
use agentx_platform.Catalog.Flows.Links.{
  tally, AllItems, goes_out, leaves, enters, leaving, count_edge-outgoing, count_edge-leaving,
  count_edge-incoming,
}

-- The types of which a node has at most one edge.
abbrev pub single_types : List Text
single_types = codes "error" ∷ codes "fallback" ∷ codes "reject" ∷ []

module _ (H : Host) where
  open H use {Num}

  abbrev pub is_rejection : Value Num → Bool
  is_rejection e = same (type_of_edge e) (codes "reject")

  -- An edge between known nodes, and if it is of a rejection, one that its source may have.
  pub record Checked (ix : FlowIndex Num) (e : Value Num) : Type 0 where
    pub source_known : has (source_of e) ix.node_ids ≡ true
    pub target_known : has (target_of e) ix.node_ids ≡ true
    pub allowed :
        is_rejection e ≡ true
        → may_reject H
            (or_default (lookup (source_of e) ix.node_kinds) undefined)
            (or_default (lookup (source_of e) ix.node_tags) undefined)
          ≡ true
    pub escalation :
        is_rejection e ≡ true
        → is_word (codes "escalate") (member (codes "kind") (member (codes "onMaxAttempts") e))
          ≡ true
        → is_text (member (codes "to") (member (codes "onMaxAttempts") e)) ≡ true
        → has (text_of (member (codes "to") (member (codes "onMaxAttempts") e))) ix.node_ids ≡ true

  -- What the loop leaves, from the counts before it.
  pub record Tallied (ix : FlowIndex Num) (es : Items Num) (s s' : EdgeCounts) : Type 0 where
    pub checked : AllItems (Checked ix) es
    pub by_type :
        (id kind : Text) → outgoing id kind s' ≡ outgoing id kind s + tally (goes_out id kind) es
    pub out : (id : Text) → leaving id s' ≡ leaving id s + tally (leaves id) es
    pub into :
        (id : Text)
        → count_at id s'.incoming_count ≡ count_at id s.incoming_count + tally (enters id) es
    pub single :
        (id kind : Text)
        → has kind single_types ≡ true
        → outgoing id kind s ≤ 1
        → outgoing id kind s' ≤ 1

  nil-Tallied : (ix : FlowIndex Num) (s : EdgeCounts) → Tallied ix nil s s
  unfolding tally
  nil-Tallied ix s = record {
    checked = tt;
    by_type = λ id kind. omega arith;
    out = λ id. omega arith;
    into = λ id. omega arith;
    single = λ id kind h l. l;
  }

  present :
      (w : Text) (v : Value Num) → is_word w (member (codes "kind") v) ≡ true → is_absent v ≡ false
  unfolding own_field
  present w undefined h = sym h
  present w _ h = refl

  check_reject-allowed :
      (e : Value Num) (ix : FlowIndex Num) (place : Text)
      → check_reject H e ix place ≡ ok tt
      → may_reject H
          (or_default (lookup (source_of e) ix.node_kinds) undefined)
          (or_default (lookup (source_of e) ix.node_tags) undefined)
        ≡ true
  unfolding check_reject
  check_reject-allowed e ix place h = ground arith

  check_reject-escalation :
      (e : Value Num) (ix : FlowIndex Num) (place : Text)
      → check_reject H e ix place ≡ ok tt
      → is_word (codes "escalate") (member (codes "kind") (member (codes "onMaxAttempts") e)) ≡ true
      → is_text (member (codes "to") (member (codes "onMaxAttempts") e)) ≡ true
      → has (text_of (member (codes "to") (member (codes "onMaxAttempts") e))) ix.node_ids ≡ true
  unfolding check_reject
  check_reject-escalation e ix place h w t =
      let oma = member (codes "onMaxAttempts") e in
      let to = member (codes "to") oma in
      elim (Bool-cases (has (text_of to) ix.node_ids)) [
        | inl known ↦ known
        | inr other ↦
            let (_, u) =
              >>-passed
                (reject_if
                  (not (
                    may_reject H (or_default (lookup (source_of e) ix.node_kinds) undefined)
                      (or_default (lookup (source_of e) ix.node_tags) undefined)))
                  _)
                (reject_if
                  (not (is_absent oma)
                    && (is_word (codes "escalate") (member (codes "kind") oma)
                        && (is_text to && not (has (text_of to) ix.node_ids))))
                  _)
                h in
            absurd (
              false≢true (
                sym (reject_if-passed _ _ u)
                ∙ (rw (present (codes "escalate") oma w, w, t, other) refl)))
      ]

  check_edge-reject :
      (e : Value Num) (ix : FlowIndex Num) (s : EdgeCounts) (place : Text)
      → check_edge H e ix s place ≡ ok tt
      → is_rejection e ≡ true
      → check_reject H e ix place ≡ ok tt
  unfolding check_edge
  check_edge-reject e ix s place h r = ground arith

  check_edge-Checked :
      (e : Value Num) (ix : FlowIndex Num) (s : EdgeCounts) (place : Text)
      → check_edge H e ix s place ≡ ok tt
      → Checked ix e
  check_edge-Checked e ix s place h = record {
    source_known = unfold check_edge in ground arith;
    target_known = unfold check_edge in ground arith;
    allowed = λ r. check_reject-allowed e ix place (check_edge-reject e ix s place h r);
    escalation = λ r. check_reject-escalation e ix place (check_edge-reject e ix s place h r);
  }

  -- The source of the edge has at most one edge of its type, if it is a type of which there is one.
  check_edge-single :
      (e : Value Num) (ix : FlowIndex Num) (s : EdgeCounts) (place kind : Text)
      → has kind single_types ≡ true
      → check_edge H e ix s place ≡ ok tt
      → same (type_of_edge e) kind ≡ true
      → outgoing (source_of e) kind s ≤ 1
  unfolding check_edge has
  check_edge-single e ix s place kind k h t = elim (Bool-cases (same (codes "error") kind)) [
    | inl is_error ↦ at_type (same→eq (codes "error") kind is_error) (λ u. ground arith)
    | inr other ↦ elim (Bool-cases (same (codes "fallback") kind)) [
      | inl is_fallback ↦ at_type (same→eq (codes "fallback") kind is_fallback) (λ u. ground arith)
      | inr another ↦
          at_type
            (same→eq (codes "reject") kind
              (last (same (codes "reject") kind) (rw (other, another) at k)))
            (λ u. ground arith)
    ]
  ]
    where
      last : (b : Bool) → (b || false) ≡ true → b ≡ true
      last true h = refl
      last false h = h

      at_type :
          {type : Text}
          → type ≡ kind
          → (same (type_of_edge e) type ≡ true → outgoing (source_of e) type s ≤ 1)
          → outgoing (source_of e) kind s ≤ 1
      at_type p f =
          subst (λ q. outgoing (source_of e) q s ≤ 1) p
            (f (subst (λ q. same (type_of_edge e) q ≡ true) (sym p) t))

  edges_loop-passed :
      (e : Value Num) (es : Items Num) (j : ℕ) (place : Text) (ix : FlowIndex Num)
      (s s' : EdgeCounts)
      → edges_loop H (cons e es) j place ix s ≡ ok s'
      → (check_edge H e ix (count_edge e s) (at_index (place ++ codes ".edges") j) ≡ ok tt)
        × (edges_loop H es (j + 1) place ix (count_edge e s) ≡ ok s')
  unfolding edges_loop
  edges_loop-passed e es j place ix s s' h = ground arith

  cons-Tallied :
      (e : Value Num) (es : Items Num) (ix : FlowIndex Num) (s s' : EdgeCounts) (place : Text)
      → check_edge H e ix (count_edge e s) place ≡ ok tt
      → Tallied ix es (count_edge e s) s'
      → Tallied ix (cons e es) s s'
  unfolding tally
  cons-Tallied e es ix s s' place h r = record {
    checked = (check_edge-Checked e ix (count_edge e s) place h, r.checked);
    by_type = λ id kind. omega (arith, r.by_type id kind, count_edge-outgoing id kind e s);
    out = λ id. omega (arith, r.out id, count_edge-leaving id e s);
    into = λ id. omega (arith, r.into id, count_edge-incoming id e s);
    single = λ id kind k l. r.single id kind k (one_more id kind k l);
  }
    where
      one_more :
          (id kind : Text)
          → has kind single_types ≡ true
          → outgoing id kind s ≤ 1
          → outgoing id kind (count_edge e s) ≤ 1
      one_more id kind k l = elim (Bool-cases (goes_out id kind e)) [
        | inl hit ↦
            let (t, u) = &&-eq_true (same (source_of e) id) (same (type_of_edge e) kind) hit in
            subst (λ q. outgoing q kind (count_edge e s) ≤ 1) (same→eq (source_of e) id t)
              (check_edge-single e ix (count_edge e s) place kind k h u)
        | inr miss ↦
            subst (λ n. n ≤ 1) (sym (rw miss at (count_edge-outgoing id kind e s) ∙ omega arith)) l
      ]

  -- The loop, from any counts on.
  pub edges_loop-Tallied :
      (es : Items Num) (j : ℕ) (place : Text) (ix : FlowIndex Num) (s s' : EdgeCounts)
      → edges_loop H es j place ix s ≡ ok s'
      → Tallied ix es s s'
  unfolding edges_loop
  edges_loop-Tallied nil j place ix s s' h =
      subst (Tallied ix nil s) (ap (value_or s) h) (nil-Tallied ix s)
  edges_loop-Tallied (cons e es) j place ix s s' h =
      let (now, rest) = edges_loop-passed e es j place ix s s' h in
      cons-Tallied e es ix s s' (at_index (place ++ codes ".edges") j) now
        (edges_loop-Tallied es (j + 1) place ix (count_edge e s) s' rest)
