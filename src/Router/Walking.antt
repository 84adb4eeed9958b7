-- ===== src/Router/Walking.antt =====
-- Match against the abstract view: which shape serves a request, and when there is none.
use mathlib.Core.List.{append-nil, append_assoc}
use nina.Prelude.{
  true, false, Option, none, some, List, [], ◌∷◌, ◌++◌, ◌≡◌, ◌∙◌, sym, ap, inl, inr, Str,
  Option-cases, Bool-cases,
}
use nina.Router.{
  Handlers, Node, Statics, Wildcard, node, handlers, static_child, wildcard_child, walk,
  is_terminal, is_empty_seg, first_found,
}
use nina.Router.Shape.{
  Part, literal, hole, Matches, done, exact, capture, at_shape, below, at_shape-literal,
  at_shape-hole, at_shape-nil,
}

-- At the first place where two shapes differ, the one on the left has the literal.
pub data Precedes : List Part → List Part → Type 0 where
  same : Precedes [] []
  literal_first : {a : Str} {ps qs : List Part} → Precedes (literal a ∷ ps) (hole ∷ qs)
  after_literal :
      {a : Str} {ps qs : List Part} → Precedes ps qs → Precedes (literal a ∷ ps) (literal a ∷ qs)
  after_hole : {ps qs : List Part} → Precedes ps qs → Precedes (hole ∷ ps) (hole ∷ qs)

Matches-tail :
    {a b : Str} {ps : List Part} {segs vs : List Str}
    → Matches (literal a ∷ ps) (b ∷ segs) vs
    → Matches ps segs vs
Matches-tail (exact m) = m

module _ {T : Type 0} where
  -- A registered shape that matches the segments.
  abbrev pub Candidate : Node T → List Str → List Part → List Str → Type 0
  Candidate n segs ps caps = Matches ps segs caps × (is_terminal (at_shape ps n) ≡ true)

  -- What a walk that ends at `n'` with the values `vs` has found.
  pub record Found (n : Node T) (segs vals : List Str) (n' : Node T) (vs : List Str) : Type 0 where
    pub shape : List Part
    pub captures : List Str
    pub candidate : Candidate n segs shape captures
    pub values : vs ≡ vals ++ captures
    pub reached : handlers n' ≡ at_shape shape n
    pub first : (qs : List Part) (caps : List Str) → Candidate n segs qs caps → Precedes shape qs

  abbrev pub NoCandidate : Node T → List Str → Type 0
  NoCandidate n segs = (qs : List Part) (caps : List Str) → Candidate n segs qs caps → ⊥

  -- The outcome of a walk, described by the shapes alone.
  pub data Outcome (n : Node T) (segs vals : List Str) : Option (Node T × List Str) → Type 0 where
    found :
        {n' : Node T} {vs : List Str}
        → Found n segs vals n' vs
        → Outcome n segs vals (some (n', vs))
    missed : NoCandidate n segs → Outcome n segs vals none

  at_shape-root : (n : Node T) → at_shape [] n ≡ handlers n
  at_shape-root (node ss w h) = at_shape-nil ss w h

  -- One segment further down, at a node with a literal or a parameter child.
  module _ (ss : Statics T) (w : Wildcard T) (h : Handlers T) (seg : Str) (segs : List Str) where
    NoLiteral : Type 0
    NoLiteral =
        (qs : List Part) (caps : List Str)
        → Candidate (node ss w h) (seg ∷ segs) (literal seg ∷ qs) caps
        → ⊥

    NoHole : Type 0
    NoHole =
        (qs : List Part) (caps : List Str)
        → Candidate (node ss w h) (seg ∷ segs) (hole ∷ qs) caps
        → ⊥

    neither : NoLiteral → NoHole → NoCandidate (node ss w h) (seg ∷ segs)
    unfolding NoLiteral NoHole
    neither l k [] caps (m, t) = elim m [ ]
    neither l k (literal a ∷ qs) caps (exact m, t) = l qs caps (exact m, t)
    neither l k (hole ∷ qs) caps (capture e m, t) = k qs _ (capture e m, t)

    module _ (child : Node T) (is_child : static_child seg ss ≡ some child) where
      literal_view :
          (ps : List Part) → at_shape (literal seg ∷ ps) (node ss w h) ≡ at_shape ps child
      literal_view ps = at_shape-literal seg ps ss w h ∙ ap (below ps) is_child

      first_literal :
          (ps : List Part)
          → ((qs : List Part) (caps : List Str) → Candidate child segs qs caps → Precedes ps qs)
          → (qs : List Part) (caps : List Str) → Candidate (node ss w h) (seg ∷ segs) qs caps
          → Precedes (literal seg ∷ ps) qs
      first_literal ps f [] caps (m, t) = elim m [ ]
      first_literal ps f (literal a ∷ qs) caps (exact m, t) =
          after_literal (f qs caps (m, rw (literal_view qs) at t))
      first_literal ps f (hole ∷ qs) caps (capture e m, t) = literal_first

      Found-literal :
          {vals vs : List Str} {n' : Node T}
          → Found child segs vals n' vs
          → Found (node ss w h) (seg ∷ segs) vals n' vs
      Found-literal f = record {
        shape = literal seg ∷ f.shape;
        captures = f.captures;
        candidate = (exact f.candidate.0, rw (literal_view f.shape) f.candidate.1);
        values = f.values;
        reached = f.reached ∙ sym (literal_view f.shape);
        first = first_literal f.shape f.first;
      }

      missed_literal : NoCandidate child segs → NoLiteral
      unfolding NoLiteral
      missed_literal k qs caps (m, t) = k qs caps (Matches-tail m, rw (literal_view qs) at t)

    no_literal_child : static_child seg ss ≡ none → NoLiteral
    unfolding NoLiteral
    no_literal_child e qs caps (m, t) = cc (rw (at_shape-literal, e) at t)

    module _ (child : Node T) (is_child : wildcard_child w ≡ some child) where
      hole_view : (ps : List Part) → at_shape (hole ∷ ps) (node ss w h) ≡ at_shape ps child
      hole_view ps = at_shape-hole ps ss w h ∙ ap (below ps) is_child

      first_hole :
          (ps : List Part)
          → NoLiteral
          → ((qs : List Part) (caps : List Str) → Candidate child segs qs caps → Precedes ps qs)
          → (qs : List Part) (caps : List Str) → Candidate (node ss w h) (seg ∷ segs) qs caps
          → Precedes (hole ∷ ps) qs
      unfolding NoLiteral
      first_hole ps l f [] caps (m, t) = elim m [ ]
      first_hole ps l f (literal a ∷ qs) caps (exact m, t) = absurd (l qs caps (exact m, t))
      first_hole ps l f (hole ∷ qs) caps (capture e m, t) =
          after_hole (f qs _ (m, rw (hole_view qs) at t))

      Found-hole :
          {vals vs : List Str} {n' : Node T}
          → NoLiteral
          → is_empty_seg seg ≡ false
          → Found child segs (vals ++ seg ∷ []) n' vs
          → Found (node ss w h) (seg ∷ segs) vals n' vs
      Found-hole {vals} l e f = record {
        shape = hole ∷ f.shape;
        captures = seg ∷ f.captures;
        candidate = (capture e f.candidate.0, rw (hole_view f.shape) f.candidate.1);
        values = f.values ∙ append_assoc vals (seg ∷ []) f.captures;
        reached = f.reached ∙ sym (hole_view f.shape);
        first = first_hole f.shape l f.first;
      }

      missed_hole : NoCandidate child segs → NoHole
      unfolding NoHole
      missed_hole k qs caps (capture e m, t) = k qs _ (m, rw (hole_view qs) at t)

    no_hole_child : wildcard_child w ≡ none → NoHole
    unfolding NoHole
    no_hole_child e qs caps (m, t) = cc (rw (at_shape-hole, e) at t)

    empty_segment : is_empty_seg seg ≡ true → NoHole
    unfolding NoHole
    empty_segment e qs caps (capture f m, t) = cc

    -- The outcome at the node, from those below it.
    after_literal_child :
        (child : Node T) (vals : List Str) {o second : Option (Node T × List Str)}
        → static_child seg ss ≡ some child
        → Outcome child segs vals o
        → (NoLiteral → Outcome (node ss w h) (seg ∷ segs) vals second)
        → Outcome (node ss w h) (seg ∷ segs) vals (first_found o second)
    after_literal_child child vals e (found f) k = found (Found-literal child e f)
    after_literal_child child vals e (missed m) k = k (missed_literal child e m)

    after_hole_child :
        (child : Node T) (vals : List Str) {o : Option (Node T × List Str)}
        → wildcard_child w ≡ some child
        → is_empty_seg seg ≡ false
        → NoLiteral
        → Outcome child segs (vals ++ seg ∷ []) o
        → Outcome (node ss w h) (seg ∷ segs) vals o
    after_hole_child child vals e s l (found f) = found (Found-hole child e l s f)
    after_hole_child child vals e s l (missed m) = missed (neither l (missed_hole child e m))

  -- Whatever the tree, a walk ends at the registered shape that matches the segments and has, of all
  -- those, literals where it first differs; it fails only if no registered shape matches.
  pub walk-Outcome : (n : Node T) (segs vals : List Str) → Outcome n segs vals (walk n segs vals)
  unfolding walk
  walk-Outcome n [] vals = elim (Bool-cases (is_terminal (handlers n))) [
    | inl t ↦ rw t (
        found (record {
          shape = [];
          captures = [];
          candidate = (done, rw at_shape-root t);
          values = sym (append-nil vals);
          reached = sym (at_shape-root n);
          first = λ qs caps c. nil_first qs caps c;
        }))
    | inr f ↦ rw f (missed (λ qs caps c. nil_missed qs caps f c))
  ]
    where
      nil_first : (qs : List Part) (caps : List Str) → Candidate n [] qs caps → Precedes [] qs
      nil_first qs caps (done, t) = same

      nil_missed :
          (qs : List Part) (caps : List Str)
          → is_terminal (handlers n) ≡ false
          → Candidate n [] qs caps
          → ⊥
      nil_missed qs caps f (done, t) = cc (rw at_shape-root at t)
  walk-Outcome (node ss w h) (seg ∷ segs) vals = elim (Option-cases (static_child seg ss)) [
    | inl e ↦ rw e (
        let l = no_literal_child ss w h seg segs e in
        elim (Option-cases (wildcard_child w)) [
          | inl none_there ↦
              rw none_there
                (missed (neither ss w h seg segs l (no_hole_child ss w h seg segs none_there)))
          | inr (hole_child, there) ↦ rw there (elim (Bool-cases (is_empty_seg seg)) [
            | inl s ↦ rw s (missed (neither ss w h seg segs l (empty_segment ss w h seg segs s)))
            | inr s ↦ rw s (
                after_hole_child ss w h seg segs hole_child vals there s l
                  (walk-Outcome hole_child segs (vals ++ seg ∷ [])))
          ])
        ])
    | inr (child, e) ↦ rw e (
        after_literal_child ss w h seg segs child vals e (walk-Outcome child segs vals) (λ l.
          elim (Option-cases (wildcard_child w)) [
            | inl none_there ↦
                rw none_there
                  (missed (neither ss w h seg segs l (no_hole_child ss w h seg segs none_there)))
            | inr (hole_child, there) ↦ rw there (elim (Bool-cases (is_empty_seg seg)) [
              | inl s ↦ rw s (missed (neither ss w h seg segs l (empty_segment ss w h seg segs s)))
              | inr s ↦ rw s (
                  after_hole_child ss w h seg segs hole_child vals there s l
                    (walk-Outcome hole_child segs (vals ++ seg ∷ [])))
            ])
          ]))
  ]
