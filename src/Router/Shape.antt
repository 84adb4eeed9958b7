-- ===== src/Router/Shape.antt =====
-- The abstract view of the tree: the handlers at each shape of template, whatever the parameters
-- are called.
use nina.Prelude.{
  Bool, true, false, Option, none, some, List, [], ◌∷◌, ◌≡◌, ◌↔◌, ◌&&◌, refl, Str, arith,
  if◌then◌else◌, ◌==◌, same_str, same_str_iff, str_eq,
}
use nina.Router.{
  Handlers, Node, Statics, Wildcard, node, no_static, static, new_node, handlers, static_child,
  set_static, or_new, wildcard_child, param_name, is_empty_seg,
}

pub data Part : Type 0 where
  literal : Str → Part
  hole : Part

abbrev pub part_of : Str → Option Str → Part
part_of seg none = literal seg
part_of seg (some name) = hole

-- The shape of a template.
unfoldable pub shape : List Str → List Part
unfolding param_name
shape [] = []
shape (seg ∷ segs) = part_of seg (param_name seg) ∷ shape segs

-- The names of its parameters, in order.
unfoldable pub names_of : List Str → List Str
unfolding param_name
names_of [] = []
names_of (seg ∷ segs) = elim (param_name seg) [
  | none ↦ names_of segs
  | some name ↦ name ∷ names_of segs
]

-- A shape matches the segments of a path and captures values; a parameter matches no empty segment.
pub data Matches : List Part → List Str → List Str → Type 0 where
  done : Matches [] [] []
  exact :
      {seg : Str} {ps : List Part} {segs vs : List Str}
      → Matches ps segs vs
      → Matches (literal seg ∷ ps) (seg ∷ segs) vs
  capture :
      {seg : Str} {ps : List Part} {segs vs : List Str}
      → is_empty_seg seg ≡ false
      → Matches ps segs vs
      → Matches (hole ∷ ps) (seg ∷ segs) (seg ∷ vs)

module _ {T : Type 0} where
  abbrev pub no_handlers : Handlers T
  no_handlers = record { by_method = none; methods = [] }

  -- What the tree holds at a shape.
  unfoldable pub at_shape : List Part → Node T → Handlers T
  unfolding static_child
  at_shape [] n = handlers n
  at_shape (literal seg ∷ ps) (node ss w h) = elim (static_child seg ss) [
    | none ↦ no_handlers
    | some n ↦ at_shape ps n
  ]
  at_shape (hole ∷ ps) (node ss w h) = elim (wildcard_child w) [
    | none ↦ no_handlers
    | some n ↦ at_shape ps n
  ]

  pub at_shape-new_node : (ps : List Part) → at_shape ps new_node ≡ no_handlers
  unfolding at_shape
  at_shape-new_node [] = refl
  at_shape-new_node (literal seg ∷ ps) = refl
  at_shape-new_node (hole ∷ ps) = refl

  pub static_child-set_static :
      (k j : Str) (n : Node T) (ss : Statics T)
      → static_child j (set_static k n ss) ≡ (if k == j then some n else static_child j ss)
  unfolding static_child set_static
  static_child-set_static k j n no_static = refl
  static_child-set_static k j n (static i m ss) = ground (
    arith,
    same_str_iff k j,
    same_str_iff i k,
    same_str_iff i j,
    static_child-set_static k j n ss,
  )

  -- What a missing child would hold.
  abbrev pub below : List Part → Option (Node T) → Handlers T
  below ps none = no_handlers
  below ps (some n) = at_shape ps n

  pub at_shape-or_new : (ps : List Part) (o : Option (Node T)) → at_shape ps (or_new o) ≡ below ps o
  at_shape-or_new ps none = at_shape-new_node ps
  at_shape-or_new ps (some n) = refl

  pub at_shape-literal :
      (seg : Str) (ps : List Part) (ss : Statics T) (w : Wildcard T) (h : Handlers T)
      → at_shape (literal seg ∷ ps) (node ss w h) ≡ below ps (static_child seg ss)
  unfolding at_shape
  at_shape-literal seg ps ss w h = ground arith

  pub at_shape-hole :
      (ps : List Part) (ss : Statics T) (w : Wildcard T) (h : Handlers T)
      → at_shape (hole ∷ ps) (node ss w h) ≡ below ps (wildcard_child w)
  unfolding at_shape
  at_shape-hole ps ss w h = ground arith

  pub at_shape-nil :
      (ss : Statics T) (w : Wildcard T) (h : Handlers T) → at_shape [] (node ss w h) ≡ h
  unfolding at_shape
  at_shape-nil ss w h = refl

unfoldable pub same_shape : List Part → List Part → Bool
same_shape [] [] = true
same_shape (literal a ∷ ps) (literal b ∷ qs) = same_str a b && same_shape ps qs
same_shape (hole ∷ ps) (hole ∷ qs) = same_shape ps qs
same_shape _ _ = false

pub same_shape_iff : (ps qs : List Part) → (same_shape ps qs ≡ true) ↔ (ps ≡ qs)
unfolding same_shape
same_shape_iff [] [] = ground arith
same_shape_iff (literal a ∷ ps) (literal b ∷ qs) =
    ground (arith, same_str_iff a b, same_shape_iff ps qs)
same_shape_iff (hole ∷ ps) (hole ∷ qs) = ground (arith, same_shape_iff ps qs)
same_shape_iff _ _ = ground arith

pub names_of-fixed :
    (seg : Str) (segs : List Str) → param_name seg ≡ none → names_of (seg ∷ segs) ≡ names_of segs
unfolding names_of
names_of-fixed seg segs fixed = rw (fixed, names_of)

pub names_of-param :
    (seg name : Str) (segs : List Str)
    → param_name seg ≡ some name
    → names_of (seg ∷ segs) ≡ name ∷ names_of segs
unfolding names_of
names_of-param seg name segs is_param = rw (is_param, names_of)

pub shape-fixed :
    (seg : Str) (segs : List Str)
    → param_name seg ≡ none
    → shape (seg ∷ segs) ≡ literal seg ∷ shape segs
unfolding shape
shape-fixed seg segs fixed = rw fixed

pub shape-param :
    (seg name : Str) (segs : List Str)
    → param_name seg ≡ some name
    → shape (seg ∷ segs) ≡ hole ∷ shape segs
unfolding shape
shape-param seg name segs is_param = rw is_param

module _ {T : Type 0} (seg : Str) (segs : List Str) (ss : Statics T) (w : Wildcard T)
    (h : Handlers T) where
  pub at_shape-fixed :
      param_name seg ≡ none
      → at_shape (shape (seg ∷ segs)) (node ss w h)
        ≡ at_shape (shape segs) (or_new (static_child seg ss))
  at_shape-fixed fixed = rw (shape-fixed seg segs fixed, at_shape-literal, at_shape-or_new)

  pub at_shape-param :
      (name : Str)
      → param_name seg ≡ some name
      → at_shape (shape (seg ∷ segs)) (node ss w h)
        ≡ at_shape (shape segs) (or_new (wildcard_child w))
  at_shape-param name is_param =
      rw (shape-param seg name segs is_param, at_shape-hole, at_shape-or_new)
