-- ===== src/Dashboard/View/Shown.antt =====
-- What stands in a view: the elements of a name with their properties, and the texts.
use mathlib.Core.List.{append_assoc}
use walmart_assignment.Base.{
  ◌≡◌, refl, sym, ap, ◌∙◌, String, Bool, Option, none, some, List, [], ◌∷◌, ◌++◌, if◌then◌else◌,
}
use walmart_assignment.Base.Text.{str_eq}
use walmart_assignment.Dashboard.View.{
  Attr, flag, on, Node, Nodes, text, number, element, nil, cons, join_nodes, each,
}

module _ {E : Type 0} where
  -- The elements of a name, in order, with what stands in them.
  unfoldable mutual
    pub in_node : String → Node E → List (List (Attr E) × Nodes E)
    in_node name (text t) = []
    in_node name (number n) = []
    in_node name (element other attrs children) =
        let inner = in_nodes name children in
        if str_eq other name then (attrs, children) ∷ inner else inner

    pub in_nodes : String → Nodes E → List (List (Attr E) × Nodes E)
    in_nodes name nil = []
    in_nodes name (cons n ns) = in_node name n ++ in_nodes name ns

  -- The texts, in order, without the numbers.
  unfoldable mutual
    pub node_texts : Node E → List String
    node_texts (text t) = t ∷ []
    node_texts (number n) = []
    node_texts (element name attrs children) = texts children

    pub texts : Nodes E → List String
    texts nil = []
    texts (cons n ns) = node_texts n ++ texts ns

  -- `disabled`, `checked` and the like.
  unfoldable pub flag_of : String → List (Attr E) → Option Bool
  flag_of name [] = none
  flag_of name (flag other b ∷ rest) =
      let out = flag_of name rest in if str_eq other name then some b else out
  flag_of name (_ ∷ rest) = flag_of name rest

  -- The event of `onClick` and the like.
  unfoldable pub event_of : String → List (Attr E) → Option E
  event_of name [] = none
  event_of name (on other e ∷ rest) =
      let out = event_of name rest in if str_eq other name then some e else out
  event_of name (_ ∷ rest) = event_of name rest

  pub in_nodes-join_nodes :
      (name : String) (ms ns : Nodes E)
      → in_nodes name (join_nodes ms ns) ≡ in_nodes name ms ++ in_nodes name ns
  unfolding in_nodes
  in_nodes-join_nodes name nil ns = refl
  in_nodes-join_nodes name (cons m ms) ns =
      ap (λ x. in_node name m ++ x) (in_nodes-join_nodes name ms ns)
      ∙ sym (append_assoc (in_node name m) (in_nodes name ms) (in_nodes name ns))

  pub texts-join_nodes : (ms ns : Nodes E) → texts (join_nodes ms ns) ≡ texts ms ++ texts ns
  unfolding texts
  texts-join_nodes nil ns = refl
  texts-join_nodes (cons m ms) ns =
      ap (λ x. node_texts m ++ x) (texts-join_nodes ms ns)
      ∙ sym (append_assoc (node_texts m) (texts ms) (texts ns))

  -- A list of which no piece has such an element.
  pub in_nodes-each_eq_nil :
      {A : Type 0} (name : String) (f : A → Nodes E) (xs : List A)
      → ((a : A) → in_nodes name (f a) ≡ [])
      → in_nodes name (each f xs) ≡ []
  unfolding in_nodes
  in_nodes-each_eq_nil name f [] h = refl
  in_nodes-each_eq_nil name f (a ∷ xs) h =
      in_nodes-join_nodes name (f a) (each f xs) ∙ rw (h a) (in_nodes-each_eq_nil name f xs h)
