-- ===== src/Dashboard/View/Handlers.antt =====
-- The events that the handlers of a view can send.
use walmart_assignment.Base.{
  String, ℕ, suc, ◌+◌, ◌≤◌, ◌<◌, Bool, true, false, List, [], ◌∷◌, All, length, arith,
}
use walmart_assignment.Dashboard.View.{
  Attr, attr, count, flag, values, on, on_text, on_flag, Node, Nodes, text, number, element, nil,
  cons, join_nodes, when, each, each_from,
}

module _ {E : Type 0} (P : E → Type 0) where
  -- Whatever the browser gives to the handler, the event satisfies `P`.
  abbrev pub Sends : Attr E → Type 0
  Sends (on name e) = P e
  Sends (on_text name f) = (t : String) → P (f t)
  Sends (on_flag name f) = (b : Bool) → P (f b)
  Sends _ = Unit

  unfoldable mutual
    pub NodeSends : Node E → Type 0
    NodeSends (text t) = Unit
    NodeSends (number n) = Unit
    NodeSends (element name attrs children) = All Sends attrs × NodesSend children

    pub NodesSend : Nodes E → Type 0
    NodesSend nil = Unit
    NodesSend (cons n ns) = NodeSends n × NodesSend ns

  pub join_nodes-NodesSend :
      (ms ns : Nodes E) → NodesSend ms → NodesSend ns → NodesSend (join_nodes ms ns)
  unfolding NodesSend
  join_nodes-NodesSend nil ns h k = k
  join_nodes-NodesSend (cons m ms) ns (g, h) k = (g, join_nodes-NodesSend ms ns h k)

  pub when-NodesSend : (b : Bool) (ns : Nodes E) → NodesSend ns → NodesSend (when b ns)
  unfolding NodesSend
  when-NodesSend true ns h = h
  when-NodesSend false ns h = tt

  pub each-NodesSend :
      {A : Type 0} (f : A → Nodes E) (xs : List A)
      → All (λ a. NodesSend (f a)) xs
      → NodesSend (each f xs)
  unfolding NodesSend
  each-NodesSend f [] h = tt
  each-NodesSend f (a ∷ xs) (g, h) =
      join_nodes-NodesSend (f a) (each f xs) g (each-NodesSend f xs h)

  -- The pieces of a list by their index, which stays below a bound.
  pub each_from-NodesSend :
      {A : Type 0} (f : ℕ → A → Nodes E) (bound i : ℕ) (xs : List A)
      → i + length xs ≤ bound
      → ((k : ℕ) (a : A) → k < bound → NodesSend (f k a))
      → NodesSend (each_from f i xs)
  unfolding NodesSend
  each_from-NodesSend f bound i [] h k = tt
  each_from-NodesSend f bound i (a ∷ xs) h k =
      join_nodes-NodesSend (f i a) (each_from f (suc i) xs) (k i a (omega (arith, h)))
        (each_from-NodesSend f bound (suc i) xs (omega (arith, h)) k)

module _ {E : Type 0} (P Q : E → Type 0) (weaken : (e : E) → P e → Q e) where
  Sends-mono : (attrs : List (Attr E)) → All (Sends P) attrs → All (Sends Q) attrs
  Sends-mono [] h = tt
  Sends-mono (on name e ∷ rest) (h, hs) = (weaken e h, Sends-mono rest hs)
  Sends-mono (on_text name f ∷ rest) (h, hs) = ((λ t. weaken (f t) (h t)), Sends-mono rest hs)
  Sends-mono (on_flag name f ∷ rest) (h, hs) = ((λ b. weaken (f b) (h b)), Sends-mono rest hs)
  Sends-mono (attr name t ∷ rest) (h, hs) = (tt, Sends-mono rest hs)
  Sends-mono (count name n ∷ rest) (h, hs) = (tt, Sends-mono rest hs)
  Sends-mono (flag name b ∷ rest) (h, hs) = (tt, Sends-mono rest hs)
  Sends-mono (values name ts ∷ rest) (h, hs) = (tt, Sends-mono rest hs)

  -- What the handlers send satisfies a weaker property too.
  mutual
    unfolding NodesSend

    NodeSends-mono : (n : Node E) → NodeSends P n → NodeSends Q n
    NodeSends-mono (text t) h = tt
    NodeSends-mono (number k) h = tt
    NodeSends-mono (element name attrs children) (h, k) =
        (Sends-mono attrs h, NodesSend-mono children k)

    pub NodesSend-mono : (ns : Nodes E) → NodesSend P ns → NodesSend Q ns
    NodesSend-mono nil h = tt
    NodesSend-mono (cons n ns) (h, k) = (NodeSends-mono n h, NodesSend-mono ns k)
