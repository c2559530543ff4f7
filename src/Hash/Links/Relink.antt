-- ===== src/Hash/Links/Relink.antt =====
-- hash.c: a node is taken out of a chain that is linked both ways.
use dragonsunited_minecraft.Base.{
  ℕ, true, false, List, [], ◌∷◌, ◌++◌, Option, none, some, ◌≡◌, ◌≢◌, refl, sym, ap, ◌∙◌, arith,
  ◌==◌,
}
use mathlib.Core.Path.{subst}
use dragonsunited_minecraft.Hash.Links.{
  HashNode, Memory, Linked, Fresh, Apart, store_node, set_next, set_prev, unlink_before,
  unlink_behind, unlink_node,
}

module _ {K V : Type 0} where
  pub store_node_self : (h : Memory K V) (p : ℕ) (c : HashNode K V) → store_node h p c p ≡ c
  unfolding store_node
  store_node_self h p c = rw (let e : p == p ≡ true = ground arith in e) refl

  pub store_node_other :
      (h : Memory K V) (p : ℕ) (c : HashNode K V) (q : ℕ) → q ≢ p → store_node h p c q ≡ h q
  unfolding store_node
  store_node_other h p c q n = rw (let e : q == p ≡ false = ground arith in e) refl

  -- A change of another node.
  pub store_node-Linked :
      (h : Memory K V) (p : ℕ) (c : HashNode K V) (prev at_ : Option ℕ) (zs : List ℕ)
      → Fresh p zs
      → Linked h prev at_ zs
      → Linked (store_node h p c) prev at_ zs
  store_node-Linked h p c prev at_ [] f l = l
  store_node-Linked h p c prev at_ (a ∷ zs) f l =
      let same = store_node_other h p c a f.0 in
      (
        l.0,
        ap (λ z. z.p_prev) same ∙ l.1,
        rw same (store_node-Linked h p c (some a) (h a).p_next zs f.1 l.2),
      )

  -- The chain of a node that is as before, with a new chain behind it.
  pub behind :
      (h h' : Memory K V) (prev at_ next : Option ℕ) (a : ℕ) (zs : List ℕ)
      → at_ ≡ some a
      → (h' a).p_prev ≡ prev
      → (h' a).p_next ≡ next
      → Linked h' (some a) next zs
      → Linked h' prev at_ (a ∷ zs)
  behind h h' prev at_ next a zs e p n l = (e, p, subst (λ z. Linked h' (some a) z zs) (sym n) l)

  -- A chain whose first node gets another one before it.
  pub unlink_behind-Linked :
      (h : Memory K V) (prev prev' at_ : Option ℕ) (zs : List ℕ)
      → Apart zs
      → Linked h prev at_ zs
      → Linked (unlink_behind h at_ prev') prev' at_ zs
  unlink_behind-Linked h prev prev' at_ [] d l = l
  unlink_behind-Linked h prev prev' at_ (a ∷ zs) d l =
      let h' = set_prev h a prev' in
      let self : h' a ≡ record (h a) { p_prev = prev' } =
        unfold set_prev in store_node_self h a (record (h a) { p_prev = prev' }) in
      let later : Linked h' (some a) (h a).p_next zs =
        unfold set_prev in store_node-Linked h a _ (some a) (h a).p_next zs d.0 l.2 in
      subst (λ z. Linked (unlink_behind h z prev') prev' at_ (a ∷ zs)) (sym l.0)
        (unfold unlink_behind in
          behind h h' prev' at_ (h a).p_next a zs l.0 (ap (λ z. z.p_prev) self)
            (ap (λ z. z.p_next) self) later)

  unlink_behind-other :
      (h : Memory K V) (prev prev' at_ : Option ℕ) (zs : List ℕ) (x : ℕ)
      → Fresh x zs
      → Linked h prev at_ zs
      → unlink_behind h at_ prev' x ≡ h x
  unfolding unlink_behind set_prev
  unlink_behind-other h prev prev' at_ [] x f l = ap (λ z. unlink_behind h z prev' x) l
  unlink_behind-other h prev prev' at_ (a ∷ zs) x f l =
      ap (λ z. unlink_behind h z prev' x) l.0 ∙ store_node_other h a _ x (λ e. f.0 (sym e))

  abbrev stage : ℕ → Memory K V × Option ℕ → Memory K V × Option ℕ
  stage p (h, bucket) = (unlink_behind h (h p).p_next (h p).p_prev, bucket)

  unlink_first :
      (h : Memory K V) (bucket : Option ℕ) (p : ℕ)
      → (h p).p_prev ≡ none
      → unlink_node h bucket p ≡ (unlink_behind h (h p).p_next none, (h p).p_next)
  unfolding unlink_node unlink_before
  unlink_first h bucket p e =
      ap (λ z. stage p (unlink_before h bucket z (h p).p_next)) e
      ∙ ap (λ z. (unlink_behind h (h p).p_next z, (h p).p_next)) e

  unlink_later :
      (h : Memory K V) (bucket : Option ℕ) (p a : ℕ)
      → (h p).p_prev ≡ some a
      → p ≢ a
      → unlink_node h bucket p
        ≡ (unlink_behind (set_next h a (h p).p_next) (h p).p_next (some a), bucket)
  unfolding unlink_node unlink_before
  unlink_later h bucket p a e n =
      let h1 = set_next h a (h p).p_next in
      let same : h1 p ≡ h p = unfold set_next in store_node_other h a _ p n in
      ap (λ z. stage p (unlink_before h bucket z (h p).p_next)) e
      ∙ ap (λ z. (unlink_behind h1 z.p_next z.p_prev, bucket)) same
      ∙ ap (λ z. (unlink_behind h1 (h p).p_next z, bucket)) e

  -- The relinking of a node that is not the first changes no node outside the chain, nor the bucket.
  record Inner (h : Memory K V) (bucket prev at_ : Option ℕ) (a p : ℕ) (xs ys : List ℕ)
      : Type 0 where
    chain : Linked (unlink_node h bucket p).0 prev at_ (a ∷ xs ++ ys)
    outside : (x : ℕ) → Fresh x (a ∷ xs ++ p ∷ ys) → (unlink_node h bucket p).0 x ≡ h x
    start : (unlink_node h bucket p).1 ≡ bucket

  unlink_next-Inner :
      (h : Memory K V) (bucket prev at_ : Option ℕ) (a p : ℕ) (ys : List ℕ)
      → Apart (a ∷ p ∷ ys)
      → Linked h prev at_ (a ∷ p ∷ ys)
      → Inner h bucket prev at_ a p [] ys
  unlink_next-Inner h bucket prev at_ a p ys d l =
      let (e0, e1, (e2, e3, l')) = l in
      let ((ne, fresh), (fresh_p, apart)) = d in
      let h1 = set_next h a (h p).p_next in
      let h2 = unlink_behind h1 (h p).p_next (some a) in
      let step = unlink_later h bucket p a e3 ne in
      let here : Linked h1 (some p) (h p).p_next ys =
        unfold set_next in store_node-Linked h a _ (some p) (h p).p_next ys fresh l' in
      let same : h2 a ≡ record (h a) { p_next = (h p).p_next } =
        unlink_behind-other h1 (some p) (some a) (h p).p_next ys a fresh here
        ∙ unfold set_next in store_node_self h a _ in
      let done : Linked h2 prev at_ (a ∷ ys) =
        behind h h2 prev at_ (h p).p_next a ys e0 (ap (λ z. z.p_prev) same ∙ e1)
          (ap (λ z. z.p_next) same)
          (unlink_behind-Linked h1 (some p) (some a) (h p).p_next ys apart here) in
      record {
        chain = subst (λ z. Linked z.0 prev at_ (a ∷ ys)) (sym step) done;
        outside = λ x f.
            let (na, (np, fx)) = f in
            ap (λ z. z.0 x) step
            ∙ unlink_behind-other h1 (some p) (some a) (h p).p_next ys x fx here
            ∙ unfold set_next in store_node_other h a _ x (λ e. na (sym e));
        start = ap (λ z. z.1) step;
      }

  unlink-Inner :
      (h : Memory K V) (bucket prev at_ : Option ℕ) (a p : ℕ) (xs ys : List ℕ)
      → Apart (a ∷ xs ++ p ∷ ys)
      → Linked h prev at_ (a ∷ xs ++ p ∷ ys)
      → Inner h bucket prev at_ a p xs ys
  unlink-Inner h bucket prev at_ a p [] ys d l = unlink_next-Inner h bucket prev at_ a p ys d l
  unlink-Inner h bucket prev at_ a p (b ∷ xs) ys d l =
      let i = unlink-Inner h bucket (some a) (h a).p_next b p xs ys d.1 l.2 in
      let same = i.outside a d.0 in
      let (e0, e1, _) = l in
      record {
        chain =
            behind h (unlink_node h bucket p).0 prev at_ (h a).p_next a (b ∷ xs ++ ys) e0
              (ap (λ z. z.p_prev) same ∙ e1) (ap (λ z. z.p_next) same) i.chain;
        outside = λ x f. i.outside x f.1;
        start = i.start;
      }

  pub unlink_node-Linked :
      (h : Memory K V) (bucket : Option ℕ) (p : ℕ) (xs ys : List ℕ)
      → Apart (xs ++ p ∷ ys)
      → Linked h none bucket (xs ++ p ∷ ys)
      → Linked (unlink_node h bucket p).0 none (unlink_node h bucket p).1 (xs ++ ys)
  unlink_node-Linked h bucket p [] ys d l =
      let (e0, e1, _) = l in
      subst (λ z. Linked z.0 none z.1 ys) (sym (unlink_first h bucket p e1))
        (unlink_behind-Linked h (some p) none (h p).p_next ys d.1 l.2)
  unlink_node-Linked h bucket p (a ∷ xs) ys d l =
      let i = unlink-Inner h bucket none bucket a p xs ys d l in
      subst (λ z. Linked (unlink_node h bucket p).0 none z (a ∷ xs ++ ys)) (sym i.start) i.chain
