-- ===== src/Resource/Collection/Connect.antt =====
-- The second loop of `DependencyGraph`.
use gru.Prelude.{
  ℕ, String, ◌≡◌, refl, ◌∙◌, Bool, true, false, ◌||◌, ◌&&◌, some, List, [], ◌∷◌, arith, ◌==◌,
  ==_iff, ◌⊎◌, has_key, Map, lookup, is_some, eq_iff, elem, elem-append, mem_str, inl, inr,
  Option-cases, ap,
}
use gru.Errors.{Error, wants, subscribes, Result, ok, err, panic, ◌>>=◌}
use gru.Graph.Heap.{Heap, name_of, edges_of, add_edge}
use gru.Graph.Build.{is_at}
use gru.Resource.{Resource}
use gru.Resource.Collection.{Collection, keys, connect, connect_all}

-- Some name of the list stands for the node `q`.
abbrev pub names_node : Map ℕ → List String → ℕ → Bool
names_node nodes [] q = false
names_node nodes (d ∷ ds) q = is_at (lookup d nodes) q || names_node nodes ds q

-- The nodes that the resources of `rs` gain edges to.
abbrev pub wanted : {W : Type 0} → Map ℕ → Collection W → ℕ → ℕ → Bool
wanted nodes [] a y = false
wanted nodes ((id, r) ∷ rs) a y =
    is_at (lookup id nodes) a
      && (names_node nodes r.dependencies y || names_node nodes (keys r.subscribed_to) y)
    || wanted nodes rs a y

-- The heap has gained edges, and nothing else has changed.
pub record Gains (h h' : Heap) (gained : ℕ → ℕ → Bool) : Type 0 where
  pub next : h'.next ≡ h.next
  pub names : (a : ℕ) → name_of h' a ≡ name_of h a
  pub edges : (p q : ℕ) → elem q (edges_of h' p) ≡ (elem q (edges_of h p) || gained p q)

Gains-none :
    (h : Heap) (gained : ℕ → ℕ → Bool) → ((p q : ℕ) → gained p q ≡ false) → Gains h h gained
Gains-none h gained e = record {
  next = refl;
  names = λ a. refl;
  edges = λ p q. ground (arith, e p q);
}

Gains-then :
    (h h₁ h₂ : Heap) (g₁ g₂ g : ℕ → ℕ → Bool)
    → Gains h h₁ g₁
    → Gains h₁ h₂ g₂
    → ((p q : ℕ) → g p q ≡ (g₁ p q || g₂ p q))
    → Gains h h₂ g
Gains-then h h₁ h₂ g₁ g₂ g a b e = record {
  next = b.next ∙ a.next;
  names = λ p. b.names p ∙ a.names p;
  edges = λ p q. ground (arith, a.edges p q, b.edges p q, e p q);
}

Gains-add_edge :
    (h : Heap) (p q : ℕ) → Gains h (add_edge p (q ∷ []) h) (λ a y. (p == a) && (q == y))
unfolding add_edge
Gains-add_edge h p q = record {
  next = refl;
  names = λ a. ground (arith, ==_iff p a);
  edges = λ a y.
      ground (arith, ==_iff p a, ==_iff q y, ==_iff y q, elem-append y (edges_of h p) (q ∷ []));
}

module _ {W : Type 0} (c : Collection W) where
  -- Every name of the list is the id of a resource.
  abbrev pub AllFound : List String → Type 0
  AllFound ds = (d : String) → mem_str d ds ≡ true → is_some (lookup d c) ≡ true

  -- Whatever a resource of the list requires or subscribes to is there.
  abbrev pub AllPresent : Collection W → Type 0
  AllPresent [] = Unit
  AllPresent ((id, r) ∷ rs) =
      AllFound r.dependencies × AllFound (keys r.subscribed_to) × AllPresent rs

  -- A resource of `rs` names an id that the collection lacks, and `e` reports it.
  abbrev pub IsMissing : Collection W → Error → Type 0
  IsMissing [] e = ⊥
  IsMissing ((id, r) ∷ rs) e =
      ((d : String) × (mem_str d r.dependencies ≡ true)
        × (is_some (lookup d c) ≡ false)
        × (e ≡ wants id d))
      ⊎ (((d : String) × (mem_str d (keys r.subscribed_to) ≡ true)
            × (is_some (lookup d c) ≡ false)
            × (e ≡ subscribes id d))
          ⊎ IsMissing rs e)

module _ {W : Type 0} (c : Collection W) (nodes : Map ℕ)
    (same : (k : String) → is_some (lookup k c) ≡ is_some (lookup k nodes)) where
  -- What is known of the result for the names `ds`.
  abbrev pub Connected :
      (String → Error) → List String → (ℕ → ℕ → Bool) → Heap → Result Heap → Type 0
  Connected missing ds gained h (ok h') = AllFound c ds × Gains h h' gained
  Connected missing ds gained h (err e) =
      (d : String) × (mem_str d ds ≡ true) × (is_some (lookup d c) ≡ false) × (e ≡ missing d)
  Connected missing ds gained h panic = ⊥

  Connected-cons :
      (missing : String → Error) (d : String) (ds : List String) (p q : ℕ) (h : Heap)
      (r : Result Heap)
      → lookup d nodes ≡ some q
      → Connected missing ds (λ a y. (p == a) && names_node nodes ds y) (add_edge p (q ∷ []) h) r
      → Connected missing (d ∷ ds) (λ a y. (p == a) && ((q == y) || names_node nodes ds y)) h r
  Connected-cons missing d ds p q h (ok h') e w = (
    λ k m. ground (arith, w.0 k, same d, e, eq_iff d k, ap (λ j. lookup j c) {x = d} {y = k}),
    Gains-then h (add_edge p (q ∷ []) h) h' (λ a y. (p == a) && (q == y))
        (λ a y. (p == a) && names_node nodes ds y) _ (Gains-add_edge h p q) w.1
        (λ a y. ground (arith, e)),
  )
  Connected-cons missing d ds p q h (err e) at w = (w.0, ground (arith, w.1), w.2, w.3)
  Connected-cons missing d ds p q h panic at w = w

  pub connect-Connected :
      (id : String) (missing : String → Error) (p : ℕ) (ds : List String) (h : Heap)
      → lookup id nodes ≡ some p
      → Connected missing ds
          (λ a y. (p == a) && names_node nodes ds y)
          h
          (connect c nodes id missing ds h)
  unfolding connect
  connect-Connected id missing p [] h at = (λ d m. cc, Gains-none h _ (λ a y. ground arith))
  connect-Connected id missing p (d ∷ ds) h at = elim (Option-cases (lookup d c)) [
    | inl gone ↦ rw (gone, connect) (d, ground (arith, eq_iff d d), ground (arith, gone), refl)
    | inr (r, here) ↦ elim (Option-cases (lookup d nodes)) [
      | inl gone ↦ absurd (ground (arith, same d, here, gone))
      | inr (q, there) ↦
          rw (here, connect, at, there)
            (Connected-cons missing d ds p q h
              (connect c nodes id missing ds (add_edge p (q ∷ []) h)) there
              (connect-Connected id missing p ds (add_edge p (q ∷ []) h) at))
    ]
  ]

  abbrev pub AllConnected : Collection W → Heap → Result Heap → Type 0
  AllConnected rs h (ok h') = AllPresent c rs × Gains h h' (wanted nodes rs)
  AllConnected rs h (err e) = IsMissing c rs e
  AllConnected rs h panic = ⊥

  bind_Connected :
      (Q : Result Heap → Type 0) (missing : String → Error) (ds : List String)
      (gained : ℕ → ℕ → Bool) (h : Heap) (r : Result Heap) (k : Heap → Result Heap)
      → Connected missing ds gained h r
      → ((h₁ : Heap) → AllFound c ds → Gains h h₁ gained → Q (k h₁))
      → ((d : String) → mem_str d ds ≡ true → is_some (lookup d c) ≡ false → Q (err (missing d)))
      → Q (r >>= k)
  bind_Connected Q missing ds gained h (ok h₁) k w done failed = done h₁ w.0 w.1
  bind_Connected Q missing ds gained h (err e) k w done failed = rw w.3 (failed w.0 w.1 w.2)
  bind_Connected Q missing ds gained h panic k w done failed = absurd w

  AllConnected-cons :
      (id : String) (res : Resource W) (rs : Collection W) (p : ℕ) (h h₁ h₂ : Heap)
      (r : Result Heap)
      → lookup id nodes ≡ some p
      → AllFound c res.dependencies
      → AllFound c (keys res.subscribed_to)
      → Gains h h₁ (λ a y. (p == a) && names_node nodes res.dependencies y)
      → Gains h₁ h₂ (λ a y. (p == a) && names_node nodes (keys res.subscribed_to) y)
      → AllConnected rs h₂ r
      → AllConnected ((id, res) ∷ rs) h r
  AllConnected-cons id res rs p h h₁ h₂ (ok h') at f₁ f₂ g₁ g₂ w = (
    (f₁, f₂, w.0),
    Gains-then h h₂ h' _ (wanted nodes rs) _
        (Gains-then h h₁ h₂ _ _
          (λ a y.
            (p == a)
            && (names_node nodes res.dependencies y || names_node nodes (keys res.subscribed_to) y))
          g₁ g₂ (λ a y. ground arith))
        w.1 (λ a y. ground (arith, at)),
  )
  AllConnected-cons id res rs p h h₁ h₂ (err e) at f₁ f₂ g₁ g₂ w = inr (inr w)
  AllConnected-cons id res rs p h h₁ h₂ panic at f₁ f₂ g₁ g₂ w = w

  pub connect_all-AllConnected :
      (rs : Collection W) (h : Heap)
      → ((id : String) → has_key id rs ≡ true → is_some (lookup id nodes) ≡ true)
      → AllConnected rs h (connect_all c nodes rs h)
  unfolding connect_all
  connect_all-AllConnected [] h named = (tt, Gains-none h _ (λ a y. refl))
  connect_all-AllConnected ((id, res) ∷ rs) h named = elim (Option-cases (lookup id nodes)) [
    | inl gone ↦ absurd (ground (arith, named id, eq_iff id id, gone))
    | inr (p, at) ↦
        let subs = keys res.subscribed_to in
        bind_Connected (AllConnected ((id, res) ∷ rs) h) (wants id) res.dependencies _ h
          (connect c nodes id (wants id) res.dependencies h) _
          (connect-Connected id (wants id) p res.dependencies h at)
          (λ h₁ f₁ g₁.
            bind_Connected (AllConnected ((id, res) ∷ rs) h) (subscribes id) subs _ h₁
              (connect c nodes id (subscribes id) subs h₁) (connect_all c nodes rs)
              (connect-Connected id (subscribes id) p subs h₁ at)
              (λ h₂ f₂ g₂.
                AllConnected-cons id res rs p h h₁ h₂ (connect_all c nodes rs h₂) at f₁ f₂ g₁ g₂
                  (connect_all-AllConnected rs h₂ (λ k m. named k (ground (arith, m)))))
              (λ d m gone. inr (inl (d, m, gone, refl))))
          (λ d m gone. inl (d, m, gone, refl))
  ]
