-- ===== src/Ir/Builder/Interning.antt =====
-- The invariant of `Circuit` (src/opencollate/sequential_ir.py): nodes are in topological order, and
-- the intern table is the inverse of the list of nodes.
use mathlib.Core.Path.{subst}
use open_collate.Common.{
  ℕ, zero, suc, ◌+◌, ◌≡◌, ◌≤◌, ◌<◌, refl, sym, ap, ◌∙◌, Bool, true, false, not, ◌&&◌, Option, none,
  some, List, [], ◌∷◌, ◌++◌, ok, length, leb, All, get_elem?, guard-eq-ok, ok-injective, arith,
  length-append, inl, inr, ◌⊎◌,
}
use open_collate.Ir.Circuit.{Op, Payload, Node}
use open_collate.Ir.Builder.{
  Node-discrete, Circuit, interned, all_below, append_node, intern_node, node_of, add,
}

-- Nodes from index `i` on read only nodes before them, and have the widths that `add` admits.
abbrev pub IsOrdered : ℕ → List Node → Type 0
IsOrdered i [] = Unit
IsOrdered i (n ∷ ns) =
    (All (λ a. a < i) n.args × ((1 ≤ n.width) × (n.width ≤ 256))) × IsOrdered (suc i) ns

-- The table of nodes from index `i` on.
abbrev pub table : ℕ → List Node → List (Node × ℕ)
table i [] = []
table i (n ∷ ns) = (n, i) ∷ table (suc i) ns

pub record IsWellFormed (c : Circuit) : Type 0 where
  pub ordered : IsOrdered 0 c.nodes
  pub tabled : c.intern ≡ table 0 c.nodes
  pub bounded : length c.nodes ≤ 32_768
  -- no node stands twice
  pub distinct : (i : ℕ) (n : Node) → get_elem? c.nodes i ≡ some n → interned n c.intern ≡ some i

zero_plus : (k : ℕ) → k ≡ 0 + k
zero_plus k = omega arith

plus_zero : (i : ℕ) → i + 0 ≡ i
plus_zero i = omega arith

plus_suc : (i k : ℕ) → i + suc k ≡ suc i + k
plus_suc i k = omega arith

IsOrdered-append :
    (i : ℕ) (ns : List Node) (n : Node)
    → IsOrdered i ns
    → All (λ a. a < i + length ns) n.args × ((1 ≤ n.width) × (n.width ≤ 256))
    → IsOrdered i (ns ++ n ∷ [])
IsOrdered-append i [] n h (p, q) =
    ((subst (λ (k : ℕ). All (λ a. a < k) n.args) (plus_zero i) p, q), tt)
IsOrdered-append i (m ∷ ns) n (h, hs) (p, q) = (
  h,
  IsOrdered-append (suc i) ns n hs
      (subst (λ (k : ℕ). All (λ a. a < k) n.args) (plus_suc i (length ns)) p, q),
)

table-append :
    (i : ℕ) (ns : List Node) (n : Node)
    → table i (ns ++ n ∷ []) ≡ table i ns ++ (n, i + length ns) ∷ []
table-append i [] n = ap (λ (j : ℕ). (n, j) ∷ []) (omega arith)
table-append i (m ∷ ns) n =
    ap (λ (t : List (Node × ℕ)). (m, i) ∷ t)
      (table-append (suc i) ns n ∙ ap (λ (j : ℕ). table (suc i) ns ++ (n, j) ∷ []) (omega arith))

interned-cases :
    (n m : Node) (i : ℕ) (d : List (Node × ℕ))
    → ((m ≡ n) × (interned n ((m, i) ∷ d) ≡ some i))
      ⊎ ((¬ (m ≡ n)) × (interned n ((m, i) ∷ d) ≡ interned n d))
unfolding interned
interned-cases n m i d =
    elim (Node-discrete m n)
      as (λ r.
        ((m ≡ n) × (elim r as (λ _. Option ℕ) [ yes _ ↦ some i | no _ ↦ interned n d ] ≡ some i))
        ⊎ ((¬ (m ≡ n))
            × (elim r as (λ _. Option ℕ) [ yes _ ↦ some i | no _ ↦ interned n d ]
                ≡ interned n d))) [
                  | yes same ↦ inl (same, refl)
                  | no different ↦ inr (different, refl)
                ]

-- A node that the table has stands where it says.
interned-table :
    (i : ℕ) (ns : List Node) (n : Node) (j : ℕ)
    → interned n (table i ns) ≡ some j
    → (k : ℕ) × ((j ≡ i + k) × (get_elem? ns k ≡ some n))
unfolding interned
interned-table i [] n j e = cc
interned-table i (m ∷ ns) n j e = elim (interned-cases n m i (table (suc i) ns)) [
  | inl (same, p) ↦ (0, ground arith)
  | inr (_, p) ↦
      let (k, (q, r)) = interned-table (suc i) ns n j (sym p ∙ e) in (suc k, (omega (arith, q), r))
]

interned-append :
    (n : Node) (d e : List (Node × ℕ)) {j : ℕ}
    → interned n d ≡ some j
    → interned n (d ++ e) ≡ some j
unfolding interned
interned-append n [] e h = cc
interned-append n ((k, j) ∷ d) e h = elim (interned-cases n k j d) [
  | inl (same, p) ↦ elim (interned-cases n k j (d ++ e)) [
    | inl (_, q) ↦ q ∙ sym p ∙ h
    | inr (different, q) ↦ absurd (different same)
  ]
  | inr (different, p) ↦ elim (interned-cases n k j (d ++ e)) [
    | inl (same, q) ↦ absurd (different same)
    | inr (_, q) ↦ q ∙ interned-append n d e (sym p ∙ h)
  ]
]

interned-new :
    (n : Node) (d : List (Node × ℕ)) (i : ℕ)
    → interned n d ≡ none
    → interned n (d ++ (n, i) ∷ []) ≡ some i
unfolding interned
interned-new n [] i h = elim (interned-cases n n i []) [
  | inl (_, q) ↦ q
  | inr (different, _) ↦ absurd (different refl)
]
interned-new n ((k, j) ∷ d) i h = elim (interned-cases n k j d) [
  | inl (same, p) ↦ cc
  | inr (different, p) ↦ elim (interned-cases n k j (d ++ (n, i) ∷ [])) [
    | inl (same, q) ↦ absurd (different same)
    | inr (_, q) ↦ q ∙ interned-new n d i (sym p ∙ h)
  ]
]

-- What is read from a list and one more element: an old element, or the new one at the end.
get_elem?-snoc :
    (ns : List Node) (n m : Node) (i : ℕ)
    → get_elem? (ns ++ n ∷ []) i ≡ some m
    → (get_elem? ns i ≡ some m) ⊎ ((i ≡ length ns) × (m ≡ n))
get_elem?-snoc [] n m zero e = ground arith
get_elem?-snoc [] n m (suc i) e = cc
get_elem?-snoc (k ∷ ns) n m zero e = inl e
get_elem?-snoc (k ∷ ns) n m (suc i) e = elim (get_elem?-snoc ns n m i e) [
  | inl h ↦ inl h
  | inr (h, same) ↦ inr (ap suc h, same)
]

all_below-All :
    (count : ℕ) (args : List ℕ) → all_below count args ≡ true → All (λ a. a < count) args
unfolding all_below
all_below-All count [] e = tt
all_below-All count (a ∷ args) e = (ground arith, all_below-All count args (ground arith))

append_node-IsWellFormed :
    (n : Node) (c : Circuit) {r : ℕ × Circuit}
    → IsWellFormed c
    → All (λ a. a < length c.nodes) n.args × ((1 ≤ n.width) × (n.width ≤ 256))
    → interned n c.intern ≡ none
    → append_node n c ≡ ok r
    → IsWellFormed r.1
unfolding append_node
append_node-IsWellFormed n c {r} h good new e =
    let (room, q) = guard-eq-ok (leb 32_768 (length c.nodes)) _ _ e in
    subst (λ (x : ℕ × Circuit). IsWellFormed x.1) (ok-injective q)
      (record {
        ordered = IsOrdered-append 0 c.nodes n h.ordered (
          subst (λ (k : ℕ). All (λ a. a < k) n.args) (zero_plus (length c.nodes)) good.0,
          good.1,
        );
        tabled =
            ap (λ (t : List (Node × ℕ)). t ++ (n, length c.nodes) ∷ []) h.tabled
            ∙ ap (λ (k : ℕ). table 0 c.nodes ++ (n, k) ∷ []) (zero_plus (length c.nodes))
            ∙ sym (table-append 0 c.nodes n);
        bounded = omega (arith, length-append c.nodes (n ∷ []), leb→lt' room);
        distinct = λ i m read. elim (get_elem?-snoc c.nodes n m i read) [
          | inl old ↦ interned-append m c.intern ((n, length c.nodes) ∷ []) (h.distinct i m old)
          | inr (last, same) ↦ rw (last, same) (interned-new n c.intern (length c.nodes) new)
        ];
      })
  where
    leb→lt' : leb 32_768 (length c.nodes) ≡ false → length c.nodes < 32_768
    leb→lt' p = ground arith

get_elem?-append :
    (ns ms : List Node) (i : ℕ) (m : Node)
    → get_elem? ns i ≡ some m
    → get_elem? (ns ++ ms) i ≡ some m
get_elem?-append [] ms i m e = cc
get_elem?-append (n ∷ ns) ms zero m e = e
get_elem?-append (n ∷ ns) ms (suc i) m e = get_elem?-append ns ms i m e

get_elem?-last : (ns : List Node) (n : Node) → get_elem? (ns ++ n ∷ []) (length ns) ≡ some n
get_elem?-last [] n = refl
get_elem?-last (m ∷ ns) n = get_elem?-last ns n

abbrev pub Interns : Node → Circuit → ℕ × Circuit → Type 0
Interns n c r =
    IsWellFormed r.1
    × ((get_elem? r.1.nodes r.0 ≡ some n)
        × ((i : ℕ) (m : Node) → get_elem? c.nodes i ≡ some m → get_elem? r.1.nodes i ≡ some m))

intern_node-Interns :
    (n : Node) (c : Circuit) (found : Option ℕ) {r : ℕ × Circuit}
    → interned n c.intern ≡ found
    → IsWellFormed c
    → All (λ a. a < length c.nodes) n.args × ((1 ≤ n.width) × (n.width ≤ 256))
    → intern_node n found c ≡ ok r
    → Interns n c r
unfolding append_node
intern_node-Interns n c (some j) old h good e =
    let (k, (q, there)) =
      interned-table 0 c.nodes n j
        (subst (λ (t : List (Node × ℕ)). interned n t ≡ some j) h.tabled old) in
    let here : k ≡ j = omega (arith, q) in
    subst (Interns n c) (ok-injective e)
      (h, (subst (λ (i : ℕ). get_elem? c.nodes i ≡ some n) here there, λ i m same. same))
intern_node-Interns n c none new h good e =
    let (room, q) = guard-eq-ok (leb 32_768 (length c.nodes)) _ _ e in
    let w = append_node-IsWellFormed n c h good new e in
    (
      w,
      (
        subst (λ (x : ℕ × Circuit). get_elem? x.1.nodes x.0 ≡ some n) (ok-injective q)
            (get_elem?-last c.nodes n),
        λ i m there.
            subst (λ (x : ℕ × Circuit). get_elem? x.1.nodes i ≡ some m) (ok-injective q)
              (get_elem?-append c.nodes (n ∷ []) i m there),
      ),
    )

-- Where `add` returns on a well-formed circuit, the circuit is well formed again; the node stands at
-- the index returned, and the nodes that stood before keep theirs.
pub add-Interns :
    (op : Op) (width : ℕ) (signed : Bool) (args : List ℕ) (value : Payload) (c : Circuit)
    {r : ℕ × Circuit}
    → IsWellFormed c
    → add op width signed args value c ≡ ok r
    → Interns (node_of op width signed args value) c r
unfolding add
add-Interns op width signed args value c {r} h e =
    let n = node_of op width signed args value in
    let (wide, p) = guard-eq-ok (not (leb 1 width && leb width 256)) _ _ e in
    let (low, q) = guard-eq-ok (not (all_below (length c.nodes) args)) _ _ p in
    intern_node-Interns n c (interned n c.intern) refl h
      (all_below-All (length c.nodes) args (ground arith), (ground arith, ground arith)) q
