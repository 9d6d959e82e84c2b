-- ===== src/Loader/Paths/Exact.antt =====
-- An override stands where its path leads, and every value off that path stays.
use cs_backup_helper.Base.{
  ℕ, zero, suc, ◌≡◌, ◌≢◌, refl, ap, ◌∙◌, subst, ◌⊎◌, inl, inr, Bool-cases, Option, none, some,
  Option-cases, List, [], ◌∷◌, arith,
}
use cs_backup_helper.Base.Text.{text_eq, eq_iff, eq_refl}
use cs_backup_helper.Loader.Tree.{
  Json, null_value, boolean, number, text, array, object, Items, no_items, item, field_of-set_field,
}
use cs_backup_helper.Loader.Paths.{
  Segment, index, name, field_key, item_at, set_item, value_at, child, assign, or_new, set_path,
}

-- The value that a path leads to.
unfoldable pub get_path : List Segment → Json → Option Json
unfolding value_at
get_path [] tree = some tree
get_path (k ∷ path) tree = elim (value_at tree k) [ none ↦ none | some v ↦ get_path path v ]

-- A list takes numbers, an object takes every key, another value takes none.
abbrev pub Takes : Json → Segment → Type 0
Takes (array xs) (index n) = Unit
Takes (object o) k = Unit
Takes other k = ⊥

abbrev pub Fits : List Segment → Json → Type 0
unfolding child
Fits [] tree = ⊥
Fits (k ∷ []) tree = Takes tree k
Fits (k ∷ next ∷ path) tree = Takes tree k × Fits (next ∷ path) (or_new (child tree k) next)

-- Two paths part ways.
abbrev pub Parts : List Segment → List Segment → Type 0
Parts [] q = ⊥
Parts (k ∷ p) [] = ⊥
Parts (k ∷ p) (j ∷ q) = (field_key k ≢ field_key j) ⊎ ((k ≡ j) × Parts p q)

item_at-set_item : (n : ℕ) (v : Json) (xs : Items) → item_at n (set_item n v xs) ≡ some v
unfolding item_at set_item
item_at-set_item zero v no_items = refl
item_at-set_item (suc n) v no_items = item_at-set_item n v no_items
item_at-set_item zero v (item w rest) = refl
item_at-set_item (suc n) v (item w rest) = item_at-set_item n v rest

item_at-set_item_other :
    (n m : ℕ) (v x : Json) (xs : Items)
    → n ≢ m
    → item_at m xs ≡ some x
    → item_at m (set_item n v xs) ≡ some x
unfolding item_at set_item
item_at-set_item_other n m v x no_items d h = absurd (ground arith)
item_at-set_item_other zero zero v x (item w rest) d h = absurd (d refl)
item_at-set_item_other zero (suc m) v x (item w rest) d h = h
item_at-set_item_other (suc n) zero v x (item w rest) d h = h
item_at-set_item_other (suc n) (suc m) v x (item w rest) d h =
    item_at-set_item_other n m v x rest (λ e. d (ap suc e)) h

value_at-assign :
    (tree v : Json) (k : Segment) → Takes tree k → value_at (assign tree k v) k ≡ some v
unfolding value_at assign
value_at-assign null_value v k t = elim t [ ]
value_at-assign (boolean b) v k t = elim t [ ]
value_at-assign (number n) v k t = elim t [ ]
value_at-assign (text s) v k t = elim t [ ]
value_at-assign (array xs) v (index n) t = item_at-set_item n v xs
value_at-assign (array xs) v (name s) t = elim t [ ]
value_at-assign (object o) v k t =
    field_of-set_field (field_key k) (field_key k) v o ∙ rw (eq_refl (field_key k))

value_at-assign_other :
    (tree v x : Json) (k j : Segment)
    → field_key k ≢ field_key j
    → value_at tree j ≡ some x
    → value_at (assign tree k v) j ≡ some x
unfolding value_at assign
value_at-assign_other null_value v x k j d h = h
value_at-assign_other (boolean b) v x k j d h = h
value_at-assign_other (number n) v x k j d h = h
value_at-assign_other (text s) v x k j d h = h
value_at-assign_other (array xs) v x (index n) (index m) d h =
    item_at-set_item_other n m v x xs (λ e. d (ap (λ i. field_key (index i)) e)) h
value_at-assign_other (array xs) v x (name s) (index m) d h = h
value_at-assign_other (array xs) v x k (name s) d h = absurd (ground arith)
value_at-assign_other (object o) v x k j d h =
    elim (Bool-cases (text_eq (field_key k) (field_key j))) [
      | inl e ↦ absurd (d ((eq_iff (field_key k) (field_key j)).0 e))
      | inr e ↦ field_of-set_field (field_key k) (field_key j) v o ∙ rw e h
    ]

Takes-of_value_at : (tree x : Json) (k : Segment) → value_at tree k ≡ some x → Takes tree k
unfolding value_at
Takes-of_value_at null_value x k h = cc
Takes-of_value_at (boolean b) x k h = cc
Takes-of_value_at (number n) x k h = cc
Takes-of_value_at (text s) x k h = cc
Takes-of_value_at (array xs) x (index n) h = tt
Takes-of_value_at (array xs) x (name s) h = cc
Takes-of_value_at (object o) x k h = tt

get_path-set_path_self :
    (path : List Segment) (v tree : Json)
    → Fits path tree
    → get_path path (set_path path v tree) ≡ some v
unfolding get_path set_path child
get_path-set_path_self [] v tree f = elim f [ ]
get_path-set_path_self (k ∷ []) v tree f = rw (value_at-assign tree v k f, get_path)
get_path-set_path_self (k ∷ next ∷ path) v tree f =
    let inner = set_path (next ∷ path) v (or_new (child tree k) next) in
    rw (value_at-assign tree inner k f.0, get_path)
      (get_path-set_path_self (next ∷ path) v (or_new (child tree k) next) f.1)

get_path-null : (k : Segment) (path : List Segment) → get_path (k ∷ path) null_value ≡ none
unfolding get_path
get_path-null k path = refl

-- Where a value is, its container has a child, which is that value unless it is null.
child-value_at :
    (tree x : Json) (k : Segment)
    → value_at tree k ≡ some x
    → (x ≡ null_value) ⊎ (child tree k ≡ some x)
unfolding child
child-value_at tree null_value k h = inl refl
child-value_at tree (boolean b) k h = inr (rw h)
child-value_at tree (number n) k h = inr (rw h)
child-value_at tree (text s) k h = inr (rw h)
child-value_at tree (array xs) k h = inr (rw h)
child-value_at tree (object o) k h = inr (rw h)

-- A value that a longer path leads to stands below the value of its first segment.
get_path-cons :
    (k : Segment) (path : List Segment) (tree x : Json)
    → get_path (k ∷ path) tree ≡ some x
    → (c : Json) × (value_at tree k ≡ some c) × (get_path path c ≡ some x)
unfolding get_path
get_path-cons k path tree x h = elim (Option-cases (value_at tree k)) [
  | inl e ↦ absurd (ground arith)
  | inr (c, e) ↦ (c, e, ground arith)
]

get_path-of_value_at :
    (k : Segment) (path : List Segment) (tree c : Json)
    → value_at tree k ≡ some c
    → get_path (k ∷ path) tree ≡ get_path path c
unfolding get_path
get_path-of_value_at k path tree c h = rw (h, get_path)

-- The child that a longer path goes through is the value there.
through_child :
    (k next j : Segment) (q : List Segment) (tree c x : Json)
    → value_at tree k ≡ some c
    → get_path (j ∷ q) c ≡ some x
    → or_new (child tree k) next ≡ c
through_child k next j q tree c x e h = elim (child-value_at tree c k e) [
  | inl n ↦ absurd (cc (get_path-null j q))
  | inr m ↦ rw m
]

get_path-set_path_other :
    (path q : List Segment) (v x tree : Json)
    → Parts path q
    → get_path q tree ≡ some x
    → get_path q (set_path path v tree) ≡ some x
unfolding set_path
get_path-set_path_other [] q v x tree p h = elim p [ ]
get_path-set_path_other (k ∷ path) [] v x tree p h = elim p [ ]
get_path-set_path_other (k ∷ []) (j ∷ q) v x tree (inl d) h =
    let (c, e, g) = get_path-cons j q tree x h in
    get_path-of_value_at j q _ c (value_at-assign_other tree v c k j d e) ∙ g
get_path-set_path_other (k ∷ next ∷ path) (j ∷ q) v x tree (inl d) h =
    let (c, e, g) = get_path-cons j q tree x h in
    get_path-of_value_at j q _ c (value_at-assign_other tree _ c k j d e) ∙ g
get_path-set_path_other (k ∷ []) (j ∷ q) v x tree (inr (same, p)) h = elim p [ ]
get_path-set_path_other (k ∷ next ∷ path) (j ∷ []) v x tree (inr (same, p)) h = elim p [ ]
get_path-set_path_other (k ∷ next ∷ path) (j ∷ i ∷ q) v x tree (inr (same, p)) h =
    let (c, e, g) = get_path-cons j (i ∷ q) tree x h in
    let e' : value_at tree k ≡ some c = rw same e in
    let inner = set_path (next ∷ path) v (or_new (child tree k) next) in
    let put : value_at (assign tree k inner) j ≡ some inner =
      subst (λ s. value_at (assign tree k inner) s ≡ some inner) same
        (value_at-assign tree inner k (Takes-of_value_at tree c k e')) in
    let through = through_child k next i q tree c x e' g in
    get_path-of_value_at j (i ∷ q) _ inner put
    ∙ rw through (get_path-set_path_other (next ∷ path) (i ∷ q) v x c p g)

-- Setting a value at a path that the tree has room for puts it there, through lists that are filled
-- up and objects that are made, and what stood at a path that parts from that one still does.
pub set_path_exact :
    (path q : List Segment) (v x tree : Json)
    → Fits path tree
    → Parts path q
    → get_path q tree ≡ some x
    → (get_path path (set_path path v tree) ≡ some v) × (get_path q (set_path path v tree) ≡ some x)
set_path_exact path q v x tree f p h =
    (get_path-set_path_self path v tree f, get_path-set_path_other path q v x tree p h)
