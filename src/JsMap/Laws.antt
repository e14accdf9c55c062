-- ===== src/JsMap/Laws.antt =====
-- Laws of the map, in the form that computes with `===`.
use mathlib.Core.Option
use shells.Prelude.{
  ◌≡◌, refl, ap, ◌≢◌, inl, inr, true, false, none, some, List, [], ◌∷◌, ◌++◌, arith, StrictEq, ◌==◌,
  In, AllDistinct, Bool-cases, is_some, ◌↔◌, sym, subst, ◌∙◌, Option-cases,
}
use shells.JsMap.{JsMap, includes, get, has, set, delete, keys, modify, map_values}

pub In-cons :
    {K : Type 0} (j l : K) (ks ls : List K) → (In l ks → In l ls) → In l (j ∷ ks) → In l (j ∷ ls)
In-cons j l ks ls f (inl p) = inl p
In-cons j l ks ls f (inr p) = inr (f p)

module _ {K : Type 0} ⦃e : StrictEq K⦄ where
  pub beq_refl : (k : K) → (k == k) ≡ true
  beq_refl k = (e.same_iff k k).1 refl

  pub beq→eq : (j k : K) → (j == k) ≡ true → j ≡ k
  beq→eq j k h = (e.same_iff j k).0 h

  pub beq_ne : (j k : K) → j ≢ k → (j == k) ≡ false
  beq_ne j k h = elim (Bool-cases (j == k)) [ inl p ↦ absurd (h (beq→eq j k p)) | inr p ↦ p ]

  pub ne_of_beq : (j k : K) → (j == k) ≡ false → j ≢ k
  ne_of_beq j k h p = cc ((e.same_iff j k).1 p)

  includes-In : (ks : List K) (k : K) → includes ks k ≡ true → In k ks
  unfolding includes
  includes-In [] k h = cc
  includes-In (j ∷ ks) k h = elim (Bool-cases (j == k)) [
    | inl p ↦ inl (sym (beq→eq j k p))
    | inr p ↦ inr (includes-In ks k (rw p at h))
  ]

  In-includes : (ks : List K) (k : K) → In k ks → includes ks k ≡ true
  unfolding includes
  In-includes [] k h = absurd h
  In-includes (j ∷ ks) k (inl p) = rw (p, beq_refl j)
  In-includes (j ∷ ks) k (inr p) = elim (Bool-cases (j == k)) [
    | inl q ↦ rw q
    | inr q ↦ rw q (In-includes ks k p)
  ]

  pub includes_iff : (ks : List K) (k : K) → (includes ks k ≡ true) ↔ In k ks
  includes_iff ks k = (includes-In ks k, In-includes ks k)

  pub not_includes : (ks : List K) (k : K) → includes ks k ≡ false → In k ks → ⊥
  not_includes ks k h p = cc (In-includes ks k p)

  module _ {V : Type 0} where
    pub has-includes : (m : JsMap K V) (k : K) → has m k ≡ includes (keys m) k
    unfolding has includes
    has-includes [] k = refl
    has-includes ((j, w) ∷ m) k = rw (has-includes m k)

    pub has-get : (m : JsMap K V) (k : K) → has m k ≡ is_some (get m k)
    unfolding has get
    has-get [] k = refl
    has-get ((j, w) ∷ m) k = elim (Bool-cases (j == k)) [
      | inl p ↦ rw p
      | inr p ↦ rw p (has-get m k)
    ]

    pub get-set_self : (m : JsMap K V) (k : K) (v : V) → get (set m k v) k ≡ some v
    unfolding get set
    get-set_self [] k v = rw (beq_refl k)
    get-set_self ((j, w) ∷ m) k v = elim (Bool-cases (j == k)) [
      | inl p ↦ rw p (rw (beq_refl k))
      | inr p ↦ rw p (rw p (get-set_self m k v))
    ]

    pub get-set_ne : (m : JsMap K V) (k l : K) (v : V) → k ≢ l → get (set m k v) l ≡ get m l
    unfolding get set
    get-set_ne [] k l v h = rw (beq_ne k l h)
    get-set_ne ((j, w) ∷ m) k l v h = elim (Bool-cases (j == k)) [
      | inl p ↦ rw (p, beq→eq j k p, beq_ne k l h)
      | inr p ↦ rw (p, get-set_ne m k l v h)
    ]

    -- A new key goes to the end.
    pub keys-set_new :
        (m : JsMap K V) (k : K) (v : V) → has m k ≡ false → keys (set m k v) ≡ keys m ++ k ∷ []
    unfolding has set
    keys-set_new [] k v h = refl
    keys-set_new ((j, w) ∷ m) k v h = elim (Bool-cases (j == k)) [
      | inl p ↦ absurd (ground arith)
      | inr p ↦ rw p (ap (j ∷◌) (keys-set_new m k v (rw p at h)))
    ]

    pub keys-modify : (m : JsMap K V) (k : K) (f : V → V) → keys (modify m k f) ≡ keys m
    unfolding modify
    keys-modify [] k f = refl
    keys-modify ((j, w) ∷ m) k f = elim (Bool-cases (j == k)) [
      | inl p ↦ rw p
      | inr p ↦ rw p (ap (j ∷◌) (keys-modify m k f))
    ]

    pub keys-map_values : (f : K → V → V) (m : JsMap K V) → keys (map_values f m) ≡ keys m
    unfolding map_values
    keys-map_values f [] = refl
    keys-map_values f ((j, w) ∷ m) = ap (j ∷◌) (keys-map_values f m)

    get_absent : (m : JsMap K V) (k : K) → (In k (keys m) → ⊥) → get m k ≡ none
    unfolding get
    get_absent [] k h = refl
    get_absent ((j, w) ∷ m) k h = elim (Bool-cases (j == k)) [
      | inl p ↦ absurd (h (inl (sym (beq→eq j k p))))
      | inr p ↦ rw p (get_absent m k (λ q. h (inr q)))
    ]

    pub In-keys-delete : (m : JsMap K V) (k l : K) → In l (keys (delete m k)) → In l (keys m)
    unfolding delete
    In-keys-delete [] k l h = h
    In-keys-delete ((j, w) ∷ m) k l h = elim (Bool-cases (j == k)) [
      | inl p ↦ inr (rw p at h)
      | inr p ↦ In-cons j l _ _ (In-keys-delete m k l) (rw p at h)
    ]

    pub delete-AllDistinct :
        (m : JsMap K V) (k : K) → AllDistinct (keys m) → AllDistinct (keys (delete m k))
    unfolding delete
    delete-AllDistinct [] k d = tt
    delete-AllDistinct ((j, w) ∷ m) k (new, d) = elim (Bool-cases (j == k)) [
      | inl p ↦ rw p d
      | inr p ↦ rw p (λ h. new (In-keys-delete m k j h), delete-AllDistinct m k d)
    ]

    -- Where no key stands twice, the deleted key is gone and every other one is as it was.
    pub get-delete_self : (m : JsMap K V) (k : K) → AllDistinct (keys m) → get (delete m k) k ≡ none
    unfolding get delete
    get-delete_self [] k d = refl
    get-delete_self ((j, w) ∷ m) k (new, d) = elim (Bool-cases (j == k)) [
      | inl p ↦ rw p (get_absent m k (λ h. new (subst (λ t. In t (keys m)) (sym (beq→eq j k p)) h)))
      | inr p ↦ rw (p, p) (get-delete_self m k d)
    ]

    pub get-delete_ne : (m : JsMap K V) (k l : K) → k ≢ l → get (delete m k) l ≡ get m l
    unfolding get delete
    get-delete_ne [] k l h = refl
    get-delete_ne ((j, w) ∷ m) k l h = elim (Bool-cases (j == k)) [
      | inl p ↦ rw (p, beq→eq j k p, beq_ne k l h)
      | inr p ↦ rw (p, get-delete_ne m k l h)
    ]

    pub get-map_values :
        (f : K → V → V) (m : JsMap K V) (k : K)
        → get (map_values f m) k ≡ Option.map (f k) (get m k)
    unfolding get map_values
    get-map_values f [] k = refl
    get-map_values f ((j, w) ∷ m) k = elim (Bool-cases (j == k)) [
      | inl p ↦ rw (p, beq→eq j k p)
      | inr p ↦ rw p (get-map_values f m k)
    ]

    pub get-modify_self :
        (m : JsMap K V) (k : K) (f : V → V) → get (modify m k f) k ≡ Option.map f (get m k)
    unfolding get modify
    get-modify_self [] k f = refl
    get-modify_self ((j, w) ∷ m) k f = elim (Bool-cases (j == k)) [
      | inl p ↦ rw (p, p)
      | inr p ↦ rw (p, p) (get-modify_self m k f)
    ]

    pub get-modify_ne :
        (m : JsMap K V) (k l : K) (f : V → V) → k ≢ l → get (modify m k f) l ≡ get m l
    unfolding get modify
    get-modify_ne [] k l f h = refl
    get-modify_ne ((j, w) ∷ m) k l f h = elim (Bool-cases (j == k)) [
      | inl p ↦ rw (p, beq→eq j k p, beq_ne k l h)
      | inr p ↦ rw (p, get-modify_ne m k l f h)
    ]

    -- A key and its value, where no key stands twice, are what `get` finds.
    pub has_iff : (m : JsMap K V) (k : K) → (has m k ≡ true) ↔ In k (keys m)
    has_iff m k = rw has-includes (includes_iff (keys m) k)

    pub In-delete_ne : (m : JsMap K V) (k l : K) → k ≢ l → In l (keys m) → In l (keys (delete m k))
    In-delete_ne m k l h p = (has_iff (delete m k) l).0 (
        has-get (delete m k) l
        ∙ ap is_some (get-delete_ne m k l h)
        ∙ sym (has-get m l)
        ∙ (has_iff m l).1 p)

    pub not_In-delete :
        (m : JsMap K V) (k : K) → AllDistinct (keys m) → In k (keys (delete m k)) → ⊥
    not_In-delete m k d p =
        cc (get-delete_self m k d, has-get (delete m k) k, (has_iff (delete m k) k).1 p)

    pub get-In : (m : JsMap K V) (k : K) (v : V) → get m k ≡ some v → In k (keys m)
    get-In m k v h = (has_iff m k).0 (has-get m k ∙ (rw h))

    pub In-get : (m : JsMap K V) (k : K) → In k (keys m) → (v : V) × (get m k ≡ some v)
    In-get m k p = elim (Option-cases (get m k)) [
      | inl e ↦ cc (e, has-get m k, (has_iff m k).1 p)
      | inr r ↦ r
    ]
