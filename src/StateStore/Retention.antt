-- ===== src/StateStore/Retention.antt =====
-- What `mergeBy` of src/state-store.ts keeps of the two lists that it merges.
use deepseek_harness_relay_m.Base.{
  String, ◌≡◌, refl, inl, inr, Option, none, some, List, [], ◌∷◌, arith, ◌==◌, ==_iff, string_eq,
  Bool-cases, Option-cases, All,
}
use deepseek_harness_relay_m.Base.Map
use deepseek_harness_relay_m.Base.Map.{Map, get-set}
use deepseek_harness_relay_m.StateStore.Merge.{index, chosen, merge_into, merge_by}

module _ {ℓ} {T : Type ℓ} (key : T → String) where
  -- The version that a list holds under an identifier: its last one.
  unfoldable pub held : List T → String → Option T
  unfolding index
  held items id = Map.get (index key [] items) id

  -- Each entry stands under its own identifier.
  abbrev Keyed : Map String T → Type 0
  Keyed = All (λ e. key e.1 ≡ e.0)

  Keyed-set : (m : Map String T) (k : String) (v : T) → key v ≡ k → Keyed m → Keyed (Map.set m k v)
  unfolding Map.set
  Keyed-set [] k v e h = (e, tt)
  Keyed-set ((j, w) ∷ m) k v e h = ground (arith, Keyed-set m k v e h.1)

  -- No identifier has two entries.
  abbrev Distinct : Map String T → Type ℓ
  Distinct [] = Unit
  Distinct ((j, w) ∷ m) = (Map.get m j ≡ none) × Distinct m

  Distinct-set : (m : Map String T) (k : String) (v : T) → Distinct m → Distinct (Map.set m k v)
  unfolding Map.set Map.get
  Distinct-set [] k v h = (refl, tt)
  Distinct-set ((j, w) ∷ m) k v h =
      ground (arith, Distinct-set m k v h.1, get-set m k j v, ==_iff j k, ==_iff k j)

  Distinct-index : (items : List T) (m : Map String T) → Distinct m → Distinct (index key m items)
  unfolding index
  Distinct-index [] m h = h
  Distinct-index (x ∷ xs) m h = Distinct-index xs _ (Distinct-set m (key x) x h)

  abbrev first_of_two : Option T → Option T → Option T
  first_of_two none b = b
  first_of_two (some a) b = some a

  -- Reading the values of a map back gives the map.
  index-values :
      (m acc : Map String T) (k : String)
      → Keyed m
      → Distinct m
      → Map.get (index key acc (Map.values m)) k ≡ first_of_two (Map.get m k) (Map.get acc k)
  unfolding index Map.get
  index-values [] acc k h d = refl
  index-values ((j, w) ∷ m) acc k h d =
      rw (index-values m (Map.set acc (key w) w) k h.1 d.1, get-set acc (key w) k w, h.0)
        (ground (arith, ==_iff j k, d.0))

  Keyed-index : (items : List T) (m : Map String T) → Keyed m → Keyed (index key m items)
  unfolding index
  Keyed-index [] m h = h
  Keyed-index (x ∷ xs) m h = Keyed-index xs _ (Keyed-set m (key x) x refl h)

  -- Some version is held under the identifier, and it has the property.
  abbrev pub HoldsAt {κ} : (T → Type κ) → Option T → Type (ℓ ⊔ κ)
  HoldsAt P o = (x : T) × (o ≡ some x) × P x

  module _ (choose : T → T → T)
      (same_key : (k : String) (l r : T) → key l ≡ k → key r ≡ k → key (choose l r) ≡ k) where
    Keyed-get : (m : Map String T) (k : String) (v : T) → Keyed m → Map.get m k ≡ some v → key v ≡ k
    unfolding Map.get
    Keyed-get [] k v h g = absurd (cc)
    Keyed-get ((j, w) ∷ m) k v h g = ground (arith, ==_iff j k, Keyed-get m k v h.1)

    chosen-key :
        (m : Map String T) (x : T) → Keyed m → key (chosen choose (Map.get m (key x)) x) ≡ key x
    chosen-key m x h = elim (Option-cases (Map.get m (key x))) [
      | inl e ↦ rw e
      | inr (v, e) ↦ rw e (same_key (key x) v x (Keyed-get m (key x) v h e) refl)
    ]

    Keyed-merge_into :
        (items : List T) (m : Map String T) → Keyed m → Keyed (merge_into key choose m items)
    unfolding merge_into
    Keyed-merge_into [] m h = h
    Keyed-merge_into (x ∷ xs) m h =
        Keyed-merge_into xs _ (Keyed-set m (key x) _ (chosen-key m x h) h)

    Distinct-merge_into :
        (items : List T) (m : Map String T) → Distinct m → Distinct (merge_into key choose m items)
    unfolding merge_into
    Distinct-merge_into [] m h = h
    Distinct-merge_into (x ∷ xs) m h = Distinct-merge_into xs _ (Distinct-set m (key x) _ h)

    module _ {κ} (P : T → Type κ) (keep : (l r : T) → P l → P (choose l r)) where
      merge_into-HoldsAt :
          (items : List T) (m : Map String T) (k : String)
          → HoldsAt P (Map.get m k)
          → HoldsAt P (Map.get (merge_into key choose m items) k)
      unfolding merge_into
      merge_into-HoldsAt [] m k h = h
      merge_into-HoldsAt (x ∷ xs) m k (v, e, p) =
          merge_into-HoldsAt xs _ k (elim (Bool-cases (key x == k)) [
            | inl same ↦
                let same_id = (==_iff (key x) k).0 same in
                (choose v x, rw (get-set, same, same_id, e), keep v x p)
            | inr differ ↦ (v, rw (get-set, differ) e, p)
          ])

      -- A property of a held version that no choice gives up is kept by the merge.
      pub merge_by-HoldsAt :
          (left right : List T) (k : String)
          → HoldsAt P (held left k)
          → HoldsAt P (held (merge_by key choose left right) k)
      unfolding merge_by held
      merge_by-HoldsAt left right k h =
          let merged = merge_into key choose (index key [] left) right in
          let (v, e, p) = merge_into-HoldsAt right (index key [] left) k h in
          (
            v,
            rw (
              index-values merged [] k (Keyed-merge_into right _ (Keyed-index left [] tt))
                  (Distinct-merge_into right _ (Distinct-index left [] tt)),
              e,
            ),
            p,
          )
