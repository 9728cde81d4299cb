-- ===== src/Asset/Hierarchy.antt =====
-- backend/internal/asset/hierarchy.go: where an asset may stand.
use iot_edge.Prelude.{
  ℕ, ◌+◌, ◌≤◌, ◌≡◌, ◌≢◌, ◌↔◌, refl, Bool, true, false, ◌&&◌, not, Option, none, some, List, [], ◌∷◌,
  length, All, ltb, ◌==◌, if◌then◌else◌, Result, ok, ◌>>◌, fail_if, arith, fail_if-eq-ok,
}
use iot_edge.Datalogger.Batch.{member}

pub data AssetError : Type 0 where
  invalid_asset hierarchy_cycle hierarchy_depth : AssetError

abbrev pub max_hierarchy_depth : ℕ
max_hierarchy_depth = 16

-- The loop over ancestors; `seen` holds the ids before.
unfoldable pub check_ancestors : List ℕ → List ℕ → Result AssetError (Unit {0})
check_ancestors seen [] = ok tt
check_ancestors seen (id ∷ ancestors) =
    fail_if (id == 0) invalid_asset
    >> fail_if (member id seen) hierarchy_cycle
    >> check_ancestors (id ∷ seen) ancestors

unfoldable pub validate_ancestry : ℕ → List ℕ → Result AssetError (Unit {0})
unfolding check_ancestors
validate_ancestry id ancestors =
    fail_if (id == 0) invalid_asset
    >> fail_if (ltb max_hierarchy_depth (length ancestors + 1)) hierarchy_depth
    >> check_ancestors (id ∷ []) ancestors

-- The kinds of assets, and any other string.
pub data Kind : Type 0 where
  site building area system equipment meter custom other : Kind

unfoldable pub is_valid_kind : Kind → Bool
is_valid_kind Kind.other = false
is_valid_kind _ = true

pub data PlacementError : Type 0 where
  invalid_asset_kind invalid_asset_placement : PlacementError

abbrev is_valid_parent : Option Kind → Bool
is_valid_parent none = true
is_valid_parent (some kind) = is_valid_kind kind

abbrev has_parent : Option Kind → Bool
has_parent none = false
has_parent (some kind) = true

abbrev is_site : Kind → Bool
is_site Kind.site = true
is_site _ = false

unfoldable pub validate_placement : Kind → Option Kind → Result PlacementError (Unit {0})
unfolding is_valid_kind
validate_placement kind parent =
    fail_if (not (is_valid_kind kind)) invalid_asset_kind
    >> fail_if (not (is_valid_parent parent)) invalid_asset_kind
    >> (if is_site kind
        then fail_if (has_parent parent) invalid_asset_placement
        else fail_if (not (has_parent parent)) invalid_asset_placement)

-- `EffectiveEnabled`, of the flags of the asset and its ancestors.
unfoldable pub effective_enabled : Bool → List Bool → Bool
effective_enabled enabled [] = enabled
effective_enabled enabled (ancestor ∷ ancestors) =
    enabled && ancestor && effective_enabled enabled ancestors

-- The ids of a list are not one another.
abbrev pub IsDistinct : List ℕ → Type 0
IsDistinct [] = Unit
IsDistinct (id ∷ ids) = All (λ (other : ℕ). id ≢ other) ids × IsDistinct ids

abbrev IsNew : List ℕ → ℕ → Type 0
IsNew seen id = (id ≢ 0) × (member id seen ≡ false)

not_member-cons :
    (id x : ℕ) (seen : List ℕ)
    → (member id (x ∷ seen) ≡ false) ↔ ((x ≢ id) × (member id seen ≡ false))
not_member-cons id x seen = ground arith

All-IsNew-cons :
    (x : ℕ) (seen ids : List ℕ)
    → All (IsNew (x ∷ seen)) ids ↔ (All (λ (other : ℕ). x ≢ other) ids × All (IsNew seen) ids)
All-IsNew-cons x seen [] = (λ _. (tt, tt), λ _. tt)
All-IsNew-cons x seen (id ∷ ids) =
    let (split, join) = All-IsNew-cons x seen ids in
    let (apart, together) = not_member-cons id x seen in
    (
      λ h.
          let rest = split h.1 in
          let here = apart h.0.1 in ((here.0, rest.0), ((h.0.0, here.1), rest.1)),
      λ h. ((h.1.0.0, together (h.0.0, h.1.0.1)), join (h.0.1, h.1.1)),
    )

check_ancestors-IsDistinct :
    (seen ids : List ℕ)
    → (check_ancestors seen ids ≡ ok tt) ↔ (All (IsNew seen) ids × IsDistinct ids)
unfolding check_ancestors
check_ancestors-IsDistinct seen [] = (λ _. (tt, tt), λ _. refl)
check_ancestors-IsDistinct seen (id ∷ ids) =
    let (sound, complete) = check_ancestors-IsDistinct (id ∷ seen) ids in
    let (split, join) = All-IsNew-cons id seen ids in
    (
      λ h.
          let (some_, h1) = fail_if-eq-ok (id == 0) invalid_asset _ h in
          let (new, h2) = fail_if-eq-ok (member id seen) hierarchy_cycle _ h1 in
          let (all_new, distinct) = sound h2 in
          let (apart, old_new) = split all_new in
          let not_nil : id ≢ 0 = ground (arith, some_) in
          (((not_nil, new), old_new), (apart, distinct)),
      λ h.
          let not_nil : (id == 0) ≡ false = ground (arith, h.0.0.0) in
          rw (not_nil, h.0.0.1, complete (join (h.1.0, h.0.1), h.1.1)),
    )

All-IsNew-nil : (ids : List ℕ) → All (IsNew []) ids ↔ All (λ (x : ℕ). x ≢ 0) ids
All-IsNew-nil [] = (λ _. tt, λ _. tt)
All-IsNew-nil (id ∷ ids) =
    let (there, back) = All-IsNew-nil ids in (λ h. (h.0.0, there h.1), λ h. ((h.0, refl), back h.1))

-- An ancestry is accepted just when no id of it is nil, the asset and its ancestors are all
-- different, so there is no cycle, and they are at most 16.
pub validate_ancestry-IsDistinct :
    (id : ℕ) (ancestors : List ℕ)
    → (validate_ancestry id ancestors ≡ ok tt) ↔ (
        All (λ (x : ℕ). x ≢ 0) (id ∷ ancestors)
        × IsDistinct (id ∷ ancestors)
        × (length (id ∷ ancestors) ≤ max_hierarchy_depth))
unfolding validate_ancestry
validate_ancestry-IsDistinct id ancestors =
    let (sound, complete) = check_ancestors-IsDistinct (id ∷ []) ancestors in
    let (split, join) = All-IsNew-cons id [] ancestors in
    let (plain, new) = All-IsNew-nil ancestors in
    (
      λ h.
          let (some_, h1) = fail_if-eq-ok (id == 0) invalid_asset _ h in
          let (few, h2) =
            fail_if-eq-ok (ltb max_hierarchy_depth (length ancestors + 1)) hierarchy_depth _ h1 in
          let (all_new, distinct) = sound h2 in
          let (apart, old_new) = split all_new in
          let not_nil : id ≢ 0 = ground (arith, some_) in
          ((not_nil, plain old_new), (apart, distinct), ground (arith, few)),
      λ (not_nil, (apart, distinct), short).
          let given : (id == 0) ≡ false = ground (arith, not_nil) in
          let few : ltb max_hierarchy_depth (length ancestors + 1) ≡ false =
            ground (arith, short) in
          rw (given, few, complete (join (apart, new not_nil.1), distinct)),
    )
