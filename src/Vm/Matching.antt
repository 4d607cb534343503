-- ===== src/Vm/Matching.antt =====
-- What `matches_asset_params` asks of an asset, and checks in sequence.
use rust_tap.Common.{ℕ, ◌≡◌, refl, Bool, true, false, ◌||◌, Option, none, some}
use rust_tap.Common.{List, Result, ok, err, ensure, ◌>>◌, ◌⊎◌, inl, inr, bytes_eq}
use rust_tap.Common.{ensure_parts, ensure-ok, Bool-cases, bytes_eq→eq, bytes_eq_refl}
use rust_tap.Mint.Interface.{AssetType, normal, collectible}
use rust_tap.Mssmt.Hashing.{Sha256}
use rust_tap.Vm.{
  Asset, PrevId, GroupKey, Virtual, VmError, script_key_mismatch, id_mismatch, type_mismatch,
}
use rust_tap.Vm.Engine.{same_type, map_text, groups_match}
unfoldable use rust_tap.Vm.Engine.{matches_prev_genesis, matches_asset_params}

-- A check that gives nothing, before the rest.
pub then_parts {ℓ} :
    {B : Type ℓ} (m : Result (Unit {0}) VmError) (k : Result B VmError) (b : B)
    → (m >> k) ≡ ok b
    → (m ≡ ok tt) × (k ≡ ok b)
then_parts (ok tt) k b h = (refl, h)
then_parts (err e) k b h = cc h

pub map_text-ok {ℓ} :
    {A : Type ℓ} (f : List ℕ → VmError) (r : Result A (List ℕ)) (a : A)
    → map_text f r ≡ ok a
    → r ≡ ok a
map_text-ok f (ok b) a h = cc h
map_text-ok f (err e) a h = cc h

pub same_type→eq : (s t : AssetType) → same_type s t ≡ true → s ≡ t
same_type→eq normal normal h = refl
same_type→eq normal collectible h = cc h
same_type→eq collectible normal h = cc h
same_type→eq collectible collectible h = refl

pub eq→same_type : (s t : AssetType) → s ≡ t → same_type s t ≡ true
eq→same_type normal normal h = refl
eq→same_type normal collectible h = cc h
eq→same_type collectible normal h = cc h
eq→same_type collectible collectible h = refl

pub eq→bytes_eq : (xs ys : List ℕ) → xs ≡ ys → bytes_eq xs ys ≡ true
eq→bytes_eq xs ys h = rw h (bytes_eq_refl ys)

-- Both assets are of a group, with one group key and one tag.
pub record IsSameGroup (new_asset prev_asset : Asset) : Type 0 where
  pub group : GroupKey
  pub prev_group : GroupKey
  pub grouped : new_asset.group_key ≡ some group
  pub prev_grouped : prev_asset.group_key ≡ some prev_group
  pub same_key : group.group_pub_key ≡ prev_group.group_pub_key
  pub same_tag : new_asset.genesis.tag ≡ prev_asset.genesis.tag

module _ ⦃sha256 : Sha256⦄ ⦃virtual : Virtual⦄ where
  -- The previous asset has the key and the type that are asked for, and the id or the group.
  pub record Matches (new_asset prev_asset : Asset) (prev_id : PrevId) : Type 0 where
    pub key : prev_id.script_key ≡ prev_asset.script_key.pub_key
    pub id_or_group :
        (prev_id.id ≡ virtual.genesis_id prev_asset.genesis) ⊎ IsSameGroup new_asset prev_asset
    pub kind : new_asset.genesis.asset_type ≡ prev_asset.genesis.asset_type

  groups_match_parts :
      (group prev_group : Option GroupKey) (tag prev_tag : List ℕ)
      → groups_match group prev_group tag prev_tag ≡ true
      → (g h : GroupKey) × (group ≡ some g)
        × (prev_group ≡ some h)
        × (g.group_pub_key ≡ h.group_pub_key)
        × (tag ≡ prev_tag)
  groups_match_parts (some g) (some h) tag prev_tag e =
      elim (Bool-cases (bytes_eq g.group_pub_key h.group_pub_key)) [
        | inl same ↦
            (g, h, refl, refl, bytes_eq→eq _ _ same, bytes_eq→eq tag prev_tag (rw same at e))
        | inr other ↦ cc (rw other at e)
      ]
  groups_match_parts none none tag prev_tag e = cc e
  groups_match_parts none (some h) tag prev_tag e = cc e
  groups_match_parts (some g) none tag prev_tag e = cc e

  genesis_parts :
      (new_asset prev_asset : Asset) (prev_id : PrevId)
      → matches_prev_genesis prev_id new_asset.group_key new_asset.genesis.tag prev_asset ≡ true
      → (prev_id.id ≡ virtual.genesis_id prev_asset.genesis) ⊎ IsSameGroup new_asset prev_asset
  unfolding matches_prev_genesis
  genesis_parts new_asset prev_asset prev_id e =
      elim (Bool-cases (bytes_eq prev_id.id (virtual.genesis_id prev_asset.genesis))) [
        | inl same ↦ inl (bytes_eq→eq _ _ same)
        | inr other ↦
            let (g, h, eg, eh, key, tag) =
              groups_match_parts new_asset.group_key prev_asset.group_key new_asset.genesis.tag
                prev_asset.genesis.tag (rw other at e) in
            inr (record {
              group = g;
              prev_group = h;
              grouped = eg;
              prev_grouped = eh;
              same_key = key;
              same_tag = tag;
            })
      ]

  or_true : (b : Bool) → (b || true) ≡ true
  or_true true = refl
  or_true false = refl

  genesis_ok :
      (new_asset prev_asset : Asset) (prev_id : PrevId)
      → (prev_id.id ≡ virtual.genesis_id prev_asset.genesis) ⊎ IsSameGroup new_asset prev_asset
      → matches_prev_genesis prev_id new_asset.group_key new_asset.genesis.tag prev_asset ≡ true
  unfolding matches_prev_genesis
  genesis_ok new_asset prev_asset prev_id (inl same) = rw (eq→bytes_eq _ _ same) refl
  genesis_ok new_asset prev_asset prev_id (inr g) =
      rw (g.grouped, g.prev_grouped, eq→bytes_eq _ _ g.same_key, eq→bytes_eq _ _ g.same_tag)
        (or_true (bytes_eq prev_id.id (virtual.genesis_id prev_asset.genesis)))

  pub matches_asset_params-Matches :
      (new_asset prev_asset : Asset) (prev_id : PrevId)
      → matches_asset_params new_asset prev_asset prev_id ≡ ok tt
      → Matches new_asset prev_asset prev_id
  unfolding matches_asset_params
  matches_asset_params-Matches new_asset prev_asset prev_id e =
      let named =
        matches_prev_genesis prev_id new_asset.group_key new_asset.genesis.tag prev_asset in
      let typed = same_type new_asset.genesis.asset_type prev_asset.genesis.asset_type in
      let (key, e₁) =
        ensure_parts (bytes_eq prev_id.script_key prev_asset.script_key.pub_key) script_key_mismatch
          (ensure named id_mismatch >> ensure typed type_mismatch) tt e in
      let (id_or_group, e₂) = ensure_parts named id_mismatch (ensure typed type_mismatch) tt e₁ in
      record {
        key = bytes_eq→eq _ _ key;
        id_or_group = genesis_parts new_asset prev_asset prev_id id_or_group;
        kind = same_type→eq _ _ (ensure-ok typed type_mismatch e₂);
      }

  pub matches_asset_params-ok :
      (new_asset prev_asset : Asset) (prev_id : PrevId)
      → Matches new_asset prev_asset prev_id
      → matches_asset_params new_asset prev_asset prev_id ≡ ok tt
  unfolding matches_asset_params
  matches_asset_params-ok new_asset prev_asset prev_id h =
      rw
        (
          eq→bytes_eq _ _ h.key,
          genesis_ok new_asset prev_asset prev_id h.id_or_group,
          eq→same_type _ _ h.kind,
        )
        refl
