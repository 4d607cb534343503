-- ===== src/Channel/Allocation/Distribution/Grouping.antt =====
-- The pieces that the inputs are grouped into, and the sums that are checked before.
use rust_tap.Common.{ℕ, ◌+◌, ◌≡◌, refl, sym, ap, arith, Bool, ◌||◌}
use rust_tap.Common.{List, [], ◌∷◌, map, Result, ok, ◌>>=◌, All, subst, ◌==◌, bytes_eq}
use rust_tap.Common.{sum_of, sum_of-append, ensure_parts, bind_parts, ok_injective}
use rust_tap.Channel.Interface.{ChannelAssets, AssetId}
use rust_tap.Channel.Order.{sort_by, sum_of-sort_by}
use rust_tap.Channel.Allocation.{AllocationError, Allocation, asset_sort_for_inputs}
use rust_tap.Channel.Allocation.{input_types_not_equal, input_group_mismatch}
unfoldable use rust_tap.Channel.Allocation.{validate_allocation}
use rust_tap.Channel.Allocation.Pieces.{Piece}
unfoldable use rust_tap.Channel.Allocation.Pieces.{
  add_checked, asset_tap_commitment_key, v_input_from_asset,
}
use rust_tap.Channel.Allocation.Pieces.Filling.{
  IsBalanced, input_amount, total_had, total_allocated,
}
use rust_tap.Channel.Allocation.Distribution.{Group, is_collectible}
unfoldable use rust_tap.Channel.Allocation.Distribution.{
  check_inputs, check_allocations, push_to_group, group_inputs, sum_checked, new_piece, new_pieces,
}

add_checked_parts : (a b c : ℕ) → add_checked a b ≡ ok c → c ≡ a + b
unfolding add_checked
add_checked_parts a b c e = ground arith

module _ ⦃assets : ChannelAssets⦄ where
  abbrev pub amounts_in : List assets.Asset → ℕ
  amounts_in = sum_of assets.asset_amount

  abbrev pub amounts_out : List Allocation → ℕ
  amounts_out = sum_of (λ (a : Allocation). a.amount)

  pub check_inputs-sum :
      (first : assets.Asset) (sum : ℕ) (inputs : List assets.Asset) (r : ℕ)
      → check_inputs first sum inputs ≡ ok r
      → r ≡ sum + amounts_in inputs
  unfolding check_inputs
  check_inputs-sum first sum [] r e = omega (arith, ok_injective e)
  check_inputs-sum first sum (a ∷ rest) r e =
      let (_, e₁) =
        ensure_parts
          (is_collectible (assets.asset_type first) == is_collectible (assets.asset_type a))
          input_types_not_equal _ r e in
      let (_, e₂) =
        ensure_parts (bytes_eq (asset_tap_commitment_key first) (asset_tap_commitment_key a))
          input_group_mismatch _ r e₁ in
      let (sum', e₃, e₄) =
        bind_parts (add_checked sum (assets.asset_amount a)) (λ s. check_inputs first s rest) r
          e₂ in
      omega (
        arith,
        add_checked_parts sum (assets.asset_amount a) sum' e₃,
        check_inputs-sum first sum' rest r e₄,
      )

  pub check_allocations-sum :
      (sum : ℕ) (root : Bool) (allocations : List Allocation) (r : ℕ × Bool)
      → check_allocations sum root allocations ≡ ok r
      → r.0 ≡ sum + amounts_out allocations
  unfolding check_allocations
  check_allocations-sum sum root [] r e = omega (arith, ap (λ (t : ℕ × Bool). t.0) (ok_injective e))
  check_allocations-sum sum root (a ∷ rest) r e =
      let next : ℕ → Result (ℕ × Bool) AllocationError =
        λ s. check_allocations s (root || a.split_root) rest in
      let (_, _, e₁) =
        bind_parts (validate_allocation a) (λ _. add_checked sum a.amount >>= next) r e in
      let (sum', e₂, e₃) = bind_parts (add_checked sum a.amount) next r e₁ in
      omega (
        arith,
        add_checked_parts sum a.amount sum' e₂,
        check_allocations-sum sum' (root || a.split_root) rest r e₃,
      )

  abbrev grouped : List Group → ℕ
  grouped = sum_of (λ (g : Group). amounts_in g.1)

  grouped-push_to_group :
      (a : assets.Asset) (groups : List Group)
      → grouped (push_to_group a groups) ≡ assets.asset_amount a + grouped groups
  unfolding push_to_group
  grouped-push_to_group a [] = omega arith
  grouped-push_to_group a ((id, members) ∷ rest) =
      ground
        (arith, sum_of-append assets.asset_amount members (a ∷ []), grouped-push_to_group a rest)

  pub grouped-group_inputs :
      (groups : List Group) (inputs : List assets.Asset)
      → grouped (group_inputs groups inputs) ≡ grouped groups + amounts_in inputs
  unfolding group_inputs
  grouped-group_inputs groups [] = omega arith
  grouped-group_inputs groups (a ∷ rest) =
      omega
        (arith, grouped-group_inputs (push_to_group a groups) rest, grouped-push_to_group a groups)

  sum_checked-sum :
      (sum : ℕ) (members : List assets.Asset) (r : ℕ)
      → sum_checked sum members ≡ ok r
      → r ≡ sum + amounts_in members
  unfolding sum_checked
  sum_checked-sum sum [] r e = omega (arith, ok_injective e)
  sum_checked-sum sum (a ∷ rest) r e =
      let (sum', e₁, e₂) =
        bind_parts (add_checked sum (assets.asset_amount a)) (λ s. sum_checked s rest) r e in
      omega (
        arith,
        add_checked_parts sum (assets.asset_amount a) sum' e₁,
        sum_checked-sum sum' rest r e₂,
      )

  spent-v_input_from_asset :
      (id : AssetId) (members : List assets.Asset)
      → sum_of input_amount (map (v_input_from_asset id) members) ≡ amounts_in members
  unfolding v_input_from_asset
  spent-v_input_from_asset id [] = refl
  spent-v_input_from_asset id (a ∷ rest) = omega (arith, spent-v_input_from_asset id rest)

  -- A piece that was just made of `members`.
  abbrev pub IsFresh : List assets.Asset → Piece → Type 0
  IsFresh members p = IsBalanced p × (p.allocated ≡ 0) × (p.total_available ≡ amounts_in members)

  new_piece-IsFresh :
      (net : assets.TapNetwork) (v : ℕ) (g : Group) (p : Piece)
      → new_piece net v g ≡ ok p
      → IsFresh g.1 p
  unfolding new_piece
  new_piece-IsFresh net v (id, members) p e =
      let make : ℕ → Piece = λ sum_by_id. record {
        piece_id = id;
        total_available = sum_by_id;
        allocated = 0;
        piece_inputs = sort_by asset_sort_for_inputs members;
        packet = record {
          inputs = map (v_input_from_asset id) (sort_by asset_sort_for_inputs members);
          outputs = [];
          chain_params = net;
          version = v;
        };
      } in
      let (total, e₁, e₂) = bind_parts (sum_checked 0 members) (λ s. ok (make s)) p e in
      let all : amounts_in members ≡ total = omega (arith, sum_checked-sum 0 members total e₁) in
      let inputs = sort_by asset_sort_for_inputs members in
      subst (IsFresh members) (ok_injective e₂) (
        record {
          within = omega arith;
          handed = refl;
          had = omega (
            arith,
            spent-v_input_from_asset id inputs,
            sum_of-sort_by asset_sort_for_inputs assets.asset_amount members,
            all,
          );
        },
        refl,
        sym all,
      )

  pub new_pieces-IsFresh :
      (net : assets.TapNetwork) (v : ℕ) (groups : List Group) (ps : List Piece)
      → new_pieces net v groups ≡ ok ps
      → All IsBalanced ps × (total_allocated ps ≡ 0) × (total_had ps ≡ grouped groups)
  unfolding new_pieces
  new_pieces-IsFresh net v [] ps e =
      subst (λ ps. All IsBalanced ps × (total_allocated ps ≡ 0) × (total_had ps ≡ 0))
        (ok_injective e) (tt, refl, refl)
  new_pieces-IsFresh net v (g ∷ rest) ps e =
      let (p, e₁, e₂) =
        bind_parts (new_piece net v g) (λ p. new_pieces net v rest >>= λ later. ok (p ∷ later)) ps
          e in
      let (later, e₃, e₄) = bind_parts (new_pieces net v rest) (λ later. ok (p ∷ later)) ps e₂ in
      let (b, z, t) = new_piece-IsFresh net v g p e₁ in
      let (bs, zs, ts) = new_pieces-IsFresh net v rest later e₃ in
      subst
        (λ ps. All IsBalanced ps × (total_allocated ps ≡ 0) × (total_had ps ≡ grouped (g ∷ rest)))
        (ok_injective e₄) ((b, bs), omega (arith, z, zs), omega (arith, t, ts))
