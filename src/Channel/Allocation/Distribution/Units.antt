-- ===== src/Channel/Allocation/Distribution/Units.antt =====
-- What the packets of a distribution spend and create, and the split roots among their outputs.
use rust_tap.Common.{ℕ, ◌≤◌, ◌≡◌, refl, sym, ◌∙◌, arith, Bool, true, false, not, ◌&&◌}
use rust_tap.Common.{List, [], ◌∷◌, map, ok, All, subst, ltb, length}
use rust_tap.Common.{sum_of, Bool-cases, inl, inr}
use rust_tap.Channel.Interface.{ChannelAssets}
use rust_tap.Channel.Allocation.{Allocation, VOutput, VPacket}
unfoldable use rust_tap.Channel.Allocation.{has_split_root_output, is_split_root}
use rust_tap.Channel.Allocation.Pieces.{Piece}
use rust_tap.Channel.Allocation.Pieces.Filling.{
  IsBalanced, spent, created, total_had, total_allocated,
}
use rust_tap.Channel.Allocation.Distribution.{root_first}
unfoldable use rust_tap.Channel.Allocation.Distribution.{assign_split_root, distribute_coins}
use rust_tap.Channel.Allocation.Distribution.Grouping.{amounts_in}
use rust_tap.Channel.Allocation.Distribution.Conservation.{
  Filled, finish, distribute_from_parts, asset_amounts,
}

module _ ⦃assets : ChannelAssets⦄ where
  abbrev created_by : List VOutput → ℕ
  created_by = sum_of (λ (o : VOutput). o.out_amount)

  created-root_first :
      (outputs : List VOutput) → created_by (root_first outputs) ≡ created_by outputs
  created-root_first [] = refl
  created-root_first (o ∷ rest) = refl

  created-assign_split_root : (p : VPacket) → created (assign_split_root p) ≡ created p
  unfolding assign_split_root
  created-assign_split_root p =
      elim (Bool-cases (ltb 1 (length p.outputs) && not (has_split_root_output p))) [
        | inl set ↦ rw set (created-root_first p.outputs)
        | inr keep ↦ rw keep refl
      ]

  spent-assign_split_root : (p : VPacket) → spent (assign_split_root p) ≡ spent p
  unfolding assign_split_root
  spent-assign_split_root p =
      elim (Bool-cases (ltb 1 (length p.outputs) && not (has_split_root_output p))) [
        | inl set ↦ rw set refl
        | inr keep ↦ rw keep refl
      ]

  -- The packets of the pieces, before and after the split roots are set.
  abbrev packets_of : Bool → List Piece → List VPacket
  packets_of interactive ps = finish interactive (map (λ (p : Piece). p.packet) ps)

  -- A packet that creates no more than it spends.
  abbrev pub IsCovered : VPacket → Type 0
  IsCovered p = created p ≤ spent p

  -- A packet that creates what it spends.
  abbrev pub Conserves : VPacket → Type 0
  Conserves p = created p ≡ spent p

  -- The packets of the pieces `ps`.
  record Matches (ps : List Piece) (packets : List VPacket) : Type 0 where
    covered : All IsCovered packets
    created_all : sum_of created packets ≡ total_allocated ps
    spent_all : sum_of spent packets ≡ total_had ps

  packets_of-Matches :
      (interactive : Bool) (ps : List Piece)
      → All IsBalanced ps
      → Matches ps (packets_of interactive ps)
  packets_of-Matches false [] hs = record { covered = tt; created_all = refl; spent_all = refl }
  packets_of-Matches true [] hs = record { covered = tt; created_all = refl; spent_all = refl }
  packets_of-Matches false (p ∷ ps) (h, hs) =
      let later = packets_of-Matches false ps hs in
      record {
        covered = (omega (arith, h.within, h.handed, h.had), later.covered);
        created_all = omega (arith, h.handed, later.created_all);
        spent_all = omega (arith, h.had, later.spent_all);
      }
  packets_of-Matches true (p ∷ ps) (h, hs) =
      let later = packets_of-Matches true ps hs in
      let c = created-assign_split_root p.packet in
      let s = spent-assign_split_root p.packet in
      record {
        covered = (omega (arith, h.within, h.handed, h.had, c, s), later.covered);
        created_all = omega (arith, h.handed, c, later.created_all);
        spent_all = omega (arith, h.had, s, later.spent_all);
      }

  covered-sum :
      (packets : List VPacket)
      → All IsCovered packets
      → sum_of created packets ≤ sum_of spent packets
  covered-sum [] hs = omega arith
  covered-sum (p ∷ ps) (h, hs) = omega (arith, h, covered-sum ps hs)

  all_spent :
      (packets : List VPacket)
      → All IsCovered packets
      → sum_of created packets ≡ sum_of spent packets
      → All Conserves packets
  all_spent [] hs e = tt
  all_spent (p ∷ ps) (h, hs) e = (
    omega (arith, h, e, covered-sum ps hs),
    all_spent ps hs (omega (arith, h, e, covered-sum ps hs)),
  )

  distribute_coins_parts :
      (inputs : List assets.Asset) (allocations : List Allocation) (net : assets.TapNetwork)
      (interactive : Bool) (v : ℕ) (packets : List VPacket)
      → distribute_coins inputs allocations net interactive v ≡ ok packets
      → (ps : List Piece) × Filled inputs allocations ps × (packets ≡ packets_of interactive ps)
  unfolding distribute_coins
  distribute_coins_parts [] allocations net interactive v packets e = cc e
  distribute_coins_parts (first ∷ rest) [] net interactive v packets e = cc e
  distribute_coins_parts (first ∷ rest) (a ∷ more) net interactive v packets e =
      distribute_from_parts first (first ∷ rest) (a ∷ more) net interactive v packets e

  -- What a successful distribution hands out.
  pub record Distributes (inputs : List assets.Asset) (allocations : List Allocation)
      (packets : List VPacket) : Type 0 where
    pub covered : All IsCovered packets
    pub created_all : sum_of created packets ≡ asset_amounts allocations
    pub spent_all : sum_of spent packets ≡ amounts_in inputs

  -- When `distribute_coins` succeeds, no packet creates more units than its inputs carry, all packets
  -- together create the amounts of the allocations that are not of the type without assets, and
  -- together they spend the amounts of all inputs.
  pub distribute_coins-Distributes :
      (inputs : List assets.Asset) (allocations : List Allocation) (net : assets.TapNetwork)
      (interactive : Bool) (v : ℕ) (packets : List VPacket)
      → distribute_coins inputs allocations net interactive v ≡ ok packets
      → Distributes inputs allocations packets
  distribute_coins-Distributes inputs allocations net interactive v packets e =
      let (ps, filled, same) =
        distribute_coins_parts inputs allocations net interactive v packets e in
      let m = packets_of-Matches interactive ps filled.balanced in
      subst (Distributes inputs allocations) (sym same) (record {
        covered = m.covered;
        created_all = m.created_all ∙ filled.allocated_all;
        spent_all = m.spent_all ∙ filled.had_all;
      })

  -- When `distribute_coins` succeeds and the allocations that are not of the type without assets
  -- ask for all the units of the inputs, every packet creates exactly as many units as it spends.
  pub distribute_coins-Conserves :
      (inputs : List assets.Asset) (allocations : List Allocation) (net : assets.TapNetwork)
      (interactive : Bool) (v : ℕ) (packets : List VPacket)
      → asset_amounts allocations ≡ amounts_in inputs
      → distribute_coins inputs allocations net interactive v ≡ ok packets
      → All Conserves packets
  distribute_coins-Conserves inputs allocations net interactive v packets all e =
      let d = distribute_coins-Distributes inputs allocations net interactive v packets e in
      all_spent packets d.covered (d.created_all ∙ all ∙ sym d.spent_all)

  -- A packet with more than one output has a split root among them.
  abbrev pub IsRooted : VPacket → Type 0
  IsRooted p = (ltb 1 (length p.outputs) && not (has_split_root_output p)) ≡ false

  root_first-IsRooted :
      (p : VPacket) (outputs : List VOutput) → IsRooted (record p { outputs = root_first outputs })
  unfolding has_split_root_output is_split_root
  root_first-IsRooted p [] = refl
  root_first-IsRooted p (o ∷ rest) = ground arith

  assign_split_root-IsRooted : (p : VPacket) → IsRooted (assign_split_root p)
  unfolding assign_split_root
  assign_split_root-IsRooted p =
      elim (Bool-cases (ltb 1 (length p.outputs) && not (has_split_root_output p))) [
        | inl set ↦ rw set (root_first-IsRooted p p.outputs)
        | inr keep ↦ rw keep keep
      ]

  packets_of-IsRooted : (ps : List Piece) → All IsRooted (packets_of true ps)
  packets_of-IsRooted [] = tt
  packets_of-IsRooted (p ∷ ps) = (assign_split_root-IsRooted p.packet, packets_of-IsRooted ps)

  -- When an interactive `distribute_coins` succeeds, every packet with more than one output has an
  -- output that is its split root.
  pub distribute_coins-IsRooted :
      (inputs : List assets.Asset) (allocations : List Allocation) (net : assets.TapNetwork) (v : ℕ)
      (packets : List VPacket)
      → distribute_coins inputs allocations net true v ≡ ok packets
      → All IsRooted packets
  distribute_coins-IsRooted inputs allocations net v packets e =
      let (ps, _, same) = distribute_coins_parts inputs allocations net true v packets e in
      subst (All IsRooted) (sym same) (packets_of-IsRooted ps)
