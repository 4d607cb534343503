-- ===== src/Mint/Planter/Reachable.antt =====
-- What holds in every state that the planter reaches.
use rust_tap.Mint.Interface.{Assets}
unfoldable use rust_tap.Mint.Seedling.{validate}
unfoldable use rust_tap.Mint.Batch.{}
unfoldable use rust_tap.Mint.Batch.{}
use rust_tap.Mint.Planter.{Planter}
unfoldable use rust_tap.Mint.Planter.{new_planter, queue_seedling}
unfoldable use rust_tap.Mint.Planter.{}
unfoldable use rust_tap.Mint.Planter.{}
unfoldable use rust_tap.Mint.Planter.{take_batch}
use rust_tap.Mint.Planter.Soundness.{
  Step, Reach, IsSoundOrNone, queue, set_key, freeze, commit, recommit, update, cancel, take_it,
  start, step,
}
use rust_tap.Mint.Planter.Commitment.{
  freeze-IsSound, cancel-IsSound, commit-IsSound, recommit-IsSound, update-IsSound,
}
use rust_tap.Mint.Planter.Seedlings.{set_key-IsSound, enqueue-IsSound}

module _ ⦃assets : Assets⦄ where
  Step-IsSound :
      {p q : Planter} → Step p q → IsSoundOrNone p.pending_batch → IsSoundOrNone q.pending_batch
  unfolding take_batch queue_seedling
  Step-IsSound {p} (queue s) h = enqueue-IsSound p s (validate s) h
  Step-IsSound {p} (set_key name key) h = set_key-IsSound p name key h
  Step-IsSound {p} freeze h = freeze-IsSound p h
  Step-IsSound {p} (commit point index) h = commit-IsSound p point index h
  Step-IsSound {p} (recommit point index) h = recommit-IsSound p point index h
  Step-IsSound {p} (update f e) h = update-IsSound p f e h
  Step-IsSound {p} cancel h = cancel-IsSound p h
  Step-IsSound {p} take_it h = tt

  -- In every state that the calls reach from a new planter, where an update of the sprouted assets is
  -- one that succeeds, the pending batch, if there is one, is sound: its seedlings are valid and stand
  -- under their own names, no name twice; frozen or committed, it has a seedling at least; and
  -- committed, it holds the commitment of its sprouted assets.
  pub Reach-IsSound :
      (ring : assets.KeyRing) (p : Planter) → Reach ring p → IsSoundOrNone p.pending_batch
  unfolding new_planter
  Reach-IsSound ring p start = tt
  Reach-IsSound ring p (step {p = q} r s) = Step-IsSound s (Reach-IsSound ring q r)
