-- ===== src/Pipeline/Orchestrator/Replay/Feature3.antt =====
-- Feature 3, repeated on a store that is seeded with the windows that it saw.
use finance.Base.{
  String, false, [], ◌∷◌, ◌++◌, filter-eq_self, all-filter, ◌==◌, ◌≡◌, ap, ◌∙◌, eq_refl,
}
use finance.Base.Dict.{Dict, lookup, insert}
use finance.Base.Float.{FloatOps, ◌⊖◌, ◌≤?◌}
use finance.Config.{structuring_window_seconds}
use finance.Pipeline.Context.{DecisionContext}
use finance.Pipeline.Structuring.{run, assess, struct_key, vel_key}
use finance.Pipeline.Structuring.Caps.{keys_differ}
use finance.Pipeline.Orchestrator.Replay.Frames.{Archived, archived-assess}
use finance.State.Velocity.{Entries, VelocityStore, or_empty, recent, window, seed}

module _ {F : Type 0} ⦃fl : FloatOps F⦄ where
  -- the two windows that the stage reads, one after the other
  abbrev first_window : VelocityStore F → DecisionContext F → Entries F × VelocityStore F
  first_window store ctx = window (struct_key ctx) ctx.now structuring_window_seconds store

  abbrev second_window : VelocityStore F → DecisionContext F → Entries F × VelocityStore F
  second_window store ctx =
      window (vel_key ctx) ctx.now structuring_window_seconds (first_window store ctx).1

  abbrev seen : VelocityStore F → DecisionContext F → Dict (Entries F)
  seen store ctx =
      (struct_key ctx, (first_window store ctx).0) ∷ (vel_key ctx, (second_window store ctx).0) ∷ []

  abbrev concluded : DecisionContext F → Entries F → Entries F → DecisionContext F
  concluded ctx w v =
      assess (w ++ (ctx.now, ctx.bundle.cart.total_usd) ∷ [])
        (v ++ (ctx.now, ctx.bundle.cart.total_usd) ∷ [])
        (record ctx { velocity_snapshot = (struct_key ctx, w) ∷ (vel_key ctx, v) ∷ [] })

  snapshot-run :
      (store : VelocityStore F) (ctx : DecisionContext F)
      → (run store ctx).1.velocity_snapshot ≡ seen store ctx
  unfolding run
  snapshot-run store ctx = ap (λ (a : Archived F). a.velocity_snapshot) (archived-assess _ _ _)

  -- A window is its own window.
  recent_idem : (cutoff : F) (es : Entries F) → recent cutoff (recent cutoff es) ≡ recent cutoff es
  unfolding recent
  recent_idem cutoff es =
      filter-eq_self (λ e. cutoff ≤? e.0) _ (all-filter (λ (e : F × F). cutoff ≤? e.0) es)

  windows-seed :
      (k j : String) (cutoff : F) (w v : Entries F)
      → (k == j) ≡ false
      → let seeded = seed ((k, recent cutoff w) ∷ (j, recent cutoff v) ∷ []) [] in
        (recent cutoff (or_empty (lookup k seeded)) ≡ recent cutoff w)
        × (recent cutoff
              (or_empty (lookup j (insert k (recent cutoff (or_empty (lookup k seeded))) seeded)))
            ≡ recent cutoff v)
  unfolding seed
  windows-seed k j cutoff w v apart =
      rw (apart, eq_refl k, apart, eq_refl j) (recent_idem cutoff w, recent_idem cutoff v)

  structuring-again :
      (store : VelocityStore F) (ctx : DecisionContext F)
      → (run (seed (seen store ctx) []) ctx).1 ≡ (run store ctx).1
  unfolding run window
  structuring-again store ctx =
      let cutoff = ctx.now ⊖ structuring_window_seconds in
      let (one, two) =
        windows-seed (struct_key ctx) (vel_key ctx) cutoff
          (or_empty (lookup (struct_key ctx) store))
          (or_empty (lookup (vel_key ctx) (first_window store ctx).1)) (keys_differ ctx) in
      ap (λ w. concluded ctx w (second_window (seed (seen store ctx) []) ctx).0) one
      ∙ ap (concluded ctx (first_window store ctx).0) two

  -- Feature 3 ends with the same context on a store that is seeded with its own snapshot.
  pub structuring-replay :
      (store : VelocityStore F) (ctx : DecisionContext F)
      → (run (seed (run store ctx).1.velocity_snapshot []) ctx).1 ≡ (run store ctx).1
  structuring-replay store ctx =
      ap (λ d. (run (seed d []) ctx).1) (snapshot-run store ctx) ∙ structuring-again store ctx
