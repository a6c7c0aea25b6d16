-- ===== src/Rmp/Endpoint/Tests.antt =====
-- A multicast receiver that is open, and one that was closed while it was opened.
use smart_net.Base.{pos, true, some, [], ◌∷◌, ◌≡◌, refl, cmnerr_suc}
use smart_net.Rup.Endpoint.{
  opened, closed, deling_from_ot, none_evt, open_evt, close_evt, added_into_ot, add_to_ot,
  del_from_ot, on_closed, adding_into_ot,
}
use smart_net.Rmp.Endpoint.{RmpEndpoint}
use smart_net.Rmp.Endpoint.Inv.{RmpStays, rmp_post_total, rmp_run, rmp_closing, reopened_is_closed}

abbrev running : RmpEndpoint
running = record { receives = true; cur = opened; pending = none_evt; sock = some true; log = [] }

rmp_post_total_example : RmpStays (pos 0) close_evt cmnerr_suc running
rmp_post_total_example = rmp_post_total (pos 0) close_evt cmnerr_suc running refl tt

-- The output task is adding it.
abbrev being_added : RmpEndpoint
being_added = record {
  receives = true;
  cur = adding_into_ot;
  pending = none_evt;
  sock = some true;
  log = add_to_ot ∷ [];
}

reopened_is_closed_example :
    (u : RmpEndpoint) × (w : RmpEndpoint) × (rmp_run (pos 0) (rmp_closing (pos 0)) being_added
      ≡ some u)
    × (u.cur ≡ closed)
    × (u.log ≡ on_closed ∷ del_from_ot ∷ add_to_ot ∷ [])
    × (rmp_run (pos 0) (open_evt ∷ added_into_ot ∷ []) u ≡ some w)
    × (w.cur ≡ deling_from_ot)
    × (w.log ≡ del_from_ot ∷ add_to_ot ∷ u.log)
    × (w.pending ≡ close_evt)
reopened_is_closed_example = reopened_is_closed (pos 0) being_added refl refl
