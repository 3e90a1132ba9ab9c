-- ===== src/Examples/PolicyClient.antt =====
-- The policy client across an outage of Partner Management.
use consent_manager.Base.{◌≡◌, refl, arith, false, none, [], ◌∷◌}
use consent_manager.PolicyClient.Cache.{
  failed, policies, served, get, get_all, needs_fetch, on_error, fetch, serve,
}
use consent_manager.PolicyClient.Staleness.{Gave, IsRecent, get-IsRecent, on_error-rests}
use consent_manager.Examples.Data.{config, policy}

outage_served :
    (get config (get_all config ((100, policies (policy ∷ []) none) ∷ [])) 200 failed).0
    ≡ served (policy ∷ [])
unfolding get get_all fetch on_error needs_fetch serve
outage_served = refl

get-IsRecent_example :
    (t : _) × Gave (policy ∷ []) t ((200, failed) ∷ (100, policies (policy ∷ []) none) ∷ [])
    × IsRecent config t 200
get-IsRecent_example =
    get-IsRecent config ((100, policies (policy ∷ []) none) ∷ []) 200 failed (policy ∷ [])
      outage_served

on_error-rests_example : needs_fetch config (on_error config none 200).1 220 ≡ false
on_error-rests_example =
    on_error-rests config none 200 220 (ground arith) (λ entry h. cc) (ground arith) (ground arith)
