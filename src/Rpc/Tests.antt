-- ===== src/Rpc/Tests.antt =====
-- A call over the stubs of the example.
use bidflock.Prelude.{◌≡◌, refl, Option, some, none}
use bidflock.Prelude.Fixed.{Fixed, fixed_float, dollars}
use bidflock.Budget.Example.{start}
use bidflock.Rpc.Wire.{Reply, check_reply, deduct_reply, pacing_reply, score_reply}
use bidflock.Rpc.Stubs.{budget_client}
use bidflock.Rpc.Delivery.{Call, deduct_call, run_call, CarriesReply, run_call-budget_client}
use bidflock.Rpc.Example.{json, service, conn, connected}

carries_reply : (o : Option (Reply Fixed)) → CarriesReply json o
carries_reply none = tt
carries_reply (some (check_reply r)) = refl
carries_reply (some (deduct_reply r)) = refl
carries_reply (some (pacing_reply r)) = refl
carries_reply (some (score_reply r)) = refl

abbrev charge : Call Fixed
charge = deduct_call (record { campaign_id = "a"; bid_id = "r1"; amount = dollars 300 })

run_call-budget_client_example :
    run_call (budget_client json conn) charge start ≡ run_call service charge start
run_call-budget_client_example =
    run_call-budget_client json conn service connected charge start refl
      (carries_reply (run_call service charge start).0)
