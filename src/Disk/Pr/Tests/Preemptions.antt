-- ===== src/Disk/Pr/Tests/Preemptions.antt =====
-- The theorems on PREEMPT and CLEAR at concrete units.
use istgt.Prelude.{
  ◌+◌, ◌%◌, ◌^◌, [], ◌∷◌, true, false, none, some, ◌≡◌, ◌≢◌, inl, refl, arith, remove_if, strlwr,
  str_eq,
}
use istgt.Disk.Types.{ret, good, reservation_conflict}
use istgt.Disk.Pr.Keys.{find_pr_key}
use istgt.Disk.Pr.Params.{is_supported_type}
use istgt.Disk.Pr.Reserve.{clear}
use istgt.Disk.Pr.Reserve.Anomaly.{Refused, cleared, clear-dispatch}
use istgt.Disk.Pr.Preempt.{preempt}
use istgt.Disk.Pr.Preempt.Takeover.{has_key, CanPreempt, preempt-takes_over}
use istgt.Disk.Pr.Check.{admits, allow_write}
use istgt.Disk.Pr.Out.{reserve_action, dispatch}
use istgt.Disk.Pr.Tests.{os, alice, bob, held, blank, params}

-- Bob may preempt Alice.
bob_preempts : CanPreempt held bob (params 6 5 1)
unfolding find_pr_key str_eq
bob_preempts = record {
  reserved = omega arith;
  by_key = refl;
  not_we_all = omega arith;
  not_ea_all = omega arith;
  registered = λ e. cc;
  registered_by_key = λ e. cc;
}

preempt-takes_over_example :
    ((preempt os held bob blank (params 6 5 1) false).rc ≡ ret 0)
    × ((preempt os held bob blank (params 6 5 1) false).spec ≡ record held {
      rsv_port = some (strlwr (98 ∷ []));
      rsv_key = 6;
      rsv_scope = 0;
      rsv_type = 1;
      pr_keys = remove_if (has_key 5) held.pr_keys;
      pr_generation = (0 + 1) % 2 ^ 32;
    })
preempt-takes_over_example =
    preempt-takes_over os held bob blank (params 6 5 1) bob_preempts refl
      (unfold is_supported_type in refl)

alice_preempts : CanPreempt held alice (params 5 5 3)
unfolding find_pr_key str_eq
alice_preempts = record {
  reserved = omega arith;
  by_key = refl;
  not_we_all = omega arith;
  not_ea_all = omega arith;
  registered = λ e. cc;
  registered_by_key = λ e. cc;
}

bob_is_registered : find_pr_key held (some bob.initiator_port) (some bob.target_port) 0 ≢ none
unfolding find_pr_key str_eq
bob_is_registered = λ e. cc

-- Bob clears, and Alice, who held the reservation, cannot reserve again at once.
clear-dispatch_example :
    let r = clear held bob blank in
    (r ≡ good (cleared held) blank)
    × (admits r.spec alice allow_write ≡ true)
    × (dispatch os r.spec alice blank reserve_action (params 5 0 1)
        ≡ reservation_conflict r.spec blank)
unfolding Refused
clear-dispatch_example =
    clear-dispatch os held bob alice blank blank (params 5 0 1) reserve_action allow_write
      bob_is_registered (inl refl)
