-- ===== src/Tests/StateRuns.antt =====
-- The theorems on src/core/state and src/strategy/state_manager.py at concrete inputs.
use apex_xauusd_engine.Prelude.{◌≡◌, refl, none, List, [], ◌∷◌}
use apex_xauusd_engine.Prelude.Rat.{lit}
use apex_xauusd_engine.Domain.{external, unknown}
use apex_xauusd_engine.Errors.{ok}
use apex_xauusd_engine.State.Snapshots.{
  serialize_to_dict, deserialize_from_dict, deserialize-serialize,
}
use apex_xauusd_engine.State.Manager.{
  new_manager, generate_cold_boot_state, commit_market_update, revert_to_sequence,
}
use apex_xauusd_engine.State.Rollback.{
  IsValid, Operation, boot, market, revert, load, run, run-IsValid,
}
use apex_xauusd_engine.State.Outcomes.{
  next_market, Commits, commit_market_update-Commits, Reverts, revert_to_sequence-Reverts,
}
use apex_xauusd_engine.Tests.Data.{quotes_with}

-- A good commit, one with a crossed quote, a rollback and a loaded snapshot.
abbrev busy_day : List Operation
busy_day =
    boot 1
    ∷ market 2 (external 1) (quotes_with (lit 1999 0) (lit 2000 0))
    ∷ market 3 (external 2) (quotes_with (lit 2001 0) (lit 2000 0))
    ∷ revert 0
    ∷ load (serialize_to_dict (generate_cold_boot_state 4))
    ∷ []

run-IsValid_example : IsValid (run busy_day (new_manager 2 0))
run-IsValid_example = run-IsValid 2 0 busy_day

commit_market_update-Commits_example :
    Commits
      (next_market 3
        (external 2)
        (quotes_with (lit 2001 0) (lit 2000 0))
        (new_manager 2 0).active_state)
      (new_manager 2 0)
      (commit_market_update 3
        (external 2)
        (new_manager 2 0)
        (quotes_with (lit 2001 0) (lit 2000 0)))
commit_market_update-Commits_example =
    commit_market_update-Commits 3 (external 2) (new_manager 2 0)
      (quotes_with (lit 2001 0) (lit 2000 0))

revert_to_sequence-Reverts_example :
    Reverts 1
      (run busy_day (new_manager 2 0))
      (revert_to_sequence 1 (run busy_day (new_manager 2 0)))
revert_to_sequence-Reverts_example = revert_to_sequence-Reverts 1 (run busy_day (new_manager 2 0))

deserialize-serialize_example :
    deserialize_from_dict (serialize_to_dict (generate_cold_boot_state 4))
    ≡ ok (record (generate_cold_boot_state 4) {
      session = record ((generate_cold_boot_state 4).session) { killzone_name = none };
    })
unfolding generate_cold_boot_state
deserialize-serialize_example = deserialize-serialize (generate_cold_boot_state 4) unknown refl
