-- ===== src/Backtest/Fills/Working.antt =====
-- The loop of src/backtest/simulator_interface.py over the working orders.
use mathlib.Core.List.{append_assoc, append-nil}
use apex_xauusd_engine.Prelude.{
  ℕ, ◌+◌, ◌≡◌, refl, ◌∙◌, none, some, List, [], ◌∷◌, ◌++◌, map, arith, inl, inr, Bool-cases, length,
  if◌then◌else◌,
}
use apex_xauusd_engine.Prelude.Rat.{ℚ, lit}
use apex_xauusd_engine.Domain.{OrderRequest, ExecutionReport}
use apex_xauusd_engine.Backtest.Fills.{
  FillEngine, fill_market_order, is_touched, evaluate_pending_triggers, Simulator, Scan, scan_with,
  scan_orders, evaluate_working_orders,
}

-- The orders whose entry lies in the candle, and the others.
pub touched : ℚ → ℚ → List OrderRequest → List OrderRequest
touched high_p low_p [] = []
touched high_p low_p (r ∷ rs) =
    if is_touched high_p low_p r then r ∷ touched high_p low_p rs else touched high_p low_p rs

pub untouched : ℚ → ℚ → List OrderRequest → List OrderRequest
untouched high_p low_p [] = []
untouched high_p low_p (r ∷ rs) =
    if is_touched high_p low_p r then untouched high_p low_p rs else r ∷ untouched high_p low_p rs

pub touched-split :
    (high_p low_p : ℚ) (rs : List OrderRequest)
    → length (touched high_p low_p rs) + length (untouched high_p low_p rs) ≡ length rs
unfolding touched untouched
touched-split high_p low_p [] = omega arith
touched-split high_p low_p (r ∷ rs) = ground (arith, touched-split high_p low_p rs)

abbrev pub fill_at_entry : FillEngine → ℕ → OrderRequest → ExecutionReport
fill_at_entry e timestamp r = fill_market_order e r r.entry_price (lit 1 0) timestamp

scan_orders-touched :
    (e : FillEngine) (high_p low_p : ℚ) (timestamp : ℕ) (rs : List OrderRequest) (t : Scan)
    → scan_orders e high_p low_p timestamp rs t ≡ record {
      triggered_fills =
          t.triggered_fills ++ map (fill_at_entry e timestamp) (touched high_p low_p rs);
      still_pending = t.still_pending ++ untouched high_p low_p rs;
      history = t.history ++ map (fill_at_entry e timestamp) (touched high_p low_p rs);
    }
unfolding scan_orders evaluate_pending_triggers touched untouched
scan_orders-touched e high_p low_p timestamp [] t =
    rw (append-nil t.triggered_fills, append-nil t.still_pending, append-nil t.history) refl
scan_orders-touched e high_p low_p timestamp (r ∷ rs) t =
    elim (Bool-cases (is_touched high_p low_p r)) [
      | inl hit ↦ rw hit (
          scan_orders-touched e high_p low_p timestamp rs
            (scan_with r t (some (fill_at_entry e timestamp r)))
          ∙ rw
              (
                append_assoc t.triggered_fills (fill_at_entry e timestamp r ∷ [])
                    (map (fill_at_entry e timestamp) (touched high_p low_p rs)),
                append_assoc t.history (fill_at_entry e timestamp r ∷ [])
                    (map (fill_at_entry e timestamp) (touched high_p low_p rs)),
              )
              refl)
      | inr miss ↦ rw miss (
          scan_orders-touched e high_p low_p timestamp rs (scan_with r t none)
          ∙ rw (append_assoc t.still_pending (r ∷ []) (untouched high_p low_p rs)) refl)
    ]

-- A pass over the working orders fills exactly those whose entry lies between the candle's low and
-- high, each at its entry, in the order of submission; it appends these fills to the history and
-- keeps exactly the other orders, in their order, so that no order is lost or filled twice.
pub evaluate_working_orders-touched :
    (high_p low_p : ℚ) (timestamp : ℕ) (s : Simulator)
    → let fills =
        map (fill_at_entry s.fill_engine timestamp) (touched high_p low_p s.pending_queue) in
      (evaluate_working_orders high_p low_p timestamp s ≡ (
        fills,
        record s {
          pending_queue = untouched high_p low_p s.pending_queue;
          order_history = s.order_history ++ fills;
        },
      ))
      × (length (touched high_p low_p s.pending_queue)
            + length (untouched high_p low_p s.pending_queue)
          ≡ length s.pending_queue)
unfolding evaluate_working_orders
evaluate_working_orders-touched high_p low_p timestamp s = (
  rw
      (scan_orders-touched s.fill_engine high_p low_p timestamp s.pending_queue
        (record { triggered_fills = []; still_pending = []; history = s.order_history }))
      refl,
  touched-split high_p low_p s.pending_queue,
)
