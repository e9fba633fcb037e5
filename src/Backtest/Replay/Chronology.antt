-- ===== src/Backtest/Replay/Chronology.antt =====
-- Whatever the controller does between the turns, the replay publishes what its buffers hold, in the
-- order of time.
use apex_xauusd_engine.Prelude.{
  ℕ, ◌≤◌, ◌≡◌, refl, sym, ◌∙◌, ap, not, ◌&&◌, some, List, [], ◌∷◌, ◌++◌, map, All, ◌==◌,
  if◌then◌else◌, inl, inr, Bool-cases, List-cases, arith, if_both,
}
use mathlib.Core.Path.{subst}
use mathlib.Core.List.{Perm, append_assoc, map-append}
use mathlib.Core.List.Perm
use apex_xauusd_engine.Prelude.Dict.{Dict, lookup}
use apex_xauusd_engine.Domain.{Timeframe}
use apex_xauusd_engine.Backtest.Replay.{
  RowNode, row_time, Buffers, MarketEvent, event_time, ReplayEngine, Move, earliest, candidates,
  locate_next_chronological_track, play, play_track, turn, command, run, turn_taken, command_given,
  move, pause, resume, step, terminate, Command, stop_looping,
}
use apex_xauusd_engine.Backtest.Replay.Times.{
  ChronoFrom, ChronoTo, ChronoTo-append, ChronoFrom-to, earliest-le, earliest-All,
}
use apex_xauusd_engine.Backtest.Replay.Tracks.{
  lookup-All, IsReady, IsStream, pending, Offered, event_of-time, candidates-Offered, streams_from,
  insert-streams, insert-Distinct, insert-pending,
}

module _ (api : Buffers) (timeframe_of : ℕ → Timeframe) where
  open api use {Buffer, rows, fetch_next_node, fetch_first, offers_kept}

  -- A change of the engine that publishes in the order of time, between two times, loses nothing of
  -- what is pending, and leaves buffers from the second time on.
  pub record IsReplay (s t : ℕ) (before after : ReplayEngine Buffer) (published : List MarketEvent)
      : Type 0 where
    pub in_order : ChronoTo s t (map event_time published)
    pub nothing_lost :
        Perm
          (published ++ pending api timeframe_of before.symbol after.registry)
          (pending api timeframe_of before.symbol before.registry)
    pub same_symbol : after.symbol ≡ before.symbol
    pub ready : IsReady api timeframe_of t after.registry

  -- A choice of the scheduler, with the buffer that it stands for.
  abbrev pub Choice : Dict Buffer → ℕ → Type 0
  Choice registry key =
      (m : ℕ) × Offered api timeframe_of registry (m, key)
      × All (λ (e : ℕ × Buffer). IsStream api timeframe_of m e.1) registry

  pub locate-Choice :
      (t : ℕ) (registry : Dict Buffer) (c : ℕ × ℕ) (cs : List (ℕ × ℕ))
      → IsReady api timeframe_of t registry
      → candidates api timeframe_of registry ≡ c ∷ cs
      → Choice registry (earliest c cs).1
  locate-Choice t registry c cs ready e =
      let found =
        subst (All (Offered api timeframe_of registry)) e
          (candidates-Offered api timeframe_of t registry ready) in
      let (low, others) = earliest-le (earliest c cs).0 c cs refl in
      (
        (earliest c cs).0,
        earliest-All (Offered api timeframe_of registry) c cs found.0 found.1,
        streams_from api timeframe_of t (earliest c cs).0 registry ready
            (subst (All (λ (x : ℕ × ℕ). (earliest c cs).0 ≤ x.0)) (sym e) (low, others)),
      )

  -- A played row.
  pub play-IsReplay :
      (t key : ℕ) (r : ReplayEngine Buffer) (b : Buffer) (row : RowNode) (rest : List RowNode)
      → IsReady api timeframe_of t r.registry
      → lookup key r.registry ≡ some b
      → rows b ≡ row ∷ rest
      → All (λ (e : ℕ × Buffer). IsStream api timeframe_of (row_time row) e.1) r.registry
      → IsReplay t
          (row_time row)
          r
          (play api timeframe_of r key (fetch_next_node b)).0
          (play api timeframe_of r key (fetch_next_node b)).1
  unfolding play
  play-IsReplay t key r b row rest ready found held streams =
      let b' = (fetch_next_node b).1 in
      let (taken, left) = fetch_first b row rest held in
      let before =
        lookup-All api timeframe_of (IsStream api timeframe_of t) key r.registry found
          ready.streams in
      let now =
        lookup-All api timeframe_of (IsStream api timeframe_of (row_time row)) key r.registry found
          streams in
      let after : IsStream api timeframe_of (row_time row) b' = record {
        with_has_next = (offers_kept b).0 ∙ now.with_has_next;
        with_peek = (offers_kept b).1 ∙ now.with_peek;
        ordered =
            rw left (subst (λ rs. ChronoFrom (row_time row) (map row_time rs)) held now.ordered).1;
      } in
      record {
        in_order =
            rw (taken, event_of-time api timeframe_of r.symbol key row)
              ((subst (λ rs. ChronoFrom t (map row_time rs)) held before.ordered).0, omega arith);
        nothing_lost = rw taken (
            insert-pending api timeframe_of key b' r.symbol r.registry b row found
              (held ∙ ap (◌∷◌ row) (sym left)));
        same_symbol = refl;
        ready = record {
          distinct = insert-Distinct api timeframe_of key b' r.registry ready.distinct;
          streams =
              insert-streams api timeframe_of key b' (IsStream api timeframe_of (row_time row))
                r.registry found after streams;
        };
      }

  quiet-IsReplay :
      (t : ℕ) (before after : ReplayEngine Buffer)
      → after.registry ≡ before.registry
      → after.symbol ≡ before.symbol
      → IsReady api timeframe_of t before.registry
      → IsReplay t t before after []
  quiet-IsReplay t before after e f ready = record {
    in_order = omega arith;
    nothing_lost = rw e (Perm.refl _);
    same_symbol = f;
    ready = rw e ready;
  }

  -- The engine and its events after a choice.
  play_track-IsReplay :
      (t : ℕ) (r : ReplayEngine Buffer)
      → IsReady api timeframe_of t r.registry
      → (t' : ℕ) × IsReplay t t' r
          (play_track api timeframe_of r
            (locate_next_chronological_track api timeframe_of r.registry)).0
          (play_track api timeframe_of r
            (locate_next_chronological_track api timeframe_of r.registry)).1
  unfolding locate_next_chronological_track
  play_track-IsReplay t r ready = elim (List-cases (candidates api timeframe_of r.registry)) [
    | inl e ↦ rw e (t, quiet-IsReplay t r _ refl refl ready)
    | inr (c, cs, e) ↦
        let key = (earliest c cs).1 in
        let (m, (b, row, rest, found, held, here), streams) =
          locate-Choice t r.registry c cs ready e in
        rw e (elim (Bool-cases (key == 0)) [
          | inl blank ↦ rw blank (t, quiet-IsReplay t r _ refl refl ready)
          | inr named ↦
              rw (named, found)
                (
                  row_time row,
                  play-IsReplay t key r b row rest ready found held (
                      subst
                        (λ s. All (λ (e : ℕ × Buffer). IsStream api timeframe_of s e.1) r.registry)
                        here streams),
                )
        ])
  ]

  -- One after the other.
  IsReplay-trans :
      (s t u : ℕ) (r r' r'' : ReplayEngine Buffer) (es fs : List MarketEvent)
      → IsReplay s t r r' es
      → IsReplay t u r' r'' fs
      → IsReplay s u r r'' (es ++ fs)
  IsReplay-trans s t u r r' r'' es fs first second = record {
    in_order = rw (map-append event_time es fs) (
        ChronoTo-append s t u (map event_time es) (map event_time fs) first.in_order
          second.in_order);
    nothing_lost = rw (append_assoc es fs) (
        Perm.trans
          (Perm.append (Perm.refl es) (
            subst
              (λ n.
                Perm (fs ++ pending api timeframe_of n r''.registry)
                  (pending api timeframe_of n r'.registry))
              first.same_symbol second.nothing_lost))
          first.nothing_lost);
    same_symbol = second.same_symbol ∙ first.same_symbol;
    ready = second.ready;
  }

  turn-IsReplay :
      (t : ℕ) (r : ReplayEngine Buffer)
      → IsReady api timeframe_of t r.registry
      → (t' : ℕ) × IsReplay t t' r (turn api timeframe_of r).0 (turn api timeframe_of r).1
  unfolding turn
  turn-IsReplay t r ready =
      let Stepped =
        λ (p : ReplayEngine Buffer × List MarketEvent). (t' : ℕ) × IsReplay t t' r p.0 p.1 in
      let quiet : IsReplay t t r r [] = quiet-IsReplay t r r refl refl ready in
      let played =
        play_track api timeframe_of r
          (locate_next_chronological_track api timeframe_of r.registry) in
      let unpaused = if r.is_paused && not r.is_step_mode then (r, []) else played in
      let stopped = stop_looping api timeframe_of r in
      if_both Stepped (not r.is_looping) (r, []) (if not r.is_running then stopped else unpaused)
        (t, quiet)
        (if_both Stepped (not r.is_running) stopped unpaused
          (t, quiet-IsReplay t r _ refl refl ready)
          (if_both Stepped (r.is_paused && not r.is_step_mode) (r, []) played (t, quiet)
            (play_track-IsReplay t r ready)))

  command-IsReplay :
      (t : ℕ) (c : Command) (r : ReplayEngine Buffer)
      → IsReady api timeframe_of t r.registry
      → IsReplay t t r (command api timeframe_of c r) []
  unfolding command
  command-IsReplay t pause r ready = quiet-IsReplay t r _ refl refl ready
  command-IsReplay t resume r ready = quiet-IsReplay t r _ refl refl ready
  command-IsReplay t step r ready = quiet-IsReplay t r _ refl refl ready
  command-IsReplay t terminate r ready = quiet-IsReplay t r _ refl refl ready

  move-IsReplay :
      (t : ℕ) (m : Move api timeframe_of) (r : ReplayEngine Buffer)
      → IsReady api timeframe_of t r.registry
      → (t' : ℕ) × IsReplay t t' r (move api timeframe_of m r).0 (move api timeframe_of m r).1
  move-IsReplay t turn_taken r ready = turn-IsReplay t r ready
  move-IsReplay t (command_given c) r ready = (t, command-IsReplay t c r ready)

  pub run-IsReplay :
      (ms : List (Move api timeframe_of)) (t : ℕ) (r : ReplayEngine Buffer)
      → IsReady api timeframe_of t r.registry
      → (t' : ℕ) × IsReplay t t' r (run api timeframe_of ms r).0 (run api timeframe_of ms r).1
  unfolding run
  run-IsReplay [] t r ready = (t, quiet-IsReplay t r r refl refl ready)
  run-IsReplay (m ∷ ms) t r ready =
      let (t', first) = move-IsReplay t m r ready in
      let (t'', later) = run-IsReplay ms t' (move api timeframe_of m r).0 first.ready in
      (t'', IsReplay-trans t t' t'' r _ _ _ _ first later)

  -- However turns of the loop and commands of the controller interleave, a replay over buffers with
  -- different keys, each in the order of time from `t` on, publishes events in the order of time,
  -- and what it has published together with what its buffers still hold is what they held at first.
  pub run-chronological :
      (ms : List (Move api timeframe_of)) (t : ℕ) (r : ReplayEngine Buffer)
      → IsReady api timeframe_of t r.registry
      → ChronoFrom t (map event_time (run api timeframe_of ms r).1)
        × Perm
            ((run api timeframe_of ms r).1
              ++ pending api timeframe_of r.symbol (run api timeframe_of ms r).0.registry)
            (pending api timeframe_of r.symbol r.registry)
  run-chronological ms t r ready =
      let (t', replay) = run-IsReplay ms t r ready in
      (ChronoFrom-to t t' _ replay.in_order, replay.nothing_lost)
