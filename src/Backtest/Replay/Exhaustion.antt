-- ===== src/Backtest/Replay/Exhaustion.antt =====
-- A replay that nothing interrupts ends, with all rows published.
use apex_xauusd_engine.Prelude.{
  ℕ, zero, suc, ◌≤◌, ◌≡◌, refl, sym, ◌∙◌, ap, true, false, some, List, [], ◌∷◌, ◌++◌, map, length,
  All, ◌==◌, inl, inr, ◌⊎◌, Bool-cases, List-cases, arith,
}
use mathlib.Core.Path.{subst}
use mathlib.Core.Logic.{∥∥₁_elim}
use mathlib.Core.List.{Perm, Permᴰ, append-nil}
use native.Mathlib.Nat.{ℕ_set}
use apex_xauusd_engine.Prelude.Dict.{Dict, insert, lookup}
use apex_xauusd_engine.Domain.{Timeframe}
use apex_xauusd_engine.Backtest.Replay.{
  RowNode, row_time, Buffers, MarketEvent, event_time, ReplayEngine, Move, earliest, candidates,
  locate_next_chronological_track, play, play_track, turn, run, turn_taken,
}
use apex_xauusd_engine.Backtest.Replay.Times.{ChronoFrom, ChronoFrom-to}
use apex_xauusd_engine.Backtest.Replay.Tracks.{IsReady, IsStream, pending, pending_none}
use apex_xauusd_engine.Backtest.Replay.Chronology.{
  IsReplay, locate-Choice, play-IsReplay, run-IsReplay,
}

Permᴰ-length {ℓ} : {A : Type ℓ} {xs ys : List A} → Permᴰ xs ys → length xs ≡ length ys
Permᴰ-length Permᴰ.nil = refl
Permᴰ-length (Permᴰ.cons e p) = ap suc (Permᴰ-length p)
Permᴰ-length (Permᴰ.swap e f) = refl
Permᴰ-length (Permᴰ.trans p q) = Permᴰ-length p ∙ Permᴰ-length q

perm-length {ℓ} : {A : Type ℓ} {xs ys : List A} → Perm xs ys → length xs ≡ length ys
perm-length {A} {xs} {ys} p = ∥∥₁_elim p (ℕ_set (length xs) (length ys)) Permᴰ-length

module _ (api : Buffers) (timeframe_of : ℕ → Timeframe) where
  open api use {Buffer, rows, fetch_next_node}

  -- No key is the empty text, at which the loop ends.
  abbrev pub Named : Dict Buffer → Type 0
  Named = All (λ (e : ℕ × Buffer). (e.0 == 0) ≡ false)

  Named-lookup :
      (key : ℕ) (registry : Dict Buffer) {b : Buffer}
      → lookup key registry ≡ some b
      → Named registry
      → (key == 0) ≡ false
  Named-lookup key [] found named = cc
  Named-lookup key ((at, b0) ∷ registry) found named = elim (Bool-cases (key == at)) [
    | inl e ↦ ground (arith, named.0)
    | inr e ↦ Named-lookup key registry (rw e at found) named.1
  ]

  Named-insert :
      (key : ℕ) (b' : Buffer) (registry : Dict Buffer)
      → (key == 0) ≡ false
      → Named registry
      → Named (insert key b' registry)
  Named-insert key b' [] fresh named = (fresh, tt)
  Named-insert key b' ((at, b0) ∷ registry) fresh named = elim (Bool-cases (key == at)) [
    | inl e ↦ rw e (fresh, named.1)
    | inr e ↦ rw e (named.0, Named-insert key b' registry fresh named.1)
  ]

  -- A loop that is running and neither paused nor in step mode.
  pub record IsPlaying (t : ℕ) (r : ReplayEngine Buffer) : Type 0 where
    pub ready : IsReady api timeframe_of t r.registry
    pub named : Named r.registry
    pub looping : r.is_looping ≡ true
    pub running : r.is_running ≡ true
    pub unpaused : r.is_paused ≡ false
    pub freely : r.is_step_mode ≡ false

  -- The loop has ended, and nothing is pending.
  abbrev pub Ended : ReplayEngine Buffer → Type 0
  Ended r = (r.is_looping ≡ false) × (pending api timeframe_of r.symbol r.registry ≡ [])

  -- A turn either ends the loop with nothing pending, or leaves one event less.
  abbrev Advance : ReplayEngine Buffer → ReplayEngine Buffer × List MarketEvent → Type 0
  Advance r after =
      Ended after.0
      ⊎ ((t : ℕ) × IsPlaying t after.0
          × (suc (length (pending api timeframe_of after.0.symbol after.0.registry))
              ≡ length (pending api timeframe_of r.symbol r.registry)))

  -- The tests before the scheduler is asked let such a loop pass.
  turn_plays :
      (t : ℕ) (r : ReplayEngine Buffer)
      → IsPlaying t r
      → turn api timeframe_of r
        ≡ play_track api timeframe_of r
            (locate_next_chronological_track api timeframe_of r.registry)
  unfolding turn
  turn_plays t r p = simp (p.looping, p.running, p.unpaused)

  play-Advance :
      (t t' key : ℕ) (r : ReplayEngine Buffer) (taken : RowNode × Buffer)
      → IsPlaying t r
      → (key == 0) ≡ false
      → IsReplay api timeframe_of t t' r
          (play api timeframe_of r key taken).0
          (play api timeframe_of r key taken).1
      → Advance r (play api timeframe_of r key taken)
  unfolding play
  play-Advance t t' key r taken p fresh replay = inr (
    t',
    record {
      ready = replay.ready;
      named = Named-insert key taken.1 r.registry fresh p.named;
      looping = p.looping;
      running = p.running;
      unpaused = rw (p.freely, p.unpaused);
      freely = refl;
    },
    perm-length replay.nothing_lost,
  )

  play_track-Advance :
      (t : ℕ) (r : ReplayEngine Buffer)
      → IsPlaying t r
      → Advance r (
          play_track api timeframe_of r
            (locate_next_chronological_track api timeframe_of r.registry))
  unfolding locate_next_chronological_track
  play_track-Advance t r p = elim (List-cases (candidates api timeframe_of r.registry)) [
    | inl e ↦ rw e (inl (refl, pending_none api timeframe_of t r.symbol r.registry p.ready e))
    | inr (c, cs, e) ↦
        let key = (earliest c cs).1 in
        let (m, (b, row, rest, found, held, here), streams) =
          locate-Choice api timeframe_of t r.registry c cs p.ready e in
        let named = Named-lookup key r.registry found p.named in
        let replay = play-IsReplay api timeframe_of t key r b row rest p.ready found held (
          subst (λ s. All (λ (e : ℕ × Buffer). IsStream api timeframe_of s e.1) r.registry) here
            streams) in
        rw (e, named, found)
          (play-Advance t (row_time row) key r (fetch_next_node b) p named replay)
  ]

  -- Turns without any command in between.
  abbrev pub turns : ℕ → List (Move api timeframe_of)
  turns zero = []
  turns (suc n) = turn_taken ∷ turns n

  turn_off : (r : ReplayEngine Buffer) → r.is_looping ≡ false → turn api timeframe_of r ≡ (r, [])
  unfolding turn
  turn_off r off = simp off

  turns_off :
      (n : ℕ) (r : ReplayEngine Buffer) → Ended r → Ended (run api timeframe_of (turns n) r).0
  unfolding run
  turns_off zero r ended = ended
  turns_off (suc n) r ended =
      subst
        (λ (q : ReplayEngine Buffer × List MarketEvent).
          Ended (run api timeframe_of (turns n) q.0).0)
        (sym (turn_off r ended.0)) (turns_off n r ended)

  turn-Advance :
      (t : ℕ) (r : ReplayEngine Buffer) → IsPlaying t r → Advance r (turn api timeframe_of r)
  turn-Advance t r p = subst (Advance r) (sym (turn_plays t r p)) (play_track-Advance t r p)

  turns-Ended :
      (n t : ℕ) (r : ReplayEngine Buffer)
      → IsPlaying t r
      → length (pending api timeframe_of r.symbol r.registry) ≤ n
      → Ended (run api timeframe_of (turns (suc n)) r).0
  unfolding run
  turns-Ended zero t r p enough = elim (turn-Advance t r p) [
    | inl ended ↦ ended
    | inr (t', p', less) ↦ absurd (omega arith)
  ]
  turns-Ended (suc n) t r p enough = elim (turn-Advance t r p) [
    | inl ended ↦ turns_off (suc n) (turn api timeframe_of r).0 ended
    | inr (t', p', less) ↦ turns-Ended n t' (turn api timeframe_of r).0 p' (omega arith)
  ]

  -- A loop that is running, neither paused nor in step mode, over named tracks with different keys
  -- that are each in the order of time, ends within one turn more than it has rows. It has then
  -- published all of them, in the order of time.
  pub launch_replay_loop_ends :
      (t : ℕ) (r : ReplayEngine Buffer)
      → IsPlaying t r
      → let published = pending api timeframe_of r.symbol r.registry in
        let done = run api timeframe_of (turns (suc (length published))) r in
        (done.0.is_looping ≡ false) × ChronoFrom t (map event_time done.1) × Perm done.1 published
  launch_replay_loop_ends t r p =
      let n = length (pending api timeframe_of r.symbol r.registry) in
      let ended = turns-Ended n t r p (omega arith) in
      let last = (run api timeframe_of (turns (suc n)) r).0 in
      let (t', replay) = run-IsReplay api timeframe_of (turns (suc n)) t r p.ready in
      let none_left =
        subst (λ s. pending api timeframe_of s last.registry ≡ []) replay.same_symbol ended.1 in
      (
        ended.0,
        ChronoFrom-to t t' _ replay.in_order,
        subst (λ (xs : List MarketEvent). Perm xs (pending api timeframe_of r.symbol r.registry))
            (append-nil _)
            (subst
              (λ (es : List MarketEvent).
                Perm ((run api timeframe_of (turns (suc n)) r).1 ++ es)
                  (pending api timeframe_of r.symbol r.registry))
              none_left replay.nothing_lost),
      )
