-- ===== src/Simulation/Reports.antt =====
-- The consumer of results loses none (simln-lib/src/lib.rs: consume_simulation_results, and
-- simln-lib/src/batched_writer.rs).
use sim_ln.Prelude.{
  ℕ, suc, ◌%◌, ◌≤◌, ◌<◌, ◌≡◌, refl, ap, ◌∙◌, u32_mod, true, false, List, [], ◌∷◌, ◌++◌, Result, ok,
  err, ◌==◌, if-cases, add_u32, arith,
}
use native.Mathlib.Nat.{mod-eq_of_lt}
use sim_ln.Simulation.Types.{SimulationError}
use sim_ln.Simulation.Results.{
  Row, CsvWriter, BatchedWriter, Signal, shutdown, channel_closed, received, write, queue,
}

-- The rows that arrive before the end.
abbrev pub rows_of : List Signal → List Row
rows_of [] = []
rows_of (shutdown ∷ signals) = []
rows_of (channel_closed ∷ signals) = []
rows_of (received row ∷ signals) = row ∷ rows_of signals

-- What the csv library documents: `serialize` writes a record, to a buffer perhaps, and `flush`
-- empties the buffer.
pub record CsvLaws {W : Type 0} (csv : CsvWriter W) : Type 1 where
  pub rows : W → List Row
  pub unflushed : W → ℕ
  pub serialize-lem :
      (row : Row) (w w' : W)
      → csv.serialize row w ≡ (ok tt, w')
      → (rows w' ≡ rows w ++ row ∷ []) × (unflushed w' ≤ suc (unflushed w))
  pub flush-lem : (w w' : W) → csv.flush w ≡ (ok tt, w') → (rows w' ≡ rows w) × (unflushed w' ≡ 0)

module _ {W : Type 0} {csv : CsvWriter W} (laws : CsvLaws csv) where
  -- Fewer rows than a batch are at risk.
  pub record IsBatched (rows : List Row) (b : BatchedWriter W) : Type 0 where
    pub written : laws.rows b.writer ≡ rows
    pub at_risk : laws.unflushed b.writer ≤ b.counter
    pub room : b.counter < b.batch_size
    pub fits : b.batch_size < u32_mod

  -- After a forced write nothing is at risk.
  abbrev pub IsFlushed : List Row → BatchedWriter W → Type 0
  IsFlushed rows b = (laws.rows b.writer ≡ rows) × (laws.unflushed b.writer ≡ 0)

  -- What a call promises if it succeeds.
  abbrev pub IfOk :
      (BatchedWriter W → Type 0) → Result (Unit {0}) SimulationError × BatchedWriter W → Type 0
  IfOk P (ok u, b) = P b
  IfOk P (err e, b) = Unit

  pub flushed :
      (rows : List Row) (b : BatchedWriter W)
      → laws.rows b.writer ≡ rows
      → IfOk
          (λ b'. IsFlushed rows b' × (b'.counter ≡ 0) × (b'.batch_size ≡ b.batch_size))
          (write csv true b)
  unfolding write
  flushed rows b h = go (csv.flush b.writer) refl
    where
      go :
          (r : Result (Unit {0}) SimulationError × W)
          → csv.flush b.writer ≡ r
          → IfOk
              (λ b'. IsFlushed rows b' × (b'.counter ≡ 0) × (b'.batch_size ≡ b.batch_size))
              (r.0, record b { counter = 0; writer = r.1 })
      go (ok u, w) e = let l = laws.flush-lem b.writer w e in ((l.0 ∙ h, l.1), refl, refl)
      go (err f, w) e = tt

  -- A write that is not forced flushes exactly a full batch.
  written_batch :
      (rows : List Row) (b : BatchedWriter W)
      → laws.rows b.writer ≡ rows
      → laws.unflushed b.writer ≤ b.counter
      → b.counter ≤ b.batch_size
      → 0 < b.batch_size
      → b.batch_size < u32_mod
      → IfOk (IsBatched rows) (write csv false b)
  unfolding write
  written_batch rows b h risk full some_batch fits =
      if-cases (IfOk (IsBatched rows)) (b.batch_size == b.counter) _ _
        (λ e. go (csv.flush b.writer) refl)
        (λ e. record { written = h; at_risk = risk; room = ground arith; fits = fits })
    where
      go :
          (r : Result (Unit {0}) SimulationError × W)
          → csv.flush b.writer ≡ r
          → IfOk (IsBatched rows) (r.0, record b { counter = 0; writer = r.1 })
      go (ok u, w) e =
          let l = laws.flush-lem b.writer w e in
          record { written = l.0 ∙ h; at_risk = omega (arith, l.1); room = some_batch; fits = fits }
      go (err f, w) e = tt

  pub queue-IsBatched :
      (rows : List Row) (row : Row) (b : BatchedWriter W)
      → IsBatched rows b
      → IfOk (IsBatched (rows ++ row ∷ [])) (queue csv row b)
  unfolding queue
  queue-IsBatched rows row b batched = go (csv.serialize row b.writer) refl
    where
      counter : add_u32 (b.counter % b.batch_size) 1 ≡ suc b.counter
      counter =
          let below = batched.room in
          let fits = batched.fits in rw (mod-eq_of_lt below) (omega arith)

      go :
          (r : Result (Unit {0}) SimulationError × W)
          → csv.serialize row b.writer ≡ r
          → IfOk (IsBatched (rows ++ row ∷ [])) (elim r.0 [
            | err e ↦ (err e, (write csv true (record b { writer = r.1 })).1)
            | ok _ ↦
                write csv false
                  (record b { counter = add_u32 (b.counter % b.batch_size) 1; writer = r.1 })
          ])
      go (err f, w) e = tt
      go (ok u, w) e =
          let l = laws.serialize-lem row b.writer w e in
          written_batch (rows ++ row ∷ []) _ (l.0 ∙ ap (λ rs. rs ++ row ∷ []) batched.written)
            (omega (arith, counter, l.1, batched.at_risk)) (omega (arith, counter, batched.room))
            (omega (arith, batched.room)) batched.fits
